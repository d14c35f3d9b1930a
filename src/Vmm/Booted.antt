-- ===== src/Vmm/Booted.antt =====
-- The vCPUs that `configure_vcpus` leaves are all set to boot, whatever KVM answers.
use lumper.Base.{
  ℕ, zero, suc, ◌+◌, ◌≡◌, refl, ◌∙◌, sym, ap, subst, Bool, some, List, [], ◌∷◌, ◌++◌, Result, ok,
  err, Eff, proceed,
}
use lumper.Memory.{GuestMemory}
use lumper.Cpuid.{CpuidEntry, filter_cpuid}
use lumper.Mptable
use lumper.Mptable.Setup.{setup_mptable}
use lumper.Interrupts.{apic_lvt0, apic_lvt1, apic_mode_extint, apic_mode_nmi}
use lumper.Vcpu.{Kvm, World, VcpuError, boot_sregs}
use lumper.Vcpu.Lapic.{Delivers}
use lumper.Vcpu.Observed.{View, Keeps, Booted}
use lumper.Vcpu.Booted.{
  proceed-ok, configure_cpuid-seen, configure_msrs-seen, configure_regs-seen, configure_sregs-seen,
  configure_fpu-seen, configure_lapic-seen,
}
use lumper.Vmm.{KvmVm, VcpuHandle, Machine, MachineError, with_vm}
use lumper.Vmm.Vcpus.{
  configure_vcpu, with_table, pushed, created, write_mptable, add_vcpu, add_vcpus, configure_vcpus,
}

module _ (G : GuestMemory) (K : Kvm) (Q : Keeps K) where
  configure_vcpu-Booted :
      (tsc : Bool) (base_cpuid : List CpuidEntry) (num_vcpus kernel_load index : ℕ)
      (w w' : World G K)
      → configure_vcpu G K tsc base_cpuid num_vcpus kernel_load index w ≡ (w', ok tt)
      → Booted K
          (Q.view w.vcpu)
          (Q.view w'.vcpu)
          (filter_cpuid tsc index num_vcpus base_cpuid)
          kernel_load
  unfolding configure_vcpu
  configure_vcpu-Booted tsc base_cpuid num_vcpus kernel_load index w w' e =
      let cpuid = proceed-ok _ _ w' tt e in
      let msrs = proceed-ok _ _ w' tt cpuid.3 in
      let regs = proceed-ok _ _ w' tt msrs.3 in
      let sregs = proceed-ok _ _ w' tt regs.3 in
      let fpu = proceed-ok _ _ w' tt sregs.3 in
      let block = configure_msrs-seen G K Q cpuid.0 msrs.0 msrs.2 in
      let lapic = configure_lapic-seen G K Q fpu.0 w' fpu.3 in
      let before_lapic : Q.view fpu.0.vcpu ≡ record {
        cpuid = filter_cpuid tsc index num_vcpus base_cpuid;
        msrs = some block.0;
        regs = record { rflags = 0x2; rip = kernel_load; rsp = 0x8ff0; rbp = 0x8ff0; rsi = 0x7000 };
        sregs = boot_sregs (Q.view w.vcpu).sregs;
        fpu = record { fcw = 0x37f; mxcsr = 0x1f80 };
        lapic = (Q.view w.vcpu).lapic;
      } =
        configure_fpu-seen G K Q sregs.0 fpu.0 fpu.2
        ∙ ap (λ (v : View K). record v { fpu = record { fcw = 0x37f; mxcsr = 0x1f80 } })
            (configure_sregs-seen G K Q regs.0 sregs.0 sregs.2
              ∙ ap (λ (v : View K). record v { sregs = boot_sregs v.sregs })
                  (configure_regs-seen G K Q kernel_load msrs.0 regs.0 regs.2
                    ∙ ap
                        (λ (v : View K). record v {
                          regs = record {
                            rflags = 0x2;
                            rip = kernel_load;
                            rsp = 0x8ff0;
                            rbp = 0x8ff0;
                            rsi = 0x7000;
                          };
                        })
                        (block.2
                          ∙ ap (λ (v : View K). record v { msrs = some block.0 })
                              (configure_cpuid-seen G K Q
                                (filter_cpuid tsc index num_vcpus base_cpuid) w cpuid.0
                                cpuid.2)))) in
      let all = lapic.4 ∙ ap (λ (v : View K). record v { lapic = lapic.1 }) before_lapic in
      record {
        cpuid_set = ap (λ (v : View K). v.cpuid) all;
        block = block.0;
        block_made = block.1;
        msrs_set = ap (λ (v : View K). v.msrs) all;
        regs_set = ap (λ (v : View K). v.regs) all;
        sregs_set = ap (λ (v : View K). v.sregs) all;
        fpu_set = ap (λ (v : View K). v.fpu) all;
        middle = lapic.0;
        lint0 =
            subst (λ l. Delivers l lapic.0 apic_lvt0 apic_mode_extint)
              (ap (λ (v : View K). v.lapic) before_lapic) lapic.2;
        lint1 =
            subst (λ l. Delivers lapic.0 l apic_lvt1 apic_mode_nmi)
              (sym (ap (λ (v : View K). v.lapic) all)) lapic.3;
      }

module _ (Cause : Type 0) (G : GuestMemory) (K : Kvm) (V : KvmVm K) (Q : Keeps K)
    (num_vcpus kernel_load : ℕ) where
  -- A vCPU that was made by KVM and then set to boot, with the CPUID for its index.
  pub record IsBooting (h : VcpuHandle K) : Type 0 where
    pub asked : V.Vm
    pub supported : List CpuidEntry
    pub supported_got : (V.get_supported_cpuid asked).1 ≡ ok supported
    pub vm : V.Vm
    pub before : K.State
    pub made : (V.create_vcpu h.index vm).1 ≡ ok before
    pub booted :
        Booted K
          (Q.view before)
          (Q.view h.state)
          (filter_cpuid
            (V.tsc_deadline_timer (V.create_vcpu h.index vm).0)
            h.index
            num_vcpus
            supported)
          kernel_load

  abbrev pub AllBooting : List (VcpuHandle K) → Type 0
  AllBooting [] = Unit
  AllBooting (h ∷ hs) = IsBooting h × AllBooting hs

  AllBooting-append :
      (hs : List (VcpuHandle K)) (h : VcpuHandle K)
      → AllBooting hs
      → IsBooting h
      → AllBooting (hs ++ (h ∷ []))
  AllBooting-append [] h all one = (one, tt)
  AllBooting-append (g ∷ hs) h (first, all) one = (first, AllBooting-append hs h all one)

  abbrev Outcome : Type 0
  Outcome = Machine Cause G K V × Result (MachineError Cause G K V) (Unit {0})

  module _ (asked : V.Vm) (supported : List CpuidEntry)
      (supported_got : (V.get_supported_cpuid asked).1 ≡ ok supported) where
    pushed-AllBooting :
        (index : ℕ) (vm : V.Vm) (before : K.State) (m : Machine Cause G K V)
        (p : World G K × Result (VcpuError G K) (Unit {0}))
        → (V.create_vcpu index vm).1 ≡ ok before
        → configure_vcpu G K
            (V.tsc_deadline_timer (V.create_vcpu index vm).0)
            supported
            num_vcpus
            kernel_load
            index
            (record { memory = m.memory; vcpu = before })
          ≡ p
        → AllBooting m.vcpus
        → AllBooting (pushed Cause G K V m index p).0.vcpus
    pushed-AllBooting index vm before m (w, ok done) made e all =
        AllBooting-append m.vcpus (record { index = index; state = w.vcpu }) all
          (record {
            asked = asked;
            supported = supported;
            supported_got = supported_got;
            vm = vm;
            before = before;
            made = made;
            booted =
                configure_vcpu-Booted G K Q _ supported num_vcpus kernel_load index
                  (record { memory = m.memory; vcpu = before }) w e;
          })
    pushed-AllBooting index vm before m (w, err x) made e all = all

    created-AllBooting :
        (index : ℕ) (m : Machine Cause G K V) (p : V.Vm × Result K.KvmError K.State)
        → V.create_vcpu index m.vm ≡ p
        → AllBooting m.vcpus
        → AllBooting (created Cause G K V supported num_vcpus kernel_load index m p).0.vcpus
    created-AllBooting index m (vm, ok state) e all =
        pushed-AllBooting index m.vm state (record m { vm = vm }) _ (ap (λ p. p.1) e)
          (ap
            (λ p.
              configure_vcpu G K (V.tsc_deadline_timer p.0) supported num_vcpus kernel_load index
                (record { memory = m.memory; vcpu = state }))
            e)
          all
    created-AllBooting index m (vm, err x) e all = all

    later_rounds :
        (out : Outcome) (f : Eff (Machine Cause G K V) (MachineError Cause G K V) (Unit {0}))
        → AllBooting out.0.vcpus
        → ((m : Machine Cause G K V) → AllBooting m.vcpus → AllBooting (f m).0.vcpus)
        → AllBooting (proceed out (λ done. f)).0.vcpus
    later_rounds (m, ok done) f all rest = rest m all
    later_rounds (m, err x) f all rest = all

    add_vcpus-AllBooting :
        (left index : ℕ) (m : Machine Cause G K V)
        → AllBooting m.vcpus
        → AllBooting (add_vcpus Cause G K V supported num_vcpus kernel_load left index m).0.vcpus
    unfolding add_vcpus add_vcpu
    add_vcpus-AllBooting zero index m all = all
    add_vcpus-AllBooting (suc left) index m all =
        later_rounds (add_vcpu Cause G K V supported num_vcpus kernel_load index m)
          (add_vcpus Cause G K V supported num_vcpus kernel_load left (index + 1))
          (created-AllBooting index m (V.create_vcpu index m.vm) refl all)
          (λ m' all'. add_vcpus-AllBooting left (index + 1) m' all')

  after_cpuid :
      (m : Machine Cause G K V) (p : V.Vm × Result K.KvmError (List CpuidEntry))
      → V.get_supported_cpuid m.vm ≡ p
      → AllBooting m.vcpus
      → AllBooting
          (proceed
            (with_vm Cause G K V m p)
            (λ c. add_vcpus Cause G K V c num_vcpus kernel_load num_vcpus 0)).0.vcpus
  after_cpuid m (vm, ok c) e all =
      add_vcpus-AllBooting m.vm c (ap (λ p. p.1) e) num_vcpus 0 (record m { vm = vm }) all
  after_cpuid m (vm, err x) e all = all

  after_table :
      (m : Machine Cause G K V) (p : G.State × Result Mptable.Error (Unit {0}))
      → AllBooting m.vcpus
      → AllBooting
          (proceed (with_table Cause G K V m p) (λ done m'.
            proceed
              (with_vm Cause G K V m' (V.get_supported_cpuid m'.vm))
              (λ c. add_vcpus Cause G K V c num_vcpus kernel_load num_vcpus 0))).0.vcpus
  after_table m (memory, ok done) all =
      after_cpuid (record m { memory = memory }) (V.get_supported_cpuid m.vm) refl all
  after_table m (memory, err e) all = all

  -- Whatever KVM answers, every vCPU that `configure_vcpus` leaves on a machine that had none was made
  -- by KVM for its index and then given, each part as KVM keeps it: its CPUID, filtered for its index
  -- and the number of vCPUs; the boot MSRs; the start address of the kernel, the boot stack and the
  -- zero page in its registers; the special registers of 64-bit mode; the state of the floating point
  -- unit; and a local APIC with external interrupts on the first pin and NMIs on the second.
  pub configure_vcpus-AllBooting :
      (m : Machine Cause G K V)
      → m.vcpus ≡ []
      → AllBooting (configure_vcpus Cause G K V num_vcpus kernel_load m).0.vcpus
  unfolding configure_vcpus write_mptable
  configure_vcpus-AllBooting m none_yet =
      after_table m (setup_mptable G num_vcpus m.memory) (subst AllBooting (sym none_yet) tt)

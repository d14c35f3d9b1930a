-- ===== src/Vcpu/Booted.antt =====
-- The state of a vCPU after its `configure_*` operations, as KVM gives it back.
use lumper.Base.{
  ℕ, ◌+◌, ◌≤◌, ◌≡◌, refl, ◌∙◌, sym, ap, subst, Bool, true, false, Option, none, some, List, arith,
  length, Result, ok, err, Eff, proceed, pure, fail, ◌==◌, u32, if◌then◌else◌,
}
use lumper.Base.Bytes.{AreBytes}
use lumper.Memory.{GuestMemory}
use lumper.Interrupts.{apic_lvt0, apic_lvt1, apic_mode_extint, apic_mode_nmi}
use lumper.Cpuid.{CpuidEntry}
use lumper.Msrs
use lumper.Gdt.{write_gdt_table, write_idt_value}
use lumper.Vcpu.{
  Kvm, World, VcpuError, set_model_specific_registers_count, created, expected, with_vcpu,
  with_memory, boot_sregs, gdt_table, write_page_tables, configure_cpuid, configure_msrs,
  configure_regs, configure_sregs, configure_fpu, configure_lapic,
}
use lumper.Vcpu.Lapic.{Delivers, ConfiguresLapic, configure_lapic-ConfiguresLapic}
use lumper.Vcpu.Observed.{View, Keeps}

-- A chain that succeeds has succeeded in each of its steps.
pub proceed-ok :
    {S E A B : Type 0} (p : S × Result E A) (f : A → Eff S E B) (s' : S) (b : B)
    → proceed p f ≡ (s', ok b)
    → (s : S) × (a : A) × (p ≡ (s, ok a)) × (f a s ≡ (s', ok b))
proceed-ok (s, ok a) f s' b e = (s, a, refl, e)
proceed-ok (s, err x) f s' b e = cc

module _ (G : GuestMemory) (K : Kvm) where
  given :
      {A : Type 0} (o : Option A) (b : A)
      → ◌≡◌ {A = Result Msrs.Error A}
          (elim o [ none ↦ err Msrs.create_msrs | some msrs ↦ ok msrs ])
          (ok b)
      → o ≡ some b
  given none b e = cc
  given (some a) b e = cc

  enough : (n m : ℕ) → (u32 n == m) ≡ true → m ≤ n
  enough n m e = ground (arith, e)

  after_vcpu :
      {A : Type 0} (w w' : World G K) (p : K.State × Result K.KvmError A) (a : A)
      → with_vcpu G K w p ≡ (w', ok a)
      → (p.1 ≡ ok a) × (w'.vcpu ≡ p.0)
  after_vcpu w w' (s, ok b) a e = (cc, cc)
  after_vcpu w w' (s, err x) a e = cc

  after_memory :
      {A : Type 0} (w w' : World G K) (p : G.State × Result G.MemoryError A) (a : A)
      → with_memory G K w p ≡ (w', ok a)
      → w'.vcpu ≡ w.vcpu
  after_memory w w' (m, ok b) a e = cc
  after_memory w w' (m, err x) a e = cc

  after_created :
      (w w' : World G K) (r : Result Msrs.Error K.MsrBlock) (b : K.MsrBlock)
      → created G K r w ≡ (w', ok b)
      → (r ≡ ok b) × (w' ≡ w)
  after_created w w' (ok c) b e = (cc, cc)
  after_created w w' (err x) b e = cc

  after_test :
      (t : Bool) (w w' : World G K)
      → (if t then pure {E = VcpuError G K} tt else fail set_model_specific_registers_count) w
        ≡ (w', ok tt)
      → (t ≡ true) × (w' ≡ w)
  after_test true w w' e = (refl, cc)
  after_test false w w' e = cc

  after_expected :
      {A : Type 0} (o : Option A) (w w' : World G K) (a : A)
      → expected G K o w ≡ (w', ok a)
      → (o ≡ some a) × (w' ≡ w)
  after_expected (some b) w w' a e = (cc, cc)
  after_expected none w w' a e = cc

  module _ (Q : Keeps K) where
    abbrev seen : World G K → View K
    seen w = Q.view w.vcpu

    pub configure_cpuid-seen :
        (c : List CpuidEntry) (w w' : World G K)
        → configure_cpuid G K c w ≡ (w', ok tt)
        → seen w' ≡ record (seen w) { cpuid = c }
    unfolding configure_cpuid
    configure_cpuid-seen c w w' e =
        let h = after_vcpu w w' (K.set_cpuid2 c w.vcpu) tt e in
        ap Q.view h.1 ∙ Q.set_cpuid2 c w.vcpu h.0

    pub configure_regs-seen :
        (kernel_load : ℕ) (w w' : World G K)
        → configure_regs G K kernel_load w ≡ (w', ok tt)
        → seen w' ≡ record (seen w) {
          regs = record {
            rflags = 0x2;
            rip = kernel_load;
            rsp = 0x8ff0;
            rbp = 0x8ff0;
            rsi = 0x7000;
          };
        }
    unfolding configure_regs
    configure_regs-seen kernel_load w w' e =
        let h =
          after_vcpu w w'
            (K.set_regs
              (record { rflags = 0x2; rip = kernel_load; rsp = 0x8ff0; rbp = 0x8ff0; rsi = 0x7000 })
              w.vcpu)
            tt e in
        ap Q.view h.1 ∙ Q.set_regs _ w.vcpu h.0

    pub configure_fpu-seen :
        (w w' : World G K)
        → configure_fpu G K w ≡ (w', ok tt)
        → seen w' ≡ record (seen w) { fpu = record { fcw = 0x37f; mxcsr = 0x1f80 } }
    unfolding configure_fpu
    configure_fpu-seen w w' e =
        let h = after_vcpu w w' (K.set_fpu (record { fcw = 0x37f; mxcsr = 0x1f80 }) w.vcpu) tt e in
        ap Q.view h.1 ∙ Q.set_fpu _ w.vcpu h.0

    pub configure_msrs-seen :
        (w w' : World G K)
        → configure_msrs G K w ≡ (w', ok tt)
        → (b : K.MsrBlock) × (K.msrs_from_entries Msrs.raw_msrs ≡ some b)
          × (seen w' ≡ record (seen w) { msrs = some b })
    unfolding configure_msrs Msrs.create_boot_msr_entries
    configure_msrs-seen w w' e =
        let made = proceed-ok _ _ w' tt e in
        let block =
          after_created w made.0 (Msrs.create_boot_msr_entries K.msrs_from_entries) made.1 made.2 in
        let wrote = proceed-ok _ _ w' tt made.3 in
        let sent = after_vcpu made.0 wrote.0 (K.set_msrs made.1 made.0.vcpu) wrote.1 wrote.2 in
        let tested = after_test (u32 wrote.1 == K.nmsrs made.1) wrote.0 w' wrote.3 in
        (
          made.1,
          given (K.msrs_from_entries Msrs.raw_msrs) made.1 block.0,
          ap seen tested.1
              ∙ ap Q.view sent.1
              ∙ Q.set_msrs made.1 wrote.1 made.0.vcpu sent.0
                  (enough wrote.1 (K.nmsrs made.1) tested.0)
              ∙ ap (λ (v : World G K). record (seen v) { msrs = some made.1 }) block.1,
        )

    pub configure_sregs-seen :
        (w w' : World G K)
        → configure_sregs G K w ≡ (w', ok tt)
        → seen w' ≡ record (seen w) { sregs = boot_sregs (seen w).sregs }
    unfolding configure_sregs
    configure_sregs-seen w w' e =
        let got = proceed-ok _ _ w' tt e in
        let read = after_vcpu w got.0 (K.get_sregs w.vcpu) got.1 got.2 in
        let gdt = proceed-ok _ _ w' tt got.3 in
        let idt = proceed-ok _ _ w' tt gdt.3 in
        let pages = proceed-ok _ _ w' tt idt.3 in
        let h = after_vcpu pages.0 w' (K.set_sregs (boot_sregs got.1) pages.0.vcpu) tt pages.3 in
        let kept = Q.get_sregs got.1 w.vcpu read.0 in
        let same : pages.0.vcpu ≡ (K.get_sregs w.vcpu).0 =
          after_memory idt.0 pages.0 (write_page_tables G idt.0.memory) pages.1 pages.2
          ∙ after_memory gdt.0 idt.0 (write_idt_value G 0 gdt.0.memory) idt.1 idt.2
          ∙ after_memory got.0 gdt.0 (write_gdt_table G gdt_table got.0.memory) gdt.1 gdt.2
          ∙ read.1 in
        ap Q.view h.1
        ∙ Q.set_sregs _ pages.0.vcpu h.0
        ∙ ap (λ (v : View K). record v { sregs = boot_sregs got.1 }) (ap Q.view same ∙ kept.1)
        ∙ ap (λ r. record (seen w) { sregs = boot_sregs r }) kept.0

    lapic_read :
        (w w' : World G K)
        → configure_lapic G K w ≡ (w', ok tt)
        → (regs : List ℕ) × ((K.get_lapic w.vcpu).1 ≡ ok regs)
    unfolding configure_lapic
    lapic_read w w' e =
        let got = proceed-ok _ _ w' tt e in
        (got.1, (after_vcpu w got.0 (K.get_lapic w.vcpu) got.1 got.2).0)

    pub configure_lapic-seen :
        (w w' : World G K)
        → configure_lapic G K w ≡ (w', ok tt)
        → (middle final : List ℕ) × Delivers (seen w).lapic middle apic_lvt0 apic_mode_extint
          × Delivers middle final apic_lvt1 apic_mode_nmi
          × (seen w' ≡ record (seen w) { lapic = final })
    configure_lapic-seen w w' e = (
      c.middle,
      c.final,
      subst (λ r. Delivers r c.middle apic_lvt0 apic_mode_extint) kept.0 c.lint0,
      c.lint1,
      ap Q.view h.1
          ∙ Q.set_lapic c.final _ h.0
          ∙ ap (λ (v : View K). record v { lapic = c.final }) kept.1,
    )
      where
        read : (regs : List ℕ) × ((K.get_lapic w.vcpu).1 ≡ ok regs)
        read = lapic_read w w' e

        page : AreBytes read.0 × (apic_lvt1 + 4 ≤ length read.0)
        page = Q.lapic_page read.0 w.vcpu read.1

        c : ConfiguresLapic G K w (K.get_lapic w.vcpu).0 read.0
        c =
            configure_lapic-ConfiguresLapic G K w (K.get_lapic w.vcpu).0 read.0
              (λ i. ((K.get_lapic w.vcpu).0, read.1 i)) page.0 page.1

        h :
            ((K.set_lapic c.final (K.get_lapic w.vcpu).0).1 ≡ ok tt)
            × (w'.vcpu ≡ (K.set_lapic c.final (K.get_lapic w.vcpu).0).0)
        h =
            after_vcpu (record w { vcpu = (K.get_lapic w.vcpu).0 }) w'
              (K.set_lapic c.final (K.get_lapic w.vcpu).0) tt (sym c.outcome ∙ e)

        kept : (read.0 ≡ (seen w).lapic) × (Q.view (K.get_lapic w.vcpu).0 ≡ seen w)
        kept = Q.get_lapic read.0 w.vcpu read.1

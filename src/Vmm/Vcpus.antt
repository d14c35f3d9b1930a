-- ===== src/Vmm/Vcpus.antt =====
-- `configure_vcpus`: the MP table, and then every vCPU from its creation to its local APIC.
use lumper.Base.{
  ℕ, zero, suc, ◌+◌, Bool, List, [], ◌∷◌, ◌++◌, Result, ok, err, Eff, ◌>>=◌, ◌>>◌, pure,
}
use lumper.Memory.{GuestMemory}
use lumper.Cpuid.{CpuidEntry, filter_cpuid}
use lumper.Errors.{vcpu}
use lumper.Mptable
use lumper.Mptable.Setup.{setup_mptable}
use lumper.Vcpu
use lumper.Vcpu.{
  Kvm, World, VcpuError, mptable, configure_cpuid, configure_msrs, configure_regs, configure_sregs,
  configure_fpu, configure_lapic,
}
use lumper.Vmm.{KvmVm, Machine, MachineError, on_vm}

module _ (G : GuestMemory) (K : Kvm) where
  -- The calls on a new vCPU, in their order.
  unfoldable pub configure_vcpu :
      Bool → List CpuidEntry → ℕ → ℕ → ℕ → Eff (World G K) (VcpuError G K) (Unit {0})
  configure_vcpu tsc_deadline_timer base_cpuid num_vcpus kernel_load index = do
    configure_cpuid G K (filter_cpuid tsc_deadline_timer index num_vcpus base_cpuid)
    configure_msrs G K
    configure_regs G K kernel_load
    configure_sregs G K
    configure_fpu G K
    configure_lapic G K

module _ (Cause : Type 0) (G : GuestMemory) (K : Kvm) (V : KvmVm K) where
  abbrev pub with_table :
      Machine Cause G K V
      → G.State × Result Mptable.Error (Unit {0})
      → Machine Cause G K V × Result (MachineError Cause G K V) (Unit {0})
  with_table m (memory, ok done) = (record m { memory = memory }, ok done)
  with_table m (memory, err e) = (record m { memory = memory }, err (vcpu (mptable e)))

  unfoldable pub write_mptable : ℕ → Eff (Machine Cause G K V) (MachineError Cause G K V) (Unit {0})
  write_mptable num_vcpus m = with_table m (setup_mptable G num_vcpus m.memory)

  -- `self.vcpus.push(vcpu)`; a vCPU that fails is dropped, with what it wrote to memory left there.
  abbrev pub pushed :
      Machine Cause G K V
      → ℕ
      → World G K × Result (VcpuError G K) (Unit {0})
      → Machine Cause G K V × Result (MachineError Cause G K V) (Unit {0})
  pushed m index (w, ok done) = (
    record m {
      memory = w.memory;
      vcpus = m.vcpus ++ (record { index = index; state = w.vcpu } ∷ []);
    },
    ok tt,
  )
  pushed m index (w, err e) = (record m { memory = w.memory }, err (vcpu e))

  abbrev pub created :
      List CpuidEntry
      → ℕ
      → ℕ
      → ℕ
      → Machine Cause G K V
      → V.Vm × Result K.KvmError K.State
      → Machine Cause G K V × Result (MachineError Cause G K V) (Unit {0})
  created base_cpuid num_vcpus kernel_load index m (vm, ok state) =
      pushed (record m { vm = vm }) index
        (configure_vcpu G K (V.tsc_deadline_timer vm) base_cpuid num_vcpus kernel_load index
          (record { memory = m.memory; vcpu = state }))
  created base_cpuid num_vcpus kernel_load index m (vm, err e) =
      (record m { vm = vm }, err (vcpu (Vcpu.kvm_ioctl e)))

  -- One round of the loop, from `Vcpu::new` on.
  unfoldable pub add_vcpu :
      List CpuidEntry → ℕ → ℕ → ℕ → Eff (Machine Cause G K V) (MachineError Cause G K V) (Unit {0})
  add_vcpu base_cpuid num_vcpus kernel_load index m =
      created base_cpuid num_vcpus kernel_load index m (V.create_vcpu index m.vm)

  -- `for index in 0..num_vcpus`, with the rounds that are left.
  unfoldable pub add_vcpus :
      List CpuidEntry
      → ℕ
      → ℕ
      → ℕ
      → ℕ
      → Eff (Machine Cause G K V) (MachineError Cause G K V) (Unit {0})
  add_vcpus base_cpuid num_vcpus kernel_load zero index = pure tt
  add_vcpus base_cpuid num_vcpus kernel_load (suc left) index = do
    add_vcpu base_cpuid num_vcpus kernel_load index
    add_vcpus base_cpuid num_vcpus kernel_load left (index + 1)

  unfoldable pub configure_vcpus :
      ℕ → ℕ → Eff (Machine Cause G K V) (MachineError Cause G K V) (Unit {0})
  configure_vcpus num_vcpus kernel_load = do
    write_mptable num_vcpus
    base_cpuid ← on_vm Cause G K V V.get_supported_cpuid
    add_vcpus base_cpuid num_vcpus kernel_load num_vcpus 0

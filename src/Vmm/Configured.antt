-- ===== src/Vmm/Configured.antt =====
-- One vCPU on a KVM that serves every call comes through its configuration, and leaves guest memory
-- ready to boot from.
use lumper.Base.{
  ℕ, ◌+◌, ◌^◌, ◌≤◌, ◌<◌, ◌≡◌, refl, ◌∙◌, ◌⊎◌, Bool, true, some, List, arith, length, u32, ◌==◌,
  eq→==, Result, ok, Eff,
}
use lumper.Base.Bytes.{AreBytes}
use lumper.Memory.{GuestMemory, IsLawful}
use lumper.Interrupts.{apic_lvt1}
use lumper.Cpuid.{CpuidEntry, filter_cpuid}
use lumper.Msrs
use lumper.Gdt.{boot_gdt_offset, boot_idt_offset}
use lumper.Vcpu.{
  Kvm, KvmRegs, KvmFpu, KvmSregs, World, VcpuError, on_vcpu, pml4_start, pde_start, boot_sregs,
  configure_cpuid, configure_msrs, configure_regs, configure_sregs, configure_fpu, configure_lapic,
}
use lumper.Vcpu.PageTables.{CoversBoot}
use lumper.Vcpu.BootState.{HasBootMemory, Boots, configure_sregs-Boots}
use lumper.Vcpu.Lapic.{ConfiguresLapic, configure_lapic-ConfiguresLapic}
use lumper.Vmm.Vcpus.{configure_vcpu}

-- Every ioctl on a vCPU succeeds; the local APIC is a page of bytes.
pub record Obliges (K : Kvm) : Type 0 where
  pub block : K.MsrBlock
  pub block_made : K.msrs_from_entries Msrs.raw_msrs ≡ some block
  pub cpuid_set : (c : List CpuidEntry) (s : K.State) → (K.set_cpuid2 c s).1 ≡ ok tt
  pub msrs_set : (s : K.State) → (K.set_msrs block s).1 ≡ ok (K.nmsrs block)
  pub few_msrs : K.nmsrs block < 2 ^ 32
  pub regs_set : (r : KvmRegs) (s : K.State) → (K.set_regs r s).1 ≡ ok tt
  pub sregs_got : (s : K.State) → (r : KvmSregs K.Rest) × ((K.get_sregs s).1 ≡ ok r)
  pub sregs_set : (r : KvmSregs K.Rest) (s : K.State) → (K.set_sregs r s).1 ≡ ok tt
  pub fpu_set : (f : KvmFpu) (s : K.State) → (K.set_fpu f s).1 ≡ ok tt
  pub lapic_got :
      (s : K.State)
      → (regs : List ℕ) × ((K.get_lapic s).1 ≡ ok regs)
        × AreBytes regs
        × (apic_lvt1 + 4 ≤ length regs)
  pub lapic_set : (regs : List ℕ) (s : K.State) → (K.set_lapic regs s).1 ≡ ok tt

pub returned : {S E A : Type 0} (p : S × Result E A) (a : A) → p.1 ≡ ok a → p ≡ (p.0, ok a)
returned p a h = λ i. (p.0, h i)

-- Outside of the GDT, the IDT and the page tables.
abbrev pub IsOutsideBoot : ℕ → Type 0
IsOutsideBoot j =
    (j < boot_gdt_offset) ⊎ ((boot_idt_offset + 8 ≤ j) × (j < pml4_start)) ⊎ (pde_start + 4096 ≤ j)

module _ (G : GuestMemory) (L : IsLawful G) (K : Kvm) (O : Obliges K) where
  -- A vCPU that came through all its calls.
  pub record Configured (outcome : World G K × Result (VcpuError G K) (Unit {0})) (m : G.State)
      : Type 0 where
    pub final : World G K
    pub returns : outcome ≡ (final, ok tt)
    pub ready : HasBootMemory G final.memory
    pub ranges : (j : ℕ) → G.address_in_range final.memory j ≡ G.address_in_range m j
    pub outside : (j : ℕ) → IsOutsideBoot j → G.byte_at final.memory j ≡ G.byte_at m j

  abbrev Outcome : Type 0 → Type 0
  Outcome A = World G K × Result (VcpuError G K) A

  on_vcpu_ok :
      {A : Type 0} (p : Eff K.State K.KvmError A) (w : World G K) (a : A)
      → (p w.vcpu).1 ≡ ok a
      → on_vcpu G K p w ≡ (record w { vcpu = (p w.vcpu).0 }, ok a)
  on_vcpu_ok p w a h = rw (returned (p w.vcpu) a h) refl

  configure_msrs_ok :
      (w : World G K) → (s : K.State) × (configure_msrs G K w ≡ (record w { vcpu = s }, ok tt))
  unfolding configure_msrs Msrs.create_boot_msr_entries
  configure_msrs_ok w = (
    (K.set_msrs O.block w.vcpu).0,
    rw
        (
          Msrs.create_boot_msr_entries,
          O.block_made,
          returned (K.set_msrs O.block w.vcpu) (K.nmsrs O.block) (O.msrs_set w.vcpu),
          same,
        )
        refl,
  )
    where
      same : (u32 (K.nmsrs O.block) == K.nmsrs O.block) ≡ true
      same = let few : K.nmsrs O.block < 2 ^ 32 = O.few_msrs in eq→== _ _ (omega arith)

  configure_sregs_ok :
      (w : World G K) → CoversBoot G w.memory → Configured (configure_sregs G K w) w.memory
  configure_sregs_ok w c = record {
    final = record {
      memory = boots.memory;
      vcpu = (K.set_sregs (boot_sregs got.0) (K.get_sregs w.vcpu).0).0;
    };
    returns = boots.outcome ∙ on_vcpu_ok (K.set_sregs (boot_sregs got.0)) _ tt (O.sregs_set _ _);
    ready = boots.ready;
    ranges = boots.ranges;
    outside = boots.outside;
  }
    where
      got : (r : KvmSregs K.Rest) × ((K.get_sregs w.vcpu).1 ≡ ok r)
      got = O.sregs_got w.vcpu

      boots : Boots G K w (K.get_sregs w.vcpu).0 got.0
      boots =
          configure_sregs-Boots G L K w (K.get_sregs w.vcpu).0 got.0
            (returned (K.get_sregs w.vcpu) got.0 got.1) c

  configure_lapic_ok :
      (w : World G K) → (s : K.State) × (configure_lapic G K w ≡ (record w { vcpu = s }, ok tt))
  configure_lapic_ok w = (
    (K.set_lapic lapic.final (K.get_lapic w.vcpu).0).0,
    lapic.outcome ∙ on_vcpu_ok (K.set_lapic lapic.final) _ tt (O.lapic_set _ _),
  )
    where
      got :
          (regs : List ℕ) × ((K.get_lapic w.vcpu).1 ≡ ok regs)
          × AreBytes regs
          × (apic_lvt1 + 4 ≤ length regs)
      got = O.lapic_got w.vcpu

      lapic : ConfiguresLapic G K w (K.get_lapic w.vcpu).0 got.0
      lapic =
          configure_lapic-ConfiguresLapic G K w (K.get_lapic w.vcpu).0 got.0
            (returned (K.get_lapic w.vcpu) got.0 got.1) got.2 got.3

  pub configure_vcpu-Configured :
      (tsc : Bool) (base_cpuid : List CpuidEntry) (num_vcpus kernel_load index : ℕ) (w : World G K)
      → CoversBoot G w.memory
      → Configured (configure_vcpu G K tsc base_cpuid num_vcpus kernel_load index w) w.memory
  unfolding configure_vcpu configure_cpuid configure_regs configure_fpu
  configure_vcpu-Configured tsc base_cpuid num_vcpus kernel_load index w c = record {
    final = record booted.final { vcpu = lapic.0 };
    returns =
        rw
          (
            on_vcpu_ok (K.set_cpuid2 _) w tt (O.cpuid_set _ _),
            msrs.1,
            on_vcpu_ok (K.set_regs _) after_msrs tt (O.regs_set _ _),
            booted.returns,
            on_vcpu_ok (K.set_fpu _) booted.final tt (O.fpu_set _ _),
          )
          lapic.1;
    ready = booted.ready;
    ranges = booted.ranges;
    outside = booted.outside;
  }
    where
      regs : KvmRegs
      regs = record { rflags = 0x2; rip = kernel_load; rsp = 0x8ff0; rbp = 0x8ff0; rsi = 0x7000 }

      fpu : KvmFpu
      fpu = record { fcw = 0x37f; mxcsr = 0x1f80 }

      after_cpuid : World G K
      after_cpuid = record w {
        vcpu = (K.set_cpuid2 (filter_cpuid tsc index num_vcpus base_cpuid) w.vcpu).0;
      }

      msrs :
          (s : K.State) × (configure_msrs G K after_cpuid
            ≡ (record after_cpuid { vcpu = s }, ok tt))
      msrs = configure_msrs_ok after_cpuid

      after_msrs : World G K
      after_msrs = record w { vcpu = msrs.0 }

      after_regs : World G K
      after_regs = record w { vcpu = (K.set_regs regs msrs.0).0 }

      booted : Configured (configure_sregs G K after_regs) w.memory
      booted = configure_sregs_ok after_regs c

      lapic :
          (s : K.State) × (configure_lapic G K
              (record booted.final { vcpu = (K.set_fpu fpu booted.final.vcpu).0 })
            ≡ (record booted.final { vcpu = s }, ok tt))
      lapic = configure_lapic_ok _

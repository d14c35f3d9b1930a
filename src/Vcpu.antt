-- ===== src/Vcpu.antt =====
-- src/vmm/src/cpu/mod.rs: the state in which a vCPU boots. The ioctls of KVM are the fields of
-- `Kvm`; a vCPU is configured in a `World`, the guest memory and the vCPU behind its descriptor.
pub mod PageTables
pub mod Translate
pub mod BootState
pub mod Lapic
pub mod Observed
pub mod Booted
pub mod Run
use lumper.Base.{
  ℕ, zero, suc, ◌+◌, ◌-◌, ◌*◌, ◌<<<◌, Bool, true, false, Option, none, some, List, [], ◌∷◌, bit_or,
  u16, u32, u64, ◌==◌, if◌then◌else◌, Result, ok, err, Eff, ◌>>=◌, ◌>>◌, pure, fail, map_err,
  length,
}
use lumper.Base.Bytes.{to_le_bytes}
use lumper.Memory.{GuestMemory}
use lumper.Gdt.{
  KvmSegment, gdt_entry, kvm_segment_from_gdt, write_gdt_table, write_idt_value, boot_gdt_offset,
  boot_idt_offset,
}
use lumper.Interrupts.{
  get_klapic_reg, set_klapic_reg, set_apic_delivery_mode, apic_lvt0, apic_lvt1, apic_mode_extint,
  apic_mode_nmi,
}
use lumper.Cpuid.{CpuidEntry}
use lumper.Msrs
use lumper.Mptable

abbrev pub boot_stack_pointer : ℕ
boot_stack_pointer = 0x8ff0

abbrev pub pml4_start : ℕ
pml4_start = 0x9000

abbrev pub pdpte_start : ℕ
pdpte_start = 0xa000

abbrev pub pde_start : ℕ
pde_start = 0xb000

abbrev pub x86_cr0_pe : ℕ
x86_cr0_pe = 0x1

abbrev pub x86_cr0_pg : ℕ
x86_cr0_pg = 0x8000_0000

abbrev pub x86_cr4_pae : ℕ
x86_cr4_pae = 0x20

-- `kernel::ZEROPG_START`
abbrev pub zeropg_start : ℕ
zeropg_start = 0x7000

-- `kvm_regs` by the registers that are set; `..Default::default()` clears the others.
pub record KvmRegs : Type 0 where
  pub rflags : ℕ
  pub rip : ℕ
  pub rsp : ℕ
  pub rbp : ℕ
  pub rsi : ℕ

pub record Dtable : Type 0 where
  pub base : ℕ
  pub limit : ℕ

-- `kvm_sregs`, with what the code does not touch in `rest`.
pub record KvmSregs (Rest : Type 0) : Type 0 where
  pub cs : KvmSegment
  pub ds : KvmSegment
  pub es : KvmSegment
  pub fs : KvmSegment
  pub gs : KvmSegment
  pub ss : KvmSegment
  pub tr : KvmSegment
  pub gdt : Dtable
  pub idt : Dtable
  pub cr0 : ℕ
  pub cr3 : ℕ
  pub cr4 : ℕ
  pub efer : ℕ
  pub rest : Rest

-- `kvm_fpu` by the fields that are set.
pub record KvmFpu : Type 0 where
  pub fcw : ℕ
  pub mxcsr : ℕ

-- The ioctls of `VcpuFd`, and `Msrs` of kvm-bindings.
pub record Kvm : Type 1 where
  pub State : Type 0
  pub KvmError : Type 0
  pub Rest : Type 0
  pub MsrBlock : Type 0
  pub msrs_from_entries : List Msrs.MsrEntry → Option MsrBlock
  pub nmsrs : MsrBlock → ℕ
  pub set_cpuid2 : List CpuidEntry → Eff State KvmError (Unit {0})
  pub set_msrs : MsrBlock → Eff State KvmError ℕ
  pub set_regs : KvmRegs → Eff State KvmError (Unit {0})
  pub get_sregs : Eff State KvmError (KvmSregs Rest)
  pub set_sregs : KvmSregs Rest → Eff State KvmError (Unit {0})
  pub set_fpu : KvmFpu → Eff State KvmError (Unit {0})
  pub get_lapic : Eff State KvmError (List ℕ)
  pub set_lapic : List ℕ → Eff State KvmError (Unit {0})

-- `IO` is left out, since no operation here ends in it; `panic` is an `expect` that fails.
pub data Error (MemoryError KvmError : Type 0) : Type 0 where
  guest_memory : MemoryError → Error MemoryError KvmError
  kvm_ioctl : KvmError → Error MemoryError KvmError
  mptable : Mptable.Error → Error MemoryError KvmError
  set_model_specific_registers_count : Error MemoryError KvmError
  create_msr : Msrs.Error → Error MemoryError KvmError
  panic : Error MemoryError KvmError

-- The descriptors NULL, CODE, DATA and TSS.
abbrev pub gdt_table : List ℕ
gdt_table =
    gdt_entry 0 0 0
    ∷ gdt_entry 0xa09b 0 0xfffff
    ∷ gdt_entry 0xc093 0 0xfffff
    ∷ gdt_entry 0x808b 0 0xfffff
    ∷ []

abbrev pub code_seg : KvmSegment
code_seg = kvm_segment_from_gdt (gdt_entry 0xa09b 0 0xfffff) 1

abbrev pub data_seg : KvmSegment
data_seg = kvm_segment_from_gdt (gdt_entry 0xc093 0 0xfffff) 2

abbrev pub tss_seg : KvmSegment
tss_seg = kvm_segment_from_gdt (gdt_entry 0x808b 0 0xfffff) 3

-- The entry of the page directory for page `i`.
abbrev pub pde : ℕ → ℕ
pde i = u64 (i <<< 21) + 0x83

-- The registers of 64-bit mode. `rest` and the bits that are not set are those that KVM gave.
unfoldable pub boot_sregs : {Rest : Type 0} → KvmSregs Rest → KvmSregs Rest
boot_sregs sregs = record sregs {
  gdt = record { base = boot_gdt_offset; limit = u16 (8 * length gdt_table) - 1 };
  idt = record { base = boot_idt_offset; limit = u16 8 - 1 };
  cs = code_seg;
  ds = data_seg;
  es = data_seg;
  fs = data_seg;
  gs = data_seg;
  ss = data_seg;
  tr = tss_seg;
  efer = bit_or sregs.efer (bit_or Msrs.efer_lme Msrs.efer_lma);
  cr3 = pml4_start;
  cr4 = bit_or sregs.cr4 x86_cr4_pae;
  cr0 = bit_or (bit_or sregs.cr0 x86_cr0_pe) x86_cr0_pg;
}

unfoldable pub set_delivery : ℕ → ℕ → List ℕ → Option (List ℕ)
set_delivery reg_offset mode klapic = elim (get_klapic_reg klapic reg_offset) [
  | none ↦ none
  | some lvt ↦ set_klapic_reg klapic reg_offset (set_apic_delivery_mode lvt mode)
]

module _ (G : GuestMemory) where
  -- `for i in 0..512`, with the rounds that are left.
  unfoldable pub write_pdes : ℕ → ℕ → Eff G.State G.MemoryError (Unit {0})
  write_pdes zero i = pure tt
  write_pdes (suc left) i = do
    G.write_slice (to_le_bytes 8 (pde i)) (G.unchecked_add pde_start (i * 8))
    write_pdes left (i + 1)

  -- The three levels of page tables.
  unfoldable pub write_page_tables : Eff G.State G.MemoryError (Unit {0})
  write_page_tables = do
    G.write_slice (to_le_bytes 8 (bit_or pdpte_start 0x03)) pml4_start
    G.write_slice (to_le_bytes 8 (bit_or pde_start 0x03)) pdpte_start
    write_pdes 512 0

module _ (G : GuestMemory) (K : Kvm) where
  pub record World : Type 0 where
    pub memory : G.State
    pub vcpu : K.State

  abbrev pub VcpuError : Type 0
  VcpuError = Error G.MemoryError K.KvmError

  abbrev pub with_memory :
      {A : Type 0} → World → G.State × Result G.MemoryError A → World × Result VcpuError A
  with_memory w (m, ok a) = (record w { memory = m }, ok a)
  with_memory w (m, err e) = (record w { memory = m }, err (guest_memory e))

  abbrev pub with_vcpu :
      {A : Type 0} → World → K.State × Result K.KvmError A → World × Result VcpuError A
  with_vcpu w (s, ok a) = (record w { vcpu = s }, ok a)
  with_vcpu w (s, err e) = (record w { vcpu = s }, err (kvm_ioctl e))

  -- A call with `.map_err(Error::GuestMemory)`, and one with `.map_err(Error::KvmIoctl)`.
  abbrev pub on_memory : {A : Type 0} → Eff G.State G.MemoryError A → Eff World VcpuError A
  on_memory p w = with_memory w (p w.memory)

  abbrev pub on_vcpu : {A : Type 0} → Eff K.State K.KvmError A → Eff World VcpuError A
  on_vcpu p w = with_vcpu w (p w.vcpu)

  unfoldable pub configure_cpuid : List CpuidEntry → Eff World VcpuError (Unit {0})
  configure_cpuid cpuid = on_vcpu (K.set_cpuid2 cpuid)

  abbrev pub created : Result Msrs.Error K.MsrBlock → Eff World VcpuError K.MsrBlock
  created (ok msrs) = pure msrs
  created (err e) = fail (create_msr e)

  -- The number of registers that KVM wrote is compared with the number given, both as `u32`.
  unfoldable pub configure_msrs : Eff World VcpuError (Unit {0})
  unfolding Msrs.create_boot_msr_entries
  configure_msrs = do
    msrs ← created (Msrs.create_boot_msr_entries K.msrs_from_entries)
    msrs_written ← on_vcpu (K.set_msrs msrs)
    if u32 msrs_written == K.nmsrs msrs then pure tt else fail set_model_specific_registers_count

  unfoldable pub configure_regs : ℕ → Eff World VcpuError (Unit {0})
  configure_regs kernel_load = on_vcpu (
      K.set_regs (record {
        rflags = 0x2;
        rip = kernel_load;
        rsp = boot_stack_pointer;
        rbp = boot_stack_pointer;
        rsi = zeropg_start;
      }))

  unfoldable pub configure_sregs : Eff World VcpuError (Unit {0})
  unfolding boot_sregs
  configure_sregs = do
    sregs ← on_vcpu K.get_sregs
    on_memory (write_gdt_table G gdt_table)
    on_memory (write_idt_value G 0)
    on_memory (write_page_tables G)
    on_vcpu (K.set_sregs (boot_sregs sregs))

  unfoldable pub configure_fpu : Eff World VcpuError (Unit {0})
  configure_fpu = on_vcpu (K.set_fpu (record { fcw = 0x37f; mxcsr = 0x1f80 }))

  -- A register access out of range would panic.
  abbrev pub expected : {A : Type 0} → Option A → Eff World VcpuError A
  expected none = fail panic
  expected (some a) = pure a

  unfoldable pub configure_lapic : Eff World VcpuError (Unit {0})
  unfolding set_delivery
  configure_lapic = do
    klapic ← on_vcpu K.get_lapic
    klapic0 ← expected (set_delivery apic_lvt0 apic_mode_extint klapic)
    klapic1 ← expected (set_delivery apic_lvt1 apic_mode_nmi klapic0)
    on_vcpu (K.set_lapic klapic1)

-- ===== src/Vcpu/Observed.antt =====
-- A vCPU by what KVM gives back of it.
use lumper.Base.{ℕ, ◌+◌, ◌≤◌, ◌≡◌, Option, some, List, length, ok}
use lumper.Base.Bytes.{AreBytes}
use lumper.Interrupts.{apic_lvt0, apic_lvt1, apic_mode_extint, apic_mode_nmi}
use lumper.Cpuid.{CpuidEntry}
use lumper.Msrs
use lumper.Vcpu.{Kvm, KvmRegs, KvmSregs, KvmFpu, boot_sregs}
use lumper.Vcpu.Lapic.{Delivers}

-- What KVM keeps of a vCPU.
pub record View (K : Kvm) : Type 0 where
  pub cpuid : List CpuidEntry
  pub msrs : Option K.MsrBlock
  pub regs : KvmRegs
  pub sregs : KvmSregs K.Rest
  pub fpu : KvmFpu
  pub lapic : List ℕ

-- KVM gives back what was set last, and a call sets no other part; a count of registers that is not
-- short means that the whole block was written. The local APIC is a page of bytes.
pub record Keeps (K : Kvm) : Type 0 where
  pub view : K.State → View K
  pub set_cpuid2 :
      (c : List CpuidEntry) (s : K.State)
      → (K.set_cpuid2 c s).1 ≡ ok tt
      → view (K.set_cpuid2 c s).0 ≡ record (view s) { cpuid = c }
  pub set_msrs :
      (b : K.MsrBlock) (n : ℕ) (s : K.State)
      → (K.set_msrs b s).1 ≡ ok n
      → K.nmsrs b ≤ n
      → view (K.set_msrs b s).0 ≡ record (view s) { msrs = some b }
  pub set_regs :
      (r : KvmRegs) (s : K.State)
      → (K.set_regs r s).1 ≡ ok tt
      → view (K.set_regs r s).0 ≡ record (view s) { regs = r }
  pub get_sregs :
      (r : KvmSregs K.Rest) (s : K.State)
      → (K.get_sregs s).1 ≡ ok r
      → (r ≡ (view s).sregs) × (view (K.get_sregs s).0 ≡ view s)
  pub set_sregs :
      (r : KvmSregs K.Rest) (s : K.State)
      → (K.set_sregs r s).1 ≡ ok tt
      → view (K.set_sregs r s).0 ≡ record (view s) { sregs = r }
  pub set_fpu :
      (f : KvmFpu) (s : K.State)
      → (K.set_fpu f s).1 ≡ ok tt
      → view (K.set_fpu f s).0 ≡ record (view s) { fpu = f }
  pub get_lapic :
      (regs : List ℕ) (s : K.State)
      → (K.get_lapic s).1 ≡ ok regs
      → (regs ≡ (view s).lapic) × (view (K.get_lapic s).0 ≡ view s)
  pub lapic_page :
      (regs : List ℕ) (s : K.State)
      → (K.get_lapic s).1 ≡ ok regs
      → AreBytes regs × (apic_lvt1 + 4 ≤ length regs)
  pub set_lapic :
      (regs : List ℕ) (s : K.State)
      → (K.set_lapic regs s).1 ≡ ok tt
      → view (K.set_lapic regs s).0 ≡ record (view s) { lapic = regs }

-- A vCPU between two of its states, by what the boot protocol asks of it.
pub record Booted (K : Kvm) (before after : View K) (cpuid : List CpuidEntry) (kernel_load : ℕ)
    : Type 0 where
  pub cpuid_set : after.cpuid ≡ cpuid
  pub block : K.MsrBlock
  pub block_made : K.msrs_from_entries Msrs.raw_msrs ≡ some block
  pub msrs_set : after.msrs ≡ some block
  pub regs_set :
      after.regs
      ≡ record { rflags = 0x2; rip = kernel_load; rsp = 0x8ff0; rbp = 0x8ff0; rsi = 0x7000 }
  pub sregs_set : after.sregs ≡ boot_sregs before.sregs
  pub fpu_set : after.fpu ≡ record { fcw = 0x37f; mxcsr = 0x1f80 }
  pub middle : List ℕ
  pub lint0 : Delivers before.lapic middle apic_lvt0 apic_mode_extint
  pub lint1 : Delivers middle after.lapic apic_lvt1 apic_mode_nmi

-- ===== src/Tests/Kept.antt =====
-- Two vCPUs on a KVM that keeps what it is given.
use lumper.Base.{
  ℕ, ◌+◌, ◌≡◌, refl, true, Option, none, some, List, [], ◌∷◌, arith, length, false, ok, Result, err,
  Bool, ltb, leb, ◌&&◌, ◌≤◌, subst, sym, ap,
}
use lumper.Base.Bytes.{AreBytes}
use lumper.Interrupts.{apic_lvt1}
use lumper.Memory.Flat.{flat_memory}
use lumper.Cpuid.{CpuidEntry}
use lumper.Vcpu.{Kvm, KvmRegs, KvmSregs, KvmFpu}
use lumper.Vcpu.Observed.{View, Keeps}
use lumper.Vmm.{KvmVm, Machine}
use lumper.Vmm.Vcpus.{configure_vcpus}
use lumper.Vmm.Booted.{AllBooting, configure_vcpus-AllBooting}
use lumper.Vmm.MemoryMap.{InOrder, low_structures, boot_structures-InOrder}
use lumper.Kernel.{ebda_start, himem_start}
use lumper.Mptable.{mptable_start, compute_mp_size}
use lumper.Tests.Machine.{blank, reset_sregs, reset_lapic}

pub record Kept : Type 0 where
  pub cpuid : List CpuidEntry
  pub msrs : Option ℕ
  pub regs : KvmRegs
  pub sregs : KvmSregs (Unit {0})
  pub fpu : KvmFpu
  pub lapic : List ℕ

abbrev all_bytes : List ℕ → Bool
all_bytes [] = true
all_bytes (b ∷ bs) = ltb b 256 && all_bytes bs

all_bytes-AreBytes : (bs : List ℕ) → all_bytes bs ≡ true → AreBytes bs
all_bytes-AreBytes [] e = tt
all_bytes-AreBytes (b ∷ bs) e = (ground (arith, e), all_bytes-AreBytes bs (ground (arith, e)))

-- A page that is none of bytes is refused.
abbrev page_of : Bool → Kept → Kept × Result ℕ (List ℕ)
page_of true s = (s, ok s.lapic)
page_of false s = (s, err 22)

abbrev is_page : List ℕ → Bool
is_page regs = leb (apic_lvt1 + 4) (length regs) && all_bytes regs

abbrev keeping_kvm : Kvm
keeping_kvm = record {
  State = Kept;
  KvmError = ℕ;
  Rest = Unit;
  MsrBlock = ℕ;
  msrs_from_entries = λ entries. some (length entries);
  nmsrs = λ n. n;
  set_cpuid2 = λ cpuid s. (record s { cpuid = cpuid }, ok tt);
  set_msrs = λ n s. (record s { msrs = some n }, ok n);
  set_regs = λ regs s. (record s { regs = regs }, ok tt);
  get_sregs = λ s. (s, ok s.sregs);
  set_sregs = λ sregs s. (record s { sregs = sregs }, ok tt);
  set_fpu = λ fpu s. (record s { fpu = fpu }, ok tt);
  get_lapic = λ s. page_of (is_page s.lapic) s;
  set_lapic = λ regs s. (record s { lapic = regs }, ok tt);
}

abbrev view_of : Kept → View keeping_kvm
view_of s = record {
  cpuid = s.cpuid;
  msrs = s.msrs;
  regs = s.regs;
  sregs = s.sregs;
  fpu = s.fpu;
  lapic = s.lapic;
}

page_of-ok :
    (b : Bool) (s : Kept) (regs : List ℕ)
    → (page_of b s).1 ≡ ok regs
    → (b ≡ true) × (regs ≡ s.lapic) × ((page_of b s).0 ≡ s)
page_of-ok true s regs e = (refl, cc, refl)
page_of-ok false s regs e = cc

is_page_lem : (regs : List ℕ) → is_page regs ≡ true → AreBytes regs × (apic_lvt1 + 4 ≤ length regs)
is_page_lem regs e = (all_bytes-AreBytes regs (ground (arith, e)), ground (arith, e))

keeping_kvm-Keeps : Keeps keeping_kvm
keeping_kvm-Keeps = record {
  view = view_of;
  set_cpuid2 = λ c s e. refl;
  set_msrs = λ b n s e h. refl;
  set_regs = λ r s e. refl;
  get_sregs = λ r s e. (cc, refl);
  set_sregs = λ r s e. refl;
  set_fpu = λ f s e. refl;
  get_lapic = λ regs s e. let p = page_of-ok (is_page s.lapic) s regs e in (p.1, ap view_of p.2);
  lapic_page = λ regs s e.
      let p = page_of-ok (is_page s.lapic) s regs e in
      subst (λ r. AreBytes r × (apic_lvt1 + 4 ≤ length r)) (sym p.1) (is_page_lem s.lapic p.0);
  set_lapic = λ regs s e. refl;
}

abbrev reset : Kept
reset = record {
  cpuid = [];
  msrs = none;
  regs = record { rflags = 2; rip = 0xfff0; rsp = 0; rbp = 0; rsi = 0 };
  sregs = reset_sregs;
  fpu = record { fcw = 0x40; mxcsr = 0x1f80 };
  lapic = reset_lapic;
}

abbrev keeping_vm : KvmVm keeping_kvm
keeping_vm = record {
  Vm = Unit;
  get_supported_cpuid =
      λ vm. (vm, ok (record { function = 1; index = 0; ebx = 0; ecx = 0; edx = 0 } ∷ []));
  tsc_deadline_timer = λ vm. true;
  create_vcpu = λ index vm. (vm, ok reset);
  set_user_memory_region = λ region vm. (vm, ok tt);
  create_irq_chip = λ vm. (vm, ok tt);
  register_irqfd = λ fd line vm. (vm, ok tt);
}

abbrev no_vcpus : Machine ℕ flat_memory keeping_kvm keeping_vm
no_vcpus = record { memory = blank; vm = tt; vcpus = [] }

configure_vcpus-AllBooting_example :
    AllBooting ℕ flat_memory keeping_kvm keeping_vm keeping_kvm-Keeps 2 0x100_0000
      (configure_vcpus ℕ flat_memory keeping_kvm keeping_vm 2 0x100_0000 no_vcpus).0.vcpus
configure_vcpus-AllBooting_example =
    configure_vcpus-AllBooting ℕ flat_memory keeping_kvm keeping_vm keeping_kvm-Keeps 2 0x100_0000
      no_vcpus refl

boot_structures-InOrder_example :
    InOrder 0 low_structures ebda_start
    × (mptable_start ≡ ebda_start)
    × InOrder ebda_start ((mptable_start, compute_mp_size 254) ∷ []) himem_start
boot_structures-InOrder_example = boot_structures-InOrder 254 (omega arith)

-- ===== src/Tests/Machine.antt =====
-- A machine for the tests: one megabyte of guest memory, and a vCPU whose ioctls all succeed.
use lumper.Base.{ℕ, zero, suc, ◌+◌, ◌≤◌, some, List, arith, length, replicate, ok}
use lumper.Base.Bytes.{AreBytes}
use lumper.Memory.{Covers}
use lumper.Memory.Flat.{Flat, flat_memory}
use lumper.Gdt.{KvmSegment}
use lumper.Vcpu.{Kvm, KvmSregs, World}
use lumper.Kernel.{SetupHeader, BootParams}

abbrev pub blank : Flat
blank = record { start = 0; size = 0x10_0000; cell = λ j. 0xff }

pub Covers-blank : (a n : ℕ) → a + n ≤ 0x10_0000 → Covers flat_memory blank a n
Covers-blank a n h i p = ground arith

pub zeros-AreBytes : (n : ℕ) → AreBytes (replicate n 0)
zeros-AreBytes zero = tt
zeros-AreBytes (suc n) = (omega arith, zeros-AreBytes n)

abbrev flat_segment : KvmSegment
flat_segment = record {
  base = 0;
  limit = 0xffff;
  selector = 0;
  type_ = 3;
  present = 1;
  dpl = 0;
  db = 0;
  s = 1;
  l = 0;
  g = 0;
  avl = 0;
  padding = 0;
  unusable = 0;
}

-- The special registers after a reset: CR0 has ET, NW and CD.
abbrev pub reset_sregs : KvmSregs (Unit {0})
reset_sregs = record {
  cs = flat_segment;
  ds = flat_segment;
  es = flat_segment;
  fs = flat_segment;
  gs = flat_segment;
  ss = flat_segment;
  tr = flat_segment;
  gdt = record { base = 0; limit = 0xffff };
  idt = record { base = 0; limit = 0xffff };
  cr0 = 0x6000_0010;
  cr3 = 0;
  cr4 = 0;
  efer = 0;
  rest = tt;
}

abbrev pub reset_lapic : List ℕ
reset_lapic = replicate 0x400 0

abbrev pub quiet_kvm : Kvm
quiet_kvm = record {
  State = Unit;
  KvmError = ℕ;
  Rest = Unit;
  MsrBlock = ℕ;
  msrs_from_entries = λ entries. some (length entries);
  nmsrs = λ n. n;
  set_cpuid2 = λ cpuid s. (s, ok tt);
  set_msrs = λ n s. (s, ok n);
  set_regs = λ regs s. (s, ok tt);
  get_sregs = λ s. (s, ok reset_sregs);
  set_sregs = λ sregs s. (s, ok tt);
  set_fpu = λ fpu s. (s, ok tt);
  get_lapic = λ s. (s, ok reset_lapic);
  set_lapic = λ regs s. (s, ok tt);
}

abbrev pub machine : World flat_memory quiet_kvm
machine = record { memory = blank; vcpu = tt }

abbrev pub empty_header : SetupHeader
empty_header = record {
  boot_flag = 0;
  header = 0;
  kernel_alignment = 0;
  type_of_loader = 0;
  cmd_line_ptr = 0;
  cmdline_size = 0;
  ramdisk_image = 0;
  ramdisk_size = 0;
}

-- Boot parameters with an empty memory map of 128 entries.
abbrev pub empty_bootparams : BootParams (Unit {0})
empty_bootparams = record {
  hdr = empty_header;
  e820_entries = 0;
  e820_table = replicate 128 (record { addr = 0; size = 0; type_ = 0 });
  rest = tt;
}

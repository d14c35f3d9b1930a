-- ===== src/Tests/Boot.antt =====
-- The whole machine on a host that serves every call: two vCPUs in four megabytes of memory.
use lumper.Base.{
  Option, none, ℕ, ◌+◌, ◌*◌, ◌^◌, ◌≡◌, refl, ◌⊎◌, inl, true, none, some, List, [], ◌∷◌, arith,
  Result, ok, err,
}
use lumper.Memory.{Covers}
use lumper.Memory.Flat.{Flat, flat_memory, flat_memory-IsLawful}
use lumper.Mptable.{mptable_start, compute_mp_size}
use lumper.Kernel.Setup.{Loader, kernel_setup}
use lumper.Kernel.Loaded.{header_of, Loads, Hands, kernel_setup-Hands}
use lumper.Vmm.{KvmVm, Machine}
use lumper.Vmm.Vcpus.{configure_vcpus}
use lumper.Vmm.Indices.{Created, configure_vcpus-Created}
use lumper.Vmm.Configured.{Obliges}
use lumper.Vmm.Ready.{Provides, BootsAll, configure_vcpus-Boots}
use lumper.Vmm.Host.{Region, Host}
use lumper.Net.Device.{Nic}
use lumper.Vmm.New.{Creates}
use lumper.Main.{VmmOpts, Wiring}
use lumper.Main.Runs.{Gives, Runs}
use lumper.Tests.Loop.{one_frame, terminal, idle_nic}
use lumper.Tests.Nic.{chains_queue}
use lumper.Tests.Machine.{
  blank, Covers-blank, zeros-AreBytes, reset_sregs, reset_lapic, quiet_kvm, empty_header,
  empty_bootparams,
}

quiet_kvm-Obliges : Obliges quiet_kvm
quiet_kvm-Obliges = record {
  block = 10;
  block_made = refl;
  cpuid_set = λ c s. refl;
  msrs_set = λ s. refl;
  few_msrs = omega arith;
  regs_set = λ r s. refl;
  sregs_got = λ s. (reset_sregs, refl);
  sregs_set = λ r s. refl;
  fpu_set = λ f s. refl;
  lapic_got = λ s. (reset_lapic, refl, zeros-AreBytes 0x400, omega arith);
  lapic_set = λ regs s. refl;
}

abbrev pub quiet_vm : KvmVm quiet_kvm
quiet_vm = record {
  Vm = Unit;
  get_supported_cpuid = λ vm. (vm, ok []);
  tsc_deadline_timer = λ vm. true;
  create_vcpu = λ index vm. (vm, ok tt);
  set_user_memory_region = λ region vm. (vm, ok tt);
  create_irq_chip = λ vm. (vm, ok tt);
  register_irqfd = λ fd line vm. (vm, ok tt);
}

quiet_vm-Provides : Provides quiet_kvm quiet_vm
quiet_vm-Provides = record { cpuid_got = λ vm. ([], refl); created = λ i vm. (tt, refl) }

abbrev no_vcpus : Machine ℕ flat_memory quiet_kvm quiet_vm
no_vcpus = record { memory = blank; vm = tt; vcpus = [] }

configure_vcpus-Created_example :
    Created ℕ flat_memory quiet_kvm quiet_vm
      (configure_vcpus ℕ flat_memory quiet_kvm quiet_vm 2 0x100_0000 no_vcpus)
      2
configure_vcpus-Created_example =
    configure_vcpus-Created ℕ flat_memory quiet_kvm quiet_vm 2 0x100_0000 no_vcpus refl

Covers-table : Covers flat_memory blank mptable_start (compute_mp_size 2)
unfolding compute_mp_size
Covers-table = Covers-blank mptable_start (compute_mp_size 2) (omega arith)

configure_vcpus-Boots_example :
    BootsAll ℕ flat_memory flat_memory-IsLawful quiet_kvm quiet_kvm-Obliges quiet_vm
      quiet_vm-Provides
      (configure_vcpus ℕ flat_memory quiet_kvm quiet_vm 2 0x100_0000 no_vcpus)
      blank
      2
configure_vcpus-Boots_example =
    configure_vcpus-Boots ℕ flat_memory flat_memory-IsLawful quiet_kvm quiet_kvm-Obliges quiet_vm
      quiet_vm-Provides 2 0x100_0000 no_vcpus (omega arith) (omega arith) refl
      (Covers-blank 0 0xc000 (omega arith)) Covers-table

-- Files and command lines are their bytes; a kernel of 64 KiB.
abbrev quiet_loader : Loader flat_memory ℕ
quiet_loader = record {
  FilePath = List ℕ;
  File = List ℕ;
  Cmdline = List ℕ;
  Rest = Unit;
  default = empty_bootparams;
  open_file = λ path. ok path;
  file_len = λ file. some 0x100;
  elf_load = λ file start m. (m, ok (record { kernel_load = start; kernel_end = 0x10_ffff }));
  read_file = λ address file size m. (m, ok size);
  as_cstring = λ line. ok (b'q' ∷ []);
  into_string = λ bytes. ok bytes;
  cmdline_new = λ size. ok [];
  insert_str = λ text line. ok text;
  load_cmdline = λ address line m. (m, ok tt);
  write_bootparams = λ params address m. (m, ok tt);
}

abbrev memory_4m : Flat
memory_4m = record { start = 0; size = 4 * 2 ^ 20; cell = λ j. 0 }

abbrev loads_quiet : Loads flat_memory quiet_loader [] (some []) [] memory_4m
loads_quiet = record {
  image = [];
  opened = refl;
  kernel = record { kernel_load = 0x10_0000; kernel_end = 0x10_ffff };
  with_kernel = memory_4m;
  elf_loaded = refl;
  enough = omega arith;
  bytes = b'q' ∷ [];
  as_bytes = refl;
  text = b'q' ∷ [];
  as_text = refl;
  short = omega arith;
  empty = [];
  made = refl;
  shrinked = b'q' ∷ [];
  inserted = refl;
  ramdisk = some (0x11_0000, 0x100);
  with_ramdisk = memory_4m;
  ramdisk_loaded = ([], refl, 0x100, refl, 0x100, refl, refl, omega arith, omega arith);
  with_line = memory_4m;
  line_loaded = refl;
}

kernel_setup-Hands_example :
    Hands flat_memory quiet_loader
      (kernel_setup flat_memory quiet_loader ℕ ℕ [] (some []) [] memory_4m)
      memory_4m
      (record { kernel_load = 0x10_0000; kernel_end = 0x10_ffff })
      (header_of empty_header 1 (some (0x11_0000, 0x100)))
      0x2f_ffff
kernel_setup-Hands_example =
    kernel_setup-Hands flat_memory quiet_loader ℕ ℕ [] (some []) [] memory_4m flat_memory-IsLawful
      refl (omega arith) (omega arith) loads_quiet

abbrev one_region : List Region → Result ℕ Flat
one_region [] = err 0
one_region (region ∷ rest) = ok (record { start = region.start; size = region.len; cell = λ j. 0 })

-- A network device is its descriptor, and a console its file.
abbrev pub quiet_host : Host flat_memory ℕ quiet_loader
quiet_host = record {
  World = Unit;
  from_ranges = one_region;
  regions = λ m. record { start = m.start; len = m.size } ∷ [];
  host_address = λ m address. 0x7f00_0000_0000 + address;
  eventfd_new = λ w. (w, ok 9);
  Serial = List ℕ;
  create_file = λ path w. (w, ok path);
  serial_new = λ file w. (w, ok file);
  serial_eventfd = λ serial w. (w, ok 10);
  Net = ℕ;
  net_new = λ m irq_fd name w. (w, ok 11);
  net_fd = λ net. net;
  guest_irq_fd = λ net. 9;
  epoll_calls = record { create = λ cloexec w. (w, ok 3); ctl_add = λ epoll fd e w. (w, ok tt) };
  Manager = Unit;
  register_mmio = λ net base size line manager. (manager, ok tt);
  add_virtio_mmio_device = λ size address line text. ok text;
}

-- Standard input and the descriptor of the interface, each of which is added once.
abbrev Unwatched : ℕ → ℕ → Unit {0} → Type 0
Unwatched epoll fd w = (fd ≡ 0) ⊎ (fd ≡ 11)

abbrev new_host : Creates quiet_kvm quiet_vm quiet_host
new_host = record {
  KvmFd = Unit;
  kvm_new = λ w. (w, ok tt);
  create_vm = λ fd w. (w, ok tt);
  stdout = [];
  no_memory = blank;
  no_devices = tt;
  id_allocator_new = λ first last. ok tt;
}

new_host-Gives : Gives new_host Unwatched
new_host-Gives = record {
  kvm_made = λ w. (tt, refl);
  vm_made = λ fd w. (tt, refl);
  epoll_made = λ w. (3, refl, inl refl);
  allocator_made = refl;
  line = [];
  line_made = refl;
}

-- With a console, a ramdisk and a network interface.
abbrev options : VmmOpts (List ℕ)
options = record {
  kernel = [];
  initramfs = some [];
  cpus = 2;
  memory = 4;
  console = some [];
  net = some (b't' ∷ []);
}

abbrev net_of : Option ℕ → Option (Nic flat_memory chains_queue one_frame)
net_of none = none
net_of (some fd) = some idle_nic

abbrev wiring : Wiring quiet_kvm quiet_vm quiet_host terminal chains_queue one_frame (λ e. 0)
wiring vmm = record { world = []; serial = ([], []); net = net_of vmm.virtio_net }

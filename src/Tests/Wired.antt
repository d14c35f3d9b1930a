-- ===== src/Tests/Wired.antt =====
-- A machine that is given a network device.
use lumper.Base.{ℕ, ◌≡◌, refl, arith, none, some, [], ◌∷◌, replicate, length, u32, Result, ok, err}
use lumper.Memory.Flat.{flat_memory}
use lumper.Net.Device.{Interface}
use lumper.Net.Open.{returns}
use lumper.Net.Mmio.{Parts, new}
use lumper.Epoll.{add_fd}
use lumper.Vmm.{MachineError}
use lumper.Vmm.Host.{Vmm}
use lumper.Vmm.Configure.{configure_net}
use lumper.Vmm.Wired.{Wires, wired}
use lumper.Vmm.Watched.{Watches, configure_net-Watches}
use lumper.Tests.Machine.{blank, quiet_kvm}
use lumper.Tests.Boot.{quiet_host, quiet_vm}
use lumper.Tests.Devices.{feature_bits}
use lumper.Tests.Loop.{terminal}
use lumper.Tests.Nic.{chains_queue}

-- An interface is its descriptor; nothing waits in it.
abbrev silent : Interface
silent = record {
  Tap = ℕ;
  IoError = ℕ;
  Irq = ℕ;
  read = λ t. (t, err 11);
  write = λ packet t. (t, ok (length packet));
  signal = λ irq. irq;
}

abbrev parts : Parts flat_memory chains_queue silent Unit ℕ
parts = record {
  queue_new = λ size. ok [];
  open_named = λ name w. (w, returns (ok 11));
  interrupt_status = 0;
  default_config = record {
    mac = replicate 6 0;
    status = 0;
    max_virtqueue_pairs = 0;
    mtu = 0;
    speed = 0;
    duplex = 0;
  };
}

abbrev wires : Wires quiet_host chains_queue silent
wires = record {
  features = feature_bits;
  parts = parts;
  irq_of = λ fd. fd;
  irq_fd = λ irq. irq;
  raw_fd = u32;
  panic = 0;
  register_mmio = λ net base size line manager. (manager, ok tt);
}

abbrev machine : Vmm quiet_kvm quiet_vm (wired quiet_host chains_queue silent wires)
machine = record {
  machine = record { memory = blank; vm = tt; vcpus = [] };
  serial = [];
  virtio_manager = tt;
  virtio_net = none;
  cmdline = [];
  epoll = record { raw_fd = 3 };
  world = tt;
}

abbrev Configured : Type 0
Configured =
    Vmm quiet_kvm quiet_vm (wired quiet_host chains_queue silent wires)
    × Result (MachineError ℕ flat_memory quiet_kvm quiet_vm) (Unit {0})

abbrev configured : Configured
configured =
    configure_net quiet_kvm quiet_vm (wired quiet_host chains_queue silent wires) (some (b't' ∷ []))
      machine

configured_ok : configured ≡ (configured.0, ok tt)
unfolding configure_net add_fd new
configured_ok = refl

configure_net-Watches_example :
    Watches quiet_kvm quiet_vm quiet_host chains_queue silent wires terminal
      (λ e. 0)
      (b't' ∷ [])
      machine
      configured.0
configure_net-Watches_example =
    configure_net-Watches quiet_kvm quiet_vm quiet_host chains_queue silent wires terminal (λ e. 0)
      (b't' ∷ []) machine configured.0 (λ tap. omega arith) configured_ok

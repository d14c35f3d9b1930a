-- ===== src/Vmm/Wired.antt =====
-- The network device of `Net` in the place that the configuration of src/vmm/src/lib.rs leaves for it.
use lumper.Base.{ℕ, ◌≡◌, refl, List, Result, ok, err, Eff}
use lumper.Memory.{GuestMemory}
use lumper.Kernel.Setup.{Loader}
use lumper.Net.{FeatureBits, virtio_features}
use lumper.Net.Frame.{RxQueue}
use lumper.Net.Device.{Interface}
use lumper.Net.Open.{Opened, returns, panics}
use lumper.Net.Mmio
use lumper.Net.Mmio.{VirtioNet, Parts, with_interface, with_queues}
use lumper.Vmm.Host.{Host}

module _ {Cause : Type 0} {G : GuestMemory} {Ld : Loader G Cause} (H : Host G Cause Ld)
    (R : RxQueue G) (I : Interface) where
  -- What the device is made of on the host. `panic` stands for a panic, an error that nothing handles.
  pub record Wires : Type 0 where
    pub features : FeatureBits
    pub parts : Parts G R I H.World Cause
    pub irq_of : ℕ → I.Irq
    pub irq_fd : I.Irq → ℕ
    pub raw_fd : I.Tap → ℕ
    pub panic : Cause
    pub register_mmio : VirtioNet G R I → ℕ → ℕ → ℕ → Eff H.Manager Cause (Unit {0})

  abbrev pub opened : {A : Type 0} → Cause → H.World × Opened A Cause → H.World × Result Cause A
  opened panic (w, returns r) = (w, r)
  opened panic (w, panics) = (w, err panic)

  abbrev pub wired : Wires → Host G Cause Ld
  wired W = record {
    World = H.World;
    from_ranges = H.from_ranges;
    regions = H.regions;
    host_address = H.host_address;
    eventfd_new = H.eventfd_new;
    Serial = H.Serial;
    create_file = H.create_file;
    serial_new = H.serial_new;
    serial_eventfd = H.serial_eventfd;
    Net = VirtioNet G R I;
    net_new = λ m irq_fd if_name w.
        opened W.panic (Mmio.new G R I W.features W.parts m (W.irq_of irq_fd) if_name w);
    net_fd = λ net. W.raw_fd net.nic.tap;
    guest_irq_fd = λ net. W.irq_fd net.nic.irq;
    epoll_calls = H.epoll_calls;
    Manager = H.Manager;
    register_mmio = W.register_mmio;
    add_virtio_mmio_device = H.add_virtio_mmio_device;
  }

  -- What `new` has made of the device, of its memory, its interrupt and its interface.
  pub record Makes (f : FeatureBits) (parts : Parts G R I H.World Cause) (m : G.State) (irq : I.Irq)
      (if_name : List ℕ) (w : H.World) (net : VirtioNet G R I) : Type 0 where
    pub offered : net.device_features ≡ virtio_features f
    pub memory : net.nic.rx.memory ≡ m
    pub interrupt : net.nic.irq ≡ irq
    pub tap : (parts.open_named if_name w).1 ≡ returns (ok net.nic.tap)

  with_interface-Makes :
      (f : FeatureBits) (parts : Parts G R I H.World Cause) (m : G.State) (irq : I.Irq)
      (if_name : List ℕ) (w : H.World) (rx tx : R.Queue) (p : H.World × Opened I.Tap Cause)
      (panic : Cause) (net : VirtioNet G R I)
      → parts.open_named if_name w ≡ p
      → (opened panic (with_interface G R I f parts m irq rx tx p)).1 ≡ ok net
      → Makes f parts m irq if_name w net
  with_interface-Makes f parts m irq if_name w rx tx (w', returns (ok tap)) panic net e h = record {
    offered = cc;
    memory = cc;
    interrupt = cc;
    tap = cc;
  }
  with_interface-Makes f parts m irq if_name w rx tx (w', returns (err x)) panic net e h = cc
  with_interface-Makes f parts m irq if_name w rx tx (w', panics) panic net e h = cc

  with_queues-Makes :
      (f : FeatureBits) (parts : Parts G R I H.World Cause) (m : G.State) (irq : I.Irq)
      (if_name : List ℕ) (w : H.World) (rx tx : Result Cause R.Queue) (panic : Cause)
      (net : VirtioNet G R I)
      → (opened panic (with_queues G R I f parts m irq if_name w rx tx)).1 ≡ ok net
      → Makes f parts m irq if_name w net
  with_queues-Makes f parts m irq if_name w (ok rx) (ok tx) panic net h =
      with_interface-Makes f parts m irq if_name w rx tx (parts.open_named if_name w) panic net refl
        h
  with_queues-Makes f parts m irq if_name w (ok rx) (err x) panic net h = cc
  with_queues-Makes f parts m irq if_name w (err x) tx panic net h = cc

  pub new-Makes :
      (f : FeatureBits) (parts : Parts G R I H.World Cause) (m : G.State) (irq : I.Irq)
      (if_name : List ℕ) (w : H.World) (panic : Cause) (net : VirtioNet G R I)
      → (opened panic (Mmio.new G R I f parts m irq if_name w)).1 ≡ ok net
      → Makes f parts m irq if_name w net
  unfolding Mmio.new
  new-Makes f parts m irq if_name w panic net h =
      with_queues-Makes f parts m irq if_name w (parts.queue_new 256) (parts.queue_new 256) panic
        net h

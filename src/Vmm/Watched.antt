-- ===== src/Vmm/Watched.antt =====
-- What `configure_net` of src/vmm/src/lib.rs makes is what the event loop of `run` looks for.
use lumper.Base.{
  ℕ, ◌^◌, ◌<◌, ◌≡◌, refl, ◌∙◌, sym, ap, arith, true, some, List, Result, ok, err, proceed, pure,
  tried, u32, ◌==◌, ◌>>=◌, ◌>>◌,
}
use lumper.Memory.{GuestMemory}
use lumper.Epoll.{EpollContext, Event, epollin, add_fd}
use lumper.Errors.{irq_register, virtio_net, epoll_error, io_manager, cmdline}
use lumper.Kernel.Setup.{Loader}
use lumper.Net.{virtio_features}
use lumper.Net.Frame.{RxQueue, NetError}
use lumper.Net.Device.{Interface}
use lumper.Net.Open.{returns}
use lumper.Net.Mmio.{VirtioNet}
use lumper.Vcpu.{Kvm, VcpuError}
use lumper.Vcpu.Booted.{proceed-ok}
use lumper.Vmm.{KvmVm, MachineError}
use lumper.Vmm.Host.{Host, Vmm, VmmEff, on_world, on_manager, modify, with_world, with_manager}
use lumper.Vmm.Configure.{configure_net}
use lumper.Vmm.Events.{Terminal, is_interface, interface_fd_of}
use lumper.Vmm.Wired.{Wires, wired, new-Makes}

module _ {Cause : Type 0} {G : GuestMemory} (K : Kvm) (V : KvmVm K) {Ld : Loader G Cause}
    (H : Host G Cause Ld) where
  after_world :
      {A : Type 0} (e : Cause → MachineError Cause G K V) (v v' : Vmm K V H)
      (p : H.World × Result Cause A) (a : A)
      → with_world K V H e v p ≡ (v', ok a)
      → (p.1 ≡ ok a) × (v' ≡ record v { world = p.0 })
  after_world e v v' (w, ok b) a h = (cc, cc)
  after_world e v v' (w, err x) a h = cc

  after_manager :
      {A : Type 0} (e : Cause → MachineError Cause G K V) (v v' : Vmm K V H)
      (p : H.Manager × Result Cause A) (a : A)
      → with_manager K V H e v p ≡ (v', ok a)
      → (p.1 ≡ ok a) × (v' ≡ record v { virtio_manager = p.0 })
  after_manager e v v' (w, ok b) a h = (cc, cc)
  after_manager e v v' (w, err x) a h = cc

  after_tried :
      {A : Type 0} (r : Result Cause A) (e : Cause → MachineError Cause G K V) (v v' : Vmm K V H)
      (a : A)
      → tried r e v ≡ (v', ok a)
      → v' ≡ v
  after_tried (ok b) e v v' a h = cc
  after_tried (err x) e v v' a h = cc

module _ {Cause : Type 0} {G : GuestMemory} (K : Kvm) (V : KvmVm K) {Ld : Loader G Cause}
    (H : Host G Cause Ld) (R : RxQueue G) (I : Interface) (W : Wires H R I)
    (C : Terminal Cause K.KvmError) (net_cause : NetError G R → Cause) where
  abbrev Hw : Host G Cause Ld
  Hw = wired H R I W

  after_done :
      {World E : Type 0} (p : World × Result E (Unit {0}))
      → (proceed p (λ done. pure tt)).1 ≡ ok tt
      → p.1 ≡ ok tt
  after_done (w, ok done) h = refl
  after_done (w, err e) h = cc

  own_event : (n : ℕ) → n < 2 ^ 32 → (n == u32 n) ≡ true
  own_event n few = ground arith

  -- What `configure_net` does with a device that is made.
  abbrev with_net : VirtioNet G R I → VmmEff K V Hw (Unit {0})
  with_net net = do
    (λ v. on_world K V Hw (add_fd H.epoll_calls v.epoll (Hw.net_fd net)) epoll_error v)
    modify K V Hw (λ v. record v { virtio_net = some net })
    on_manager K V Hw (Hw.register_mmio net 0xd000_0000 0x1000 5) io_manager
    line ← (λ v. tried (H.add_virtio_mmio_device 0x1000 0xd000_0000 5 v.cmdline) cmdline v)
    modify K V Hw (λ v. record v { cmdline = line })

  abbrev token : VirtioNet G R I → Event
  token net = record { events = epollin; data_ = W.raw_fd net.nic.tap }

  with_net-present :
      (net : VirtioNet G R I) (s v' : Vmm K V Hw)
      → with_net net s ≡ (v', ok tt)
      → (v'.virtio_net ≡ some net)
        × ((H.epoll_calls.ctl_add s.epoll.raw_fd (W.raw_fd net.nic.tap) (token net) s.world).1
            ≡ ok tt)
        × ((W.register_mmio net 0xd000_0000 0x1000 5 s.virtio_manager).1 ≡ ok tt)
  unfolding add_fd
  with_net-present net s v' e =
      let watched =
        proceed-ok
          (with_world K V Hw epoll_error s (add_fd H.epoll_calls s.epoll (Hw.net_fd net) s.world)) _
          v' tt e in
      let placed = record (watched.0) { virtio_net = some net } in
      let registered =
        proceed-ok
          (with_manager K V Hw io_manager placed
            (W.register_mmio net 0xd000_0000 0x1000 5 watched.0.virtio_manager))
          _ v' tt watched.3 in
      let call = H.add_virtio_mmio_device 0x1000 0xd000_0000 5 registered.0.cmdline in
      let line = proceed-ok (tried call cmdline registered.0) _ v' tt registered.3 in
      let got_watch = after_world K V Hw epoll_error s watched.0 _ watched.1 watched.2 in
      let got_place =
        after_manager K V Hw io_manager placed registered.0
          (W.register_mmio net 0xd000_0000 0x1000 5 watched.0.virtio_manager) registered.1
          registered.2 in
      let same_line = after_tried K V Hw call cmdline registered.0 line.0 line.1 line.2 in
      (
        sym (
              ap (λ (p : Vmm K V Hw × Result (MachineError Cause G K V) (Unit {0})). p.0.virtio_net)
                line.3)
            ∙ ap (λ (u : Vmm K V Hw). u.virtio_net) same_line
            ∙ ap (λ (u : Vmm K V Hw). u.virtio_net) got_place.1,
        after_done _ got_watch.0,
        ap (λ (u : Vmm K V Hw). (W.register_mmio net 0xd000_0000 0x1000 5 u.virtio_manager).1)
              (sym got_watch.1)
            ∙ got_place.0,
      )

  -- The device of the machine, which epoll watches and the loop finds.
  pub record Watches (if_name : List ℕ) (v v' : Vmm K V (wired H R I W)) : Type 0 where
    pub net : VirtioNet G R I
    pub present : v'.virtio_net ≡ some net
    pub offered : net.device_features ≡ virtio_features W.features
    pub memory : net.nic.rx.memory ≡ v.machine.memory
    pub irq : ℕ
    pub irq_made : (H.eventfd_new v.world).1 ≡ ok irq
    pub interrupt : net.nic.irq ≡ W.irq_of irq
    pub named : (W.parts.open_named if_name (H.eventfd_new v.world).0).1 ≡ returns (ok net.nic.tap)
    pub before_watch : H.World
    pub watched :
        (H.epoll_calls.ctl_add v.epoll.raw_fd
          (W.raw_fd net.nic.tap)
          (record { events = epollin; data_ = W.raw_fd net.nic.tap })
          before_watch).1
        ≡ ok tt
    pub registered : (W.register_mmio net 0xd000_0000 0x1000 5 v.virtio_manager).1 ≡ ok tt
    pub found :
        is_interface C G R I net_cause
          (VcpuError G K)
          (interface_fd_of C G R I net_cause (VcpuError G K) W.raw_fd (some net.nic))
          (u32 (W.raw_fd net.nic.tap))
        ≡ true

  -- After a `configure_net` that succeeds with an interface, for descriptors below 2 ^ 32, the machine
  -- has a network device that offers the features of virtio, works on its guest memory, raises the
  -- event that was made for it, and reads and writes the interface that was opened by that name. The
  -- manager has it at 0xd0000000 with line 5, and epoll watches its descriptor with data by which
  -- the event loop of `run` takes an event for one of this device.
  pub configure_net-Watches :
      (if_name : List ℕ) (v v' : Vmm K V (wired H R I W))
      → ((tap : I.Tap) → W.raw_fd tap < 2 ^ 32)
      → configure_net K V (wired H R I W) (some if_name) v ≡ (v', ok tt)
      → Watches if_name v v'
  unfolding configure_net add_fd
  configure_net-Watches if_name v v' small e =
      let irq = proceed-ok (with_world K V Hw irq_register v (H.eventfd_new v.world)) _ v' tt e in
      let made =
        proceed-ok
          (with_world K V Hw virtio_net irq.0
            (Hw.net_new irq.0.machine.memory irq.1 if_name irq.0.world))
          _ v' tt irq.3 in
      let got_irq = after_world K V Hw irq_register v irq.0 (H.eventfd_new v.world) irq.1 irq.2 in
      let got_net = after_world K V Hw virtio_net irq.0 made.0 _ made.1 made.2 in
      let rest = with_net-present made.1 made.0 v' made.3 in
      let m =
        new-Makes H R I W.features W.parts v.machine.memory (W.irq_of irq.1) if_name
          (H.eventfd_new v.world).0 W.panic made.1
          (ap (λ (u : Vmm K V Hw). (Hw.net_new u.machine.memory irq.1 if_name u.world).1)
              (sym got_irq.1)
            ∙ got_net.0) in
      record {
        net = made.1;
        present = rest.0;
        offered = m.offered;
        memory = m.memory;
        irq = irq.1;
        irq_made = got_irq.0;
        interrupt = m.interrupt;
        named = m.tap;
        before_watch = made.0.world;
        watched =
            ap
              (λ (c : EpollContext).
                (H.epoll_calls.ctl_add c.raw_fd (W.raw_fd made.1.nic.tap) (token made.1)
                  made.0.world).1)
              (ap (λ (u : Vmm K V Hw). u.epoll) (sym got_irq.1)
                ∙ ap (λ (u : Vmm K V Hw). u.epoll) (sym got_net.1))
            ∙ rest.1;
        registered =
            ap (λ (g : H.Manager). (W.register_mmio made.1 0xd000_0000 0x1000 5 g).1)
              (ap (λ (u : Vmm K V Hw). u.virtio_manager) (sym got_irq.1)
                ∙ ap (λ (u : Vmm K V Hw). u.virtio_manager) (sym got_net.1))
            ∙ rest.2;
        found = own_event (W.raw_fd made.1.nic.tap) (small made.1.nic.tap);
      }

-- ===== src/Vmm/Serving.antt =====
-- A host and a KVM that serve every call of the configuration.
use lumper.Base.{ℕ, ◌≡◌, Option, none, some, List, [], ◌∷◌, ok}
use lumper.Memory.{GuestMemory, Covers}
use lumper.Epoll.{Event}
use lumper.Kernel.Setup.{Loader}
use lumper.Kernel.Served.{FitsText}
use lumper.Vcpu.{Kvm}
use lumper.Vmm.{KvmVm, MemoryRegion}
use lumper.Vmm.Host.{Host}

-- The ioctls on the machine that prepare it succeed.
pub record Prepares (K : Kvm) (V : KvmVm K) : Type 0 where
  pub region_set : (r : MemoryRegion) (vm : V.Vm) → (V.set_user_memory_region r vm).1 ≡ ok tt
  pub irq_chip : (vm : V.Vm) → (V.create_irq_chip vm).1 ≡ ok tt
  pub irqfd : (fd line : ℕ) (vm : V.Vm) → (V.register_irqfd fd line vm).1 ≡ ok tt

-- The calls on the host succeed: memory of so many bytes is mapped as one region from 0 on, the
-- console, if there is one, can be created, and the interface, if there is one, opened, which gives
-- a descriptor that is not watched yet. A descriptor that is not watched can be added to an epoll,
-- and a manager with no devices takes the network device at its address.
pub record Hosts {G : GuestMemory} {Cause : Type 0} {Ld : Loader G Cause} (H : Host G Cause Ld)
    (Unwatched : ℕ → ℕ → H.World → Type 0) (no_devices : H.Manager) (bytes : ℕ)
    (console : Option Ld.FilePath) (if_name : Option (List ℕ)) : Type 0 where
  pub ranges_made :
      (m : G.State) × (H.from_ranges (record { start = 0; len = bytes } ∷ []) ≡ ok m)
      × (H.regions m ≡ record { start = 0; len = bytes } ∷ [])
      × Covers G m 0 bytes
  pub eventfd_made : (w : H.World) → (fd : ℕ) × ((H.eventfd_new w).1 ≡ ok fd)
  pub file_created :
      (p : Ld.FilePath) (w : H.World)
      → console ≡ some p
      → (f : Ld.File) × ((H.create_file p w).1 ≡ ok f)
  pub serial_made : (f : Ld.File) (w : H.World) → (s : H.Serial) × ((H.serial_new f w).1 ≡ ok s)
  pub serial_event : (s : H.Serial) (w : H.World) → (fd : ℕ) × ((H.serial_eventfd s w).1 ≡ ok fd)
  pub net_made :
      (m : G.State) (fd : ℕ) (name : List ℕ) (w : H.World)
      → if_name ≡ some name
      → (net : H.Net) × ((H.net_new m fd name w).1 ≡ ok net)
        × ((epoll : ℕ) → Unwatched epoll (H.net_fd net) (H.net_new m fd name w).0)
  pub epoll_added :
      (epoll fd : ℕ) (e : Event) (w : H.World)
      → Unwatched epoll fd w
      → (H.epoll_calls.ctl_add epoll fd e w).1 ≡ ok tt
  pub mmio_registered :
      (net : H.Net) → (H.register_mmio net 0xd000_0000 0x1000 5 no_devices).1 ≡ ok tt

-- The command line with the network device, if there is one.
abbrev pub WithDevice :
    {G : GuestMemory} {Cause : Type 0} {Ld : Loader G Cause}
    → Host G Cause Ld
    → Option (List ℕ)
    → Ld.Cmdline
    → Ld.Cmdline
    → Type 0
WithDevice H none line line' = line' ≡ line
WithDevice H (some name) line line' = H.add_virtio_mmio_device 0x1000 0xd000_0000 5 line ≡ ok line'

-- A command line that takes the default text and then the network device, if there is one, and in
-- memory of so many bytes can be loaded.
pub record FitsLine {G : GuestMemory} {Cause : Type 0} {Ld : Loader G Cause} (H : Host G Cause Ld)
    (default_cmdline : List ℕ) (if_name : Option (List ℕ)) (bytes : ℕ) (line : Ld.Cmdline)
    : Type 0 where
  pub with_text : Ld.Cmdline
  pub text_taken : Ld.insert_str default_cmdline line ≡ ok with_text
  pub final : Ld.Cmdline
  pub device_taken : WithDevice H if_name with_text final
  pub fits : FitsText G Ld bytes final

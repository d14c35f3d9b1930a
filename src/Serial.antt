-- ===== src/Serial.antt =====
-- src/vmm/src/devices/serial.rs: the serial console with its event. The event descriptors of
-- vmm-sys-util and the device of vm-superio are parameters.
use lumper.Base.{ℕ, ◌≡◌, refl, ◌∙◌, sym, Result, ok, err, Eff}

pub record EventFds (Cause : Type 0) : Type 1 where
  pub World : Type 0
  -- `EventFd::new` with its flags, here always `EFD_NONBLOCK`.
  pub eventfd_new : Eff World Cause ℕ
  pub try_clone : ℕ → Eff World Cause ℕ
  pub write : ℕ → ℕ → Eff World Cause (Unit {0})

-- `LumperSerial`, by the descriptor of its event and the device.
pub record LumperSerial (Device : Type 0) : Type 0 where
  pub eventfd : ℕ
  pub serial : Device

-- How `new` ends.
pub data Made (A E : Type 0) : Type 0 where
  returns : Result E A → Made A E
  panics : Made A E

module _ {Cause : Type 0} (F : EventFds Cause) where
  -- `EventFdTrigger::trigger`
  pub trigger : ℕ → Eff F.World Cause (Unit {0})
  trigger eventfd = F.write eventfd 1

  module _ {Device Output : Type 0} (device_new : ℕ → Output → Device) where
    abbrev with_second :
        Output → ℕ → F.World × Result Cause ℕ → F.World × Made (LumperSerial Device) Cause
    with_second output first (w, ok second) =
        (w, returns (ok (record { eventfd = first; serial = device_new second output })))
    with_second output first (w, err e) = (w, returns (err e))

    abbrev with_first :
        Output → ℕ → F.World × Result Cause ℕ → F.World × Made (LumperSerial Device) Cause
    with_first output eventfd (w, ok first) = with_second output first (F.try_clone eventfd w)
    with_first output eventfd (w, err e) = (w, returns (err e))

    abbrev with_event :
        Output → F.World × Result Cause ℕ → F.World × Made (LumperSerial Device) Cause
    with_event output (w, ok eventfd) = with_first output eventfd (F.try_clone eventfd w)
    with_event output (w, err e) = (w, panics)

    -- `LumperSerial::new`: the descriptor of the event is cloned for the console and for the device.
    unfoldable pub new : Output → F.World → F.World × Made (LumperSerial Device) Cause
    new output w = with_event output (F.eventfd_new w)

  -- `LumperSerial::eventfd`
  pub eventfd_of : {Device : Type 0} → LumperSerial Device → Eff F.World Cause ℕ
  eventfd_of console = F.try_clone console.eventfd

-- What a descriptor signals; a clone signals the same.
pub record Signals {Cause : Type 0} (F : EventFds Cause) : Type 1 where
  pub Event : Type 0
  pub event : ℕ → Event
  pub cloned : (fd fd' : ℕ) (w : F.World) → (F.try_clone fd w).1 ≡ ok fd' → event fd' ≡ event fd

module _ {Cause : Type 0} (F : EventFds Cause) (S : Signals F) {Device Output : Type 0}
    (device_new : ℕ → Output → Device) where
  -- The device of the console raises the event that its descriptor stands for.
  abbrev IsWired : Output → Made (LumperSerial Device) Cause → Type 0
  IsWired output (returns (ok console)) =
      (fd : ℕ) × (console.serial ≡ device_new fd output) × (S.event fd ≡ S.event console.eventfd)
  IsWired output (returns (err e)) = Unit
  IsWired output panics = Unit

  with_second-IsWired :
      (output : Output) (fd first : ℕ) (p : F.World × Result Cause ℕ)
      → S.event first ≡ S.event fd
      → ((second : ℕ) → p.1 ≡ ok second → S.event second ≡ S.event fd)
      → IsWired output (with_second F device_new output first p).1
  with_second-IsWired output fd first (w, ok second) e h = (second, refl, h second refl ∙ sym e)
  with_second-IsWired output fd first (w, err x) e h = tt

  with_first-IsWired :
      (output : Output) (fd : ℕ) (p : F.World × Result Cause ℕ)
      → ((first : ℕ) → p.1 ≡ ok first → S.event first ≡ S.event fd)
      → IsWired output (with_first F device_new output fd p).1
  with_first-IsWired output fd (w, ok first) h =
      with_second-IsWired output fd first (F.try_clone fd w) (h first refl)
        (λ second e. S.cloned fd second w e)
  with_first-IsWired output fd (w, err x) h = tt

  with_event-IsWired :
      (output : Output) (p : F.World × Result Cause ℕ)
      → IsWired output (with_event F device_new output p).1
  with_event-IsWired output (w, ok fd) =
      with_first-IsWired output fd (F.try_clone fd w) (λ first e. S.cloned fd first w e)
  with_event-IsWired output (w, err x) = tt

  -- A console that is made raises, through its device, the event whose descriptor it gives out.
  new-IsWired : (output : Output) (w : F.World) → IsWired output (new F device_new output w).1
  unfolding new
  new-IsWired output w = with_event-IsWired output (F.eventfd_new w)

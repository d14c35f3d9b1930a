-- ===== src/Vcpu/Run.antt =====
-- `Vcpu::run` of src/vmm/src/cpu/mod.rs: the exits of a running vCPU and the devices that serve
-- them, with the ports of src/vmm/src/devices/serial.rs. The serial device of vm-superio and the
-- manager of vm-device are parameters; a panic of `unwrap` or `expect`, and of the index 0 of empty
-- data, is an outcome. Messages are left out. The locks are taken to be free, also the one of standard
-- input that a vCPU takes before it ends the process; `Vmm/Threads` is on who holds them.
pub mod Safety
use lumper.Base.{
  ℕ, zero, suc, ◌+◌, ◌-◌, Bool, true, false, ◌&&◌, Option, none, some, List, [], ◌∷◌, leb, ltb,
  if◌then◌else◌, Result, ok, err,
}

abbrev pub serial_port_base : ℕ
serial_port_base = 0x3f8

abbrev pub serial_port_last_register : ℕ
serial_port_last_register = serial_port_base + 0x8

-- `VcpuExit`, with the data that KVM has put into the run area. `other` is any exit that is not
-- served, `failed` an error of the ioctl.
pub data VcpuExit : Type 0 where
  shutdown hlt other failed : VcpuExit
  io_out : ℕ → List ℕ → VcpuExit
  io_in : ℕ → List ℕ → VcpuExit
  mmio_write : ℕ → List ℕ → VcpuExit
  mmio_read : ℕ → List ℕ → VcpuExit

-- The devices, behind their locks.
pub record Devices : Type 1 where
  pub Serial : Type 0
  pub Manager : Type 0
  -- `Serial::write` and `Serial::read`; `none` is an error.
  pub serial_write : ℕ → ℕ → Serial → Option Serial
  pub serial_read : ℕ → Serial → Serial × ℕ
  -- `IoManager::mmio_write` and `mmio_read`, which fills the data.
  pub manager_write : ℕ → List ℕ → Manager → Option Manager
  pub manager_read : ℕ → List ℕ → Manager → Option (Manager × List ℕ)
  -- Whether `set_canon_mode` succeeds.
  pub set_canon_mode : Bool

-- How a call of `run` ends: it returns, with the data that the guest is given on a read, it leaves
-- the process, or it panics.
pub data Outcome (S : Type 0) : Type 0 where
  returns : S → List ℕ → Outcome S
  exits : Outcome S
  panics : Outcome S

module _ (D : Devices) where
  pub record Board : Type 0 where
    pub serial : D.Serial
    pub manager : D.Manager

  -- `SERIAL_PORT_BASE..=SERIAL_PORT_LAST_REGISTER`
  abbrev pub is_serial_port : ℕ → Bool
  is_serial_port addr = leb serial_port_base addr && leb addr serial_port_last_register

  -- `(addr - SERIAL_PORT_BASE).try_into().expect(…)`, into `u8`.
  abbrev pub register_offset : ℕ → Option ℕ
  register_offset addr =
      if ltb (addr - serial_port_base) 256 then some (addr - serial_port_base) else none

  abbrev pub wrote_serial : Board → List ℕ → Option D.Serial → Outcome Board
  wrote_serial b bytes none = panics
  wrote_serial b bytes (some serial) = returns (record b { serial = serial }) bytes

  abbrev pub out_to_serial : Board → List ℕ → Option ℕ → Outcome Board
  out_to_serial b bytes none = panics
  out_to_serial b [] (some offset) = panics
  out_to_serial b (value ∷ bytes) (some offset) =
      wrote_serial b (value ∷ bytes) (D.serial_write offset value b.serial)

  abbrev pub in_from_serial : Board → List ℕ → Option ℕ → Outcome Board
  in_from_serial b bytes none = panics
  in_from_serial b [] (some offset) = panics
  in_from_serial b (value ∷ bytes) (some offset) =
      let got = D.serial_read offset b.serial in
      returns (record b { serial = got.0 }) (got.1 ∷ bytes)

  abbrev pub wrote_manager : Board → List ℕ → Option D.Manager → Outcome Board
  wrote_manager b bytes none = panics
  wrote_manager b bytes (some manager) = returns (record b { manager = manager }) bytes

  abbrev pub read_manager : Board → Option (D.Manager × List ℕ) → Outcome Board
  read_manager b none = panics
  read_manager b (some (manager, bytes)) = returns (record b { manager = manager }) bytes

  -- The terminal gets its mode back before the process ends.
  abbrev leaves : Outcome Board
  leaves = if D.set_canon_mode then exits else panics

  unfoldable pub run : VcpuExit → Board → Outcome Board
  run shutdown b = leaves
  run hlt b = leaves
  run (io_out addr bytes) b =
      if is_serial_port addr then out_to_serial b bytes (register_offset addr) else returns b bytes
  run (io_in addr bytes) b =
      if is_serial_port addr then in_from_serial b bytes (register_offset addr) else returns b bytes
  run (mmio_write addr bytes) b = wrote_manager b bytes (D.manager_write addr bytes b.manager)
  run (mmio_read addr bytes) b = read_manager b (D.manager_read addr bytes b.manager)
  run other b = returns b []
  run failed b = returns b []

  -- `loop { vcpu.run(); }` of the thread of the vCPU, over the exits that come.
  unfoldable pub run_loop : List VcpuExit → Board → Outcome Board
  run_loop [] b = returns b []
  run_loop (e ∷ es) b = elim (run e b) [
    | returns b' bytes ↦ run_loop es b'
    | exits ↦ exits
    | panics ↦ panics
  ]

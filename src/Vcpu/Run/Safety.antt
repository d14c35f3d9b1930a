-- ===== src/Vcpu/Run/Safety.antt =====
-- The loop of a vCPU: when it ends, and that it reaches the devices only through their operations.
use lumper.Base.{ℕ, ◌≤◌, ◌<◌, ◌≡◌, Bool, true, false, ◌||◌, some, List, [], ◌∷◌, length}
use lumper.Vcpu.Run.{
  VcpuExit, shutdown, hlt, io_out, io_in, mmio_write, mmio_read, Devices, Outcome, returns, Board,
}

-- KVM gives at least one byte of data with an exit for a port, and the guest accesses only
-- addresses where there is a device.
abbrev pub IsServed : (ℕ → Type 0) → VcpuExit → Type 0
IsServed Mapped (io_out addr bytes) = 0 < length bytes
IsServed Mapped (io_in addr bytes) = 0 < length bytes
IsServed Mapped (mmio_write addr bytes) = Mapped addr
IsServed Mapped (mmio_read addr bytes) = Mapped addr
IsServed Mapped e = Unit

abbrev pub AllAreServed : (ℕ → Type 0) → List VcpuExit → Type 0
AllAreServed Mapped [] = Unit
AllAreServed Mapped (e ∷ es) = IsServed Mapped e × AllAreServed Mapped es

-- The guest has shut down or halted.
abbrev pub is_stop : VcpuExit → Bool
is_stop shutdown = true
is_stop hlt = true
is_stop e = false

abbrev pub stops : List VcpuExit → Bool
stops [] = false
stops (e ∷ es) = is_stop e || stops es

-- The devices serve the accesses to their registers and keep what holds of them: the serial device
-- for the register offsets up to 8, the manager for the addresses that are mapped.
pub record Serves (D : Devices) (Mapped : ℕ → Type 0) (P : D.Serial → Type 0)
    (Q : D.Manager → Type 0) : Type 0 where
  pub serial_writes :
      (offset value : ℕ) (s : D.Serial)
      → offset ≤ 8
      → P s
      → (s' : D.Serial) × (D.serial_write offset value s ≡ some s') × P s'
  pub serial_reads : (offset : ℕ) (s : D.Serial) → offset ≤ 8 → P s → P (D.serial_read offset s).0
  pub manager_writes :
      (addr : ℕ) (bytes : List ℕ) (m : D.Manager)
      → Mapped addr
      → Q m
      → (m' : D.Manager) × (D.manager_write addr bytes m ≡ some m') × Q m'
  pub manager_reads :
      (addr : ℕ) (bytes : List ℕ) (m : D.Manager)
      → Mapped addr
      → Q m
      → (got : D.Manager × List ℕ) × (D.manager_read addr bytes m ≡ some got) × Q got.0
  pub restores : D.set_canon_mode ≡ true

module _ (D : Devices) (Mapped : ℕ → Type 0) (P : D.Serial → Type 0) (Q : D.Manager → Type 0) where
  -- An outcome by which the devices are as they should be.
  abbrev pub Returned : Outcome (Board D) → Type 0
  Returned o = (b : Board D) × (bytes : List ℕ) × (o ≡ returns b bytes) × P b.serial × Q b.manager

-- ===== src/Mpspec.antt =====
-- src/vmm/src/cpu/mpspec.rs: the structures of the Intel MultiProcessor tables and their constants.
mod Repr
mod Structs
mod Sizes
pub mod Layout
unfoldable pub use Repr.*
unfoldable pub use Sizes.*
unfoldable pub use Structs.*
use lumper.Base.{ℕ}

abbrev pub mp_processor : ℕ
mp_processor = 0

abbrev pub mp_bus : ℕ
mp_bus = 1

abbrev pub mp_ioapic : ℕ
mp_ioapic = 2

abbrev pub mp_intsrc : ℕ
mp_intsrc = 3

abbrev pub mp_lintsrc : ℕ
mp_lintsrc = 4

abbrev pub cpu_enabled : ℕ
cpu_enabled = 1

abbrev pub cpu_bootprocessor : ℕ
cpu_bootprocessor = 2

abbrev pub mpc_apic_usable : ℕ
mpc_apic_usable = 1

abbrev pub mp_irqdir_default : ℕ
mp_irqdir_default = 0

abbrev pub mp_irq_int : ℕ
mp_irq_int = 0

abbrev pub mp_irq_nmi : ℕ
mp_irq_nmi = 1

abbrev pub mp_irq_ext_int : ℕ
mp_irq_ext_int = 3

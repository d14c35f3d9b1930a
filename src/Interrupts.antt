-- ===== src/Interrupts.antt =====
-- src/vmm/src/cpu/interrupts.rs: integers in byte buffers, and the registers of the local APIC.
-- Signed bytes and words are kept by their bit patterns, so the casts between them and the
-- unsigned ones are the identity. `none` is a panic of `expect`.
pub mod Buffers
pub mod Registers
use lumper.Base.{
  ℕ, zero, suc, ◌+◌, List, [], ◌∷◌, ◌++◌, Option, none, some, take, drop, length, leb,
  if◌then◌else◌, bit_and, bit_or, complement, u32, ◌<<<◌,
}
use lumper.Base.Bytes.{to_le_bytes, from_le_bytes, to_be_bytes, from_be_bytes}

-- `let mut array = [0u8; size]`, and the loop over the bytes zipped with the input.
unfoldable pub read_array : ℕ → List ℕ → List ℕ
read_array zero input = []
read_array (suc size) [] = 0 ∷ read_array size []
read_array (suc size) (read ∷ input) = read ∷ read_array size input

-- The loop over the buffer zipped with the bytes of the number.
unfoldable pub write_array : List ℕ → List ℕ → List ℕ
write_array [] bytes = []
write_array (b ∷ buf) [] = b ∷ buf
write_array (b ∷ buf) (read ∷ bytes) = read ∷ write_array buf bytes

-- `generate_read_fn!` and `generate_write_fn!` for an integer of `size` bytes.
unfoldable pub read_le : ℕ → List ℕ → ℕ
unfolding read_array
read_le size input = from_le_bytes (read_array size input)

unfoldable pub read_be : ℕ → List ℕ → ℕ
unfolding read_array
read_be size input = from_be_bytes (read_array size input)

unfoldable pub write_le : ℕ → List ℕ → ℕ → List ℕ
unfolding write_array
write_le size buf n = write_array buf (to_le_bytes size n)

unfoldable pub write_be : ℕ → List ℕ → ℕ → List ℕ
unfolding write_array
write_be size buf n = write_array buf (to_be_bytes size n)

abbrev pub read_le_i32 : List ℕ → ℕ
read_le_i32 = read_le 4

abbrev pub write_le_i32 : List ℕ → ℕ → List ℕ
write_le_i32 = write_le 4

abbrev pub apic_lvt0 : ℕ
apic_lvt0 = 0x350

abbrev pub apic_lvt1 : ℕ
apic_lvt1 = 0x360

abbrev pub apic_mode_nmi : ℕ
apic_mode_nmi = 0x4

abbrev pub apic_mode_extint : ℕ
apic_mode_extint = 0x7

-- `kvm_lapic_state` is its array of registers.
unfoldable pub get_klapic_reg : List ℕ → ℕ → Option ℕ
get_klapic_reg regs reg_offset =
    if leb (reg_offset + 4) (length regs)
    then some (read_le_i32 (take 4 (drop reg_offset regs)))
    else none

unfoldable pub set_klapic_reg : List ℕ → ℕ → ℕ → Option (List ℕ)
set_klapic_reg regs reg_offset value =
    if leb (reg_offset + 4) (length regs)
    then some (
        take reg_offset regs
        ++ (write_le_i32 (take 4 (drop reg_offset regs)) value ++ drop (reg_offset + 4) regs))
    else none

unfoldable pub set_apic_delivery_mode : ℕ → ℕ → ℕ
set_apic_delivery_mode reg mode = bit_or (bit_and reg (complement 32 0x700)) (u32 (mode <<< 8))

-- ===== src/Gdt.antt =====
-- src/vmm/src/cpu/gdt.rs: entries of the global descriptor table, the segments that KVM is given
-- for them, and the tables in guest memory. Values of `u64` and below are numbers; a shift to
-- the left drops what leaves the word, as `u64` does.
pub mod Arith
pub mod RoundTrip
pub mod Table
use lumper.Base.{
  ℕ, zero, suc, ◌+◌, ◌*◌, bit_and, bit_or, ◌<<<◌, ◌>>>◌, u8, u16, u32, u64, ◌==◌, if◌then◌else◌,
  Option, none, some, List, [], ◌∷◌, Eff, ◌>>=◌, ◌>>◌, pure, fail,
}
use lumper.Base.Bytes.{to_le_bytes}
use lumper.Memory.{GuestMemory}

abbrev pub boot_gdt_offset : ℕ
boot_gdt_offset = 0x500

abbrev pub boot_idt_offset : ℕ
boot_idt_offset = 0x520

abbrev pub boot_gdt_max : ℕ
boot_gdt_max = 4

unfoldable pub gdt_entry : ℕ → ℕ → ℕ → ℕ
gdt_entry flags base limit =
    bit_or
      (bit_or
        (bit_or
          (bit_or (u64 (bit_and base 0xff00_0000 <<< 32)) (u64 (bit_and flags 0x0000_f0ff <<< 40)))
          (u64 (bit_and limit 0x000f_0000 <<< 32)))
        (u64 (bit_and base 0x00ff_ffff <<< 16)))
      (bit_and limit 0x0000_ffff)

unfoldable pub get_base : ℕ → ℕ
get_base entry =
    bit_or
      (bit_or (bit_and entry 0xFF00_0000_0000_0000 >>> 32)
        (bit_and entry 0x0000_00FF_0000_0000 >>> 16))
      (bit_and entry 0x0000_0000_FFFF_0000 >>> 16)

unfoldable pub get_limit : ℕ → ℕ
get_limit entry =
    u32 (bit_or (bit_and entry 0x000F_0000_0000_0000 >>> 32) (bit_and entry 0x0000_0000_0000_FFFF))

unfoldable pub get_g : ℕ → ℕ
get_g entry = u8 (bit_and entry 0x0080_0000_0000_0000 >>> 55)

unfoldable pub get_db : ℕ → ℕ
get_db entry = u8 (bit_and entry 0x0040_0000_0000_0000 >>> 54)

unfoldable pub get_l : ℕ → ℕ
get_l entry = u8 (bit_and entry 0x0020_0000_0000_0000 >>> 53)

unfoldable pub get_avl : ℕ → ℕ
get_avl entry = u8 (bit_and entry 0x0010_0000_0000_0000 >>> 52)

unfoldable pub get_p : ℕ → ℕ
get_p entry = u8 (bit_and entry 0x0000_8000_0000_0000 >>> 47)

unfoldable pub get_dpl : ℕ → ℕ
get_dpl entry = u8 (bit_and entry 0x0000_6000_0000_0000 >>> 45)

unfoldable pub get_s : ℕ → ℕ
get_s entry = u8 (bit_and entry 0x0000_1000_0000_0000 >>> 44)

unfoldable pub get_type : ℕ → ℕ
get_type entry = u8 (bit_and entry 0x0000_0F00_0000_0000 >>> 40)

-- `kvm_segment`
pub record KvmSegment : Type 0 where
  pub base : ℕ
  pub limit : ℕ
  pub selector : ℕ
  pub type_ : ℕ
  pub present : ℕ
  pub dpl : ℕ
  pub db : ℕ
  pub s : ℕ
  pub l : ℕ
  pub g : ℕ
  pub avl : ℕ
  pub padding : ℕ
  pub unusable : ℕ

-- The product `table_index * 8` is one of `u8`; the program's indexes are at most 3.
unfoldable pub kvm_segment_from_gdt : ℕ → ℕ → KvmSegment
kvm_segment_from_gdt entry table_index = record {
  base = get_base entry;
  limit = get_limit entry;
  selector = u8 (table_index * 8);
  type_ = get_type entry;
  present = get_p entry;
  dpl = get_dpl entry;
  db = get_db entry;
  s = get_s entry;
  l = get_l entry;
  g = get_g entry;
  avl = get_avl entry;
  padding = 0;
  unusable = if get_p entry == 0 then 1 else 0;
}

module _ (G : GuestMemory) where
  open G use {State, MemoryError}

  -- `checked_offset(…).ok_or(InvalidGuestAddress(boot_gdt_addr))`
  unfoldable pub entry_address : ℕ → Eff State MemoryError ℕ
  entry_address index m = elim (G.checked_offset m boot_gdt_offset (index * 8)) [
    | none ↦ fail (G.invalid_guest_address boot_gdt_offset) m
    | some addr ↦ pure addr m
  ]

  -- The loop over the entries from `index` on.
  unfoldable pub write_gdt_entries : ℕ → List ℕ → Eff State MemoryError (Unit {0})
  write_gdt_entries index [] = pure tt
  write_gdt_entries index (entry ∷ table) = do
    addr ← entry_address index
    G.write_slice (to_le_bytes 8 entry) addr
    write_gdt_entries (index + 1) table

  unfoldable pub write_gdt_table : List ℕ → Eff State MemoryError (Unit {0})
  unfolding write_gdt_entries entry_address
  write_gdt_table table = write_gdt_entries 0 table

  unfoldable pub write_idt_value : ℕ → Eff State MemoryError (Unit {0})
  write_idt_value val = G.write_slice (to_le_bytes 8 val) boot_idt_offset

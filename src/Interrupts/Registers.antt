-- ===== src/Interrupts/Registers.antt =====
-- The registers of the local APIC: a write is seen at its register and nowhere else.
use lumper.Base.{
  ℕ, ◌+◌, ◌-◌, ◌*◌, ◌/◌, ◌%◌, ◌^◌, ◌≤◌, ◌<◌, ◌≡◌, ◌∙◌, sym, ap, ap₂, ◌⊎◌, inl, inr, List, ◌++◌,
  arith, length, length-append, take, drop, none, some, leb, le→leb, if◌then◌else◌, bit_and, bit_or,
  u32, complement, ◌<<<◌,
}
use lumper.Base.Slices.{
  take-append-drop, length-take, length-drop, drop-append_past, take-append_within, take_all,
  slice-append_within,
}
use lumper.Base.Bits.{bit_and-split, bit_or-split, bit_or-zero}
use lumper.Base.Bits.Fields.{bit_and_low, bit_or_high}
use lumper.Interrupts.{
  read_le, write_le_i32, get_klapic_reg, set_klapic_reg, set_apic_delivery_mode,
}
use lumper.Interrupts.Buffers.{read_le-write_le, length-write_le}

module _ (regs : List ℕ) (off value : ℕ) (room : off + 4 ≤ length regs) where
  abbrev word : List ℕ
  word = write_le_i32 (take 4 (drop off regs)) value

  -- The registers after a write.
  abbrev pub updated : List ℕ
  updated = take off regs ++ (word ++ drop (off + 4) regs)

  pub set_klapic_reg-eq : set_klapic_reg regs off value ≡ some updated
  unfolding set_klapic_reg
  set_klapic_reg-eq = rw (le→leb (off + 4) (length regs) room)

  length-slice : length (take 4 (drop off regs)) ≡ 4
  length-slice = length-take 4 (drop off regs) (omega (arith, length-drop off regs))

  length-word : length word ≡ 4
  length-word = length-write_le 4 (take 4 (drop off regs)) value ∙ length-slice

  length-front : length (take off regs) ≡ off
  length-front = length-take off regs (omega arith)

  pub length-updated : length updated ≡ length regs
  length-updated = omega (
    arith,
    length-append (take off regs) (word ++ drop (off + 4) regs),
    length-append word (drop (off + 4) regs),
    length-front,
    length-word,
    length-drop (off + 4) regs,
  )

  slice_same : take 4 (drop off updated) ≡ word
  slice_same =
      ap (take 4) (
        drop-append_past off (take off regs) _ (omega (arith, length-front))
        ∙ ap (λ k. drop k (word ++ drop (off + 4) regs)) {y = 0} (omega (arith, length-front)))
      ∙ take-append_within 4 word (drop (off + 4) regs) (omega (arith, length-word))
      ∙ take_all 4 word (omega (arith, length-word))

  slice_other :
      (j : ℕ) → (j + 4 ≤ off) ⊎ (off + 4 ≤ j) → take 4 (drop j updated) ≡ take 4 (drop j regs)
  slice_other j (inl below) =
      slice-append_within j 4 (take off regs) _ (omega (arith, length-front))
      ∙ sym (slice-append_within j 4 (take off regs) (drop off regs) (omega (arith, length-front)))
      ∙ ap (λ l. take 4 (drop j l)) (take-append-drop off regs)
  slice_other j (inr above) = ap (take 4) (
      drop-append_past j (take off regs) _ (omega (arith, length-front))
      ∙ drop-append_past (j - length (take off regs)) word _
          (omega (arith, length-front, length-word))
      ∙ ap (λ k. drop k (drop (off + 4) regs))
          (omega (arith, length-front, length-word, length-upper))
      ∙ sym (
          drop-append_past j (take (off + 4) regs) (drop (off + 4) regs)
            (omega (arith, length-upper)))
      ∙ ap (drop j) (take-append-drop (off + 4) regs))
    where
      length-upper : length (take (off + 4) regs) ≡ off + 4
      length-upper = length-take (off + 4) regs room

-- A write, and every register it leaves alone.
pub set_klapic_reg_everywhere :
    (regs : List ℕ) (off value : ℕ)
    → off + 4 ≤ length regs
    → value < 2 ^ 32
    → (regs' : List ℕ) × (set_klapic_reg regs off value ≡ some regs')
      × (get_klapic_reg regs' off ≡ some value)
      × (length regs' ≡ length regs)
      × ((j : ℕ) → (j + 4 ≤ off) ⊎ (off + 4 ≤ j) → get_klapic_reg regs' j ≡ get_klapic_reg regs j)
unfolding get_klapic_reg
set_klapic_reg_everywhere regs off value room h = (
  updated regs off value room,
  set_klapic_reg-eq regs off value room,
  rw
      (le→leb (off + 4) (length (updated regs off value room))
        (omega (arith, length-updated regs off value room)))
      (ap some (
        ap (read_le 4) (slice_same regs off value room)
        ∙ read_le-write_le 4 (take 4 (drop off regs)) value
            (omega (arith, length-slice regs off value room)) h)),
  length-updated regs off value room,
  λ j apart.
      ap₂ (λ n w. if leb (j + 4) n then some (read_le 4 w) else none)
        (length-updated regs off value room) (slice_other regs off value room j apart),
)

-- In a register file with room for the register, a word below 2 ^ 32 that is set is read back,
-- a register that does not overlap it reads as before, and the size stays.
pub get_klapic_reg-set_klapic_reg :
    (regs : List ℕ) (off value j : ℕ)
    → off + 4 ≤ length regs
    → value < 2 ^ 32
    → (j + 4 ≤ off) ⊎ (off + 4 ≤ j)
    → (regs' : List ℕ) × (set_klapic_reg regs off value ≡ some regs')
      × (get_klapic_reg regs' off ≡ some value)
      × (get_klapic_reg regs' j ≡ get_klapic_reg regs j)
      × (length regs' ≡ length regs)
get_klapic_reg-set_klapic_reg regs off value j room h apart =
    let put = set_klapic_reg_everywhere regs off value room h in
    (put.0, put.1, put.2, put.4 j apart, put.3)

-- For a register of 32 bits and a mode of three bits, the delivery mode, bits 8 to 10, becomes
-- the mode, and all other bits stay.
pub set_apic_delivery_mode_lem :
    (reg mode : ℕ)
    → reg < 2 ^ 32
    → mode < 8
    → let r = set_apic_delivery_mode reg mode in
      (r / 2 ^ 8 % 8 ≡ mode) × (r % 2 ^ 8 ≡ reg % 2 ^ 8) × (r / 2 ^ 11 ≡ reg / 2 ^ 11)
unfolding set_apic_delivery_mode
set_apic_delivery_mode_lem reg mode h k = omega (arith, sum)
  where
    masked : bit_and reg (complement 32 0x700) ≡ reg / 2 ^ 11 * 2 ^ 11 + reg % 2 ^ 8
    masked =
        ap (λ (t : ℕ). bit_and t 0xfffff8ff) (omega arith)
        ∙ bit_and-split 11 (reg / 2 ^ 11) 0x1fffff (reg % 2 ^ 11) 0xff (omega arith) (omega arith)
        ∙ omega (arith, bit_and_low 21 (reg / 2 ^ 11), bit_and_low 8 (reg % 2 ^ 11))

    shifted : u32 (mode <<< 8) ≡ 0 * 2 ^ 11 + mode * 2 ^ 8
    shifted = omega arith

    sum :
        bit_or (bit_and reg (complement 32 0x700)) (u32 (mode <<< 8))
        ≡ reg / 2 ^ 11 * 2 ^ 11 + mode * 2 ^ 8 + reg % 2 ^ 8
    sum =
        ap₂ bit_or masked shifted
        ∙ bit_or-split 11 (reg / 2 ^ 11) 0 (reg % 2 ^ 8) (mode * 2 ^ 8) (omega arith) (omega arith)
        ∙ omega (arith, bit_or-zero (reg / 2 ^ 11), bit_or_high 8 mode (reg % 2 ^ 8) (omega arith))

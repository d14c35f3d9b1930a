-- ===== src/Vcpu/Lapic.antt =====
-- `configure_lapic`: the delivery modes of the two local interrupt pins.
use lumper.Base.{
  ℕ, zero, suc, ◌+◌, ◌/◌, ◌%◌, ◌^◌, ◌≤◌, ◌<◌, ◌≡◌, refl, ◌∙◌, ◌⊎◌, inl, inr, some, List, [], ◌∷◌,
  arith, length, take, drop, ok, le→leb,
}
use lumper.Base.Bytes.{AreBytes}
use lumper.Memory.{GuestMemory}
use lumper.Interrupts.{
  read_le, get_klapic_reg, set_klapic_reg, set_apic_delivery_mode, apic_lvt0, apic_lvt1,
  apic_mode_extint, apic_mode_nmi,
}
use lumper.Interrupts.Registers.{set_apic_delivery_mode_lem, set_klapic_reg_everywhere}
use lumper.Vcpu.{Kvm, World, on_vcpu, set_delivery, configure_lapic}

AreBytes-drop : (n : ℕ) (bs : List ℕ) → AreBytes bs → AreBytes (drop n bs)
AreBytes-drop zero bs h = h
AreBytes-drop (suc n) [] h = h
AreBytes-drop (suc n) (b ∷ bs) h = AreBytes-drop n bs h.1

-- A word read from bytes fits 32 bits.
word-lt : (input : List ℕ) → AreBytes input → read_le 4 (take 4 input) < 2 ^ 32
unfolding read_le
word-lt [] h = omega arith
word-lt (a ∷ []) h = omega arith
word-lt (a ∷ b ∷ []) h = omega arith
word-lt (a ∷ b ∷ c ∷ []) h = omega arith
word-lt (a ∷ b ∷ c ∷ d ∷ bs) h = omega arith

-- After `set_delivery` at a register: the mode is set there, and other registers are as before.
pub record Delivers (regs regs' : List ℕ) (off mode : ℕ) : Type 0 where
  pub before : ℕ
  pub value : ℕ
  pub found : get_klapic_reg regs off ≡ some before
  pub stored : get_klapic_reg regs' off ≡ some value
  pub mode_set : value / 2 ^ 8 % 8 ≡ mode
  pub low_kept : value % 2 ^ 8 ≡ before % 2 ^ 8
  pub high_kept : value / 2 ^ 11 ≡ before / 2 ^ 11
  pub others :
      (j : ℕ) → (j + 4 ≤ off) ⊎ (off + 4 ≤ j) → get_klapic_reg regs' j ≡ get_klapic_reg regs j
  pub same_length : length regs' ≡ length regs

set_delivery-Delivers :
    (off mode : ℕ) (regs : List ℕ) (before : ℕ)
    → get_klapic_reg regs off ≡ some before
    → before < 2 ^ 32
    → mode < 8
    → off + 4 ≤ length regs
    → (regs' : List ℕ) × (set_delivery off mode regs ≡ some regs') × Delivers regs regs' off mode
unfolding set_delivery
set_delivery-Delivers off mode regs before found h k room = (
  put.0,
  rw (found, set_delivery) put.1,
  record {
    before = before;
    value = set_apic_delivery_mode before mode;
    found = found;
    stored = put.2;
    mode_set = modes.0;
    low_kept = modes.1;
    high_kept = modes.2;
    others = put.4;
    same_length = put.3;
  },
)
  where
    modes :
        let r = set_apic_delivery_mode before mode in
        (r / 2 ^ 8 % 8 ≡ mode) × (r % 2 ^ 8 ≡ before % 2 ^ 8) × (r / 2 ^ 11 ≡ before / 2 ^ 11)
    modes = set_apic_delivery_mode_lem before mode h k

    put :
        (regs' : List ℕ) × (set_klapic_reg regs off (set_apic_delivery_mode before mode)
          ≡ some regs')
        × (get_klapic_reg regs' off ≡ some (set_apic_delivery_mode before mode))
        × (length regs' ≡ length regs)
        × ((j : ℕ) → (j + 4 ≤ off) ⊎ (off + 4 ≤ j) → get_klapic_reg regs' j ≡ get_klapic_reg regs j)
    put =
        set_klapic_reg_everywhere regs off (set_apic_delivery_mode before mode) room
          (omega (arith, modes))

-- The register file that `configure_lapic` gives to KVM.
pub record ConfiguresLapic (G : GuestMemory) (K : Kvm) (w : World G K) (s : K.State) (regs : List ℕ)
    : Type 0 where
  pub middle : List ℕ
  pub final : List ℕ
  pub lint0 : Delivers regs middle apic_lvt0 apic_mode_extint
  pub lint1 : Delivers middle final apic_lvt1 apic_mode_nmi
  pub lint0_kept : get_klapic_reg final apic_lvt0 ≡ get_klapic_reg middle apic_lvt0
  pub outcome : configure_lapic G K w ≡ on_vcpu G K (K.set_lapic final) (record w { vcpu = s })

read_word :
    (regs : List ℕ) (off : ℕ)
    → AreBytes regs
    → off + 4 ≤ length regs
    → (v : ℕ) × (get_klapic_reg regs off ≡ some v) × (v < 2 ^ 32)
unfolding get_klapic_reg
read_word regs off h room = (
  read_le 4 (take 4 (drop off regs)),
  rw (le→leb (off + 4) (length regs) room),
  word-lt (drop off regs) (AreBytes-drop off regs h),
)

-- If KVM gives a register file of bytes that holds both registers, `configure_lapic` never panics
-- and comes to the call of `set_lapic` with LVT0 delivering external interrupts and LVT1
-- delivering NMIs; the other bits of the two and all other registers are as KVM gave them.
pub configure_lapic-ConfiguresLapic :
    (G : GuestMemory) (K : Kvm) (w : World G K) (s : K.State) (regs : List ℕ)
    → K.get_lapic w.vcpu ≡ (s, ok regs)
    → AreBytes regs
    → apic_lvt1 + 4 ≤ length regs
    → ConfiguresLapic G K w s regs
unfolding configure_lapic
configure_lapic-ConfiguresLapic G K w s regs got bytes room = record {
  middle = first.0;
  final = second.0;
  lint0 = first.2;
  lint1 = second.2;
  lint0_kept = second.2.others apic_lvt0 (inl (omega arith));
  outcome = rw (got, first.1, second.1) refl;
}
  where
    old0 : (v : ℕ) × (get_klapic_reg regs apic_lvt0 ≡ some v) × (v < 2 ^ 32)
    old0 = read_word regs apic_lvt0 bytes (omega arith)

    old1 : (v : ℕ) × (get_klapic_reg regs apic_lvt1 ≡ some v) × (v < 2 ^ 32)
    old1 = read_word regs apic_lvt1 bytes room

    first :
        (regs' : List ℕ) × (set_delivery apic_lvt0 apic_mode_extint regs ≡ some regs')
        × Delivers regs regs' apic_lvt0 apic_mode_extint
    first =
        set_delivery-Delivers apic_lvt0 apic_mode_extint regs old0.0 old0.1 old0.2 (omega arith)
          (omega arith)

    second :
        (regs' : List ℕ) × (set_delivery apic_lvt1 apic_mode_nmi first.0 ≡ some regs')
        × Delivers first.0 regs' apic_lvt1 apic_mode_nmi
    second =
        set_delivery-Delivers apic_lvt1 apic_mode_nmi first.0 old1.0
          (first.2.others apic_lvt1 (inr (omega arith)) ∙ old1.1) old1.2 (omega arith)
          (omega (arith, first.2.same_length))

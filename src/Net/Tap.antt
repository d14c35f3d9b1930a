-- ===== src/Net/Tap.antt =====
-- src/vmm/src/devices/net/tap.rs: the offload flags and the name of the tap interface.
use lumper.Base.{
  ℕ, zero, suc, ◌+◌, ◌-◌, ◌*◌, ◌/◌, ◌%◌, ◌^◌, ◌<◌, ◌≡◌, refl, ◌∙◌, ap, Bool, true, false, not, ◌⊎◌,
  inl, inr, List, ◌∷◌, ◌++◌, arith, length, length-append, length-replicate, take, drop, replicate,
  bit_and, bit_or, ◌<<<◌, leb, ◌==◌, if◌then◌else◌, Result, ok, err,
}
use native.Mathlib.Nat.{one-le-pow}
use lumper.Base.Slices.{take-append_within, take_all, drop-append_past}
use lumper.Base.Bits.Fields.{bit_and_field}
use lumper.Net.{FeatureBits, tun_f_csum, tun_f_ufo, tun_f_tso4, tun_f_tso6}

abbrev iface_name_max_len : ℕ
iface_name_max_len = 16

-- The constructor of `VirtioNetError` that the name can end in.
pub data Error : Type 0 where
  invalid_ifname : Error

-- `virtio_flags & (1 << bit) != 0`
abbrev has_bit : ℕ → ℕ → Bool
has_bit virtio_flags bit = not (bit_and virtio_flags (1 <<< bit) == 0)

-- The four tests, in their order and with the bits that they name.
pub virtio_flags_to_tuntap_flags : FeatureBits → ℕ → ℕ
virtio_flags_to_tuntap_flags f virtio_flags =
    let flags0 : ℕ = 0 in
    let flags1 : ℕ = if has_bit virtio_flags f.csum then bit_or flags0 tun_f_csum else flags0 in
    let flags2 : ℕ = if has_bit virtio_flags f.host_ufo then bit_or flags1 tun_f_ufo else flags1 in
    let flags3 : ℕ = if has_bit virtio_flags f.host_ufo then bit_or flags2 tun_f_tso4 else flags2 in
    if has_bit virtio_flags f.host_ufo then bit_or flags3 tun_f_tso6 else flags3

-- The bytes of the name are copied over the front of sixteen zeros.
unfoldable pub build_terminated_if_name : List ℕ → Result Error (List ℕ)
build_terminated_if_name if_name =
    if leb iface_name_max_len (length if_name)
    then err invalid_ifname
    else ok (if_name ++ drop (length if_name) (replicate iface_name_max_len 0))

pub drop-replicate : (n k : ℕ) → drop {A = ℕ} k (replicate n 0) ≡ replicate (n - k) 0
drop-replicate n zero = ap (λ j. replicate {A = ℕ} j 0) {x = n} {y = n - 0} (omega arith)
drop-replicate zero (suc k) = ap (λ j. replicate {A = ℕ} j 0) {x = 0} {y = 0 - suc k} (omega arith)
drop-replicate (suc n) (suc k) =
    drop-replicate n k
    ∙ ap (λ j. replicate {A = ℕ} j 0) {x = n - k} {y = suc n - suc k} (omega arith)

-- A name of up to 15 bytes becomes sixteen bytes, the name and then only zeros, at least one.
pub build_terminated_if_name_fits :
    (if_name : List ℕ)
    → length if_name < 16
    → (bytes : List ℕ) × (build_terminated_if_name if_name ≡ ok bytes)
      × (length bytes ≡ 16)
      × (take (length if_name) bytes ≡ if_name)
      × (drop (length if_name) bytes ≡ 0 ∷ replicate (15 - length if_name) 0)
unfolding build_terminated_if_name
build_terminated_if_name_fits if_name h = (
  if_name ++ rest,
  rw short refl,
  omega (
    arith,
    length-append if_name rest,
    ap (λ l. length l) (drop-replicate 16 (length if_name)),
    length-replicate {A = ℕ} (16 - length if_name) 0,
  ),
  take-append_within (length if_name) if_name rest (omega arith)
      ∙ take_all (length if_name) if_name refl,
  drop-append_past (length if_name) if_name rest (omega arith)
      ∙ ap (λ k. drop k rest) {y = 0} (omega arith)
      ∙ drop-replicate 16 (length if_name)
      ∙ ap (λ k. replicate {A = ℕ} k 0) {y = suc (15 - length if_name)} (omega arith),
)
  where
    rest : List ℕ
    rest = drop (length if_name) (replicate 16 0)

    short : leb 16 (length if_name) ≡ false
    short = ground arith

bit_value : (flags bit : ℕ) → bit_and flags (1 <<< bit) ≡ flags / 2 ^ bit % 2 * 2 ^ bit
bit_value flags bit = bit_and_field bit 1 flags

has_bit_clear : (flags bit : ℕ) → flags / 2 ^ bit % 2 ≡ 0 → has_bit flags bit ≡ false
has_bit_clear flags bit h = ground (arith, bit_value flags bit, ap (λ (t : ℕ). t * 2 ^ bit) h)

has_bit_set : (flags bit : ℕ) → flags / 2 ^ bit % 2 ≡ 1 → has_bit flags bit ≡ true
has_bit_set flags bit h =
    ground
      (arith, bit_value flags bit, ap (λ (t : ℕ). t * 2 ^ bit) h, one-le-pow bit 2 (omega arith))

digit_cases : (x : ℕ) → (x % 2 ≡ 0) ⊎ (x % 2 ≡ 1)
digit_cases x = omega arith

-- Only two features count: the checksum feature gives the checksum offload, and the UFO feature
-- gives UFO and both kinds of segmentation offload at once. The TSO features have no effect.
pub virtio_flags_to_tuntap_flags_lem :
    (f : FeatureBits) (virtio_flags : ℕ)
    → virtio_flags_to_tuntap_flags f virtio_flags
      ≡ (virtio_flags / 2 ^ f.csum % 2) * tun_f_csum
        + (virtio_flags / 2 ^ f.host_ufo % 2) * (tun_f_ufo + tun_f_tso4 + tun_f_tso6)
unfolding virtio_flags_to_tuntap_flags
virtio_flags_to_tuntap_flags_lem f v = elim (digit_cases (v / 2 ^ f.csum)) [
  | inl c ↦ elim (digit_cases (v / 2 ^ f.host_ufo)) [
    | inl u ↦ rw (has_bit_clear v f.csum c, has_bit_clear v f.host_ufo u, c, u) refl
    | inr u ↦ rw (has_bit_clear v f.csum c, has_bit_set v f.host_ufo u, c, u) refl
  ]
  | inr c ↦ elim (digit_cases (v / 2 ^ f.host_ufo)) [
    | inl u ↦ rw (has_bit_set v f.csum c, has_bit_clear v f.host_ufo u, c, u) refl
    | inr u ↦ rw (has_bit_set v f.csum c, has_bit_set v f.host_ufo u, c, u) refl
  ]
]

-- ===== src/Mptable/Correct.antt =====
-- `setup_mptable` as a whole: what it leaves in guest memory, and when it refuses.
use lumper.Base.{
  ℕ, ◌+◌, ◌-◌, ◌*◌, ◌≤◌, ◌<◌, ◌≡◌, ◌∙◌, sym, ap, ◌⊎◌, inl, inr, true, false, [], arith, length,
  length-replicate, replicate, u8, le→not-ltb, lt→ltb, ok, err, proceed, pure, map_err,
}
use lumper.Memory.{GuestMemory, Covers, IsLawful}
use lumper.Memory.Laws.{
  Emits, Wrote-append, Wrote-prepend, Wrote-over, Covers-Wrote, Covers-part, write_slice-Emits,
  read_from_repeat-Emits,
}
use lumper.Mpspec.{mpf_intel_size, mpc_table_size}
use lumper.Mptable.{
  Error, clear, write_mpf_intel, write_mpc_table, too_many_cpus, not_enough_memory, mptable_start,
  max_supported_cpus, compute_mp_size,
}
use lumper.Mptable.Setup.{
  write_obj, write_entries, check_end, write_pointer, write_header, setup_mptable,
}
use lumper.Mptable.Image.{
  entries_image, header_image, pointer_image, mptable_image, length-entries_image,
  length-header_image, length-pointer_image, length-mptable_image,
}
use lumper.Mptable.Blocks.{cursor_after, write_entries-Extends}

pub compute_mp_size-eq : (n : ℕ) → compute_mp_size n ≡ 20 * n + 220
unfolding compute_mp_size
compute_mp_size-eq n = omega arith

module _ (G : GuestMemory) (L : IsLawful G) where
  open G use {State}

  check_end_ok :
      (n : ℕ) (m : State)
      → n ≤ max_supported_cpus
      → G.address_in_range m (mptable_start + (compute_mp_size n - 1)) ≡ true
      → check_end G (compute_mp_size n) m ≡ (m, ok tt)
  unfolding check_end
  check_end_ok n m h r = ground (
    arith,
    r,
    compute_mp_size-eq n,
    L.checked_add_fits mptable_start (compute_mp_size n - 1) (omega (arith, compute_mp_size-eq n)),
  )

  check_end_refused :
      (n : ℕ) (m : State)
      → n ≤ max_supported_cpus
      → G.address_in_range m (mptable_start + (compute_mp_size n - 1)) ≡ false
      → check_end G (compute_mp_size n) m ≡ (m, err not_enough_memory)
  unfolding check_end
  check_end_refused n m h r = ground (
    arith,
    r,
    compute_mp_size-eq n,
    L.checked_add_fits mptable_start (compute_mp_size n - 1) (omega (arith, compute_mp_size-eq n)),
  )

  abbrev table_start : ℕ
  table_start = mptable_start + 16

  abbrev entries_start : ℕ
  entries_start = mptable_start + 60

  write_pointer-Emits :
      (m : State)
      → Covers G m mptable_start 16
      → Emits G (write_pointer G mptable_start m) m mptable_start pointer_image table_start
  unfolding write_pointer mpf_intel_size
  write_pointer-Emits m c = record {
    final = put.final;
    returns =
        ap (λ o. proceed o (λ _. pure (G.unchecked_add mptable_start 16))) put.returns
        ∙ ap (λ k. (put.final, ok k)) (L.unchecked_add_fits mptable_start 16 (omega arith));
    wrote = put.wrote;
  }
    where
      put :
          Emits G
            (write_obj G pointer_image mptable_start write_mpf_intel m)
            m
            mptable_start
            pointer_image
            tt
      put =
          write_slice-Emits G L (λ _. write_mpf_intel) pointer_image mptable_start m
            (omega (arith, length-pointer_image)) (rw length-pointer_image c)

  write_header-Emits :
      (n : ℕ) (m : State)
      → n ≤ max_supported_cpus
      → Covers G m table_start 44
      → Emits G
          (write_header G table_start (cursor_after entries_start (entries_image n)) m)
          m
          table_start
          (header_image n)
          tt
  unfolding write_header mpc_table_size
  write_header-Emits n m h c =
      rw
        (L.unchecked_offset_from_fits (entries_start + length (entries_image n)) table_start
          (omega arith))
        (rw distance (
          write_slice-Emits G L (λ _. write_mpc_table) (header_image n) table_start m
            (omega (arith, length-header_image n)) (rw length-header_image c)))
    where
      distance :
          entries_start + length (entries_image n) - table_start ≡ 44 + length (entries_image n)
      distance = omega arith

  -- For at most 254 CPUs and guest memory that covers the table, `setup_mptable` succeeds, writes
  -- the floating pointer, the header and the entries at `MPTABLE_START`, and changes nothing else.
  pub setup_mptable-Emits :
      (n : ℕ) (m : State)
      → n ≤ max_supported_cpus
      → Covers G m mptable_start (compute_mp_size n)
      → Emits G (setup_mptable G n m) m mptable_start (mptable_image n) tt
  unfolding setup_mptable mpf_intel_size mpc_table_size
  setup_mptable-Emits n m h c = record {
    final = header.final;
    returns =
        rw
          (
            le→not-ltb max_supported_cpus n h,
            check_end_ok n m h last_in_range,
            zeroed.returns,
            pointer.returns,
            L.unchecked_add_fits table_start 44 (omega arith),
            entries.returns,
          )
          header.returns;
    wrote =
        Wrote-over G zeroed.wrote
          (Wrote-append G pointer.wrote
            (Wrote-prepend G entries.wrote header.wrote (omega (arith, length-header_image n)))
            (omega (arith, length-pointer_image)))
          (omega (arith, length-replicate {A = ℕ} (compute_mp_size n) 0, length-mptable_image n));
  }
    where
      size_eq : compute_mp_size n ≡ 20 * n + 220
      size_eq = compute_mp_size-eq n

      part :
          (m' : State) (a k : ℕ)
          → Covers G m' mptable_start (compute_mp_size n)
          → mptable_start ≤ a
          → a + k ≤ mptable_start + (20 * n + 220)
          → Covers G m' a k
      part m' a k d low high = Covers-part G m' _ _ a k d low (omega (arith, size_eq))

      last_in_range : G.address_in_range m (mptable_start + (compute_mp_size n - 1)) ≡ true
      last_in_range = c (compute_mp_size n - 1) (omega (arith, size_eq))

      zeroed :
          Emits G
            (map_err (G.read_from_repeat 0 mptable_start (compute_mp_size n)) (λ _. clear) m)
            m
            mptable_start
            (replicate (compute_mp_size n) 0)
            (compute_mp_size n)
      zeroed =
          read_from_repeat-Emits G L (λ _. clear) 0 mptable_start (compute_mp_size n) m
            (omega (arith, size_eq)) c

      c1 : Covers G zeroed.final mptable_start (compute_mp_size n)
      c1 = Covers-Wrote G zeroed.wrote _ _ c

      pointer :
          Emits G
            (write_pointer G mptable_start zeroed.final)
            zeroed.final
            mptable_start
            pointer_image
            table_start
      pointer =
          write_pointer-Emits zeroed.final (part zeroed.final _ 16 c1 (omega arith) (omega arith))

      c2 : Covers G pointer.final mptable_start (compute_mp_size n)
      c2 = Covers-Wrote G pointer.wrote _ _ c1

      entries :
          Emits G
            (write_entries G n (u8 (n + 1)) (cursor_after entries_start []) pointer.final)
            pointer.final
            entries_start
            (entries_image n)
            (cursor_after entries_start (entries_image n))
      entries =
          write_entries-Extends G L entries_start n [] pointer.final
            (part pointer.final _ (length (entries_image n)) c2 (omega arith)
              (omega (arith, length-entries_image n)))
            (omega (arith, length-entries_image n))

      c3 : Covers G entries.final mptable_start (compute_mp_size n)
      c3 = Covers-Wrote G entries.wrote _ _ c2

      header :
          Emits G
            (write_header G table_start
              (cursor_after entries_start (entries_image n))
              entries.final)
            entries.final
            table_start
            (header_image n)
            tt
      header =
          write_header-Emits n entries.final h
            (part entries.final _ 44 c3 (omega arith) (omega arith))

  -- More than 254 CPUs, or for fewer a last address of the table outside guest memory, is refused
  -- with the error for it before anything is written.
  pub setup_mptable_refused :
      (n : ℕ) (m : State) (e : Error)
      → ((max_supported_cpus < n) × (e ≡ too_many_cpus))
        ⊎ ((n ≤ max_supported_cpus)
            × (G.address_in_range m (mptable_start + (compute_mp_size n - 1)) ≡ false)
            × (e ≡ not_enough_memory))
      → setup_mptable G n m ≡ (m, err e)
  unfolding setup_mptable
  setup_mptable_refused n m e (inl (h, is)) =
      rw (lt→ltb max_supported_cpus n h) (ap (λ k. (m, err k)) (sym is))
  setup_mptable_refused n m e (inr (h, r, is)) =
      rw (le→not-ltb max_supported_cpus n h, check_end_refused n m h r)
        (ap (λ k. (m, err k)) (sym is))

-- ===== src/Mptable/Reader.antt =====
-- The reader of the MP table finds the processors that `setup_mptable` was asked for.
use lumper.Base.{ℕ, suc, ◌+◌, ◌-◌, ◌*◌, ◌≤◌, ◌≡◌, ◌∙◌, sym, ap, some, arith, subst, u16, ok, length}
use lumper.Base.Bytes.{to_le_bytes, from_le_bytes}
use lumper.Memory.{GuestMemory, Covers, IsLawful}
use lumper.Memory.Laws.{Emits}
use lumper.Memory.Read.{read_le_at, Holds, Holds-left, Holds-right}
use lumper.Mpspec.{mpf_intel_fields, mpc_table_fields, mpf_intel_size}
use lumper.Mptable.{mptable_start, max_supported_cpus, compute_mp_size}
use lumper.Mptable.Setup.{setup_mptable}
use lumper.Mptable.Image.{
  entries_image, header_image, table_image, pointer_image, mptable_image, length-entries_image,
}
use lumper.Mptable.Correct.{setup_mptable-Emits}
use lumper.Mptable.Walk.{cpu_entry_count, walk_entries}

module _ (G : GuestMemory) (L : IsLawful G) where
  -- After `setup_mptable` for at most 254 CPUs on memory that covers the table, a reader of guest
  -- memory who follows the floating pointer and walks the entries up to the length in the header
  -- counts exactly `n` processors; fuel for the `n` + 20 entries and the end is enough.
  pub cpu_entry_count-setup_mptable :
      (n fuel : ℕ) (m m' : G.State)
      → n ≤ max_supported_cpus
      → Covers G m mptable_start (compute_mp_size n)
      → setup_mptable G n m ≡ (m', ok tt)
      → n + 21 ≤ fuel
      → cpu_entry_count G m' fuel ≡ some n
  unfolding cpu_entry_count mpf_intel_size mpf_intel_fields mpc_table_fields read_le_at
  cpu_entry_count-setup_mptable n fuel m m' h c e room =
      subst (λ s. cpu_entry_count G s fuel ≡ some n) same found
    where
      done : Emits G (setup_mptable G n m) m mptable_start (mptable_image n) tt
      done = setup_mptable-Emits G L n m h c

      same : done.final ≡ m'
      same = ap (λ o. o.0) (sym done.returns ∙ e)

      in_table : Holds G done.final (mptable_start + 16) (table_image n)
      in_table =
          Holds-right G done.final mptable_start pointer_image (table_image n) done.wrote.inside

      in_header : Holds G done.final (mptable_start + 16) (header_image n)
      in_header =
          Holds-left G done.final (mptable_start + 16) (header_image n) (entries_image n) in_table

      in_entries : Holds G done.final (mptable_start + 60) (entries_image n)
      in_entries =
          Holds-right G done.final (mptable_start + 16) (header_image n) (entries_image n) in_table

      in_pointer : Holds G done.final mptable_start pointer_image
      in_pointer =
          Holds-left G done.final mptable_start pointer_image (table_image n) done.wrote.inside

      length_bytes :
          from_le_bytes (to_le_bytes 2 (u16 (44 + length (entries_image n)))) ≡ 20 * n + 204
      length_bytes = omega (arith, length-entries_image n)

      amount : fuel ≡ n + suc (suc (16 + suc (suc (suc (fuel - (n + 21))))))
      amount = omega arith

      found : cpu_entry_count G done.final fuel ≡ some n
      found =
          rw
            (
              amount,
              in_pointer 4 (omega arith),
              in_pointer 5 (omega arith),
              in_pointer 6 (omega arith),
              in_pointer 7 (omega arith),
              in_header 4 (omega arith),
              in_header 5 (omega arith),
              length_bytes,
            )
            (walk_entries G done.final _ n (fuel - (n + 21)) (mptable_start + 60) in_entries
              (omega arith))

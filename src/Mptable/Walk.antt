-- ===== src/Mptable/Walk.antt =====
-- A reader of the MP table in guest memory, as the test `cpu_entry_count` of mptable.rs reads it:
-- it follows the floating pointer, takes the length from the header and walks the entries.
use lumper.Base.{
  ℕ, zero, suc, ◌+◌, ◌*◌, ◌≤◌, ◌<◌, ◌≡◌, refl, ◌∙◌, ap, true, false, Option, none, some, List, ◌++◌,
  arith, u8, ltb, le→not-ltb, ◌==◌, if◌then◌else◌,
}
use lumper.Memory.{GuestMemory}
use lumper.Memory.Read.{◌>>=◌, read_le_at, Holds, Holds-left, Holds-right, Holds-first}
use lumper.Mpspec.{
  mpc_cpu_fields, mpc_bus_fields, mpc_ioapic_fields, mpc_intsrc_fields, mpc_lintsrc_fields,
  mpc_cpu_size, mpc_bus_size, mpc_ioapic_size, mpc_intsrc_size, mpc_lintsrc_size, mpc_table_size,
  mp_processor, mp_bus, mp_ioapic, mp_intsrc, mp_lintsrc,
}
use lumper.Mptable.{mptable_start}
use lumper.Mptable.Image.{
  cpu_image, cpus_image, intsrc_image, intsrcs_image, bus_image, ioapic_image, lintsrcs_image,
  entries_image, length-cpus_image, length-intsrcs_image,
}

-- The size of an entry by its type; the reader stops at an unknown type.
unfoldable pub table_entry_size : ℕ → Option ℕ
unfolding mpc_cpu_size mpc_bus_size mpc_ioapic_size mpc_intsrc_size mpc_lintsrc_size
table_entry_size t =
    if t == mp_processor
    then some mpc_cpu_size
    else if t == mp_bus
    then some mpc_bus_size
    else if t == mp_ioapic
    then some mpc_ioapic_size
    else if t == mp_intsrc
    then some mpc_intsrc_size
    else if t == mp_lintsrc
    then some mpc_lintsrc_size
    else none

-- What stands behind the bus entry, and behind the I/O APIC entry.
abbrev after_ioapic : ℕ → List ℕ
after_ioapic n = intsrcs_image (u8 (n + 1)) 16 0 ++ lintsrcs_image

abbrev after_bus : ℕ → List ℕ
after_bus n = ioapic_image (u8 (n + 1)) ++ after_ioapic n

module _ (G : GuestMemory) (m : G.State) where
  -- `while entry_offset < mpc_end`. `none` is a failed read, an unknown type, an entry that
  -- sticks out of the table, or fuel that ran out.
  unfoldable pub count_entries : ℕ → ℕ → ℕ → ℕ → Option ℕ
  count_entries zero entry_offset mpc_end cpu_count = none
  count_entries (suc fuel) entry_offset mpc_end cpu_count =
      let proceed = λ (t size : ℕ).
        let rest =
          count_entries fuel (entry_offset + size) mpc_end
            (if t == mp_processor then cpu_count + 1 else cpu_count) in
        if ltb mpc_end (entry_offset + size) then none else rest in
      if ltb entry_offset mpc_end
      then (do
        entry_type ← G.byte_at m entry_offset
        size ← table_entry_size entry_type
        proceed entry_type size)
      else some cpu_count

  -- The whole reader: `physptr` is at offset 4 of the pointer, `length` at offset 4 of the header.
  unfoldable pub cpu_entry_count : ℕ → Option ℕ
  unfolding mpc_table_size
  cpu_entry_count fuel = do
    mpc_offset ← read_le_at G m 4 (mptable_start + 4)
    table_length ← read_le_at G m 2 (mpc_offset + 4)
    count_entries fuel (mpc_offset + mpc_table_size) (mpc_offset + table_length) 0

  module _ (stop : ℕ) where
    count_entries-step :
        (fuel a c t size : ℕ)
        → G.byte_at m a ≡ some t
        → table_entry_size t ≡ some size
        → 0 < size
        → a + size ≤ stop
        → count_entries (suc fuel) a stop c
          ≡ count_entries fuel (a + size) stop (if t == mp_processor then c + 1 else c)
    unfolding count_entries
    count_entries-step fuel a c t size e s pos fits = rw (test, e, s, over) refl
      where
        test : ltb a stop ≡ true
        test = ground arith

        over : ltb stop (a + size) ≡ false
        over = ground arith

    count_entries-cong :
        {f f' a a' c c' : ℕ}
        → f ≡ f'
        → a ≡ a'
        → c ≡ c'
        → count_entries f a stop c ≡ count_entries f' a' stop c'
    count_entries-cong p q r = λ i. count_entries (p i) (q i) stop (r i)

    count_entries_end : (fuel a c : ℕ) → stop ≤ a → count_entries (suc fuel) a stop c ≡ some c
    unfolding count_entries
    count_entries_end fuel a c h = rw (le→not-ltb a stop h) refl

    walk_cpus :
        (left i fuel a c : ℕ)
        → Holds G m a (cpus_image left i)
        → a + 20 * left ≤ stop
        → count_entries (left + fuel) a stop c ≡ count_entries fuel (a + 20 * left) stop (c + left)
    unfolding cpus_image mpc_cpu_fields table_entry_size
    walk_cpus zero i fuel a c h fits = count_entries-cong (omega arith) (omega arith) (omega arith)
    walk_cpus (suc left) i fuel a c h fits =
        count_entries-cong {f' = suc (left + fuel)} (omega arith) refl refl
        ∙ count_entries-step (left + fuel) a c 0 20
            (Holds-first G m a (cpus_image (suc left) i) h (omega arith)) refl (omega arith)
            (omega arith)
        ∙ walk_cpus left (i + 1) fuel (a + 20) (c + 1)
            (Holds-right G m a (cpu_image i) (cpus_image left (i + 1)) h) (omega arith)
        ∙ count_entries-cong refl (omega arith) (omega arith)

    walk_intsrcs :
        (ioapicid left i fuel a c : ℕ)
        → Holds G m a (intsrcs_image ioapicid left i)
        → a + 8 * left ≤ stop
        → count_entries (left + fuel) a stop c ≡ count_entries fuel (a + 8 * left) stop c
    unfolding intsrcs_image mpc_intsrc_fields table_entry_size
    walk_intsrcs x zero i fuel a c h fits = count_entries-cong (omega arith) (omega arith) refl
    walk_intsrcs x (suc left) i fuel a c h fits =
        count_entries-cong {f' = suc (left + fuel)} (omega arith) refl refl
        ∙ count_entries-step (left + fuel) a c 3 8
            (Holds-first G m a (intsrcs_image x (suc left) i) h (omega arith)) refl (omega arith)
            (omega arith)
        ∙ walk_intsrcs x left (i + 1) fuel (a + 8) c
            (Holds-right G m a (intsrc_image x i) (intsrcs_image x left (i + 1)) h) (omega arith)
        ∙ count_entries-cong refl (omega arith) refl

    walk_lintsrcs :
        (fuel a c : ℕ)
        → Holds G m a lintsrcs_image
        → a + 16 ≤ stop
        → count_entries (suc (suc fuel)) a stop c ≡ count_entries fuel (a + 16) stop c
    unfolding mpc_lintsrc_fields table_entry_size
    walk_lintsrcs fuel a c h fits =
        count_entries-step (suc fuel) a c 4 8 (Holds-first G m a lintsrcs_image h (omega arith))
          refl (omega arith) (omega arith)
        ∙ count_entries-step fuel (a + 8) c 4 8 (h 8 (omega arith)) refl (omega arith) (omega arith)
        ∙ count_entries-cong refl (omega arith) refl

    -- The walk over all entries of a table that ends where they end.
    pub walk_entries :
        (n fuel a : ℕ)
        → Holds G m a (entries_image n)
        → a + 20 * n + 160 ≡ stop
        → count_entries (n + suc (suc (16 + suc (suc (suc fuel))))) a stop 0 ≡ some n
    unfolding entries_image mpc_bus_fields mpc_ioapic_fields table_entry_size
    walk_entries n fuel a h e =
        walk_cpus n 0 _ a 0 (Holds-left G m a (cpus_image n 0) _ h) (omega arith)
        ∙ count_entries-step _ _ _ 1 8
            (Holds-first G m _ (bus_image ++ after_bus n) rest1 (omega arith)) refl (omega arith)
            (omega arith)
        ∙ count_entries-step _ _ _ 2 8 (Holds-first G m _ (after_bus n) rest2 (omega arith)) refl
            (omega arith) (omega arith)
        ∙ walk_intsrcs (u8 (n + 1)) 16 0 _ _ _
            (Holds-left G m _ (intsrcs_image (u8 (n + 1)) 16 0) _ rest3) (omega arith)
        ∙ walk_lintsrcs _ _ _ rest4 (omega arith)
        ∙ count_entries_end _ _ _ (omega arith)
        ∙ ap some (omega arith)
      where
        rest1 : Holds G m (a + 20 * n) (bus_image ++ after_bus n)
        rest1 = λ i p.
            ap (λ k. G.byte_at m (k + i)) (omega (arith, length-cpus_image n 0))
            ∙ Holds-right G m a (cpus_image n 0) (bus_image ++ after_bus n) h i p

        rest2 : Holds G m (a + 20 * n + 8) (after_bus n)
        rest2 = Holds-right G m (a + 20 * n) bus_image (after_bus n) rest1

        rest3 : Holds G m (a + 20 * n + 8 + 8) (after_ioapic n)
        rest3 = Holds-right G m (a + 20 * n + 8) (ioapic_image (u8 (n + 1))) (after_ioapic n) rest2

        rest4 : Holds G m (a + 20 * n + 8 + 8 + 8 * 16) lintsrcs_image
        rest4 = λ i p.
            ap (λ k. G.byte_at m (a + 20 * n + 8 + 8 + k + i))
              (omega (arith, length-intsrcs_image (u8 (n + 1)) 16 0))
            ∙ Holds-right G m (a + 20 * n + 8 + 8) (intsrcs_image (u8 (n + 1)) 16 0) lintsrcs_image
                rest3 i p

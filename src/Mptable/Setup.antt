-- ===== src/Mptable/Setup.antt =====
-- `setup_mptable`: each block is a function of the cursor, the two local variables `base_mp` and
-- `checksum` that the blocks share.
use lumper.Base.{
  ℕ, zero, suc, ◌+◌, ◌-◌, none, some, List, u8, wrapping_add8, ltb, if◌then◌else◌, ok, err, Eff,
  ◌>>=◌, ◌>>◌, pure, fail, map_err,
}
use lumper.Memory.{GuestMemory}
use lumper.Mpspec.{
  image_of, mpf_intel_fields, mpf_intel_size, mpc_table_fields, mpc_table_size, mpc_cpu_fields,
  mpc_cpu_size, mpc_bus_fields, mpc_bus_size, mpc_ioapic_fields, mpc_ioapic_size, mpc_intsrc_fields,
  mpc_intsrc_size, mpc_lintsrc_fields, mpc_lintsrc_size, MpcLintsrc,
}
use lumper.Mptable.{
  Error, not_enough_memory, address_overflow, clear, too_many_cpus, write_mpf_intel, write_mpc_cpu,
  write_mpc_ioapic, write_mpc_bus, write_mpc_intsrc, write_mpc_lintsrc, write_mpc_table,
  mptable_start, max_supported_cpus, compute_checksum, compute_mp_size, cpu_entry, bus_entry,
  ioapic_entry, intsrc_entry, ext_int_entry, nmi_entry, pointer_entry, header_entry,
}

pub record Cursor : Type 0 where
  pub base_mp : ℕ
  pub checksum : ℕ

module _ (G : GuestMemory) where
  open G use {State}

  -- `mem.write_obj(obj, base).map_err(|_| e)`
  abbrev pub write_obj : List ℕ → ℕ → Error → Eff State Error (Unit {0})
  write_obj bytes base e = map_err (G.write_slice bytes base) (λ _. e)

  -- The end of every block of an entry: the write, the step of the base and of the checksum.
  unfoldable pub write_entry : Error → ℕ → List ℕ → Cursor → Eff State Error Cursor
  write_entry e size bytes c = do
    write_obj bytes c.base_mp e
    pure (record {
      base_mp = G.unchecked_add c.base_mp size;
      checksum = wrapping_add8 c.checksum (compute_checksum bytes);
    })

  unfoldable pub write_cpu : ℕ → Cursor → Eff State Error Cursor
  write_cpu cpu_id =
      write_entry write_mpc_cpu mpc_cpu_size (image_of (mpc_cpu_fields (cpu_entry cpu_id)))

  -- `for cpu_id in 0..num_cpus`, with the rounds that are left.
  unfoldable pub write_cpus : ℕ → ℕ → Cursor → Eff State Error Cursor
  write_cpus zero cpu_id c = pure c
  write_cpus (suc left) cpu_id c = do c' ← write_cpu cpu_id c; write_cpus left (cpu_id + 1) c'

  unfoldable pub write_bus : Cursor → Eff State Error Cursor
  write_bus = write_entry write_mpc_bus mpc_bus_size (image_of (mpc_bus_fields bus_entry))

  unfoldable pub write_ioapic : ℕ → Cursor → Eff State Error Cursor
  write_ioapic ioapicid =
      write_entry write_mpc_ioapic mpc_ioapic_size
        (image_of (mpc_ioapic_fields (ioapic_entry ioapicid)))

  unfoldable pub write_intsrc : ℕ → ℕ → Cursor → Eff State Error Cursor
  write_intsrc ioapicid i =
      write_entry write_mpc_intsrc mpc_intsrc_size
        (image_of (mpc_intsrc_fields (intsrc_entry ioapicid i)))

  -- `for i in 0..16`, with the rounds that are left.
  unfoldable pub write_intsrcs : ℕ → ℕ → ℕ → Cursor → Eff State Error Cursor
  write_intsrcs ioapicid zero i c = pure c
  write_intsrcs ioapicid (suc left) i c = do
    c' ← write_intsrc ioapicid i c
    write_intsrcs ioapicid left (i + 1) c'

  unfoldable pub write_lintsrc : MpcLintsrc → Cursor → Eff State Error Cursor
  write_lintsrc entry =
      write_entry write_mpc_lintsrc mpc_lintsrc_size (image_of (mpc_lintsrc_fields entry))

  -- All blocks between the place of the table header and the end of the table.
  unfoldable pub write_entries : ℕ → ℕ → Cursor → Eff State Error Cursor
  write_entries num_cpus ioapicid c = do
    c1 ← write_cpus num_cpus 0 c
    c2 ← write_bus c1
    c3 ← write_ioapic ioapicid c2
    c4 ← write_intsrcs ioapicid 16 0 c3
    c5 ← write_lintsrc ext_int_entry c4
    write_lintsrc nmi_entry c5

  -- The test of the last address of the table, before anything is written.
  unfoldable pub check_end : ℕ → Eff State Error (Unit {0})
  check_end mp_size m = elim (G.checked_add mptable_start (mp_size - 1)) [
    | none ↦ (m, err address_overflow)
    | some end_mp ↦ if G.address_in_range m end_mp then (m, ok tt) else (m, err not_enough_memory)
  ]

  unfoldable pub write_pointer : ℕ → Eff State Error ℕ
  write_pointer base_mp = do
    write_obj (image_of (mpf_intel_fields (pointer_entry (base_mp + mpf_intel_size)))) base_mp
        write_mpf_intel
    pure (G.unchecked_add base_mp mpf_intel_size)

  unfoldable pub write_header : ℕ → Cursor → Eff State Error (Unit {0})
  write_header table_base c =
      let table_length = G.unchecked_offset_from c.base_mp table_base in
      write_obj (image_of (mpc_table_fields (header_entry table_length c.checksum))) table_base
        write_mpc_table

  unfoldable pub setup_mptable : ℕ → Eff State Error (Unit {0})
  unfolding check_end write_pointer write_header
  setup_mptable num_cpus = if ltb max_supported_cpus num_cpus then fail too_many_cpus else do
    check_end (compute_mp_size num_cpus)
    cleared ← map_err (G.read_from_repeat 0 mptable_start (compute_mp_size num_cpus)) (λ _. clear)
    table_base ← write_pointer mptable_start
    c ←
        write_entries num_cpus (u8 (num_cpus + 1))
          (record { base_mp = G.unchecked_add table_base mpc_table_size; checksum = 0 })
    write_header table_base c

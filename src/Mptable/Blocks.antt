-- ===== src/Mptable/Blocks.antt =====
-- The blocks of `setup_mptable` in guest memory: each writes its entry behind the entries before
-- it and moves the cursor past it.
use lumper.Base.{
  ℕ, zero, suc, ◌+◌, ◌%◌, ◌^◌, ◌<◌, ◌≡◌, refl, ◌∙◌, sym, ap, List, [], ◌++◌, arith, length,
  length-append, u8, wrapping_add8, Eff, ok, proceed, ◌>>=◌, pure, map_err,
}
use mathlib.Core.List.{append_assoc, append-nil}
use lumper.Base.Bytes.{byte_sum, byte_sum-append}
use lumper.Memory.{GuestMemory, Covers, IsLawful}
use lumper.Memory.Laws.{
  Emits, Wrote-nil, Wrote-append, Covers-Wrote, Covers-part, write_slice-Emits,
}
use lumper.Mpspec.{
  image_of, mpc_cpu_size, mpc_bus_size, mpc_ioapic_size, mpc_intsrc_size, mpc_lintsrc_fields,
  mpc_lintsrc_size, MpcLintsrc,
}
use lumper.Mptable.{Error, compute_checksum, ext_int_entry, nmi_entry}
use lumper.Mptable.Setup.{
  Cursor, write_entry, write_cpu, write_cpus, write_bus, write_ioapic, write_intsrc, write_intsrcs,
  write_lintsrc, write_entries,
}
use lumper.Mptable.Checksum.{compute_checksum-byte_sum}
use lumper.Mptable.Image.{
  cpu_image, cpus_image, intsrc_image, intsrcs_image, bus_image, ioapic_image, entries_image,
}

-- The cursor behind the bytes `done`, which begin at `start`.
abbrev pub cursor_after : ℕ → List ℕ → Cursor
cursor_after start done = record { base_mp = start + length done; checksum = byte_sum done % 256 }

module _ (G : GuestMemory) where
  open G use {State}

  -- From the cursor behind `done`, the block writes `bytes` there and returns the cursor behind.
  abbrev pub Extends : ℕ → List ℕ → List ℕ → (Cursor → Eff State Error Cursor) → Type 0
  Extends start done bytes block =
      (m : State)
      → Covers G m (start + length done) (length bytes)
      → start + length done + length bytes < 2 ^ 64
      → Emits G (block (cursor_after start done) m) m (start + length done) bytes
          (cursor_after start (done ++ bytes))

  pub Extends-nil : (start : ℕ) (done : List ℕ) → Extends start done [] pure
  Extends-nil start done m c h = record {
    final = m;
    returns = ap (λ k. (m, ok (cursor_after start k))) (sym (append-nil done));
    wrote = Wrote-nil G m (start + length done);
  }

  pub Extends-seq :
      (start : ℕ) (done xs ys : List ℕ) (p q : Cursor → Eff State Error Cursor)
      → Extends start done xs p
      → Extends start (done ++ xs) ys q
      → Extends start done (xs ++ ys) (λ c. p c >>= q)
  Extends-seq start done xs ys p q ep eq m c h = record {
    final = second.final;
    returns =
        ap (λ o. proceed o q) first.returns
        ∙ second.returns
        ∙ ap (λ k. (second.final, ok (cursor_after start k))) (append_assoc done xs ys);
    wrote = Wrote-append G first.wrote second.wrote (omega (arith, length-append done xs));
  }
    where
      first :
          Emits G
            (p (cursor_after start done) m)
            m
            (start + length done)
            xs
            (cursor_after start (done ++ xs))
      first =
          ep m
            (Covers-part G m _ (length (xs ++ ys)) _ (length xs) c (omega arith)
              (omega (arith, length-append xs ys)))
            (omega (arith, length-append xs ys))

      second :
          Emits G
            (q (cursor_after start (done ++ xs)) first.final)
            first.final
            (start + length (done ++ xs))
            ys
            (cursor_after start ((done ++ xs) ++ ys))
      second =
          eq first.final
            (Covers-Wrote G first.wrote _ _ (
              Covers-part G m _ (length (xs ++ ys)) _ (length ys) c
                (omega (arith, length-append done xs))
                (omega (arith, length-append xs ys, length-append done xs))))
            (omega (arith, length-append xs ys, length-append done xs))

module _ (G : GuestMemory) (L : IsLawful G) where
  pub write_entry-Extends :
      (e : Error) (size : ℕ) (bytes : List ℕ)
      → length bytes ≡ size
      → 0 < size
      → (start : ℕ) (done : List ℕ) → Extends G start done bytes (write_entry G e size bytes)
  unfolding write_entry
  write_entry-Extends e size bytes same pos start done m c h = record {
    final = put.final;
    returns = ap (λ o. proceed o (λ _. pure next)) put.returns ∙ ap (λ k. (put.final, ok k)) moved;
    wrote = put.wrote;
  }
    where
      put :
          Emits G
            (map_err (G.write_slice bytes (start + length done)) (λ _. e) m)
            m
            (start + length done)
            bytes
            tt
      put = write_slice-Emits G L (λ _. e) bytes (start + length done) m (omega arith) c

      next : Cursor
      next = record {
        base_mp = G.unchecked_add (start + length done) size;
        checksum = wrapping_add8 (byte_sum done % 256) (compute_checksum bytes);
      }

      base_path : next.base_mp ≡ start + length (done ++ bytes)
      base_path =
          L.unchecked_add_fits (start + length done) size (omega arith)
          ∙ omega (arith, length-append done bytes)

      sum_path : next.checksum ≡ byte_sum (done ++ bytes) % 256
      sum_path = omega (arith, compute_checksum-byte_sum bytes, byte_sum-append done bytes)

      moved : next ≡ cursor_after start (done ++ bytes)
      moved = λ i. record { base_mp = base_path i; checksum = sum_path i }

  module _ (start : ℕ) where
    pub write_cpus-Extends :
        (left i : ℕ) (done : List ℕ)
        → Extends G start done (cpus_image left i) (write_cpus G left i)
    unfolding write_cpus cpus_image write_cpu mpc_cpu_size
    write_cpus-Extends zero i done = Extends-nil G start done
    write_cpus-Extends (suc left) i done =
        Extends-seq G start done (cpu_image i) (cpus_image left (i + 1)) (write_cpu G i)
          (write_cpus G left (i + 1))
          (write_entry-Extends _ mpc_cpu_size (cpu_image i) refl (omega arith) start done)
          (write_cpus-Extends left (i + 1) (done ++ cpu_image i))

    pub write_intsrcs-Extends :
        (a left i : ℕ) (done : List ℕ)
        → Extends G start done (intsrcs_image a left i) (write_intsrcs G a left i)
    unfolding write_intsrcs intsrcs_image write_intsrc mpc_intsrc_size
    write_intsrcs-Extends a zero i done = Extends-nil G start done
    write_intsrcs-Extends a (suc left) i done =
        Extends-seq G start done (intsrc_image a i) (intsrcs_image a left (i + 1))
          (write_intsrc G a i) (write_intsrcs G a left (i + 1))
          (write_entry-Extends _ mpc_intsrc_size (intsrc_image a i) refl (omega arith) start done)
          (write_intsrcs-Extends a left (i + 1) (done ++ intsrc_image a i))

    write_bus-Extends : (done : List ℕ) → Extends G start done bus_image (write_bus G)
    unfolding write_bus mpc_bus_size
    write_bus-Extends done =
        write_entry-Extends _ mpc_bus_size bus_image refl (omega arith) start done

    write_ioapic-Extends :
        (a : ℕ) (done : List ℕ) → Extends G start done (ioapic_image a) (write_ioapic G a)
    unfolding write_ioapic mpc_ioapic_size
    write_ioapic-Extends a done =
        write_entry-Extends _ mpc_ioapic_size (ioapic_image a) refl (omega arith) start done

    write_lintsrc-Extends :
        (v : MpcLintsrc) (done : List ℕ)
        → Extends G start done (image_of (mpc_lintsrc_fields v)) (write_lintsrc G v)
    unfolding write_lintsrc mpc_lintsrc_size
    write_lintsrc-Extends v done =
        write_entry-Extends _ mpc_lintsrc_size (image_of (mpc_lintsrc_fields v)) refl (omega arith)
          start done

    -- All blocks together write the entries, one behind the other.
    pub write_entries-Extends :
        (n : ℕ) (done : List ℕ)
        → Extends G start done (entries_image n) (write_entries G n (u8 (n + 1)))
    unfolding write_entries entries_image
    write_entries-Extends n done =
        Extends-seq G start done (cpus_image n 0) _ (write_cpus G n 0) _
          (write_cpus-Extends n 0 done)
          (Extends-seq G start _ bus_image _ (write_bus G) _ (write_bus-Extends _) (
            Extends-seq G start _ (ioapic_image (u8 (n + 1))) _ (write_ioapic G (u8 (n + 1))) _
              (write_ioapic-Extends _ _)
              (Extends-seq G start _ (intsrcs_image (u8 (n + 1)) 16 0) _
                (write_intsrcs G (u8 (n + 1)) 16 0) _ (write_intsrcs-Extends _ 16 0 _)
                (Extends-seq G start _ (image_of (mpc_lintsrc_fields ext_int_entry)) _
                  (write_lintsrc G ext_int_entry) (write_lintsrc G nmi_entry)
                  (write_lintsrc-Extends ext_int_entry _) (write_lintsrc-Extends nmi_entry _)))))

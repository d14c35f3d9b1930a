-- ===== src/Cpuid/Laws.antt =====
-- What `filter_cpuid` changes, and what it leaves alone.
use lumper.Base.{
  ℕ, ◌+◌, ◌*◌, ◌/◌, ◌%◌, ◌^◌, ◌<◌, ◌≡◌, ◌≢◌, refl, ◌∙◌, ap, ap₂, Bool, arith, bit_and, bit_or,
  complement, ◌<<<◌, u32, u64, ltb, ◌==◌, if◌then◌else◌,
}
use lumper.Base.Bits.Fields.{bit_or-add, bit_or_bit, bit_and_low}
use lumper.Base.Bits.{bit_and-split, bit_or-split}
use lumper.Cpuid.{CpuidEntry, filter_entry}

module _ (tsc : Bool) (vcpu_id cpu_count : ℕ) where
  -- For fewer than 256 CPUs, EBX of function 1 holds, from the high byte down, the APIC id, the
  -- number of CPUs if there is more than one, the cache line in units of eight bytes, and 0.
  pub filter_entry-ebx :
      (entry : CpuidEntry)
      → entry.function ≡ 1
      → vcpu_id < 256
      → cpu_count < 256
      → (filter_entry tsc vcpu_id cpu_count entry).ebx
        ≡ vcpu_id * 2 ^ 24 + (if ltb 1 cpu_count then cpu_count else 0) * 2 ^ 16 + 0x800
  unfolding filter_entry
  filter_entry-ebx entry f hv hn = ground (arith, id_line, bit_or_count)
    where
      id_line : bit_or (u32 (u64 (vcpu_id <<< 24))) (u32 (8 <<< 8)) ≡ vcpu_id * 2 ^ 24 + 0x800
      id_line =
          bit_or-add 24 (u32 (u64 (vcpu_id <<< 24))) vcpu_id (u32 (8 <<< 8)) (omega arith)
            (omega arith)
          ∙ omega arith

      bit_or_count :
          bit_or (vcpu_id * 2 ^ 24 + 0x800) (u32 (u32 cpu_count <<< 16))
          ≡ vcpu_id * 2 ^ 24 + cpu_count * 2 ^ 16 + 0x800
      bit_or_count =
          ap₂ bit_or (omega arith) shifted
          ∙ bit_or-split 16 (vcpu_id * 2 ^ 8) cpu_count 0x800 0 (omega arith) (omega arith)
          ∙ omega (arith, bit_or-add 8 (vcpu_id * 2 ^ 8) vcpu_id cpu_count refl (omega arith))
        where
          shifted : u32 (u32 cpu_count <<< 16) ≡ cpu_count * 2 ^ 16 + 0
          shifted = omega arith

  -- ECX and EDX of function 1: bit 31 of ECX tells a guest of index 0 that it runs on a
  -- hypervisor, bit 24 is the deadline timer when KVM has it, bit 28 of EDX says hyper-threading
  -- when there is more than one CPU; else these bits stay, and so do the bits of ECX below 24 and
  -- those of EDX below 28.
  pub filter_entry-features :
      (entry : CpuidEntry)
      → entry.function ≡ 1
      → let e = filter_entry tsc vcpu_id cpu_count entry in
        (e.ecx / 2 ^ 31 % 2 ≡ (if entry.index == 0 then 1 else entry.ecx / 2 ^ 31 % 2))
        × (e.ecx / 2 ^ 24 % 2 ≡ (if tsc then 1 else entry.ecx / 2 ^ 24 % 2))
        × (e.edx / 2 ^ 28 % 2 ≡ (if ltb 1 cpu_count then 1 else entry.edx / 2 ^ 28 % 2))
        × (e.ecx % 2 ^ 24 ≡ entry.ecx % 2 ^ 24)
        × (e.edx % 2 ^ 28 ≡ entry.edx % 2 ^ 28)
  unfolding filter_entry
  filter_entry-features entry f = (
    ground (arith, hyp, timer, timer_after),
    ground (arith, hyp, timer, timer_after),
    ground (arith, bit_or_bit 28 entry.edx),
    ground (arith, hyp, timer, timer_after),
    ground (arith, bit_or_bit 28 entry.edx),
  )
    where
      hyp :
          bit_or entry.ecx (2 ^ 31) ≡ (entry.ecx / 2 ^ 31 / 2 * 2 + 1) * 2 ^ 31 + entry.ecx % 2 ^ 31
      hyp = bit_or_bit 31 entry.ecx

      timer :
          bit_or entry.ecx (2 ^ 24) ≡ (entry.ecx / 2 ^ 24 / 2 * 2 + 1) * 2 ^ 24 + entry.ecx % 2 ^ 24
      timer = bit_or_bit 24 entry.ecx

      timer_after :
          bit_or (bit_or entry.ecx (2 ^ 31)) (2 ^ 24)
          ≡ (bit_or entry.ecx (2 ^ 31) / 2 ^ 24 / 2 * 2 + 1) * 2 ^ 24
            + bit_or entry.ecx (2 ^ 31) % 2 ^ 24
      timer_after = bit_or_bit 24 (bit_or entry.ecx (2 ^ 31))

  -- Of the other entries, function 6 loses the energy bias, bit 3 of ECX, and nothing else, and
  -- the rest pass as they are.
  pub filter_entry-others :
      (entry : CpuidEntry)
      → entry.ecx < 2 ^ 32
      → entry.function ≢ 1
      → filter_entry tsc vcpu_id cpu_count entry ≡ (
          if entry.function == 6
          then record entry { ecx = entry.ecx / 2 ^ 4 * 2 ^ 4 + entry.ecx % 2 ^ 3 }
          else entry)
  unfolding filter_entry
  filter_entry-others entry h ne = ground (arith, masked)
    where
      masked :
          bit_and entry.ecx (complement 32 (1 <<< 3))
          ≡ entry.ecx / 2 ^ 4 * 2 ^ 4 + entry.ecx % 2 ^ 3
      masked =
          ap (λ (t : ℕ). bit_and t 0xfffffff7) (omega arith)
          ∙ bit_and-split 4 (entry.ecx / 2 ^ 4) 0xfffffff (entry.ecx % 2 ^ 4) 7 (omega arith)
              (omega arith)
          ∙ omega (arith, bit_and_low 28 (entry.ecx / 2 ^ 4), bit_and_low 3 (entry.ecx % 2 ^ 4))

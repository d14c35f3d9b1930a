-- ===== src/Cpuid.antt =====
-- src/vmm/src/cpu/cpuid.rs: what the guest is told of its CPU. An entry is kept by the fields that
-- the code reads or writes; `kvm.check_extension(TscDeadlineTimer)` is an argument.
pub mod Laws
use lumper.Base.{
  ℕ, zero, ◌+◌, Bool, true, false, List, [], ◌∷◌, bit_and, bit_or, complement, ◌<<<◌, u32, u64, ltb,
  ◌==◌, if◌then◌else◌,
}
use mathlib.Core.List.{map}

pub record CpuidEntry : Type 0 where
  pub function : ℕ
  pub index : ℕ
  pub ebx : ℕ
  pub ecx : ℕ
  pub edx : ℕ

abbrev pub ebx_clflush_cacheline : ℕ
ebx_clflush_cacheline = 8

abbrev pub ebx_clflush_size_shift : ℕ
ebx_clflush_size_shift = 8

abbrev pub ebx_cpu_count_shift : ℕ
ebx_cpu_count_shift = 16

abbrev pub ebx_cpuid_shift : ℕ
ebx_cpuid_shift = 24

abbrev pub ecx_epb_shift : ℕ
ecx_epb_shift = 3

abbrev pub ecx_tsc_deadline_timer_shift : ℕ
ecx_tsc_deadline_timer_shift = 24

abbrev pub ecx_hypervisor_shift : ℕ
ecx_hypervisor_shift = 31

abbrev pub edx_htt_shift : ℕ
edx_htt_shift = 28

module _ (tsc_deadline_timer : Bool) (vcpu_id cpu_count : ℕ) where
  -- The assignments of the arm for function 1, in their order.
  unfoldable pub set_hypervisor : CpuidEntry → CpuidEntry
  set_hypervisor entry =
      if entry.index == 0
      then record entry { ecx = bit_or entry.ecx (1 <<< ecx_hypervisor_shift) }
      else entry

  unfoldable pub set_tsc_deadline : CpuidEntry → CpuidEntry
  set_tsc_deadline entry =
      if tsc_deadline_timer
      then record entry { ecx = bit_or entry.ecx (1 <<< ecx_tsc_deadline_timer_shift) }
      else entry

  unfoldable pub set_ids : CpuidEntry → CpuidEntry
  set_ids entry = record entry {
    ebx =
        bit_or (u32 (u64 (vcpu_id <<< ebx_cpuid_shift)))
          (u32 (ebx_clflush_cacheline <<< ebx_clflush_size_shift));
  }

  unfoldable pub set_count : CpuidEntry → CpuidEntry
  set_count entry =
      if ltb 1 cpu_count
      then record entry {
        ebx = bit_or entry.ebx (u32 (u32 cpu_count <<< ebx_cpu_count_shift));
        edx = bit_or entry.edx (1 <<< edx_htt_shift);
      }
      else entry

  unfoldable pub clear_epb : CpuidEntry → CpuidEntry
  clear_epb entry = record entry { ecx = bit_and entry.ecx (complement 32 (1 <<< ecx_epb_shift)) }

  unfoldable pub filter_entry : CpuidEntry → CpuidEntry
  unfolding set_hypervisor set_tsc_deadline set_ids set_count clear_epb
  filter_entry entry =
      if entry.function == 1
      then set_count (set_ids (set_tsc_deadline (set_hypervisor entry)))
      else if entry.function == 6
      then clear_epb entry
      else entry

  unfoldable pub filter_cpuid : List CpuidEntry → List CpuidEntry
  unfolding filter_entry
  filter_cpuid cpuid = map filter_entry cpuid

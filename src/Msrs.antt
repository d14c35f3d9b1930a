-- ===== src/Msrs.antt =====
-- src/vmm/src/cpu/msrs.rs: the model-specific registers of a booting CPU, with the constants that
-- it takes from src/vmm/src/cpu/msr_index.rs. `Msrs::from_entries` is an argument.
use lumper.Base.{ℕ, Option, none, some, List, [], ◌∷◌, Result, ok, err}

abbrev pub msr_star : ℕ
msr_star = 0xc0000081

abbrev pub msr_lstar : ℕ
msr_lstar = 0xc0000082

abbrev pub msr_cstar : ℕ
msr_cstar = 0xc0000083

abbrev pub msr_syscall_mask : ℕ
msr_syscall_mask = 0xc0000084

abbrev pub msr_kernel_gs_base : ℕ
msr_kernel_gs_base = 0xc0000102

abbrev pub msr_ia32_sysenter_cs : ℕ
msr_ia32_sysenter_cs = 0x174

abbrev pub msr_ia32_sysenter_esp : ℕ
msr_ia32_sysenter_esp = 0x175

abbrev pub msr_ia32_sysenter_eip : ℕ
msr_ia32_sysenter_eip = 0x176

abbrev pub msr_ia32_tsc : ℕ
msr_ia32_tsc = 0x10

abbrev pub msr_ia32_misc_enable : ℕ
msr_ia32_misc_enable = 0x1a0

abbrev pub msr_ia32_misc_enable_fast_string : ℕ
msr_ia32_misc_enable_fast_string = 1

abbrev pub efer_lme : ℕ
efer_lme = 0x100

abbrev pub efer_lma : ℕ
efer_lma = 0x400

pub data Error : Type 0 where
  create_msrs : Error

-- `kvm_msr_entry`
pub record MsrEntry : Type 0 where
  pub index : ℕ
  pub value : ℕ

abbrev msr_entry_default : ℕ → MsrEntry
msr_entry_default msr = record { index = msr; value = 0 }

abbrev pub raw_msrs : List MsrEntry
raw_msrs =
    msr_entry_default msr_ia32_sysenter_cs
    ∷ msr_entry_default msr_ia32_sysenter_esp
    ∷ msr_entry_default msr_ia32_sysenter_eip
    ∷ msr_entry_default msr_star
    ∷ msr_entry_default msr_cstar
    ∷ msr_entry_default msr_kernel_gs_base
    ∷ msr_entry_default msr_syscall_mask
    ∷ msr_entry_default msr_lstar
    ∷ msr_entry_default msr_ia32_tsc
    ∷ record { index = msr_ia32_misc_enable; value = msr_ia32_misc_enable_fast_string }
    ∷ []

unfoldable pub create_boot_msr_entries :
    {Msrs : Type 0} → (List MsrEntry → Option Msrs) → Result Error Msrs
create_boot_msr_entries from_entries = elim (from_entries raw_msrs) [
  | none ↦ err create_msrs
  | some msrs ↦ ok msrs
]

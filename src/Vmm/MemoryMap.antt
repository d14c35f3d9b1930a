-- ===== src/Vmm/MemoryMap.antt =====
-- Where the boot structures stand: the addresses that src/vmm/src/cpu/gdt.rs, src/vmm/src/cpu/mod.rs,
-- src/vmm/src/kernel.rs and src/vmm/src/cpu/mptable.rs choose, each for itself.
use lumper.Base.{ℕ, ◌+◌, ◌-◌, ◌*◌, ◌≤◌, ◌≡◌, refl, List, [], ◌∷◌, arith, length}
use lumper.Gdt.{boot_gdt_offset, boot_idt_offset}
use lumper.Kernel.{ebda_start, himem_start}
use lumper.Kernel.Setup.{cmdline_start}
use lumper.Mptable.{mptable_start, max_supported_cpus, compute_mp_size}
use lumper.Mptable.Correct.{compute_mp_size-eq}
use lumper.Vcpu.{gdt_table, zeropg_start, boot_stack_pointer, pml4_start, pde_start}
use lumper.Vmm.New.{cmdline_max_size}

-- Runs of memory, by their addresses and lengths, one behind the other between the two bounds.
abbrev pub InOrder : ℕ → List (ℕ × ℕ) → ℕ → Type 0
InOrder low [] high = low ≤ high
InOrder low ((start, size) ∷ rest) high = (low ≤ start) × InOrder (start + size) rest high

-- The GDT, the IDT, the zero page, the boot stack, the three levels of page tables and the command
-- line. A zero page has 4096 bytes; the stack is what lies between the zero page and its pointer.
abbrev pub low_structures : List (ℕ × ℕ)
low_structures =
    (boot_gdt_offset, 8 * length gdt_table)
    ∷ (boot_idt_offset, 8)
    ∷ (zeropg_start, 4096)
    ∷ (zeropg_start + 4096, boot_stack_pointer - (zeropg_start + 4096))
    ∷ (pml4_start, pde_start + 4096 - pml4_start)
    ∷ (cmdline_start, cmdline_max_size)
    ∷ []

-- For up to 254 vCPUs and a command line of the full length, no two boot structures overlap: the
-- GDT, the IDT, the zero page, the stack, the page tables and the command line lie in the low entry of
-- RAM, one behind the other in this order; the MP table starts where that entry ends and ends before
-- the high entry starts, so it lies in neither.
pub boot_structures-InOrder :
    (num_vcpus : ℕ)
    → num_vcpus ≤ max_supported_cpus
    → InOrder 0 low_structures ebda_start
      × (mptable_start ≡ ebda_start)
      × InOrder ebda_start ((mptable_start, compute_mp_size num_vcpus) ∷ []) himem_start
boot_structures-InOrder num_vcpus few =
    (omega arith, refl, (omega arith, omega (arith, compute_mp_size-eq num_vcpus)))

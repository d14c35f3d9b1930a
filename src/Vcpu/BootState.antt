-- ===== src/Vcpu/BootState.antt =====
-- `configure_sregs`: the registers that KVM is given and what stands in guest memory by then.
use lumper.Base.{
  ℕ, ◌+◌, ◌*◌, ◌/◌, ◌%◌, ◌^◌, ◌≤◌, ◌<◌, ◌≡◌, refl, ◌∙◌, ap₂, ◌⊎◌, inl, some, List, arith, length,
  ok, bit_or,
}
use lumper.Base.Bits.{bit_or-split}
use lumper.Base.Bits.Fields.{bit_or_bit, high_low}
use lumper.Base.Bytes.{to_le_bytes}
use lumper.Memory.{GuestMemory, Covers, IsLawful}
use lumper.Memory.Laws.{Emits, Covers-Wrote, Covers-part}
use lumper.Memory.Read.{Holds, Holds-Wrote}
use lumper.Gdt.{boot_gdt_offset, boot_idt_offset, write_gdt_table, write_idt_value}
use lumper.Gdt.Table.{table_bytes, length-table_bytes, write_gdt_table-Emits}
use lumper.Vcpu.{
  Kvm, KvmSregs, World, on_vcpu, gdt_table, pml4_start, pde_start, boot_sregs, write_page_tables,
  configure_sregs,
}
use lumper.Vcpu.PageTables.{CoversBoot, Maps, write_word, write_page_tables-Maps}
use lumper.Vcpu.Translate.{translate, translate-HasPageTables}

-- What a booting CPU needs in guest memory.
pub record HasBootMemory (G : GuestMemory) (m : G.State) : Type 0 where
  pub gdt : Holds G m boot_gdt_offset (table_bytes gdt_table)
  pub idt : Holds G m boot_idt_offset (to_le_bytes 8 0)
  pub identity : (va : ℕ) → va < 2 ^ 30 → translate G m pml4_start va ≡ some va

-- The outcome is the call of `set_sregs` with the boot registers, on memory that is ready.
pub record Boots (G : GuestMemory) (K : Kvm) (w : World G K) (s : K.State) (sregs : KvmSregs K.Rest)
    : Type 0 where
  pub memory : G.State
  pub ready : HasBootMemory G memory
  pub outcome :
      configure_sregs G K w
      ≡ on_vcpu G K (K.set_sregs (boot_sregs sregs)) (record { memory = memory; vcpu = s })
  pub ranges : (j : ℕ) → G.address_in_range memory j ≡ G.address_in_range w.memory j
  pub outside :
      (j : ℕ)
      → (j < boot_gdt_offset)
        ⊎ ((boot_idt_offset + 8 ≤ j) × (j < pml4_start))
        ⊎ (pde_start + 4096 ≤ j)
      → G.byte_at memory j ≡ G.byte_at w.memory j

module _ (G : GuestMemory) (L : IsLawful G) (K : Kvm) where
  -- If KVM gives the registers and guest memory covers the first 48 KB, `configure_sregs` comes to
  -- the call of `set_sregs` with the boot registers; by then the GDT, the IDT and page tables that
  -- map the first gigabyte to itself are in memory, and nothing outside of them has changed.
  pub configure_sregs-Boots :
      (w : World G K) (s : K.State) (sregs : KvmSregs K.Rest)
      → K.get_sregs w.vcpu ≡ (s, ok sregs)
      → CoversBoot G w.memory
      → Boots G K w s sregs
  unfolding configure_sregs write_idt_value
  configure_sregs-Boots w s sregs got c = record {
    memory = tables.final;
    ready = record {
      gdt =
          kept_tables boot_gdt_offset (table_bytes gdt_table)
            (omega (arith, length-table_bytes gdt_table))
            (Holds-Wrote G boot_gdt_offset (table_bytes gdt_table) idt.wrote
              (inl (omega (arith, length-table_bytes gdt_table))) gdt.wrote.inside);
      idt = kept_tables boot_idt_offset (to_le_bytes 8 0) (omega arith) idt.wrote.inside;
      identity = translate-HasPageTables G tables.final tables.tables;
    };
    outcome = rw (got, gdt.returns, idt.returns, tables.returns) refl;
    ranges = λ j. tables.ranges j ∙ idt.wrote.ranges j ∙ gdt.wrote.ranges j;
    outside = λ j h.
        tables.outside j (omega arith)
        ∙ idt.wrote.outside j (omega arith)
        ∙ gdt.wrote.outside j (omega (arith, length-table_bytes gdt_table));
  }
    where
      sub : (m : G.State) (a k : ℕ) → CoversBoot G m → a + k ≤ 0xc000 → Covers G m a k
      sub m a k c' h = Covers-part G m 0 0xc000 a k c' (omega arith) (omega arith)

      gdt :
          Emits G
            (write_gdt_table G gdt_table w.memory)
            w.memory
            boot_gdt_offset
            (table_bytes gdt_table)
            tt
      gdt =
          write_gdt_table-Emits G L gdt_table w.memory (omega arith)
            (sub w.memory boot_gdt_offset 32 c (omega arith))

      c1 : CoversBoot G gdt.final
      c1 = Covers-Wrote G gdt.wrote _ _ c

      idt :
          Emits G
            (G.write_slice (to_le_bytes 8 0) boot_idt_offset gdt.final)
            gdt.final
            boot_idt_offset
            (to_le_bytes 8 0)
            tt
      idt =
          write_word G L 0 boot_idt_offset gdt.final
            (sub gdt.final boot_idt_offset 8 c1 (omega arith))

      tables : Maps G (write_page_tables G idt.final) idt.final
      tables = write_page_tables-Maps G L idt.final (Covers-Wrote G idt.wrote _ _ c1)

      kept_tables :
          (a : ℕ) (bs : List ℕ)
          → a + length bs ≤ pml4_start
          → Holds G idt.final a bs
          → Holds G tables.final a bs
      kept_tables a bs below h i p = tables.outside (a + i) (omega arith) ∙ h i p

bit_or_long_mode :
    (x : ℕ) → bit_or x 0x500 ≡ (x / 2 ^ 10 / 2 * 2 + 1) * 2 ^ 10 + bit_or (x % 2 ^ 10) (2 ^ 8)
bit_or_long_mode x =
    ap₂ bit_or (high_low 10 x) (omega arith)
    ∙ bit_or-split 10 (x / 2 ^ 10) 1 (x % 2 ^ 10) (2 ^ 8) (omega arith) (omega arith)
    ∙ omega (arith, bit_or_bit 0 (x / 2 ^ 10))

-- The boot registers turn on protected mode, paging, PAE and long mode, whatever KVM gave, and
-- keep all other bits of CR0 and CR4; CR3 points to the page tables.
pub boot_sregs_modes :
    {Rest : Type 0} (sregs : KvmSregs Rest)
    → let b = boot_sregs sregs in
      (b.cr0 % 2 ≡ 1)
      × (b.cr0 / 2 ^ 31 % 2 ≡ 1)
      × (b.cr0 / 2 % 2 ^ 30 ≡ sregs.cr0 / 2 % 2 ^ 30)
      × (b.cr0 / 2 ^ 32 ≡ sregs.cr0 / 2 ^ 32)
      × (b.cr4 / 2 ^ 5 % 2 ≡ 1)
      × (b.cr4 % 2 ^ 5 ≡ sregs.cr4 % 2 ^ 5)
      × (b.cr4 / 2 ^ 6 ≡ sregs.cr4 / 2 ^ 6)
      × (b.efer / 2 ^ 8 % 2 ≡ 1)
      × (b.efer / 2 ^ 10 % 2 ≡ 1)
      × (b.cr3 ≡ pml4_start)
unfolding boot_sregs
boot_sregs_modes sregs = (
  omega (arith, bit_or_bit 31 (bit_or sregs.cr0 1), bit_or_bit 0 sregs.cr0),
  omega (arith, bit_or_bit 31 (bit_or sregs.cr0 1), bit_or_bit 0 sregs.cr0),
  omega (arith, bit_or_bit 31 (bit_or sregs.cr0 1), bit_or_bit 0 sregs.cr0),
  omega (arith, bit_or_bit 31 (bit_or sregs.cr0 1), bit_or_bit 0 sregs.cr0),
  omega (arith, bit_or_bit 5 sregs.cr4),
  omega (arith, bit_or_bit 5 sregs.cr4),
  omega (arith, bit_or_bit 5 sregs.cr4),
  omega (arith, bit_or_long_mode sregs.efer, bit_or_bit 8 (sregs.efer % 2 ^ 10)),
  omega (arith, bit_or_long_mode sregs.efer, bit_or_bit 8 (sregs.efer % 2 ^ 10)),
  refl,
)

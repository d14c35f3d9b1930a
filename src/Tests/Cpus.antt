-- ===== src/Tests/Cpus.antt =====
-- The boot state of a vCPU, on concrete inputs.
use lumper.Base.{
  ℕ, ◌/◌, ◌%◌, ◌^◌, ◌≡◌, refl, inr, some, List, arith, length, replicate, length-replicate,
}
use lumper.Memory.Laws.{Emits}
use lumper.Memory.Flat.{flat_memory, flat_memory-IsLawful}
use lumper.Gdt.{
  gdt_entry, get_base, get_limit, get_type, get_p, get_dpl, get_db, get_s, get_l, get_g, get_avl,
  kvm_segment_from_gdt, write_gdt_table, boot_gdt_offset,
}
use lumper.Gdt.RoundTrip.{kvm_segment_from_gdt-gdt_entry, gdt_entry-getters, segment_of}
use lumper.Gdt.Table.{table_bytes, write_gdt_table-Emits}
use lumper.Vcpu.{gdt_table, boot_sregs, write_page_tables, pml4_start}
use lumper.Vcpu.PageTables.{Maps, write_page_tables-Maps}
use lumper.Vcpu.Translate.{translate, translate-HasPageTables}
use lumper.Vcpu.BootState.{Boots, configure_sregs-Boots, boot_sregs_modes}
use lumper.Vcpu.Lapic.{ConfiguresLapic, configure_lapic-ConfiguresLapic}
use lumper.Interrupts.{get_klapic_reg, set_klapic_reg, set_apic_delivery_mode, read_le, write_le}
use lumper.Interrupts.Registers.{get_klapic_reg-set_klapic_reg, set_apic_delivery_mode_lem}
use lumper.Interrupts.Buffers.{read_le-write_le}
use lumper.Tests.Machine.{
  blank, Covers-blank, zeros-AreBytes, reset_sregs, reset_lapic, quiet_kvm, machine,
}

-- The test `field_parse` of gdt.rs.
field_parse : kvm_segment_from_gdt (gdt_entry 0xa09b 0x10_0000 0xfffff) 0 ≡ record {
  base = 0x10_0000;
  limit = 0xfffff;
  selector = 0;
  type_ = 0xb;
  present = 1;
  dpl = 0;
  db = 0;
  s = 1;
  l = 1;
  g = 1;
  avl = 0;
  padding = 0;
  unusable = 0;
}
unfolding gdt_entry kvm_segment_from_gdt get_base get_limit get_type get_p get_dpl get_db get_s
    get_l get_g get_avl
field_parse = refl

kvm_segment_from_gdt-gdt_entry_example :
    kvm_segment_from_gdt (gdt_entry 0xa09b 0x10_0000 0xfffff) 1
    ≡ segment_of 0xa09b 0x10_0000 0xfffff 1
kvm_segment_from_gdt-gdt_entry_example =
    kvm_segment_from_gdt-gdt_entry 0xa09b 0x10_0000 0xfffff (omega arith) (omega arith)
      (omega arith) 1

gdt_entry-getters_example :
    gdt_entry 0xaf9b (get_base 0x00af_9b10_0000_ffff) (get_limit 0x00af_9b10_0000_ffff)
    ≡ 0x00af_9b10_0000_ffff
gdt_entry-getters_example = gdt_entry-getters 0x00af_9b10_0000_ffff (omega arith)

write_gdt_table-Emits_example :
    Emits flat_memory
      (write_gdt_table flat_memory gdt_table blank)
      blank
      boot_gdt_offset
      (table_bytes gdt_table)
      tt
write_gdt_table-Emits_example =
    write_gdt_table-Emits flat_memory flat_memory-IsLawful gdt_table blank (omega arith)
      (Covers-blank _ _ (omega arith))

write_page_tables-Maps_example : Maps flat_memory (write_page_tables flat_memory blank) blank
write_page_tables-Maps_example =
    write_page_tables-Maps flat_memory flat_memory-IsLawful blank
      (Covers-blank 0 0xc000 (omega arith))

abbrev mapped : Maps flat_memory (write_page_tables flat_memory blank) blank
mapped =
    write_page_tables-Maps flat_memory flat_memory-IsLawful blank
      (Covers-blank 0 0xc000 (omega arith))

translate-HasPageTables_example :
    translate flat_memory mapped.final pml4_start 0x10_0000 ≡ some 0x10_0000
translate-HasPageTables_example =
    translate-HasPageTables flat_memory mapped.final mapped.tables 0x10_0000 (omega arith)

configure_sregs-Boots_example : Boots flat_memory quiet_kvm machine tt reset_sregs
configure_sregs-Boots_example =
    configure_sregs-Boots flat_memory flat_memory-IsLawful quiet_kvm machine tt reset_sregs refl
      (Covers-blank 0 0xc000 (omega arith))

boot_sregs_modes_example :
    let b = boot_sregs reset_sregs in
    (b.cr0 % 2 ≡ 1)
    × (b.cr0 / 2 ^ 31 % 2 ≡ 1)
    × (b.cr0 / 2 % 2 ^ 30 ≡ 0x3000_0008)
    × (b.cr0 / 2 ^ 32 ≡ 0)
    × (b.cr4 / 2 ^ 5 % 2 ≡ 1)
    × (b.cr4 % 2 ^ 5 ≡ 0)
    × (b.cr4 / 2 ^ 6 ≡ 0)
    × (b.efer / 2 ^ 8 % 2 ≡ 1)
    × (b.efer / 2 ^ 10 % 2 ≡ 1)
    × (b.cr3 ≡ 0x9000)
boot_sregs_modes_example = boot_sregs_modes reset_sregs

configure_lapic-ConfiguresLapic_example :
    ConfiguresLapic flat_memory quiet_kvm machine tt reset_lapic
configure_lapic-ConfiguresLapic_example =
    configure_lapic-ConfiguresLapic flat_memory quiet_kvm machine tt reset_lapic refl
      (zeros-AreBytes 0x400) (omega (arith, length-replicate {A = ℕ} 0x400 0))

get_klapic_reg-set_klapic_reg_example :
    (regs' : List ℕ) × (set_klapic_reg reset_lapic 0x350 0x700 ≡ some regs')
    × (get_klapic_reg regs' 0x350 ≡ some 0x700)
    × (get_klapic_reg regs' 0x360 ≡ get_klapic_reg reset_lapic 0x360)
    × (length regs' ≡ length reset_lapic)
get_klapic_reg-set_klapic_reg_example =
    get_klapic_reg-set_klapic_reg reset_lapic 0x350 0x700 0x360
      (omega (arith, length-replicate {A = ℕ} 0x400 0)) (omega arith) (inr (omega arith))

set_apic_delivery_mode_lem_example :
    let r = set_apic_delivery_mode 0x1_0355 7 in
    (r / 2 ^ 8 % 8 ≡ 7) × (r % 2 ^ 8 ≡ 0x55) × (r / 2 ^ 11 ≡ 0x20)
set_apic_delivery_mode_lem_example =
    set_apic_delivery_mode_lem 0x1_0355 7 (omega arith) (omega arith)

read_le-write_le_example : read_le 4 (write_le 4 (replicate 8 0) 0xdead_beef) ≡ 0xdead_beef
read_le-write_le_example =
    read_le-write_le 4 (replicate 8 0) 0xdead_beef (omega arith) (omega arith)

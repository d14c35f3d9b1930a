-- ===== src/Mpspec/Layout.antt =====
-- The layout that the tests of mpspec.rs assert (`bindgen_test_layout_*`): the size, the
-- alignment and the offset of every field by its name, against the rules of `#[repr(C)]`.
use Prim.Native.String.{String}
use lumper.Base.{ℕ, ◌≡◌, refl, List, [], ◌∷◌}
use lumper.Mpspec.Repr.{Field, largest_align, offsets_from, size_of_fields}
use lumper.Mpspec.Structs.{
  MpfIntel, mpf_intel_fields, MpcTable, mpc_table_fields, MpcCpu, mpc_cpu_fields, MpcBus,
  mpc_bus_fields, MpcIoapic, mpc_ioapic_fields, MpcIntsrc, mpc_intsrc_fields, MpcLintsrc,
  mpc_lintsrc_fields, MpcOemtable, mpc_oemtable_fields,
}

pub record Layout : Type 0 where
  pub size : ℕ
  pub align : ℕ
  pub offsets : List (String × ℕ)

abbrev pub layout_of : List Field → Layout
layout_of fs = record {
  size = size_of_fields fs;
  align = largest_align fs;
  offsets = offsets_from 0 fs;
}

abbrev pub mpf_intel_layout : Layout
mpf_intel_layout = record {
  size = 16;
  align = 4;
  offsets =
      ("signature", 0)
      ∷ ("physptr", 4)
      ∷ ("length", 8)
      ∷ ("specification", 9)
      ∷ ("checksum", 10)
      ∷ ("feature1", 11)
      ∷ ("feature2", 12)
      ∷ ("feature3", 13)
      ∷ ("feature4", 14)
      ∷ ("feature5", 15)
      ∷ [];
}

abbrev pub mpc_table_layout : Layout
mpc_table_layout = record {
  size = 44;
  align = 4;
  offsets =
      ("signature", 0)
      ∷ ("length", 4)
      ∷ ("spec", 6)
      ∷ ("checksum", 7)
      ∷ ("oem", 8)
      ∷ ("productid", 16)
      ∷ ("oemptr", 28)
      ∷ ("oemsize", 32)
      ∷ ("oemcount", 34)
      ∷ ("lapic", 36)
      ∷ ("reserved", 40)
      ∷ [];
}

abbrev pub mpc_cpu_layout : Layout
mpc_cpu_layout = record {
  size = 20;
  align = 4;
  offsets =
      ("type_", 0)
      ∷ ("apicid", 1)
      ∷ ("apicver", 2)
      ∷ ("cpuflag", 3)
      ∷ ("cpufeature", 4)
      ∷ ("featureflag", 8)
      ∷ ("reserved", 12)
      ∷ [];
}

abbrev pub mpc_bus_layout : Layout
mpc_bus_layout = record {
  size = 8;
  align = 1;
  offsets = ("type_", 0) ∷ ("busid", 1) ∷ ("bustype", 2) ∷ [];
}

abbrev pub mpc_ioapic_layout : Layout
mpc_ioapic_layout = record {
  size = 8;
  align = 4;
  offsets = ("type_", 0) ∷ ("apicid", 1) ∷ ("apicver", 2) ∷ ("flags", 3) ∷ ("apicaddr", 4) ∷ [];
}

abbrev pub mpc_intsrc_layout : Layout
mpc_intsrc_layout = record {
  size = 8;
  align = 2;
  offsets =
      ("type_", 0)
      ∷ ("irqtype", 1)
      ∷ ("irqflag", 2)
      ∷ ("srcbus", 4)
      ∷ ("srcbusirq", 5)
      ∷ ("dstapic", 6)
      ∷ ("dstirq", 7)
      ∷ [];
}

abbrev pub mpc_lintsrc_layout : Layout
mpc_lintsrc_layout = record {
  size = 8;
  align = 2;
  offsets =
      ("type_", 0)
      ∷ ("irqtype", 1)
      ∷ ("irqflag", 2)
      ∷ ("srcbusid", 4)
      ∷ ("srcbusirq", 5)
      ∷ ("destapic", 6)
      ∷ ("destapiclint", 7)
      ∷ [];
}

abbrev pub mpc_oemtable_layout : Layout
mpc_oemtable_layout = record {
  size = 16;
  align = 2;
  offsets = ("signature", 0) ∷ ("length", 4) ∷ ("rev", 6) ∷ ("checksum", 7) ∷ ("mpc", 8) ∷ [];
}

-- The `#[repr(C)]` rules give the five structures of an MP table the size, the alignment and the
-- offsets of the named fields that the layout tests assert, whatever the fields hold.
pub layout-table_entries :
    (cpu : MpcCpu) (bus : MpcBus) (ioapic : MpcIoapic) (intsrc : MpcIntsrc) (lintsrc : MpcLintsrc)
    → (layout_of (mpc_cpu_fields cpu) ≡ mpc_cpu_layout)
      × (layout_of (mpc_bus_fields bus) ≡ mpc_bus_layout)
      × (layout_of (mpc_ioapic_fields ioapic) ≡ mpc_ioapic_layout)
      × (layout_of (mpc_intsrc_fields intsrc) ≡ mpc_intsrc_layout)
      × (layout_of (mpc_lintsrc_fields lintsrc) ≡ mpc_lintsrc_layout)
unfolding mpc_cpu_fields mpc_bus_fields mpc_ioapic_fields mpc_intsrc_fields mpc_lintsrc_fields
layout-table_entries cpu bus ioapic intsrc lintsrc = (refl, refl, refl, refl, refl)

-- The floating pointer, the table header and the OEM table are laid out as their tests assert.
pub layout-headers :
    (pointer : MpfIntel) (table : MpcTable) (oem : MpcOemtable)
    → (layout_of (mpf_intel_fields pointer) ≡ mpf_intel_layout)
      × (layout_of (mpc_table_fields table) ≡ mpc_table_layout)
      × (layout_of (mpc_oemtable_fields oem) ≡ mpc_oemtable_layout)
unfolding mpf_intel_fields mpc_table_fields mpc_oemtable_fields
layout-headers pointer table oem = (refl, refl, refl)

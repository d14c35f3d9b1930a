-- ===== src/Mpspec/Structs.antt =====
-- The structures that `setup_mptable` writes, their defaults and their fields in order.
use lumper.Base.{ℕ, List, [], ◌∷◌, replicate}
use lumper.Mpspec.Repr.{Field, uchar, ushort, uint, uchars, uints}

pub record MpfIntel : Type 0 where
  pub signature : List ℕ
  pub physptr : ℕ
  pub length : ℕ
  pub specification : ℕ
  pub checksum : ℕ
  pub feature1 : ℕ
  pub feature2 : ℕ
  pub feature3 : ℕ
  pub feature4 : ℕ
  pub feature5 : ℕ

abbrev pub mpf_intel_default : MpfIntel
mpf_intel_default = record {
  signature = replicate 4 0;
  physptr = 0;
  length = 0;
  specification = 0;
  checksum = 0;
  feature1 = 0;
  feature2 = 0;
  feature3 = 0;
  feature4 = 0;
  feature5 = 0;
}

unfoldable pub mpf_intel_fields : MpfIntel → List Field
mpf_intel_fields v =
    uchars "signature" 4 v.signature
    ∷ uint "physptr" v.physptr
    ∷ uchar "length" v.length
    ∷ uchar "specification" v.specification
    ∷ uchar "checksum" v.checksum
    ∷ uchar "feature1" v.feature1
    ∷ uchar "feature2" v.feature2
    ∷ uchar "feature3" v.feature3
    ∷ uchar "feature4" v.feature4
    ∷ uchar "feature5" v.feature5
    ∷ []

pub record MpcTable : Type 0 where
  pub signature : List ℕ
  pub length : ℕ
  pub spec : ℕ
  pub checksum : ℕ
  pub oem : List ℕ
  pub productid : List ℕ
  pub oemptr : ℕ
  pub oemsize : ℕ
  pub oemcount : ℕ
  pub lapic : ℕ
  pub reserved : ℕ

abbrev pub mpc_table_default : MpcTable
mpc_table_default = record {
  signature = replicate 4 0;
  length = 0;
  spec = 0;
  checksum = 0;
  oem = replicate 8 0;
  productid = replicate 12 0;
  oemptr = 0;
  oemsize = 0;
  oemcount = 0;
  lapic = 0;
  reserved = 0;
}

unfoldable pub mpc_table_fields : MpcTable → List Field
mpc_table_fields v =
    uchars "signature" 4 v.signature
    ∷ ushort "length" v.length
    ∷ uchar "spec" v.spec
    ∷ uchar "checksum" v.checksum
    ∷ uchars "oem" 8 v.oem
    ∷ uchars "productid" 12 v.productid
    ∷ uint "oemptr" v.oemptr
    ∷ ushort "oemsize" v.oemsize
    ∷ ushort "oemcount" v.oemcount
    ∷ uint "lapic" v.lapic
    ∷ uint "reserved" v.reserved
    ∷ []

pub record MpcCpu : Type 0 where
  pub type_ : ℕ
  pub apicid : ℕ
  pub apicver : ℕ
  pub cpuflag : ℕ
  pub cpufeature : ℕ
  pub featureflag : ℕ
  pub reserved : List ℕ

abbrev pub mpc_cpu_default : MpcCpu
mpc_cpu_default = record {
  type_ = 0;
  apicid = 0;
  apicver = 0;
  cpuflag = 0;
  cpufeature = 0;
  featureflag = 0;
  reserved = replicate 2 0;
}

unfoldable pub mpc_cpu_fields : MpcCpu → List Field
mpc_cpu_fields v =
    uchar "type_" v.type_
    ∷ uchar "apicid" v.apicid
    ∷ uchar "apicver" v.apicver
    ∷ uchar "cpuflag" v.cpuflag
    ∷ uint "cpufeature" v.cpufeature
    ∷ uint "featureflag" v.featureflag
    ∷ uints "reserved" 2 v.reserved
    ∷ []

pub record MpcBus : Type 0 where
  pub type_ : ℕ
  pub busid : ℕ
  pub bustype : List ℕ

abbrev pub mpc_bus_default : MpcBus
mpc_bus_default = record { type_ = 0; busid = 0; bustype = replicate 6 0 }

unfoldable pub mpc_bus_fields : MpcBus → List Field
mpc_bus_fields v = uchar "type_" v.type_ ∷ uchar "busid" v.busid ∷ uchars "bustype" 6 v.bustype ∷ []

pub record MpcIoapic : Type 0 where
  pub type_ : ℕ
  pub apicid : ℕ
  pub apicver : ℕ
  pub flags : ℕ
  pub apicaddr : ℕ

abbrev pub mpc_ioapic_default : MpcIoapic
mpc_ioapic_default = record { type_ = 0; apicid = 0; apicver = 0; flags = 0; apicaddr = 0 }

unfoldable pub mpc_ioapic_fields : MpcIoapic → List Field
mpc_ioapic_fields v =
    uchar "type_" v.type_
    ∷ uchar "apicid" v.apicid
    ∷ uchar "apicver" v.apicver
    ∷ uchar "flags" v.flags
    ∷ uint "apicaddr" v.apicaddr
    ∷ []

pub record MpcIntsrc : Type 0 where
  pub type_ : ℕ
  pub irqtype : ℕ
  pub irqflag : ℕ
  pub srcbus : ℕ
  pub srcbusirq : ℕ
  pub dstapic : ℕ
  pub dstirq : ℕ

abbrev pub mpc_intsrc_default : MpcIntsrc
mpc_intsrc_default = record {
  type_ = 0;
  irqtype = 0;
  irqflag = 0;
  srcbus = 0;
  srcbusirq = 0;
  dstapic = 0;
  dstirq = 0;
}

unfoldable pub mpc_intsrc_fields : MpcIntsrc → List Field
mpc_intsrc_fields v =
    uchar "type_" v.type_
    ∷ uchar "irqtype" v.irqtype
    ∷ ushort "irqflag" v.irqflag
    ∷ uchar "srcbus" v.srcbus
    ∷ uchar "srcbusirq" v.srcbusirq
    ∷ uchar "dstapic" v.dstapic
    ∷ uchar "dstirq" v.dstirq
    ∷ []

pub record MpcLintsrc : Type 0 where
  pub type_ : ℕ
  pub irqtype : ℕ
  pub irqflag : ℕ
  pub srcbusid : ℕ
  pub srcbusirq : ℕ
  pub destapic : ℕ
  pub destapiclint : ℕ

abbrev pub mpc_lintsrc_default : MpcLintsrc
mpc_lintsrc_default = record {
  type_ = 0;
  irqtype = 0;
  irqflag = 0;
  srcbusid = 0;
  srcbusirq = 0;
  destapic = 0;
  destapiclint = 0;
}

unfoldable pub mpc_lintsrc_fields : MpcLintsrc → List Field
mpc_lintsrc_fields v =
    uchar "type_" v.type_
    ∷ uchar "irqtype" v.irqtype
    ∷ ushort "irqflag" v.irqflag
    ∷ uchar "srcbusid" v.srcbusid
    ∷ uchar "srcbusirq" v.srcbusirq
    ∷ uchar "destapic" v.destapic
    ∷ uchar "destapiclint" v.destapiclint
    ∷ []

pub record MpcOemtable : Type 0 where
  pub signature : List ℕ
  pub length : ℕ
  pub rev : ℕ
  pub checksum : ℕ
  pub mpc : List ℕ

unfoldable pub mpc_oemtable_fields : MpcOemtable → List Field
mpc_oemtable_fields v =
    uchars "signature" 4 v.signature
    ∷ ushort "length" v.length
    ∷ uchar "rev" v.rev
    ∷ uchar "checksum" v.checksum
    ∷ uchars "mpc" 8 v.mpc
    ∷ []

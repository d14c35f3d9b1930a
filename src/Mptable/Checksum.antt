-- ===== src/Mptable/Checksum.antt =====
-- The checksums of the MP table make the bytes that they cover sum to zero.
use lumper.Base.{ℕ, ◌+◌, ◌-◌, ◌%◌, ◌<◌, ◌≡◌, ◌∙◌, sym, List, [], ◌∷◌, ◌++◌, arith, wrapping_add8}
use lumper.Base.Bytes.{byte_sum, byte_sum-append}
use lumper.Mpspec.{image_of, MpfIntel, mpf_intel_fields, MpcTable, mpc_table_fields}
use lumper.Mptable.{
  checksum_loop, compute_checksum, mpf_intel_compute_checksum, header_blank, header_entry,
}

checksum_loop-byte_sum :
    (c : ℕ) (bs : List ℕ) → c < 256 → checksum_loop c bs ≡ (c + byte_sum bs) % 256
unfolding checksum_loop
checksum_loop-byte_sum c [] h = omega arith
checksum_loop-byte_sum c (b ∷ bs) h =
    checksum_loop-byte_sum (wrapping_add8 c b) bs (omega arith) ∙ omega arith

-- The wrapping loop computes the sum of the bytes modulo 256.
pub compute_checksum-byte_sum : (bs : List ℕ) → compute_checksum bs ≡ byte_sum bs % 256
unfolding compute_checksum
compute_checksum-byte_sum bs = checksum_loop-byte_sum 0 bs (omega arith) ∙ omega arith

-- What the other fields of a floating pointer sum to.
byte_sum-mpf_intel :
    (v : MpfIntel) (c : ℕ)
    → byte_sum (image_of (mpf_intel_fields (record v { checksum = c }))) % 256
      ≡ (byte_sum (image_of (mpf_intel_fields (record v { checksum = 0 }))) + c) % 256
unfolding mpf_intel_fields
byte_sum-mpf_intel v c = omega (arith, byte_sum-append v.signature)

byte_sum-mpc_table :
    (v : MpcTable) (c : ℕ)
    → byte_sum (image_of (mpc_table_fields (record v { checksum = c }))) % 256
      ≡ (byte_sum (image_of (mpc_table_fields (record v { checksum = 0 }))) + c) % 256
unfolding mpc_table_fields
byte_sum-mpc_table v c =
    omega (arith, byte_sum-append v.signature, byte_sum-append v.oem, byte_sum-append v.productid)

-- With the checksum that `mpf_intel_compute_checksum` gives, whatever was in the field before, the
-- bytes of the floating pointer sum to 0 modulo 256.
pub byte_sum-mpf_intel_compute_checksum :
    (v : MpfIntel)
    → v.checksum < 256
    → byte_sum (image_of (mpf_intel_fields (record v { checksum = mpf_intel_compute_checksum v })))
        % 256
      ≡ 0
unfolding mpf_intel_compute_checksum
byte_sum-mpf_intel_compute_checksum v h = omega (
  arith,
  byte_sum-mpf_intel v (mpf_intel_compute_checksum v),
  byte_sum-mpf_intel v v.checksum,
  compute_checksum-byte_sum (image_of (mpf_intel_fields v)),
)

-- The value by the other fields alone.
mpf_intel_compute_checksum_closed :
    (v : MpfIntel)
    → v.checksum < 256
    → mpf_intel_compute_checksum v
      ≡ (256 - byte_sum (image_of (mpf_intel_fields (record v { checksum = 0 }))) % 256) % 256
unfolding mpf_intel_compute_checksum
mpf_intel_compute_checksum_closed v h = omega (
  arith,
  byte_sum-mpf_intel v v.checksum,
  compute_checksum-byte_sum (image_of (mpf_intel_fields v)),
)

mpf_intel_compute_checksum-lt : (v : MpfIntel) → mpf_intel_compute_checksum v < 256
unfolding mpf_intel_compute_checksum
mpf_intel_compute_checksum-lt v = omega arith

-- The checksum of a floating pointer does not depend on the checksum that it holds, so a reader
-- who computes it again gets the stored one.
pub mpf_intel_compute_checksum_again :
    (v : MpfIntel)
    → v.checksum < 256
    → let w = record v { checksum = mpf_intel_compute_checksum v } in
      mpf_intel_compute_checksum w ≡ w.checksum
mpf_intel_compute_checksum_again v h =
    mpf_intel_compute_checksum_closed (record v { checksum = mpf_intel_compute_checksum v })
      (mpf_intel_compute_checksum-lt v)
    ∙ sym (mpf_intel_compute_checksum_closed v h)

-- A header for entries whose sum is `checksum` makes the whole table sum to 0 modulo 256.
pub byte_sum-header_entry :
    (table_length checksum : ℕ) (entries : List ℕ)
    → checksum ≡ byte_sum entries % 256
    → byte_sum (image_of (mpc_table_fields (header_entry table_length checksum)) ++ entries) % 256
      ≡ 0
byte_sum-header_entry table_length checksum entries h = omega (
  arith,
  byte_sum-append (image_of (mpc_table_fields (header_entry table_length checksum))) entries,
  byte_sum-mpc_table (header_blank table_length) (header_entry table_length checksum).checksum,
  compute_checksum-byte_sum (image_of (mpc_table_fields (header_blank table_length))),
)

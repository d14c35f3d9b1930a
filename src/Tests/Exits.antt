-- ===== src/Tests/Exits.antt =====
-- A vCPU that prints a byte, reads a register, touches a device and halts.
use lumper.Base.{
  ℕ, ◌%◌, ◌<◌, ◌≡◌, Bool, ltb, leb, ◌&&◌, if◌then◌else◌, none, true, some, List, [], ◌∷◌,
}
use lumper.Vcpu.Run.{VcpuExit, hlt, io_out, io_in, mmio_read, Devices, Board}

abbrev is_mapped : ℕ → Bool
is_mapped addr = leb 0xd000_0000 addr && ltb addr 0xd000_1000

abbrev IsMapped : ℕ → Type 0
IsMapped addr = is_mapped addr ≡ true

-- The serial device keeps the last byte. The manager has one device, of 4 KiB from 0xd000_0000 on,
-- that answers with what it is given; at any other address there is none.
abbrev echo : Devices
echo = record {
  Serial = ℕ;
  Manager = ℕ;
  serial_write = λ offset value s. some (value % 256);
  serial_read = λ offset s. (s, s);
  manager_write = λ addr bytes m. if is_mapped addr then some m else none;
  manager_read = λ addr bytes m. if is_mapped addr then some (m, bytes) else none;
  set_canon_mode = true;
}

abbrev IsByte : ℕ → Type 0
IsByte s = s < 256

abbrev exit_sequence : List VcpuExit
exit_sequence =
    io_out 0x3f8 (65 ∷ [])
    ∷ io_in 0x3fd (0 ∷ [])
    ∷ io_out 0x80 (1 ∷ [])
    ∷ mmio_read 0xd000_0000 (0 ∷ [])
    ∷ hlt
    ∷ []

abbrev board : Board echo
board = record { serial = 0; manager = 0 }

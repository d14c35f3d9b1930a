-- ===== src/Net/Config.antt =====
-- src/vmm/src/devices/net/mod.rs: the configuration space, and which offsets reach the registers.
use lumper.Base.{
  ℕ, ◌+◌, ◌*◌, ◌^◌, ◌<◌, ◌≡◌, Bool, true, List, ◌++◌, arith, length, length-append, complement, u64,
  ltb, leb, if◌then◌else◌,
}
use lumper.Base.Bytes.{to_le_bytes}

-- `virtio_net_config`
pub record VirtioNetConfig : Type 0 where
  pub mac : List ℕ
  pub status : ℕ
  pub max_virtqueue_pairs : ℕ
  pub mtu : ℕ
  pub speed : ℕ
  pub duplex : ℕ

pub config_vec : VirtioNetConfig → List ℕ
config_vec config =
    config.mac
    ++ (to_le_bytes 2 config.status
        ++ (to_le_bytes 2 config.max_virtqueue_pairs
            ++ (to_le_bytes 2 config.mtu
                ++ (to_le_bytes 4 config.speed ++ to_le_bytes 1 config.duplex))))

-- `!` is the complement of a word of 64 bits, as the source writes it.
pub is_reading_register : List ℕ → ℕ → Bool
is_reading_register config_space offset =
    if ltb 0x100 offset
    then ltb (complement 64 offset) (u64 (length config_space * 8 + 0x100))
    else true

-- With the configuration space that `config_vec` makes of a MAC address of six bytes, an access at
-- an offset below 2 ^ 63 is let through exactly up to 0x100: no access that starts behind the first
-- byte of the configuration space gets through.
pub is_reading_register-config_vec :
    (config : VirtioNetConfig) (offset : ℕ)
    → length config.mac ≡ 6
    → offset < 2 ^ 63
    → is_reading_register (config_vec config) offset ≡ leb offset 0x100
unfolding is_reading_register config_vec
is_reading_register-config_vec config offset six h = ground (arith, length-append config.mac tail)
  where
    tail : List ℕ
    tail =
        to_le_bytes 2 config.status
        ++ (to_le_bytes 2 config.max_virtqueue_pairs
            ++ (to_le_bytes 2 config.mtu
                ++ (to_le_bytes 4 config.speed ++ to_le_bytes 1 config.duplex)))

-- ===== src/Net.antt =====
-- src/vmm/src/devices/net/: the virtio network device. The bit numbers of the features are
-- constants of virtio-bindings, which is not part of the repository; they are a parameter.
pub mod Tap
pub mod Config
pub mod Frame
pub mod Buffers
pub mod Scatter
pub mod Device
pub mod Process
pub mod Chains
pub mod Rounds
pub mod Delivered
pub mod Notify
pub mod Transmit
pub mod Open
pub mod Opened
pub mod Mmio
use lumper.Base.{ℕ, ◌*◌, ◌+◌, ◌^◌, ◌<<<◌, bit_or, u64}

-- The features of `virtio_net` that the device offers or reads.
pub record FeatureBits : Type 0 where
  pub csum : ℕ
  pub guest_csum : ℕ
  pub host_tso4 : ℕ
  pub host_tso6 : ℕ
  pub host_ufo : ℕ
  pub guest_tso4 : ℕ
  pub guest_tso6 : ℕ
  pub guest_ufo : ℕ

abbrev pub virtio_f_version_1 : ℕ
virtio_f_version_1 = 32

abbrev pub tun_f_csum : ℕ
tun_f_csum = 1

abbrev pub tun_f_tso4 : ℕ
tun_f_tso4 = 2

abbrev pub tun_f_tso6 : ℕ
tun_f_tso6 = 4

abbrev pub tun_f_ufo : ℕ
tun_f_ufo = 16

unfoldable pub virtio_features : FeatureBits → ℕ
virtio_features f =
    bit_or
      (bit_or
        (bit_or
          (bit_or
            (bit_or
              (bit_or
                (bit_or (bit_or (1 <<< virtio_f_version_1) (1 <<< f.csum)) (1 <<< f.guest_csum))
                (1 <<< f.host_tso4))
              (1 <<< f.host_tso6))
            (1 <<< f.host_ufo))
          (1 <<< f.guest_tso4))
        (1 <<< f.guest_tso6))
      (1 <<< f.guest_ufo)

-- ===== src/Tests/Devices.antt =====
-- The CPU identification and the network device, on concrete inputs.
use lumper.Base.{ℕ, ◌+◌, ◌/◌, ◌%◌, ◌^◌, ◌≡◌, refl, true, false, List, [], ◌∷◌, arith, take, ok}
use lumper.Cpuid.{CpuidEntry, filter_entry}
use lumper.Cpuid.Laws.{filter_entry-ebx, filter_entry-features}
use lumper.Net.{FeatureBits}
use lumper.Base.{some, inr}
use lumper.Memory.Flat.{flat_memory, flat_memory-IsLawful}
use lumper.Net.Frame.{Descriptor, RxQueue, Rx, copy_frame, report_used, write_frame_to_guest}
use lumper.Net.Buffers.{IsReady, Scatters}
use lumper.Net.Scatter.{write_frame_to_guest-Scatters}
use lumper.Tests.Machine.{blank, Covers-blank}
use lumper.Net.Tap.{virtio_flags_to_tuntap_flags, virtio_flags_to_tuntap_flags_lem}
use lumper.Net.Config.{
  VirtioNetConfig, config_vec, is_reading_register, is_reading_register-config_vec,
}

abbrev version_information : CpuidEntry
version_information = record {
  function = 1;
  index = 0;
  ebx = 0x1234;
  ecx = 0x77fa_f3bf;
  edx = 0xbfeb_fbff;
}

abbrev power_management : CpuidEntry
power_management = record { function = 6; index = 0; ebx = 2; ecx = 9; edx = 0 }

filter_entry-ebx_example : (filter_entry true 1 4 version_information).ebx ≡ 0x104_0800
filter_entry-ebx_example =
    filter_entry-ebx true 1 4 version_information refl (omega arith) (omega arith)

filter_entry-features_example :
    let e = filter_entry true 1 4 version_information in
    (e.ecx / 2 ^ 31 % 2 ≡ 1)
    × (e.ecx / 2 ^ 24 % 2 ≡ 1)
    × (e.edx / 2 ^ 28 % 2 ≡ 1)
    × (e.ecx % 2 ^ 24 ≡ 0xfa_f3bf)
    × (e.edx % 2 ^ 28 ≡ 0xfeb_fbff)
filter_entry-features_example = filter_entry-features true 1 4 version_information refl

-- The bit numbers of the virtio specification.
abbrev pub feature_bits : FeatureBits
feature_bits = record {
  csum = 0;
  guest_csum = 1;
  host_tso4 = 11;
  host_tso6 = 12;
  host_ufo = 14;
  guest_tso4 = 7;
  guest_tso6 = 8;
  guest_ufo = 10;
}

-- A driver that takes the checksum and both segmentation features, but not UFO.
virtio_flags_to_tuntap_flags_lem_example :
    virtio_flags_to_tuntap_flags feature_bits (2 ^ 0 + 2 ^ 11 + 2 ^ 12) ≡ 1
virtio_flags_to_tuntap_flags_lem_example =
    virtio_flags_to_tuntap_flags_lem feature_bits (2 ^ 0 + 2 ^ 11 + 2 ^ 12)

-- The name `tap0`.
abbrev tap_name : List ℕ
tap_name = b't' ∷ b'a' ∷ b'p' ∷ b'0' ∷ []

abbrev net_config : VirtioNetConfig
net_config = record {
  mac = 0x02 ∷ 0 ∷ 0 ∷ 0 ∷ 0 ∷ 1 ∷ [];
  status = 1;
  max_virtqueue_pairs = 1;
  mtu = 1500;
  speed = 0;
  duplex = 0;
}

-- The second byte of the MAC address cannot be read.
is_reading_register-config_vec_example : is_reading_register (config_vec net_config) 0x101 ≡ false
is_reading_register-config_vec_example =
    is_reading_register-config_vec net_config 0x101 refl (omega arith)

-- A queue with one chain of two buffers, which always takes the report.
abbrev buffers : List Descriptor
buffers = record { addr = 0x1000; len = 4 } ∷ record { addr = 0x800; len = 8 } ∷ []

abbrev one_chain : RxQueue flat_memory
one_chain = record {
  Queue = ℕ;
  QueueError = Unit;
  next_chain = λ m q. (q, ok (some (7, buffers)));
  add_used = λ head len (m, q). ((m, q + 1), ok tt);
  enable_notification = λ (m, q). ((m, q), ok false);
  disable_notification = λ (m, q). ((m, q), ok tt);
  needs_notification = λ (m, q). ((m, q), ok true);
}

abbrev received_bytes : List ℕ
received_bytes = 1 ∷ 2 ∷ 3 ∷ 4 ∷ 5 ∷ 6 ∷ 7 ∷ 8 ∷ []

abbrev idle : Rx flat_memory one_chain
idle = record { memory = blank; queue = 0 }

buffers-IsReady : IsReady flat_memory blank buffers
buffers-IsReady = (
  omega arith,
  Covers-blank 0x1000 4 (omega arith),
  (inr (omega arith), tt),
  (omega arith, Covers-blank 0x800 8 (omega arith), tt, tt),
)

-- A frame of six bytes fills the first buffer and two bytes of the second.
write_frame_to_guest-Scatters_example :
    let frame = take 6 received_bytes in
    (s : Scatters flat_memory (copy_frame flat_memory frame buffers 0 blank) blank buffers frame 6)
    × (write_frame_to_guest flat_memory one_chain received_bytes 6 idle
        ≡ report_used flat_memory one_chain 7 6 (record { memory = s.final; queue = 0 }))
write_frame_to_guest-Scatters_example =
    write_frame_to_guest-Scatters flat_memory flat_memory-IsLawful one_chain received_bytes 6 7
      buffers idle 0 (omega arith) refl buffers-IsReady

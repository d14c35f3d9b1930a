-- ===== src/Net/Open.antt =====
-- `open_named` and `activate` of src/vmm/src/devices/net/tap.rs with `IfReqBuilder`, and the structure
-- `ifreq` of src/vmm/src/devices/net/bindings.rs. A union is its bytes. The calls of the kernel are the
-- fields of `TunHost`; an error is the one that the kernel gave last.
use lumper.Base.{ℕ, List, ◌++◌, drop, replicate, bit_or, Result, ok, err, Eff, ◌>>◌, map_err}
use lumper.Base.Bytes.{to_le_bytes}
use lumper.Net.{FeatureBits}
use lumper.Net.Tap
use lumper.Net.Tap.{virtio_flags_to_tuntap_flags, build_terminated_if_name, invalid_ifname}

abbrev pub iff_tap : ℕ
iff_tap = 2

abbrev pub iff_no_pi : ℕ
iff_no_pi = 4096

abbrev pub iff_vnet_hdr : ℕ
iff_vnet_hdr = 16384

-- `VirtioNetError`, in what these functions return.
pub data TapError (IoError : Type 0) : Type 0 where
  name_error : Tap.Error → TapError IoError
  ioctl_error : IoError → TapError IoError
  io_error : IoError → TapError IoError

-- The two unions, of 16 and of 24 bytes.
pub record IfReq : Type 0 where
  pub ifr_ifrn : List ℕ
  pub ifr_ifru : List ℕ

-- `IfReqBuilder::new`
abbrev pub if_req_new : IfReq
if_req_new = record { ifr_ifrn = replicate 16 0; ifr_ifru = replicate 24 0 }

-- `IfReqBuilder::if_name`, which copies all sixteen bytes.
unfoldable pub with_name : List ℕ → IfReq → IfReq
with_name if_name req = record req { ifr_ifrn = if_name }

-- `IfReqBuilder::flags`, a `c_short` at the front of its union.
unfoldable pub with_flags : ℕ → IfReq → IfReq
with_flags flags req = record req { ifr_ifru = to_le_bytes 2 flags ++ drop 2 req.ifr_ifru }

pub record TunHost : Type 1 where
  pub World : Type 0
  pub IoError : Type 0
  -- `/dev/net/tun`, to read and to write, without blocking.
  pub open_tun : Eff World IoError ℕ
  -- `TUNSETIFF`, which may write to the request, `TUNSETOFFLOAD` and `TUNSETVNETHDRSZ`.
  pub tun_set_iff : ℕ → IfReq → Eff World IoError IfReq
  pub tun_set_offload : ℕ → ℕ → Eff World IoError (Unit {0})
  pub tun_set_vnet_hdr_sz : ℕ → ℕ → Eff World IoError (Unit {0})

-- How `open_named` ends.
pub data Opened (A E : Type 0) : Type 0 where
  returns : Result E A → Opened A E
  panics : Opened A E

module _ (H : TunHost) where
  abbrev pub TapEff : Type 0 → Type 0
  TapEff A = Eff H.World (TapError H.IoError) A

  -- `IfReqBuilder::execute`, for `TUNSETIFF`.
  unfoldable pub execute : ℕ → IfReq → TapEff IfReq
  execute fd req = map_err (H.tun_set_iff fd req) ioctl_error

  -- The `unwrap` behind `execute`.
  abbrev pub unwrapped :
      ℕ → H.World × Result (TapError H.IoError) IfReq → H.World × Opened ℕ (TapError H.IoError)
  unwrapped fd (w, ok req) = (w, returns (ok fd))
  unwrapped fd (w, err e) = (w, panics)

  abbrev pub with_tun :
      List ℕ → H.World × Result H.IoError ℕ → H.World × Opened ℕ (TapError H.IoError)
  with_tun name (w, ok fd) = unwrapped fd (
      execute fd
        (with_flags (bit_or (bit_or iff_tap iff_no_pi) iff_vnet_hdr) (with_name name if_req_new)) w)
  with_tun name (w, err e) = (w, returns (err (io_error e)))

  abbrev pub with_terminated :
      Result Tap.Error (List ℕ) → H.World → H.World × Opened ℕ (TapError H.IoError)
  with_terminated (ok name) w = with_tun name (H.open_tun w)
  with_terminated (err e) w = (w, returns (err (name_error e)))

  -- A tap is its descriptor.
  unfoldable pub open_named : List ℕ → H.World → H.World × Opened ℕ (TapError H.IoError)
  unfolding execute with_name with_flags
  open_named if_name w = with_terminated (build_terminated_if_name if_name) w

  unfoldable pub activate : FeatureBits → ℕ → ℕ → ℕ → TapEff (Unit {0})
  activate f tap virtio_flags virtio_header_size = do
    map_err (H.tun_set_offload tap (virtio_flags_to_tuntap_flags f virtio_flags)) ioctl_error
    map_err (H.tun_set_vnet_hdr_sz tap virtio_header_size) ioctl_error

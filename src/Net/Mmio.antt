-- ===== src/Net/Mmio.antt =====
-- `VirtioNet::new`, `mmio_read`, `mmio_write` and `activate` of src/vmm/src/devices/net/mod.rs. The
-- registers of virtio-device are a parameter.
use lumper.Base.{
  ℕ, ◌^◌, ◌<◌, ◌≡◌, refl, false, List, length, lt→not-leb, ◌∙◌, if◌then◌else◌, Result, ok, err,
}
use lumper.Memory.{GuestMemory}
use lumper.Net.{FeatureBits, virtio_features}
use lumper.Net.Config.{
  VirtioNetConfig, config_vec, is_reading_register, is_reading_register-config_vec,
}
use lumper.Net.Frame.{RxQueue}
use lumper.Net.Device.{Interface, Nic}
use lumper.Net.Open.{TunHost, TapEff, Opened, returns, panics, activate}

-- `VirtioMmioDevice::read`, which fills the data, and `write`.
pub record Registers (S : Type 0) : Type 0 where
  pub read : ℕ → List ℕ → S → S × List ℕ
  pub write : ℕ → List ℕ → S → S

module _ {S : Type 0} (P : Registers S) (config_space : List ℕ) where
  pub mmio_read : ℕ → List ℕ → S → S × List ℕ
  mmio_read offset bytes s =
      if is_reading_register config_space offset then P.read offset bytes s else (s, bytes)

  pub mmio_write : ℕ → List ℕ → S → S
  mmio_write offset bytes s =
      if is_reading_register config_space offset then P.write offset bytes s else s

-- An access that starts behind the first byte of the configuration space does nothing.
mmio_dropped :
    {S : Type 0} (P : Registers S) (config : VirtioNetConfig) (offset : ℕ) (bytes : List ℕ) (s : S)
    → length config.mac ≡ 6
    → offset < 2 ^ 63
    → 0x100 < offset
    → (mmio_read P (config_vec config) offset bytes s ≡ (s, bytes))
      × (mmio_write P (config_vec config) offset bytes s ≡ s)
unfolding mmio_read mmio_write
mmio_dropped P config offset bytes s six h behind =
    let dropped : is_reading_register (config_vec config) offset ≡ false =
      is_reading_register-config_vec config offset six h ∙ lt→not-leb 0x100 offset behind in
    (rw (dropped) refl, rw (dropped) refl)

module _ (G : GuestMemory) (R : RxQueue G) (I : Interface) where
  -- The offered features and the configuration space of `VirtioConfig`, with the device.
  pub record VirtioNet : Type 0 where
    pub device_features : ℕ
    pub config_space : List ℕ
    pub nic : Nic G R I

  -- `Queue::new`, and `open_named` of the interface.
  pub record Parts (World E : Type 0) : Type 0 where
    pub queue_new : ℕ → Result E R.Queue
    pub open_named : List ℕ → World → World × Opened I.Tap E
    -- What `VirtioConfig::new` starts with.
    pub interrupt_status : ℕ
    -- `virtio_net_config::default()`
    pub default_config : VirtioNetConfig

  abbrev pub with_interface :
      {World E : Type 0}
      → FeatureBits
      → Parts World E
      → G.State
      → I.Irq
      → R.Queue
      → R.Queue
      → World × Opened I.Tap E
      → World × Opened VirtioNet E
  with_interface f parts memory irq_fd rx tx (w, returns (ok tap)) = (
    w,
    returns (
        ok (record {
          device_features = virtio_features f;
          config_space = config_vec parts.default_config;
          nic = record {
            rx = record { memory = memory; queue = rx };
            tx = tx;
            tap = tap;
            interrupt_status = parts.interrupt_status;
            irq = irq_fd;
          };
        })),
  )
  with_interface f parts memory irq_fd rx tx (w, returns (err e)) = (w, returns (err e))
  with_interface f parts memory irq_fd rx tx (w, panics) = (w, panics)

  abbrev pub with_queues :
      {World E : Type 0}
      → FeatureBits
      → Parts World E
      → G.State
      → I.Irq
      → List ℕ
      → World
      → Result E R.Queue
      → Result E R.Queue
      → World × Opened VirtioNet E
  with_queues f parts memory irq_fd if_name w (ok rx) (ok tx) =
      with_interface f parts memory irq_fd rx tx (parts.open_named if_name w)
  with_queues f parts memory irq_fd if_name w (ok rx) (err e) = (w, returns (err e))
  with_queues f parts memory irq_fd if_name w (err e) tx = (w, returns (err e))

  unfoldable pub new :
      {World E : Type 0}
      → FeatureBits
      → Parts World E
      → G.State
      → I.Irq
      → List ℕ
      → World
      → World × Opened VirtioNet E
  new f parts memory irq_fd if_name w =
      with_queues f parts memory irq_fd if_name w (parts.queue_new 256) (parts.queue_new 256)

-- `activate` passes the features that are offered on to the tap interface.
activate_net : (H : TunHost) → FeatureBits → ℕ → ℕ → TapEff H (Unit {0})
activate_net H f virtio_hdr_len tap = activate H f tap (virtio_features f) virtio_hdr_len

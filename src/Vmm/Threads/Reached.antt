-- ===== src/Vmm/Threads/Reached.antt =====
-- What holds however the threads of a machine are interleaved, and whatever the guest does.
use lumper.Base.{ℕ, ◌<◌, Option, List}
use lumper.Memory.{GuestMemory}
use lumper.Net.Frame.{RxQueue, NetError}
use lumper.Net.Device.{Interface, Nic}
use lumper.Net.Process.{Drains}
use lumper.Vmm.Tally.{Logs, start-Tally}
use lumper.Vmm.Events.{Terminal}
use lumper.Vmm.Threads.{Ports}
use lumper.Vmm.Threads.Interleaved.{
  Step, main_moves, vcpu_resumes, vcpu_moves, before_run, Reach, here, later,
}
use lumper.Vmm.Threads.Steady.{State, KeepsNet, KeepsQueued, Steady, Inv}
use lumper.Vmm.Threads.VcpuSteps.{resumed-Inv, vcpu_step-Inv}
use lumper.Vmm.Threads.MainSteps.{main_step-Inv}

module _ {Cause Errno : Type 0} (C : Terminal Cause Errno) (N : Logs C) (G : GuestMemory)
    (R : RxQueue G) (I : Interface) (net_cause : NetError G R → Cause) (VcpuError : Type 0)
    (P : Ports C G R I net_cause VcpuError) (K : KeepsNet C N G R I net_cause VcpuError P)
    (Q : KeepsQueued C N G R I net_cause VcpuError P) (pending : I.Tap → ℕ)
    (drains : Drains G R I pending) (raw_fd : I.Tap → ℕ) (fuel : ℕ)
    (enough : (t : I.Tap) → pending t < fuel) where
  Step-Inv :
      (w0 : C.World) (s0 : C.Serial) (s t : State C N G R I net_cause VcpuError)
      → Step C G R I net_cause VcpuError P raw_fd fuel s t
      → Inv C N G R I net_cause VcpuError w0 s0 s
      → Inv C N G R I net_cause VcpuError w0 s0 t
  Step-Inv w0 s0 s _ (main_moves started running) h =
      main_step-Inv C N G R I net_cause VcpuError w0 s0 pending drains fuel enough raw_fd started
        s.progress s running h h
  Step-Inv w0 s0 s _ (vcpu_moves index e running alive) h =
      vcpu_step-Inv C N G R I net_cause VcpuError w0 s0 P K Q index e s h
  Step-Inv w0 s0 s _ (vcpu_resumes index running waits free) h =
      resumed-Inv C N G R I net_cause VcpuError w0 s0 P K Q index s free h

  Reach-Inv :
      (w0 : C.World) (s0 : C.Serial) (s t : State C N G R I net_cause VcpuError)
      → Reach C G R I net_cause VcpuError P raw_fd fuel s t
      → Inv C N G R I net_cause VcpuError w0 s0 s
      → Inv C N G R I net_cause VcpuError w0 s0 t
  Reach-Inv w0 s0 s _ here h = h
  Reach-Inv w0 s0 s u (later {t} before step) h =
      Step-Inv w0 s0 t u step (Reach-Inv w0 s0 s t before h)

  -- With a manager that keeps its device, a serial device of which no port access changes what it has
  -- taken from `enqueue_raw_bytes`, and an interface that every read drains of frames, fewer than the
  -- fuel, what follows holds however the vCPUs and the main thread of `run` are interleaved, and with
  -- whatever exits the vCPUs come out of the guest. Until the main thread fails or panics, the bytes
  -- read from the terminal since the start are, in their order, those of calls of `enqueue_raw_bytes`
  -- and then those that the main thread holds on to between its two locks; of each call the serial
  -- device has taken the bytes from the front that it answered, and nothing else. The network device is
  -- there as long as the loop asks for its events. The main thread panics only at the lock of the
  -- serial device or of the network device, poisoned, and a lock is poisoned only by a vCPU whose
  -- thread has panicked. While the main thread is in its loop, no vCPU ends the process, not when its
  -- guest halts either, since the main thread holds the lock of standard input.
  pub Reach-Steady :
      (world : C.World) (serial : C.Serial) (net : Option (Nic G R I)) (vcpus : List ℕ)
      (t : State C N G R I net_cause VcpuError)
      → Reach C G R I net_cause VcpuError P raw_fd fuel
          (before_run C G R I net_cause VcpuError world serial net vcpus)
          t
      → Steady C N G R I net_cause VcpuError world serial t.progress t
  Reach-Steady world serial net vcpus t reached =
      Reach-Inv world serial (before_run C G R I net_cause VcpuError world serial net vcpus) t
        reached
        (record {
          accounted = start-Tally C (N.received world) (N.queued serial);
          net = tt;
          blamed = tt;
          causes = record { by_serial = λ e. cc; by_net = λ e. cc; by_manager = λ e. cc };
          quiet = λ e. cc;
        })

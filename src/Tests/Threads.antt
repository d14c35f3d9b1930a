-- ===== src/Tests/Threads.antt =====
-- A run of two vCPUs beside the main thread: a vCPU writes to a port, another one panics at an address
-- without a device while the main thread holds what was typed, and the first one then reads it and halts.
use lumper.Base.{
  ℕ, ◌≡◌, refl, Bool, true, false, ◌&&◌, Option, none, some, List, [], ◌∷◌, leb, ltb, if◌then◌else◌,
}
use lumper.Memory.Flat.{flat_memory}
use lumper.Net.Device.{Nic}
use lumper.Vcpu.Run.{run, VcpuExit, hlt, io_out, io_in, mmio_write}
use lumper.Vmm.Threads.{Ports, Threads, main_step}
use lumper.Vmm.Threads.Interleaved.{
  vcpu_step, main_moves, vcpu_moves, before_run, Reach, here, later,
}
use lumper.Vmm.Threads.Steady.{KeepsNet, KeepsQueued, IsThere, Steady}
use lumper.Vmm.Threads.Reached.{Reach-Steady}
use lumper.Tests.Nic.{chains_queue}
use lumper.Tests.Loop.{
  terminal-Logs, terminal, one_frame, frames_left, one_frame-Drains, few_frames, idle_nic,
}

abbrev Net : Type 0
Net = Option (Nic flat_memory chains_queue one_frame)

abbrev take_byte : List ℕ × List ℕ → (List ℕ × List ℕ) × ℕ
take_byte (log, []) = ((log, []), 0)
take_byte (log, byte ∷ bytes) = ((log, bytes), byte)

abbrev served : ℕ → Net → Option Net
served addr none = none
served addr (some nic) =
    if leb 0xd000_0000 addr && ltb addr 0xd000_1000 then some (some nic) else none

abbrev with_data : List ℕ → Option Net → Option (Net × List ℕ)
with_data bytes none = none
with_data bytes (some net) = some (net, bytes)

abbrev ports : Ports terminal flat_memory chains_queue one_frame (λ e. 0) ℕ
ports = record {
  serial_write = λ offset value s. if ltb offset 8 then some s else none;
  serial_read = λ offset s. take_byte s;
  manager_write = λ addr bytes net. served addr net;
  manager_read = λ addr bytes net. with_data bytes (served addr net);
  set_canon_mode = true;
  net_panics = λ e net. false;
}

at_device :
    (t : Bool) (nic : Nic flat_memory chains_queue one_frame) (net : Net)
    → ◌≡◌ {A = Option Net} (if t then some (some nic) else none) (some net)
    → IsThere net
at_device true nic none e = cc
at_device true nic (some nic') e = tt
at_device false nic net e = cc

data_at_device :
    (t : Bool) (bytes : List ℕ) (nic : Nic flat_memory chains_queue one_frame) (got : Net × List ℕ)
    → with_data bytes (if t then some (some nic) else none) ≡ some got
    → IsThere got.0
data_at_device true bytes nic (none, got) e = cc
data_at_device true bytes nic (some nic', got) e = tt
data_at_device false bytes nic got e = cc

ports-KeepsNet : KeepsNet terminal terminal-Logs flat_memory chains_queue one_frame (λ e. 0) ℕ ports
ports-KeepsNet = record {
  write = λ addr bytes nic net e. at_device _ nic net e;
  read = λ addr bytes nic got e. data_at_device _ bytes nic got e;
}

take_byte-log : (s : List ℕ × List ℕ) → (take_byte s).0.0 ≡ s.0
take_byte-log (log, []) = refl
take_byte-log (log, byte ∷ bytes) = refl

write_if :
    (t : Bool) (s s' : List ℕ × List ℕ)
    → ◌≡◌ {A = Option (List ℕ × List ℕ)} (if t then some s else none) (some s')
    → s'.0 ≡ s.0
write_if true s s' e = cc
write_if false s s' e = cc

ports-KeepsQueued :
    KeepsQueued terminal terminal-Logs flat_memory chains_queue one_frame (λ e. 0) ℕ ports
unfolding terminal-Logs
ports-KeepsQueued = record {
  write = λ offset value s s' e. write_if _ s s' e;
  read = λ offset s. take_byte-log s;
}

abbrev State : Type 0
State = Threads terminal flat_memory chains_queue one_frame (λ e. 0) ℕ

abbrev next : State → State
next s =
    main_step terminal flat_memory chains_queue one_frame (λ e. 0) ℕ (λ t. 11) 2 true s.progress s

abbrev serve : ℕ → VcpuExit → State → State
serve index e s = vcpu_step terminal flat_memory chains_queue one_frame (λ e. 0) ℕ ports index e s

abbrev first : State
first =
    before_run terminal flat_memory chains_queue one_frame (λ e. 0) ℕ [] ([], []) (some idle_nic)
      (0 ∷ 1 ∷ [])

-- Both vCPUs have been started, the first one writes to the serial port, and a byte is read.
abbrev has_typed : State
has_typed = next (next (serve 0 (io_out 0x3f8 (0x48 ∷ [])) (next (next (next first)))))

abbrev has_answered : State
has_answered =
    serve 0 (io_in 0x3f8 (0 ∷ [])) (next (serve 1 (mmio_write 0x1000 (1 ∷ [])) has_typed))

abbrev last : State
last = serve 0 hlt has_answered

last-reached :
    Reach terminal flat_memory chains_queue one_frame (λ e. 0) ℕ ports (λ t. 11) 2 first last
unfolding main_step vcpu_step run
last-reached =
    later
      (later
        (later
          (later
            (later
              (later
                (later
                  (later (later (later here (main_moves true refl)) (main_moves true refl))
                    (main_moves true refl))
                  (vcpu_moves 0 (io_out 0x3f8 (0x48 ∷ [])) refl refl))
                (main_moves true refl))
              (main_moves true refl))
            (vcpu_moves 1 (mmio_write 0x1000 (1 ∷ [])) refl refl))
          (main_moves true refl))
        (vcpu_moves 0 (io_in 0x3f8 (0 ∷ [])) refl refl))
      (vcpu_moves 0 hlt refl refl)

last_answers :
    (last.blocked ≡ 0 ∷ [])
    × (last.died ≡ 1 ∷ [])
    × (last.exited ≡ false)
    × (last.manager_poisoned ≡ true)
    × (last.serial ≡ (b'a' ∷ [], []))
unfolding main_step vcpu_step run
last_answers = (refl, refl, refl, refl, refl)

Reach-Steady_example :
    Steady terminal terminal-Logs flat_memory chains_queue one_frame
      (λ e. 0)
      ℕ
      []
      ([], [])
      last.progress
      last
Reach-Steady_example =
    Reach-Steady terminal terminal-Logs flat_memory chains_queue one_frame (λ e. 0) ℕ ports
      ports-KeepsNet ports-KeepsQueued frames_left one_frame-Drains (λ t. 11) 2 few_frames []
      ([], []) (some idle_nic) (0 ∷ 1 ∷ []) last last-reached

-- ===== src/Vmm/Tally.antt =====
-- The bytes that the main thread of `run` reads from the terminal against those that the serial device
-- takes. `enqueue_raw_bytes` of vm-superio answers how many bytes from the front it has taken, and
-- src/vmm/src/lib.rs does not look at the answer.
use lumper.Base.{ℕ, ◌≡◌, refl, ◌∙◌, sym, ap, List, [], ◌∷◌, ◌++◌, length, take, ok}
use lumper.Base.Slices.{take_all}
use mathlib.Core.List.{append-nil, append_assoc}
use lumper.Vmm.Events.{Terminal}

-- A terminal by the bytes that were read from it, and a serial device by those that it has taken of
-- what was put into it.
pub record Logs {Cause Errno : Type 0} (C : Terminal Cause Errno) : Type 0 where
  pub received : C.World → List ℕ
  pub queued : C.Serial → List ℕ
  pub raw_mode : (w : C.World) → received (C.set_raw_mode w).0 ≡ received w
  pub waited : (n : ℕ) (w : C.World) → received (C.wait n w).0 ≡ received w
  pub read :
      (n : ℕ) (w : C.World) (bytes : List ℕ)
      → (C.read_raw n w).1 ≡ ok bytes
      → received (C.read_raw n w).0 ≡ received w ++ bytes
  pub enqueue :
      (bytes : List ℕ) (s : C.Serial) (count : ℕ)
      → (C.enqueue_raw_bytes bytes s).1 ≡ ok count
      → queued (C.enqueue_raw_bytes bytes s).0 ≡ queued s ++ take count bytes

-- The bytes of some calls of `enqueue_raw_bytes`, and what was taken of them, from their answers.
abbrev pub bytes_of : List (List ℕ × ℕ) → List ℕ
bytes_of [] = []
bytes_of ((bytes, count) ∷ calls) = bytes ++ bytes_of calls

abbrev pub taken_of : List (List ℕ × ℕ) → List ℕ
taken_of [] = []
taken_of ((bytes, count) ∷ calls) = take count bytes ++ taken_of calls

bytes_of-append :
    (calls more : List (List ℕ × ℕ)) → bytes_of (calls ++ more) ≡ bytes_of calls ++ bytes_of more
bytes_of-append [] more = refl
bytes_of-append ((bytes, count) ∷ calls) more =
    ap (λ l. bytes ++ l) (bytes_of-append calls more) ∙ sym (append_assoc bytes _ _)

taken_of-append :
    (calls more : List (List ℕ × ℕ)) → taken_of (calls ++ more) ≡ taken_of calls ++ taken_of more
taken_of-append [] more = refl
taken_of-append ((bytes, count) ∷ calls) more =
    ap (λ l. take count bytes ++ l) (taken_of-append calls more)
    ∙ sym (append_assoc (take count bytes) _ _)

module _ {Cause Errno : Type 0} (C : Terminal Cause Errno) where
  -- The serial device has given these answers.
  abbrev pub Answers : List (List ℕ × ℕ) → Type 0
  Answers [] = Unit
  Answers ((bytes, count) ∷ calls) =
      ((s : C.Serial) × ((C.enqueue_raw_bytes bytes s).1 ≡ ok count)) × Answers calls

  Answers-append :
      (calls : List (List ℕ × ℕ)) (bytes : List ℕ) (count : ℕ) (s : C.Serial)
      → (C.enqueue_raw_bytes bytes s).1 ≡ ok count
      → Answers calls
      → Answers (calls ++ ((bytes, count) ∷ []))
  Answers-append [] bytes count s e h = ((s, e), tt)
  Answers-append ((first, n) ∷ calls) bytes count s e (one, rest) =
      (one, Answers-append calls bytes count s e rest)

  -- Of what was read and queued before, to what is now: what was read since is the bytes of the calls,
  -- and at the end those that no call was made with yet; what was queued since is what the device has
  -- taken by its answers.
  pub record Tally (r0 r q0 q pending : List ℕ) : Type 0 where
    pub calls : List (List ℕ × ℕ)
    pub read : r ≡ (r0 ++ bytes_of calls) ++ pending
    pub taken : q ≡ q0 ++ taken_of calls
    pub answers : Answers calls

  pub start-Tally : (r q : List ℕ) → Tally r r q q []
  start-Tally r q = record {
    calls = [];
    read = sym (append-nil _ ∙ append-nil r);
    taken = sym (append-nil q);
    answers = tt;
  }

  pub Tally-moved :
      (r0 r r' q0 q pending : List ℕ) → r' ≡ r → Tally r0 r q0 q pending → Tally r0 r' q0 q pending
  Tally-moved r0 r r' q0 q pending e t = record {
    calls = t.calls;
    read = e ∙ t.read;
    taken = t.taken;
    answers = t.answers;
  }

  pub Tally-read :
      (r0 r r' q0 q bytes : List ℕ) → r' ≡ r ++ bytes → Tally r0 r q0 q [] → Tally r0 r' q0 q bytes
  Tally-read r0 r r' q0 q bytes e t = record {
    calls = t.calls;
    read = e ∙ ap (λ l. l ++ bytes) (t.read ∙ append-nil _);
    taken = t.taken;
    answers = t.answers;
  }

  pub Tally-enqueued :
      (r0 r q0 q q' bytes : List ℕ) (count : ℕ) (s : C.Serial)
      → (C.enqueue_raw_bytes bytes s).1 ≡ ok count
      → q' ≡ q ++ take count bytes
      → Tally r0 r q0 q bytes
      → Tally r0 r q0 q' []
  Tally-enqueued r0 r q0 q q' bytes count s e h t = record {
    calls = t.calls ++ ((bytes, count) ∷ []);
    read =
        t.read
        ∙ append_assoc r0 (bytes_of t.calls) bytes
        ∙ ap (λ l. r0 ++ (bytes_of t.calls ++ l)) (sym (append-nil bytes))
        ∙ ap (λ l. r0 ++ l) (sym (bytes_of-append t.calls ((bytes, count) ∷ [])))
        ∙ sym (append-nil _);
    taken =
        h
        ∙ ap (λ l. l ++ take count bytes) t.taken
        ∙ append_assoc q0 (taken_of t.calls) (take count bytes)
        ∙ ap (λ l. q0 ++ (taken_of t.calls ++ l)) (sym (append-nil (take count bytes)))
        ∙ ap (λ l. q0 ++ l) (sym (taken_of-append t.calls ((bytes, count) ∷ [])));
    answers = Answers-append t.calls bytes count s e t.answers;
  }

  -- A device that always takes all the bytes has taken all that were read.
  whole :
      (calls : List (List ℕ × ℕ))
      → ((bytes : List ℕ) (s : C.Serial) (count : ℕ)
          → (C.enqueue_raw_bytes bytes s).1 ≡ ok count
          → count ≡ length bytes)
      → Answers calls
      → taken_of calls ≡ bytes_of calls
  whole [] all h = refl
  whole ((bytes, count) ∷ calls) all ((s, e), rest) =
      ap (λ l. l ++ taken_of calls) (take_all count bytes (all bytes s count e))
      ∙ ap (λ l. bytes ++ l) (whole calls all rest)

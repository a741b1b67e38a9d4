-- ===== src/Executor/Ends.antt =====
-- Every run presses keys safely and ends with a release and one notice of the end.
use typxen.Base.{ℕ, zero, suc, ◌+◌, ◌≡◌, refl, ◌⊎◌, inl, inr, true, false, List, [], ◌∷◌, arith}
use typxen.Protocol.Types.{ProtocolError, ActionRecord, VerifiedSchedule, pass, fail, Checked-cases}
use typxen.Protocol.Verify.{read_record}
use typxen.Executor.Defs.{
  ExecutorError, protocol_read_failed, failed, ExecutorIo, progress_event, World, Action, ◌>>◌,
  notify, finish, poll_stop, wait_or_return, press_or_return, release_or_return, execute_record,
  execute_index, execute_from,
}
use typxen.Executor.Log.{
  Key, Running, Done, finish-Done, poll_stop-Keeps, wait_or_return-Keeps, press_or_return-Keeps,
  release_or_return-Keeps, Triple, seq, weaken,
}

abbrev pub key_of : ActionRecord → Key
key_of r = (r.modifier, r.keycode)

module _ {C : Type 0} (io : ExecutorIo C) (schedule : VerifiedSchedule) where
  abbrev Up : List Key → World C → Type 0
  Up keys w = Running false keys w.log

  abbrev Down : List Key → World C → Type 0
  Down keys w = Running true keys w.log

  -- The run has ended, with these keys pressed.
  abbrev Ended : List Key → ExecutorError → World C → Type 0
  Ended keys e w = Done e keys w.log

  -- The run has ended before or behind the press of one key.
  abbrev EndedAround : Key → List Key → ExecutorError → World C → Type 0
  EndedAround key keys e w = Done e keys w.log ⊎ Done e (key ∷ keys) w.log

  before :
      {P P' : World C → Type 0} {m : Action C (Unit {0})} (key : Key) (keys : List Key)
      → Triple P P' (Ended keys) m
      → Triple P P' (EndedAround key keys) m
  before key keys = weaken (λ e w h. inl h)

  behind :
      {P P' : World C → Type 0} {m : Action C (Unit {0})} (key : Key) (keys : List Key)
      → Triple P P' (Ended (key ∷ keys)) m
      → Triple P P' (EndedAround key keys) m
  behind key keys = weaken (λ e w h. inr h)

  poll_stop-Triple : (keys : List Key) → Triple (Up keys) (Up keys) (Ended keys) (poll_stop io)
  poll_stop-Triple keys = record { runs = λ w h. poll_stop-Keeps io false keys w h }

  wait-Triple :
      (keys : List Key) (delay_us : ℕ)
      → Triple (Up keys) (Up keys) (Ended keys) (wait_or_return io delay_us)
  wait-Triple keys delay_us = record {
    runs = λ w h. wait_or_return-Keeps io delay_us false keys w h;
  }

  hold-Triple :
      (keys : List Key) (delay_us : ℕ)
      → Triple (Down keys) (Down keys) (Ended keys) (wait_or_return io delay_us)
  hold-Triple keys delay_us = record {
    runs = λ w h. wait_or_return-Keeps io delay_us true keys w h;
  }

  press-Triple :
      (r : ActionRecord) (keys : List Key)
      → Triple (Up keys) (Down (key_of r ∷ keys)) (Ended keys) (press_or_return io r)
  press-Triple r keys = record { runs = λ w h. press_or_return-Keeps io r keys w h }

  release-Triple :
      (keys : List Key) → Triple (Down keys) (Up keys) (Ended keys) (release_or_return io)
  release-Triple keys = record { runs = λ w h. release_or_return-Keeps io keys w h }

  progress-Triple :
      (keys : List Key) (i j k : ℕ)
      → Triple (Up keys) (Up keys) (Ended keys) (notify (io.progress i j k) (progress_event i j k))
  progress-Triple keys i j k = record { runs = λ w h. ground (arith, h) }

  pub execute_record-Triple :
      (index : ℕ) (r : ActionRecord) (keys : List Key)
      → Triple
          (Up keys)
          (Up (key_of r ∷ keys))
          (EndedAround (key_of r) keys)
          (execute_record io schedule index r)
  unfolding execute_record
  execute_record-Triple index r keys =
      let key = key_of r in
      let after = key ∷ keys in
      seq (before key keys (wait-Triple keys r.wait_before_key_down_us)) (
        seq (before key keys (poll_stop-Triple keys)) (
          seq (before key keys (press-Triple r keys)) (
            behind key keys (
              seq (hold-Triple after r.key_down_hold_us) (
                seq (release-Triple after) (
                  seq
                    (progress-Triple after r.source_index (index + 1) schedule.header.action_count)
                    (seq (poll_stop-Triple after) (wait-Triple after r.wait_after_release_us))))))))

-- The keys of the records, up to the first that cannot be read.
pub keys_from : VerifiedSchedule → ℕ → ℕ → List Key
keys_from schedule zero index = []
keys_from schedule (suc rounds) index =
    let rest = keys_from schedule rounds (index + 1) in
    elim (read_record schedule index) [ fail e ↦ [] | pass r ↦ key_of r ∷ rest ]

-- `after` is `keys` with a prefix of `all` pressed on top. The lists of pressed keys are last first.
abbrev pub Pressed : List Key → List Key → List Key → Type 0
Pressed keys [] after = after ≡ keys
Pressed keys (k ∷ all) after = (after ≡ keys) ⊎ Pressed (k ∷ keys) all after

abbrev pub press_all : List Key → List Key → List Key
press_all keys [] = keys
press_all keys (k ∷ all) = press_all (k ∷ keys) all

Pressed-nil : (keys all : List Key) → Pressed keys all keys
Pressed-nil keys [] = refl
Pressed-nil keys (k ∷ all) = inl refl

pub Pressed-press_all : (keys all : List Key) → Pressed keys all (press_all keys all)
Pressed-press_all keys [] = refl
Pressed-press_all keys (k ∷ all) = inr (Pressed-press_all (k ∷ keys) all)

module _ {C : Type 0} (io : ExecutorIo C) (schedule : VerifiedSchedule) where
  -- The run has ended on the way through the keys `all`.
  abbrev pub EndedWithin : List Key → List Key → ExecutorError → World C → Type 0
  EndedWithin keys all e w = (after : List Key) × Done e after w.log × Pressed keys all after

  around-within :
      (key : Key) (keys all : List Key) (e : ExecutorError) (w : World C)
      → Done e keys w.log ⊎ Done e (key ∷ keys) w.log
      → EndedWithin keys (key ∷ all) e w
  around-within key keys all e w (inl d) = (keys, d, inl refl)
  around-within key keys all e w (inr d) = (key ∷ keys, d, inr (Pressed-nil (key ∷ keys) all))

  fail-Triple :
      (e : ProtocolError) (rounds index : ℕ) (keys all after : List Key)
      → Triple
          (λ w. Running false keys w.log)
          (λ w. Running false after w.log)
          (EndedWithin keys all)
          ((poll_stop io >> finish io failed protocol_read_failed e)
            >> execute_from io schedule rounds index)
  fail-Triple e rounds index keys all after =
      weaken (λ e' w h. (keys, h, Pressed-nil keys all))
        (seq {P' = λ _. ⊥} {k = execute_from io schedule rounds index}
          (seq {P' = λ w. Running false keys w.log}
            (record { runs = λ w h. poll_stop-Keeps io false keys w h })
            (record {
              runs = λ w h. finish-Done io failed protocol_read_failed e keys w h.opens (λ q. cc);
            }))
          (record { runs = λ w h. absurd h }))

  -- The loop presses all the keys, or ends within them.
  pub execute_from-Triple :
      (rounds index : ℕ) (keys : List Key)
      → Triple
          (λ w. Running false keys w.log)
          (λ w. Running false (press_all keys (keys_from schedule rounds index)) w.log)
          (EndedWithin keys (keys_from schedule rounds index))
          (execute_from io schedule rounds index)
  unfolding execute_from keys_from execute_index
  execute_from-Triple zero index keys = record { runs = λ w h. h }
  execute_from-Triple (suc rounds) index keys = elim (Checked-cases (read_record schedule index)) [
    | inl (e, unread) ↦
        rw (unread, keys_from, execute_index) (fail-Triple e rounds (index + 1) keys [] keys)
    | inr (r, read) ↦
        let rest = keys_from schedule rounds (index + 1) in
        rw (read, keys_from, execute_index)
          (seq {P' = λ w. Running false (key_of r ∷ keys) w.log}
            (weaken (λ e w h. around-within (key_of r) keys rest e w h)
              (seq {P' = λ w. Running false keys w.log}
                (before io schedule (key_of r) keys (poll_stop-Triple io schedule keys))
                (execute_record-Triple io schedule index r keys)))
            (weaken (λ e w h. (h.0, h.1, inr h.2))
              (execute_from-Triple rounds (index + 1) (key_of r ∷ keys))))
  ]

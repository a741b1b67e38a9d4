-- ===== src/Executor/Log.antt =====
-- What the log of a run shows, and how each statement extends it.
use typxen.Base.{ℕ, ◌≡◌, ◌≢◌, ◌⊎◌, Bool, true, false, List, [], ◌∷◌, arith}
use typxen.Protocol.Types.{ProtocolError, ActionRecord}
use typxen.Executor.Defs.{
  ExecutorError, ok, release_failed, TerminalStatus, failed, ExecutorIo, Event, press, release,
  poll, terminal_event, World, Flow, next, return, Action, finish, wait_checked, poll_stop,
  wait_or_return, press_or_return, release_or_return, ◌>>◌,
}

abbrev pub Key : Type 0
Key = ℕ × ℕ

-- The logs are newest first. A key may be down: a press was the last word on it.
abbrev pub held : List Event → Bool
held [] = false
held (press m k done ∷ log) = true
held (release true ∷ log) = false
held (_ ∷ log) = held log

abbrev pub stop_seen : List Event → Bool
stop_seen [] = false
stop_seen (poll true ∷ log) = true
stop_seen (_ ∷ log) = stop_seen log

abbrev pub ended : List Event → Bool
ended [] = false
ended (terminal_event s e p ∷ log) = true
ended (_ ∷ log) = ended log

-- The keys that were pressed, last first.
abbrev pub typed : List Event → List Key
typed [] = []
typed (press m k true ∷ log) = (m, k) ∷ typed log
typed (_ ∷ log) = typed log

-- Each press finds all keys released, no stop seen, and the run not ended.
abbrev pub PressesSafely : List Event → Type 0
PressesSafely [] = Unit
PressesSafely (press m k done ∷ log) =
    (held log ≡ false) × (stop_seen log ≡ false) × (ended log ≡ false) × PressesSafely log
PressesSafely (_ ∷ log) = PressesSafely log

-- The last two calls are a release and the only notice of the end, which tells of a failed release.
abbrev pub EndsWith : ExecutorError → List Event → Type 0
EndsWith e (terminal_event s e' p ∷ release r ∷ log) =
    (e' ≡ e) × (ended log ≡ false) × (r ≡ false → (e ≡ release_failed) × (s ≡ failed))
EndsWith e _ = ⊥

pub record Open (keys : List Key) (log : List Event) : Type 0 where
  pub safe : PressesSafely log
  pub running : ended log ≡ false
  pub same : typed log ≡ keys

pub record Running (down : Bool) (keys : List Key) (log : List Event) : Type 0 where
  pub opens : Open keys log
  pub state : held log ≡ down
  pub unstopped : stop_seen log ≡ false

pub record Final (e : ExecutorError) (keys : List Key) (log : List Event) : Type 0 where
  pub safe : PressesSafely log
  pub ends : EndsWith e log
  pub lifted : (held log ≡ false) ⊎ (e ≡ release_failed)
  pub same : typed log ≡ keys

-- The run has ended before its last record was done.
pub record Done (e : ExecutorError) (keys : List Key) (log : List Event) : Type 0 where
  pub final : Final e keys log
  pub unfinished : e ≢ ok

module _ {C : Type 0} where
  -- What holds behind a statement: `P` if the next one runs, `Q` if the function has returned.
  abbrev pub Post :
      (World C → Type 0) → (ExecutorError → World C → Type 0) → Flow (Unit {0}) × World C → Type 0
  Post P Q (next _, w) = P w
  Post P Q (return e, w) = Q e w

  -- A statement that leaves the keys as they are, or ends the run.
  abbrev pub Keeps : Bool → List Key → Flow (Unit {0}) × World C → Type 0
  Keeps down keys = Post (λ w. Running down keys w.log) (λ e w. Done e keys w.log)

module _ {C : Type 0} (io : ExecutorIo C) where
  pub finish-Final :
      (s : TerminalStatus) (e : ExecutorError) (p : ProtocolError) (keys : List Key) (w : World C)
      → Open keys w.log
      → Post (λ _. ⊥) (λ e' w'. Final e' keys w'.log) (finish io s e p w)
  unfolding finish
  finish-Final s e p keys w h = ground arith

  pub finish-Done :
      (s : TerminalStatus) (e : ExecutorError) (p : ProtocolError) (keys : List Key) (w : World C)
      → Open keys w.log
      → e ≢ ok
      → Post (λ _. ⊥) (λ e' w'. Done e' keys w'.log) (finish io s e p w)
  unfolding finish
  finish-Done s e p keys w h n = ground arith

  pub poll_stop-Keeps :
      (down : Bool) (keys : List Key) (w : World C)
      → Running down keys w.log
      → Keeps down keys (poll_stop io w)
  unfolding poll_stop finish
  poll_stop-Keeps down keys w h = ground arith

  pub wait_or_return-Keeps :
      (delay_us : ℕ) (down : Bool) (keys : List Key) (w : World C)
      → Running down keys w.log
      → Keeps down keys (wait_or_return io delay_us w)
  unfolding wait_or_return wait_checked finish
  wait_or_return-Keeps delay_us down keys w h = ground arith

  pub press_or_return-Keeps :
      (r : ActionRecord) (keys : List Key) (w : World C)
      → Running false keys w.log
      → Post
          (λ w'. Running true ((r.modifier, r.keycode) ∷ keys) w'.log)
          (λ e w'. Done e keys w'.log)
          (press_or_return io r w)
  unfolding press_or_return finish
  press_or_return-Keeps r keys w h = ground arith

  pub release_or_return-Keeps :
      (keys : List Key) (w : World C)
      → Running true keys w.log
      → Keeps false keys (release_or_return io w)
  unfolding release_or_return
  release_or_return-Keeps keys w h = ground arith

-- A statement that takes `P` to `P'`, or returns with `Q`.
pub record Triple {C : Type 0} (P P' : World C → Type 0) (Q : ExecutorError → World C → Type 0)
    (m : Action C (Unit {0})) : Type 0 where
  pub runs : (w : World C) → P w → Post P' Q (m w)

module _ {C : Type 0} where
  seq_runs :
      (P' P'' : World C → Type 0) (Q : ExecutorError → World C → Type 0) (k : Action C (Unit {0}))
      → Triple P' P'' Q k
      → (r : Flow (Unit {0})) (w' : World C) → Post P' Q (r, w')
      → Post P'' Q (elim r [ next a ↦ k w' | return e ↦ (return e, w') ])
  seq_runs P' P'' Q k t (next _) w' h = t.runs w' h
  seq_runs P' P'' Q k t (return e) w' h = h

  -- The rule for two statements in a row.
  pub seq :
      {P P' P'' : World C → Type 0} {Q : ExecutorError → World C → Type 0}
      {m k : Action C (Unit {0})}
      → Triple P P' Q m
      → Triple P' P'' Q k
      → Triple P P'' Q (m >> k)
  seq {P' = P'} {P'' = P''} {Q} {m} {k} s t = record {
    runs = λ w h. seq_runs P' P'' Q k t (m w).0 (m w).1 (s.runs w h);
  }

  weaken_runs :
      (P : World C → Type 0) (Q Q' : ExecutorError → World C → Type 0)
      → ((e : ExecutorError) (w : World C) → Q e w → Q' e w)
      → (r : Flow (Unit {0})) (w : World C) → Post P Q (r, w)
      → Post P Q' (r, w)
  weaken_runs P Q Q' f (next _) w h = h
  weaken_runs P Q Q' f (return e) w h = f e w h

  pub weaken :
      {P P' : World C → Type 0} {Q Q' : ExecutorError → World C → Type 0} {m : Action C (Unit {0})}
      → ((e : ExecutorError) (w : World C) → Q e w → Q' e w)
      → Triple P P' Q m
      → Triple P P' Q' m
  weaken {P' = P'} {Q} {Q' = Q'} {m} f t = record {
    runs = λ w h. weaken_runs P' Q Q' f (m w).0 (m w).1 (t.runs w h);
  }

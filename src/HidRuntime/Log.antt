-- ===== src/HidRuntime/Log.antt =====
-- What the log of a test shows, and how each function extends it.
use typxen.Base.{ℕ, ◌≡◌, ◌≢◌, ◌⊎◌, Bool, true, false, List, [], ◌∷◌, arith, if◌then◌else◌}
use typxen.Base.Text.{same_text}
use typxen.HidRuntime.Defs.{
  HidError, ok, Event, report, Runtime, ValidIo, key_report, release_report,
}
use typxen.HidRuntime.Keys.{proceed, press, release_loop, release, wait_checked}

unfoldable pub is_release : List ℕ → Bool
unfolding same_text
is_release bytes = same_text bytes release_report

-- A key may be down: a report of a key was tried after the last report of no key that was sent.
abbrev pub held : List Event → Bool
held [] = false
held (report bytes sent ∷ log) =
    if is_release bytes then (if sent then false else held log) else true
held (_ ∷ log) = held log

-- The reports of keys that were sent, last first.
abbrev pub typed : List Event → List (List ℕ)
typed [] = []
typed (report bytes sent ∷ log) =
    if is_release bytes then typed log else if sent then bytes ∷ typed log else typed log
typed (_ ∷ log) = typed log

-- A report of a key is tried only when all keys are up.
abbrev pub PressesSafely : List Event → Type 0
PressesSafely [] = Unit
PressesSafely (report bytes sent ∷ log) =
    (is_release bytes ≡ false → held log ≡ false) × PressesSafely log
PressesSafely (_ ∷ log) = PressesSafely log

-- Three reports of no key in a row that were not sent.
abbrev pub GaveUp : List Event → Type 0
GaveUp (report a false ∷ report b false ∷ report c false ∷ log) =
    (is_release a ≡ true) × (is_release b ≡ true) × (is_release c ≡ true)
GaveUp _ = ⊥

module _ {C : Type 0} where
  pub record Safe (keys : List (List ℕ)) (r : Runtime C) : Type 0 where
    pub safe : PressesSafely r.log
    pub same : typed r.log ≡ keys

  pub record Up (keys : List (List ℕ)) (r : Runtime C) : Type 0 where
    pub safe : PressesSafely r.log
    pub same : typed r.log ≡ keys
    pub lifted : held r.log ≡ false

  -- All keys are up, or no report could be sent.
  pub record Lifted (keys : List (List ℕ)) (r : Runtime C) : Type 0 where
    pub safe : PressesSafely r.log
    pub same : typed r.log ≡ keys
    pub tried : (held r.log ≡ false) ⊎ ((r.connected ≡ false) ⊎ GaveUp r.log)

  -- What holds behind a call: `P` if it went well, else `Q`.
  abbrev pub After :
      (Runtime C → Type 0) → (HidError → Runtime C → Type 0) → HidError × Runtime C → Type 0
  After P Q (ok, r) = P r
  After P Q (e, r) = Q e r

  pub proceed-After :
      (P P' : Runtime C → Type 0) (Q Q' : HidError → Runtime C → Type 0)
      (next : Runtime C → HidError × Runtime C)
      (otherwise : HidError → Runtime C → HidError × Runtime C) (m : HidError × Runtime C)
      → After P Q m
      → ((r : Runtime C) → P r → After P' Q' (next r))
      → ((e : HidError) (r : Runtime C) → e ≢ ok → Q e r → After P' Q' (otherwise e r))
      → After P' Q' (proceed m next otherwise)
  proceed-After P P' Q Q' next otherwise (ok, r) h k l = k r h
  proceed-After P P' Q Q' next otherwise (e, r) h k l = l e r (λ e. cc) h

module _ {C : Type 0} (io : ValidIo C) where
  pub release-Up :
      (keys : List (List ℕ)) (r : Runtime C)
      → Safe keys r
      → After (Up keys) (λ e. Lifted keys) (release io r)
  unfolding release release_loop is_release same_text
  release-Up keys r h = ground arith

  pub press-Safe :
      (modifier keycode : ℕ) (keys : List (List ℕ)) (r : Runtime C)
      → is_release (key_report modifier keycode) ≡ false
      → Up keys r
      → After
          (Safe (key_report modifier keycode ∷ keys))
          (λ e. Safe keys)
          (press io modifier keycode r)
  unfolding press
  press-Safe modifier keycode keys r k h = ground arith

  pub wait_checked-Safe :
      (delay_ms : ℕ) (keys : List (List ℕ)) (r : Runtime C)
      → Safe keys r
      → After (Safe keys) (λ e. Safe keys) (wait_checked io delay_ms r)
  unfolding wait_checked
  wait_checked-Safe delay_ms keys r h = ground arith

  pub wait_checked-Up :
      (delay_ms : ℕ) (keys : List (List ℕ)) (r : Runtime C)
      → Up keys r
      → After (Up keys) (λ e. Up keys) (wait_checked io delay_ms r)
  unfolding wait_checked
  wait_checked-Up delay_ms keys r h = ground arith

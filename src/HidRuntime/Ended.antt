-- ===== src/HidRuntime/Ended.antt =====
-- How a test ends, whatever happens in between.
use typxen.Base.{
  ℕ, zero, suc, ◌+◌, ◌≤◌, ◌≡◌, ◌≢◌, ◌⊎◌, inl, inr, refl, Bool, true, false, some, List, [], arith,
  not, ◌||◌, if◌then◌else◌, Option, none,
}
use typxen.HidRuntime.Defs.{HidError, ok, invalid_argument, Runtime, RuntimeIo, ValidIo, io_valid}
use typxen.HidRuntime.Keys.{
  proceed, open_test, begin_test, finish_test, type_loop, run_typing, give_up, stop_error, run_test,
  run_shift_test, calibration_character, shift_character, guarded,
}
use typxen.HidRuntime.Log.{held, Safe, Up, Lifted, After, release-Up}
use typxen.HidRuntime.Typing.{reports, report_of, Around, Up-Safe, send_character-Up, open_test-Up}

module _ {C : Type 0} (character : ℕ → ℕ) (n : ℕ) where
  -- How a test of `n` characters ended: the first `count` of them were typed, in order, each with
  -- all keys up before it; the keys are up, or the last attempts to release them were not sent, or
  -- the host is gone.
  pub record Ends (e : HidError) (r : Runtime C) : Type 0 where
    pub count : ℕ
    pub within : count ≤ n
    pub lifted : Lifted (reports character count) r
    pub idle : r.running ≡ false
    pub whole : e ≡ ok → (count ≡ n) × (held r.log ≡ false) × (r.stop_requested ≡ false)

  abbrev EndsPair : HidError × Runtime C → Type 0
  EndsPair m = Ends m.0 m.1
      -- A test is refused, and nothing is done, or it ends.

  abbrev pub RefusedOr : Runtime C → HidError × Runtime C → Type 0
  RefusedOr r m = ((m.0 ≢ ok) × (m.1 ≡ r)) ⊎ EndsPair m

  module _ (io : ValidIo C) where
    finish_test-Lifted :
        (e : HidError) (keys : List (List ℕ)) (r : Runtime C)
        → Safe keys r
        → let (e', r') = finish_test io e r in
          Lifted keys r'
          × (r'.running ≡ false)
          × (r'.stop_requested ≡ false)
          × (e' ≡ ok → (e ≡ ok) × (held r'.log ≡ false))
    unfolding finish_test
    finish_test-Lifted e keys r h = ground (arith, release-Up io keys r h)

    finish_test-Ends :
        (e : HidError) (count : ℕ) (r : Runtime C)
        → Safe (reports character count) r
        → count ≤ n
        → (e ≡ ok → count ≡ n)
        → EndsPair (finish_test io e r)
    finish_test-Ends e count r h le whole =
        let (lifted, idle, cleared, done) = finish_test-Lifted e (reports character count) r h in
        record {
          count = count;
          within = le;
          lifted = lifted;
          idle = idle;
          whole = λ o. (whole (done o).0, (done o).1, cleared);
        }

    proceed-Ends :
        (P : Runtime C → Type 0) (Q : HidError → Runtime C → Type 0) (m : HidError × Runtime C)
        (next : Runtime C → HidError × Runtime C)
        (otherwise : HidError → Runtime C → HidError × Runtime C)
        → After P Q m
        → ((r : Runtime C) → P r → EndsPair (next r))
        → ((e : HidError) (r : Runtime C) → e ≢ ok → Q e r → EndsPair (otherwise e r))
        → EndsPair (proceed m next otherwise)
    proceed-Ends P Q (ok, r) next otherwise h k l = k r h
    proceed-Ends P Q (e, r) next otherwise h k l = l e r (λ e. cc) h

    Around-Ends :
        (e : HidError) (i : ℕ) (r : Runtime C)
        → Around io (report_of (character i)) (reports character i) r
        → suc i ≤ n
        → e ≢ ok
        → EndsPair (finish_test io e r)
    Around-Ends e i r (inl s) le fails =
        finish_test-Ends e i r s (omega arith) (λ o. absurd (fails o))
    Around-Ends e i r (inr s) le fails = finish_test-Ends e (suc i) r s le (λ o. absurd (fails o))

    stop_error-ne-ok : (r : Runtime C) → stop_error r ≢ ok
    stop_error-ne-ok r e = ground arith

    -- A choice between two ends.
    if-Ends :
        (b : Bool) (m m' : HidError × Runtime C)
        → EndsPair m
        → EndsPair m'
        → EndsPair (if b then m else m')
    if-Ends true m m' h k = h
    if-Ends false m m' h k = k

    type_loop-Ends :
        (hold_ms m i : ℕ) (r : Runtime C)
        → Up (reports character i) r
        → i + m ≡ n
        → EndsPair (type_loop io character hold_ms m i r)
    unfolding type_loop
    type_loop-Ends hold_ms zero i r h e =
        finish_test-Ends ok i r (Up-Safe io _ r h) (omega arith) (λ o. omega arith)
    type_loop-Ends hold_ms (suc m) i r h e =
        if-Ends (r.stop_requested || not r.connected) _ _
          (finish_test-Ends (stop_error r) i r (Up-Safe io _ r h) (omega arith)
            (λ o. absurd (stop_error-ne-ok r o)))
          (proceed-Ends (Up (reports character (suc i)))
            (λ e. Around io (report_of (character i)) (reports character i)) _ _ _
            (send_character-Up io (character i) hold_ms (reports character i) r h)
            (λ r' h'. type_loop-Ends hold_ms m (suc i) r' h' (omega arith))
            (λ e' r' fails a. Around-Ends e' i r' a (omega arith) fails))

    open_test-Ends :
        (hold_ms : ℕ) (r : Runtime C)
        → Safe [] r
        → EndsPair (proceed (open_test io r) (type_loop io character hold_ms n 0) give_up)
    open_test-Ends hold_ms r h =
        proceed-Ends (Up []) (λ e r'. Lifted [] r' × (r'.running ≡ false)) _ _ _
          (open_test-Up io r h) (λ r' h'. type_loop-Ends hold_ms n 0 r' h' (omega arith))
          (λ e r' fails h'. record {
            count = 0;
            within = omega arith;
            lifted = h'.0;
            idle = h'.1;
            whole = λ o. absurd (fails o);
          })

    begin_test-cases :
        (r : Runtime C)
        → (((begin_test io r).0 ≢ ok) × ((begin_test io r).1 ≡ r))
          ⊎ (begin_test io r ≡ open_test io r)
    unfolding begin_test
    begin_test-cases r = ground arith

    run_typing-cases :
        (hold_ms : ℕ) (r : Runtime C) (m : HidError × Runtime C)
        → ((m.0 ≢ ok) × (m.1 ≡ r)) ⊎ (m ≡ open_test io r)
        → Safe [] r
        → RefusedOr r (proceed m (type_loop io character hold_ms n 0) give_up)
    run_typing-cases hold_ms r (ok, r') (inl h) s = absurd (h.0 refl)
    run_typing-cases hold_ms r (e, r') (inl h) s = inl h
    run_typing-cases hold_ms r m (inr h) s = inr (rw h (open_test-Ends hold_ms r s))

    run_typing-Ends :
        (hold_ms : ℕ) (r : Runtime C)
        → Safe [] r
        → RefusedOr r (run_typing io character hold_ms n r)
    unfolding run_typing
    run_typing-Ends hold_ms r s = run_typing-cases hold_ms r _ (begin_test-cases r) s

-- A test behind the test of `io`.
guarded-Ends :
    {C : Type 0} (o : Option (ValidIo C)) (character : ℕ → ℕ) (hold_ms n : ℕ) (r : Runtime C)
    → Safe [] r
    → RefusedOr character n r (guarded o (λ v. run_typing v character hold_ms n r) r)
guarded-Ends none character hold_ms n r s = inl ((λ (q : invalid_argument ≡ ok). cc), refl)
guarded-Ends (some v) character hold_ms n r s = run_typing-Ends character n v hold_ms r s

if-RefusedOr :
    {C : Type 0} (character : ℕ → ℕ) (n : ℕ) (r : Runtime C) (b : Bool) (m : HidError × Runtime C)
    → RefusedOr character n r m
    → RefusedOr character n r (if b then (invalid_argument, r) else m)
if-RefusedOr character n r true m h = inl ((λ (q : invalid_argument ≡ ok). cc), refl)
if-RefusedOr character n r false m h = h

-- With no key typed and none down in the log: `run_test` returns an error and does nothing, or the
-- first characters of the calibration pattern were typed, in order and each with all keys up before
-- it; the keys are then up, or the last attempts to release them were not sent, or the host is
-- gone; no test runs any more; and where the result is OK, the number of characters is the one
-- asked for, all keys are up and no stop is pending. Between the calls the flags may change.
pub run_test-Ends :
    {C : Type 0} (io : RuntimeIo C) (hold_ms character_count : ℕ) (r : Runtime C)
    → Safe [] r
    → RefusedOr calibration_character character_count r (run_test io hold_ms character_count r)
unfolding run_test
run_test-Ends io hold_ms character_count r s =
    if-RefusedOr calibration_character character_count r _ _
      (guarded-Ends (io_valid io) calibration_character hold_ms character_count r s)

-- The same for `run_shift_test` and the six characters of its sequence.
pub run_shift_test-Ends :
    {C : Type 0} (io : RuntimeIo C) (hold_ms : ℕ) (r : Runtime C)
    → Safe [] r
    → RefusedOr shift_character 6 r (run_shift_test io hold_ms r)
unfolding run_shift_test
run_shift_test-Ends io hold_ms r s =
    if-RefusedOr shift_character 6 r _ _ (guarded-Ends (io_valid io) shift_character hold_ms 6 r s)

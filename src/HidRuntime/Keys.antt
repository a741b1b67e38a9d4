-- ===== src/HidRuntime/Keys.antt =====
-- The reports, the waits and the two tests.
use typxen.Base.{
  ℕ, zero, suc, ◌%◌, Bool, true, false, not, ◌||◌, Option, none, some, List, if◌then◌else◌, ◌==◌,
  ltb, get_or,
}
use typxen.HidRuntime.Defs.{
  HidError, ok, disconnected, busy, invalid_argument, send_failed, wait_failed, stopped, report,
  wait, count, Runtime, RuntimeIo, ValidIo, key_report, release_report, calibration_pattern,
  shift_sequence, character_report, hold_supported, call, notify, io_valid,
  calibration_max_characters, wait_after_release_ms, release_max_attempts,
}

-- The error of a callback's answer.
abbrev pub answer : {C : Type 0} → HidError → Bool × Runtime C → HidError × Runtime C
answer e (true, r) = (ok, r)
answer e (false, r) = (e, r)

-- `if (error != TYPX_HID_OK) otherwise`, behind a call.
abbrev pub proceed :
    {C : Type 0}
    → HidError × Runtime C
    → (Runtime C → HidError × Runtime C)
    → (HidError → Runtime C → HidError × Runtime C)
    → HidError × Runtime C
proceed (ok, r) next otherwise = next r
proceed (e, r) next otherwise = otherwise e r

abbrev pub give_up : {C : Type 0} → HidError → Runtime C → HidError × Runtime C
give_up e r = (e, r)

abbrev pub first_error : HidError → HidError → HidError
first_error ok e = e
first_error e _ = e

abbrev pub stop_error : {C : Type 0} → Runtime C → HidError
stop_error r = if r.connected then stopped else disconnected

-- The functions behind their test of `io`.
module _ {C : Type 0} (io : ValidIo C) where
  open io use {send_report, wait_ms, countdown}

  abbrev pub send : List ℕ → Runtime C → Bool × Runtime C
  send bytes = call (send_report bytes) (report bytes)

  unfoldable pub press : ℕ → ℕ → Runtime C → HidError × Runtime C
  press modifier keycode r =
      if not r.connected
      then (disconnected, r)
      else answer send_failed (send (key_report modifier keycode) r)

  -- The attempts that are left.
  unfoldable pub release_loop : ℕ → Runtime C → HidError × Runtime C
  release_loop zero r = (send_failed, r)
  release_loop (suc n) r =
      let (done, r') = send release_report r in
      elim done [ true ↦ (ok, r') | false ↦ release_loop n r' ]

  unfoldable pub release : Runtime C → HidError × Runtime C
  unfolding release_loop
  release r = if not r.connected then (disconnected, r) else release_loop release_max_attempts r

  unfoldable pub wait_checked : ℕ → Runtime C → HidError × Runtime C
  wait_checked delay_ms r =
      if r.stop_requested || not r.connected
      then (stop_error r, r)
      else answer wait_failed (call (wait_ms delay_ms) (wait delay_ms) r)

  -- `if (error != TYPX_HID_OK) { (void)typx_hid_release_all(runtime); return error; }`
  abbrev pub or_release :
      HidError × Runtime C → (Runtime C → HidError × Runtime C) → HidError × Runtime C
  or_release m next = proceed m next (λ e r. (e, (release r).1))

  -- The part of `send_character` behind its report.
  unfoldable pub send_key : ℕ → ℕ → ℕ → Runtime C → HidError × Runtime C
  unfolding press release wait_checked
  send_key modifier keycode hold_ms r = or_release (press modifier keycode r) λ r1.
      or_release (wait_checked hold_ms r1) λ r2.
        or_release (release r2)
          λ r3. or_release (wait_checked wait_after_release_ms r3) λ r4. (ok, r4)

  unfoldable pub send_character : ℕ → ℕ → Runtime C → HidError × Runtime C
  unfolding character_report send_key
  send_character character hold_ms r = elim (character_report character) [
    | none ↦ (invalid_argument, r)
    | some (modifier, keycode) ↦ send_key modifier keycode hold_ms r
  ]

  abbrev pub tick : ℕ → Runtime C → Runtime C
  tick seconds r = elim countdown [ none ↦ r | some f ↦ notify (f seconds) (count seconds) r ]

  -- The loop of the countdown, with the seconds that are left.
  unfoldable pub count_down : ℕ → Runtime C → HidError × Runtime C
  unfolding release wait_checked
  count_down zero r = (ok, r)
  count_down (suc n) r = or_release (wait_checked 1000 (tick (suc n) r)) (count_down n)

  -- The part of `begin_test` behind its tests.
  unfoldable pub open_test : Runtime C → HidError × Runtime C
  unfolding release count_down
  open_test r =
      proceed
        (proceed (release (record r { running = true; stop_requested = false })) (count_down 5)
          give_up)
        (λ r'. (ok, r')) (λ e r'. (e, record r' { running = false }))

  unfoldable pub begin_test : Runtime C → HidError × Runtime C
  unfolding open_test
  begin_test r =
      if not r.connected then (disconnected, r) else if r.running then (busy, r) else open_test r

  unfoldable pub finish_test : HidError → Runtime C → HidError × Runtime C
  unfolding release
  finish_test e r =
      let (release_error, r') = release r in
      (first_error e release_error, record r' { running = false; stop_requested = false })

  -- The loop of either test, with the rounds that are left and the index.
  unfoldable pub type_loop : (ℕ → ℕ) → ℕ → ℕ → ℕ → Runtime C → HidError × Runtime C
  unfolding send_character finish_test
  type_loop character hold_ms zero index r = finish_test ok r
  type_loop character hold_ms (suc n) index r =
      if r.stop_requested || not r.connected
      then finish_test (stop_error r) r
      else proceed (send_character (character index) hold_ms r)
          (type_loop character hold_ms n (suc index)) finish_test

  -- A test behind its arguments.
  unfoldable pub run_typing : (ℕ → ℕ) → ℕ → ℕ → Runtime C → HidError × Runtime C
  unfolding begin_test type_loop
  run_typing character hold_ms n r =
      proceed (begin_test r) (type_loop character hold_ms n 0) give_up

abbrev pub calibration_character : ℕ → ℕ
calibration_character index = get_or calibration_pattern (index % 36) 0

abbrev pub shift_character : ℕ → ℕ
shift_character index = get_or shift_sequence index 0

-- What a function does behind its test of `io`.
abbrev pub guarded :
    {C : Type 0}
    → Option (ValidIo C)
    → (ValidIo C → HidError × Runtime C)
    → Runtime C
    → HidError × Runtime C
guarded none run r = (invalid_argument, r)
guarded (some v) run r = run v

module _ {C : Type 0} (io : RuntimeIo C) where
  unfoldable pub key_down : ℕ → ℕ → Runtime C → HidError × Runtime C
  unfolding press io_valid
  key_down modifier keycode r = guarded (io_valid io) (λ v. press v modifier keycode r) r

  unfoldable pub release_all : Runtime C → HidError × Runtime C
  unfolding release io_valid
  release_all r = guarded (io_valid io) (λ v. release v r) r

  unfoldable pub run_test : ℕ → ℕ → Runtime C → HidError × Runtime C
  unfolding run_typing io_valid hold_supported
  run_test hold_ms character_count r =
      if not (hold_supported hold_ms)
        || (character_count == 0 || ltb calibration_max_characters character_count)
      then (invalid_argument, r)
      else guarded (io_valid io) (λ v. run_typing v calibration_character hold_ms character_count r)
          r

  unfoldable pub run_shift_test : ℕ → Runtime C → HidError × Runtime C
  unfolding run_typing io_valid hold_supported
  run_shift_test hold_ms r =
      if not (hold_supported hold_ms)
      then (invalid_argument, r)
      else guarded (io_valid io) (λ v. run_typing v shift_character hold_ms 6 r) r

-- ===== src/BleHid/Run.antt =====
-- `typx_ble_hid_run_schedule` and its variants.
use typxen.Base.{ℕ, zero, suc, true, false, not, ◌||◌, Option, none, some, List, [], if◌then◌else◌}
use typxen.Protocol.Types.{VerifiedSchedule}
use typxen.Protocol.Verify.{is_verified}
use typxen.HidRuntime.Defs.{shared, resume}
use typxen.Executor.Defs.{
  ExecutorError, not_verified, wait_failed, release_failed, stopped, Event, run,
}
use typxen.BleHid.Defs.{Observer, Ble, Platform, wait_ms, release_all_reports, executor_io}

-- What a run comes to: its error, the calls of the executor, newest first, and the service.
abbrev pub Outcome : Type 0 → Type 0
Outcome P = ExecutorError × List Event × Ble P

module _ {P : Type 0} (platform : Platform P) where
  -- `s_execution_observer = NULL; typx_identity_service_end_activity();` with `running` cleared.
  abbrev pub leave : Ble P → Ble P
  leave r = record r {
    running = false;
    context = record r.context {
      execution_observer = none;
      platform = platform.end_activity r.context.platform;
    };
  }

  abbrev pub leave_cleared : Ble P → Ble P
  leave_cleared r = leave (record r { stop_requested = false })

  abbrev complete_countdown : Option (Observer P) → P → P
  complete_countdown none p = p
  complete_countdown (some o) p = elim o.countdown_complete [ none ↦ p | some f ↦ f p ]

  -- The end of the function, from the executor on.
  unfoldable pub execute : VerifiedSchedule → Ble P → Outcome P
  unfolding run executor_io release_all_reports
  execute schedule r =
      let (result, w) =
        run (some (executor_io platform)) schedule (record { context = r; log = [] }) in
      let (released, r') = release_all_reports platform w.context in
      (if released then result else release_failed, w.log, leave_cleared r')

  -- A wait of the countdown failed.
  unfoldable pub abandon : Ble P → Outcome P
  unfolding release_all_reports
  abandon r = (
    if r.stop_requested then stopped else wait_failed,
    [],
    leave_cleared (release_all_reports platform r).1,
  )

  -- The loop of the countdown and what follows, with the seconds that are left.
  unfoldable pub count_down : VerifiedSchedule → Option (Observer P) → ℕ → Ble P → Outcome P
  unfolding execute abandon wait_ms
  count_down schedule observer zero r = execute schedule (record r {
    context = record r.context { platform = complete_countdown observer r.context.platform };
  })
  count_down schedule observer (suc n) r =
      let (done, s) = wait_ms platform 1000 (shared r) in
      elim done [
        | true ↦ count_down schedule observer n (resume s r.log)
        | false ↦ abandon (resume s r.log)
      ]

  -- The function behind its tests.
  unfoldable pub open_run : VerifiedSchedule → ℕ → Option (Observer P) → Ble P → Outcome P
  unfolding count_down release_all_reports
  open_run schedule countdown_seconds observer r =
      let (released, r') = release_all_reports platform (record r {
        running = true;
        stop_requested = false;
        context = record r.context { execution_observer = observer };
      }) in
      elim released [
        | true ↦ count_down schedule observer countdown_seconds r'
        | false ↦ (release_failed, [], leave r')
      ]

  unfoldable pub run_schedule_countdown_observed :
      VerifiedSchedule → ℕ → Option (Observer P) → Ble P → Outcome P
  unfolding open_run is_verified
  run_schedule_countdown_observed schedule countdown_seconds observer r =
      if not (is_verified schedule)
      then (not_verified, [], r)
      else if not r.connected || r.running
      then (wait_failed, [], r)
      else open_run schedule countdown_seconds observer r

  unfoldable pub run_schedule_countdown : VerifiedSchedule → ℕ → Ble P → Outcome P
  unfolding run_schedule_countdown_observed
  run_schedule_countdown schedule countdown_seconds =
      run_schedule_countdown_observed schedule countdown_seconds none

  unfoldable pub run_schedule : VerifiedSchedule → Ble P → Outcome P
  unfolding run_schedule_countdown
  run_schedule schedule = run_schedule_countdown schedule 0

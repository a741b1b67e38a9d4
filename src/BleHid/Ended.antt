-- ===== src/BleHid/Ended.antt =====
-- How a run of a schedule over the keyboard ends.
use typxen.Base.{
  ℕ, zero, suc, ◌≡◌, ◌≢◌, ◌⊎◌, inl, inr, refl, Bool, true, false, Option, none, some, [], arith,
}
use typxen.Protocol.Types.{VerifiedSchedule}
use typxen.Protocol.Verify.{is_verified}
use typxen.HidRuntime.Defs.{shared}
use typxen.Executor.Defs.{ok, release_failed, run}
use typxen.Executor.Log.{PressesSafely, typed}
use typxen.Executor.Ends.{Pressed, press_all}
use typxen.Executor.Keys.{keys_of, run-Ran}
use typxen.BleHid.Defs.{Observer, Ble, Platform, wait_ms, release_all_reports, executor_io}
use typxen.BleHid.Run.{
  Outcome, leave, execute, abandon, count_down, open_run, run_schedule_countdown_observed,
}
use typxen.BleHid.Sent.{AllLifted, release_all_reports-lifted}

-- A run that was begun ends with no run on and no observer. The executor's calls press each key
-- only with all keys released and no stop seen, and type the first keys of the schedule in order.
-- If the result is OK, all of them were typed, and the last reports that were sent lift the keys.
pub record Ends {P : Type 0} (schedule : VerifiedSchedule) (o : Outcome P) : Type 0 where
  pub idle : o.2.running ≡ false
  pub unobserved : o.2.context.execution_observer ≡ none
  pub safe : PressesSafely o.1
  pub in_order : (o.1 ≡ []) ⊎ Pressed [] (keys_of schedule) (typed o.1)
  pub whole :
      o.0 ≡ ok
      → (typed o.1 ≡ press_all [] (keys_of schedule))
        × AllLifted o.2.context.sent
        × (o.2.stop_requested ≡ false)

module _ {P : Type 0} (platform : Platform P) (schedule : VerifiedSchedule) where
  execute-Ends : (r : Ble P) → Ends schedule (execute platform schedule r)
  unfolding execute
  execute-Ends r =
      let ran = run-Ran (executor_io platform) schedule (record { context = r; log = [] }) refl in
      let w = (run (some (executor_io platform)) schedule (record { context = r; log = [] })).1 in
      record {
        idle = refl;
        unobserved = refl;
        safe = ran.final.safe;
        in_order = inr ran.in_order;
        whole = λ h. ground (arith, h, ran.complete, release_all_reports-lifted platform w.context);
      }

  abandon-Ends : (r : Ble P) → Ends schedule (abandon platform r)
  unfolding abandon
  abandon-Ends r = record {
    idle = refl;
    unobserved = refl;
    safe = tt;
    in_order = inl refl;
    whole = λ h. ground (arith, h);
  }

  leave-Ends : (r : Ble P) → Ends schedule (release_failed, [], leave platform r)
  leave-Ends r = record {
    idle = refl;
    unobserved = refl;
    safe = tt;
    in_order = inl refl;
    whole = λ h. absurd cc;
  }

  branch-Ends :
      (b : Bool) (o o' : Outcome P)
      → Ends schedule o
      → Ends schedule o'
      → Ends schedule (elim b [ true ↦ o | false ↦ o' ])
  branch-Ends true o o' h h' = h
  branch-Ends false o o' h h' = h'

  count_down-Ends :
      (observer : Option (Observer P)) (n : ℕ) (r : Ble P)
      → Ends schedule (count_down platform schedule observer n r)
  unfolding count_down
  count_down-Ends observer zero r = execute-Ends _
  count_down-Ends observer (suc n) r =
      branch-Ends (wait_ms platform 1000 (shared r)).0 _ _ (count_down-Ends observer n _)
        (abandon-Ends _)

  open_run-Ends :
      (n : ℕ) (observer : Option (Observer P)) (r : Ble P)
      → Ends schedule (open_run platform schedule n observer r)
  unfolding open_run
  open_run-Ends n observer r =
      let begun : Ble P = record r {
        running = true;
        stop_requested = false;
        context = record r.context { execution_observer = observer };
      } in
      branch-Ends (release_all_reports platform begun).0 _ _ (count_down-Ends observer n _)
        (leave-Ends (release_all_reports platform begun).1)

  -- A run is refused exactly where the schedule is not verified, the keyboard is not connected or a
  -- run is on: then the result is an error, nothing is pressed and the keyboard is as before. On the
  -- other calls the run ends with no run on and no observer, has pressed each key only with all keys
  -- released and no stop seen, and has typed the first keys of the schedule in order; if the result is
  -- OK it has typed all of them, the last reports that were sent lift the keyboard and the consumer
  -- keys, and no stop is pending.
  pub run_schedule-Ends :
      (n : ℕ) (observer : Option (Observer P)) (r : Ble P)
      → let o = run_schedule_countdown_observed platform schedule n observer r in
        (((is_verified schedule ≡ false) ⊎ (r.connected ≡ false) ⊎ (r.running ≡ true))
          × (o.0 ≢ ok)
          × (o.1 ≡ [])
          × (o.2 ≡ r))
        ⊎ ((is_verified schedule ≡ true)
            × (r.connected ≡ true)
            × (r.running ≡ false)
            × Ends schedule o)
  unfolding run_schedule_countdown_observed
  run_schedule-Ends n observer r = ground (arith, open_run-Ends n observer r)

-- ===== src/BleHid/Stopping.antt =====
-- What a run does with a stop that came before it.
use typxen.Base.{ℕ, ◌≡◌, true, false, Option, arith}
use typxen.Protocol.Types.{VerifiedSchedule}
use typxen.Protocol.Verify.{is_verified}
use typxen.BleHid.Defs.{Observer, Ble, Platform}
use typxen.BleHid.Run.{open_run, run_schedule_countdown_observed}

module _ {P : Type 0} (platform : Platform P) where
  -- With the keyboard connected and no run on, a run of a verified schedule forgets a stop that was
  -- requested before it began: it goes as if none had been requested.
  pub run_schedule-forgets :
      (schedule : VerifiedSchedule) (countdown_seconds : ℕ) (observer : Option (Observer P))
      (r : Ble P)
      → is_verified schedule ≡ true
      → r.connected ≡ true
      → r.running ≡ false
      → run_schedule_countdown_observed platform schedule countdown_seconds observer
          (record r { stop_requested = true })
        ≡ run_schedule_countdown_observed platform schedule countdown_seconds observer
            (record r { stop_requested = false })
  unfolding run_schedule_countdown_observed open_run
  run_schedule-forgets schedule countdown_seconds observer r v c i = ground (arith)

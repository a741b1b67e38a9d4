-- ===== src/Executor/Reads.antt =====
-- A schedule that the verification accepted is never refused by the executor.
use typxen.Base.{ℕ, zero, suc, ◌+◌, ◌≤◌, ◌≢◌, some, arith}
use typxen.Protocol.Types.{ProtocolError, VerifiedSchedule, ActionRecord}
use typxen.Protocol.Reading.{IsExecutable}
use typxen.Executor.Defs.{
  ExecutorError, ok, not_verified, protocol_read_failed, completed, ExecutorIo, World, Flow, next,
  return, Action, ◌>>◌, finish, notify, progress_event, poll_stop, wait_checked, wait_or_return,
  press_or_return, release_or_return, execute_record, execute_index, execute_from, run_valid, run,
  result,
}
use typxen.Executor.Log.{Post, Triple, seq}

-- The result does not blame the schedule.
pub record Accepts (e : ExecutorError) : Type 0 where
  pub read : e ≢ protocol_read_failed
  pub verified : e ≢ not_verified

module _ {C : Type 0} (io : ExecutorIo C) where
  -- A statement that may end the run, but not for a fault of the schedule.
  abbrev Runs : Action C (Unit {0}) → Type 0
  Runs = Triple (λ _. Unit {0}) (λ _. Unit {0}) (λ e _. Accepts e)

  finish-Runs : Runs (finish io completed ok ProtocolError.ok)
  unfolding finish
  finish-Runs = record { runs = λ w _. ground arith }

  poll_stop-Runs : Runs (poll_stop io)
  unfolding poll_stop finish
  poll_stop-Runs = record { runs = λ w _. ground arith }

  wait-Runs : (delay_us : ℕ) → Runs (wait_or_return io delay_us)
  unfolding wait_or_return wait_checked finish
  wait-Runs delay_us = record { runs = λ w _. ground arith }

  press-Runs : (r : ActionRecord) → Runs (press_or_return io r)
  unfolding press_or_return finish
  press-Runs r = record { runs = λ w _. ground arith }

  release-Runs : Runs (release_or_return io)
  unfolding release_or_return
  release-Runs = record { runs = λ w _. ground arith }

  module _ (schedule : VerifiedSchedule) where
    execute_record-Runs : (index : ℕ) (r : ActionRecord) → Runs (execute_record io schedule index r)
    unfolding execute_record
    execute_record-Runs index r = seq (wait-Runs r.wait_before_key_down_us) (
        seq poll_stop-Runs (
          seq (press-Runs r) (
            seq (wait-Runs r.key_down_hold_us) (
              seq release-Runs (
                seq
                  {m = notify (io.progress r.source_index (index + 1) schedule.header.action_count)
                    (progress_event r.source_index (index + 1) schedule.header.action_count)}
                  (record { runs = λ w _. tt })
                  (seq poll_stop-Runs (wait-Runs r.wait_after_release_us)))))))

    execute_from-Runs :
        (rounds index : ℕ)
        → IsExecutable schedule
        → index + rounds ≤ schedule.header.action_count
        → Runs (execute_from io schedule rounds index)
    unfolding execute_from execute_index
    execute_from-Runs zero index ex h = record { runs = λ w _. tt }
    execute_from-Runs (suc rounds) index ex h =
        let (r, read, safe) = ex.readable index (omega arith) in
        rw (read, execute_index)
          (seq (seq poll_stop-Runs (execute_record-Runs index r))
            (execute_from-Runs rounds (index + 1) ex (omega arith)))

-- On a schedule that `verify` accepted the executor returns neither NOT_VERIFIED nor
-- PROTOCOL_READ_FAILED, whatever the callbacks answer.
pub run-Accepts :
    {C : Type 0} (io : ExecutorIo C) (schedule : VerifiedSchedule) (w : World C)
    → IsExecutable schedule
    → Accepts (run (some io) schedule w).0
unfolding run run_valid
run-Accepts io schedule w ex =
    rw (ex.verified, run_valid)
      (result_of
        ((execute_from io schedule schedule.header.action_count 0
            >> finish io completed ok ProtocolError.ok)
          w)
        ((seq (execute_from-Runs io schedule schedule.header.action_count 0 ex (omega arith))
            (finish-Runs io)).runs
          w tt))
  where
    result_of :
        {C : Type 0} (r : Flow (Unit {0}) × World C)
        → Post (λ _. Unit {0}) (λ e _. Accepts e) r
        → Accepts (result r).0
    result_of (next _, w) h = ground arith
    result_of (return e, w) h = h

-- ===== src/Executor/Defs.antt =====
-- The types of typx_executor.h, and the functions of typx_executor.c over a log of the callbacks.
use typxen.Base.{
  ℕ, zero, suc, ◌+◌, Bool, true, false, Option, none, some, List, ◌∷◌, if◌then◌else◌, ◌==◌, ltb,
}
use typxen.Protocol.Types.{ProtocolError, VerifiedSchedule, ActionRecord, pass, fail}
use typxen.Protocol.Verify.{is_verified, read_record}

pub data ExecutorError : Type 0 where
  ok not_verified clock_error wait_failed key_down_failed release_failed stopped : ExecutorError
  protocol_read_failed interrupted_reset : ExecutorError

pub data TerminalStatus : Type 0 where
  completed aborted failed : TerminalStatus

pub record ExecutorIo (C : Type 0) : Type 0 where
  pub now_us : C → ℕ × C
  pub wait_us : ℕ → C → Bool × C
  pub key_down : ℕ → ℕ → C → Bool × C
  pub release_all : C → Bool × C
  pub stop_requested : C → Bool × C
  pub progress : ℕ → ℕ → ℕ → C → C
  pub terminal : TerminalStatus → ExecutorError → ProtocolError → C → C

-- A call of a callback, with its answer last.
pub data Event : Type 0 where
  clock : ℕ → Event
  wait : ℕ → Bool → Event
  press : ℕ → ℕ → Bool → Event
  release : Bool → Event
  poll : Bool → Event
  progress_event : ℕ → ℕ → ℕ → Event
  terminal_event : TerminalStatus → ExecutorError → ProtocolError → Event

pub record World (C : Type 0) : Type 0 where
  pub context : C
  pub log : List Event

-- What a statement comes to: the next one runs, or the function has returned.
pub data Flow (A : Type 0) : Type 0 where
  next : A → Flow A
  return : ExecutorError → Flow A

abbrev pub Action : Type 0 → Type 0 → Type 0
Action C A = World C → Flow A × World C

module _ {C : Type 0} where
  infixl 5 ◌>>=◌ ◌>>◌
  abbrev pub ◌>>=◌ : {A B : Type 0} → Action C A → (A → Action C B) → Action C B
  ◌>>=◌ m f w = let (r, w') = m w in elim r [ next a ↦ f a w' | return e ↦ (return e, w') ]

  abbrev pub ◌>>◌ : {B : Type 0} → Action C (Unit {0}) → Action C B → Action C B
  m >> k = m >>= λ _. k

  abbrev pub pure : {A : Type 0} → A → Action C A
  pure a w = (next a, w)

  -- The call of a callback, and the event that it leaves in the log.
  abbrev pub call : {A : Type 0} → (C → A × C) → (A → Event) → Action C A
  call f event w =
      let (a, c) = f w.context in (next a, record { context = c; log = event a ∷ w.log })

  abbrev pub notify : (C → C) → Event → Action C (Unit {0})
  notify f event w = (next tt, record { context = f w.context; log = event ∷ w.log })

-- The error that a function returns whose last statement is a return.
abbrev pub result : {C : Type 0} → Flow (Unit {0}) × World C → ExecutorError × World C
result (next _, w) = (ok, w)
result (return e, w) = (e, w)

-- Status and error as `finish` corrects them for the answer of `release_all`.
abbrev pub released_status : Bool → TerminalStatus → TerminalStatus
released_status released status = if released then status else failed

abbrev pub released_error : Bool → ExecutorError → ExecutorError
released_error released e = if released then e else release_failed

abbrev pub wait_status : ExecutorError → TerminalStatus
wait_status stopped = aborted
wait_status _ = failed

abbrev pub is_ok : ExecutorError → Bool
is_ok ok = true
is_ok _ = false

module _ {C : Type 0} (io : ExecutorIo C) where
  open io use {now_us, wait_us, key_down, release_all, stop_requested, progress, terminal}

  -- `return finish(io, status, error, protocol_error)`.
  unfoldable pub finish : TerminalStatus → ExecutorError → ProtocolError → Action C (Unit {0})
  finish status e protocol_error w =
      let (r, c) = release_all w.context in
      let s' = released_status r status in
      let e' = released_error r e in
      (
        return e',
        record {
          context = terminal s' e' protocol_error c;
          log = terminal_event s' e' protocol_error ∷ release r ∷ w.log;
        },
      )

  -- The answer of `wait_checked` behind the call of `wait_us`.
  wait_answer : ℕ → Bool → Action C ExecutorError
  wait_answer before true = do
    after ← call now_us clock
    pure (if ltb after before then clock_error else ok)
  wait_answer before false = do
    stop ← call stop_requested poll
    pure (if stop then stopped else wait_failed)

  wait_unstopped : ℕ → Bool → Action C ExecutorError
  unfolding wait_answer
  wait_unstopped delay_us true = pure stopped
  wait_unstopped delay_us false = do
    before ← call now_us clock
    waited ← call (wait_us delay_us) (wait delay_us)
    wait_answer before waited

  -- `wait_checked`: its result is a value.
  unfoldable pub wait_checked : ℕ → Action C ExecutorError
  unfolding wait_unstopped
  wait_checked delay_us = elim (delay_us == 0) [
    | true ↦ pure ok
    | false ↦ do stop ← call stop_requested poll; wait_unstopped delay_us stop
  ]

  -- `if (io->stop_requested(io->context)) return finish(…);`
  unfoldable pub poll_stop : Action C (Unit {0})
  poll_stop = do
    stop ← call stop_requested poll
    elim stop [ true ↦ finish aborted stopped ProtocolError.ok | false ↦ pure tt ]

  -- `wait_checked`, and the return if it failed.
  unfoldable pub wait_or_return : ℕ → Action C (Unit {0})
  wait_or_return delay_us = do
    e ← wait_checked delay_us
    elim (is_ok e) [ true ↦ pure tt | false ↦ finish (wait_status e) e ProtocolError.ok ]

  unfoldable pub press_or_return : ActionRecord → Action C (Unit {0})
  press_or_return r = do
    down ← call (key_down r.modifier r.keycode) (press r.modifier r.keycode)
    elim down [ true ↦ pure tt | false ↦ finish failed key_down_failed ProtocolError.ok ]

  -- The release after the hold; on a failure it is tried once more, and its answer is ignored.
  unfoldable pub release_or_return : Action C (Unit {0})
  release_or_return w =
      let (r, c) = release_all w.context in
      elim r [
        | true ↦ (next tt, record { context = c; log = release true ∷ w.log })
        | false ↦
            let (r', c') = release_all c in
            (
              return release_failed,
              record {
                context = terminal failed release_failed ProtocolError.ok c';
                log =
                    terminal_event failed release_failed ProtocolError.ok
                    ∷ release r'
                    ∷ release false
                    ∷ w.log;
              },
            )
      ]

  -- The body of the loop behind the read of its record.
  unfoldable pub execute_record : VerifiedSchedule → ℕ → ActionRecord → Action C (Unit {0})
  execute_record schedule index r = do
    wait_or_return r.wait_before_key_down_us
    poll_stop
    press_or_return r
    wait_or_return r.key_down_hold_us
    release_or_return
    notify (progress r.source_index (index + 1) schedule.header.action_count)
        (progress_event r.source_index (index + 1) schedule.header.action_count)
    poll_stop
    wait_or_return r.wait_after_release_us

  -- A round of the loop.
  unfoldable pub execute_index : VerifiedSchedule → ℕ → Action C (Unit {0})
  execute_index schedule index = do
    poll_stop
    elim (read_record schedule index) [
      | fail e ↦ finish failed protocol_read_failed e
      | pass r ↦ execute_record schedule index r
    ]

  -- The loop, with the rounds that are left.
  unfoldable pub execute_from : VerifiedSchedule → ℕ → ℕ → Action C (Unit {0})
  execute_from schedule zero index = pure tt
  execute_from schedule (suc rounds) index = do
    execute_index schedule index
    execute_from schedule rounds (index + 1)

  unfoldable pub run_valid : VerifiedSchedule → World C → ExecutorError × World C
  run_valid schedule w = elim (is_verified schedule) [
    | false ↦ result (finish failed not_verified ProtocolError.not_verified w)
    | true ↦ result (
        (execute_from schedule schedule.header.action_count 0
            >> finish completed ok ProtocolError.ok)
          w)
  ]

-- `typx_executor_run`.
unfoldable pub run :
    {C : Type 0} → Option (ExecutorIo C) → VerifiedSchedule → World C → ExecutorError × World C
unfolding run_valid
run none schedule w = (wait_failed, w)
run (some io) schedule w = run_valid io schedule w

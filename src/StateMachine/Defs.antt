-- ===== src/StateMachine/Defs.antt =====
-- The states, errors and operations of typx_state_machine.c, in the order of the file.
use typxen.Base.{Bool, true, false, not, ◌||◌, Option, none, some, if◌then◌else◌}

pub data State : Type 0 where
  booting wifi_ready bluetooth_advertising bluetooth_connected receiving verifying ready : State
  countdown executing completed aborted error : State

pub State-discrete : Discrete State
State-discrete = hlevel

pub data StateError : Type 0 where
  ok illegal_transition job_incomplete job_not_verified hid_not_connected release_failed :
      StateError

pub record Machine : Type 0 where
  pub state : State
  pub bluetooth_connected : Bool
  pub upload_complete : Bool
  pub job_verified : Bool

-- The `switch` of `transition_allowed`, a clause for each `from == … && to == …` that holds.
pub transition_allowed : State → State → Bool
transition_allowed booting wifi_ready = true
transition_allowed booting error = true
transition_allowed wifi_ready bluetooth_advertising = true
transition_allowed wifi_ready receiving = true
transition_allowed wifi_ready error = true
transition_allowed bluetooth_advertising bluetooth_connected = true
transition_allowed bluetooth_advertising receiving = true
transition_allowed bluetooth_advertising error = true
transition_allowed bluetooth_connected receiving = true
transition_allowed bluetooth_connected bluetooth_advertising = true
transition_allowed bluetooth_connected error = true
transition_allowed receiving verifying = true
transition_allowed receiving wifi_ready = true
transition_allowed receiving bluetooth_advertising = true
transition_allowed receiving bluetooth_connected = true
transition_allowed receiving aborted = true
transition_allowed receiving error = true
transition_allowed verifying ready = true
transition_allowed verifying aborted = true
transition_allowed verifying error = true
transition_allowed ready countdown = true
transition_allowed ready receiving = true
transition_allowed ready aborted = true
transition_allowed ready error = true
transition_allowed countdown executing = true
transition_allowed countdown aborted = true
transition_allowed countdown error = true
transition_allowed executing completed = true
transition_allowed executing aborted = true
transition_allowed executing error = true
transition_allowed completed wifi_ready = true
transition_allowed completed bluetooth_connected = true
transition_allowed completed error = true
transition_allowed aborted wifi_ready = true
transition_allowed aborted bluetooth_connected = true
transition_allowed aborted error = true
transition_allowed error wifi_ready = true
transition_allowed error bluetooth_advertising = true
transition_allowed error error = true
transition_allowed _ _ = false

unfoldable pub boot : Machine → Machine
boot m = record {
  state = booting;
  bluetooth_connected = false;
  upload_complete = false;
  job_verified = false;
}

unfoldable pub set_bluetooth_connected : Machine → Bool → Machine
set_bluetooth_connected m connected = record m { bluetooth_connected = connected }

unfoldable pub set_upload_complete : Machine → Bool → Machine
set_upload_complete m complete = record m {
  upload_complete = complete;
  job_verified = if complete then m.job_verified else false;
}

-- The two tests of `next` in `transition`, as one case split.
enter : Machine → State → Machine × StateError
enter m ready = (m, job_not_verified)
enter m countdown = (m, illegal_transition)
enter m completed = (m, illegal_transition)
enter m aborted = (m, illegal_transition)
enter m error = (m, illegal_transition)
enter m next = (record m { state = next }, ok)

unfoldable pub transition : Machine → State → Machine × StateError
unfolding enter transition_allowed
transition m next =
    if not (transition_allowed m.state next) then (m, illegal_transition) else enter m next

is_verifying : State → Bool
is_verifying verifying = true
is_verifying _ = false

unfoldable pub mark_ready : Machine → Bool → Machine × StateError
unfolding is_verifying
mark_ready m verification_succeeded =
    if not (is_verifying m.state)
    then (m, illegal_transition)
    else if not m.upload_complete
    then (m, job_incomplete)
    else if not verification_succeeded
    then (record m { job_verified = false }, job_not_verified)
    else (record m { job_verified = true; state = ready }, ok)

is_ready : State → Bool
is_ready ready = true
is_ready _ = false

unfoldable pub start : Machine → Machine × StateError
unfolding is_ready
start m =
    if not (is_ready m.state)
    then (m, illegal_transition)
    else if not m.job_verified
    then (m, job_not_verified)
    else if not m.bluetooth_connected
    then (m, hid_not_connected)
    else (record m { state = countdown }, ok)

pub is_terminal : State → Bool
is_terminal completed = true
is_terminal aborted = true
is_terminal error = true
is_terminal _ = false

-- The end of `finish`, with what `release_all` returned.
finish_released : Machine → State → Bool → Machine × StateError
finish_released m terminal_state released = (
  record m { state = if released then terminal_state else error; job_verified = false },
  if released then ok else release_failed,
)

-- `release_all` is a callback on a context: it returns its answer and the context as it left it.
unfoldable pub finish :
    {C : Type 0} → Machine → State → Option (C → Bool × C) → C → Machine × StateError × C
unfolding is_terminal transition_allowed finish_released
finish m terminal_state none context = (m, illegal_transition, context)
finish m terminal_state (some release_all) context =
    if not (is_terminal terminal_state) || not (transition_allowed m.state terminal_state)
    then (m, illegal_transition, context)
    else let (released, context') = release_all context in
      let (m', e) = finish_released m terminal_state released in (m', e, context')

-- ===== src/Safety/Defs.antt =====
-- The states and operations of typx_execution_safety.c, in the order of the file.
use typxen.Base.{
  ℕ, ◌+◌, ◌%◌, ◌^◌, Bool, true, false, not, ◌&&◌, ◌||◌, Option, none, some, if◌then◌else◌, ◌==◌,
  ◌!=◌, leb,
}

abbrev pub release_max_attempts : ℕ
release_max_attempts = 6

pub data HidState : Type 0 where
  disconnected waiting_for_auth waiting_for_report_path releasing confirmed : HidState
  failed_retryable : HidState

pub data HidError : Type 0 where
  none_error hid_not_connected auth_pending auth_failed report_path_pending : HidError
  keyboard_report_failed consumer_report_failed reports_failed : HidError

-- `read_active` gives the marker, or nothing if it returns false.
pub record Marker (C : Type 0) : Type 0 where
  pub read_active : Option (C → Option Bool × C)
  pub write_active : Option (Bool → C → Bool × C)

pub record Safety (C : Type 0) : Type 0 where
  pub marker : Marker C
  pub interrupted_reset : Bool
  pub is_connected : Bool
  pub is_authenticated : Bool
  pub hid_state : HidState
  pub hid_error : HidError
  pub release_attempts : ℕ
  pub connection_generation : ℕ

pub record Snapshot : Type 0 where
  pub connected : Bool
  pub authenticated : Bool
  pub ready : Bool
  pub state : HidState
  pub error : HidError
  pub attempts : ℕ
  pub generation : ℕ

abbrev pub is_waiting_for_report_path : HidState → Bool
is_waiting_for_report_path waiting_for_report_path = true
is_waiting_for_report_path _ = false

abbrev pub is_releasing : HidState → Bool
is_releasing releasing = true
is_releasing _ = false

abbrev pub is_confirmed : HidState → Bool
is_confirmed confirmed = true
is_confirmed _ = false

abbrev pub is_failed_retryable : HidState → Bool
is_failed_retryable failed_retryable = true
is_failed_retryable _ = false

-- `++connection_generation` on a uint32_t, once more if it came to 0.
abbrev pub next_generation : ℕ → ℕ
next_generation g = let g' = (g + 1) % 2 ^ 32 in if g' == 0 then 1 else g'

module _ {C : Type 0} where
  abbrev pub cleared : Marker C → Safety C
  cleared marker = record {
    marker = marker;
    interrupted_reset = false;
    is_connected = false;
    is_authenticated = false;
    hid_state = disconnected;
    hid_error = hid_not_connected;
    release_attempts = 0;
    connection_generation = 0;
  }

  -- The part of `init` behind its tests, on what `read_active` gave.
  init_read : Safety C → (Bool → C → Bool × C) → Option Bool × C → Bool × Safety C × C
  init_read s write (none, c) = (false, s, c)
  init_read s write (some false, c) = (true, s, c)
  init_read s write (some true, c) =
      let (written, c') = write false c in (written, record s { interrupted_reset = true }, c')

  unfoldable pub init : Safety C → Option (Marker C) → C → Bool × Safety C × C
  unfolding init_read
  init s none c = (false, s, c)
  init s (some m) c = elim m.read_active [
    | none ↦ (false, s, c)
    | some read ↦ elim m.write_active [
      | none ↦ (false, s, c)
      | some write ↦ init_read (cleared m) write (read c)
    ]
  ]

  write_marker : Safety C → Bool → C → Bool × C
  write_marker s active c = elim s.marker.write_active [
    | none ↦ (false, c)
    | some write ↦ write active c
  ]

  unfoldable pub begin : Safety C → C → Bool × C
  unfolding write_marker
  begin s c = write_marker s true c

  unfoldable pub finish : Safety C → C → Bool × C
  unfolding write_marker
  finish s c = write_marker s false c

  unfoldable pub interrupted : Safety C → Bool
  interrupted s = s.interrupted_reset

  unfoldable pub connected : Safety C → Safety C × ℕ
  connected s =
      let g = next_generation s.connection_generation in
      (
        record s {
          connection_generation = g;
          is_connected = true;
          is_authenticated = false;
          release_attempts = 0;
          hid_state = waiting_for_auth;
          hid_error = auth_pending;
        },
        g,
      )

  unfoldable pub disconnected_event : Safety C → Safety C
  disconnected_event s = record s {
    connection_generation = next_generation s.connection_generation;
    is_connected = false;
    is_authenticated = false;
    release_attempts = 0;
    hid_state = disconnected;
    hid_error = hid_not_connected;
  }

  unfoldable pub authenticated : Safety C → Bool → Safety C
  authenticated s success = if not s.is_connected then s else record s {
    is_authenticated = success;
    release_attempts = 0;
    hid_state = if success then waiting_for_report_path else failed_retryable;
    hid_error = if success then report_path_pending else auth_failed;
  }

  unfoldable pub begin_release : Safety C → ℕ → Safety C × Bool
  begin_release s generation =
      if not s.is_connected
        || (not s.is_authenticated
            || (generation == 0
                || (generation != s.connection_generation
                    || (leb release_max_attempts s.release_attempts
                        || (not (is_waiting_for_report_path s.hid_state)
                            && not (is_failed_retryable s.hid_state))))))
      then (s, false)
      else (record s { release_attempts = s.release_attempts + 1; hid_state = releasing }, true)

  unfoldable pub complete_release : Safety C → ℕ → Bool → Bool → Safety C × Bool
  complete_release s generation keyboard_released consumer_released =
      if generation == 0
        || (generation != s.connection_generation
            || (not s.is_connected || (not s.is_authenticated || not (is_releasing s.hid_state))))
      then (s, false)
      else if keyboard_released && consumer_released
      then (record s { hid_state = confirmed; hid_error = none_error }, true)
      else (
        record s {
          hid_state = failed_retryable;
          hid_error =
              if not keyboard_released && not consumer_released
              then reports_failed
              else if not keyboard_released
              then keyboard_report_failed
              else consumer_report_failed;
        },
        false,
      )

  unfoldable pub request_retry : Safety C → Safety C × Bool
  request_retry s =
      if not s.is_connected || (not s.is_authenticated || is_releasing s.hid_state)
      then (s, false)
      else if is_confirmed s.hid_state
      then (s, true)
      else (
        record s {
          release_attempts = 0;
          hid_state = waiting_for_report_path;
          hid_error = report_path_pending;
        },
        true,
      )

  unfoldable pub snapshot : Safety C → Snapshot
  snapshot s = record {
    connected = s.is_connected;
    authenticated = s.is_authenticated;
    ready = s.is_connected && (s.is_authenticated && is_confirmed s.hid_state);
    state = s.hid_state;
    error = s.hid_error;
    attempts = s.release_attempts;
    generation = s.connection_generation;
  }

-- ===== src/HidRuntime/Defs.antt =====
-- The types of typx_hid_runtime.h, and the functions of typx_hid_runtime.c but the console's.
use typxen.Base.{
  ℕ, ◌+◌, ◌-◌, Bool, true, false, not, ◌&&◌, ◌||◌, Option, none, some, List, [], ◌∷◌, if◌then◌else◌,
  ◌==◌, leb, replicate,
}
use typxen.Base.Text.{codes}

abbrev pub calibration_max_characters : ℕ
calibration_max_characters = 1080

abbrev pub wait_after_release_ms : ℕ
wait_after_release_ms = 60

abbrev pub release_max_attempts : ℕ
release_max_attempts = 3

pub data HidError : Type 0 where
  ok disconnected busy invalid_argument send_failed wait_failed stopped : HidError

-- A call of a callback, with its answer last.
pub data Event : Type 0 where
  report : List ℕ → Bool → Event
  wait : ℕ → Bool → Event
  count : ℕ → Event

-- The flags, the context of the callbacks and the log, newest first.
pub record Runtime (C : Type 0) : Type 0 where
  pub connected : Bool
  pub running : Bool
  pub stop_requested : Bool
  pub context : C
  pub log : List Event

-- What a callback acts on.
pub record Shared (C : Type 0) : Type 0 where
  pub connected : Bool
  pub running : Bool
  pub stop_requested : Bool
  pub context : C

pub record RuntimeIo (C : Type 0) : Type 0 where
  pub send_report : Option (List ℕ → Shared C → Bool × Shared C)
  pub wait_ms : Option (ℕ → Shared C → Bool × Shared C)
  pub countdown : Option (ℕ → Shared C → Shared C)

abbrev pub is_ok : HidError → Bool
is_ok ok = true
is_ok _ = false

abbrev pub key_report : ℕ → ℕ → List ℕ
key_report modifier keycode = modifier ∷ 0 ∷ keycode ∷ 0 ∷ 0 ∷ 0 ∷ 0 ∷ 0 ∷ []

abbrev pub release_report : List ℕ
release_report = replicate 8 0

-- "abcdefghijklmnopqrstuvwxyz0123456789"
abbrev pub calibration_pattern : List ℕ
calibration_pattern = codes "abcdefghijklmnopqrstuvwxyz0123456789"

abbrev pub shift_sequence : List ℕ
shift_sequence = codes "Aa!_{}"

-- The modifier and the keycode of the report; `none` where the code returns false.
unfoldable pub character_report : ℕ → Option (ℕ × ℕ)
character_report c =
    if leb b'a' c && leb c b'z'
    then some (0, 4 + c - b'a')
    else if leb b'A' c && leb c b'Z'
    then some (2, 4 + c - b'A')
    else if leb b'1' c && leb c b'9'
    then some (0, 0x1e + c - b'1')
    else if c == b'0'
    then some (0, 0x27)
    else if c == b'!'
    then some (2, 0x1e)
    else if c == b'_'
    then some (2, 0x2d)
    else if c == b'{'
    then some (2, 0x2f)
    else if c == b'}'
    then some (2, 0x30)
    else none

unfoldable pub hold_supported : ℕ → Bool
hold_supported hold_ms =
    hold_ms == 8 || (hold_ms == 12 || (hold_ms == 16 || (hold_ms == 20 || hold_ms == 30)))

module _ {C : Type 0} where
  -- `memset(runtime, 0, …)`; the callbacks stand apart from the flags.
  unfoldable pub init : C → Runtime C
  init c = record {
    connected = false;
    running = false;
    stop_requested = false;
    context = c;
    log = [];
  }

  unfoldable pub set_connected : Runtime C → Bool → Runtime C
  set_connected r true = record r { connected = true }
  set_connected r false = record r { connected = false; stop_requested = true; running = false }

  unfoldable pub request_stop : Runtime C → Runtime C
  request_stop r = record r { stop_requested = true }

  unfoldable pub is_idle : Runtime C → Bool
  is_idle r = not r.running

  unfoldable pub can_clear_bonds : Runtime C → Bool
  can_clear_bonds r = not r.running && not r.connected

  abbrev pub shared : Runtime C → Shared C
  shared r = record {
    connected = r.connected;
    running = r.running;
    stop_requested = r.stop_requested;
    context = r.context;
  }

  -- The runtime behind a callback.
  abbrev pub resume : Shared C → List Event → Runtime C
  resume s log = record {
    connected = s.connected;
    running = s.running;
    stop_requested = s.stop_requested;
    context = s.context;
    log = log;
  }

  -- The call of a callback that answers.
  abbrev pub call : (Shared C → Bool × Shared C) → (Bool → Event) → Runtime C → Bool × Runtime C
  call f event r = let (done, s) = f (shared r) in (done, resume s (event done ∷ r.log))

  abbrev pub notify : (Shared C → Shared C) → Event → Runtime C → Runtime C
  notify f event r = resume (f (shared r)) (event ∷ r.log)

-- The callbacks of a valid `io`; `countdown` may be missing.
pub record ValidIo (C : Type 0) : Type 0 where
  pub send_report : List ℕ → Shared C → Bool × Shared C
  pub wait_ms : ℕ → Shared C → Bool × Shared C
  pub countdown : Option (ℕ → Shared C → Shared C)

-- `io_valid`.
unfoldable pub io_valid : {C : Type 0} → RuntimeIo C → Option (ValidIo C)
io_valid io = elim io.send_report [
  | none ↦ none
  | some send ↦ elim io.wait_ms [
    | none ↦ none
    | some pause ↦ some (record { send_report = send; wait_ms = pause; countdown = io.countdown })
  ]
]

-- ===== src/Safety/Invariant.antt =====
-- What holds of the safety state between two calls.
use typxen.Base.{ℕ, ◌^◌, ◌≤◌, ◌<◌, ◌≡◌, ◌≢◌, Bool, true, false, Option, some, arith}
use typxen.Safety.Defs.{
  HidState, disconnected, waiting_for_report_path, releasing, confirmed, none_error, Marker, Safety,
  release_max_attempts, init, connected, disconnected_event, authenticated, begin_release,
  complete_release, request_retry,
}

-- An event of the Bluetooth stack or of the release task.
pub data Op : Type 0 where
  connected_op disconnected_op retry_op : Op
  authenticated_op : Bool → Op
  begin_release_op : ℕ → Op
  complete_release_op : ℕ → Bool → Bool → Op

abbrev pub NeedsAuthentication : HidState → Type 0
NeedsAuthentication waiting_for_report_path = Unit
NeedsAuthentication releasing = Unit
NeedsAuthentication confirmed = Unit
NeedsAuthentication _ = ⊥

module _ {C : Type 0} where
  unfoldable pub step : Op → Safety C → Safety C
  unfolding connected disconnected_event authenticated begin_release complete_release request_retry
  step connected_op s = (connected s).0
  step disconnected_op s = disconnected_event s
  step retry_op s = (request_retry s).0
  step (authenticated_op success) s = authenticated s success
  step (begin_release_op g) s = (begin_release s g).0
  step (complete_release_op g k c) s = (complete_release s g k c).0

  pub record IsValid (s : Safety C) : Type 0 where
    pub offline : s.is_connected ≡ false → s.hid_state ≡ disconnected
    pub online : s.is_connected ≡ true → s.connection_generation ≢ 0
    pub linked : s.is_authenticated ≡ true → s.is_connected ≡ true
    pub gated : NeedsAuthentication s.hid_state → s.is_authenticated ≡ true
    pub capped : s.release_attempts ≤ release_max_attempts
    pub clear : s.hid_error ≡ none_error → s.hid_state ≡ confirmed
    pub cleared : s.hid_state ≡ confirmed → s.hid_error ≡ none_error
    pub word : s.connection_generation < 2 ^ 32

  -- A start that finds the marker, whether it succeeds or not, leaves a valid state; it fails only
  -- if a callback is missing or fails.
  pub init-IsValid :
      (s : Safety C) (m : Marker C) (c : C) (r : C → Option Bool × C) (w : Bool → C → Bool × C)
      → m.read_active ≡ some r
      → m.write_active ≡ some w
      → IsValid (init s (some m) c).1
  unfolding init
  init-IsValid s m c r w er ew = ground arith

  pub step-IsValid : (op : Op) (s : Safety C) → IsValid s → IsValid (step op s)
  unfolding step
  step-IsValid op s v = ground arith

-- ===== src/StateMachine/Gates.antt =====
-- What each operation of the state machine needs and does, on every branch.
use typxen.Base.{◌≡◌, ◌≢◌, Bool, true, some, arith}
use typxen.StateMachine.Defs.{
  State, ready, countdown, executing, completed, verifying, Machine, boot, set_bluetooth_connected,
  set_upload_complete, transition, mark_ready, start, finish,
}

-- A call of the interface, with the callback's answer for `finish`.
pub data Op : Type 0 where
  boot_op start_op : Op
  connected_op complete_op mark_ready_op : Bool → Op
  transition_op : State → Op
  finish_op : State → Bool → Op

unfoldable pub step : Op → Machine → Machine
unfolding boot set_bluetooth_connected set_upload_complete transition mark_ready start finish
step boot_op m = boot m
step start_op m = (start m).0
step (connected_op b) m = set_bluetooth_connected m b
step (complete_op b) m = set_upload_complete m b
step (mark_ready_op b) m = (mark_ready m b).0
step (transition_op s) m = (transition m s).0
step (finish_op s released) m = (finish m s (some (λ (c : Unit {0}). (released, c))) tt).0

-- The call and the machine before it, for each state that has a gate.
abbrev pub Gate : State → Op → Machine → Type 0
Gate ready op m = (op ≡ mark_ready_op true) × (m.state ≡ verifying) × (m.upload_complete ≡ true)
Gate countdown op m =
    (op ≡ start_op) × (m.state ≡ ready) × (m.job_verified ≡ true) × (m.bluetooth_connected ≡ true)
Gate executing op m = (op ≡ transition_op executing) × (m.state ≡ countdown)
Gate completed op m = (op ≡ finish_op completed true) × (m.state ≡ executing)
Gate _ op m = Unit

-- A call that changes the state passes the gate of the state that it enters.
pub step-Gate : (op : Op) (m : Machine) → (step op m).state ≢ m.state → Gate (step op m).state op m
unfolding step
step-Gate op m h = ground arith

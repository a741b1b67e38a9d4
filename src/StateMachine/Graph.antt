-- ===== src/StateMachine/Graph.antt =====
-- Every call follows the transition table.
use typxen.Base.{◌≡◌, ◌⊎◌, true, arith}
use typxen.StateMachine.Defs.{Machine, transition_allowed}
use typxen.StateMachine.Gates.{Op, boot_op, step}

-- A call leaves the state, moves it along an edge of the transition table, or is a boot.
pub step-transition_allowed :
    (op : Op) (m : Machine)
    → ((step op m).state ≡ m.state)
      ⊎ (transition_allowed m.state (step op m).state ≡ true)
      ⊎ (op ≡ boot_op)
unfolding step
step-transition_allowed op m = ground arith

-- ===== src/StateMachine/Tests.antt =====
-- Runs of the state machine.
use typxen.Base.{◌⊎◌, ◌≡◌, refl, true, List, [], ◌∷◌}
use typxen.Base.Occurs.{Occur}
use typxen.StateMachine.Defs.{
  wifi_ready, receiving, verifying, executing, completed, error, Machine, ready, countdown,
  transition_allowed,
}
use typxen.StateMachine.Gates.{
  Op, start_op, connected_op, complete_op, mark_ready_op, transition_op, finish_op, step, Gate,
  step-Gate, boot_op,
}
use typxen.StateMachine.Graph.{step-transition_allowed}
use typxen.StateMachine.Traces.{run, needs, run-needs}

abbrev blank : Machine
blank = record {
  state = error;
  bluetooth_connected = true;
  upload_complete = true;
  job_verified = true;
}

-- Newest first.
abbrev job : List Op
job =
    finish_op completed true
    ∷ transition_op executing
    ∷ start_op
    ∷ connected_op true
    ∷ mark_ready_op true
    ∷ complete_op true
    ∷ transition_op verifying
    ∷ transition_op receiving
    ∷ transition_op wifi_ready
    ∷ []

job_completes : (run blank job).state ≡ completed
unfolding run
job_completes = refl

run-needs_example : Occur (needs (run blank job).state) job
run-needs_example = run-needs blank job

step-Gate_example : Gate countdown start_op (record blank { state = ready })
unfolding step
step-Gate_example = step-Gate start_op (record blank { state = ready }) (λ e. cc)

abbrev running : Machine
running = record blank { state = executing }

step-transition_allowed_example :
    ((step start_op running).state ≡ executing)
    ⊎ (transition_allowed executing (step start_op running).state ≡ true)
    ⊎ (start_op ≡ boot_op)
step-transition_allowed_example = step-transition_allowed start_op running

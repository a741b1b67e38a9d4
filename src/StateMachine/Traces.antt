-- ===== src/StateMachine/Traces.antt =====
-- What must have happened before the machine is ready, counts down, executes or has completed.
use typxen.Base.{◌≡◌, inl, inr, true, List, [], ◌∷◌, arith, ap, ◌⊎◌}
use typxen.Base.Occurs.{Occur, all, skip, keep}
use typxen.StateMachine.Defs.{
  State, ready, countdown, executing, completed, State-discrete, Machine, boot,
}
use typxen.StateMachine.Gates.{
  Op, complete_op, mark_ready_op, start_op, transition_op, finish_op, step, Gate, step-Gate,
}

-- The machine after the calls `past`, newest first, from a boot.
unfoldable pub run : Machine → List Op → Machine
unfolding boot step
run m [] = boot m
run m (op ∷ past) = step op (run m past)

-- The calls that a state presupposes, newest first.
abbrev verified : List Op
verified = mark_ready_op true ∷ complete_op true ∷ []

abbrev pub needs : State → List Op
needs ready = verified
needs countdown = start_op ∷ verified
needs executing = transition_op executing ∷ start_op ∷ verified
needs completed = finish_op completed true ∷ transition_op executing ∷ start_op ∷ verified
needs _ = []

record History (m : Machine) (past : List Op) : Type 0 where
  uploaded : m.upload_complete ≡ true → Occur (complete_op true ∷ []) past
  reached : Occur (needs m.state) past

-- Only `set_upload_complete` completes an upload.
step-upload_complete :
    (op : Op) (m : Machine)
    → (step op m).upload_complete ≡ true
    → (op ≡ complete_op true) ⊎ (m.upload_complete ≡ true)
unfolding step
step-upload_complete op m h = ground arith

enter-Occur :
    (to : State) (op : Op) (m : Machine) (past : List Op)
    → Gate to op m
    → History m past
    → Occur (needs to) (op ∷ past)
enter-Occur ready op m past g h = rw g.0 (keep (h.uploaded g.2))
enter-Occur countdown op m past g h = rw g.0 (keep (rw (ap needs g.1) at h.reached))
enter-Occur executing op m past g h = rw g.0 (keep (rw (ap needs g.1) at h.reached))
enter-Occur completed op m past g h = rw g.0 (keep (rw (ap needs g.1) at h.reached))
enter-Occur _ op m past g h = all

step-reached :
    (op : Op) (m : Machine) (past : List Op)
    → History m past
    → Occur (needs (step op m).state) (op ∷ past)
step-reached op m past h = elim (State-discrete (step op m).state m.state) [
  | yes same ↦ rw same (skip h.reached)
  | no moved ↦ enter-Occur (step op m).state op m past (step-Gate op m moved) h
]

step-uploaded :
    (op : Op) (m : Machine) (past : List Op)
    → History m past
    → (step op m).upload_complete ≡ true
    → Occur (complete_op true ∷ []) (op ∷ past)
step-uploaded op m past h u = elim (step-upload_complete op m u) [
  | inl now ↦ rw now (keep all)
  | inr before ↦ skip (h.uploaded before)
]

run-History : (m : Machine) (past : List Op) → History (run m past) past
unfolding run
run-History m [] = record { uploaded = λ e. cc; reached = all }
run-History m (op ∷ past) =
    let before = run-History m past in
    record {
      uploaded = step-uploaded op (run m past) past before;
      reached = step-reached op (run m past) past before;
    }

-- After any calls from a boot, the calls that the state presupposes have been made, in order: the
-- upload was completed and then marked ready for `ready`, and after that `start` was called for
-- `countdown`, the transition for `executing`, and a `finish` that released the keys for
-- `completed`.
pub run-needs : (m : Machine) (past : List Op) → Occur (needs (run m past).state) past
run-needs m past = (run-History m past).reached

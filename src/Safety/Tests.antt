-- ===== src/Safety/Tests.antt =====
-- A connection whose first release fails and whose second is confirmed.
use typxen.Base.{◌≡◌, refl, Bool, true, false, some, List, [], ◌∷◌, arith}
use typxen.Base.Occurs.{Occur}
use typxen.Safety.Defs.{Marker, cleared, init, snapshot}
use typxen.Safety.Invariant.{
  Op, connected_op, authenticated_op, begin_release_op, complete_release_op, step, IsValid,
  step-IsValid,
}
use typxen.Safety.Ready.{run, session, confirmation_of, ready_needs}

-- The context is the stored marker.
abbrev stored : Marker Bool
stored = record {
  read_active = some (λ active. (some active, active));
  write_active = some (λ active _. (true, active));
}

interrupted_start :
    let (done, s, marker) = init (cleared stored) (some stored) true in
    (done ≡ true) × (s.interrupted_reset ≡ true) × (marker ≡ false)
unfolding init
interrupted_start = (refl, refl, refl)

-- Newest first.
abbrev calls : List Op
calls =
    complete_release_op 1 true true
    ∷ begin_release_op 1
    ∷ complete_release_op 1 true false
    ∷ begin_release_op 1
    ∷ authenticated_op true
    ∷ connected_op
    ∷ []

ready_needs_example :
    Occur (confirmation_of (run (cleared stored) calls).connection_generation) (session calls)
unfolding run snapshot
ready_needs_example = ready_needs (cleared stored) calls refl refl refl refl

step-IsValid_example : IsValid (step connected_op (cleared stored))
step-IsValid_example = step-IsValid connected_op (cleared stored) (ground arith)

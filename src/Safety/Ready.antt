-- ===== src/Safety/Ready.antt =====
-- The snapshot says ready only after a confirmed release on the present connection.
use typxen.Base.{ℕ, ◌≡◌, ◌⊎◌, inl, inr, true, false, List, [], ◌∷◌, arith, refl, sym, subst}
use typxen.Base.Occurs.{Occur, all, skip, keep}
use typxen.Safety.Defs.{disconnected, releasing, confirmed, Safety, snapshot}
use typxen.Safety.Invariant.{
  Op, connected_op, disconnected_op, retry_op, authenticated_op, begin_release_op,
  complete_release_op, step,
}

-- The calls since the connection last changed, that change included. Newest first.
abbrev pub session : List Op → List Op
session [] = []
session (connected_op ∷ past) = connected_op ∷ []
session (disconnected_op ∷ past) = disconnected_op ∷ []
session (retry_op ∷ past) = retry_op ∷ session past
session (authenticated_op b ∷ past) = authenticated_op b ∷ session past
session (begin_release_op g ∷ past) = begin_release_op g ∷ session past
session (complete_release_op g k c ∷ past) = complete_release_op g k c ∷ session past

-- The calls that leave the connection as it is.
abbrev StaysConnected : Op → Type 0
StaysConnected connected_op = ⊥
StaysConnected disconnected_op = ⊥
StaysConnected _ = Unit

session-cons :
    (op : Op) (past : List Op) → StaysConnected op → session (op ∷ past) ≡ op ∷ session past
session-cons connected_op past h = absurd h
session-cons disconnected_op past h = absurd h
session-cons op past h = refl

abbrev pub login : List Op
login = authenticated_op true ∷ connected_op ∷ []

abbrev pub release_of : ℕ → List Op
release_of g = begin_release_op g ∷ login

abbrev pub confirmation_of : ℕ → List Op
confirmation_of g = complete_release_op g true true ∷ release_of g

module _ {C : Type 0} where
  -- The state after the calls `past`, newest first.
  unfoldable pub run : Safety C → List Op → Safety C
  unfolding step
  run s [] = s
  run s (op ∷ past) = step op (run s past)

  record History (s : Safety C) (past : List Op) : Type 0 where
    open_link : s.is_connected ≡ true → Occur (connected_op ∷ []) (session past)
    logged_in : s.is_authenticated ≡ true → Occur login (session past)
    begun : s.hid_state ≡ releasing → Occur (release_of s.connection_generation) (session past)
    done : s.hid_state ≡ confirmed → Occur (confirmation_of s.connection_generation) (session past)

  -- How each flag of the new state came about, for a call that leaves the connection as it is.
  step_link :
      (op : Op) (s : Safety C)
      → StaysConnected op
      → (step op s).is_connected ≡ true
      → s.is_connected ≡ true
  unfolding step
  step_link op s stays e = ground arith

  step_login :
      (op : Op) (s : Safety C)
      → StaysConnected op
      → (step op s).is_authenticated ≡ true
      → ((op ≡ authenticated_op true) × (s.is_connected ≡ true)) ⊎ (s.is_authenticated ≡ true)
  unfolding step
  step_login op s stays e = ground arith

  step_begun :
      (op : Op) (s : Safety C)
      → StaysConnected op
      → (step op s).hid_state ≡ releasing
      → ((op ≡ begin_release_op (step op s).connection_generation) × (s.is_authenticated ≡ true))
        ⊎ ((s.hid_state ≡ releasing)
            × ((step op s).connection_generation ≡ s.connection_generation))
  unfolding step
  step_begun op s stays e = ground arith

  step_done :
      (op : Op) (s : Safety C)
      → StaysConnected op
      → (step op s).hid_state ≡ confirmed
      → ((step op s).connection_generation ≡ s.connection_generation)
        × (((op ≡ complete_release_op s.connection_generation true true)
              × (s.hid_state ≡ releasing))
            ⊎ (s.hid_state ≡ confirmed))
  unfolding step
  step_done op s stays e = ground arith

  stay-History :
      (op : Op) (s : Safety C) (past : List Op)
      → StaysConnected op
      → History s past
      → History (step op s) (op ∷ past)
  stay-History op s past stays h = record {
    open_link = λ e. rw here (skip (h.open_link (step_link op s stays e)));
    logged_in = λ e. rw here (elim (step_login op s stays e) [
      | inl now ↦ rw now.0 (keep (h.open_link now.1))
      | inr before ↦ skip (h.logged_in before)
    ]);
    begun = λ e. rw here (elim (step_begun op s stays e) [
      | inl now ↦
          subst (λ o. Occur (release_of (step op s).connection_generation) (o ∷ session past))
            (sym now.0) (keep (h.logged_in now.1))
      | inr before ↦ rw before.1 (skip (h.begun before.0))
    ]);
    done = λ e.
        let now = step_done op s stays e in
        rw (here, now.0)
          (elim now.1 [
            | inl ends ↦
                subst (λ o. Occur (confirmation_of s.connection_generation) (o ∷ session past))
                  (sym ends.0) (keep (h.begun ends.1))
            | inr before ↦ skip (h.done before)
          ]);
  }
    where
      here : session (op ∷ past) ≡ op ∷ session past
      here = session-cons op past stays

  step-History :
      (op : Op) (s : Safety C) (past : List Op) → History s past → History (step op s) (op ∷ past)
  unfolding step
  step-History connected_op s past h = record {
    open_link = λ e. keep all;
    logged_in = λ e. cc;
    begun = λ e. cc;
    done = λ e. cc;
  }
  step-History disconnected_op s past h = record {
    open_link = λ e. cc;
    logged_in = λ e. cc;
    begun = λ e. cc;
    done = λ e. cc;
  }
  step-History op s past h = stay-History op s past tt h

  run-History :
      (s : Safety C) (past : List Op)
      → s.is_connected ≡ false
      → s.is_authenticated ≡ false
      → s.hid_state ≡ disconnected
      → History (run s past) past
  unfolding run
  run-History s [] c a d = record {
    open_link = λ e. cc;
    logged_in = λ e. cc;
    begun = λ e. cc;
    done = λ e. cc;
  }
  run-History s (op ∷ past) c a d = step-History op (run s past) past (run-History s past c a d)

  -- From a state with no connection, as `init` leaves it, whatever calls follow: where the snapshot
  -- says ready, then since the last change of the connection the host was authenticated, after
  -- that a release was begun for the present generation, and after that both reports of a release
  -- of this generation were confirmed.
  pub ready_needs :
      (s : Safety C) (past : List Op)
      → s.is_connected ≡ false
      → s.is_authenticated ≡ false
      → s.hid_state ≡ disconnected
      → (snapshot (run s past)).ready ≡ true
      → Occur (confirmation_of (run s past).connection_generation) (session past)
  unfolding snapshot
  ready_needs s past c a d e = (run-History s past c a d).done (ground arith)

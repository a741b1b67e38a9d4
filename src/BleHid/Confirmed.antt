-- ===== src/BleHid/Confirmed.antt =====
-- That the task ends, and how.
use typxen.Base.{
  ℕ, zero, suc, ◌+◌, ◌≤◌, ◌<◌, ◌≡◌, ◌≢◌, ◌⊎◌, inr, refl, Bool, true, false, Option, none, some,
  arith, not, if◌then◌else◌,
}
use typxen.Base.Text.{same_text}
use typxen.Safety.Defs.{begin_release, complete_release, snapshot}
use typxen.HidRuntime.Defs.{Shared, shared}
use typxen.BleHid.Defs.{Service, Ble, Platform, send_report, send_consumer_report}
use typxen.BleHid.Sent.{AllLifted}
use typxen.BleHid.Release.{
  safety_of, with_safety, no_more, pause, attempt, release_task_loop, safety_release_task,
  retry_delay_ms, initial_delay_ms, forget_task, forget_last,
}

-- While the task waits, the connection may be lost or made anew, which counts its generation up; but
-- no retry is requested and the host is not authenticated once more.
abbrev pub Quiet : {P : Type 0} → Platform P → Type 0
Quiet {P} platform =
    (ticks : ℕ) (s : Shared (Service P))
    → let before = s.context.execution_safety in
      let after = (platform.delay ticks s).context.execution_safety in
      (after ≡ before) ⊎ (after.connection_generation ≢ before.connection_generation)

-- No attempt of this generation is permitted.
abbrev pub Refused : {P : Type 0} → ℕ → Ble P → Type 0
Refused generation r = (begin_release (safety_of r) generation).1 ≡ false

-- The task ended with a release that is confirmed, both reports sent, or where no attempt of its
-- generation is permitted any more.
pub record Over {P : Type 0} (generation : ℕ) (r : Ble P) : Type 0 where
  pub outcome :
      ((snapshot (safety_of r)).ready ≡ true × AllLifted r.context.sent) ⊎ Refused generation r

-- The task returns, in a state of which `Q` holds.
abbrev pub Finishes : {P : Type 0} → (Ble P → Type 0) → Option (Ble P) → Type 0
Finishes Q none = ⊥
Finishes Q (some r) = Q r

-- The task is over, and it is not the scheduled one any more.
pub record Unscheduled {P : Type 0} (generation : ℕ) (r : Ble P) : Type 0 where
  pub over : Over generation r
  pub next : generation ≢ 0 → r.context.safety_task_generation ≢ generation

-- Enough fuel: a round for each attempt that is left and one more, or one if the generation is past.
abbrev Enough : {P : Type 0} → ℕ → ℕ → Ble P → Type 0
Enough fuel generation r =
    (6 ≤ fuel + (safety_of r).release_attempts) ⊎ ((safety_of r).connection_generation ≢ generation)

module _ {P : Type 0} (platform : Platform P) (generation : ℕ) where
  attempt-cases :
      (r : Ble P)
      → (begin_release (safety_of r) generation).1 ≡ true
      → let r' =
          attempt platform generation (with_safety r (begin_release (safety_of r) generation).0) in
        (((snapshot (safety_of r')).ready ≡ true) × AllLifted r'.context.sent)
        ⊎ (((snapshot (safety_of r')).ready ≡ false)
            × ((safety_of r').release_attempts ≡ (safety_of r).release_attempts + 1)
            × ((safety_of r').connection_generation ≡ generation)
            × (((safety_of r').release_attempts < 6) ⊎ Refused generation r')
            × ((safety_of r').is_connected ≡ true))
  unfolding attempt begin_release complete_release snapshot send_report send_consumer_report
      same_text
  attempt-cases r h = ground arith

  abbrev begun_round : Ble P → Ble P
  begun_round r =
      attempt platform generation (with_safety r (begin_release (safety_of r) generation).0)

  -- A round that stops is over.
  no_more-Over :
      (r : Ble P)
      → (begin_release (safety_of r) generation).1 ≡ true
      → no_more generation (snapshot (safety_of (begun_round r))) ≡ true
      → Over generation (begun_round r)
  unfolding begin_release snapshot
  no_more-Over r b h = record { outcome = ground (arith, attempt-cases r b) }

  refused-Over :
      (r : Ble P)
      → (begin_release (safety_of r) generation).1 ≡ false
      → Over generation (with_safety r (begin_release (safety_of r) generation).0)
  unfolding begin_release
  refused-Over r b = record { outcome = inr (ground (arith, b)) }

  -- Behind a round that goes on and its wait there still is enough fuel.
  Enough-pause :
      (fuel : ℕ) (r : Ble P)
      → Quiet platform
      → Enough (suc fuel) generation r
      → (begin_release (safety_of r) generation).1 ≡ true
      → no_more generation (snapshot (safety_of (begun_round r))) ≡ false
      → Enough fuel generation (pause platform retry_delay_ms (begun_round r))
  unfolding begin_release snapshot
  Enough-pause fuel r quiet enough b h = ground (
    arith,
    attempt-cases r b,
    quiet (platform.ms_to_ticks retry_delay_ms) (shared (begun_round r)),
  )

  Enough-zero :
      (r : Ble P) → Enough 0 generation r → (begin_release (safety_of r) generation).1 ≡ true → ⊥
  unfolding begin_release
  Enough-zero r enough b = ground (arith, b)

  round-Finishes :
      (begun stops : Bool) (r r' : Ble P) (rest : Option (Ble P))
      → (begun ≡ false → Over generation r)
      → (begun ≡ true → stops ≡ true → Over generation r')
      → (begun ≡ true → stops ≡ false → Finishes (Over generation) rest)
      → Finishes (Over generation) (if not begun then some r else if stops then some r' else rest)
  round-Finishes false stops r r' rest h h' k = h refl
  round-Finishes true true r r' rest h h' k = h' refl refl
  round-Finishes true false r r' rest h h' k = k refl refl

  release_task_loop-Finishes :
      (fuel : ℕ) (r : Ble P)
      → Quiet platform
      → Enough fuel generation r
      → Finishes (Over generation) (release_task_loop platform (suc fuel) generation r)
  unfolding release_task_loop
  release_task_loop-Finishes zero r quiet enough =
      round-Finishes (begin_release (safety_of r) generation).1 _ _ _ none (refused-Over r)
        (λ b. absurd (Enough-zero r enough b)) (λ b. absurd (Enough-zero r enough b))
  release_task_loop-Finishes (suc fuel) r quiet enough =
      round-Finishes (begin_release (safety_of r) generation).1 _ _ _ _ (refused-Over r)
        (no_more-Over r)
        (λ b h. release_task_loop-Finishes fuel _ quiet (Enough-pause fuel r quiet enough b h))

  forget_task-Unscheduled :
      (r : Ble P) → Over generation r → Unscheduled generation (forget_task generation r)
  forget_task-Unscheduled r h = record {
    over = record { outcome = ground (arith, h.outcome) };
    next = λ nonzero. ground (arith, nonzero);
  }

  forget_last-Finishes :
      (o : Option (Ble P))
      → Finishes (Over generation) o
      → Finishes (Unscheduled generation) (forget_last generation o)
  forget_last-Finishes none h = h
  forget_last-Finishes (some r) h = forget_task-Unscheduled r h

  -- Over a quiet platform the task ends, whatever the state that it is started in: with the release
  -- confirmed and both reports sent, or where no attempt of its generation is permitted; and if its
  -- generation is not 0, it is not the scheduled task any more.
  pub safety_release_task-Finishes :
      (r : Ble P)
      → Quiet platform
      → Finishes (Unscheduled generation) (safety_release_task platform generation r)
  unfolding safety_release_task
  safety_release_task-Finishes r quiet =
      forget_last-Finishes _
        (release_task_loop-Finishes 6 (pause platform initial_delay_ms r) quiet (omega arith))

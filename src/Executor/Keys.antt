-- ===== src/Executor/Keys.antt =====
-- What every call of `typx_executor_run` does.
use typxen.Base.{
  ◌≡◌, refl, sym, subst, inl, inr, true, false, some, List, [], ◌∷◌, arith, Bool-cases,
}
use typxen.Protocol.Types.{ProtocolError, VerifiedSchedule}
use typxen.Protocol.Verify.{is_verified}
use typxen.Executor.Defs.{
  ExecutorError, ok, not_verified, completed, failed, ExecutorIo, Event, World, Flow, next, return,
  finish, execute_from, run_valid, run, result,
}
use typxen.Executor.Log.{Key, typed, Running, Final, Done, Post, finish-Final, finish-Done}
use typxen.Executor.Ends.{
  keys_from, Pressed, press_all, Pressed-press_all, EndedWithin, execute_from-Triple,
}

-- The keys of a schedule, in order.
abbrev pub keys_of : VerifiedSchedule → List Key
keys_of schedule = keys_from schedule schedule.header.action_count 0

-- What a run that began with an empty log has done, by its result.
pub record Ran (e : ExecutorError) (schedule : VerifiedSchedule) (after : List Key)
    (log : List Event) : Type 0 where
  pub final : Final e after log
  pub in_order : Pressed [] (keys_of schedule) after
  pub complete : e ≡ ok → (is_verified schedule ≡ true) × (after ≡ press_all [] (keys_of schedule))

Pressed-self : (all : List Key) → Pressed [] all []
Pressed-self [] = refl
Pressed-self (k ∷ all) = inl refl

module _ {C : Type 0} (io : ExecutorIo C) (schedule : VerifiedSchedule) where
  abbrev Returns : Flow (Unit {0}) × World C → Type 0
  Returns r = (after : List Key) × Ran (result r).0 schedule after (result r).1.log

  finish_of :
      (keys : List Key) (r : Flow (Unit {0}) × World C)
      → is_verified schedule ≡ true
      → keys ≡ press_all [] (keys_of schedule)
      → Post (λ _. ⊥) (λ e w. Final e keys w.log) r
      → Returns r
  finish_of keys (next _, w) v is h = absurd h
  finish_of keys (return e, w) v is h = (
    keys,
    record {
      final = h;
      in_order = rw is (Pressed-press_all [] (keys_of schedule));
      complete = λ _. (v, is);
    },
  )

  loop_of :
      (r : Flow (Unit {0})) (w : World C)
      → is_verified schedule ≡ true
      → Post
          (λ w'. Running false (press_all [] (keys_of schedule)) w'.log)
          (EndedWithin io schedule [] (keys_of schedule))
          (r, w)
      → Returns
          (elim r [ next a ↦ finish io completed ok ProtocolError.ok w | return e ↦ (return e, w) ])
  loop_of (next _) w v h =
      finish_of (press_all [] (keys_of schedule)) (finish io completed ok ProtocolError.ok w) v refl
        (finish-Final io completed ok ProtocolError.ok (press_all [] (keys_of schedule)) w h.opens)
  loop_of (return e) w v (after, d, p) =
      (after, record { final = d.final; in_order = p; complete = λ q. absurd (d.unfinished q) })

  run_valid-Ran :
      (w : World C)
      → w.log ≡ []
      → (after : List Key) × Ran
          (run_valid io schedule w).0
          schedule
          after
          (run_valid io schedule w).1.log
  unfolding run_valid
  run_valid-Ran w fresh = elim (Bool-cases (is_verified schedule)) [
    | inl v ↦
        rw (v, run_valid)
          (loop_of (execute_from io schedule schedule.header.action_count 0 w).0
            (execute_from io schedule schedule.header.action_count 0 w).1 v
            ((execute_from-Triple io schedule schedule.header.action_count 0 []).runs w
              (ground (arith, fresh))))
    | inr v ↦
        rw (v, run_valid)
          (refused (finish io failed not_verified ProtocolError.not_verified w) (
            finish-Done io failed not_verified ProtocolError.not_verified [] w
              (ground (arith, fresh)) (λ q. cc)))
  ]
    where
      refused :
          (r : Flow (Unit {0}) × World C) → Post (λ _. ⊥) (λ e w. Done e [] w.log) r → Returns r
      refused (next _, w) h = absurd h
      refused (return e, w) h = (
        [],
        record {
          final = h.final;
          in_order = Pressed-self (keys_of schedule);
          complete = λ q. absurd (h.unfinished q);
        },
      )

  -- A run from an empty log, whatever the callbacks answer: each press finds all keys released, no
  -- stop seen and the run not ended; the last two calls are a release and the one notice of the
  -- end, and a release that failed there is the result; no key is left down unless a release
  -- failed; the keys pressed are the first ones of the schedule, in order, and all of them if the
  -- result is OK, which only a verified schedule gives.
  pub run-Ran :
      (w : World C)
      → w.log ≡ []
      → let (e, w') = run (some io) schedule w in Ran e schedule (typed w'.log) w'.log
  unfolding run
  run-Ran w fresh =
      let (after, ran) = run_valid-Ran w fresh in
      subst (λ keys. Ran (run_valid io schedule w).0 schedule keys (run_valid io schedule w).1.log)
        (sym ran.final.same) ran

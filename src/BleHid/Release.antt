-- ===== src/BleHid/Release.antt =====
-- The task that releases the keys after a connection, and who starts it.
use typxen.Base.{
  ℕ, zero, suc, Bool, true, false, not, ◌||◌, Option, none, some, if◌then◌else◌, ◌==◌, ◌!=◌, leb,
}
use typxen.Safety.Defs.{Safety, Snapshot, begin_release, complete_release, request_retry, snapshot}
use typxen.HidRuntime.Defs.{shared, resume, release_report}
use typxen.BleHid.Defs.{Ble, Platform, consumer_release, send_report, send_consumer_report}

abbrev pub initial_delay_ms : ℕ
initial_delay_ms = 250

abbrev pub retry_delay_ms : ℕ
retry_delay_ms = 500

-- A round takes one of the attempts, of which there are six; the last round is refused.
abbrev pub release_rounds : ℕ
release_rounds = suc typxen.Safety.Defs.release_max_attempts

module _ {P : Type 0} where
  abbrev pub safety_of : Ble P → Safety P
  safety_of r = r.context.execution_safety

  abbrev pub with_safety : Ble P → Safety P → Ble P
  with_safety r s = record r { context = record r.context { execution_safety = s } }

  abbrev pub with_generation : Ble P → ℕ → Ble P
  with_generation r g = record r { context = record r.context { safety_task_generation = g } }

  -- `if (s_safety_task_generation == generation) s_safety_task_generation = 0u;`
  abbrev pub forget_task : ℕ → Ble P → Ble P
  forget_task generation r =
      if r.context.safety_task_generation == generation then with_generation r 0 else r

  abbrev pub forget_last : ℕ → Option (Ble P) → Option (Ble P)
  forget_last generation none = none
  forget_last generation (some r) = some (forget_task generation r)

-- The task does not go on: the release is confirmed, or no attempt is left to it.
abbrev pub no_more : ℕ → Snapshot → Bool
no_more generation status =
    status.ready
    || (status.generation != generation
        || (not status.connected || leb typxen.Safety.Defs.release_max_attempts status.attempts))

module _ {P : Type 0} (platform : Platform P) where
  open platform use {delay, ms_to_ticks, create_safety_task}

  abbrev pub pause : ℕ → Ble P → Ble P
  pause ms r = resume (delay (ms_to_ticks ms) (shared r)) r.log

  -- The part of a round behind `typx_execution_safety_begin_release`, up to the snapshot.
  unfoldable pub attempt : ℕ → Ble P → Ble P
  unfolding send_report send_consumer_report complete_release
  attempt generation r =
      let (keyboard_released, s) = send_report platform release_report (shared r) in
      let (consumer_released, s') = send_consumer_report platform consumer_release s in
      let r' = resume s' r.log in
      with_safety r'
        (complete_release (safety_of r') generation keyboard_released consumer_released).0

  -- The loop, behind its fuel; `none` if the fuel runs out.
  unfoldable pub release_task_loop : ℕ → ℕ → Ble P → Option (Ble P)
  unfolding attempt begin_release snapshot
  release_task_loop zero generation r = none
  release_task_loop (suc fuel) generation r =
      let (s, begun) = begin_release (safety_of r) generation in
      let r' = attempt generation (with_safety r s) in
      let rest = release_task_loop fuel generation (pause retry_delay_ms r') in
      if not begun
      then some (with_safety r s)
      else if no_more generation (snapshot (safety_of r'))
      then some r'
      else rest

  unfoldable pub safety_release_task : ℕ → Ble P → Option (Ble P)
  unfolding release_task_loop
  safety_release_task generation r =
      forget_last generation
        (release_task_loop release_rounds generation (pause initial_delay_ms r))

  -- The call of `xTaskCreate` and what follows.
  abbrev create : ℕ → Ble P → Bool × Ble P
  create generation r =
      let (created, p) = create_safety_task generation r.context.platform in
      let r' : Ble P = record r { context = record r.context { platform = p } } in
      if created then (true, r') else (false, forget_task generation r')

  unfoldable pub schedule_safety_release : ℕ → Ble P → Bool × Ble P
  schedule_safety_release generation r =
      if generation == 0
      then (false, r)
      else if r.context.safety_task_generation == generation
      then (true, r)
      else if (safety_of r).connection_generation != generation
          || (not (safety_of r).is_connected || not (safety_of r).is_authenticated)
      then (false, r)
      else create generation (with_generation r generation)

  unfoldable pub retry_safety_release : Ble P → Bool × Ble P
  unfolding schedule_safety_release request_retry snapshot
  retry_safety_release r =
      let (s, accepted) = request_retry (safety_of r) in
      let status = snapshot s in
      if not accepted || status.ready
      then (accepted, with_safety r s)
      else schedule_safety_release status.generation (with_safety r s)

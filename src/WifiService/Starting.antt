-- ===== src/WifiService/Starting.antt =====
-- What a request to start a job comes to.
use typxen.Base.{
  ℕ, ◌≡◌, ◌⊎◌, inl, inr, refl, ap, ◌∙◌, Bool, true, false, Option, none, some, List, arith,
}
use typxen.Protocol.Types.{VerifiedSchedule}
use typxen.Safety.Defs.{Safety, begin, finish, snapshot}
use typxen.Upload.Types.{Upload, UploadError, invalid_argument, ready, countdown}
use typxen.Upload.Job.{prepare_start, start_failed}
use typxen.BleHid.Release.{safety_of}
use typxen.BleHid.Events.{
  Nvs, marker, marker_write, safety_status, mark_execution_active, mark_execution_terminal,
}
use typxen.WifiService.Defs.{
  Host, Board, Response, host_marker, start_accepted, is_start_accepted, host, with_host, upload_of,
  send_upload_error, hid_readiness,
}
use typxen.WifiService.Handlers.{
  take_back, responded, with_task, with_rest, task_created, marked_active, prepared, JobRequest,
  Server, json_job_id, start_handler,
}

-- The job counts down, its schedule set, and it was READY with the keyboard ready for keys.
pub record IsPending {C Q : Type 0} (b b' : Board C Q) : Type 0 where
  pub was_ready : (upload_of b).status ≡ ready
  pub keyboard : (safety_status b).ready ≡ true
  pub counts_down : (upload_of b').status ≡ countdown
  pub scheduled : (host b').pending_schedule ≡ some (upload_of b).verified_schedule
  pub same : (upload_of b').verified_schedule ≡ (upload_of b).verified_schedule

-- A request is answered with 202 and starts the job and its task, or it is not, and the job is as
-- READY, or not, as before.
abbrev pub StartsOrNot : {C Q : Type 0} → Board C Q → Response × Board C Q → Type 0
StartsOrNot b (response, b') =
    (is_start_accepted response ≡ true × IsPending b b' × (host b').execution_task ≡ true)
    ⊎ (is_start_accepted response ≡ false
        × (upload_of b').status ≡ (upload_of b).status
        × (upload_of b').verified_schedule ≡ (upload_of b).verified_schedule)

module _ {C Q : Type 0} (nvs : Nvs Q) where
  abbrev pub HasMarker : Board C Q → Type 0
  HasMarker b = (safety_of b).marker ≡ host_marker nvs

  -- The marker leaves the job alone, and the safety state with it.
  abbrev AsideOf : Board C Q → Board C Q → Type 0
  AsideOf b b' =
      (upload_of b' ≡ upload_of b)
      × ((host b').pending_schedule ≡ (host b).pending_schedule)
      × ((host b').execution_task ≡ (host b).execution_task)
      × (safety_of b' ≡ safety_of b)

  mark_active-Aside : (b : Board C Q) → HasMarker b → AsideOf b (mark_execution_active b).1
  unfolding mark_execution_active begin marker_write marker host_marker
  mark_active-Aside b h = rw h (ground arith)

  mark_terminal-Aside : (b : Board C Q) → HasMarker b → AsideOf b (mark_execution_terminal b).1
  unfolding mark_execution_terminal finish marker_write marker host_marker
  mark_terminal-Aside b h = rw h (ground arith)

  -- Taking the start back makes the job as READY as it was.
  take_back-lem :
      (b b' : Board C Q)
      → HasMarker b'
      → IsPending b b'
      → (upload_of (take_back b')).status ≡ (upload_of b).status
        × (upload_of (take_back b')).verified_schedule ≡ (upload_of b).verified_schedule
  unfolding start_failed
  take_back-lem b b' m p =
      ground (arith, mark_terminal-Aside b' m, p.was_ready, p.counts_down, p.same)

  responded-Starts :
      (sent : Bool) (b b' : Board C Q)
      → HasMarker b'
      → IsPending b b'
      → (host b').execution_task ≡ true
      → StartsOrNot b (responded sent b')
  responded-Starts true b b' m p t = inl (refl, p, t)
  responded-Starts false b b' m p t =
      let (status, schedule) = take_back-lem b (with_task false b') m (record {
        was_ready = p.was_ready;
        keyboard = p.keyboard;
        counts_down = p.counts_down;
        scheduled = p.scheduled;
        same = p.same;
      }) in
      inr (refl, status, schedule)

  module _ (server : Server Q) where
    task_created-Starts :
        (created : Bool × Q) (b b' : Board C Q)
        → HasMarker b'
        → IsPending b b'
        → StartsOrNot b (task_created server created b')
    unfolding send_upload_error
    task_created-Starts (true, q) b b' m p =
        responded-Starts (server.respond start_accepted q).0 b _ m
          (record {
            was_ready = p.was_ready;
            keyboard = p.keyboard;
            counts_down = p.counts_down;
            scheduled = p.scheduled;
            same = p.same;
          })
          refl
    task_created-Starts (false, q) b b' m p =
        let (status, schedule) = take_back-lem b (with_rest q b') m (record {
          was_ready = p.was_ready;
          keyboard = p.keyboard;
          counts_down = p.counts_down;
          scheduled = p.scheduled;
          same = p.same;
        }) in
        inr (refl, status, schedule)

    marked_active-Starts :
        (m : Bool × Board C Q) (b : Board C Q)
        → HasMarker m.1
        → IsPending b m.1
        → StartsOrNot b (marked_active server m)
    unfolding start_failed send_upload_error
    marked_active-Starts (true, b') b m p = task_created-Starts _ b b' m p
    marked_active-Starts (false, b') b m p =
        inr (ground (arith, p.was_ready, p.counts_down, p.same))

    -- What `typx_wifi_upload_prepare_start` gave.
    abbrev Prepared : Board C Q → Upload C × UploadError × Option VerifiedSchedule → Type 0
    Prepared b (u, e, none) = u ≡ upload_of b
    Prepared b (u, e, some schedule) =
        ((upload_of b).status ≡ ready)
        × ((safety_status b).ready ≡ true)
        × (u.status ≡ countdown)
        × (schedule ≡ (upload_of b).verified_schedule)
        × (u.verified_schedule ≡ (upload_of b).verified_schedule)

    prepare_start-Prepared :
        (id : Option (List ℕ)) (b : Board C Q)
        → Prepared b (prepare_start (upload_of b) id (hid_readiness (safety_status b)))
    unfolding prepare_start hid_readiness safety_status snapshot
    prepare_start-Prepared id b = ground arith

    prepared-Starts :
        (t : Upload C × UploadError × Option VerifiedSchedule) (b : Board C Q)
        → HasMarker b
        → Prepared b t
        → StartsOrNot b (prepared server t b)
    unfolding send_upload_error
    prepared-Starts (u, e, none) b m h =
        inr (refl, ap (λ (v : Upload C). v.status) h, ap (λ (v : Upload C). v.verified_schedule) h)
    prepared-Starts (u, e, some schedule) b m (was_ready, keyboard, counts, is, same) =
        let begun =
          with_host b (record (host b) { upload = u; pending_schedule = some schedule }) in
        let (job, pending, _, safety) = mark_active-Aside begun m in
        marked_active-Starts (mark_execution_active begun) b
          (ap (λ (x : Safety (Host C Q)). x.marker) safety ∙ m)
          (record {
            was_ready = was_ready;
            keyboard = keyboard;
            counts_down = ap (λ (v : Upload C). v.status) job ∙ counts;
            scheduled = pending ∙ ap some is;
            same = ap (λ (v : Upload C). v.verified_schedule) job ∙ same;
          })

    -- For a safety state whose marker stands apart from the job, a request to start is answered with
    -- 202 and the job counts down with its schedule set and its task made, which needs a job that
    -- was READY and a keyboard that was ready; or it is not, and the job's status and schedule are
    -- as before, also where a later step failed.
    pub start_handler-StartsOrNot :
        (request : Option JobRequest) (b : Board C Q)
        → HasMarker b
        → StartsOrNot b (start_handler server request b)
    unfolding start_handler send_upload_error
    start_handler-StartsOrNot request b m = started (json_job_id request)
      where
        started :
            (id : Option (List ℕ))
            → StartsOrNot b (elim id [
              | none ↦ (send_upload_error invalid_argument b, b)
              | some i ↦
                  prepared server
                    (prepare_start (upload_of b) (some i) (hid_readiness (safety_status b)))
                    b
            ])
        started none = inr (refl, refl, refl)
        started (some i) = prepared-Starts _ b m (prepare_start-Prepared (some i) b)

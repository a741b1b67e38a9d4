-- ===== src/WifiService/Handlers.antt =====
-- The handlers of the requests about a job, and the task that types its schedule.
use typxen.Base.{ℕ, Bool, true, false, not, ◌||◌, Option, none, some, List, if◌then◌else◌, ltb}
use typxen.Protocol.Types.{Sha256Provider, VerifiedSchedule}
use typxen.Executor.Defs.{wait_failed}
use typxen.Upload.Types.{
  Upload, UploadStatus, countdown, executing, stopping, stopped, UploadError, ok, invalid_argument,
  invalid_state, storage_failure, hid_not_connected, hid_safety_pending, hid_safety_failed,
  max_bytes,
}
use typxen.Upload.Job.{
  begin, prepare_start, start_failed, mark_executing, request_stop, cancel, record_progress,
  complete,
}
use typxen.Upload.Finalize.{finalize}
use typxen.BleHid.Defs.{Observer, Platform}
use typxen.BleHid.Run.{Outcome, run_schedule_countdown_observed}
use typxen.BleHid.Release.{retry_safety_release}
use typxen.BleHid.Events.{safety_status, mark_execution_active, mark_execution_terminal}
use typxen.WifiService.Hex.{parse_hex}
use typxen.WifiService.Defs.{
  Host, Board, Response, created, ready_state, idle_state, not_sent, start_accepted, stop_taken,
  retry_taken, host, with_host, upload_of, with_upload, send_upload_error, hid_readiness,
}

-- A number of cJSON: below 1, or its whole part and whether it has a fraction. `valueint` of the
-- latter is the whole part, where it is no more than `INT_MAX`.
pub data Number : Type 0 where
  below_one : Number
  at_least_one : ℕ → Bool → Number

-- The fields of the body, `none` where the item is missing or of another kind.
pub record JobRequest : Type 0 where
  pub job_id : Option (List ℕ)
  pub size : Option Number
  pub sha256 : Option (List ℕ)

-- The values of the query, `none` where `httpd_query_key_value` fails. A `content_len` below 0 is 0.
pub record ChunkRequest : Type 0 where
  pub content_len : ℕ
  pub job_id : Option (List ℕ)
  pub sequence : Option (List ℕ)
  pub offset : Option (List ℕ)
  pub length : Option (List ℕ)
  pub crc32 : Option (List ℕ)

-- `read_json` gives `none` where the body cannot be read.
unfoldable pub json_job_id : Option JobRequest → Option (List ℕ)
unfolding parse_hex
json_job_id none = none
json_job_id (some request) = parse_hex request.job_id 16

abbrev checked_size : Option Number → Option ℕ
checked_size none = none
checked_size (some below_one) = none
checked_size (some (at_least_one whole fraction)) =
    if ltb max_bytes whole || fraction then none else some whole

-- The job, the size and the digest of a request to create or finalize a job.
pub record JobFields : Type 0 where
  pub id : List ℕ
  pub size : ℕ
  pub sha : List ℕ

abbrev fields_with : List ℕ → Option ℕ → Option (List ℕ) → Option JobFields
fields_with id (some size) (some sha) = some (record { id = id; size = size; sha = sha })
fields_with id _ _ = none

abbrev fields_of : Option (List ℕ) → JobRequest → Option JobFields
fields_of none request = none
fields_of (some id) request =
    fields_with id (checked_size request.size) (parse_hex request.sha256 32)

unfoldable pub job_fields : Option JobRequest → Option JobFields
unfolding json_job_id parse_hex
job_fields none = none
job_fields (some request) = fields_of (json_job_id (some request)) request

-- What the code calls of the HTTP server and FreeRTOS. `receive` gives no byte for an error;
-- `respond` says whether the answer was sent.
pub record Server (Q : Type 0) : Type 0 where
  pub receive : ℕ → Q → List ℕ × Q
  pub create_execution_task : Q → Bool × Q
  pub respond : Response → Q → Bool × Q

abbrev pub is_ok : UploadError → Bool
is_ok ok = true
is_ok _ = false

abbrev is_active : UploadStatus → Bool
is_active countdown = true
is_active executing = true
is_active stopping = true
is_active _ = false

module _ {C Q : Type 0} where
  -- The answer of a handler with its error.
  abbrev answer : Response → UploadError → Board C Q → Response × Board C Q
  answer response e b = if is_ok e then (response, b) else (send_upload_error e b, b)

  abbrev with_job : Upload C → C → Board C Q → Board C Q
  with_job u c b = with_host b (record (host b) { upload = u; flash = c })

  unfoldable pub create_job_handler : Option JobRequest → Board C Q → Response × Board C Q
  unfolding job_fields begin send_upload_error
  create_job_handler request b = elim (job_fields request) [
    | none ↦ (send_upload_error invalid_argument b, b)
    | some f ↦
        let (u, e, c) = begin (upload_of b) (some f.id) f.size (some f.sha) (host b).flash in
        answer created e (with_job u c b)
  ]

  -- The provider of mbedTLS over its context.
  unfoldable pub finalize_handler :
      {D : Type 0} → Sha256Provider D → D → Option JobRequest → Board C Q → Response × Board C Q
  unfolding job_fields finalize send_upload_error
  finalize_handler sha sha_context request b = elim (job_fields request) [
    | none ↦ (send_upload_error invalid_argument b, b)
    | some f ↦
        let (u, e, d) =
          finalize (upload_of b) (some f.id) f.size (some f.sha) (host b).flash sha sha_context in
        answer ready_state e (with_upload b u)
  ]

  unfoldable pub stop_handler : Board C Q → Response × Board C Q
  unfolding request_stop send_upload_error
  stop_handler b =
      let (u, e) = request_stop (upload_of b) in
      let b' = with_upload b u in
      if not (is_ok e) then (send_upload_error e b', b') else (
        elim u.status [ stopped ↦ stop_taken 200 stopped | s ↦ stop_taken 202 s ],
        record b' { stop_requested = true },
      )

  unfoldable pub cancel_handler : Option JobRequest → Board C Q → Response × Board C Q
  unfolding json_job_id cancel send_upload_error
  cancel_handler request b = elim (json_job_id request) [
    | none ↦ (send_upload_error invalid_argument b, b)
    | some id ↦ let (u, e) = cancel (upload_of b) (some id) in answer idle_state e (with_upload b u)
  ]

  -- The part of the handler behind its tests.
  abbrev retried : Bool × Board C Q → Response × Board C Q
  retried (accepted, b) =
      let hid = safety_status b in
      if not accepted
      then (send_upload_error hid_safety_failed b, b)
      else (retry_taken (if hid.ready then 200 else 202) hid, b)

  unfoldable pub hid_safety_retry_handler : Platform (Host C Q) → Board C Q → Response × Board C Q
  unfolding retry_safety_release safety_status send_upload_error
  hid_safety_retry_handler platform b =
      if is_active (upload_of b).status
      then (send_upload_error invalid_state b, b)
      else if not (safety_status b).connected
      then (send_upload_error hid_not_connected b, b)
      else if not (safety_status b).authenticated
      then (send_upload_error hid_safety_pending b, b)
      else retried (retry_safety_release platform b)

  -- `typx_wifi_upload_start_failed`, its result ignored.
  abbrev pub failed_start : Board C Q → Board C Q
  failed_start b = with_upload b (start_failed (upload_of b)).0

  abbrev pub with_rest : Q → Board C Q → Board C Q
  with_rest q b = with_host b (record (host b) { rest = q })

  abbrev pub with_task : Bool → Board C Q → Board C Q
  with_task task b = with_host b (record (host b) { execution_task = task })

  -- The marker cleared, its answer ignored, and the start taken back.
  abbrev pub take_back : Board C Q → Board C Q
  take_back b = failed_start (mark_execution_terminal b).1

  -- Behind the answer to the request.
  abbrev pub responded : Bool → Board C Q → Response × Board C Q
  responded true b = (start_accepted, b)
  responded false b = (not_sent, take_back (with_task false b))

  -- Behind the creation of the task.
  abbrev pub task_created : Server Q → Bool × Q → Board C Q → Response × Board C Q
  task_created server (true, q) b =
      let (sent, q') = server.respond start_accepted q in
      responded sent (with_task true (with_rest q' b))
  task_created server (false, q) b =
      let b' = take_back (with_rest q b) in (send_upload_error invalid_state b', b')

  -- Behind the writing of the marker.
  abbrev pub marked_active : Server Q → Bool × Board C Q → Response × Board C Q
  marked_active server (true, b) =
      task_created server (server.create_execution_task (host b).rest) b
  marked_active server (false, b) =
      let b' = failed_start b in (send_upload_error storage_failure b', b')

  -- Behind `typx_wifi_upload_prepare_start`; the schedule is set where it gave one.
  abbrev pub prepared :
      Server Q → Upload C × UploadError × Option VerifiedSchedule → Board C Q → Response × Board C Q
  prepared server (u, e, none) b = let b' = with_upload b u in (send_upload_error e b', b')
  prepared server (u, e, some schedule) b = marked_active server (
      mark_execution_active
        (with_host b (record (host b) { upload = u; pending_schedule = some schedule })))

  unfoldable pub start_handler : Server Q → Option JobRequest → Board C Q → Response × Board C Q
  unfolding json_job_id prepare_start start_failed mark_execution_active mark_execution_terminal
      safety_status hid_readiness send_upload_error
  start_handler server request b = elim (json_job_id request) [
    | none ↦ (send_upload_error invalid_argument b, b)
    | some id ↦
        prepared server (prepare_start (upload_of b) (some id) (hid_readiness (safety_status b))) b
  ]

-- The observer of the task's run.
unfoldable pub execution_observer : {C Q : Type 0} → Observer (Host C Q)
unfolding mark_executing record_progress
execution_observer = record {
  countdown_complete = some (λ h. record h { upload = (mark_executing h.upload).0 });
  progress = some (λ source_index completed_records total_records h. record h {
    upload = record_progress h.upload source_index completed_records total_records;
  });
}

abbrev pub countdown_seconds : ℕ
countdown_seconds = 8

module _ {C Q : Type 0} (platform : Platform (Host C Q)) where
  -- The part of the task behind the run.
  abbrev ended : Outcome (Host C Q) → Board C Q
  ended (e, log, b) =
      let (cleared, b') = mark_execution_terminal b in
      let h = host b' in
      with_host b' (record h {
        upload = complete h.upload (if cleared then e else wait_failed);
        execution_task = false;
      })

  -- The task, once `start_handler` has notified it, with the schedule that it set; mDNS is left out.
  unfoldable pub execution_task : VerifiedSchedule → Board C Q → Board C Q
  unfolding run_schedule_countdown_observed mark_execution_terminal complete execution_observer
  execution_task schedule b = ended (
      run_schedule_countdown_observed platform schedule countdown_seconds (some execution_observer)
        b)

-- ===== src/Upload/Job.antt =====
-- The life of a job: `init`, `begin`, start, stop, cancel, progress and completion.
use typxen.Base.{
  ℕ, Bool, true, false, not, ◌||◌, Option, none, some, List, if◌then◌else◌, ◌==◌, ◌!=◌, ltb,
  replicate,
}
use typxen.Protocol.Types.{ProtocolError, VerifiedSchedule}
use typxen.Protocol.Bytes.{all_zero, same_bytes}
use typxen.Protocol.Verify.{zero_schedule, is_verified}
use typxen.Executor.Defs.{ExecutorError}
use typxen.Upload.Types.{
  UploadStatus, idle, receiving, ready, countdown, executing, stopping, stopped, completed, failed,
  interrupted_reset, UploadError, ok, invalid_argument, invalid_state, oversized, job_mismatch,
  storage_failure, protocol_rejected, hid_not_connected, hid_safety_pending, hid_safety_failed,
  HidReadiness, hid_disconnected, hid_pending, hid_failed, hid_ready, Storage, Upload, max_bytes,
  max_chunks,
}

abbrev pub is_receiving : UploadStatus → Bool
is_receiving receiving = true
is_receiving _ = false

abbrev pub is_ready : UploadStatus → Bool
is_ready ready = true
is_ready _ = false

abbrev pub is_countdown : UploadStatus → Bool
is_countdown countdown = true
is_countdown _ = false

abbrev pub is_executing : UploadStatus → Bool
is_executing executing = true
is_executing _ = false

-- The disjunction in `typx_wifi_upload_job_locked`.
abbrev pub locked : UploadStatus → Bool
locked ready = true
locked countdown = true
locked executing = true
locked stopping = true
locked _ = false

-- The refusals of `prepare_start` by the readiness of the keyboard.
abbrev pub readiness_error : HidReadiness → UploadError
readiness_error hid_disconnected = hid_not_connected
readiness_error hid_pending = hid_safety_pending
readiness_error hid_failed = hid_safety_failed
readiness_error hid_ready = ok

abbrev pub is_hid_ready : HidReadiness → Bool
is_hid_ready hid_ready = true
is_hid_ready _ = false

abbrev pub final_status : ExecutorError → UploadStatus
final_status ExecutorError.ok = completed
final_status ExecutorError.stopped = stopped
final_status _ = failed

abbrev pub final_error : ExecutorError → UploadError
final_error ExecutorError.ok = ok
final_error ExecutorError.stopped = ok
final_error _ = invalid_state

module _ {C : Type 0} where
  -- `job_id` is `none` for a NULL pointer.
  unfoldable pub same_job : Upload C → Option (List ℕ) → Bool
  same_job u none = false
  same_job u (some job_id) = same_bytes 16 u.job_id job_id

  unfoldable pub job_locked : Upload C → Bool
  job_locked u = locked u.status

  -- `memset(upload, 0, …)`, then the storage put back.
  unfoldable pub cleared : Option (Storage C) → Upload C
  cleared storage = record {
    storage = storage;
    status = idle;
    last_error = ok;
    protocol_error = ProtocolError.ok;
    executor_error = ExecutorError.ok;
    job_id = replicate 16 0;
    expected_sha256 = replicate 32 0;
    expected_size = 0;
    received_bytes = 0;
    chunk_lengths = replicate max_chunks 0;
    chunk_crc32 = replicate max_chunks 0;
    stop_requested = false;
    completed_records = 0;
    current_source_index = 0;
    total_records = 0;
    verified_schedule = zero_schedule;
  }

  unfoldable pub init : Upload C → Option (Storage C) → Upload C
  unfolding cleared
  init u storage = cleared storage

  -- The end of `begin`, with what `erase` answered.
  abbrev erased : Upload C → Bool × C → Upload C × UploadError × C
  erased u (true, c) = (u, ok, c)
  erased u (false, c) =
      (record u { status = failed; last_error = storage_failure }, storage_failure, c)

  unfoldable pub begin_with :
      Upload C → Storage C → List ℕ → ℕ → List ℕ → C → Upload C × UploadError × C
  unfolding job_locked cleared
  begin_with u storage job_id encoded_size encoded_sha256 c =
      if all_zero job_id 0 16 || all_zero encoded_sha256 0 32
      then (u, invalid_argument, c)
      else if encoded_size == 0 || ltb max_bytes encoded_size
      then (record u { last_error = oversized }, oversized, c)
      else if job_locked u
      then (u, invalid_state, c)
      else erased
          (record (cleared (some storage)) {
            status = receiving;
            expected_size = encoded_size;
            job_id = job_id;
            expected_sha256 = encoded_sha256;
          })
          (storage.erase c)

  -- `job_id` and `encoded_sha256` are `none` for a NULL pointer.
  unfoldable pub begin :
      Upload C → Option (List ℕ) → ℕ → Option (List ℕ) → C → Upload C × UploadError × C
  unfolding begin_with
  begin u none encoded_size encoded_sha256 c = (u, invalid_argument, c)
  begin u (some job_id) encoded_size none c = (u, invalid_argument, c)
  begin u (some job_id) encoded_size (some encoded_sha256) c = elim u.storage [
    | none ↦ (u, invalid_argument, c)
    | some storage ↦ begin_with u storage job_id encoded_size encoded_sha256 c
  ]

  -- On success `*schedule` points to `verified_schedule`, which is the third part of the result.
  unfoldable pub prepare_start :
      Upload C → Option (List ℕ) → HidReadiness → Upload C × UploadError × Option VerifiedSchedule
  unfolding is_verified
  prepare_start u job_id hid_readiness =
      if not (is_ready u.status)
      then (u, invalid_state, none)
      else if not (same_job u job_id)
      then (u, job_mismatch, none)
      else if not (is_hid_ready hid_readiness)
      then (u, readiness_error hid_readiness, none)
      else if not (is_verified u.verified_schedule)
      then (u, protocol_rejected, none)
      else (record u { status = countdown; stop_requested = false }, ok, some u.verified_schedule)

  unfoldable pub start_failed : Upload C → Upload C × UploadError
  start_failed u =
      if not (is_countdown u.status)
      then (u, invalid_state)
      else (record u { status = ready; stop_requested = false }, ok)

  unfoldable pub mark_executing : Upload C → Upload C × UploadError
  mark_executing u =
      if not (is_countdown u.status)
      then (u, invalid_state)
      else (record u { status = executing }, ok)

  unfoldable pub request_stop : Upload C → Upload C × UploadError
  request_stop u = elim u.status [
    | stopping ↦ (u, ok)
    | stopped ↦ (u, ok)
    | countdown ↦ (record u { stop_requested = true; status = stopping }, ok)
    | executing ↦ (record u { stop_requested = true; status = stopping }, ok)
    | _ ↦ (u, invalid_state)
  ]

  unfoldable pub cancel : Upload C → Option (List ℕ) → Upload C × UploadError
  unfolding cleared
  cancel u job_id =
      if not (is_ready u.status)
      then (u, invalid_state)
      else if not (same_job u job_id)
      then (u, job_mismatch)
      else (cleared u.storage, ok)

  unfoldable pub record_progress : Upload C → ℕ → ℕ → ℕ → Upload C
  record_progress u source_index completed_records total_records =
      if not (is_executing u.status)
        || (total_records != u.total_records || ltb total_records completed_records)
      then u
      else record u { current_source_index = source_index; completed_records = completed_records }

  unfoldable pub mark_interrupted_reset : Upload C → Upload C
  mark_interrupted_reset u = record u {
    status = interrupted_reset;
    executor_error = ExecutorError.interrupted_reset;
    last_error = ok;
    stop_requested = false;
  }

  unfoldable pub complete : Upload C → ExecutorError → Upload C
  complete u executor_error = record u {
    executor_error = executor_error;
    status = final_status executor_error;
    last_error = final_error executor_error;
    stop_requested = false;
  }

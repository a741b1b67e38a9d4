-- ===== src/Upload/Finalize.antt =====
-- The end of an upload: `upload_read_at`, `verify_encoded_sha` and `finalize`.
use typxen.Base.{
  ℕ, zero, suc, ◌+◌, ◌-◌, ◌/◌, Bool, true, false, not, ◌||◌, Option, none, some, List,
  if◌then◌else◌, ◌==◌, ◌!=◌, ltb, get_or,
}
use typxen.Protocol.Types.{
  ProtocolError, Reader, Sha256Provider, VerifiedSchedule, esp32_cam_limits,
}
use typxen.Protocol.Bytes.{same_bytes}
use typxen.Protocol.Payload.{hash_loop}
use typxen.Protocol.Verify.{verify, is_ok}
use typxen.Upload.Types.{
  ready, failed, verifying, UploadError, ok, invalid_state, job_mismatch, storage_failure,
  incomplete, sha256_mismatch, protocol_rejected, Upload, chunk_bytes,
}
use typxen.Upload.Job.{is_receiving, same_job}
use typxen.Upload.Chunk.{read}

-- The loop over the chunks, with the chunks that are left and the index.
unfoldable pub all_received : ℕ → ℕ → List ℕ → Bool
all_received zero index chunk_lengths = true
all_received (suc n) index chunk_lengths =
    if get_or chunk_lengths index 0 == 0 then false else all_received n (suc index) chunk_lengths

abbrev pub is_upload_ok : UploadError → Bool
is_upload_ok ok = true
is_upload_ok _ = false

-- `encoded_sha256 != NULL && memcmp(encoded_sha256, expected, 32) == 0`.
abbrev pub same_sha : Option (List ℕ) → List ℕ → Bool
same_sha none expected = false
same_sha (some digest) expected = same_bytes 32 digest expected

module _ {D : Type 0} where
  -- The part after the loop.
  abbrev compare_digest : List ℕ → Option (List ℕ) × D → UploadError × D
  compare_digest expected (none, d) = (storage_failure, d)
  compare_digest expected (some digest, d) =
      (if same_bytes 32 digest expected then ok else sha256_mismatch, d)

  abbrev after_loop : List ℕ → (D → Option (List ℕ) × D) → Bool × D → UploadError × D
  after_loop expected finish (false, d) = (storage_failure, d)
  after_loop expected finish (true, d) = compare_digest expected (finish d)

module _ {C : Type 0} where
  unfoldable pub upload_read_at : Upload C → C → ℕ → ℕ → Option (List ℕ)
  upload_read_at u c offset length =
      if ltb u.expected_size offset || ltb (u.expected_size - offset) length
      then none
      else read u.storage c offset length

  abbrev pub upload_reader : Upload C → C → Reader
  upload_reader u c = record { size_bytes = u.expected_size; read_at = some (upload_read_at u c) }

  module _ {D : Type 0} where
    -- The part after the provider's `begin`.
    unfoldable pub hash_upload :
        Upload C
        → C
        → (List ℕ → D → Bool × D)
        → (D → Option (List ℕ) × D)
        → Bool × D
        → UploadError × D
    unfolding hash_loop
    hash_upload u c update finish (false, d) = (storage_failure, d)
    hash_upload u c update finish (true, d) =
        after_loop u.expected_sha256 finish
          (hash_loop (read u.storage c) update u.expected_size 0 u.expected_size d)

    unfoldable pub verify_encoded_sha : Upload C → C → Sha256Provider D → D → UploadError × D
    unfolding hash_upload
    verify_encoded_sha u c sha256 d = elim sha256.begin [
      | none ↦ (storage_failure, d)
      | some begin ↦ elim sha256.update [
        | none ↦ (storage_failure, d)
        | some update ↦ elim sha256.finish [
          | none ↦ (storage_failure, d)
          | some finish ↦ hash_upload u c update finish (begin d)
        ]
      ]
    ]

    -- The part after `typx_protocol_v1_verify`.
    unfoldable pub conclude :
        Upload C → ProtocolError × VerifiedSchedule × D → Upload C × UploadError × D
    conclude u (protocol_error, schedule, d) =
        let u' = record u { protocol_error = protocol_error; verified_schedule = schedule } in
        if not (is_ok protocol_error)
        then (record u' { status = failed; last_error = protocol_rejected }, protocol_rejected, d)
        else (
          record u' {
            status = ready;
            last_error = ok;
            total_records = schedule.header.action_count;
            completed_records = 0;
            current_source_index = 0;
          },
          ok,
          d,
        )

    -- The part after the status VERIFYING is set.
    unfoldable pub check_upload :
        Upload C → C → Sha256Provider D → UploadError × D → Upload C × UploadError × D
    unfolding verify conclude
    check_upload u c sha256 (e, d) =
        if not (is_upload_ok e)
        then (record u { status = failed; last_error = e }, e, d)
        else conclude u (verify (upload_reader u c) esp32_cam_limits sha256 d)

    -- `job_id` and `encoded_sha256` are `none` for a NULL pointer.
    unfoldable pub finalize :
        Upload C
        → Option (List ℕ)
        → ℕ
        → Option (List ℕ)
        → C
        → Sha256Provider D
        → D
        → Upload C × UploadError × D
    unfolding check_upload verify_encoded_sha all_received same_job
    finalize u job_id encoded_size encoded_sha256 c sha256 d =
        let chunk_count = (u.expected_size + chunk_bytes - 1) / chunk_bytes in
        let u' = record u { status = verifying } in
        if not (is_receiving u.status)
        then (u, invalid_state, d)
        else if not (same_job u job_id)
        then (u, job_mismatch, d)
        else if encoded_size != u.expected_size || not (same_sha encoded_sha256 u.expected_sha256)
        then (record u { last_error = sha256_mismatch }, sha256_mismatch, d)
        else if u.received_bytes != u.expected_size
        then (u, incomplete, d)
        else if not (all_received chunk_count 0 u.chunk_lengths)
        then (u, incomplete, d)
        else check_upload u' c sha256 (verify_encoded_sha u' c sha256 d)

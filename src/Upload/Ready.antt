-- ===== src/Upload/Ready.antt =====
-- What a job that is ready has been through, and what a chunk that is accepted holds.
use typxen.Base.{ℕ, ◌^◌, ◌≤◌, ◌<◌, ◌≡◌, Option, some, List, [], ◌++◌, arith, length, length-append}
use typxen.Protocol.Types.{ProtocolError, Sha256Provider, esp32_cam_limits}
use typxen.Protocol.Bytes.{read_exact}
use typxen.Protocol.Decoding.{IsBytes}
use typxen.Protocol.Verify.{verify}
use typxen.Protocol.Verified.{GivesBytes}
use typxen.Protocol.Reading.{IsExecutable, verify-IsExecutable}
use typxen.Upload.Types.{UploadError, ok, ready, verifying, Upload, ChunkSession}
use typxen.Upload.Crc.{crc32, crc32_update, crc32_update-append}
use typxen.Upload.Chunk.{read, chunk_begin, chunk_write, chunk_finish}
use typxen.Upload.Finalize.{
  finalize, check_upload, conclude, verify_encoded_sha, upload_reader, upload_read_at,
}

module _ {C D : Type 0} where
  check_upload_ok :
      (u : Upload C) (c : C) (sha256 : Sha256Provider D) (hashed : UploadError × D)
      → (check_upload u c sha256 hashed).1 ≡ ok
      → let v = verify (upload_reader u c) esp32_cam_limits sha256 hashed.1 in
        (v.0 ≡ ProtocolError.ok)
        × ((check_upload u c sha256 hashed).0.verified_schedule ≡ v.1)
        × ((check_upload u c sha256 hashed).0.total_records ≡ v.1.header.action_count)
        × ((check_upload u c sha256 hashed).0.status ≡ ready)
        × (hashed.0 ≡ ok)
  unfolding check_upload conclude
  check_upload_ok u c sha256 hashed h = ground arith

-- Whatever the storage gives is made of bytes.
abbrev pub StoresBytes : {C : Type 0} → Upload C → C → Type 0
StoresBytes u c =
    (offset n : ℕ) (bytes : List ℕ) → read u.storage c offset n ≡ some bytes → IsBytes bytes

upload_reader-GivesBytes :
    {C : Type 0} (u : Upload C) (c : C) → StoresBytes u c → GivesBytes (upload_reader u c)
unfolding read_exact upload_read_at
upload_reader-GivesBytes u c h offset n bytes e = h offset n bytes (ground arith)

module _ {C D : Type 0} where
  -- What `finalize` has found when it accepts, with the upload in the status VERIFYING.
  pub finalize_ok :
      (u : Upload C) (job_id : Option (List ℕ)) (size : ℕ) (sha256 : Option (List ℕ)) (c : C)
      (provider : Sha256Provider D) (d : D)
      → (finalize u job_id size sha256 c provider d).1 ≡ ok
      → let u' = record u { status = verifying } in
        ((check_upload u' c provider (verify_encoded_sha u' c provider d)).1 ≡ ok)
        × ((finalize u job_id size sha256 c provider d).0
            ≡ (check_upload u' c provider (verify_encoded_sha u' c provider d)).0)
        × (u.received_bytes ≡ u.expected_size)
  unfolding finalize
  finalize_ok u job_id size sha256 c provider d h = ground arith

  -- With a storage that gives bytes: a job that `finalize` accepts is ready, its schedule is verified, every index below its record
  -- count reads a record that is safe to execute, and the total of records is that count.
  pub finalize-IsExecutable :
      (u : Upload C) (job_id : Option (List ℕ)) (size : ℕ) (sha256 : Option (List ℕ)) (c : C)
      (provider : Sha256Provider D) (d : D)
      → StoresBytes u c
      → (finalize u job_id size sha256 c provider d).1 ≡ ok
      → let u' = (finalize u job_id size sha256 c provider d).0 in
        (u'.status ≡ ready)
        × (u'.total_records ≡ u'.verified_schedule.header.action_count)
        × IsExecutable u'.verified_schedule
  finalize-IsExecutable u job_id size sha256 c provider d h e =
      let u' = record u { status = verifying } in
      let hashed = verify_encoded_sha u' c provider d in
      let (accepted, same, _) = finalize_ok u job_id size sha256 c provider d e in
      let (verified, schedule, count, status, _) = check_upload_ok u' c provider hashed accepted in
      let executable =
        verify-IsExecutable (upload_reader u' c) esp32_cam_limits provider hashed.1
          (upload_reader-GivesBytes u' c h) verified in
      rw same (status, rw schedule count, rw schedule executable)

-- The bytes that a session has taken.
pub record HasTaken (session : ChunkSession) (bytes : List ℕ) : Type 0 where
  pub crc : session.running_crc32 ≡ crc32_update 0xffffffff bytes
  pub count : session.received ≡ length bytes
  pub room : session.received ≤ session.length
  pub word : session.length < 2 ^ 32

module _ {C : Type 0} where
  -- A session that `chunk_begin` opens has taken nothing.
  pub chunk_begin-HasTaken :
      (u : Upload C) (job_id : Option (List ℕ)) (sequence offset size crc : ℕ)
      (session : ChunkSession) (c : C)
      → size < 2 ^ 32
      → (chunk_begin u job_id sequence offset size crc session c).1 ≡ ok
      → HasTaken (chunk_begin u job_id sequence offset size crc session c).0 []
  unfolding chunk_begin crc32_update
  chunk_begin-HasTaken u job_id sequence offset size crc session c w h = ground arith

  -- What a write that is accepted adds.
  pub chunk_write-HasTaken :
      (u : Upload C) (session : ChunkSession) (bytes piece : List ℕ) (c : C)
      → HasTaken session bytes
      → (chunk_write u session piece c).1 ≡ ok
      → HasTaken (chunk_write u session piece c).0 (bytes ++ piece)
  unfolding chunk_write
  chunk_write-HasTaken u session bytes piece c h e = ground (
    arith,
    h.crc,
    h.count,
    h.room,
    h.word,
    crc32_update-append 0xffffffff bytes piece,
    length-append bytes piece,
  )

  -- If a session has taken some bytes and `chunk_finish` accepts it, the bytes have the length and
  -- the checksum of the session.
  pub chunk_finish_lem :
      (u : Upload C) (session : ChunkSession) (bytes : List ℕ)
      → HasTaken session bytes
      → (chunk_finish u session).1 ≡ ok
      → (length bytes ≡ session.length) × (crc32 (some bytes) ≡ session.expected_crc32)
  unfolding chunk_finish crc32
  chunk_finish_lem u session bytes h e = ground (arith, h.crc, h.count)

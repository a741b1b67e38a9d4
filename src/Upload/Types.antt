-- ===== src/Upload/Types.antt =====
-- The types of typx_wifi_upload.h.
use typxen.Base.{ℕ, ◌*◌, Bool, Option, List}
use typxen.Protocol.Types.{ProtocolError, VerifiedSchedule}
use typxen.Executor.Defs.{ExecutorError}

abbrev pub max_bytes : ℕ
max_bytes = 512 * 1024

abbrev pub chunk_bytes : ℕ
chunk_bytes = 4096

abbrev pub max_chunks : ℕ
max_chunks = 128

pub data UploadStatus : Type 0 where
  idle receiving verifying ready countdown executing stopping stopped completed : UploadStatus
  failed interrupted_reset : UploadStatus

pub data UploadError : Type 0 where
  ok invalid_argument invalid_state oversized job_mismatch chunk_crc_mismatch : UploadError
  chunk_conflict storage_failure incomplete sha256_mismatch protocol_rejected : UploadError
  hid_not_connected hid_safety_pending hid_safety_failed : UploadError

pub data HidReadiness : Type 0 where
  hid_disconnected hid_pending hid_failed hid_ready : HidReadiness

pub record Storage (C : Type 0) : Type 0 where
  pub erase : C → Bool × C
  pub erase_range : ℕ → ℕ → C → Bool × C
  pub write : ℕ → List ℕ → C → Bool × C
  pub read : C → ℕ → ℕ → Option (List ℕ)

pub record Upload (C : Type 0) : Type 0 where
  pub storage : Option (Storage C)
  pub status : UploadStatus
  pub last_error : UploadError
  pub protocol_error : ProtocolError
  pub executor_error : ExecutorError
  pub job_id : List ℕ
  pub expected_sha256 : List ℕ
  pub expected_size : ℕ
  pub received_bytes : ℕ
  pub chunk_lengths : List ℕ
  pub chunk_crc32 : List ℕ
  pub stop_requested : Bool
  pub completed_records : ℕ
  pub current_source_index : ℕ
  pub total_records : ℕ
  pub verified_schedule : VerifiedSchedule

pub record ChunkSession : Type 0 where
  pub sequence : ℕ
  pub offset : ℕ
  pub length : ℕ
  pub expected_crc32 : ℕ
  pub running_crc32 : ℕ
  pub received : ℕ
  pub repeated : Bool
  pub conflict : Bool

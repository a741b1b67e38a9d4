-- ===== src/Upload/Tests.antt =====
-- An upload of one chunk to a flash in memory, and the theorems at it.
use typxen.Base.{
  ℕ, ◌+◌, ◌-◌, ◌/◌, ◌≡◌, refl, true, false, some, List, [], ◌∷◌, ◌++◌, arith, ◌≢◌, ◌↔◌, All-take,
  All-drop, length, replicate, drop,
}
use typxen.Protocol.Types.{esp32_cam_limits}
use typxen.Protocol.Bytes.{
  slice, read_u16_le, read_u32_le, read_u64_le, read_exact, all_zero, same_bytes,
}
use typxen.Protocol.Record.{
  supported_keycode, record_fields, delay_fault, flags_fault, decode_record, read_record_unverified,
}
use typxen.Protocol.Payload.{hash_loop, compare_digest, verify_payload_sha256}
use typxen.Protocol.Validate.{check_record, validate_from, validate_records}
use typxen.Protocol.Verify.{
  check_arguments, check_format, header_fields, check_header, read_header, verify,
}
use typxen.Protocol.Decoding.{IsByte}
use typxen.Protocol.Reading.{IsExecutable}
use typxen.Protocol.Sample.{image, image-IsBytes, fixed_sha256}
use typxen.Upload.Types.{ready, countdown, ok, Storage, Upload, ChunkSession, chunk_bytes}
use typxen.Upload.Crc.{crc32, crc32_update, crc_bits}
use typxen.Upload.Job.{begin, begin_with, cleared, job_locked, same_job, mark_executing}
use typxen.Upload.Chunk.{chunk_begin, chunk_write, chunk_finish}
use typxen.Upload.Finalize.{
  all_received, upload_read_at, hash_upload, verify_encoded_sha, conclude, check_upload, finalize,
}
use typxen.Upload.Gates.{advance, Gate, advance-Gate, executing_op}
use typxen.Upload.Lengths.{Whole}
use typxen.Upload.Ledger.{
  IsLedger, IsCurrent, begin-IsLedger, chunk_begin-IsCurrent, chunk_finish-IsLedger,
  IsLedger-all_received,
}
use typxen.Upload.Ready.{
  StoresBytes, finalize-IsExecutable, HasTaken, chunk_begin-HasTaken, chunk_write-HasTaken,
}

-- The flash is the list of its bytes from the start; a write appends.
abbrev flash : Storage (List ℕ)
flash = record {
  erase = λ c. (true, []);
  erase_range = λ offset n c. (true, c);
  write = λ offset bytes c. (true, c ++ bytes);
  read = λ c offset n. some (slice c offset n);
}

abbrev job : List ℕ
job = 9 ∷ replicate 15 0

abbrev digest : List ℕ
digest = replicate 32 7

abbrev no_session : ChunkSession
no_session = record {
  sequence = 0;
  offset = 0;
  length = 0;
  expected_crc32 = 0;
  running_crc32 = 0;
  received = 0;
  repeated = false;
  conflict = false;
}

abbrev fresh : Upload (List ℕ)
fresh = cleared (some flash)

abbrev begun : Upload (List ℕ)
begun = (begin fresh (some job) (length image) (some digest) []).0

fresh_begins : (begin fresh (some job) (length image) (some digest) []).1 ≡ ok
unfolding begin begin_with cleared job_locked all_zero
fresh_begins = refl

abbrev image_crc : ℕ
image_crc = crc32 (some image)

abbrev opened : ChunkSession
opened = (chunk_begin begun (some job) 0 0 (length image) image_crc no_session []).0

chunk_opens : (chunk_begin begun (some job) 0 0 (length image) image_crc no_session []).1 ≡ ok
unfolding chunk_begin begin begin_with cleared job_locked all_zero same_job same_bytes
chunk_opens = refl

opened-HasTaken : HasTaken opened []
opened-HasTaken =
    chunk_begin-HasTaken begun (some job) 0 0 (length image) image_crc no_session [] (omega arith)
      chunk_opens

abbrev written : ChunkSession
written = (chunk_write begun opened image []).0

chunk_is_written : (chunk_write begun opened image []).1 ≡ ok
unfolding chunk_write chunk_begin begin begin_with cleared job_locked all_zero same_job same_bytes
chunk_is_written = refl

written-HasTaken : HasTaken written image
written-HasTaken = chunk_write-HasTaken begun opened [] image [] opened-HasTaken chunk_is_written

chunk_ends : (chunk_finish begun written).1 ≡ ok
unfolding chunk_finish chunk_write chunk_begin begin begin_with cleared job_locked all_zero same_job
    same_bytes crc32 crc32_update crc_bits
chunk_ends = refl

begun-IsLedger : IsLedger begun
begun-IsLedger = (begin-IsLedger fresh (some job) (length image) (some digest) [] fresh_begins).0

opened-IsCurrent : IsCurrent begun opened
opened-IsCurrent =
    chunk_begin-IsCurrent begun (some job) 0 0 (length image) image_crc no_session [] chunk_opens

chunk_finish-IsLedger_example : IsLedger (chunk_finish begun opened).0
chunk_finish-IsLedger_example = chunk_finish-IsLedger begun opened begun-IsLedger opened-IsCurrent

abbrev complete : Upload (List ℕ)
complete = record begun {
  received_bytes = length image;
  chunk_lengths = length image ∷ replicate 127 0;
  chunk_crc32 = image_crc ∷ replicate 127 0;
}

complete-IsLedger : IsLedger complete
unfolding begin begin_with cleared job_locked all_zero
complete-IsLedger = record {
  slots = refl;
  bounded = begun-IsLedger.bounded;
  fits = omega arith;
  sum = refl;
}

IsLedger-all_received_example :
    let n = (complete.expected_size + chunk_bytes - 1) / chunk_bytes in
    ((complete.received_bytes ≡ complete.expected_size)
      ↔ Whole complete.expected_size n complete.chunk_lengths)
    × ((all_received n 0 complete.chunk_lengths ≡ true)
        ↔ Whole complete.expected_size n complete.chunk_lengths)
IsLedger-all_received_example = IsLedger-all_received complete complete-IsLedger

abbrev finalized : Upload (List ℕ)
finalized = (finalize complete (some job) (length image) (some digest) image (fixed_sha256 7) 0).0

finalize_accepts :
    (finalize complete (some job) (length image) (some digest) image (fixed_sha256 7) 0).1 ≡ ok
unfolding finalize check_upload conclude verify_encoded_sha hash_upload hash_loop upload_read_at
    all_received begin begin_with cleared job_locked same_job all_zero same_bytes verify read_header
    check_arguments check_format header_fields check_header read_u16_le read_u32_le read_u64_le
    read_exact supported_keycode record_fields delay_fault flags_fault decode_record
    read_record_unverified compare_digest verify_payload_sha256 check_record validate_from
    validate_records esp32_cam_limits
finalize_accepts = refl

complete-StoresBytes : StoresBytes complete image
unfolding begin begin_with cleared job_locked all_zero
complete-StoresBytes offset n bytes h =
    let whole =
      All-take IsByte n (drop offset image) (All-drop IsByte offset image image-IsBytes) in
    ground (arith, whole)

finalize-IsExecutable_example :
    (finalized.status ≡ ready)
    × (finalized.total_records ≡ finalized.verified_schedule.header.action_count)
    × IsExecutable finalized.verified_schedule
finalize-IsExecutable_example =
    finalize-IsExecutable complete (some job) (length image) (some digest) image (fixed_sha256 7) 0
      complete-StoresBytes finalize_accepts

abbrev counting : Upload (List ℕ)
counting = record fresh { status = countdown }

executes : (advance {D = ℕ} executing_op counting).status ≢ counting.status
unfolding advance mark_executing
executes = ground arith

advance-Gate_example :
    Gate {D = ℕ} (advance {D = ℕ} executing_op counting).status executing_op counting
advance-Gate_example = advance-Gate executing_op counting executes

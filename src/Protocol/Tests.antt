-- ===== src/Protocol/Tests.antt =====
-- The theorems at a small schedule.
use typxen.Base.{
  ℕ, ◌+◌, ◌≡◌, ◌≢◌, ◌↔◌, refl, Bool, true, false, List, ◌∷◌, arith, length, replicate,
}
use typxen.Protocol.Types.{
  ok, checksum_mismatch, integer_overflow, Header, ActionRecord, esp32_cam_limits, generic_limits,
  pass,
}
use typxen.Protocol.Bytes.{read_u16_le, read_u32_le, read_u64_le, read_exact, all_zero, same_bytes}
use typxen.Protocol.Record.{
  supported_keycode, record_fields, delay_fault, flags_fault, decode_record,
}
use typxen.Protocol.Payload.{verify_payload_sha256}
use typxen.Protocol.Validate.{validate_records}
use typxen.Protocol.Verify.{
  check_arguments, check_format, header_fields, check_header, read_header, verify, is_verified,
  zero_schedule,
}
use typxen.Protocol.Decoding.{IsSafeRecord, decode_record-IsSafeRecord}
use typxen.Protocol.Schedule.{IsSchedule, validate_records_iff}
use typxen.Protocol.Verified.{
  IsAccepted, schedule_of, verify_iff, verify_error, IsHeaderOf, read_header-IsHeaderOf,
}
use typxen.Protocol.Reading.{IsExecutable, verify-IsExecutable}
use typxen.Protocol.Overflow.{IsModest, verify-ne-integer_overflow}
use typxen.Protocol.Sample.{
  first_record, image_reader, fixed_sha256, image_reader-GivesBytes, image-accepted,
}

abbrev image_header : Header
image_header = record {
  protocol_major = 1;
  protocol_minor = 0;
  schedule_format_version = 1;
  action_count = 4;
  payload_bytes = 128;
  total_source_characters = 1;
  total_expected_duration_us = 32400;
  job_id = 9 ∷ replicate 15 0;
  payload_sha256 = replicate 32 7;
}

verify_iff_example : ((verify image_reader esp32_cam_limits (fixed_sha256 7) 0).0 ≡ ok) ↔ (
    (header : Header) × (records : List ActionRecord) × IsAccepted image_reader esp32_cam_limits
      (fixed_sha256 7)
      0
      header
      records
    × ((verify image_reader esp32_cam_limits (fixed_sha256 7) 0).1
        ≡ schedule_of image_reader esp32_cam_limits header))
verify_iff_example =
    verify_iff image_reader esp32_cam_limits (fixed_sha256 7) 0 image_reader-GivesBytes

digest_differs : (verify image_reader esp32_cam_limits (fixed_sha256 8) 0).0 ≡ checksum_mismatch
unfolding verify read_header check_arguments check_format header_fields check_header read_u16_le
    read_u32_le read_u64_le read_exact all_zero same_bytes verify_payload_sha256 esp32_cam_limits
digest_differs = refl

verify_error_example :
    ((verify image_reader esp32_cam_limits (fixed_sha256 8) 0).1 ≡ zero_schedule)
    × (is_verified (verify image_reader esp32_cam_limits (fixed_sha256 8) 0).1 ≡ false)
verify_error_example =
    verify_error image_reader esp32_cam_limits (fixed_sha256 8) 0 (rw digest_differs (λ e. cc))

verify-IsExecutable_example :
    IsExecutable (verify image_reader esp32_cam_limits (fixed_sha256 7) 0).1
verify-IsExecutable_example =
    verify-IsExecutable image_reader esp32_cam_limits (fixed_sha256 7) 0 image_reader-GivesBytes
      image-accepted

esp32_cam_limits-IsModest : IsModest esp32_cam_limits
unfolding esp32_cam_limits
esp32_cam_limits-IsModest = omega arith

generic_limits-IsModest : IsModest generic_limits
unfolding generic_limits
generic_limits-IsModest = omega arith

verify-ne-integer_overflow_example :
    (verify image_reader esp32_cam_limits (fixed_sha256 7) 0).0 ≢ integer_overflow
verify-ne-integer_overflow_example =
    verify-ne-integer_overflow image_reader esp32_cam_limits (fixed_sha256 7) 0
      esp32_cam_limits-IsModest

validate_records_iff_example :
    (validate_records image_reader esp32_cam_limits image_header ≡ pass tt) ↔ (
      (records : List ActionRecord) × IsSchedule image_reader esp32_cam_limits image_header records)
validate_records_iff_example =
    validate_records_iff image_reader esp32_cam_limits image_header (omega arith)

first_record_decodes : decode_record first_record 600000000 ≡ pass (record_fields first_record)
unfolding decode_record record_fields delay_fault flags_fault supported_keycode all_zero read_u32_le
    read_u16_le
first_record_decodes = refl

decode_record-IsSafeRecord_example : IsSafeRecord 600000000 (record_fields first_record)
decode_record-IsSafeRecord_example =
    decode_record-IsSafeRecord first_record 600000000 (omega arith) first_record_decodes

abbrev count_update : List ℕ → ℕ → Bool × ℕ
count_update bytes c = (true, c + length bytes)

read_header_ok : read_header image_reader esp32_cam_limits ≡ pass image_header
unfolding read_header check_arguments check_format header_fields check_header read_u16_le
    read_u32_le read_u64_le read_exact all_zero same_bytes esp32_cam_limits
read_header_ok = refl

read_header-IsHeaderOf_example : IsHeaderOf image_reader esp32_cam_limits image_header
read_header-IsHeaderOf_example =
    read_header-IsHeaderOf image_reader esp32_cam_limits image_reader-GivesBytes read_header_ok

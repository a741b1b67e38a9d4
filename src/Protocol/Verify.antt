-- ===== src/Protocol/Verify.antt =====
-- `typx_protocol_v1_verify`, `…_is_verified` and `…_read_record`.
use typxen.Base.{
  ℕ, ◌+◌, ◌-◌, ◌*◌, ◌%◌, ◌^◌, Bool, true, false, not, ◌||◌, Option, none, some, List, [], ◌∷◌,
  if◌then◌else◌, ◌==◌, ◌!=◌, ltb, leb, replicate,
}
use typxen.Protocol.Types.{
  ProtocolError, ok, reader_error, header_invalid, version_incompatible, payload_size_invalid,
  action_count_mismatch, schedule_limit_exceeded, flags_invalid, reserved_field_nonzero,
  job_id_invalid, source_index_invalid, not_verified, integer_overflow, Reader, Sha256Provider,
  Limits, Header, ActionRecord, VerifiedSchedule, header_bytes, record_bytes, Checked, pass, fail,
  ◌>>=◌, ◌>>◌, fail_if, or_fail,
}
use typxen.Protocol.Bytes.{
  byte, slice, read_u16_le, read_u32_le, read_u64_le, read_exact, all_zero, same_bytes,
}
use typxen.Protocol.Record.{read_record_unverified}
use typxen.Protocol.Payload.{verify_payload_sha256}
use typxen.Protocol.Validate.{validate_records}

abbrev pub verification_token : ℕ
verification_token = 0x54595058

-- "TYPXHID1"
abbrev pub magic : List ℕ
magic = 0x54 ∷ 0x59 ∷ 0x50 ∷ 0x58 ∷ 0x48 ∷ 0x49 ∷ 0x44 ∷ 0x31 ∷ []

abbrev is_none {ℓ} : {A : Type ℓ} → Option A → Bool
is_none none = true
is_none (some _) = false

-- The tests before the header is read.
unfoldable pub check_arguments : Reader → Limits → Checked (Unit {0})
check_arguments reader limits = do
  fail_if
      (is_none reader.read_at
        || (ltb limits.max_encoded_bytes header_bytes
            || (limits.max_record_count == 0 || limits.max_individual_delay_us == 0)))
      header_invalid
  fail_if (ltb reader.size_bytes header_bytes) header_invalid
  fail_if (ltb limits.max_encoded_bytes reader.size_bytes) schedule_limit_exceeded

-- The tests of the constant part of the header.
unfoldable pub check_format : List ℕ → Checked (Unit {0})
check_format bytes = do
  fail_if (not (same_bytes 8 bytes magic)) header_invalid
  fail_if (byte bytes 8 != 1 || byte bytes 10 != 1) version_incompatible
  fail_if (byte bytes 11 != 1 || (read_u16_le bytes 12 != 96 || read_u16_le bytes 14 != 32))
      header_invalid
  fail_if (read_u32_le bytes 16 != 0x00000003) flags_invalid
  fail_if (not (all_zero bytes 88 8)) reserved_field_nonzero

-- The assignments to `header.…`.
unfoldable pub header_fields : List ℕ → Header
header_fields bytes = record {
  protocol_major = byte bytes 8;
  protocol_minor = byte bytes 9;
  schedule_format_version = byte bytes 10;
  action_count = read_u32_le bytes 20;
  payload_bytes = read_u32_le bytes 24;
  total_source_characters = read_u32_le bytes 28;
  total_expected_duration_us = read_u64_le bytes 32;
  job_id = slice bytes 40 16;
  payload_sha256 = slice bytes 56 32;
}

-- The tests of the sizes and the job, up to the hash.
unfoldable pub check_header : Reader → Limits → Header → Checked (Unit {0})
check_header reader limits header = do
  fail_if (header.action_count == 0 || ltb limits.max_record_count header.action_count)
      schedule_limit_exceeded
  let expected_payload = header.action_count * record_bytes % 2 ^ 64
  fail_if (ltb (2 ^ 32 - 1) expected_payload) integer_overflow
  fail_if (header.payload_bytes != expected_payload % 2 ^ 32) action_count_mismatch
  fail_if (ltb (2 ^ 64 - 1 - header_bytes) expected_payload) integer_overflow
  let expected_size = (header_bytes + expected_payload) % 2 ^ 64
  fail_if (expected_size != reader.size_bytes) payload_size_invalid
  fail_if (ltb limits.max_encoded_bytes expected_size) schedule_limit_exceeded
  fail_if (header.total_source_characters == 0) source_index_invalid
  fail_if (all_zero header.job_id 0 16) job_id_invalid

-- All that stands before the hash.
unfoldable pub read_header : Reader → Limits → Checked Header
read_header reader limits = do
  check_arguments reader limits
  bytes ← or_fail (read_exact reader 0 header_bytes) reader_error
  check_format bytes
  let header = header_fields bytes
  check_header reader limits header
  pass header

-- `memset(verified_schedule, 0, …)`.
abbrev pub zero_schedule : VerifiedSchedule
zero_schedule = record {
  verification_token = 0;
  reader = record { size_bytes = 0; read_at = none };
  limits = record { max_encoded_bytes = 0; max_record_count = 0; max_individual_delay_us = 0 };
  header = record {
    protocol_major = 0;
    protocol_minor = 0;
    schedule_format_version = 0;
    action_count = 0;
    payload_bytes = 0;
    total_source_characters = 0;
    total_expected_duration_us = 0;
    job_id = replicate 16 0;
    payload_sha256 = replicate 32 0;
  };
}

-- The result for the outcome of the last pass.
conclude : Reader → Limits → Header → Checked (Unit {0}) → ProtocolError × VerifiedSchedule
conclude reader limits header (fail e) = (e, zero_schedule)
conclude reader limits header (pass _) = (
  ok,
  record {
    verification_token = verification_token;
    reader = reader;
    limits = limits;
    header = header;
  },
)

abbrev pub is_ok : ProtocolError → Bool
is_ok ok = true
is_ok _ = false

-- The returned code, `*verified_schedule` and the provider's context.
unfoldable pub verify :
    {C : Type 0} → Reader → Limits → Sha256Provider C → C → ProtocolError × VerifiedSchedule × C
unfolding conclude
verify reader limits sha256 c = elim (read_header reader limits) [
  | fail e ↦ (e, zero_schedule, c)
  | pass header ↦
      let (hash_error, c') = verify_payload_sha256 reader header sha256 c in
      if not (is_ok hash_error)
      then (hash_error, zero_schedule, c')
      else let (e, v) = conclude reader limits header (validate_records reader limits header) in
        (e, v, c')
]

unfoldable pub is_verified : VerifiedSchedule → Bool
is_verified schedule = schedule.verification_token == verification_token

unfoldable pub read_record : VerifiedSchedule → ℕ → Checked ActionRecord
unfolding is_verified
read_record schedule record_index = do
  fail_if (not (is_verified schedule)) not_verified
  fail_if (leb schedule.header.action_count record_index) action_count_mismatch
  read_record_unverified schedule.reader record_index schedule.limits.max_individual_delay_us

-- ===== src/Protocol/Sample.antt =====
-- A schedule of one character and the cleanup, as a buffer in memory.
use typxen.Base.{
  ℕ, ◌+◌, ◌≡◌, refl, true, some, List, [], ◌∷◌, arith, length, replicate, All-take, All-drop, drop,
}
use typxen.Protocol.Types.{ok, Reader, Sha256Provider, esp32_cam_limits}
use typxen.Protocol.Bytes.{
  slice, read_u16_le, read_u32_le, read_u64_le, read_exact, all_zero, same_bytes,
}
use typxen.Protocol.Record.{
  supported_keycode, record_fields, delay_fault, flags_fault, decode_record, read_record_unverified,
}
use typxen.Protocol.Payload.{verify_payload_sha256}
use typxen.Protocol.Validate.{check_record, validate_from, validate_records}
use typxen.Protocol.Verify.{
  check_arguments, check_format, header_fields, check_header, read_header, verify,
}
use typxen.Protocol.Decoding.{IsByte, IsBytes}
use typxen.Protocol.Verified.{GivesBytes}

-- The header, the record of a capital A, and the three cleanup records.
abbrev pub image : List ℕ
image =
    84 ∷ 89 ∷ 80 ∷ 88 ∷ 72 ∷ 73 ∷ 68 ∷ 49 ∷ 1 ∷ 0 ∷ 1 ∷ 1 ∷ 96 ∷ 0 ∷ 32 ∷ 0 ∷ 3 ∷ 0 ∷ 0 ∷ 0 ∷ 4 ∷ 0
    ∷ 0 ∷ 0 ∷ 128 ∷ 0 ∷ 0 ∷ 0 ∷ 1 ∷ 0 ∷ 0 ∷ 0 ∷ 144 ∷ 126 ∷ 0 ∷ 0 ∷ 0 ∷ 0 ∷ 0 ∷ 0 ∷ 9 ∷ 0 ∷ 0 ∷ 0
    ∷ 0 ∷ 0 ∷ 0 ∷ 0 ∷ 0 ∷ 0 ∷ 0 ∷ 0 ∷ 0 ∷ 0 ∷ 0 ∷ 0 ∷ 7 ∷ 7 ∷ 7 ∷ 7 ∷ 7 ∷ 7 ∷ 7 ∷ 7 ∷ 7 ∷ 7 ∷ 7 ∷ 7
    ∷ 7 ∷ 7 ∷ 7 ∷ 7 ∷ 7 ∷ 7 ∷ 7 ∷ 7 ∷ 7 ∷ 7 ∷ 7 ∷ 7 ∷ 7 ∷ 7 ∷ 7 ∷ 7 ∷ 7 ∷ 7 ∷ 7 ∷ 7 ∷ 0 ∷ 0 ∷ 0 ∷ 0
    ∷ 0 ∷ 0 ∷ 0 ∷ 0 ∷ 0 ∷ 0 ∷ 0 ∷ 0 ∷ 64 ∷ 31 ∷ 0 ∷ 0 ∷ 100 ∷ 0 ∷ 0 ∷ 0 ∷ 1 ∷ 0 ∷ 0 ∷ 0 ∷ 2 ∷ 4 ∷ 9
    ∷ 0 ∷ 1 ∷ 1 ∷ 0 ∷ 0 ∷ 0 ∷ 0 ∷ 0 ∷ 0 ∷ 0 ∷ 0 ∷ 0 ∷ 0 ∷ 0 ∷ 0 ∷ 0 ∷ 0 ∷ 64 ∷ 31 ∷ 0 ∷ 0 ∷ 100 ∷ 0
    ∷ 0 ∷ 0 ∷ 1 ∷ 0 ∷ 0 ∷ 0 ∷ 0 ∷ 41 ∷ 14 ∷ 0 ∷ 1 ∷ 1 ∷ 0 ∷ 0 ∷ 0 ∷ 0 ∷ 0 ∷ 0 ∷ 0 ∷ 0 ∷ 0 ∷ 0 ∷ 0
    ∷ 0 ∷ 0 ∷ 0 ∷ 64 ∷ 31 ∷ 0 ∷ 0 ∷ 100 ∷ 0 ∷ 0 ∷ 0 ∷ 1 ∷ 0 ∷ 0 ∷ 0 ∷ 3 ∷ 77 ∷ 14 ∷ 0 ∷ 1 ∷ 1 ∷ 0
    ∷ 0 ∷ 0 ∷ 0 ∷ 0 ∷ 0 ∷ 0 ∷ 0 ∷ 0 ∷ 0 ∷ 0 ∷ 0 ∷ 0 ∷ 0 ∷ 64 ∷ 31 ∷ 0 ∷ 0 ∷ 100 ∷ 0 ∷ 0 ∷ 0 ∷ 1 ∷ 0
    ∷ 0 ∷ 0 ∷ 0 ∷ 76 ∷ 14 ∷ 0 ∷ 1 ∷ 1 ∷ 0 ∷ 0 ∷ 0 ∷ 0 ∷ 0 ∷ 0 ∷ 0 ∷ 0 ∷ 0 ∷ 0 ∷ []

-- The record of the capital A.
abbrev pub first_record : List ℕ
first_record =
    0 ∷ 0 ∷ 0 ∷ 0 ∷ 64 ∷ 31 ∷ 0 ∷ 0 ∷ 100 ∷ 0 ∷ 0 ∷ 0 ∷ 1 ∷ 0 ∷ 0 ∷ 0 ∷ 2 ∷ 4 ∷ 9 ∷ 0 ∷ 1 ∷ 1 ∷ 0
    ∷ 0 ∷ 0 ∷ 0 ∷ 0 ∷ 0 ∷ 0 ∷ 0 ∷ 0 ∷ 0 ∷ []

-- A buffer in memory as a reader.
abbrev pub image_reader : Reader
image_reader = record {
  size_bytes = length image;
  read_at = some (λ offset n. some (slice image offset n));
}

-- A provider that knows one digest.
abbrev pub fixed_sha256 : ℕ → Sha256Provider ℕ
fixed_sha256 digest = record {
  begin = some (λ c. (true, 0));
  update = some (λ bytes c. (true, c + length bytes));
  finish = some (λ c. (some (replicate 32 digest), c));
}

pub image-IsBytes : IsBytes image
image-IsBytes = omega arith

pub image_reader-GivesBytes : GivesBytes image_reader
unfolding read_exact
image_reader-GivesBytes offset n bytes h =
    let whole =
      All-take IsByte n (drop offset image) (All-drop IsByte offset image image-IsBytes) in
    ground (arith, whole)

pub image-accepted : (verify image_reader esp32_cam_limits (fixed_sha256 7) 0).0 ≡ ok
unfolding verify read_header check_arguments check_format header_fields check_header read_u16_le
    read_u32_le read_u64_le read_exact all_zero same_bytes supported_keycode record_fields
    delay_fault flags_fault decode_record read_record_unverified verify_payload_sha256 check_record
    validate_from validate_records esp32_cam_limits
image-accepted = refl

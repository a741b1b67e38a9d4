-- ===== src/Protocol/Verified.antt =====
-- What `verify` accepts, and what a verified schedule gives to its reader.
use typxen.Base.{ℕ, ◌+◌, ◌*◌, ◌^◌, ◌≤◌, ◌<◌, ◌≡◌, ◌≢◌, ◌↔◌, inl, inr, false, some, List, arith}
use typxen.Protocol.Types.{
  ok, Reader, Limits, Header, ActionRecord, Sha256Provider, VerifiedSchedule, header_bytes,
  record_bytes, pass, Checked-cases,
}
use typxen.Protocol.Bytes.{read_exact, read_u64_le, read_u32_le}
use typxen.Protocol.Payload.{verify_payload_sha256}
use typxen.Protocol.Validate.{validate_records}
use typxen.Protocol.Verify.{
  verification_token, check_arguments, check_format, header_fields, check_header, read_header,
  zero_schedule, verify, is_verified,
}
use typxen.Protocol.Codes.{read_header-FailsProperly, validate_records-FailsProperly}
use typxen.Protocol.Decoding.{IsBytes, byte-IsByte, read_u32_le_lem, read_u64_le_lem}
use typxen.Protocol.Schedule.{IsSchedule, validate_records_iff}

-- Whatever the reader gives is made of bytes.
abbrev pub GivesBytes : Reader → Type 0
GivesBytes reader =
    (offset n : ℕ) (bytes : List ℕ) → read_exact reader offset n ≡ some bytes → IsBytes bytes

-- What the tests of the header establish.
pub record IsHeaderOf (reader : Reader) (limits : Limits) (header : Header) : Type 0 where
  pub some_records : 0 < header.action_count
  pub few_records : header.action_count ≤ limits.max_record_count
  pub exact_size : reader.size_bytes ≡ header_bytes + header.action_count * record_bytes
  pub exact_payload : header.payload_bytes ≡ header.action_count * record_bytes
  pub fits : reader.size_bytes ≤ limits.max_encoded_bytes
  pub has_source : 0 < header.total_source_characters
  pub duration_word : header.total_expected_duration_us < 2 ^ 64

read_u32_le-lt : (bytes : List ℕ) (at : ℕ) → IsBytes bytes → read_u32_le bytes at < 2 ^ 32
read_u32_le-lt bytes at h = omega (
  arith,
  read_u32_le_lem bytes at h,
  byte-IsByte bytes at h,
  byte-IsByte bytes (at + 1) h,
  byte-IsByte bytes (at + 2) h,
  byte-IsByte bytes (at + 3) h,
)

read_u64_le-lt : (bytes : List ℕ) (at : ℕ) → IsBytes bytes → read_u64_le bytes at < 2 ^ 64
read_u64_le-lt bytes at h =
    omega (
      arith,
      read_u64_le_lem bytes at h,
      read_u32_le-lt bytes at h,
      read_u32_le-lt bytes (at + 4) h,
    )

read_header_pass :
    (reader : Reader) (limits : Limits) {header : Header}
    → read_header reader limits ≡ pass header
    → (bytes : List ℕ) × (read_exact reader 0 header_bytes ≡ some bytes)
      × (check_arguments reader limits ≡ pass tt)
      × (check_format bytes ≡ pass tt)
      × (header ≡ header_fields bytes)
      × (check_header reader limits header ≡ pass tt)
unfolding read_header
read_header_pass reader limits h = ground arith

-- A header that is accepted fits the reader's size and the limits.
pub read_header-IsHeaderOf :
    (reader : Reader) (limits : Limits) {header : Header}
    → GivesBytes reader
    → read_header reader limits ≡ pass header
    → IsHeaderOf reader limits header
unfolding check_header header_fields
read_header-IsHeaderOf reader limits {header} given h =
    let (bytes, read, arguments, format, fields, checked) = read_header_pass reader limits h in
    let b = given 0 header_bytes bytes read in
    ground (
      arith,
      fields,
      checked,
      read_u32_le-lt bytes 20 b,
      read_u32_le-lt bytes 24 b,
      read_u64_le-lt bytes 32 b,
    )

-- What `verify` leaves in `*verified_schedule` on success.
abbrev pub schedule_of : Reader → Limits → Header → VerifiedSchedule
schedule_of reader limits header = record {
  verification_token = verification_token;
  reader = reader;
  limits = limits;
  header = header;
}

module _ {C : Type 0} (reader : Reader) (limits : Limits) (sha256 : Sha256Provider C) (c : C) where
  -- Everything that a schedule must satisfy, with its header and its records.
  pub record IsAccepted (header : Header) (records : List ActionRecord) : Type 0 where
    pub headed : read_header reader limits ≡ pass header
    pub hashed : (verify_payload_sha256 reader header sha256 c).0 ≡ ok
    pub holds : IsSchedule reader limits header records

  verify_ok :
      {header : Header}
      → read_header reader limits ≡ pass header
      → (verify_payload_sha256 reader header sha256 c).0 ≡ ok
      → validate_records reader limits header ≡ pass tt
      → ((verify reader limits sha256 c).0 ≡ ok)
        × ((verify reader limits sha256 c).1 ≡ schedule_of reader limits header)
  unfolding verify
  verify_ok p q r = ground arith

  verify_ok_inversion :
      (verify reader limits sha256 c).0 ≡ ok
      → (header : Header) × (read_header reader limits ≡ pass header)
        × ((verify_payload_sha256 reader header sha256 c).0 ≡ ok)
        × (validate_records reader limits header ≡ pass tt)
  unfolding verify
  verify_ok_inversion h = elim (Checked-cases (read_header reader limits)) [
    | inl (e, headed) ↦ absurd (ground (arith, read_header-FailsProperly reader limits))
    | inr (header, headed) ↦ elim (Checked-cases (validate_records reader limits header)) [
      | inl (e, checked) ↦
          absurd (ground (arith, validate_records-FailsProperly reader limits header))
      | inr (_, checked) ↦ (header, headed, ground arith, checked)
    ]
  ]

  -- `verify` returns OK exactly if the header passes its tests, the digest of the payload is the
  -- one of the header, and the payload holds a valid schedule for the header; it then hands out
  -- this reader, these limits and this header under the verification token.
  pub verify_iff :
      GivesBytes reader
      → ((verify reader limits sha256 c).0 ≡ ok) ↔ (
          (header : Header) × (records : List ActionRecord) × IsAccepted header records
          × ((verify reader limits sha256 c).1 ≡ schedule_of reader limits header))
  verify_iff given = (sound, complete)
    where
      sound :
          (verify reader limits sha256 c).0 ≡ ok
          → (header : Header) × (records : List ActionRecord) × IsAccepted header records
            × ((verify reader limits sha256 c).1 ≡ schedule_of reader limits header)
      sound h =
          let (header, headed, hashed, checked) = verify_ok_inversion h in
          let word = (read_header-IsHeaderOf reader limits given headed).duration_word in
          let (records, holds) = (validate_records_iff reader limits header word).0 checked in
          (
            header,
            records,
            record { headed = headed; hashed = hashed; holds = holds },
            (verify_ok headed hashed checked).1,
          )

      complete :
          ((header : Header) × (records : List ActionRecord) × IsAccepted header records
            × ((verify reader limits sha256 c).1 ≡ schedule_of reader limits header))
          → (verify reader limits sha256 c).0 ≡ ok
      complete (header, records, accepted, _) =
          let word = (read_header-IsHeaderOf reader limits given accepted.headed).duration_word in
          (verify_ok accepted.headed accepted.hashed
            ((validate_records_iff reader limits header word).1 (records, accepted.holds))).0

  -- Where `verify` returns an error, nothing is verified: the schedule is all zero.
  pub verify_error :
      (verify reader limits sha256 c).0 ≢ ok
      → ((verify reader limits sha256 c).1 ≡ zero_schedule)
        × (is_verified (verify reader limits sha256 c).1 ≡ false)
  unfolding verify is_verified
  verify_error h = ground arith

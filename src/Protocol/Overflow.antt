-- ===== src/Protocol/Overflow.antt =====
-- The overflow guards of the verification are never hit under limits such as the device's.
use typxen.Base.{
  ℕ, zero, suc, ◌+◌, ◌*◌, ◌^◌, ◌≤◌, ◌<◌, ◌≡◌, ◌≢◌, refl, inl, inr, List, arith, Option-cases,
}
use typxen.Protocol.Types.{
  integer_overflow, Reader, Limits, Header, ActionRecord, Sha256Provider, header_bytes,
  record_bytes, Checked, pass, fail, ◌>>=◌, Checked-cases,
}
use typxen.Protocol.Bytes.{read_exact}
use typxen.Protocol.Record.{delay_fault, decode_record, read_record_unverified}
use typxen.Protocol.Payload.{verify_payload_sha256}
use typxen.Protocol.Validate.{duration, check_record, validate_from, validate_records}
use typxen.Protocol.Verify.{
  check_arguments, check_format, check_header, header_fields, read_header, verify,
}

-- The limits keep every size and every sum of delays within its word.
pub record IsModest (limits : Limits) : Type 0 where
  pub few_records : limits.max_record_count * record_bytes < 2 ^ 32
  pub short : limits.max_record_count * (3 * limits.max_individual_delay_us) < 2 ^ 64

abbrev NoOverflow {ℓ} : {A : Type ℓ} → Checked A → Type ℓ
NoOverflow m = m ≢ fail integer_overflow

>>=-NoOverflow {ℓ κ} :
    {A : Type ℓ} {B : Type κ} (m : Checked A) (f : A → Checked B)
    → NoOverflow m
    → ((a : A) → m ≡ pass a → NoOverflow (f a))
    → NoOverflow (m >>= f)
>>=-NoOverflow (pass a) f h k = k a refl
>>=-NoOverflow (fail e) f h k = λ q. h (cc)

decode_record_lem :
    (bytes : List ℕ) (max_delay : ℕ)
    → NoOverflow (decode_record bytes max_delay)
      × ((r : ActionRecord) → decode_record bytes max_delay ≡ pass r → duration r ≤ 3 * max_delay)
unfolding decode_record delay_fault duration
decode_record_lem bytes max_delay = (λ h. ground arith, λ r h. ground arith)

read_record_unverified_lem :
    (reader : Reader) (index max_delay : ℕ)
    → NoOverflow (read_record_unverified reader index max_delay)
      × ((r : ActionRecord)
          → read_record_unverified reader index max_delay ≡ pass r
          → duration r ≤ 3 * max_delay)
unfolding read_record_unverified
read_record_unverified_lem reader index max_delay =
    elim (Option-cases (read_exact reader (header_bytes + index * record_bytes) record_bytes)) [
      | inl e ↦ rw e (λ h. cc, λ r h. cc)
      | inr (bytes, e) ↦ rw e (decode_record_lem bytes max_delay)
    ]

check_record_lem :
    (header : Header) (index previous total : ℕ) (r : ActionRecord)
    → total + duration r < 2 ^ 64
    → NoOverflow (check_record header index previous total r)
      × ((t : ℕ) → check_record header index previous total r ≡ pass t → t ≡ total + duration r)
unfolding check_record
check_record_lem header index previous total r h = (λ e. ground arith, λ t e. ground arith)

validate_from_lem :
    (reader : Reader) (limits : Limits) (header : Header) (rounds index previous total : ℕ)
    → total + rounds * (3 * limits.max_individual_delay_us) < 2 ^ 64
    → NoOverflow (validate_from reader limits header rounds index previous total)
unfolding validate_from
validate_from_lem reader limits header zero index previous total h = λ e. cc
validate_from_lem reader limits header (suc rounds) index previous total h =
    let max_delay = limits.max_individual_delay_us in
    let (reads, short) = read_record_unverified_lem reader index max_delay in
    >>=-NoOverflow _ _ reads (λ r e.
      let fits : total + duration r + rounds * (3 * max_delay) < 2 ^ 64 =
        omega (arith, short r e) in
      let (checks, sum) = check_record_lem header index previous total r (omega arith) in
      >>=-NoOverflow _ _ checks (λ t e'.
        validate_from_lem reader limits header rounds (index + 1) r.source_index t
          (omega (arith, sum t e'))))

check_header_lem :
    (reader : Reader) (limits : Limits) (header : Header)
    → limits.max_record_count * record_bytes < 2 ^ 32
    → NoOverflow (check_header reader limits header)
      × (check_header reader limits header ≡ pass tt
          → header.action_count ≤ limits.max_record_count)
unfolding check_header
check_header_lem reader limits header few = (λ h. ground arith, λ h. ground arith)

check_format_lem : (bytes : List ℕ) → NoOverflow (check_format bytes)
unfolding check_format
check_format_lem bytes = λ h. ground arith

check_arguments_lem :
    (reader : Reader) (limits : Limits) → NoOverflow (check_arguments reader limits)
unfolding check_arguments
check_arguments_lem reader limits = λ h. ground arith

read_header_lem :
    (reader : Reader) (limits : Limits)
    → limits.max_record_count * record_bytes < 2 ^ 32
    → NoOverflow (read_header reader limits)
      × ((header : Header)
          → read_header reader limits ≡ pass header
          → header.action_count ≤ limits.max_record_count)
unfolding read_header
read_header_lem reader limits few = elim (Option-cases (read_exact reader 0 header_bytes)) [
  | inl e ↦ rw e (λ h. ground (arith, check_arguments_lem reader limits), λ header h. ground arith)
  | inr (bytes, e) ↦
      let fits = check_header_lem reader limits (header_fields bytes) few in
      rw e (
        λ h. ground (arith, check_arguments_lem reader limits, check_format_lem bytes, fits.0),
        λ header h. ground (arith, fits.1),
      )
]

validate_records_lem :
    (reader : Reader) (limits : Limits) (header : Header)
    → header.action_count * (3 * limits.max_individual_delay_us) < 2 ^ 64
    → NoOverflow (validate_records reader limits header)
unfolding validate_records
validate_records_lem reader limits header h = λ e.
    ground (arith, validate_from_lem reader limits header header.action_count 0 0 0 (omega arith))

verify_payload_sha256_lem :
    {C : Type 0} (reader : Reader) (header : Header) (sha256 : Sha256Provider C) (c : C)
    → (verify_payload_sha256 reader header sha256 c).0 ≢ integer_overflow
unfolding verify_payload_sha256
verify_payload_sha256_lem reader header sha256 c = λ e. ground arith

-- Under modest limits `verify` never returns INTEGER_OVERFLOW, whatever the reader holds.
pub verify-ne-integer_overflow :
    {C : Type 0} (reader : Reader) (limits : Limits) (sha256 : Sha256Provider C) (c : C)
    → IsModest limits
    → (verify reader limits sha256 c).0 ≢ integer_overflow
unfolding verify
verify-ne-integer_overflow reader limits sha256 c modest e =
    elim (Checked-cases (read_header reader limits)) [
      | inl (code, headed) ↦ ground (arith, (read_header_lem reader limits modest.few_records).0)
      | inr (header, headed) ↦
          let few = (read_header_lem reader limits modest.few_records).1 header headed in
          let all : header.action_count * (3 * limits.max_individual_delay_us)
              ≤ limits.max_record_count * (3 * limits.max_individual_delay_us) =
            grind arith in
          ground (
            arith,
            verify_payload_sha256_lem reader header sha256 c,
            validate_records_lem reader limits header (omega arith),
          )
    ]

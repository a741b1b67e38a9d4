-- ===== src/Protocol/Codes.antt =====
-- A test that fails returns an error code, never `ok`.
use typxen.Base.{ℕ, zero, suc, ◌+◌, ◌*◌, ◌≢◌, inl, inr, List, arith, Option-cases}
use typxen.Protocol.Types.{
  ok, Reader, Limits, Header, ActionRecord, Checked, pass, fail, ◌>>=◌, header_bytes, record_bytes,
}
use typxen.Protocol.Bytes.{read_exact}
use typxen.Protocol.Record.{decode_record, read_record_unverified}
use typxen.Protocol.Validate.{check_record, validate_from, validate_records}
use typxen.Protocol.Verify.{check_arguments, check_format, check_header, header_fields, read_header}

-- `code` of a failed chain is an error.
abbrev pub FailsProperly {ℓ} : {A : Type ℓ} → Checked A → Type ℓ
FailsProperly m = m ≢ fail ok

>>=-FailsProperly {ℓ κ} :
    {A : Type ℓ} {B : Type κ} (m : Checked A) (f : A → Checked B)
    → FailsProperly m
    → ((a : A) → FailsProperly (f a))
    → FailsProperly (m >>= f)
>>=-FailsProperly (pass a) f h k = k a
>>=-FailsProperly (fail e) f h k = λ q. h (cc)

decode_record-FailsProperly :
    (bytes : List ℕ) (max_delay : ℕ) → FailsProperly (decode_record bytes max_delay)
unfolding decode_record
decode_record-FailsProperly bytes max_delay = λ h. ground arith

pub read_record_unverified-FailsProperly :
    (reader : Reader) (index max_delay : ℕ)
    → FailsProperly (read_record_unverified reader index max_delay)
unfolding read_record_unverified
read_record_unverified-FailsProperly reader index max_delay =
    elim (Option-cases (read_exact reader (header_bytes + index * record_bytes) record_bytes)) [
      | inl e ↦ rw e (λ h. cc)
      | inr (bytes, e) ↦ rw e (decode_record-FailsProperly bytes max_delay)
    ]

check_record-FailsProperly :
    (header : Header) (index previous total : ℕ) (r : ActionRecord)
    → FailsProperly (check_record header index previous total r)
unfolding check_record
check_record-FailsProperly header index previous total r = λ h. ground arith

validate_from-FailsProperly :
    (reader : Reader) (limits : Limits) (header : Header) (rounds index previous total : ℕ)
    → FailsProperly (validate_from reader limits header rounds index previous total)
unfolding validate_from
validate_from-FailsProperly reader limits header zero index previous total = λ h. cc
validate_from-FailsProperly reader limits header (suc rounds) index previous total =
    >>=-FailsProperly _ _
      (read_record_unverified-FailsProperly reader index limits.max_individual_delay_us)
      (λ r.
        >>=-FailsProperly _ _ (check_record-FailsProperly header index previous total r) (λ t.
          validate_from-FailsProperly reader limits header rounds (index + 1) r.source_index t))

pub validate_records-FailsProperly :
    (reader : Reader) (limits : Limits) (header : Header)
    → FailsProperly (validate_records reader limits header)
unfolding validate_records
validate_records-FailsProperly reader limits header =
    λ h. ground (arith, validate_from-FailsProperly reader limits header header.action_count 0 0 0)

check_arguments-FailsProperly :
    (reader : Reader) (limits : Limits) → FailsProperly (check_arguments reader limits)
unfolding check_arguments
check_arguments-FailsProperly reader limits = λ h. ground arith

check_format-FailsProperly : (bytes : List ℕ) → FailsProperly (check_format bytes)
unfolding check_format
check_format-FailsProperly bytes = λ h. ground arith

check_header-FailsProperly :
    (reader : Reader) (limits : Limits) (header : Header)
    → FailsProperly (check_header reader limits header)
unfolding check_header
check_header-FailsProperly reader limits header = λ h. ground arith

pub read_header-FailsProperly :
    (reader : Reader) (limits : Limits) → FailsProperly (read_header reader limits)
unfolding read_header
read_header-FailsProperly reader limits =
    >>=-FailsProperly _ _ (check_arguments-FailsProperly reader limits) (λ _.
      elim (Option-cases (read_exact reader 0 header_bytes)) [
        | inl e ↦ rw e (λ h. cc)
        | inr (bytes, e) ↦ rw e (
            >>=-FailsProperly _ _ (check_format-FailsProperly bytes) (λ _.
              >>=-FailsProperly _ _ (check_header-FailsProperly reader limits (header_fields bytes))
                (λ _ h. cc)))
      ])

-- ===== src/Protocol/Types.antt =====
-- The types, limits and error codes of typx_protocol.h, and early return as a monad.
use typxen.Base.{ℕ, ◌*◌, ◌≡◌, refl, ◌⊎◌, inl, inr, Bool, true, false, Option, none, some, List}

pub data ProtocolError : Type 0 where
  ok reader_error header_invalid version_incompatible payload_size_invalid : ProtocolError
  action_count_mismatch schedule_limit_exceeded checksum_mismatch flags_invalid : ProtocolError
  reserved_field_nonzero job_id_invalid delay_invalid modifier_invalid : ProtocolError
  keycode_unsupported source_index_invalid total_duration_invalid : ProtocolError
  final_cleanup_invalid not_verified integer_overflow : ProtocolError

abbrev pub header_bytes : ℕ
header_bytes = 96

abbrev pub record_bytes : ℕ
record_bytes = 32

abbrev pub flag_source : ℕ
flag_source = 0x0001

abbrev pub flag_technical : ℕ
flag_technical = 0x0002

abbrev pub flag_final_cleanup : ℕ
flag_final_cleanup = 0x0004

abbrev pub flag_release_all : ℕ
flag_release_all = 0x0008

-- `read_at offset length` gives that many bytes, or nothing where the callback returns false.
pub record Reader : Type 0 where
  pub size_bytes : ℕ
  pub read_at : Option (ℕ → ℕ → Option (List ℕ))

-- The callbacks act on the provider's context, which is passed through.
pub record Sha256Provider (C : Type 0) : Type 0 where
  pub begin : Option (C → Bool × C)
  pub update : Option (List ℕ → C → Bool × C)
  pub finish : Option (C → Option (List ℕ) × C)

pub record Limits : Type 0 where
  pub max_encoded_bytes : ℕ
  pub max_record_count : ℕ
  pub max_individual_delay_us : ℕ

pub record Header : Type 0 where
  pub protocol_major : ℕ
  pub protocol_minor : ℕ
  pub schedule_format_version : ℕ
  pub action_count : ℕ
  pub payload_bytes : ℕ
  pub total_source_characters : ℕ
  pub total_expected_duration_us : ℕ
  pub job_id : List ℕ
  pub payload_sha256 : List ℕ

pub record ActionRecord : Type 0 where
  pub wait_before_key_down_us : ℕ
  pub key_down_hold_us : ℕ
  pub wait_after_release_us : ℕ
  pub source_index : ℕ
  pub modifier : ℕ
  pub keycode : ℕ
  pub flags : ℕ

pub record VerifiedSchedule : Type 0 where
  pub verification_token : ℕ
  pub reader : Reader
  pub limits : Limits
  pub header : Header

unfoldable pub generic_limits : Limits
generic_limits = record {
  max_encoded_bytes = 8000096;
  max_record_count = 250000;
  max_individual_delay_us = 600000000;
}

unfoldable pub esp32_cam_limits : Limits
esp32_cam_limits = record {
  max_encoded_bytes = 512 * 1024;
  max_record_count = 16381;
  max_individual_delay_us = 600000000;
}

-- What a chain of tests with early returns comes to.
pub data Checked {ℓ} (A : Type ℓ) : Type ℓ where
  pass : A → Checked A
  fail : ProtocolError → Checked A

infixl 5 ◌>>=◌ ◌>>◌
abbrev pub ◌>>=◌ {ℓ κ} : {A : Type ℓ} {B : Type κ} → Checked A → (A → Checked B) → Checked B
pass a >>= f = f a
fail e >>= f = fail e

abbrev pub ◌>>◌ {ℓ} : {B : Type ℓ} → Checked (Unit {0}) → Checked B → Checked B
m >> k = m >>= λ _. k

abbrev pub fail_if : Bool → ProtocolError → Checked (Unit {0})
fail_if true e = fail e
fail_if false e = pass tt

abbrev pub or_fail {ℓ} : {A : Type ℓ} → Option A → ProtocolError → Checked A
or_fail none e = fail e
or_fail (some a) e = pass a

-- The error code that the function returns.
abbrev pub code {ℓ} : {A : Type ℓ} → Checked A → ProtocolError
code (pass _) = ok
code (fail e) = e

pub Checked-cases {ℓ} :
    {A : Type ℓ} (m : Checked A) → ((e : ProtocolError) × (m ≡ fail e)) ⊎ ((a : A) × (m ≡ pass a))
Checked-cases (pass a) = inr (a, refl)
Checked-cases (fail e) = inl (e, refl)

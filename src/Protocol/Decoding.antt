-- ===== src/Protocol/Decoding.antt =====
-- What the little-endian words are, and what a decoded record satisfies.
use typxen.Base.{
  ℕ, ◌+◌, ◌*◌, ◌^◌, ◌≤◌, ◌<◌, ◌≡◌, ◌⊎◌, refl, true, false, ◌||◌, List, arith, bit_and, All,
  All-get_or, bit_or_fields, passes_under, passes_under_at, ◌==◌, ◌!=◌, ltb,
}
use typxen.Protocol.Types.{ActionRecord, pass}
use typxen.Protocol.Bytes.{byte, read_u16_le, read_u32_le, read_u64_le}
use typxen.Protocol.Record.{
  supported_keycode, record_fields, delay_fault, flags_fault, decode_record,
}

abbrev pub IsByte : ℕ → Type 0
IsByte b = b < 2 ^ 8

abbrev pub IsBytes : List ℕ → Type 0
IsBytes = All IsByte

pub byte-IsByte : (bytes : List ℕ) (at : ℕ) → IsBytes bytes → IsByte (byte bytes at)
byte-IsByte bytes at h = All-get_or IsByte bytes at 0 h (omega arith)

-- The little-endian readers are the sums of the bytes at their weights.
pub read_u16_le_lem :
    (bytes : List ℕ) (at : ℕ)
    → IsBytes bytes
    → read_u16_le bytes at ≡ byte bytes at + byte bytes (at + 1) * 256
unfolding read_u16_le
read_u16_le_lem bytes at h =
    bit_or_fields 8 (byte bytes at) (byte bytes (at + 1)) (byte-IsByte bytes at h)

pub read_u32_le_lem :
    (bytes : List ℕ) (at : ℕ)
    → IsBytes bytes
    → read_u32_le bytes at
      ≡ byte bytes at
        + byte bytes (at + 1) * 256
        + byte bytes (at + 2) * 65536
        + byte bytes (at + 3) * 16777216
unfolding read_u32_le
read_u32_le_lem bytes at h =
    let b0 = byte-IsByte bytes at h in
    let b1 = byte-IsByte bytes (at + 1) h in
    let b2 = byte-IsByte bytes (at + 2) h in
    rw (bit_or_fields 8 (byte bytes at) (byte bytes (at + 1)) b0) (
      rw
        (bit_or_fields 16 (byte bytes at + byte bytes (at + 1) * 2 ^ 8) (byte bytes (at + 2))
          (omega arith))
        (bit_or_fields 24
          (byte bytes at + byte bytes (at + 1) * 2 ^ 8 + byte bytes (at + 2) * 2 ^ 16)
          (byte bytes (at + 3)) (omega arith)))

pub read_u64_le_lem :
    (bytes : List ℕ) (at : ℕ)
    → IsBytes bytes
    → read_u64_le bytes at ≡ read_u32_le bytes at + read_u32_le bytes (at + 4) * 2 ^ 32
unfolding read_u64_le
read_u64_le_lem bytes at h =
    let b0 = byte-IsByte bytes at h in
    let b1 = byte-IsByte bytes (at + 1) h in
    let b2 = byte-IsByte bytes (at + 2) h in
    let b3 = byte-IsByte bytes (at + 3) h in
    bit_or_fields 32 (read_u32_le bytes at) (read_u32_le bytes (at + 4))
      (omega (arith, read_u32_le_lem bytes at h))

flags_table : passes_under (λ f. flags_fault f || (f == 9 || (f == 10 || f == 14))) 65536 ≡ true
unfolding passes_under flags_fault
flags_table = refl

flags_lem : (f : ℕ) → f < 65536 → flags_fault f ≡ false → (f ≡ 9) ⊎ ((f ≡ 10) ⊎ (f ≡ 14))
flags_lem f h e = ground (
  arith,
  passes_under_at (λ f. flags_fault f || (f == 9 || (f == 10 || f == 14))) 65536 f h flags_table,
)

modifier_table : passes_under (λ m. bit_and m 0xfc != 0 || ltb m 4) 256 ≡ true
unfolding passes_under
modifier_table = refl

modifier_lem : (m : ℕ) → m < 256 → bit_and m 0xfc ≡ 0 → m < 4
modifier_lem m h e =
    ground (arith, passes_under_at (λ m. bit_and m 0xfc != 0 || ltb m 4) 256 m h modifier_table)

-- What the executor relies on of a record.
pub record IsSafeRecord (max_delay : ℕ) (r : ActionRecord) : Type 0 where
  pub before : r.wait_before_key_down_us ≤ max_delay
  pub hold : r.key_down_hold_us ≡ 8000
  pub after : r.wait_after_release_us ≤ max_delay
  pub shift_or_control : r.modifier < 4
  pub typable : supported_keycode r.keycode ≡ true
  pub releases : (r.flags ≡ 9) ⊎ ((r.flags ≡ 10) ⊎ (r.flags ≡ 14))

decode_record_pass :
    (bytes : List ℕ) (max_delay : ℕ) {r : ActionRecord}
    → decode_record bytes max_delay ≡ pass r
    → (r ≡ record_fields bytes)
      × (delay_fault max_delay r ≡ false)
      × (bit_and r.modifier 0xfc ≡ 0)
      × (supported_keycode r.keycode ≡ true)
      × (flags_fault r.flags ≡ false)
unfolding decode_record
decode_record_pass bytes max_delay h = ground arith

-- Every record that is decoded from bytes waits no longer than the limit, holds its key for 8 ms,
-- has no modifier but the left Control and Shift, a supported key, and one of three sets of flags,
-- each with the release flag: source, technical, or technical and final cleanup.
pub decode_record-IsSafeRecord :
    (bytes : List ℕ) (max_delay : ℕ) {r : ActionRecord}
    → IsBytes bytes
    → decode_record bytes max_delay ≡ pass r
    → IsSafeRecord max_delay r
unfolding record_fields delay_fault
decode_record-IsSafeRecord bytes max_delay {r} b h =
    let p = decode_record_pass bytes max_delay h in
    let m = byte-IsByte bytes 16 b in
    let lo = byte-IsByte bytes 18 b in
    let hi = byte-IsByte bytes 19 b in
    ground (arith, p, read_u16_le_lem bytes 18 b, modifier_lem r.modifier, flags_lem r.flags)

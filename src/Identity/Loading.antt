-- ===== src/Identity/Loading.antt =====
-- The configuration that `load` gives.
use typxen.Base.{
  ℕ, zero, suc, ◌-◌, ◌/◌, ◌%◌, ◌≤◌, ◌<◌, ◌≡◌, refl, Bool, true, false, not, Option, List, [], ◌∷◌,
  ◌++◌, arith, if◌then◌else◌, length, length-append, get_or, drop, replicate, All,
}
use typxen.Identity.Types.{Overrides, valid, IdentityState}
use typxen.Identity.Text.{
  identity_hash, hex_digit, hex, put_text, serial_prefix, generated_serial, text_length, printable,
  text_valid, scan_response_bytes, advertising_fits,
}
use typxen.Identity.Config.{
  validate_battery, validate_texts, validate, defaults_config, defaults, apply, load, is_valid,
}

-- A printable byte that is no space.
abbrev pub IsPlain : ℕ → Type 0
IsPlain b = (33 ≤ b) × (b ≤ 126)

pub All-append : (xs ys : List ℕ) → All IsPlain xs → All IsPlain ys → All IsPlain (xs ++ ys)
All-append [] ys h k = k
All-append (x ∷ xs) ys h k = (h.0, All-append xs ys h.1 k)

hex_digit-IsPlain : (v : ℕ) → IsPlain (hex_digit (v % 16))
hex_digit-IsPlain v = ground arith

pub hex-IsPlain : (n v : ℕ) → All IsPlain (hex n v)
unfolding hex
hex-IsPlain zero v = tt
hex-IsPlain (suc n) v =
    All-append (hex n (v / 16)) _ (hex-IsPlain n (v / 16)) (hex_digit-IsPlain v, tt)

pub length-hex : (n v : ℕ) → length (hex n v) ≡ n
unfolding hex
length-hex zero v = refl
length-hex (suc n) v =
    omega (arith, length-append (hex n (v / 16)) (hex_digit (v % 16) ∷ []), length-hex n (v / 16))

pub text_length-put_text :
    (capacity : ℕ) (text rest : List ℕ)
    → All IsPlain text
    → length text < capacity
    → text_length capacity (text ++ (0 ∷ rest)) ≡ length text
unfolding text_length
text_length-put_text zero text rest h l = absurd (omega arith)
text_length-put_text (suc capacity) [] rest h l = refl
text_length-put_text (suc capacity) (b ∷ text) rest h l =
    ground (arith, text_length-put_text capacity text rest h.1 (omega arith))

printable-append :
    (text rest : List ℕ) → All IsPlain text → printable (length text) (text ++ rest) ≡ true
unfolding printable
printable-append [] rest h = refl
printable-append (b ∷ text) rest h = ground (arith, printable-append text rest h.1)

get_or-append-IsPlain :
    (i : ℕ) (text rest : List ℕ)
    → All IsPlain text
    → i < length text
    → IsPlain (get_or (text ++ rest) i 0)
get_or-append-IsPlain i [] rest h l = absurd (omega arith)
get_or-append-IsPlain zero (b ∷ text) rest h l = h.0
get_or-append-IsPlain (suc i) (b ∷ text) rest h l =
    get_or-append-IsPlain i text rest h.1 (omega arith)

-- A text without a space that fits is valid.
pub put_text-text_valid :
    (buffer text : List ℕ) (capacity : ℕ) (empty_allowed : Bool)
    → All IsPlain text
    → 0 < length text
    → length text < capacity
    → text_valid (put_text buffer text) capacity empty_allowed ≡ true
unfolding text_valid
put_text-text_valid buffer text capacity empty_allowed h some_text fits =
    let rest = drop (suc (length text)) buffer in
    let n = text_length-put_text capacity text rest h fits in
    let first = get_or-append-IsPlain 0 text (0 ∷ rest) h some_text in
    let last = get_or-append-IsPlain (length text - 1) text (0 ∷ rest) h (omega arith) in
    let all = printable-append text (0 ∷ rest) h in rw n (ground (arith, first, last, all))

generated_serial-text_valid :
    (chip_identity : List ℕ)
    → text_valid (generated_serial chip_identity (replicate 33 0)) 33 false ≡ true
unfolding generated_serial
generated_serial-text_valid chip_identity =
    let digits = hex 8 (identity_hash chip_identity) in
    let size = length-append serial_prefix digits in
    let eight = length-hex 8 (identity_hash chip_identity) in
    put_text-text_valid (replicate 33 0) (serial_prefix ++ digits) 33 false
      (All-append serial_prefix digits (omega arith) (hex-IsPlain 8 (identity_hash chip_identity)))
      (omega arith) (omega arith)

with_serial-valid :
    (chip_identity serial : List ℕ)
    → text_valid serial 33 false ≡ true
    → validate (record (defaults_config chip_identity) { serial_number = serial }) false ≡ valid
unfolding validate validate_texts validate_battery defaults_config advertising_fits
    scan_response_bytes text_valid text_length printable
with_serial-valid chip_identity serial h = rw h refl

defaults_config-valid :
    (chip_identity : List ℕ) → validate (defaults_config chip_identity) false ≡ valid
unfolding defaults_config
defaults_config-valid chip_identity =
    with_serial-valid chip_identity (generated_serial chip_identity (replicate 33 0))
      (generated_serial-text_valid chip_identity)

pub defaults-valid :
    (chip_identity : List ℕ) (firmware_revision : Option (List ℕ))
    → validate (defaults chip_identity firmware_revision).config false ≡ valid
unfolding defaults
defaults-valid chip_identity firmware_revision = defaults_config-valid chip_identity

-- The choice at the end of `load`.
choose-valid :
    (candidate fallback : IdentityState)
    → validate fallback.config false ≡ valid
    → validate
        (if not (is_valid (validate candidate.config false)) then fallback else candidate).config
        false
      ≡ valid
choose-valid candidate fallback h = ground arith

-- Whatever the overrides hold, the configuration that `load` gives is valid.
pub load-valid :
    (chip_identity : List ℕ) (firmware_revision : Option (List ℕ)) (overrides : Option Overrides)
    → validate (load chip_identity firmware_revision overrides).config false ≡ valid
unfolding load
load-valid chip_identity firmware_revision overrides =
    choose-valid (apply (defaults chip_identity firmware_revision) overrides)
      (defaults chip_identity firmware_revision) (defaults-valid chip_identity firmware_revision)

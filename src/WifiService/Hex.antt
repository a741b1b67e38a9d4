-- ===== src/WifiService/Hex.antt =====
-- The texts of requests and answers: hexadecimal bytes and 32-bit numbers.
use typxen.Base.{
  ℕ, zero, suc, ◌*◌, ◌/◌, ◌^◌, ◌-◌, Bool, true, false, not, ◌||◌, Option, none, some, List, [], ◌∷◌,
  if◌then◌else◌, ◌==◌, ltb, length, get_or, bit_and,
}
use typxen.Base.Text.{codes, Conversion, strtoul}

abbrev pub hex_digits : List ℕ
hex_digits = codes "0123456789abcdef"

-- `data[index] >> 4` of a byte, and its low four bits.
unfoldable pub format_hex : List ℕ → List ℕ
format_hex [] = []
format_hex (b ∷ data_bytes) =
    get_or hex_digits (b / 16) 0 ∷ get_or hex_digits (bit_and b 0x0f) 0 ∷ format_hex data_bytes

abbrev is_end : List ℕ → Bool
is_end [] = true
is_end (b ∷ text) = false

-- `errno != 0 || *end != '\0' || value > maximum`, or the value.
abbrev pub checked : ℕ → Conversion → Option ℕ
checked maximum c =
    if c.range_error || (not (is_end c.rest) || ltb maximum c.value) then none else some c.value

abbrev and_rest : Option ℕ → Option (List ℕ) → Option (List ℕ)
and_rest none rest = none
and_rest (some b) none = none
and_rest (some b) (some bytes) = some (b ∷ bytes)

-- The loop over the pairs of digits, with the bytes that are left; the length is tested before.
unfoldable pub parse_pairs : ℕ → List ℕ → Option (List ℕ)
unfolding strtoul
parse_pairs zero text = some []
parse_pairs (suc n) (x ∷ y ∷ text) =
    and_rest (checked 255 (strtoul 16 (x ∷ y ∷ []))) (parse_pairs n text)
parse_pairs (suc n) text = none

-- The text is `none` for a NULL pointer; the result is `output`, if the code returns true.
unfoldable pub parse_hex : Option (List ℕ) → ℕ → Option (List ℕ)
unfolding parse_pairs
parse_hex none output_length = none
parse_hex (some text) output_length =
    if length text == output_length * 2 then parse_pairs output_length text else none

unfoldable pub parse_u32 : Option (List ℕ) → ℕ → Option ℕ
unfolding strtoul
parse_u32 none base = none
parse_u32 (some []) base = none
parse_u32 (some text) base = checked (2 ^ 32 - 1) (strtoul base text)

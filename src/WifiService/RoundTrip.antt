-- ===== src/WifiService/RoundTrip.antt =====
-- Bytes that are written in hexadecimal are read back.
use typxen.Base.{
  ℕ, ◌*◌, ◌/◌, ◌<◌, ◌≡◌, refl, Bool, true, false, Option, none, some, List, [], ◌∷◌, ◌==◌, length,
  get_or, bit_and, arith, passes_under, passes_under_at, All,
}
use typxen.Base.Text.{strtoul}
use typxen.WifiService.Hex.{hex_digits, format_hex, checked, parse_pairs, parse_hex}

-- What the two digits of a byte are read as.
abbrev read_pair : ℕ → Option ℕ
unfolding strtoul
read_pair b =
    checked 255
      (strtoul 16 (get_or hex_digits (b / 16) 0 ∷ get_or hex_digits (bit_and b 0x0f) 0 ∷ []))

abbrev is_some_of : ℕ → Option ℕ → Bool
is_some_of b none = false
is_some_of b (some v) = v == b

abbrev reads_back : ℕ → Bool
reads_back b = is_some_of b (read_pair b)

every_byte : passes_under reads_back 256 ≡ true
unfolding strtoul passes_under
every_byte = refl

is_some_of_lem : (b : ℕ) (o : Option ℕ) → is_some_of b o ≡ true → o ≡ some b
is_some_of_lem b o h = ground arith

read_pair_lem : (b : ℕ) → b < 256 → read_pair b ≡ some b
read_pair_lem b h = is_some_of_lem b (read_pair b) (passes_under_at reads_back 256 b h every_byte)

pub length-format_hex : (bytes : List ℕ) → length (format_hex bytes) ≡ length bytes * 2
unfolding format_hex
length-format_hex [] = refl
length-format_hex (b ∷ bytes) = ground (arith, length-format_hex bytes)

parse_pairs-format_hex :
    (bytes : List ℕ)
    → All (λ b. b < 256) bytes
    → parse_pairs (length bytes) (format_hex bytes) ≡ some bytes
unfolding parse_pairs format_hex
parse_pairs-format_hex [] h = refl
parse_pairs-format_hex (b ∷ bytes) (h, hs) =
    rw (read_pair_lem b h, parse_pairs-format_hex bytes hs) refl

-- Bytes, which are below 256, that `format_hex` writes, `parse_hex` reads back.
pub parse_hex-format_hex :
    (bytes : List ℕ)
    → All (λ b. b < 256) bytes
    → parse_hex (some (format_hex bytes)) (length bytes) ≡ some bytes
unfolding parse_hex
parse_hex-format_hex bytes h =
    ground (arith, length-format_hex bytes, parse_pairs-format_hex bytes h)

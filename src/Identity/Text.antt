-- ===== src/Identity/Text.antt =====
-- The texts: the hash of the chip, the generated names and the test of a text.
use typxen.Base.{
  ℕ, zero, suc, ◌+◌, ◌-◌, ◌*◌, ◌/◌, ◌%◌, ◌^◌, Bool, true, false, not, ◌&&◌, ◌||◌, List, [], ◌∷◌,
  ◌++◌, if◌then◌else◌, ◌==◌, ltb, leb, length, get_or, take, drop, bit_xor,
}

-- A step of either loop of `identity_hash`.
unfoldable pub hash_bytes : ℕ → List ℕ → ℕ
hash_bytes hash [] = hash
hash_bytes hash (b ∷ bytes) = hash_bytes (bit_xor hash b * 16777619 % 2 ^ 32) bytes

-- "TypxenIdentityV1", without the NUL.
abbrev salt : List ℕ
salt =
    84 ∷ 121 ∷ 112 ∷ 120 ∷ 101 ∷ 110 ∷ 73 ∷ 100 ∷ 101 ∷ 110 ∷ 116 ∷ 105 ∷ 116 ∷ 121 ∷ 86 ∷ 49 ∷ []

unfoldable pub identity_hash : List ℕ → ℕ
unfolding hash_bytes
identity_hash chip_identity = hash_bytes (hash_bytes 2166136261 salt) (take 6 chip_identity)

-- A digit of `%X`.
abbrev pub hex_digit : ℕ → ℕ
hex_digit n = if ltb n 10 then 48 + n else 55 + n

-- `%0<n>lX` of a number below 16 ^ n.
unfoldable pub hex : ℕ → ℕ → List ℕ
hex zero value = []
hex (suc n) value = hex n (value / 16) ++ (hex_digit (value % 16) ∷ [])

-- A text and its NUL, written to the start of a buffer.
abbrev pub put_text : List ℕ → List ℕ → List ℕ
put_text buffer text = text ++ (0 ∷ drop (suc (length text)) buffer)

-- "TYPX-"
abbrev pub serial_prefix : List ℕ
serial_prefix = 84 ∷ 89 ∷ 80 ∷ 88 ∷ 45 ∷ []

unfoldable pub generated_serial : List ℕ → List ℕ → List ℕ
unfolding identity_hash hex
generated_serial chip_identity output =
    put_text output (serial_prefix ++ hex 8 (identity_hash chip_identity))

-- The prefix is "BOARD-".
unfoldable pub board_identifier : List ℕ → List ℕ → List ℕ
unfolding identity_hash hex
board_identifier chip_identity output =
    put_text output ((66 ∷ 79 ∷ 65 ∷ 82 ∷ 68 ∷ 45 ∷ []) ++ hex 8 (identity_hash chip_identity))

-- The first loop of `text_valid`, with the capacity that is left; without a bound it is `strlen`.
unfoldable pub text_length : ℕ → List ℕ → ℕ
text_length zero text = 0
text_length (suc capacity) [] = 0
text_length (suc capacity) (b ∷ text) = if b == 0 then 0 else suc (text_length capacity text)

-- The second loop of `text_valid`, with the count of the bytes that are left.
unfoldable pub printable : ℕ → List ℕ → Bool
printable zero text = true
printable (suc n) text =
    not (ltb (get_or text 0 0) 0x20 || ltb 0x7e (get_or text 0 0)) && printable n (drop 1 text)

-- `isspace` in the C locale.
abbrev pub isspace : ℕ → Bool
isspace b = b == 32 || (leb 9 b && leb b 13)

unfoldable pub text_valid : List ℕ → ℕ → Bool → Bool
unfolding text_length printable
text_valid text capacity empty_allowed =
    let n = text_length capacity text in
    if leb capacity n || (not empty_allowed && n == 0)
    then false
    else if ltb 0 n && (isspace (get_or text 0 0) || isspace (get_or text (n - 1) 0))
    then false
    else printable n text

unfoldable pub scan_response_bytes : List ℕ → ℕ
unfolding text_length
scan_response_bytes device_name = text_length (length device_name) device_name + 2

unfoldable pub advertising_fits : List ℕ → Bool
unfolding scan_response_bytes
advertising_fits device_name = leb 31 31 && leb (scan_response_bytes device_name) 31

-- ===== src/Base/Text.antt =====
-- Texts as lists of bytes without the NUL, and what the code uses of C's library on them. The
-- target's `unsigned long` has 32 bits.
use Prim.Native.Char.{code}
use Prim.Native.String.{String}
use Prim.Native.Nat.{ℕ, ◌+◌, ◌-◌, ◌*◌, ◌%◌, ◌^◌}
use mathlib.Core.Bool.{Bool, true, false, ◌&&◌, ◌||◌}
use mathlib.Core.List.{List, [], ◌∷◌}
use typxen.Base.Tests.{ltb, leb, ◌==◌, if◌then◌else◌}

abbrev pub codes : String → List ℕ
codes String.[] = []
codes (String.◌∷◌ c s) = code c ∷ codes s

-- `strcmp(xs, ys) == 0`.
unfoldable pub same_text : List ℕ → List ℕ → Bool
same_text [] [] = true
same_text [] (y ∷ ys) = false
same_text (x ∷ xs) [] = false
same_text (x ∷ xs) (y ∷ ys) = x == y && same_text xs ys

-- `isspace` in the C locale.
abbrev pub isspace : ℕ → Bool
isspace b = b == 32 || (leb 9 b && leb b 13)

unfoldable pub skip_space : List ℕ → List ℕ
skip_space [] = []
skip_space (b ∷ text) = if isspace b then skip_space text else b ∷ text

-- The value of a digit or a letter; 36 for any other byte, which is a digit to no base.
unfoldable pub digit_value : ℕ → ℕ
digit_value b =
    if leb b'0' b && leb b b'9'
    then b - b'0'
    else if leb b'a' b && leb b b'z'
    then b - b'a' + 10
    else if leb b'A' b && leb b b'Z'
    then b - b'A' + 10
    else 36

-- The digits of a number: its value, whether there was one, and the rest.
unfoldable pub scan_digits : ℕ → ℕ → Bool → List ℕ → ℕ × Bool × List ℕ
unfolding digit_value
scan_digits base value any [] = (value, any, [])
scan_digits base value any (b ∷ text) =
    let more = scan_digits base (value * base + digit_value b) true text in
    if ltb (digit_value b) base then more else (value, any, b ∷ text)

-- A sign, and the text behind it.
abbrev pub scan_sign : List ℕ → Bool × List ℕ
scan_sign [] = (false, [])
scan_sign (b ∷ text) =
    if b == b'-' then (true, text) else if b == b'+' then (false, text) else (false, b ∷ text)

-- The prefix "0x" of base 16, where a digit follows.
unfoldable pub skip_prefix : ℕ → List ℕ → List ℕ
unfolding digit_value
skip_prefix base (z ∷ x ∷ d ∷ text) =
    if base == 16 && (z == b'0' && ((x == b'x' || x == b'X') && ltb (digit_value d) 16))
    then d ∷ text
    else z ∷ x ∷ d ∷ text
skip_prefix base text = text

-- What a conversion came to: the value, whether it was out of range, and `*end`.
pub record Conversion : Type 0 where
  pub value : ℕ
  pub range_error : Bool
  pub rest : List ℕ

-- The value of the digits with their sign.
abbrev signed_value : Bool → ℕ → ℕ
signed_value negative value = if negative then (2 ^ 32 - value) % 2 ^ 32 else value

unfoldable pub convert : List ℕ → Bool → ℕ × Bool × List ℕ → Conversion
convert text negative (value, any, rest) =
    if any
    then (if ltb (2 ^ 32 - 1) value
        then record { value = 2 ^ 32 - 1; range_error = true; rest = rest }
        else record { value = signed_value negative value; range_error = false; rest = rest })
    else record { value = 0; range_error = false; rest = text }

-- `strtoul(text, &end, base)`; without digits `*end` is the start.
unfoldable pub strtoul : ℕ → List ℕ → Conversion
unfolding skip_space skip_prefix scan_digits convert
strtoul base text =
    let (negative, digits) = scan_sign (skip_space text) in
    convert text negative (scan_digits base 0 false (skip_prefix base digits))

-- ===== src/HidRuntime/RoundTrip.antt =====
-- A command that is written out as arguments is read back.
use typxen.Base.{
  ℕ, zero, suc, ◌+◌, ◌*◌, ◌/◌, ◌%◌, ◌^◌, ◌≤◌, ◌<◌, ◌≡◌, inl, inr, refl, sym, Bool, true, false,
  some, List, [], ◌∷◌, ◌++◌, arith, if◌then◌else◌, ltb, Bool-cases, subst, ltb→lt,
}
use typxen.Base.Text.{
  codes, same_text, skip_space, digit_value, scan_digits, skip_prefix, convert, strtoul,
}
use typxen.HidRuntime.Defs.{hold_supported}
use typxen.HidRuntime.Console.{
  CommandType, invalid, help, status, release_keys, stop, clear_bonds, test, test_shift,
  run_standard, run_personal, Command, simple_type, shift_command, test_command,
  parse_uint_argument, parse_argument_numbers, parse_argv,
}
use typxen.HidRuntime.Accepts.{IsHold, IsCommand}

-- A number in decimal, with fuel for its digits.
unfoldable pub decimal : ℕ → ℕ → List ℕ
decimal zero n = []
decimal (suc fuel) n =
    let more = decimal fuel (n / 10) ++ ((48 + n % 10) ∷ []) in
    if ltb n 10 then (48 + n) ∷ [] else more

scan_digits-append :
    (value : ℕ) (any : Bool) (text : List ℕ) (w d : ℕ)
    → d < 10
    → (any' : Bool) → scan_digits 10 value any text ≡ (w, any', [])
    → scan_digits 10 value any (text ++ ((48 + d) ∷ [])) ≡ (w * 10 + d, true, [])
unfolding scan_digits digit_value
scan_digits-append value any [] w d lt any' h = ground arith
scan_digits-append value any (b ∷ text) w d lt any' h =
    ground (arith, scan_digits-append (value * 10 + digit_value b) true text w d lt any')

decimal_step :
    (fuel n : ℕ)
    → (ltb n 10 ≡ false)
    → decimal (suc fuel) n ≡ decimal fuel (n / 10) ++ ((48 + n % 10) ∷ [])
unfolding decimal
decimal_step fuel n h = rw h refl

-- The numbers of so many digits are below this.
abbrev bound : ℕ → ℕ
bound zero = 1
bound (suc digits) = 10 * bound digits

scan_digits-decimal :
    (fuel n : ℕ)
    → n < bound fuel
    → 0 < fuel
    → scan_digits 10 0 false (decimal fuel n) ≡ (n, true, [])
unfolding decimal scan_digits digit_value
scan_digits-decimal zero n lt h = absurd (omega arith)
scan_digits-decimal (suc zero) n lt h = ground arith
scan_digits-decimal (suc (suc fuel)) n lt h = elim (Bool-cases (ltb n 10)) [
  | inl one ↦ ground (arith, one)
  | inr more ↦
      let small : n / 10 < bound (suc fuel) = omega arith in
      let rest = scan_digits-decimal (suc fuel) (n / 10) small (omega arith) in
      let last =
        scan_digits-append 0 false (decimal (suc fuel) (n / 10)) (n / 10) (n % 10) (omega arith)
          true rest in
      let whole : n / 10 * 10 + n % 10 ≡ n = omega arith in
      subst (λ text. scan_digits 10 0 false text ≡ (n, true, []))
        (sym (decimal_step (suc fuel) n more)) (rw whole at last)
]

-- A text that begins with a digit.
abbrev IsDigits : List ℕ → Type 0
IsDigits [] = ⊥
IsDigits (b ∷ text) = (48 ≤ b) × (b ≤ 57)

IsDigits-append : (xs ys : List ℕ) → IsDigits xs → IsDigits (xs ++ ys)
IsDigits-append [] ys h = absurd h
IsDigits-append (x ∷ xs) ys h = h

decimal-IsDigits : (fuel n : ℕ) → 0 < fuel → n < bound fuel → IsDigits (decimal fuel n)
unfolding decimal
decimal-IsDigits zero n h lt = absurd (omega arith)
decimal-IsDigits (suc zero) n h lt = ground arith
decimal-IsDigits (suc (suc fuel)) n h lt = elim (Bool-cases (ltb n 10)) [
  | inl one ↦ rw one (omega (arith, ltb→lt n 10 one))
  | inr more ↦ subst IsDigits (sym (decimal_step (suc fuel) n more)) (
      IsDigits-append (decimal (suc fuel) (n / 10)) _
        (decimal-IsDigits (suc fuel) (n / 10) (omega arith) (omega arith)))
]

skip_prefix-10 : (text : List ℕ) → skip_prefix 10 text ≡ text
unfolding skip_prefix
skip_prefix-10 [] = refl
skip_prefix-10 (a ∷ []) = refl
skip_prefix-10 (a ∷ b ∷ []) = refl
skip_prefix-10 (a ∷ b ∷ d ∷ text) = refl

strtoul-digits :
    (text : List ℕ) (n : ℕ)
    → IsDigits text
    → scan_digits 10 0 false text ≡ (n, true, [])
    → n < 2 ^ 32
    → strtoul 10 text ≡ record { value = n; range_error = false; rest = [] }
unfolding strtoul skip_space convert
strtoul-digits [] n h s lt = absurd h
strtoul-digits (b ∷ text) n h s lt = ground (arith, skip_prefix-10 (b ∷ text))

parse_uint_argument-digits :
    (text : List ℕ) (n : ℕ)
    → IsDigits text
    → strtoul 10 text ≡ record { value = n; range_error = false; rest = [] }
    → n < 2 ^ 32
    → parse_uint_argument text ≡ some n
unfolding parse_uint_argument
parse_uint_argument-digits [] n h s lt = absurd h
parse_uint_argument-digits (b ∷ text) n h s lt = ground (arith, s)

parse_uint_argument-decimal : (n : ℕ) → n < 2 ^ 32 → parse_uint_argument (decimal 10 n) ≡ some n
parse_uint_argument-decimal n lt =
    let digits = decimal-IsDigits 10 n (omega arith) (omega arith) in
    parse_uint_argument-digits (decimal 10 n) n digits
      (strtoul-digits (decimal 10 n) n digits (scan_digits-decimal 10 n (omega arith) (omega arith))
        lt)
      lt

-- A command as the arguments that ask for it.
abbrev pub name_of : CommandType → List ℕ
name_of invalid = []
name_of help = codes "help"
name_of status = codes "status"
name_of release_keys = codes "release"
name_of stop = codes "stop"
name_of clear_bonds = codes "clear-bonds"
name_of test = codes "test"
name_of test_shift = codes "test-shift"
name_of run_standard = codes "run-standard"
name_of run_personal = codes "run-personal"

abbrev pub numbers_of : Command → List (List ℕ)
numbers_of c = elim c.type [
  | test ↦ decimal 10 c.hold_ms ∷ decimal 10 c.character_count ∷ []
  | test_shift ↦ decimal 10 c.hold_ms ∷ []
  | _ ↦ []
]

shift_command-some :
    (first : ℕ)
    → IsHold first
    → shift_command first
      ≡ some (record { type = test_shift; hold_ms = first; character_count = 0 })
unfolding shift_command hold_supported
shift_command-some first h = ground arith

test_command-some :
    (first second : ℕ)
    → IsHold first
    → 0 < second
    → second ≤ 1080
    → test_command first second
      ≡ some (record { type = test; hold_ms = first; character_count = second })
unfolding test_command hold_supported
test_command-some first second h p q = ground arith

IsHold-lt : (first : ℕ) → IsHold first → first < 2 ^ 32
IsHold-lt first h = ground arith

parse_argv-at :
    (type : CommandType) (hold_ms character_count : ℕ)
    → let c : Command = record {
      type = type;
      hold_ms = hold_ms;
      character_count = character_count;
    } in
      IsCommand c → parse_argv (name_of type ∷ numbers_of c) ≡ some c
unfolding parse_argv parse_argument_numbers simple_type same_text
parse_argv-at invalid hold_ms character_count h = absurd h
parse_argv-at test hold_ms character_count h =
    rw
      (
        parse_uint_argument-decimal hold_ms (IsHold-lt hold_ms h.0),
        parse_uint_argument-decimal character_count (omega arith),
      )
      (test_command-some hold_ms character_count h.0 h.1 h.2)
parse_argv-at test_shift hold_ms character_count h =
    rw (parse_uint_argument-decimal hold_ms (IsHold-lt hold_ms h.0))
      (ground (arith, shift_command-some hold_ms h.0))
parse_argv-at type hold_ms character_count h = ground arith

-- A command that may be run, written out as its name and its numbers in decimal, is read back.
pub parse_argv-decimal :
    (c : Command) → IsCommand c → parse_argv (name_of c.type ∷ numbers_of c) ≡ some c
parse_argv-decimal c h = parse_argv-at c.type c.hold_ms c.character_count h

-- ===== src/HidRuntime/Accepts.antt =====
-- What the console accepts, and that it reads back every command that is written out.
use typxen.Base.{
  ℕ, ◌≤◌, ◌<◌, ◌≡◌, ◌⊎◌, inl, inr, refl, Bool, true, false, Option, none, some, List, [], ◌∷◌,
  arith, if◌then◌else◌,
}
use typxen.Base.Text.{codes, same_text, skip_space}
use typxen.HidRuntime.Defs.{hold_supported}
use typxen.HidRuntime.Console.{
  CommandType, invalid, test, test_shift, Command, simple_type, shift_command, test_command,
  parse_shift, parse_second, parse_test, parse_numbers, parse_named, parse, simple_or, simple_argv,
  and_shift, and_test, is_empty, scan_word, parse_uint, parse_uint_argument, parse_argument_numbers,
  parse_argv,
}

-- The holds that `typx_hid_hold_supported` names.
abbrev pub IsHold : ℕ → Type 0
IsHold ms = (ms ≡ 8) ⊎ ((ms ≡ 12) ⊎ ((ms ≡ 16) ⊎ ((ms ≡ 20) ⊎ (ms ≡ 30))))

-- A command that may be run: a hold that is supported, and one to 1080 characters.
abbrev pub IsCommand : Command → Type 0
IsCommand c = elim c.type [
  | invalid ↦ ⊥
  | test ↦ IsHold c.hold_ms × (0 < c.character_count) × (c.character_count ≤ 1080)
  | test_shift ↦ IsHold c.hold_ms × (c.character_count ≡ 0)
  | _ ↦ (c.hold_ms ≡ 0) × (c.character_count ≡ 0)
]

shift_command-IsCommand : (first : ℕ) (c : Command) → shift_command first ≡ some c → IsCommand c
unfolding shift_command hold_supported
shift_command-IsCommand first c h = ground arith

test_command-IsCommand :
    (first second : ℕ) (c : Command) → test_command first second ≡ some c → IsCommand c
unfolding test_command hold_supported
test_command-IsCommand first second c h = ground arith

simple_type-ne-invalid :
    (name : List ℕ) (type : CommandType)
    → simple_type name ≡ some type
    → IsCommand (record { type = type; hold_ms = 0; character_count = 0 })
unfolding simple_type
simple_type-ne-invalid name type h = ground arith

module _ (c : Command) where
  parse_shift-IsCommand : (m : Option (ℕ × List ℕ)) → parse_shift m ≡ some c → IsCommand c
  unfolding parse_shift
  parse_shift-IsCommand none h = cc
  parse_shift-IsCommand (some (first, rest)) h = shift_command-IsCommand first c (ground arith)

  parse_second-IsCommand :
      (first : ℕ) (m : Option (ℕ × List ℕ)) → parse_second first m ≡ some c → IsCommand c
  unfolding parse_second
  parse_second-IsCommand first none h = cc
  parse_second-IsCommand first (some (second, rest)) h =
      test_command-IsCommand first second c (ground arith)

  parse_test-IsCommand : (m : Option (ℕ × List ℕ)) → parse_test m ≡ some c → IsCommand c
  unfolding parse_test
  parse_test-IsCommand none h = cc
  parse_test-IsCommand (some (first, rest)) h =
      parse_second-IsCommand first (parse_uint (skip_space rest)) h

  if-some :
      (b : Bool) (m m' : Option Command)
      → (m ≡ some c → IsCommand c)
      → (m' ≡ some c → IsCommand c)
      → (if b then m else m') ≡ some c
      → IsCommand c
  if-some true m m' h k e = h e
  if-some false m m' h k e = k e

  parse_numbers-IsCommand :
      (name cursor : List ℕ) → parse_numbers name cursor ≡ some c → IsCommand c
  unfolding parse_numbers
  parse_numbers-IsCommand name cursor =
      if-some (same_text name (codes "test-shift")) _ _ (parse_shift-IsCommand (parse_uint cursor))
        (if-some (same_text name (codes "test")) _ _ (parse_test-IsCommand (parse_uint cursor))
          (λ (e : none ≡ some c). cc))

  simple_or-IsCommand :
      (b : Bool) (name : List ℕ) (m : Option CommandType) (other : Option Command)
      → simple_type name ≡ m
      → (other ≡ some c → IsCommand c)
      → simple_or b m other ≡ some c
      → IsCommand c
  simple_or-IsCommand true name (some type) other s k h =
      let here = simple_type-ne-invalid name type s in ground (arith, here)
  simple_or-IsCommand true name none other s k h = k h
  simple_or-IsCommand false name m other s k h = k h

  parse_named-IsCommand : (m : List ℕ × List ℕ) → parse_named m ≡ some c → IsCommand c
  unfolding parse_named
  parse_named-IsCommand ([], rest) h = cc
  parse_named-IsCommand (b ∷ name, rest) h =
      simple_or-IsCommand (is_empty (skip_space rest)) (b ∷ name) (simple_type (b ∷ name))
        (parse_numbers (b ∷ name) (skip_space rest)) refl
        (parse_numbers-IsCommand (b ∷ name) (skip_space rest)) h

  parse_line-IsCommand : (line : List ℕ) → parse line ≡ some c → IsCommand c
  unfolding parse
  parse_line-IsCommand line h = parse_named-IsCommand (scan_word 15 (skip_space line)) h

  and_shift-IsCommand : (m : Option ℕ) → and_shift m ≡ some c → IsCommand c
  and_shift-IsCommand none h = cc
  and_shift-IsCommand (some first) h = shift_command-IsCommand first c h

  and_test-IsCommand : (m m' : Option ℕ) → and_test m m' ≡ some c → IsCommand c
  and_test-IsCommand (some first) (some second) h = test_command-IsCommand first second c h
  and_test-IsCommand (some first) none h = cc
  and_test-IsCommand none m' h = cc

  parse_argument_numbers-IsCommand :
      (name : List ℕ) (arguments : List (List ℕ))
      → parse_argument_numbers name arguments ≡ some c
      → IsCommand c
  unfolding parse_argument_numbers
  parse_argument_numbers-IsCommand name [] h = cc
  parse_argument_numbers-IsCommand name (a ∷ []) h =
      if-some (same_text name (codes "test-shift")) (and_shift (parse_uint_argument a)) none
        (and_shift-IsCommand (parse_uint_argument a)) (λ (e : none ≡ some c). cc) h
  parse_argument_numbers-IsCommand name (a ∷ b ∷ []) h =
      let m = and_test (parse_uint_argument a) (parse_uint_argument b) in
      if-some (same_text name (codes "test-shift")) none
        (if same_text name (codes "test") then m else none) (λ (e : none ≡ some c). cc)
        (if-some (same_text name (codes "test")) m none
          (and_test-IsCommand (parse_uint_argument a) (parse_uint_argument b))
          (λ (e : none ≡ some c). cc))
        h
  parse_argument_numbers-IsCommand name (a ∷ b ∷ d ∷ more) h = cc

  simple_argv-IsCommand :
      (name : List ℕ) (m : Option CommandType) (arguments : List (List ℕ)) (other : Option Command)
      → simple_type name ≡ m
      → (other ≡ some c → IsCommand c)
      → simple_argv m arguments other ≡ some c
      → IsCommand c
  simple_argv-IsCommand name none arguments other s k h = k h
  simple_argv-IsCommand name (some type) [] other s k h =
      let here = simple_type-ne-invalid name type s in ground (arith, here)
  simple_argv-IsCommand name (some type) (a ∷ more) other s k h = cc

  parse_arguments-IsCommand : (argv : List (List ℕ)) → parse_argv argv ≡ some c → IsCommand c
  unfolding parse_argv
  parse_arguments-IsCommand [] h = cc
  parse_arguments-IsCommand (name ∷ arguments) h =
      simple_argv-IsCommand name (simple_type name) arguments
        (parse_argument_numbers name arguments) refl
        (parse_argument_numbers-IsCommand name arguments) h

-- Every command that a line or a list of arguments is read as may be run: its hold is supported
-- and its number of characters is 1 to 1080 where it has them, and both are 0 where it has not.
pub parse-IsCommand :
    (line : List ℕ) (argv : List (List ℕ)) (c : Command)
    → (parse line ≡ some c) ⊎ (parse_argv argv ≡ some c)
    → IsCommand c
parse-IsCommand line argv c (inl h) = parse_line-IsCommand c line h
parse-IsCommand line argv c (inr h) = parse_arguments-IsCommand c argv h

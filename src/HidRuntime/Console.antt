-- ===== src/HidRuntime/Console.antt =====
-- The commands of the console: `typx_console_parse` on a line, `typx_console_parse_argv` on
-- arguments. A command is `none` where the code returns false; what it then leaves in `*command` is
-- not read. `sscanf` and `strtoul` are C's.
use typxen.Base.{
  ℕ, zero, suc, Bool, true, false, not, ◌||◌, Option, none, some, List, [], ◌∷◌, if◌then◌else◌,
  ◌==◌, ltb, ◌-◌, ◌^◌,
}
use typxen.Base.Text.{
  codes, same_text, isspace, skip_space, strtoul, scan_sign, skip_prefix, scan_digits,
}
use typxen.HidRuntime.Defs.{hold_supported, calibration_max_characters}

pub data CommandType : Type 0 where
  invalid help status release_keys stop clear_bonds test test_shift run_standard : CommandType
  run_personal : CommandType

pub record Command : Type 0 where
  pub type : CommandType
  pub hold_ms : ℕ
  pub character_count : ℕ

abbrev pub is_empty : List ℕ → Bool
is_empty [] = true
is_empty (_ ∷ _) = false

abbrev pub simple : CommandType → Command
simple type = record { type = type; hold_ms = 0; character_count = 0 }

-- The table of `SIMPLE_COMMAND` and `SIMPLE_ARGV_COMMAND`.
unfoldable pub simple_type : List ℕ → Option CommandType
unfolding same_text
simple_type name =
    if same_text name (codes "help")
    then some help
    else if same_text name (codes "status")
    then some status
    else if same_text name (codes "release")
    then some release_keys
    else if same_text name (codes "stop")
    then some stop
    else if same_text name (codes "clear-bonds")
    then some clear_bonds
    else if same_text name (codes "run-standard")
    then some run_standard
    else if same_text name (codes "run-personal")
    then some run_personal
    else none

-- `%15s` behind the blanks: at most this many bytes up to a blank, and the rest.
unfoldable pub scan_word : ℕ → List ℕ → List ℕ × List ℕ
scan_word zero text = ([], text)
scan_word (suc n) [] = ([], [])
scan_word (suc n) (b ∷ text) =
    let (word, rest) = scan_word n text in if isspace b then ([], b ∷ text) else (b ∷ word, rest)

-- Whether `%u` finds a digit.
abbrev has_number : List ℕ → Bool
has_number text = (scan_digits 10 0 false (skip_prefix 10 (scan_sign (skip_space text)).1)).1

-- `%u%n`: the value, and the text at `cursor + consumed`. A value out of range is not reported.
unfoldable pub parse_uint : List ℕ → Option (ℕ × List ℕ)
unfolding strtoul scan_digits skip_prefix skip_space
parse_uint text =
    if has_number text then some ((strtoul 10 text).value, (strtoul 10 text).rest) else none

-- The tests of the two numbers, and the commands with them.
unfoldable pub shift_command : ℕ → Option Command
unfolding hold_supported
shift_command first =
    if hold_supported first
    then some (record { type = test_shift; hold_ms = first; character_count = 0 })
    else none

unfoldable pub test_command : ℕ → ℕ → Option Command
unfolding hold_supported
test_command first second =
    if not (hold_supported first) || (second == 0 || ltb calibration_max_characters second)
    then none
    else some (record { type = test; hold_ms = first; character_count = second })

-- A command for an end of the line.
abbrev at_end : List ℕ → Option Command → Option Command
at_end [] command = command
at_end (_ ∷ _) command = none

unfoldable pub parse_shift : Option (ℕ × List ℕ) → Option Command
unfolding shift_command skip_space
parse_shift none = none
parse_shift (some (first, rest)) = at_end (skip_space rest) (shift_command first)

unfoldable pub parse_second : ℕ → Option (ℕ × List ℕ) → Option Command
unfolding test_command skip_space
parse_second first none = none
parse_second first (some (second, rest)) = at_end (skip_space rest) (test_command first second)

unfoldable pub parse_test : Option (ℕ × List ℕ) → Option Command
unfolding parse_uint parse_second skip_space
parse_test none = none
parse_test (some (first, rest)) = parse_second first (parse_uint (skip_space rest))

-- The part behind the simple commands.
unfoldable pub parse_numbers : List ℕ → List ℕ → Option Command
unfolding parse_uint parse_shift parse_test same_text
parse_numbers name cursor =
    if same_text name (codes "test-shift")
    then parse_shift (parse_uint cursor)
    else if same_text name (codes "test")
    then parse_test (parse_uint cursor)
    else none

-- A simple command at the end of the line.
abbrev pub simple_or : Bool → Option CommandType → Option Command → Option Command
simple_or true (some type) other = some (simple type)
simple_or _ _ other = other

unfoldable pub parse_named : List ℕ × List ℕ → Option Command
unfolding skip_space simple_type parse_numbers
parse_named ([], rest) = none
parse_named (b ∷ name, rest) =
    let cursor = skip_space rest in
    simple_or (is_empty cursor) (simple_type (b ∷ name)) (parse_numbers (b ∷ name) cursor)

unfoldable pub parse : List ℕ → Option Command
unfolding parse_named scan_word skip_space
parse line = parse_named (scan_word 15 (skip_space line))

-- `none` where the code returns false.
unfoldable pub parse_uint_argument : List ℕ → Option ℕ
unfolding strtoul
parse_uint_argument [] = none
parse_uint_argument (b ∷ text) =
    let c = strtoul 10 (b ∷ text) in
    if c.range_error || not (is_empty c.rest) || ltb (2 ^ 32 - 1) c.value
    then none
    else some c.value

abbrev pub and_shift : Option ℕ → Option Command
and_shift none = none
and_shift (some hold_ms) = shift_command hold_ms

abbrev pub and_test : Option ℕ → Option ℕ → Option Command
and_test (some hold_ms) (some character_count) = test_command hold_ms character_count
and_test _ _ = none

-- The arguments behind the simple commands.
unfoldable pub parse_argument_numbers : List ℕ → List (List ℕ) → Option Command
unfolding parse_uint_argument shift_command test_command same_text
parse_argument_numbers name (a ∷ []) =
    if same_text name (codes "test-shift") then and_shift (parse_uint_argument a) else none
parse_argument_numbers name (a ∷ b ∷ []) =
    if same_text name (codes "test-shift")
    then none
    else if same_text name (codes "test")
    then and_test (parse_uint_argument a) (parse_uint_argument b)
    else none
parse_argument_numbers name _ = none

-- A simple command takes no arguments.
abbrev pub simple_argv : Option CommandType → List (List ℕ) → Option Command → Option Command
simple_argv none arguments other = other
simple_argv (some type) [] other = some (simple type)
simple_argv (some type) (_ ∷ _) other = none

-- `argc` is the length of `argv`.
unfoldable pub parse_argv : List (List ℕ) → Option Command
unfolding simple_type parse_argument_numbers
parse_argv [] = none
parse_argv (name ∷ arguments) =
    simple_argv (simple_type name) arguments (parse_argument_numbers name arguments)

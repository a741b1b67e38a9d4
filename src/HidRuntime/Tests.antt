-- ===== src/HidRuntime/Tests.antt =====
-- A keyboard whose reports are sent and whose waits end, and the theorems at it.
use typxen.Base.{ℕ, ◌≡◌, inl, refl, true, none, some, [], ◌∷◌, arith}
use typxen.Base.Text.{
  codes, same_text, skip_space, scan_digits, skip_prefix, strtoul, digit_value, convert,
}
use typxen.HidRuntime.Defs.{
  ok, Runtime, RuntimeIo, init, set_connected, hold_supported, character_report, io_valid,
}
use typxen.HidRuntime.Keys.{
  calibration_character, run_test, run_typing, begin_test, open_test, type_loop, send_character,
  send_key, press, release, release_loop, wait_checked, count_down, finish_test,
}
use typxen.HidRuntime.Log.{Safe}
use typxen.HidRuntime.Ended.{RefusedOr, run_test-Ends}
use typxen.HidRuntime.Console.{
  test, Command, parse, parse_argv, simple_type, parse_uint_argument, test_command, parse_named,
  parse_numbers, parse_test, parse_second, parse_uint, scan_word,
}
use typxen.HidRuntime.Accepts.{IsCommand}
use typxen.HidRuntime.RoundTrip.{name_of, numbers_of, parse_argv-decimal}

-- Every call is answered with true.
abbrev answers : RuntimeIo ℕ
answers = record {
  send_report = some (λ bytes s. (true, s));
  wait_ms = some (λ ms s. (true, s));
  countdown = none;
}

abbrev keyboard : Runtime ℕ
keyboard = set_connected (init 0) true

keyboard-Safe : Safe [] keyboard
unfolding set_connected init
keyboard-Safe = record { safe = tt; same = refl }

run_test-Ends_example : RefusedOr calibration_character 2 keyboard (run_test answers 8 2 keyboard)
run_test-Ends_example = run_test-Ends answers 8 2 keyboard keyboard-Safe

-- The test ends well, and has typed an a and a b.
test_runs : (run_test answers 8 2 keyboard).0 ≡ ok
unfolding set_connected init run_test hold_supported io_valid run_typing begin_test open_test
    type_loop send_character send_key character_report press release release_loop wait_checked
    count_down finish_test
test_runs = refl

abbrev eight_twelve : Command
eight_twelve = record { type = test; hold_ms = 8; character_count = 12 }

line_parses : parse (codes " test 8 12 ") ≡ some eight_twelve
unfolding parse parse_named simple_type parse_numbers parse_test parse_second parse_uint
    test_command hold_supported scan_word same_text skip_space scan_digits skip_prefix strtoul
    digit_value convert
line_parses = refl

-- The blanks and signs that C's conversion takes are taken: the hold is 8.
wrapped_hold : parse_uint_argument (codes " -4294967288") ≡ some 8
unfolding parse_uint_argument skip_space scan_digits skip_prefix strtoul digit_value convert
wrapped_hold = refl

eight_twelve-IsCommand : IsCommand eight_twelve
eight_twelve-IsCommand = (inl refl, omega arith, omega arith)

parse_argv-decimal_example :
    parse_argv (name_of eight_twelve.type ∷ numbers_of eight_twelve) ≡ some eight_twelve
parse_argv-decimal_example = parse_argv-decimal eight_twelve eight_twelve-IsCommand

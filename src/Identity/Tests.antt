-- ===== src/Identity/Tests.antt =====
-- The theorems at a chip, and the values of the generated texts.
use typxen.Base.{ℕ, ◌*◌, ◌<◌, ◌≡◌, true, false, none, some, List, [], ◌∷◌, arith, replicate, refl}
use typxen.Identity.Types.{Config, valid, IdentityState}
use typxen.Identity.Text.{
  generated_serial, identity_hash, hash_bytes, hex, board_identifier, text_valid, text_length,
  printable, advertising_fits, scan_response_bytes,
}
use typxen.Protocol.Bytes.{same_bytes}
use typxen.Identity.Updating.{prepare_update-valid}
use typxen.Identity.Config.{
  validate, validate_texts, validate_battery, defaults, defaults_config, fill_serial,
  prepare_update, identity_text_changed, text_differs,
}
use typxen.Identity.Battery.{record_successful_report}
use typxen.Identity.Loading.{defaults-valid}
use typxen.Identity.Valid.{record_successful_report-lt}

abbrev chip : List ℕ
chip = 1 ∷ 2 ∷ 3 ∷ 4 ∷ 5 ∷ 6 ∷ []

-- A keyboard in the middle of a run.
abbrev typing : IdentityState
typing = record (defaults chip none) { activity_open = true; last_success_ms = 10 }

typing-valid : validate typing.config false ≡ valid
typing-valid = defaults-valid chip none

typing-lt : typing.battery_active_ms < typing.config.battery_drop_active_minutes * 60000
unfolding defaults defaults_config
typing-lt = omega arith

record_successful_report-lt_example :
    (record_successful_report typing 2400010 true).0.battery_active_ms
    < typing.config.battery_drop_active_minutes * 60000
record_successful_report-lt_example =
    record_successful_report-lt typing 2400010 true false typing-valid typing-lt

-- A request with an empty serial number, which comes to the generated one again.
abbrev requested : Config
requested = record (defaults_config chip) { serial_number = replicate 33 0 }

abbrev filled : Config
filled = fill_serial (defaults chip none) requested

request-accepted : (prepare_update (defaults chip none) requested).0 ≡ some (filled, false)
unfolding prepare_update validate validate_texts validate_battery text_valid text_length printable
    advertising_fits scan_response_bytes fill_serial identity_text_changed text_differs same_bytes
    defaults defaults_config board_identifier generated_serial identity_hash hash_bytes hex
request-accepted = refl

board_is_generated : (defaults chip none).board_identifier ≡ board_identifier chip (replicate 15 0)
unfolding defaults
board_is_generated = refl

prepare_update-valid_example : validate filled false ≡ valid
prepare_update-valid_example =
    prepare_update-valid (defaults chip none) requested filled false chip (replicate 15 0)
      board_is_generated request-accepted

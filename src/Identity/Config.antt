-- ===== src/Identity/Config.antt =====
-- The configuration: `validate`, `defaults`, `load` and `prepare_update`.
use typxen.Base.{
  ℕ, ◌+◌, Bool, true, false, not, ◌||◌, Option, none, some, List, [], ◌∷◌, ◌++◌, if◌then◌else◌,
  ◌==◌, ltb, leb, length, get_or, take, drop, replicate,
}
use typxen.Protocol.Bytes.{same_bytes}
use typxen.Identity.Types.{
  Config, Overrides, Validation, valid, invalid_device_name, invalid_manufacturer, invalid_model,
  invalid_serial, invalid_hardware_revision, invalid_software_revision, invalid_battery_range,
  invalid_battery_current, invalid_battery_interval, IdentityState,
}
use typxen.Identity.Text.{
  put_text, serial_prefix, generated_serial, board_identifier, text_length, text_valid,
  advertising_fits,
}

-- The tests of the battery; `validate` makes them after those of the texts.
unfoldable pub validate_battery : Config → Validation
validate_battery config =
    if ltb 99 config.battery_minimum_percent
      || (ltb config.battery_maximum_percent 1
          || (ltb 100 config.battery_maximum_percent
              || leb config.battery_maximum_percent config.battery_minimum_percent))
    then invalid_battery_range
    else if ltb config.battery_current_percent config.battery_minimum_percent
        || ltb config.battery_maximum_percent config.battery_current_percent
    then invalid_battery_current
    else if ltb config.battery_drop_active_minutes 1 || ltb 1440 config.battery_drop_active_minutes
    then invalid_battery_interval
    else valid

unfoldable pub validate_texts : Config → Bool → Validation
unfolding text_valid advertising_fits
validate_texts config serial_may_be_empty =
    if not (text_valid config.device_name 30 false) || not (advertising_fits config.device_name)
    then invalid_device_name
    else if not (text_valid config.manufacturer_name 33 false)
    then invalid_manufacturer
    else if not (text_valid config.model_number 33 false)
    then invalid_model
    else if not (text_valid config.serial_number 33 serial_may_be_empty)
    then invalid_serial
    else if not (text_valid config.hardware_revision 17 false)
    then invalid_hardware_revision
    else if not (text_valid config.software_revision 17 false)
    then invalid_software_revision
    else valid

-- The first failure of two groups of tests.
abbrev pub first_failure : Validation → Validation → Validation
first_failure valid next = next
first_failure failure next = failure

unfoldable pub validate : Config → Bool → Validation
unfolding validate_texts validate_battery
validate config serial_may_be_empty =
    first_failure (validate_texts config serial_may_be_empty) (validate_battery config)

-- "Typxen", which begins the names.
abbrev pub default_manufacturer : List ℕ
default_manufacturer = 84 ∷ 121 ∷ 112 ∷ 120 ∷ 101 ∷ 110 ∷ []

-- "Typxen Keyboard"
abbrev default_device_name : List ℕ
default_device_name = default_manufacturer ++ (32 ∷ 75 ∷ 101 ∷ 121 ∷ 98 ∷ 111 ∷ 97 ∷ 114 ∷ 100 ∷ [])

-- "Typxen ESP32-CAM"
abbrev default_model : List ℕ
default_model = default_manufacturer ++ (32 ∷ 69 ∷ 83 ∷ 80 ∷ 51 ∷ 50 ∷ 45 ∷ 67 ∷ 65 ∷ 77 ∷ [])

-- "1.0"
abbrev default_revision : List ℕ
default_revision = 49 ∷ 46 ∷ 48 ∷ []

-- `snprintf` of "%s" with the capacity of the revision; "unknown" for NULL.
abbrev firmware_text : Option (List ℕ) → List ℕ
firmware_text none = 117 ∷ 110 ∷ 107 ∷ 110 ∷ 111 ∷ 119 ∷ 110 ∷ []
firmware_text (some text) = take 32 (take (text_length (length text) text) text)

unfoldable pub defaults_config : List ℕ → Config
unfolding generated_serial
defaults_config chip_identity = record {
  device_name = put_text (replicate 30 0) default_device_name;
  manufacturer_name = put_text (replicate 33 0) default_manufacturer;
  model_number = put_text (replicate 33 0) default_model;
  serial_number = generated_serial chip_identity (replicate 33 0);
  hardware_revision = put_text (replicate 17 0) default_revision;
  software_revision = put_text (replicate 17 0) (default_revision ++ (46 ∷ 48 ∷ []));
  battery_simulation_enabled = true;
  battery_minimum_percent = 50;
  battery_maximum_percent = 90;
  battery_current_percent = 90;
  battery_drop_active_minutes = 20;
}

unfoldable pub defaults : List ℕ → Option (List ℕ) → IdentityState
unfolding defaults_config board_identifier
defaults chip_identity firmware_revision = record {
  config = defaults_config chip_identity;
  firmware_revision = put_text (replicate 33 0) (firmware_text firmware_revision);
  board_identifier = board_identifier chip_identity (replicate 15 0);
  source_device_name_nvs = false;
  source_manufacturer_nvs = false;
  source_model_nvs = false;
  source_serial_nvs = false;
  restart_required = false;
  battery_active_ms = 0;
  last_success_ms = 0;
  activity_open = false;
}

-- Every `APPLY_TEXT`, and the assignments like it.
abbrev override {ℓ} : {A : Type ℓ} → Bool → A → A → A
override flag value old = if flag then value else old

unfoldable pub apply_config : Config → Overrides → Config
apply_config c o =
    let v = o.values in
    record {
      device_name = override o.device_name v.device_name c.device_name;
      manufacturer_name = override o.manufacturer_name v.manufacturer_name c.manufacturer_name;
      model_number = override o.model_number v.model_number c.model_number;
      serial_number = override o.serial_number v.serial_number c.serial_number;
      hardware_revision = override o.hardware_revision v.hardware_revision c.hardware_revision;
      software_revision = override o.software_revision v.software_revision c.software_revision;
      battery_simulation_enabled =
          override o.battery_simulation_enabled v.battery_simulation_enabled
            c.battery_simulation_enabled;
      battery_minimum_percent =
          override o.battery_minimum_percent v.battery_minimum_percent c.battery_minimum_percent;
      battery_maximum_percent =
          override o.battery_maximum_percent v.battery_maximum_percent c.battery_maximum_percent;
      battery_current_percent =
          override o.battery_current_percent v.battery_current_percent c.battery_current_percent;
      battery_drop_active_minutes =
          override o.battery_drop_active_minutes v.battery_drop_active_minutes
            c.battery_drop_active_minutes;
    }

unfoldable pub apply : IdentityState → Option Overrides → IdentityState
unfolding apply_config
apply candidate none = candidate
apply candidate (some o) = record candidate {
  config = apply_config candidate.config o;
  battery_active_ms = override o.battery_active_ms o.active_ms candidate.battery_active_ms;
  source_device_name_nvs = o.device_name;
  source_manufacturer_nvs = o.manufacturer_name;
  source_model_nvs = o.model_number;
  source_serial_nvs = o.serial_number;
}

abbrev pub is_valid : Validation → Bool
is_valid valid = true
is_valid _ = false

-- What `*state` is set to; the old state is not read. `chip_identity` is not NULL.
unfoldable pub load : List ℕ → Option (List ℕ) → Option Overrides → IdentityState
unfolding defaults apply validate
load chip_identity firmware_revision overrides =
    let candidate = apply (defaults chip_identity firmware_revision) overrides in
    if not (is_valid (validate candidate.config false))
    then defaults chip_identity firmware_revision
    else candidate

-- `strcmp(xs, ys) != 0` of two buffers: they differ up to the NUL of the first.
unfoldable pub text_differs : List ℕ → List ℕ → Bool
unfolding text_length same_bytes
text_differs xs ys = not (same_bytes (text_length (length xs) xs + 1) xs ys)

unfoldable pub identity_text_changed : Config → Config → Bool
unfolding text_differs
identity_text_changed old new =
    text_differs old.device_name new.device_name
    || (text_differs old.manufacturer_name new.manufacturer_name
        || (text_differs old.model_number new.model_number
            || (text_differs old.serial_number new.serial_number
                || (text_differs old.hardware_revision new.hardware_revision
                    || text_differs old.software_revision new.software_revision))))

-- `snprintf` of "TYPX-%s" with the identifier after "BOARD-", when the number is empty.
unfoldable pub fill_serial : IdentityState → Config → Config
unfolding text_length
fill_serial state config =
    let board = drop 6 state.board_identifier in
    if get_or config.serial_number 0 0 == 0
    then record config {
      serial_number =
          put_text config.serial_number
            (serial_prefix ++ take (text_length (length board) board) board);
    }
    else config

-- The effective configuration and `*restart_required`, where the code returns true; `*validation`.
unfoldable pub prepare_update : IdentityState → Config → Option (Config × Bool) × Validation
unfolding validate fill_serial identity_text_changed
prepare_update state requested =
    let result = validate requested true in
    let effective = fill_serial state requested in
    if not (is_valid result) then (none, result) else (
      some (effective, state.restart_required || identity_text_changed state.config effective),
      result,
    )

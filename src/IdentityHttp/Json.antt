-- ===== src/IdentityHttp/Json.antt =====
-- The JSON that is read and written.
use typxen.Base.{
  ℕ, zero, suc, ◌-◌, ◌%◌, ◌^◌, Bool, true, false, not, ◌&&◌, ◌||◌, Option, none, some, List, ◌++◌,
  [], if◌then◌else◌, ◌==◌, ltb, leb, length, replicate,
}
use typxen.Base.Text.{codes}
use typxen.Identity.Types.{Config, IdentityState}
use typxen.Identity.Text.{put_text}
use typxen.IdentityService.Defs.{c_string}

-- An `int`.
pub data ℤ : Type 0 where
  pos negsuc : ℕ → ℤ

-- What the code uses of cJSON. `item` is `cJSON_GetObjectItemCaseSensitive`, `has_item` is
-- `cJSON_HasObjectItem`, which does not mind the case; `string` gives the `valuestring` of a string
-- that has one, `number` the `valueint` and whether `valuedouble` is that number.
pub record Json (J : Type 0) : Type 0 where
  pub is_object : J → Bool
  pub has_item : J → List ℕ → Bool
  pub item : J → List ℕ → Option J
  pub string : J → Option (List ℕ)
  pub number : J → Option (Bool × ℤ)
  pub boolean : J → Option Bool

infixl 5 ◌>>=◌
abbrev pub ◌>>=◌ {ℓ κ} : {A : Type ℓ} {B : Type κ} → Option A → (A → Option B) → Option B
none >>= f = none
some a >>= f = f a

abbrev pub guard : Bool → Option (Unit {0})
guard true = some tt
guard false = none

-- The value of a number between two bounds that are not negative.
unfoldable pub in_range : ℕ → ℕ → Bool × ℤ → Option ℕ
in_range minimum maximum (exact, pos n) =
    if not exact || (ltb n minimum || ltb maximum n) then none else some n
in_range minimum maximum (exact, negsuc n) = none

-- `memcpy` of a string that fits into a zeroed buffer.
unfoldable pub put_string : ℕ → Bool → List ℕ → Option (List ℕ)
unfolding c_string
put_string capacity empty_allowed string =
    let text = c_string string in
    if leb capacity (length text) || (not empty_allowed && length text == 0)
    then none
    else some (put_text (replicate capacity 0) text)

-- The zeroed configuration with its texts.
abbrev pub with_texts : List ℕ → List ℕ → List ℕ → List ℕ → List ℕ → List ℕ → Config
with_texts name manufacturer model serial hardware software = record {
  device_name = name;
  manufacturer_name = manufacturer;
  model_number = model;
  serial_number = serial;
  hardware_revision = hardware;
  software_revision = software;
  battery_simulation_enabled = false;
  battery_minimum_percent = 0;
  battery_maximum_percent = 0;
  battery_current_percent = 0;
  battery_drop_active_minutes = 0;
}

module _ {J : Type 0} (json : Json J) where
  unfoldable pub copy_string : J → List ℕ → ℕ → Bool → Option (List ℕ)
  unfolding put_string
  copy_string root name capacity empty_allowed =
      json.item root name >>= json.string >>= put_string capacity empty_allowed

  unfoldable pub copy_integer : J → List ℕ → ℕ → ℕ → Option ℕ
  unfolding in_range
  copy_integer root name minimum maximum =
      json.item root name >>= json.number >>= in_range minimum maximum

  -- The member "battery" and what it holds, in the configuration with the texts.
  unfoldable pub parse_battery : J → Config → Option Config
  unfolding copy_integer
  parse_battery battery texts = do
    enabled ← json.item battery (codes "simulationEnabled") >>= json.boolean
    _ ← guard (json.is_object battery)
    minimum ← copy_integer battery (codes "minimumPercent") 0 99
    maximum ← copy_integer battery (codes "maximumPercent") 1 100
    current ← copy_integer battery (codes "currentPercent") 0 100
    minutes ← copy_integer battery (codes "dropActiveMinutes") 1 1440
    some (record texts {
      battery_simulation_enabled = enabled;
      battery_minimum_percent = minimum % 2 ^ 8;
      battery_maximum_percent = maximum % 2 ^ 8;
      battery_current_percent = current % 2 ^ 8;
      battery_drop_active_minutes = minutes % 2 ^ 16;
    })

  unfoldable pub parse_config : J → Option Config
  unfolding copy_string parse_battery
  parse_config root = do
    _ ← guard (json.is_object root)
    _ ← guard (not (json.has_item root (codes "firmwareRevision")))
    name ← copy_string root (codes "deviceName") 30 false
    manufacturer ← copy_string root (codes "manufacturerName") 33 false
    model ← copy_string root (codes "modelNumber") 33 false
    serial ← copy_string root (codes "serialNumber") 33 true
    hardware ← copy_string root (codes "hardwareRevision") 17 false
    software ← copy_string root (codes "softwareRevision") 17 false
    battery ← json.item root (codes "battery")
    parse_battery battery (with_texts name manufacturer model serial hardware software)

-- The answer of `identity_json` but "ok", with the members of "battery" and "source".
pub record Report : Type 0 where
  pub device_name : List ℕ
  pub manufacturer_name : List ℕ
  pub model_number : List ℕ
  pub serial_number : List ℕ
  pub hardware_revision : List ℕ
  pub firmware_revision : List ℕ
  pub software_revision : List ℕ
  pub board_identifier : List ℕ
  pub simulation_enabled : Bool
  pub minimum_percent : ℕ
  pub maximum_percent : ℕ
  pub current_percent : ℕ
  pub drop_active_minutes : ℕ
  pub ble_connected : Bool
  pub restart_required : Bool
  pub device_name_source : List ℕ
  pub manufacturer_name_source : List ℕ
  pub model_number_source : List ℕ
  pub serial_number_source : List ℕ

abbrev source_text : Bool → List ℕ → List ℕ
source_text nvs other = if nvs then codes "nvs" else other

unfoldable pub identity_json : IdentityState → Bool → Report
unfolding c_string
identity_json state ble_connected = record {
  device_name = c_string state.config.device_name;
  manufacturer_name = c_string state.config.manufacturer_name;
  model_number = c_string state.config.model_number;
  serial_number = c_string state.config.serial_number;
  hardware_revision = c_string state.config.hardware_revision;
  firmware_revision = c_string state.firmware_revision;
  software_revision = c_string state.config.software_revision;
  board_identifier = c_string state.board_identifier;
  simulation_enabled = state.config.battery_simulation_enabled;
  minimum_percent = state.config.battery_minimum_percent;
  maximum_percent = state.config.battery_maximum_percent;
  current_percent = state.config.battery_current_percent;
  drop_active_minutes = state.config.battery_drop_active_minutes;
  ble_connected = ble_connected;
  restart_required = state.restart_required;
  device_name_source = source_text state.source_device_name_nvs (codes "default");
  manufacturer_name_source = source_text state.source_manufacturer_nvs (codes "default");
  model_number_source = source_text state.source_model_nvs (codes "default");
  serial_number_source = source_text state.source_serial_nvs (codes "generated");
}

-- The loop of `read_json`, behind its fuel, with the bytes so far; 0 bytes stand for a count that is
-- not positive.
unfoldable pub read_loop :
    {Q : Type 0} → (ℕ → Q → List ℕ × Q) → ℕ → ℕ → List ℕ → Q → Option (List ℕ) × Q
read_loop receive zero content_len body q = (some body, q)
read_loop receive (suc fuel) content_len body q =
    let (bytes, q') = receive (content_len - length body) q in
    let rest = read_loop receive fuel content_len (body ++ bytes) q' in
    if leb content_len (length body)
    then (some body, q)
    else if length bytes == 0
    then (none, q')
    else rest

-- The length of a body is not negative. A round takes a byte at least.
unfoldable pub read_json :
    {J Q : Type 0} → (List ℕ → Option J) → (ℕ → Q → List ℕ × Q) → ℕ → Q → Option J × Q
unfolding read_loop
read_json parse receive content_len q =
    let (body, q') = read_loop receive content_len content_len [] q in
    if content_len == 0 || ltb 1024 content_len then (none, q) else (body >>= parse, q')

-- ===== src/IdentityService/Defs.antt =====
-- The state, the storage and the loading of typx_identity_service.c.
use typxen.Base.{
  ℕ, Bool, true, false, Option, none, some, List, if◌then◌else◌, ltb, ◌!=◌, length, replicate, take,
}
use typxen.Base.Text.{codes}
use typxen.Identity.Types.{Overrides, IdentityState}
use typxen.Identity.Text.{put_text, text_length}
use typxen.Identity.Config.{load}

-- The `esp_err_t` that the code tells apart; any other is `failed`.
pub data Error : Type 0 where
  nvs_not_found nvs_invalid_length invalid_arg invalid_state no_mem : Error
  failed : ℕ → Error

pub data Status : Type 0 where
  ok : Status
  error : Error → Status

abbrev pub is_ok : Status → Bool
is_ok ok = true
is_ok _ = false

-- A stored value with its type; a text is without its NUL.
pub data Item : Type 0 where
  text : List ℕ → Item
  u8 u16 u64 : ℕ → Item

pub data Reading {ℓ} (A : Type ℓ) : Type ℓ where
  got : A → Reading A
  stopped : Error → Reading A

infixl 5 ◌>>=◌
abbrev pub ◌>>=◌ {ℓ κ} : {A : Type ℓ} {B : Type κ} → Reading A → (A → Reading B) → Reading B
got a >>= f = f a
stopped e >>= f = stopped e

-- What the service uses of ESP-IDF, over the namespace "ble_identity".
pub record Platform (W : Type 0) : Type 0 where
  pub version : Option (List ℕ)
  pub read_mac : W → List ℕ × Status
  pub create_mutex : W → Bool
  pub open_readonly : W → Status
  pub open_readwrite : W → W × Status
  pub get : W → List ℕ → Reading Item
  pub set : W → List ℕ → Item → W × Status
  pub erase_key : W → List ℕ → W × Status
  pub commit : W → W × Status
  pub battery_set : W → ℕ → ℕ → W × Status

-- The static variables; the mutex is there once it is made.
pub record Service : Type 0 where
  pub state : IdentityState
  pub mutex : Bool
  pub hid_device : Option ℕ
  pub chip_identity : List ℕ

-- The text of a buffer, as C reads it.
unfoldable pub c_string : List ℕ → List ℕ
unfolding text_length
c_string buffer = take (text_length (length buffer) buffer) buffer

-- `nvs_get_str` into a zeroed buffer; a value of another type is not found.
abbrev pub as_text : ℕ → Item → Reading (List ℕ)
as_text capacity (text t) =
    if ltb (length t) capacity
    then got (put_text (replicate capacity 0) t)
    else stopped nvs_invalid_length
as_text capacity _ = stopped nvs_not_found

abbrev pub as_u8 : Item → Reading ℕ
as_u8 (u8 n) = got n
as_u8 _ = stopped nvs_not_found

abbrev pub as_u16 : Item → Reading ℕ
as_u16 (u16 n) = got n
as_u16 _ = stopped nvs_not_found

abbrev pub as_u64 : Item → Reading ℕ
as_u64 (u64 n) = got n
as_u64 _ = stopped nvs_not_found

-- A key that is not there is no error.
abbrev pub optional {ℓ} : {A : Type ℓ} → Reading A → Reading (Option A)
optional (got a) = got (some a)
optional (stopped nvs_not_found) = got none
optional (stopped e) = stopped e

abbrev pub is_some {ℓ} : {A : Type ℓ} → Option A → Bool
is_some none = false
is_some (some a) = true

abbrev pub value_or {ℓ} : {A : Type ℓ} → A → Option A → A
value_or d none = d
value_or d (some a) = a

-- The zeroed overrides.
abbrev pub no_overrides : Overrides
no_overrides = record {
  device_name = false;
  manufacturer_name = false;
  model_number = false;
  serial_number = false;
  hardware_revision = false;
  software_revision = false;
  battery_simulation_enabled = false;
  battery_minimum_percent = false;
  battery_maximum_percent = false;
  battery_current_percent = false;
  battery_drop_active_minutes = false;
  battery_active_ms = false;
  values = record {
    device_name = replicate 30 0;
    manufacturer_name = replicate 33 0;
    model_number = replicate 33 0;
    serial_number = replicate 33 0;
    hardware_revision = replicate 17 0;
    software_revision = replicate 17 0;
    battery_simulation_enabled = false;
    battery_minimum_percent = 0;
    battery_maximum_percent = 0;
    battery_current_percent = 0;
    battery_drop_active_minutes = 0;
  };
  active_ms = 0;
}

-- Whether a handle was opened.
abbrev pub opened : Status → Reading (Unit {0})
opened ok = got tt
opened (error e) = stopped e

-- The overrides that `init` goes on with.
abbrev pub or_none : Reading Overrides → Reading Overrides
or_none (stopped nvs_not_found) = got no_overrides
or_none reading = reading

-- `description == NULL ? "unknown" : description->version`
abbrev pub version_text : Option (List ℕ) → List ℕ
version_text none = codes "unknown"
version_text (some version) = version

module _ {W : Type 0} (p : Platform W) where
  unfoldable pub get_optional_string : W → List ℕ → ℕ → Reading (Option (List ℕ))
  get_optional_string w key capacity = optional (p.get w key >>= as_text capacity)

  unfoldable pub get_optional_u8 : W → List ℕ → Reading (Option ℕ)
  get_optional_u8 w key = optional (p.get w key >>= as_u8)

  unfoldable pub get_optional_u16 : W → List ℕ → Reading (Option ℕ)
  get_optional_u16 w key = optional (p.get w key >>= as_u16)

  -- The reads in their order, up to the first error.
  unfoldable pub load_overrides : W → Reading Overrides
  unfolding get_optional_string get_optional_u8 get_optional_u16
  load_overrides w = do
    _ ← opened (p.open_readonly w)
    name ← get_optional_string w (codes "name") 30
    manufacturer ← get_optional_string w (codes "manufacturer") 33
    model ← get_optional_string w (codes "model") 33
    serial ← get_optional_string w (codes "serial") 33
    hardware ← get_optional_string w (codes "hw_rev") 17
    software ← get_optional_string w (codes "sw_rev") 17
    enabled ← get_optional_u8 w (codes "batt_enabled")
    minimum ← get_optional_u8 w (codes "batt_min")
    maximum ← get_optional_u8 w (codes "batt_max")
    current ← get_optional_u8 w (codes "batt_current")
    interval ← get_optional_u16 w (codes "batt_interval")
    active ← optional (p.get w (codes "batt_active_ms") >>= as_u64)
    got record {
      device_name = is_some name;
      manufacturer_name = is_some manufacturer;
      model_number = is_some model;
      serial_number = is_some serial;
      hardware_revision = is_some hardware;
      software_revision = is_some software;
      battery_simulation_enabled = is_some enabled;
      battery_minimum_percent = is_some minimum;
      battery_maximum_percent = is_some maximum;
      battery_current_percent = is_some current;
      battery_drop_active_minutes = is_some interval;
      battery_active_ms = is_some active;
      values = record {
        device_name = value_or (replicate 30 0) name;
        manufacturer_name = value_or (replicate 33 0) manufacturer;
        model_number = value_or (replicate 33 0) model;
        serial_number = value_or (replicate 33 0) serial;
        hardware_revision = value_or (replicate 17 0) hardware;
        software_revision = value_or (replicate 17 0) software;
        battery_simulation_enabled = value_or 0 enabled != 0;
        battery_minimum_percent = value_or 0 minimum;
        battery_maximum_percent = value_or 0 maximum;
        battery_current_percent = value_or 0 current;
        battery_drop_active_minutes = value_or 0 interval;
      };
      active_ms = value_or 0 active;
    }

  -- The part of `init` behind the test of the mutex, but for the clearing of "restart_req".
  unfoldable pub init_loaded : Service → Reading Overrides → Service × Status
  unfolding load
  init_loaded svc (stopped e) = (svc, error e)
  init_loaded svc (got overrides) = (
    record svc { state = load svc.chip_identity (some (version_text p.version)) (some overrides) },
    ok,
  )

-- ===== src/IdentityService/Loaded.antt =====
-- What the service loads from a storage that holds a configuration.
use typxen.Base.{
  ℕ, ◌<◌, ◌≡◌, refl, Bool, true, false, Option, none, some, List, arith, length, replicate,
  if◌then◌else◌, ◌!=◌,
}
use typxen.Base.Text.{codes}
use typxen.Identity.Types.{Config, Overrides, valid}
use typxen.Identity.Config.{validate}
use typxen.IdentityService.Defs.{
  ok, Item, text, u8, u16, u64, got, Platform, c_string, is_some, value_or, get_optional_string,
  get_optional_u8, get_optional_u16, load_overrides,
}
use typxen.IdentityService.Calls.{byte_of}
use typxen.IdentityService.Writes.{reading_of}
use typxen.IdentityService.Texts.{c_string-lt, copied}
use typxen.IdentityService.Copied.{validate-texts}

-- The serial number, which may be generated anew.
abbrev pub serial_item : Bool → Config → Option Item
serial_item generated c = if generated then none else some (text (c_string c.serial_number))

abbrev pub kept_serial : Bool → Config → Option (List ℕ)
kept_serial generated c = if generated then none else some (copied 33 c.serial_number)

byte_of-!= : (b : Bool) → (byte_of b != 0) ≡ b
byte_of-!= true = refl
byte_of-!= false = refl

-- A world whose storage holds a configuration.
pub record Holds {W : Type 0} (p : Platform W) (generated : Bool) (c : Config) (w : W)
    : Type 0 where
  pub name : p.get w (codes "name") ≡ got (text (c_string c.device_name))
  pub manufacturer : p.get w (codes "manufacturer") ≡ got (text (c_string c.manufacturer_name))
  pub model : p.get w (codes "model") ≡ got (text (c_string c.model_number))
  pub serial : p.get w (codes "serial") ≡ reading_of (serial_item generated c)
  pub hardware : p.get w (codes "hw_rev") ≡ got (text (c_string c.hardware_revision))
  pub software : p.get w (codes "sw_rev") ≡ got (text (c_string c.software_revision))
  pub enabled : p.get w (codes "batt_enabled") ≡ got (u8 (byte_of c.battery_simulation_enabled))
  pub minimum : p.get w (codes "batt_min") ≡ got (u8 c.battery_minimum_percent)
  pub maximum : p.get w (codes "batt_max") ≡ got (u8 c.battery_maximum_percent)
  pub current : p.get w (codes "batt_current") ≡ got (u8 c.battery_current_percent)
  pub interval : p.get w (codes "batt_interval") ≡ got (u16 c.battery_drop_active_minutes)
  pub active : p.get w (codes "batt_active_ms") ≡ got (u64 0)

-- What is loaded.
abbrev pub held : Bool → Config → Overrides
held generated c = record {
  device_name = true;
  manufacturer_name = true;
  model_number = true;
  serial_number = is_some (kept_serial generated c);
  hardware_revision = true;
  software_revision = true;
  battery_simulation_enabled = true;
  battery_minimum_percent = true;
  battery_maximum_percent = true;
  battery_current_percent = true;
  battery_drop_active_minutes = true;
  battery_active_ms = true;
  values = record c {
    device_name = copied 30 c.device_name;
    manufacturer_name = copied 33 c.manufacturer_name;
    model_number = copied 33 c.model_number;
    serial_number = value_or (replicate 33 0) (kept_serial generated c);
    hardware_revision = copied 17 c.hardware_revision;
    software_revision = copied 17 c.software_revision;
  };
  active_ms = 0;
}

module _ {W : Type 0} (p : Platform W) where
  text-read :
      (w : W) (key buffer : List ℕ) (capacity : ℕ)
      → p.get w key ≡ got (text (c_string buffer))
      → length (c_string buffer) < capacity
      → get_optional_string p w key capacity ≡ got (some (copied capacity buffer))
  unfolding get_optional_string
  text-read w key buffer capacity h lt = rw h (ground arith)

  serial-read :
      (w : W) (generated : Bool) (c : Config)
      → p.get w (codes "serial") ≡ reading_of (serial_item generated c)
      → length (c_string c.serial_number) < 33
      → get_optional_string p w (codes "serial") 33 ≡ got (kept_serial generated c)
  unfolding get_optional_string
  serial-read w true c h lt = rw h refl
  serial-read w false c h lt = rw h (ground arith)

  u8-read :
      (w : W) (key : List ℕ) (n : ℕ)
      → p.get w key ≡ got (u8 n)
      → get_optional_u8 p w key ≡ got (some n)
  unfolding get_optional_u8
  u8-read w key n h = rw h refl

  u16-read :
      (w : W) (key : List ℕ) (n : ℕ)
      → p.get w key ≡ got (u16 n)
      → get_optional_u16 p w key ≡ got (some n)
  unfolding get_optional_u16
  u16-read w key n h = rw h refl

  pub load_overrides-Holds :
      (w : W) (generated : Bool) (c : Config)
      → p.open_readonly w ≡ ok
      → Holds p generated c w
      → validate c false ≡ valid
      → load_overrides p w ≡ got (held generated c)
  unfolding load_overrides
  load_overrides-Holds w generated c o h v =
      let (name, manufacturer, model, serial, hardware, software) = validate-texts c v in
      rw
        (
          o,
          text-read w (codes "name") c.device_name 30 h.name (c_string-lt _ 30 false name),
          text-read w (codes "manufacturer") c.manufacturer_name 33 h.manufacturer
              (c_string-lt _ 33 false manufacturer),
          text-read w (codes "model") c.model_number 33 h.model (c_string-lt _ 33 false model),
          serial-read w generated c h.serial (c_string-lt _ 33 false serial),
          text-read w (codes "hw_rev") c.hardware_revision 17 h.hardware
              (c_string-lt _ 17 false hardware),
          text-read w (codes "sw_rev") c.software_revision 17 h.software
              (c_string-lt _ 17 false software),
          u8-read w (codes "batt_enabled") _ h.enabled,
          u8-read w (codes "batt_min") _ h.minimum,
          u8-read w (codes "batt_max") _ h.maximum,
          u8-read w (codes "batt_current") _ h.current,
          u16-read w (codes "batt_interval") _ h.interval,
          h.active,
          byte_of-!= c.battery_simulation_enabled,
        )
        refl

-- ===== src/IdentityHttp/Shown.antt =====
-- What is shown of a request that was taken.
use typxen.Base.{
  ℕ, ◌≡◌, refl, sym, ap, ◌∙◌, subst, ◌⊎◌, inl, inr, Bool, true, some, List, [], ◌∷◌, ◌==◌, get_or,
  Bool-cases,
}
use typxen.Base.Text.{codes}
use typxen.Identity.Types.{Config, IdentityState}
use typxen.Identity.Text.{text_length}
use typxen.Identity.Config.{fill_serial}
use typxen.IdentityService.Defs.{c_string}
use typxen.IdentityService.Texts.{copied, copied_config, c_string-copied}
use typxen.IdentityHttp.Json.{Json, pos, Report, identity_json}
use typxen.IdentityHttp.Parsed.{text_member, number_member, boolean_member, HasBattery, HasConfig}

-- The texts and the numbers of a request stand in an answer; a serial number that is requested empty
-- may be any.
pub record Shows {J : Type 0} (json : Json J) (root : J) (report : Report) : Type 0 where
  pub name : text_member json root (codes "deviceName") ≡ some report.device_name
  pub manufacturer :
      text_member json root (codes "manufacturerName") ≡ some report.manufacturer_name
  pub model : text_member json root (codes "modelNumber") ≡ some report.model_number
  pub serial :
      (text_member json root (codes "serialNumber") ≡ some report.serial_number)
      ⊎ (text_member json root (codes "serialNumber") ≡ some [])
  pub hardware : text_member json root (codes "hardwareRevision") ≡ some report.hardware_revision
  pub software : text_member json root (codes "softwareRevision") ≡ some report.software_revision
  pub battery :
      (b : J) × (json.item root (codes "battery") ≡ some b)
      × (boolean_member json b (codes "simulationEnabled") ≡ some report.simulation_enabled)
      × (number_member json b (codes "minimumPercent") ≡ some (true, pos report.minimum_percent))
      × (number_member json b (codes "maximumPercent") ≡ some (true, pos report.maximum_percent))
      × (number_member json b (codes "currentPercent") ≡ some (true, pos report.current_percent))
      × (number_member json b (codes "dropActiveMinutes")
          ≡ some (true, pos report.drop_active_minutes))

c_string-empty : (text : List ℕ) → (get_or text 0 0 == 0) ≡ true → c_string text ≡ []
unfolding c_string text_length
c_string-empty [] h = refl
c_string-empty (b ∷ text) h = rw h refl

fill_serial-empty :
    (s : IdentityState) (c : Config)
    → (((get_or c.serial_number 0 0 == 0) ≡ true)
        × (fill_serial s c ≡ record c { serial_number = (fill_serial s c).serial_number }))
      ⊎ (fill_serial s c ≡ c)
unfolding fill_serial
fill_serial-empty s c = elim (Bool-cases (get_or c.serial_number 0 0 == 0)) [
  | inl empty ↦ inl (empty, rw empty refl)
  | inr some_text ↦ inr (rw some_text refl)
]

module _ {J : Type 0} (json : Json J) where
  with_serial-HasBattery :
      (battery : J) (c : Config) (serial : List ℕ)
      → HasBattery json battery c
      → HasBattery json battery (record c { serial_number = serial })
  with_serial-HasBattery battery c serial h = record {
    enabled = h.enabled;
    minimum = h.minimum;
    maximum = h.maximum;
    current = h.current;
    interval = h.interval;
  }

  copied-HasBattery :
      (battery : J) (c : Config)
      → HasBattery json battery c
      → HasBattery json battery (copied_config c)
  copied-HasBattery battery c h = record {
    enabled = h.enabled;
    minimum = h.minimum;
    maximum = h.maximum;
    current = h.current;
    interval = h.interval;
  }

  with_serial-HasConfig :
      (root : J) (c : Config) (serial : List ℕ)
      → HasConfig json root c
      → text_member json root (codes "serialNumber") ≡ some []
      → HasConfig json root (record c { serial_number = serial })
  with_serial-HasConfig root c serial h empty = record {
    name = h.name;
    manufacturer = h.manufacturer;
    model = h.model;
    serial = inr empty;
    hardware = h.hardware;
    software = h.software;
    battery = (h.battery.0, h.battery.1, with_serial-HasBattery h.battery.0 c serial h.battery.2);
  }

  empty_requested :
      (root : J) (c : Config)
      → HasConfig json root c
      → (get_or c.serial_number 0 0 == 0) ≡ true
      → text_member json root (codes "serialNumber") ≡ some []
  empty_requested root c h empty = elim h.serial [
    | inl given ↦ given ∙ ap some (c_string-empty c.serial_number empty)
    | inr none_given ↦ none_given
  ]

  pub fill_serial-HasConfig :
      (root : J) (s : IdentityState) (c : Config)
      → HasConfig json root c
      → HasConfig json root (fill_serial s c)
  fill_serial-HasConfig root s c h = elim (fill_serial-empty s c) [
    | inl (empty, filled) ↦ subst (HasConfig json root) (sym filled) (
        with_serial-HasConfig root c (fill_serial s c).serial_number h
          (empty_requested root c h empty))
    | inr kept ↦ subst (HasConfig json root) (sym kept) h
  ]

  copied-member :
      (root : J) (name buffer : List ℕ) (capacity : ℕ)
      → text_member json root name ≡ some (c_string buffer)
      → text_member json root name ≡ some (c_string (copied capacity buffer))
  copied-member root name buffer capacity h = h ∙ ap some (sym (c_string-copied capacity buffer))

  pub copied_config-HasConfig :
      (root : J) (c : Config) → HasConfig json root c → HasConfig json root (copied_config c)
  copied_config-HasConfig root c h = record {
    name = copied-member root _ c.device_name 30 h.name;
    manufacturer = copied-member root _ c.manufacturer_name 33 h.manufacturer;
    model = copied-member root _ c.model_number 33 h.model;
    serial = elim h.serial [
      | inl given ↦ inl (copied-member root _ c.serial_number 33 given)
      | inr empty ↦ inr empty
    ];
    hardware = copied-member root _ c.hardware_revision 17 h.hardware;
    software = copied-member root _ c.software_revision 17 h.software;
    battery = (h.battery.0, h.battery.1, copied-HasBattery h.battery.0 c h.battery.2);
  }

  pub identity_json-Shows :
      (root : J) (s : IdentityState) (ble_connected : Bool)
      → HasConfig json root s.config
      → Shows json root (identity_json s ble_connected)
  unfolding identity_json
  identity_json-Shows root s ble_connected h =
      let (battery, found, numbers) = h.battery in
      record {
        name = h.name;
        manufacturer = h.manufacturer;
        model = h.model;
        serial = h.serial;
        hardware = h.hardware;
        software = h.software;
        battery = (
          battery, found, numbers.enabled, numbers.minimum, numbers.maximum, numbers.current,
          numbers.interval,
        );
      }

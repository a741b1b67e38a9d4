-- ===== src/IdentityHttp/Parsed.antt =====
-- What a request that is parsed holds.
use typxen.Base.{
  subst, ◌⊎◌, inl, [], ℕ, ◌%◌, ◌^◌, ◌≤◌, ◌≡◌, refl, sym, ap, ◌∙◌, Bool, true, false, not, Option,
  none, some, List, arith,
}
use typxen.Base.Text.{codes}
use typxen.Identity.Types.{Config}
use typxen.IdentityService.Defs.{c_string}
use typxen.IdentityService.Texts.{copied, c_string-copied}
use typxen.IdentityHttp.Json.{
  Json, ℤ, pos, negsuc, ◌>>=◌, guard, in_range, put_string, copy_string, copy_integer,
  parse_battery, with_texts, parse_config,
}

module _ {J : Type 0} (json : Json J) where
  -- The members of an object.
  abbrev pub text_member : J → List ℕ → Option (List ℕ)
  text_member root name = json.item root name >>= json.string >>= λ s. some (c_string s)

  abbrev pub number_member : J → List ℕ → Option (Bool × ℤ)
  number_member root name = json.item root name >>= json.number

  abbrev pub boolean_member : J → List ℕ → Option Bool
  boolean_member root name = json.item root name >>= json.boolean

  -- The member "battery" holds the numbers of a configuration.
  pub record HasBattery (battery : J) (c : Config) : Type 0 where
    pub enabled :
        boolean_member battery (codes "simulationEnabled") ≡ some c.battery_simulation_enabled
    pub minimum :
        number_member battery (codes "minimumPercent") ≡ some (true, pos c.battery_minimum_percent)
    pub maximum :
        number_member battery (codes "maximumPercent") ≡ some (true, pos c.battery_maximum_percent)
    pub current :
        number_member battery (codes "currentPercent") ≡ some (true, pos c.battery_current_percent)
    pub interval :
        number_member battery (codes "dropActiveMinutes")
        ≡ some (true, pos c.battery_drop_active_minutes)

  -- The texts of the request are those of the configuration, and so are its numbers; the serial
  -- number may be requested empty.
  pub record HasConfig (root : J) (c : Config) : Type 0 where
    pub name : text_member root (codes "deviceName") ≡ some (c_string c.device_name)
    pub manufacturer :
        text_member root (codes "manufacturerName") ≡ some (c_string c.manufacturer_name)
    pub model : text_member root (codes "modelNumber") ≡ some (c_string c.model_number)
    pub serial :
        (text_member root (codes "serialNumber") ≡ some (c_string c.serial_number))
        ⊎ (text_member root (codes "serialNumber") ≡ some [])
    pub hardware : text_member root (codes "hardwareRevision") ≡ some (c_string c.hardware_revision)
    pub software : text_member root (codes "softwareRevision") ≡ some (c_string c.software_revision)
    pub battery : (b : J) × (json.item root (codes "battery") ≡ some b) × HasBattery b c

bind_some :
    {A B : Type 0} (m : Option A) (f : A → Option B) {b : B}
    → (m >>= f) ≡ some b
    → (a : A) × (m ≡ some a) × (f a ≡ some b)
bind_some none f h = absurd (ground (arith, h))
bind_some (some a) f h = (a, refl, h)

abbrev value_of : {A : Type 0} → A → Option A → A
value_of d none = d
value_of d (some a) = a

some_inj : {A : Type 0} {a b : A} → some a ≡ some b → a ≡ b
some_inj {a} h = ap (value_of a) h

same_number :
    (n k : ℕ) → n ≡ k → ◌≡◌ {A = Option (Bool × ℤ)} (some (true, pos n)) (some (true, pos k))
same_number n k same = ap (λ m. some (true, pos m)) same

put_string-some :
    (capacity : ℕ) (empty_allowed : Bool) (s buffer : List ℕ)
    → put_string capacity empty_allowed s ≡ some buffer
    → copied capacity s ≡ buffer
unfolding put_string
put_string-some capacity empty_allowed s buffer h = ground arith

in_range_some :
    (minimum maximum n : ℕ) (number : Bool × ℤ)
    → in_range minimum maximum number ≡ some n
    → (number ≡ (true, pos n)) × (n ≤ maximum)
unfolding in_range
in_range_some minimum maximum n (exact, negsuc k) h = absurd (ground (arith, h))
in_range_some minimum maximum n (exact, pos k) h = ground arith

module _ {J : Type 0} (json : Json J) where
  copy_string-some :
      (root : J) (name : List ℕ) (capacity : ℕ) (empty_allowed : Bool) (buffer : List ℕ)
      → copy_string json root name capacity empty_allowed ≡ some buffer
      → text_member json root name ≡ some (c_string buffer)
  unfolding copy_string
  copy_string-some root name capacity empty_allowed buffer h =
      let (s, found, put) =
        bind_some (json.item root name >>= json.string) (put_string capacity empty_allowed) h in
      ap (λ m. m >>= λ s. some (c_string s)) found
      ∙ ap some (
          sym (c_string-copied capacity s)
          ∙ ap c_string (put_string-some capacity empty_allowed s buffer put))

  copy_integer-some :
      (root : J) (name : List ℕ) (minimum maximum n : ℕ)
      → copy_integer json root name minimum maximum ≡ some n
      → (number_member json root name ≡ some (true, pos n)) × (n ≤ maximum)
  unfolding copy_integer
  copy_integer-some root name minimum maximum n h =
      let (number, found, within) =
        bind_some (number_member json root name) (in_range minimum maximum) h in
      let (same, small) = in_range_some minimum maximum n number within in
      (found ∙ ap some same, small)

  -- The configuration that `parse_battery` makes of its parts.
  abbrev with_battery : Config → Bool → ℕ → ℕ → ℕ → ℕ → Config
  with_battery texts enabled minimum maximum current minutes = record texts {
    battery_simulation_enabled = enabled;
    battery_minimum_percent = minimum % 2 ^ 8;
    battery_maximum_percent = maximum % 2 ^ 8;
    battery_current_percent = current % 2 ^ 8;
    battery_drop_active_minutes = minutes % 2 ^ 16;
  }

  HasBattery-with_battery :
      (battery : J) (texts : Config) (enabled : Bool) (minimum maximum current minutes : ℕ)
      → boolean_member json battery (codes "simulationEnabled") ≡ some enabled
      → copy_integer json battery (codes "minimumPercent") 0 99 ≡ some minimum
      → copy_integer json battery (codes "maximumPercent") 1 100 ≡ some maximum
      → copy_integer json battery (codes "currentPercent") 0 100 ≡ some current
      → copy_integer json battery (codes "dropActiveMinutes") 1 1440 ≡ some minutes
      → HasBattery json battery (with_battery texts enabled minimum maximum current minutes)
  HasBattery-with_battery battery texts enabled minimum maximum current minutes e a b c d =
      let (minimum', minimum_le) =
        copy_integer-some battery (codes "minimumPercent") 0 99 minimum a in
      let (maximum', maximum_le) =
        copy_integer-some battery (codes "maximumPercent") 1 100 maximum b in
      let (current', current_le) =
        copy_integer-some battery (codes "currentPercent") 0 100 current c in
      let (minutes', minutes_le) =
        copy_integer-some battery (codes "dropActiveMinutes") 1 1440 minutes d in
      record {
        enabled = e;
        minimum = minimum' ∙ same_number minimum (minimum % 2 ^ 8) (omega arith);
        maximum = maximum' ∙ same_number maximum (maximum % 2 ^ 8) (omega arith);
        current = current' ∙ same_number current (current % 2 ^ 8) (omega arith);
        interval = minutes' ∙ same_number minutes (minutes % 2 ^ 16) (omega arith);
      }

  parse_battery-some :
      (battery : J) (texts c : Config)
      → parse_battery json battery texts ≡ some c
      → HasBattery json battery c
        × (c.device_name ≡ texts.device_name)
        × (c.manufacturer_name ≡ texts.manufacturer_name)
        × (c.model_number ≡ texts.model_number)
        × (c.serial_number ≡ texts.serial_number)
        × (c.hardware_revision ≡ texts.hardware_revision)
        × (c.software_revision ≡ texts.software_revision)
  unfolding parse_battery
  parse_battery-some battery texts c h =
      let (enabled, e, h1) =
        bind_some (boolean_member json battery (codes "simulationEnabled")) _ h in
      let (_, _, h2) = bind_some (guard (json.is_object battery)) _ h1 in
      let (minimum, a, h3) =
        bind_some (copy_integer json battery (codes "minimumPercent") 0 99) _ h2 in
      let (maximum, b, h4) =
        bind_some (copy_integer json battery (codes "maximumPercent") 1 100) _ h3 in
      let (current, d, h5) =
        bind_some (copy_integer json battery (codes "currentPercent") 0 100) _ h4 in
      let (minutes, k, h6) =
        bind_some (copy_integer json battery (codes "dropActiveMinutes") 1 1440) _ h5 in
      let made = with_battery texts enabled minimum maximum current minutes in
      let same : made ≡ c = some_inj h6 in
      (
        subst (HasBattery json battery) same (
            HasBattery-with_battery battery texts enabled minimum maximum current minutes e a b d
              k),
        ap (λ (c : Config). c.device_name) (sym same),
        ap (λ (c : Config). c.manufacturer_name) (sym same),
        ap (λ (c : Config). c.model_number) (sym same),
        ap (λ (c : Config). c.serial_number) (sym same),
        ap (λ (c : Config). c.hardware_revision) (sym same),
        ap (λ (c : Config). c.software_revision) (sym same),
      )

  -- A request that is parsed has the texts and the numbers of the configuration it gives.
  pub parse_config-HasConfig :
      (root : J) (c : Config) → parse_config json root ≡ some c → HasConfig json root c
  unfolding parse_config
  parse_config-HasConfig root c h =
      let (_, _, h1) = bind_some (guard (json.is_object root)) _ h in
      let (_, _, h2) =
        bind_some (guard (not (json.has_item root (codes "firmwareRevision")))) _ h1 in
      let (name, n, h3) = bind_some (copy_string json root (codes "deviceName") 30 false) _ h2 in
      let (manufacturer, mf, h4) =
        bind_some (copy_string json root (codes "manufacturerName") 33 false) _ h3 in
      let (model, m, h5) = bind_some (copy_string json root (codes "modelNumber") 33 false) _ h4 in
      let (serial, s, h6) = bind_some (copy_string json root (codes "serialNumber") 33 true) _ h5 in
      let (hardware, hw, h7) =
        bind_some (copy_string json root (codes "hardwareRevision") 17 false) _ h6 in
      let (software, sw, h8) =
        bind_some (copy_string json root (codes "softwareRevision") 17 false) _ h7 in
      let (battery, b, h9) = bind_some (json.item root (codes "battery")) _ h8 in
      let (numbers, n', mf', m', s', hw', sw') =
        parse_battery-some battery (with_texts name manufacturer model serial hardware software) c
          h9 in
      record {
        name = copy_string-some root _ 30 false name n ∙ ap (λ t. some (c_string t)) (sym n');
        manufacturer =
            copy_string-some root _ 33 false manufacturer mf
            ∙ ap (λ t. some (c_string t)) (sym mf');
        model = copy_string-some root _ 33 false model m ∙ ap (λ t. some (c_string t)) (sym m');
        serial =
            inl (copy_string-some root _ 33 true serial s ∙ ap (λ t. some (c_string t)) (sym s'));
        hardware =
            copy_string-some root _ 17 false hardware hw ∙ ap (λ t. some (c_string t)) (sym hw');
        software =
            copy_string-some root _ 17 false software sw ∙ ap (λ t. some (c_string t)) (sym sw');
        battery = (battery, b, numbers);
      }

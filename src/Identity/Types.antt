-- ===== src/Identity/Types.antt =====
-- The types of typx_ble_identity.h.
use typxen.Base.{ℕ, Bool, List}

pub record Config : Type 0 where
  pub device_name : List ℕ
  pub manufacturer_name : List ℕ
  pub model_number : List ℕ
  pub serial_number : List ℕ
  pub hardware_revision : List ℕ
  pub software_revision : List ℕ
  pub battery_simulation_enabled : Bool
  pub battery_minimum_percent : ℕ
  pub battery_maximum_percent : ℕ
  pub battery_current_percent : ℕ
  pub battery_drop_active_minutes : ℕ

-- The flags say which of `values` are set.
pub record Overrides : Type 0 where
  pub device_name : Bool
  pub manufacturer_name : Bool
  pub model_number : Bool
  pub serial_number : Bool
  pub hardware_revision : Bool
  pub software_revision : Bool
  pub battery_simulation_enabled : Bool
  pub battery_minimum_percent : Bool
  pub battery_maximum_percent : Bool
  pub battery_current_percent : Bool
  pub battery_drop_active_minutes : Bool
  pub battery_active_ms : Bool
  pub values : Config
  pub active_ms : ℕ

pub data Validation : Type 0 where
  valid invalid_device_name invalid_manufacturer invalid_model invalid_serial : Validation
  invalid_hardware_revision invalid_software_revision invalid_battery_range : Validation
  invalid_battery_current invalid_battery_interval : Validation

pub record IdentityState : Type 0 where
  pub config : Config
  pub firmware_revision : List ℕ
  pub board_identifier : List ℕ
  pub source_device_name_nvs : Bool
  pub source_manufacturer_nvs : Bool
  pub source_model_nvs : Bool
  pub source_serial_nvs : Bool
  pub restart_required : Bool
  pub battery_active_ms : ℕ
  pub last_success_ms : ℕ
  pub activity_open : Bool

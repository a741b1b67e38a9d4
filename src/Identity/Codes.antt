-- ===== src/Identity/Codes.antt =====
-- The names of the failures, and what a restart clears.
use typxen.Base.{ℕ, Bool, List}
use typxen.Base.Text.{codes}
use typxen.Identity.Types.{
  Validation, valid, invalid_device_name, invalid_manufacturer, invalid_model, invalid_serial,
  invalid_hardware_revision, invalid_software_revision, invalid_battery_range,
  invalid_battery_current, invalid_battery_interval, IdentityState,
}

unfoldable pub validation_code : Validation → List ℕ
validation_code valid = codes "OK"
validation_code invalid_device_name = codes "INVALID_DEVICE_NAME"
validation_code invalid_manufacturer = codes "INVALID_MANUFACTURER"
validation_code invalid_model = codes "INVALID_MODEL"
validation_code invalid_serial = codes "INVALID_SERIAL"
validation_code invalid_hardware_revision = codes "INVALID_HARDWARE_REVISION"
validation_code invalid_software_revision = codes "INVALID_SOFTWARE_REVISION"
validation_code invalid_battery_range = codes "INVALID_BATTERY_RANGE"
validation_code invalid_battery_current = codes "INVALID_BATTERY_CURRENT"
validation_code invalid_battery_interval = codes "INVALID_BATTERY_INTERVAL"

unfoldable pub restart_clears_bonds : IdentityState → Bool
restart_clears_bonds state = state.restart_required

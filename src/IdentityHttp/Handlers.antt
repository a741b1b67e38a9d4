-- ===== src/IdentityHttp/Handlers.antt =====
-- The handlers of typx_identity_http.c.
use typxen.Base.{ℕ, Bool, true, false, not, Option, none, some, List, if◌then◌else◌}
use typxen.Base.Text.{codes}
use typxen.Identity.Types.{
  Config, Validation, valid, invalid_device_name, invalid_manufacturer, invalid_model,
  invalid_serial, invalid_hardware_revision, invalid_software_revision, invalid_battery_range,
  invalid_battery_current, invalid_battery_interval, IdentityState,
}
use typxen.Identity.Codes.{validation_code, restart_clears_bonds}
use typxen.HidRuntime.Defs.{is_idle}
use typxen.BleHid.Defs.{Ble, Platform}
use typxen.IdentityService.Defs.{Error, invalid_arg, Status, ok, error, is_ok, Service}
use typxen.IdentityService.Calls.{save, reset, battery_reset}
use typxen.IdentityService.Defs
use typxen.IdentityHttp.Json.{Json, parse_config, Report, identity_json}
use typxen.BleHid.Events.{Bonds, clear_bonds, prepare_reboot, on_platform}

unfoldable pub validation_field : Validation → Option (List ℕ)
validation_field invalid_device_name = some (codes "deviceName")
validation_field invalid_manufacturer = some (codes "manufacturerName")
validation_field invalid_model = some (codes "modelNumber")
validation_field invalid_serial = some (codes "serialNumber")
validation_field invalid_hardware_revision = some (codes "hardwareRevision")
validation_field invalid_software_revision = some (codes "softwareRevision")
validation_field invalid_battery_range = some (codes "battery")
validation_field invalid_battery_current = some (codes "currentPercent")
validation_field invalid_battery_interval = some (codes "dropActiveMinutes")
validation_field valid = none

-- What a handler sends: 200 and the identity; a status of HTTP with a code and a field; or 202 and
-- whether the bonds are cleared.
pub data Answer : Type 0 where
  shown : Report → Answer
  refused : ℕ → List ℕ → Option (List ℕ) → Answer
  rebooting : Bool → Answer

abbrev pub job_active : Answer
job_active = refused 409 (codes "DEDICATED_JOB_ACTIVE") none

abbrev pub is_invalid_arg : Status → Bool
is_invalid_arg (error invalid_arg) = true
is_invalid_arg _ = false

-- `job_locked` is what `typx_wifi_service_job_locked` gives, `ble_connected` what
-- `typx_ble_hid_connected` gives.
module _ {W : Type 0} (p : typxen.IdentityService.Defs.Platform W)
    (job_locked ble_connected : Bool) where
  -- The answer of a call that leaves the identity, where it was made.
  abbrev pub answer_of : Answer → Service × W × Status → Answer × Service × W
  answer_of failure (svc, w, status) =
      (if is_ok status then shown (identity_json svc.state ble_connected) else failure, svc, w)

  -- What `typx_identity_service_save` came to.
  unfoldable pub save_answered : (Service × W × Status) × Validation → Answer × Service × W
  unfolding validation_field validation_code identity_json
  save_answered ((svc, w, status), validation) =
      answer_of
        (if is_invalid_arg status
          then refused 422 (validation_code validation) (validation_field validation)
          else refused 500 (codes "SAVE_FAILED") none)
        (svc, w, status)

  unfoldable pub config_taken : Service → W → Option Config → Answer × Service × W
  unfolding save_answered save
  config_taken svc w none = (refused 400 (codes "INVALID_IDENTITY_REQUEST") none, svc, w)
  config_taken svc w (some config) = save_answered (save p svc w config valid)

  -- The request's body is read before, whatever comes of it; `none` for one that cannot be parsed.
  unfoldable pub put_handler : {J : Type 0} → Json J → Option J → Service → W → Answer × Service × W
  unfolding config_taken parse_config
  put_handler json root svc w =
      if job_locked
      then (job_active, svc, w)
      else config_taken svc w (elim root [ none ↦ none | some j ↦ parse_config json j ])

  unfoldable pub reset_handler : Service → W → Answer × Service × W
  unfolding reset identity_json
  reset_handler svc w =
      if job_locked
      then (job_active, svc, w)
      else answer_of (refused 500 (codes "RESET_FAILED") none) (reset p svc w)

  unfoldable pub battery_reset_handler : Service → W → Answer × Service × W
  unfolding battery_reset identity_json
  battery_reset_handler svc w =
      if job_locked
      then (job_active, svc, w)
      else answer_of (refused 500 (codes "BATTERY_RESET_FAILED") none) (battery_reset p svc w)

-- `xTaskCreate` of `reboot_task`, and whether the answer could be sent.
pub record Reboot (P : Type 0) : Type 0 where
  pub create_task : P → Bool × P
  pub send_answer : Answer → P → Bool × P

-- What becomes of `reboot_task`: it was never made, was deleted, or was told to restart the board.
pub data Task : Type 0 where
  not_made deleted told_to_restart : Task

pub record Restart (P : Type 0) : Type 0 where
  pub answer : Answer
  pub task : Task
  pub ble : Ble P

module _ {P A : Type 0} (reboot : Reboot P) (keyboard : Platform P) (bonds : Bonds P A) where
  -- Behind the bonds: the answer is sent, and the task told if it was.
  unfoldable pub answer_restart : Bool → Ble P → Restart P
  answer_restart clear r =
      let (sent, q) = reboot.send_answer (rebooting clear) r.context.platform in
      record {
        answer = rebooting clear;
        task = if sent then told_to_restart else deleted;
        ble = on_platform (λ _. q) r;
      }

  unfoldable pub bonds_cleared : Bool → Bool × Ble P → Restart P
  unfolding answer_restart
  bonds_cleared clear (false, r) = record {
    answer = refused 500 (codes "BOND_CLEAR_FAILED") none;
    task = deleted;
    ble = r;
  }
  bonds_cleared clear (true, r) = answer_restart clear r

  unfoldable pub reboot_prepared : Bool → Bool × Ble P → Restart P
  unfolding bonds_cleared clear_bonds
  reboot_prepared clear (false, r) = record {
    answer = refused 500 (codes "HID_RELEASE_FAILED") none;
    task = deleted;
    ble = r;
  }
  reboot_prepared clear (true, r) =
      bonds_cleared clear (if clear then clear_bonds bonds false r else (true, r))

  unfoldable pub reboot_made : Bool → Bool × Ble P → Restart P
  unfolding reboot_prepared prepare_reboot
  reboot_made clear (false, r) = record {
    answer = refused 500 (codes "RESTART_UNAVAILABLE") none;
    task = not_made;
    ble = r;
  }
  reboot_made clear (true, r) = reboot_prepared clear (prepare_reboot keyboard r)

  -- `identity` is the snapshot of the service.
  unfoldable pub restart_handler : Bool → IdentityState → Ble P → Restart P
  unfolding is_idle restart_clears_bonds reboot_made
  restart_handler job_locked identity r =
      let (made, q) = reboot.create_task r.context.platform in
      if job_locked
      then record { answer = job_active; task = not_made; ble = r }
      else if not (is_idle r)
      then record {
        answer = refused 409 (codes "HID_EXECUTION_ACTIVE") none;
        task = not_made;
        ble = r;
      }
      else reboot_made (restart_clears_bonds identity) (made, on_platform (λ _. q) r)

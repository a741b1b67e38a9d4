-- ===== src/IdentityService/Calls.antt =====
-- The calls of typx_identity_service.c.
use typxen.Base.{
  ℕ, Bool, true, false, not, Option, none, some, List, [], ◌∷◌, if◌then◌else◌, ◌==◌, ◌!=◌, get_or,
}
use typxen.Base.Text.{codes}
use typxen.Identity.Types.{Config, Validation, IdentityState}
use typxen.Identity.Config.{load, prepare_update, identity_text_changed}
use typxen.Identity.Battery.{record_successful_report, end_activity, reset_battery}
use typxen.IdentityService.Defs.{
  Status, ok, error, is_ok, nvs_not_found, invalid_arg, invalid_state, no_mem, Item, text, u8, u16,
  u64, Platform, Service, c_string, load_overrides, or_none, init_loaded,
}

-- A step of a chain that goes on while the error is ESP_OK.
abbrev pub next {ℓ} : {W : Type ℓ} → W × Status → (W → W × Status) → W × Status
next (w, ok) f = f w
next (w, error e) f = (w, error e)

-- `if (error == ESP_ERR_NVS_NOT_FOUND) error = ESP_OK`
abbrev pub tolerate {ℓ} : {W : Type ℓ} → W × Status → W × Status
tolerate (w, error nvs_not_found) = (w, ok)
tolerate (w, status) = (w, status)

-- A call on a key: it is set, or it is set or erased and may be missing.
pub data Write : Type 0 where
  put : List ℕ → Item → Write
  replace : List ℕ → Option Item → Write

abbrev pub byte_of : Bool → ℕ
byte_of true = 1
byte_of false = 0

-- The calls of `save_config_locked` in their order.
unfoldable pub saved_writes : Config → Config → Bool → List Write
unfolding c_string
saved_writes requested effective restart_required =
    put (codes "name") (text (c_string effective.device_name))
    ∷ put (codes "manufacturer") (text (c_string effective.manufacturer_name))
    ∷ put (codes "model") (text (c_string effective.model_number))
    ∷ replace (codes "serial") (
        if get_or requested.serial_number 0 0 == 0
        then none
        else some (text (c_string effective.serial_number)))
    ∷ put (codes "hw_rev") (text (c_string effective.hardware_revision))
    ∷ put (codes "sw_rev") (text (c_string effective.software_revision))
    ∷ put (codes "batt_enabled") (u8 (byte_of effective.battery_simulation_enabled))
    ∷ put (codes "batt_min") (u8 effective.battery_minimum_percent)
    ∷ put (codes "batt_max") (u8 effective.battery_maximum_percent)
    ∷ put (codes "batt_current") (u8 effective.battery_current_percent)
    ∷ put (codes "batt_interval") (u16 effective.battery_drop_active_minutes)
    ∷ put (codes "batt_active_ms") (u64 0)
    ∷ put (codes "restart_req") (u8 (byte_of restart_required))
    ∷ []

abbrev erasure : List ℕ → Write
erasure key = replace key none

-- The calls of `erase_identity_keys` in their order.
unfoldable pub erasures : List Write
erasures =
    erasure (codes "name")
    ∷ erasure (codes "manufacturer")
    ∷ erasure (codes "model")
    ∷ erasure (codes "serial")
    ∷ erasure (codes "hw_rev")
    ∷ erasure (codes "sw_rev")
    ∷ erasure (codes "batt_enabled")
    ∷ erasure (codes "batt_min")
    ∷ erasure (codes "batt_max")
    ∷ erasure (codes "batt_current")
    ∷ erasure (codes "batt_interval")
    ∷ erasure (codes "batt_active_ms")
    ∷ erasure (codes "restart_req")
    ∷ []

-- What an update that was stored does to the state.
unfoldable pub take_effect : IdentityState → Config → Config → Bool → IdentityState
take_effect state requested effective restart_required = record state {
  config = effective;
  restart_required = restart_required;
  battery_active_ms = 0;
  activity_open = false;
  source_device_name_nvs = true;
  source_manufacturer_nvs = true;
  source_model_nvs = true;
  source_serial_nvs = get_or requested.serial_number 0 0 != 0;
}

-- What `reset` goes back to.
unfoldable pub reset_state : Service → IdentityState
unfolding load
reset_state svc = load svc.chip_identity (some svc.state.firmware_revision) none

module _ {W : Type 0} (p : Platform W) where
  unfoldable pub write_one : W → Write → W × Status
  write_one w (put key item) = p.set w key item
  write_one w (replace key none) = tolerate (p.erase_key w key)
  write_one w (replace key (some item)) = tolerate (p.set w key item)

  -- The calls in a row, up to the first error.
  unfoldable pub write_all : List Write → W → W × Status
  unfolding write_one
  write_all [] w = (w, ok)
  write_all (write ∷ writes) w = next (write_one w write) (write_all writes)

  unfoldable pub persist_activity : IdentityState → W → W × Status
  persist_activity state w = next (p.open_readwrite w) λ w.
      next (p.set w (codes "batt_current") (u8 state.config.battery_current_percent))
        λ w. next (p.set w (codes "batt_active_ms") (u64 state.battery_active_ms)) p.commit

  -- The block at the end of `init`; its errors are dropped.
  unfoldable pub clear_request : W → W
  clear_request w =
      (next (p.open_readwrite w) λ w. next (p.erase_key w (codes "restart_req")) p.commit).0

  -- The behaviour of `init` once the overrides are read.
  unfoldable pub init_ended : W → Service × Status → Service × W × Status
  unfolding clear_request
  init_ended w (svc, status) = (svc, if is_ok status then clear_request w else w, status)

  unfoldable pub init_locked : Service → W → Bool → Service × W × Status
  unfolding init_ended init_loaded load_overrides
  init_locked svc w false = (record svc { mutex = false }, w, error no_mem)
  init_locked svc w true =
      init_ended w (init_loaded p (record svc { mutex = true }) (or_none (load_overrides p w)))

  unfoldable pub init_read : Service → W → List ℕ × Status → Service × W × Status
  unfolding init_locked
  init_read svc w (chip, ok) =
      init_locked (record svc { chip_identity = chip }) w (p.create_mutex w)
  init_read svc w (chip, error e) = (record svc { chip_identity = chip }, w, error e)

  unfoldable pub init : Service → W → Service × W × Status
  unfolding init_read
  init svc w = init_read svc w (p.read_mac w)

  unfoldable pub save_config : W → Config → Config → Bool → W × Status
  unfolding saved_writes write_all
  save_config w requested effective restart_required =
      next (p.open_readwrite w)
        λ w. next (write_all (saved_writes requested effective restart_required) w) p.commit

  -- The level for the HID device, where there is one.
  abbrev pub tell : Option ℕ → ℕ → W → W × Status
  tell none level w = (w, ok)
  tell (some device) level w = p.battery_set w device level

  abbrev pub tell_battery : Service → W → W × Status
  tell_battery svc w = tell svc.hid_device svc.state.config.battery_current_percent w

  -- The level, if it is not the previous one; the error is dropped.
  unfoldable pub tell_changed : ℕ → Service → W → W
  tell_changed previous svc w =
      if previous != svc.state.config.battery_current_percent then (tell_battery svc w).0 else w

  unfoldable pub saved : Service → Config → Config → Bool → W × Status → Service × W × Status
  unfolding take_effect tell_changed
  saved svc requested effective restart_required (w, status) =
      let svc' = record svc {
        state = take_effect svc.state requested effective restart_required;
      } in
      if is_ok status
      then (svc', tell_changed svc.state.config.battery_current_percent svc' w, status)
      else (svc, w, status)

  unfoldable pub save_prepared :
      Service → W → Config → Option (Config × Bool) → Service × W × Status
  unfolding saved save_config
  save_prepared svc w requested none = (svc, w, error invalid_arg)
  save_prepared svc w requested (some (effective, restart_required)) =
      saved svc requested effective restart_required
        (save_config w requested effective restart_required)

  -- With `*validation`, which holds `validation` before.
  unfoldable pub save : Service → W → Config → Validation → (Service × W × Status) × Validation
  unfolding save_prepared prepare_update
  save svc w requested validation =
      if not svc.mutex then ((svc, w, error invalid_arg), validation) else (
        save_prepared svc w requested (prepare_update svc.state requested).0,
        (prepare_update svc.state requested).1,
      )

  unfoldable pub reset_stored : Service → IdentityState → Bool → W × Status → Service × W × Status
  unfolding tell_changed
  reset_stored svc defaults restart_required (w, status) =
      let svc' = record svc { state = record defaults { restart_required = restart_required } } in
      if is_ok status
      then (svc', tell_changed svc.state.config.battery_current_percent svc' w, status)
      else (svc, w, status)

  unfoldable pub erase_identity : Bool → W → W × Status
  unfolding write_all erasures
  erase_identity restart_required w = next (p.open_readwrite w) λ w.
      next (write_all erasures w) λ w.
        next (if restart_required then p.set w (codes "restart_req") (u8 1) else (w, ok)) p.commit

  unfoldable pub reset : Service → W → Service × W × Status
  unfolding reset_state identity_text_changed erase_identity reset_stored
  reset svc w =
      let defaults = reset_state svc in
      let restart_required = identity_text_changed svc.state.config defaults.config in
      if not svc.mutex
      then (svc, w, error invalid_state)
      else reset_stored svc defaults restart_required (erase_identity restart_required w)

  unfoldable pub battery_reset : Service → W → Service × W × Status
  unfolding reset_battery persist_activity
  battery_reset svc w =
      let (state, changed) = reset_battery svc.state in
      let svc' = record svc { state = state } in
      let told =
        next (persist_activity state w) λ w. if changed then tell_battery svc' w else (w, ok) in
      if not svc.mutex then (svc, w, error invalid_state) else (svc', told.0, told.1)

  unfoldable pub bind_hid : Service → W → Option ℕ → Service × W × Status
  bind_hid svc w device =
      let svc' = record svc { hid_device = device } in
      if not svc.mutex
      then (svc, w, error invalid_state)
      else (svc', (tell_battery svc' w).0, (tell_battery svc' w).1)

  unfoldable pub report : Service → W → ℕ → Bool → Service × W
  unfolding record_successful_report persist_activity
  report svc w now_ms execution_active =
      let (state, changed) = record_successful_report svc.state now_ms execution_active in
      let svc' = record svc { state = state } in
      if not svc.mutex
      then (svc, w)
      else (svc', if changed then (tell_battery svc' (persist_activity state w).0).0 else w)

  unfoldable pub close_activity : Service → W → Service × W
  unfolding end_activity persist_activity
  close_activity svc w =
      let state = end_activity svc.state in
      if not svc.mutex
      then (svc, w)
      else (record svc { state = state }, (persist_activity state w).0)

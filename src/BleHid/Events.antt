-- ===== src/BleHid/Events.antt =====
-- The callbacks of the Bluetooth stack, and what the other tasks call.
use typxen.Base.{
  ℕ, Bool, true, false, not, ◌&&◌, ◌||◌, Option, none, some, List, [], ◌∷◌, if◌then◌else◌, ◌==◌,
}
use typxen.Safety.Defs.{
  Snapshot, Marker, begin, finish, interrupted, connected, disconnected_event, authenticated,
  snapshot,
}
use typxen.HidRuntime.Defs.{set_connected, request_stop, is_idle}
use typxen.BleHid.Defs.{Ble, Platform, release_all_reports}
use typxen.BleHid.Release.{safety_of, with_safety, schedule_safety_release}

-- The events that `gap_callback` acts on; the others are only logged, or answered.
pub data GapEvent : Type 0 where
  adv_data_set scan_rsp_data_set other_gap : GapEvent
  auth_cmpl : Bool → GapEvent

-- The events that `hid_callback` acts on.
pub data HiddEvent : Type 0 where
  started connect disconnect other_hidd : HiddEvent

abbrev pub with_authenticated : {P : Type 0} → Bool → Ble P → Ble P
with_authenticated success r =
    with_safety (record r { context = record r.context { authenticated = success } })
      (authenticated (safety_of r) success)

module _ {P : Type 0} where
  abbrev pub on_platform : (P → P) → Ble P → Ble P
  on_platform f r = record r { context = record r.context { platform = f r.context.platform } }

  unfoldable pub safety_status : Ble P → Snapshot
  unfolding snapshot
  safety_status r = snapshot (safety_of r)

  unfoldable pub safety_ready : Ble P → Bool
  unfolding safety_status
  safety_ready r = (safety_status r).ready

  unfoldable pub interrupted_reset : Ble P → Bool
  unfolding interrupted
  interrupted_reset r = interrupted (safety_of r)

  abbrev marked : Ble P → Bool × P → Bool × Ble P
  marked r (done, p) = (done, record r { context = record r.context { platform = p } })

  unfoldable pub mark_execution_active : Ble P → Bool × Ble P
  unfolding begin
  mark_execution_active r = marked r (begin (safety_of r) r.context.platform)

  unfoldable pub mark_execution_terminal : Ble P → Bool × Ble P
  unfolding finish
  mark_execution_terminal r = marked r (finish (safety_of r) r.context.platform)

module _ {P : Type 0} (platform : Platform P) where
  unfoldable pub start_advertising_when_ready : Ble P → Ble P
  start_advertising_when_ready r =
      if r.context.adv_data_ready
        && (r.context.scan_response_ready && (r.context.hid_ready && not r.connected))
      then on_platform platform.start_advertising r
      else r

  unfoldable pub gap_callback : GapEvent → Ble P → Ble P
  unfolding start_advertising_when_ready authenticated schedule_safety_release
  gap_callback adv_data_set r =
      start_advertising_when_ready
        (record r { context = record r.context { adv_data_ready = true } })
  gap_callback scan_rsp_data_set r =
      start_advertising_when_ready
        (record r { context = record r.context { scan_response_ready = true } })
  gap_callback (auth_cmpl true) r =
      let r' = with_authenticated true r in
      (schedule_safety_release platform (safety_of r').connection_generation r').1
  gap_callback (auth_cmpl false) r = with_authenticated false r
  gap_callback other_gap r = r

  unfoldable pub hid_callback : HiddEvent → Ble P → Ble P
  unfolding start_advertising_when_ready set_connected request_stop connected disconnected_event
  hid_callback started r =
      start_advertising_when_ready (
        on_platform platform.bind_hid
          (record r { context = record r.context { hid_ready = true } }))
  hid_callback connect r =
      let r' = set_connected r true in with_safety r' (connected (safety_of r')).0
  hid_callback disconnect r =
      let r1 : Ble P = record r { context = record r.context { authenticated = false } } in
      let r2 = with_safety r1 (disconnected_event (safety_of r1)) in
      on_platform platform.start_advertising (set_connected (request_stop r2) false)
  hid_callback other_hidd r = r

  unfoldable pub shutdown_release : Ble P → Ble P
  unfolding release_all_reports
  shutdown_release r = if r.connected then (release_all_reports platform r).1 else r

  unfoldable pub prepare_reboot : Ble P → Bool × Ble P
  unfolding request_stop release_all_reports
  prepare_reboot r =
      let stopped = request_stop r in
      let (released, r') = release_all_reports platform stopped in
      if stopped.connected
      then (if released then (true, on_platform platform.stop_advertising r') else (false, r'))
      else (true, on_platform platform.stop_advertising stopped)

-- The bonds of the stack: their number, which an `int` below 0 has as 0, their list, and the removal
-- of one. `none` stands for a list that could not be had, or for which there was no memory.
pub record Bonds (P A : Type 0) : Type 0 where
  pub bond_device_num : P → ℕ
  pub bond_device_list : ℕ → P → Option (List A)
  pub remove_bond_device : A → P → Bool × P

module _ {P A : Type 0} (bonds : Bonds P A) where
  open bonds use {remove_bond_device}

  -- The loop, with the devices that are left and `success`.
  unfoldable pub remove_loop : List A → Bool → P → Bool × P
  remove_loop [] success p = (success, p)
  remove_loop (device ∷ devices) success p =
      let (removed, p') = remove_bond_device device p in remove_loop devices (success && removed) p'

  -- The part of `clear_bonds` behind the count.
  unfoldable pub remove_listed : Option (List A) → P → Bool × P
  unfolding remove_loop
  remove_listed none p = (false, p)
  remove_listed (some devices) p = remove_loop devices true p

  unfoldable pub clear_bonds : Bool → Ble P → Bool × Ble P
  unfolding is_idle remove_listed
  clear_bonds require_disconnected r =
      let p = r.context.platform in
      let count = bonds.bond_device_num p in
      let (success, p') = remove_listed (bonds.bond_device_list count p) p in
      if not (is_idle r) || (require_disconnected && r.connected)
      then (false, r)
      else if count == 0
      then (true, r)
      else (success, record r { context = record r.context { platform = p' } })

-- The storage of the marker: `nvs_get_u8` of "active", `none` for an error but a missing key, which
-- is `some none`; and `nvs_set_u8` with `nvs_commit`. Either is behind `nvs_open`.
pub record Nvs (P : Type 0) : Type 0 where
  pub open_nvs : P → Bool × P
  pub get_active : P → Option (Option ℕ)
  pub set_active : ℕ → P → Bool × P
  pub commit : P → Bool × P

module _ {P : Type 0} (nvs : Nvs P) where
  open nvs use {open_nvs, get_active, set_active, commit}

  abbrev active_of : Option (Option ℕ) → Option Bool
  active_of none = none
  active_of (some none) = some false
  active_of (some (some value)) = some (not (value == 0))

  unfoldable pub marker_read : P → Option Bool × P
  marker_read p =
      let (opened, p') = open_nvs p in
      if not opened then (none, p') else (active_of (get_active p'), p')

  abbrev then_commit : Bool × P → Bool × P
  then_commit (true, p) = commit p
  then_commit (false, p) = (false, p)

  unfoldable pub marker_write : Bool → P → Bool × P
  marker_write active p =
      let (opened, p') = open_nvs p in
      if not opened then (false, p') else then_commit (set_active (if active then 1 else 0) p')

  -- The marker that `typx_ble_hid_init` gives the safety state.
  unfoldable pub marker : Marker P
  unfolding marker_read marker_write
  marker = record { read_active = some marker_read; write_active = some marker_write }

-- ===== src/WifiService/Modes.antt =====
-- The start of a mode of Wi-Fi, its end, the station's credentials, and the recovery of a connection.
use typxen.Base.{ℕ, Bool, true, false, not, ◌&&◌, ◌||◌, Option, none, some, List, if◌then◌else◌}
use typxen.Station.{credentials_valid, config_set, config_clear}
use typxen.WifiService.Network.{
  Mode, wifi_stopped, wifi_ap, wifi_sta, is_sta, Net, NetPlatform, no_ip, has_ip, ask, start_mdns,
  start_http, stop_http, schedule_station_fallback, initialize_wifi, halted, active_job_delay_ms,
  post_job_delay_ms,
}

abbrev pub is_ap : Mode → Bool
is_ap wifi_ap = true
is_ap _ = false

abbrev pub ip_or : Option (List ℕ) → List ℕ → List ℕ
ip_or none ip = ip
ip_or (some ip') ip = ip'

module _ {Q : Type 0} (platform : NetPlatform Q) where
  abbrev pub with_service : Mode → Bool × Net Q → Bool × Net Q
  with_service mode (true, n) = (true, if is_ap mode then start_mdns platform n else n)
  with_service mode (false, n) = (false, n)

  -- Behind `esp_wifi_start`; a failure is the label `failed`.
  abbrev pub wifi_begun : Mode → Bool × Net Q → Bool × Net Q
  wifi_begun mode (true, n) = with_service mode (
      start_http platform (record n {
        wifi_started = true;
        active_ip =
            if is_ap mode then ip_or (platform.access_point_ip n.rest) n.active_ip else n.active_ip;
      }))
  wifi_begun mode (false, n) =
      (false, record n { execution_wifi_pause = false; wifi_mode = wifi_stopped })

  -- Behind the settings of the mode.
  abbrev pub wifi_configured : Mode → Bool × Net Q → Bool × Net Q
  wifi_configured mode (true, n) = wifi_begun mode (
      ask platform.wifi_start
        (record n { wifi_mode = mode; sta_connect_attempts = 0; execution_wifi_pause = false }))
  wifi_configured mode (false, n) =
      (false, record n { execution_wifi_pause = false; wifi_mode = wifi_stopped })

  -- Behind the stop of what was started.
  abbrev pub mode_halted : Mode → Bool × Net Q → Bool × Net Q
  mode_halted mode (true, n) =
      wifi_configured mode (ask (platform.configure mode) (record n { active_ip = no_ip }))
  mode_halted mode (false, n) = (false, record n { execution_wifi_pause = false })

  abbrev pub mode_initialized : Mode → Bool × Net Q → Bool × Net Q
  mode_initialized mode (true, n) =
      mode_halted mode
        (halted platform (stop_http platform (record n { execution_wifi_pause = true })))
  mode_initialized mode (false, n) = (false, n)

  unfoldable pub start_mode : Mode → Net Q → Bool × Net Q
  unfolding initialize_wifi stop_http start_http start_mdns
  start_mode mode n =
      if n.execution_task && not n.execution_wifi_pause
      then (false, n)
      else if is_sta mode && not n.station.configured
      then (false, n)
      else mode_initialized mode (initialize_wifi platform n)

  unfoldable pub start_station : Net Q → Bool × Net Q
  unfolding start_mode
  start_station n = start_mode wifi_sta n

  unfoldable pub start_ap : Net Q → Bool × Net Q
  unfolding start_mode
  start_ap n = start_mode wifi_ap (record n { post_job_station_reconnect = false })

  unfoldable pub start_service : Net Q → Bool × Net Q
  unfolding start_station start_ap
  start_service n = if n.station.configured then start_station n else start_ap n

  -- `esp_wifi_stop` where Wi-Fi is started, and the end of the function.
  abbrev pub service_stopped : Bool × Net Q → Bool × Net Q
  service_stopped (done, n) =
      let (stopped, n') = ask platform.wifi_stop n in
      if n.wifi_started
      then (
        done && stopped,
        record n' { wifi_started = false; active_ip = no_ip; execution_wifi_pause = false },
      )
      else (done, record n { active_ip = no_ip; execution_wifi_pause = false })

  -- `locked` is `typx_wifi_service_job_locked()`.
  unfoldable pub stop_service : Bool → Net Q → Bool × Net Q
  unfolding stop_http
  stop_service true n = (false, n)
  stop_service false n = service_stopped (
      stop_http platform (record n {
        post_job_station_reconnect = false;
        wifi_mode = wifi_stopped;
        execution_wifi_pause = true;
      }))

  abbrev pub station_stored : List ℕ → List ℕ → Bool × Net Q → Bool × Net Q
  station_stored ssid password (true, n) =
      (true, record n { station = (config_set n.station (some ssid) (some password)).0 })
  station_stored ssid password (false, n) = (false, n)

  -- The texts are not NULL.
  unfoldable pub configure_station : Bool → List ℕ → List ℕ → Net Q → Bool × Net Q
  unfolding credentials_valid config_set
  configure_station locked ssid password n =
      if locked || not (credentials_valid (some ssid) (some password))
      then (false, n)
      else station_stored ssid password (ask (platform.store_station ssid password) n)

  abbrev pub station_erased : Bool × Net Q → Bool × Net Q
  station_erased (true, n) =
      let n' = record n { station = config_clear n.station } in
      if is_sta n.wifi_mode then start_ap n' else (true, n')
  station_erased (false, n) = (false, n)

  unfoldable pub forget_station : Bool → Net Q → Bool × Net Q
  unfolding config_clear start_ap
  forget_station true n = (false, n)
  forget_station false n =
      station_erased (ask platform.erase_station (record n { post_job_station_reconnect = false }))

  -- The error and whether to try again, of a branch of the task that recovers a connection.
  abbrev pub reconnect_job : Net Q → Bool × Net Q
  reconnect_job n =
      if n.execution_task && (is_sta n.wifi_mode && (n.wifi_started && not (has_ip n)))
      then (true, (ask platform.wifi_connect n).1)
      else (false, n)

  abbrev pub reconnect_station : Net Q → Bool × Net Q
  reconnect_station n =
      let n' = record n { sta_connect_attempts = 0 } in
      let (done, n'') =
        if is_sta n.wifi_mode && n.wifi_started
        then ask platform.wifi_connect n'
        else start_station n' in
      if n.post_job_station_reconnect
        && (n.station.configured && (not n.execution_wifi_pause && not n.execution_task))
      then (not done, n'')
      else (false, n)

  abbrev pub recover : Net Q → Bool × Net Q
  recover n =
      if n.execution_task && n.station.configured
      then reconnect_job (platform.delay_ms active_job_delay_ms n)
      else if n.post_job_station_reconnect && n.station.configured
      then reconnect_station (platform.delay_ms post_job_delay_ms n)
      else if is_sta n.wifi_mode && not n.execution_wifi_pause
      then (false, (start_mode wifi_ap n).1)
      else (false, n)

  unfoldable pub station_fallback_task : Net Q → Net Q
  unfolding start_mode start_station schedule_station_fallback
  station_fallback_task n =
      let (retry_needed, n1) = recover n in
      let n2 = record n1 { fallback_task_pending = false } in
      if retry_needed && (n2.execution_task || n2.post_job_station_reconnect)
      then schedule_station_fallback platform n2
      else n2

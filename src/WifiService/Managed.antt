-- ===== src/WifiService/Managed.antt =====
-- That every call of the network's service keeps it sound.
use typxen.Base.{ℕ, ◌≡◌, ◌≢◌, refl, Bool, true, false, not, ◌&&◌, ◌||◌, List, arith, if◌then◌else◌}
use typxen.Station.{credentials_valid, config_set, config_clear}
use typxen.WifiService.Network.{
  Mode, wifi_stopped, wifi_ap, wifi_sta, is_sta, Net, NetPlatform, no_ip, WifiEvent, ask, stop_mdns,
  stop_http, http_restart_task, schedule_station_fallback, wifi_event_handler, initialize_wifi,
  halted, has_ip, active_job_delay_ms, post_job_delay_ms,
}
use typxen.WifiService.Modes.{
  start_mode, mode_initialized, mode_halted, wifi_configured, wifi_begun, with_service,
  start_station, start_ap, start_service, stop_service, configure_station, forget_station,
  station_erased, station_fallback_task, recover, reconnect_job, reconnect_station,
}
use typxen.WifiService.Sound.{
  IsRunning, start_mdns-IsRunning, start_http-IsRunning, stop_http-IsRunning, schedule-IsRunning,
  initialize_wifi-IsRunning, test-IsRunning, http_restart_task-IsRunning,
  wifi_event_handler-IsRunning,
}

module _ {Q : Type 0} (platform : NetPlatform Q) where
  -- A state with nothing running, which a mode may be started in.
  record IsQuiet (paused : Bool) (n : Net Q) : Type 0 where
    running : IsRunning paused n
    unserved : n.http ≡ false
    unannounced : n.mdns_started ≡ false
    unstarted : n.wifi_started ≡ false

  halted-IsQuiet :
      (m : Bool × Net Q)
      → IsRunning true m.1
      → m.1.http ≡ false
      → m.1.mdns_started ≡ false
      → IsQuiet true (halted platform m).1
  halted-IsQuiet m h s a = ground arith

  with_service-IsRunning :
      (mode : Mode) (m : Bool × Net Q)
      → IsRunning false m.1
      → IsRunning false (with_service platform mode m).1
  with_service-IsRunning mode (true, n) h =
      test-IsRunning platform false _ _ _ (λ t. start_mdns-IsRunning platform false n h) h
  with_service-IsRunning mode (false, n) h = h

  wifi_begun-IsRunning :
      (mode : Mode) (m : Bool × Net Q)
      → mode ≢ wifi_stopped
      → IsQuiet false m.1
      → m.1.wifi_mode ≡ mode
      → IsRunning false (wifi_begun platform mode m).1
  wifi_begun-IsRunning mode (true, n) real h e = with_service-IsRunning mode _ (
      start_http-IsRunning platform false _
        (ground (arith, real, h.running, h.unserved, h.unannounced, e)) refl)
  wifi_begun-IsRunning mode (false, n) real h e =
      ground (arith, h.running, h.unserved, h.unannounced, h.unstarted)

  wifi_configured-IsRunning :
      (mode : Mode) (m : Bool × Net Q)
      → mode ≢ wifi_stopped
      → IsQuiet true m.1
      → IsRunning false (wifi_configured platform mode m).1
  wifi_configured-IsRunning mode (true, n) real h =
      wifi_begun-IsRunning mode
        (ask platform.wifi_start
          (record n { wifi_mode = mode; sta_connect_attempts = 0; execution_wifi_pause = false }))
        real (ground (arith, h.running, h.unserved, h.unannounced, h.unstarted)) refl
  wifi_configured-IsRunning mode (false, n) real h =
      ground (arith, h.running, h.unserved, h.unannounced, h.unstarted)

  mode_halted-IsRunning :
      (mode : Mode) (m : Bool × Net Q)
      → mode ≢ wifi_stopped
      → IsQuiet true m.1
      → IsRunning false (mode_halted platform mode m).1
  mode_halted-IsRunning mode (true, n) real h =
      wifi_configured-IsRunning mode
        (ask (platform.configure mode) (record n { active_ip = no_ip })) real
        (ground (arith, h.running, h.unserved, h.unannounced, h.unstarted))
  mode_halted-IsRunning mode (false, n) real h =
      ground (arith, h.running, h.unserved, h.unannounced, h.unstarted)

  mode_initialized-IsRunning :
      (mode : Mode) (m : Bool × Net Q)
      → mode ≢ wifi_stopped
      → IsRunning false m.1
      → IsRunning false (mode_initialized platform mode m).1
  mode_initialized-IsRunning mode (true, n) real h =
      let paused = record n { execution_wifi_pause = true } in
      let begun : IsRunning true paused = ground (arith, h) in
      let (running, unserved, unannounced) = stop_http-IsRunning platform true paused begun in
      mode_halted-IsRunning mode (halted platform (stop_http platform paused)) real
        (halted-IsQuiet (stop_http platform paused) running unserved unannounced)
  mode_initialized-IsRunning mode (false, n) real h = h

  pair-IsRunning :
      (b : Bool) (m m' : Bool × Net Q)
      → IsRunning false m.1
      → IsRunning false m'.1
      → IsRunning false (if b then m else m').1
  pair-IsRunning true m m' h h' = h
  pair-IsRunning false m m' h h' = h'

  start_mode-IsRunning :
      (mode : Mode) (n : Net Q)
      → mode ≢ wifi_stopped
      → IsRunning false n
      → IsRunning false (start_mode platform mode n).1
  unfolding start_mode
  start_mode-IsRunning mode n real h =
      let m = mode_initialized platform mode (initialize_wifi platform n) in
      let unset = is_sta mode && not n.station.configured in
      pair-IsRunning (n.execution_task && not n.execution_wifi_pause) (false, n)
        (if unset then (false, n) else m) h
        (pair-IsRunning unset (false, n) m h
          (mode_initialized-IsRunning mode (initialize_wifi platform n) real
            (initialize_wifi-IsRunning platform false n h)))

  start_ap-IsRunning : (n : Net Q) → IsRunning false n → IsRunning false (start_ap platform n).1
  unfolding start_ap
  start_ap-IsRunning n h =
      start_mode-IsRunning wifi_ap (record n { post_job_station_reconnect = false }) (λ e. cc)
        (ground (arith, h))

  start_station-IsRunning :
      (n : Net Q) → IsRunning false n → IsRunning false (start_station platform n).1
  unfolding start_station
  start_station-IsRunning n h = start_mode-IsRunning wifi_sta n (λ e. cc) h

  start_service-IsRunning :
      (n : Net Q) → IsRunning false n → IsRunning false (start_service platform n).1
  unfolding start_service
  start_service-IsRunning n h =
      pair-IsRunning n.station.configured _ _ (start_station-IsRunning n h) (start_ap-IsRunning n h)

  -- While the service is stopped the mode is gone before what is started is.
  stop_service-IsRunning :
      (locked : Bool) (n : Net Q)
      → IsRunning false n
      → IsRunning false (stop_service platform locked n).1
  unfolding stop_service stop_http stop_mdns
  stop_service-IsRunning true n h = h
  stop_service-IsRunning false n h = ground (arith, h)

  configure_station-IsRunning :
      (locked : Bool) (ssid password : List ℕ) (n : Net Q)
      → IsRunning false n
      → IsRunning false (configure_station platform locked ssid password n).1
  unfolding configure_station credentials_valid config_set
  configure_station-IsRunning locked ssid password n h = ground (arith, h)

  forget_station-IsRunning :
      (locked : Bool) (n : Net Q)
      → IsRunning false n
      → IsRunning false (forget_station platform locked n).1
  unfolding forget_station config_clear
  forget_station-IsRunning true n h = h
  forget_station-IsRunning false n h =
      erased (ask platform.erase_station (record n { post_job_station_reconnect = false }))
        (ground (arith, h))
    where
      erased :
          (m : Bool × Net Q) → IsRunning false m.1 → IsRunning false (station_erased platform m).1
      erased (true, n') h' =
          let cleared = record n' { station = config_clear n'.station } in
          let kept : IsRunning false cleared = ground (arith, h') in
          pair-IsRunning (is_sta n'.wifi_mode) (start_ap platform cleared) (true, cleared)
            (start_ap-IsRunning cleared kept) kept
      erased (false, n') h' = h'

  reconnect_job-IsRunning :
      (n : Net Q) → IsRunning false n → IsRunning false (reconnect_job platform n).1
  reconnect_job-IsRunning n h =
      let connecting = (ask platform.wifi_connect n).1 in
      let kept : IsRunning false connecting = ground (arith, h) in
      pair-IsRunning
        (n.execution_task && (is_sta n.wifi_mode && (n.wifi_started && not (has_ip n))))
        (true, connecting) (false, n) kept h

  reconnect_station-IsRunning :
      (n : Net Q) → IsRunning false n → IsRunning false (reconnect_station platform n).1
  reconnect_station-IsRunning n h =
      let counted = record n { sta_connect_attempts = 0 } in
      let next =
        if is_sta n.wifi_mode && n.wifi_started
        then ask platform.wifi_connect counted
        else start_station platform counted in
      let asks =
        n.post_job_station_reconnect
        && (n.station.configured && (not n.execution_wifi_pause && not n.execution_task)) in
      let again : IsRunning false counted = ground (arith, h) in
      let asked : IsRunning false (ask platform.wifi_connect counted).1 = ground (arith, h) in
      pair-IsRunning asks (not next.0, next.1) (false, n)
        (pair-IsRunning (is_sta n.wifi_mode && n.wifi_started) (ask platform.wifi_connect counted)
          (start_station platform counted) asked (start_station-IsRunning counted again))
        h

  module _
      (waits : (ms : ℕ) (n : Net Q)
        → IsRunning false n
        → IsRunning false (platform.delay_ms ms n)) where
    recover-IsRunning : (n : Net Q) → IsRunning false n → IsRunning false (recover platform n).1
    recover-IsRunning n h =
        let started = start_mode-IsRunning wifi_ap n (λ e. cc) h in
        let idle =
          pair-IsRunning (is_sta n.wifi_mode && not n.execution_wifi_pause)
            (false, (start_mode platform wifi_ap n).1) (false, n) started h in
        let later =
          pair-IsRunning (n.post_job_station_reconnect && n.station.configured)
            (reconnect_station platform (platform.delay_ms post_job_delay_ms n))
            (if is_sta n.wifi_mode && not n.execution_wifi_pause
              then (false, (start_mode platform wifi_ap n).1)
              else (false, n))
            (reconnect_station-IsRunning _ (waits post_job_delay_ms n h)) idle in
        pair-IsRunning (n.execution_task && n.station.configured)
          (reconnect_job platform (platform.delay_ms active_job_delay_ms n))
          (if n.post_job_station_reconnect && n.station.configured
            then reconnect_station platform (platform.delay_ms post_job_delay_ms n)
            else if is_sta n.wifi_mode && not n.execution_wifi_pause
            then (false, (start_mode platform wifi_ap n).1)
            else (false, n))
          (reconnect_job-IsRunning _ (waits active_job_delay_ms n h)) later

    recovered-IsRunning :
        (retry_needed : Bool) (n : Net Q)
        → IsRunning false n
        → let n' = record n { fallback_task_pending = false } in
          IsRunning false (
            if retry_needed && (n'.execution_task || n'.post_job_station_reconnect)
            then schedule_station_fallback platform n'
            else n')
    recovered-IsRunning retry_needed n h =
        let n' = record n { fallback_task_pending = false } in
        let kept : IsRunning false n' = ground (arith, h) in
        test-IsRunning platform false _ (schedule_station_fallback platform n') n'
          (λ t. (schedule-IsRunning platform false n' kept).0) kept

    station_fallback_task-IsRunning :
        (n : Net Q) → IsRunning false n → IsRunning false (station_fallback_task platform n)
    unfolding station_fallback_task
    station_fallback_task-IsRunning n h =
        recovered-IsRunning (recover platform n).0 (recover platform n).1 (recover-IsRunning n h)

-- A call of the network's service, by the stack, a task or a command.
pub data NetCall : Type 0 where
  event : WifiEvent → NetCall
  restart fallback service station access_point : NetCall
  stop forget : Bool → NetCall
  configure_with : Bool → List ℕ → List ℕ → NetCall

module _ {Q : Type 0} (platform : NetPlatform Q) where
  unfoldable pub manage : NetCall → Net Q → Net Q
  unfolding wifi_event_handler http_restart_task station_fallback_task start_service start_station
      start_ap stop_service forget_station configure_station
  manage (event e) n = wifi_event_handler platform e n
  manage restart n = http_restart_task platform n
  manage fallback n = station_fallback_task platform n
  manage service n = (start_service platform n).1
  manage station n = (start_station platform n).1
  manage access_point n = (start_ap platform n).1
  manage (stop locked) n = (stop_service platform locked n).1
  manage (forget locked) n = (forget_station platform locked n).1
  manage (configure_with locked ssid password) n =
      (configure_station platform locked ssid password n).1

  -- If the tasks that run while one waits keep the network running, every call does, whatever the
  -- platform answers: mDNS tells only of an HTTP server, the server runs only over a Wi-Fi that is
  -- started in a mode, the attempts to connect stay within their bound, the credentials are sound,
  -- the events are not held off, and no reconnection after a job is asked for.
  pub manage-IsRunning :
      ((ms : ℕ) (n : Net Q) → IsRunning false n → IsRunning false (platform.delay_ms ms n))
      → (c : NetCall) (n : Net Q) → IsRunning false n
      → IsRunning false (manage c n)
  unfolding manage
  manage-IsRunning waits (event e) n h = wifi_event_handler-IsRunning platform false e n h
  manage-IsRunning waits restart n h = http_restart_task-IsRunning platform false n h
  manage-IsRunning waits fallback n h = station_fallback_task-IsRunning platform waits n h
  manage-IsRunning waits service n h = start_service-IsRunning platform n h
  manage-IsRunning waits station n h = start_station-IsRunning platform n h
  manage-IsRunning waits access_point n h = start_ap-IsRunning platform n h
  manage-IsRunning waits (stop locked) n h = stop_service-IsRunning platform locked n h
  manage-IsRunning waits (forget locked) n h = forget_station-IsRunning platform locked n h
  manage-IsRunning waits (configure_with locked ssid password) n h =
      configure_station-IsRunning platform locked ssid password n h

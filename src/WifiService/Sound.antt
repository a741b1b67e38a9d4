-- ===== src/WifiService/Sound.antt =====
-- What holds of the network between the calls of its tasks.
use typxen.Base.{◌≤◌, ◌≡◌, ◌≢◌, refl, Bool, true, false, ◌&&◌, arith, if◌then◌else◌}
use typxen.Discovery.{should_start}
use typxen.Station.{IsSound, retry_action}
use typxen.WifiService.Network.{
  wifi_stopped, is_sta, Net, NetPlatform, WifiEvent, stop_mdns, start_mdns, start_http, stop_http,
  with_mdns, http_restart_task, schedule_http_restart, schedule_station_fallback,
  wifi_event_handler, initialize_wifi, sta_connect_retries, has_ip,
}

-- mDNS tells only of an HTTP server, which runs only over a Wi-Fi that is started, which has a mode;
-- the attempts to connect are counted to their bound, the credentials are sound, and no reconnection
-- after a job is asked for. `paused` is the flag that holds off the events.
pub record IsRunning {Q : Type 0} (paused : Bool) (n : Net Q) : Type 0 where
  pub announces : n.mdns_started ≡ true → n.http ≡ true
  pub serves : n.http ≡ true → n.wifi_started ≡ true
  pub has_mode : n.wifi_started ≡ true → n.wifi_mode ≢ wifi_stopped
  pub counted : n.sta_connect_attempts ≤ sta_connect_retries
  pub sound : IsSound n.station
  pub unasked : n.post_job_station_reconnect ≡ false
  pub held : n.execution_wifi_pause ≡ paused

module _ {Q : Type 0} (platform : NetPlatform Q) (paused : Bool) where
  pub stop_mdns-IsRunning :
      (n : Net Q) → IsRunning paused n → IsRunning paused (stop_mdns platform n)
  unfolding stop_mdns
  stop_mdns-IsRunning n h = ground arith

  pub start_mdns-IsRunning :
      (n : Net Q) → IsRunning paused n → IsRunning paused (start_mdns platform n)
  unfolding start_mdns should_start
  start_mdns-IsRunning n h = ground arith

  pub start_http-IsRunning :
      (n : Net Q)
      → IsRunning paused n
      → n.wifi_started ≡ true
      → IsRunning paused (start_http platform n).1
  unfolding start_http
  start_http-IsRunning n h s = ground arith

  -- Behind it there is neither a server nor mDNS.
  pub stop_http-IsRunning :
      (n : Net Q)
      → IsRunning paused n
      → let n' = (stop_http platform n).1 in
        IsRunning paused n' × (n'.http ≡ false) × (n'.mdns_started ≡ false)
  unfolding stop_http stop_mdns
  stop_http-IsRunning n h = ground arith

  pub schedule-IsRunning :
      (n : Net Q)
      → IsRunning paused n
      → IsRunning paused (schedule_station_fallback platform n)
        × IsRunning paused (schedule_http_restart platform n)
  unfolding schedule_station_fallback schedule_http_restart
  schedule-IsRunning n h = ground arith

  pub initialize_wifi-IsRunning :
      (n : Net Q) → IsRunning paused n → IsRunning paused (initialize_wifi platform n).1
  unfolding initialize_wifi
  initialize_wifi-IsRunning n h = ground arith

  pub with_mdns-IsRunning :
      (m : Bool × Net Q) → IsRunning paused m.1 → IsRunning paused (with_mdns platform m)
  with_mdns-IsRunning (true, n) h = start_mdns-IsRunning n h
  with_mdns-IsRunning (false, n) h = h

  -- The branches of a test, of which the first may use that it holds.
  pub test-IsRunning :
      (b : Bool) (n n' : Net Q)
      → (b ≡ true → IsRunning paused n)
      → IsRunning paused n'
      → IsRunning paused (if b then n else n')
  test-IsRunning true n n' h h' = h refl
  test-IsRunning false n n' h h' = h'

  pub restarted-IsRunning :
      (n : Net Q)
      → IsRunning paused n
      → IsRunning paused (record n { http_restart_task_pending = false })
  restarted-IsRunning n h = ground arith

  pub http_restart_task-IsRunning :
      (n : Net Q) → IsRunning paused n → IsRunning paused (http_restart_task platform n)
  unfolding http_restart_task
  http_restart_task-IsRunning n h =
      let n1 = (stop_http platform n).1 in
      let (h1, _, _) = stop_http-IsRunning n h in
      restarted-IsRunning _ (
        test-IsRunning (is_sta n1.wifi_mode && (n1.wifi_started && has_ip n1))
          (with_mdns platform (start_http platform n1)) n1
          (λ t.
            with_mdns-IsRunning (start_http platform n1)
              (start_http-IsRunning n1 h1 (ground (arith, t))))
          h1)

  pub wifi_event_handler-IsRunning :
      (e : WifiEvent) (n : Net Q)
      → IsRunning paused n
      → IsRunning paused (wifi_event_handler platform e n)
  unfolding wifi_event_handler schedule_station_fallback schedule_http_restart retry_action
  wifi_event_handler-IsRunning e n h = ground arith

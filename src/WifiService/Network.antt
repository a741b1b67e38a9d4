-- ===== src/WifiService/Network.antt =====
-- The modes of Wi-Fi, the HTTP server and mDNS with them. The state of the job is apart, but for
-- `execution_task`, which says whether its task is there.
use typxen.Base.{ℕ, ◌+◌, Bool, true, false, not, ◌&&◌, ◌||◌, Option, List, if◌then◌else◌}
use typxen.Base.Text.{codes, same_text}
use typxen.Station.{StationConfig, RetryAction, retry_now, retry_action}
use typxen.Discovery.{should_start}

abbrev pub sta_connect_retries : ℕ
sta_connect_retries = 5

abbrev pub active_job_delay_ms : ℕ
active_job_delay_ms = 2000

abbrev pub post_job_delay_ms : ℕ
post_job_delay_ms = 10000

pub data Mode : Type 0 where
  wifi_stopped wifi_ap wifi_sta : Mode

abbrev pub is_sta : Mode → Bool
is_sta wifi_sta = true
is_sta _ = false

-- `http` says whether `s_http` is not NULL; `rest` is the state of the platform.
pub record Net (Q : Type 0) : Type 0 where
  pub http : Bool
  pub wifi_initialized : Bool
  pub wifi_started : Bool
  pub execution_wifi_pause : Bool
  pub fallback_task_pending : Bool
  pub http_restart_task_pending : Bool
  pub mdns_started : Bool
  pub post_job_station_reconnect : Bool
  pub execution_task : Bool
  pub sta_connect_attempts : ℕ
  pub wifi_mode : Mode
  pub station : StationConfig
  pub active_ip : List ℕ
  pub rest : Q

-- The calls of ESP-IDF, and whether they give ESP_OK. `announce` is the calls of mDNS in a row up to
-- the first that fails, `initialize` those of `initialize_wifi`, `configure` those that set a mode.
-- `delay_ms` runs the other tasks.
pub record NetPlatform (Q : Type 0) : Type 0 where
  pub announce : Q → Bool × Q
  pub mdns_free : Q → Q
  pub httpd_start : Q → Bool × Q
  pub register_uris : Q → Bool × Q
  pub httpd_stop : Q → Bool × Q
  pub initialize : Q → Bool × Q
  pub configure : Mode → Q → Bool × Q
  pub wifi_start : Q → Bool × Q
  pub wifi_stop : Q → Bool × Q
  pub wifi_connect : Q → Bool × Q
  pub access_point_ip : Q → Option (List ℕ)
  pub create_restart_task : Q → Bool × Q
  pub create_fallback_task : Q → Bool × Q
  pub store_station : List ℕ → List ℕ → Q → Bool × Q
  pub erase_station : Q → Bool × Q
  pub delay_ms : ℕ → Net Q → Net Q

-- `0.0.0.0`
abbrev pub no_ip : List ℕ
no_ip = codes "0.0.0.0"

abbrev pub has_ip : {Q : Type 0} → Net Q → Bool
has_ip n = not (same_text n.active_ip no_ip)

-- A call of the platform on the state.
abbrev pub ask : {Q : Type 0} → (Q → Bool × Q) → Net Q → Bool × Net Q
ask f n = let (done, q) = f n.rest in (done, record n { rest = q })

pub data WifiEvent : Type 0 where
  sta_start sta_disconnected : WifiEvent
  sta_got_ip : List ℕ → WifiEvent

module _ {Q : Type 0} (platform : NetPlatform Q) where
  unfoldable pub stop_mdns : Net Q → Net Q
  stop_mdns n =
      if not n.mdns_started
      then n
      else record n { mdns_started = false; rest = platform.mdns_free n.rest }

  abbrev pub announced : Bool × Net Q → Net Q
  announced (true, n) = record n { mdns_started = true }
  announced (false, n) = record n { rest = platform.mdns_free n.rest }

  unfoldable pub start_mdns : Net Q → Net Q
  unfolding should_start
  start_mdns n =
      if n.mdns_started
        || (not n.wifi_started || not (should_start n.http (is_sta n.wifi_mode) (has_ip n)))
      then n
      else announced (ask platform.announce n)

  abbrev pub registered : Bool × Net Q → Bool × Net Q
  registered (true, n) = (true, record n { http = true })
  registered (false, n) = (false, record (ask platform.httpd_stop n).1 { http = false })

  abbrev pub server_started : Bool × Net Q → Bool × Net Q
  server_started (true, n) = registered (ask platform.register_uris n)
  server_started (false, n) = (false, n)

  unfoldable pub start_http : Net Q → Bool × Net Q
  start_http n = if n.http then (true, n) else server_started (ask platform.httpd_start n)

  unfoldable pub stop_http : Net Q → Bool × Net Q
  unfolding stop_mdns
  stop_http n =
      let n' = stop_mdns n in
      if not n'.http then (true, n') else ask platform.httpd_stop (record n' { http = false })

  abbrev pub with_mdns : Bool × Net Q → Net Q
  with_mdns (true, n) = start_mdns n
  with_mdns (false, n) = n

  unfoldable pub http_restart_task : Net Q → Net Q
  unfolding stop_http start_http start_mdns same_text
  http_restart_task n =
      let n1 = (stop_http n).1 in
      let n2 =
        if is_sta n1.wifi_mode && (n1.wifi_started && has_ip n1)
        then with_mdns (start_http n1)
        else n1 in
      record n2 { http_restart_task_pending = false }

  unfoldable pub schedule_http_restart : Net Q → Net Q
  schedule_http_restart n =
      if n.http_restart_task_pending
      then n
      else let (created, n') = ask platform.create_restart_task n in
        record n' { http_restart_task_pending = created }

  unfoldable pub schedule_station_fallback : Net Q → Net Q
  schedule_station_fallback n =
      if n.fallback_task_pending
      then n
      else let (created, n') = ask platform.create_fallback_task n in
        record n' { fallback_task_pending = created }

  abbrev pub retried : RetryAction → Net Q → Net Q
  retried retry_now n =
      (ask platform.wifi_connect (record n { sta_connect_attempts = n.sta_connect_attempts + 1 })).1
  retried _ n = schedule_station_fallback n

  unfoldable pub wifi_event_handler : WifiEvent → Net Q → Net Q
  unfolding schedule_station_fallback schedule_http_restart retry_action
  wifi_event_handler sta_start n =
      if is_sta n.wifi_mode && not n.execution_wifi_pause
      then (ask platform.wifi_connect (record n { sta_connect_attempts = 0 })).1
      else n
  wifi_event_handler sta_disconnected n =
      if is_sta n.wifi_mode && not n.execution_wifi_pause
      then retried
          (retry_action n.post_job_station_reconnect n.sta_connect_attempts sta_connect_retries)
          (record n { active_ip = no_ip })
      else n
  wifi_event_handler (sta_got_ip ip) n =
      if is_sta n.wifi_mode
      then schedule_http_restart (record n {
        active_ip = ip;
        sta_connect_attempts = 0;
        post_job_station_reconnect = false;
      })
      else n

  unfoldable pub initialize_wifi : Net Q → Bool × Net Q
  initialize_wifi n =
      if n.wifi_initialized
      then (true, n)
      else let (done, n') = ask platform.initialize n in
        (done, record n' { wifi_initialized = done })

  -- `esp_wifi_stop` where Wi-Fi is started; the first error stays.
  abbrev pub halted : Bool × Net Q → Bool × Net Q
  halted (done, n) =
      let (stopped, n') = ask platform.wifi_stop (record n { wifi_mode = wifi_stopped }) in
      if n.wifi_started then (done && stopped, record n' { wifi_started = false }) else (done, n)

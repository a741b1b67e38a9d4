-- ===== src/BleHid/Defs.antt =====
-- The state of the service, its reports, its waits and the callbacks for the executor.
use typxen.Base.{
  ℕ, zero, suc, ◌+◌, ◌-◌, ◌*◌, ◌/◌, ◌%◌, ◌^◌, Bool, true, false, not, ◌&&◌, ◌||◌, Option, none,
  some, List, ◌∷◌, if◌then◌else◌, ◌==◌, ltb, replicate,
}
use typxen.Safety.Defs.{Safety}
use typxen.HidRuntime.Defs.{Runtime, Shared, RuntimeIo, is_ok, shared, resume, release_max_attempts}
use typxen.HidRuntime.Keys.{key_down, release_all}
use typxen.Executor.Defs.{ExecutorIo}

-- The callbacks of an observer; each may be missing.
pub record Observer (P : Type 0) : Type 0 where
  pub countdown_complete : Option (P → P)
  pub progress : Option (ℕ → ℕ → ℕ → P → P)

-- A call of `esp_hidd_dev_input_set`: the report's identifier, its bytes, and whether it gave ESP_OK.
pub data Sent : Type 0 where
  input : ℕ → List ℕ → Bool → Sent

-- The static variables but `s_runtime`, the state of the platform, and the reports that were given
-- to the stack, newest first.
pub record Service (P : Type 0) : Type 0 where
  pub hid_device : Bool
  pub adv_data_ready : Bool
  pub scan_response_ready : Bool
  pub hid_ready : Bool
  pub authenticated : Bool
  pub execution_observer : Option (Observer P)
  pub execution_safety : Safety P
  pub safety_task_generation : ℕ
  pub sent : List Sent
  pub platform : P

-- The service with the flags of `s_runtime`.
abbrev pub Ble : Type 0 → Type 0
Ble P = Runtime (Service P)

-- What the code calls outside of the repository's components. `delay` is a call of `vTaskDelay` or
-- `xTaskDelayUntil`, in ticks; `ms_to_ticks` is `pdMS_TO_TICKS`.
pub record Platform (P : Type 0) : Type 0 where
  pub ms_to_ticks : ℕ → ℕ
  pub input_set : ℕ → List ℕ → P → Bool × P
  pub record_successful_report : Bool → P → P
  pub end_activity : P → P
  pub delay : ℕ → Shared (Service P) → Shared (Service P)
  pub now_us : P → ℕ × P
  pub start_advertising : P → P
  pub stop_advertising : P → P
  pub create_safety_task : ℕ → P → Bool × P
  pub bind_hid : P → P

-- `CONFIG_FREERTOS_HZ` of targets/esp32_cam/sdkconfig.defaults.
abbrev pub tick_rate_hz : ℕ
tick_rate_hz = 1000

abbrev pub consumer_release : List ℕ
consumer_release = replicate 2 0

module _ {P : Type 0} (platform : Platform P) where
  open platform use {ms_to_ticks, input_set, record_successful_report, delay}

  -- A report with its identifier, and what is done once it is sent.
  abbrev give : ℕ → List ℕ → (P → P) → Shared (Service P) → Bool × Shared (Service P)
  give report_id report done s =
      let (sent_ok, p) = input_set report_id report s.context.platform in
      (
        sent_ok,
        record s {
          context = record s.context {
            sent = input report_id report sent_ok ∷ s.context.sent;
            platform = if sent_ok then done p else p;
          };
        },
      )

  unfoldable pub send_report : List ℕ → Shared (Service P) → Bool × Shared (Service P)
  send_report report s =
      if not s.context.hid_device || not s.connected
      then (false, s)
      else give 1 report (record_successful_report s.running) s

  unfoldable pub send_consumer_report : List ℕ → Shared (Service P) → Bool × Shared (Service P)
  send_consumer_report report s =
      if not s.context.hid_device || not s.connected then (false, s) else give 2 report (λ p. p) s

  -- The loop with the ticks that are left, behind its fuel.
  unfoldable pub wait_loop : ℕ → ℕ → Shared (Service P) → Bool × Shared (Service P)
  wait_loop zero total_ticks s = (not s.stop_requested && s.connected, s)
  wait_loop (suc fuel) total_ticks s =
      let slice = if ltb (ms_to_ticks 10) total_ticks then ms_to_ticks 10 else total_ticks in
      let rest = wait_loop fuel (total_ticks - slice) (delay slice s) in
      if total_ticks == 0
      then (not s.stop_requested && s.connected, s)
      else if s.stop_requested || not s.connected
      then (false, s)
      else rest

  -- A round for each tick: at 1000 Hz, 10 ms are 10 ticks, so each round takes at least one.
  unfoldable pub scheduler_wait_ticks : ℕ → Shared (Service P) → Bool × Shared (Service P)
  unfolding wait_loop
  scheduler_wait_ticks total_ticks s = wait_loop total_ticks total_ticks s

  -- At least one tick.
  abbrev pub some_ticks : ℕ → ℕ
  some_ticks ticks = if ticks == 0 then 1 else ticks

  unfoldable pub wait_ms : ℕ → Shared (Service P) → Bool × Shared (Service P)
  unfolding scheduler_wait_ticks
  wait_ms delay_ms s =
      if delay_ms == 0
      then (true, s)
      else scheduler_wait_ticks (some_ticks (ms_to_ticks delay_ms)) s

  -- The callbacks that `typx_ble_hid_init` gives the runtime.
  abbrev pub runtime_io : RuntimeIo (Service P)
  runtime_io = record {
    send_report = some send_report;
    wait_ms = some wait_ms;
    countdown = some (λ seconds_left s. s);
  }

  -- The attempts that are left.
  unfoldable pub consumer_loop : ℕ → Ble P → Bool × Ble P
  unfolding send_consumer_report
  consumer_loop zero r = (false, r)
  consumer_loop (suc n) r =
      let (released, s) = send_consumer_report consumer_release (shared r) in
      elim released [ true ↦ (true, resume s r.log) | false ↦ consumer_loop n (resume s r.log) ]

  unfoldable pub release_all_reports : Ble P → Bool × Ble P
  unfolding consumer_loop send_report wait_ms
  release_all_reports r =
      let (e, r') = release_all runtime_io r in
      if not (is_ok e) then (false, r') else consumer_loop release_max_attempts r'

  unfoldable pub executor_now_us : Ble P → ℕ × Ble P
  executor_now_us r =
      let (t, p) = platform.now_us r.context.platform in
      (t, record r { context = record r.context { platform = p } })

  unfoldable pub executor_wait_us : ℕ → Ble P → Bool × Ble P
  unfolding scheduler_wait_ticks
  executor_wait_us delay_us r =
      let ticks = (delay_us * tick_rate_hz + 999999) / 1000000 % 2 ^ 32 in
      let (done, s) = scheduler_wait_ticks (some_ticks ticks) (shared r) in
      if delay_us == 0 then (true, r) else (done, resume s r.log)

  unfoldable pub executor_key_down : ℕ → ℕ → Ble P → Bool × Ble P
  unfolding send_report wait_ms
  executor_key_down modifier keycode r =
      let (e, r') = key_down runtime_io modifier keycode r in (is_ok e, r')

  unfoldable pub executor_stop_requested : Ble P → Bool
  executor_stop_requested r = r.stop_requested || not r.connected

  -- What the observer does on progress.
  abbrev observe : Option (Observer P) → ℕ → ℕ → ℕ → P → P
  observe none source_index completed_records total_records p = p
  observe (some o) source_index completed_records total_records p = elim o.progress [
    | none ↦ p
    | some f ↦ f source_index completed_records total_records p
  ]

  unfoldable pub executor_progress : ℕ → ℕ → ℕ → Ble P → Ble P
  executor_progress source_index completed_records total_records r = record r {
    context = record r.context {
      platform =
          observe r.context.execution_observer source_index completed_records total_records
            r.context.platform;
    };
  }

  unfoldable pub executor_io : ExecutorIo (Ble P)
  unfolding executor_now_us executor_wait_us executor_key_down release_all_reports
      executor_stop_requested executor_progress
  executor_io = record {
    now_us = executor_now_us;
    wait_us = executor_wait_us;
    key_down = executor_key_down;
    release_all = release_all_reports;
    stop_requested = λ r. (executor_stop_requested r, r);
    progress = executor_progress;
    terminal = λ status error protocol_error r. r;
  }

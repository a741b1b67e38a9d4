-- ===== src/BleHid/Tests.antt =====
-- A keyboard whose stack sends every report, and one that loses the first consumer report.
use typxen.Base.{ℕ, ◌+◌, ◌≡◌, ◌≢◌, ◌⊎◌, inl, refl, true, false, none, some, [], ◌==◌, if◌then◌else◌}
use typxen.Protocol.Types.{VerifiedSchedule}
use typxen.Protocol.Verify.{is_verified}
use typxen.Executor.Defs.{ok}
use typxen.Protocol.Types.{esp32_cam_limits}
use typxen.Protocol.Verify.{verify}
use typxen.Protocol.Reading.{IsExecutable, verify-IsExecutable}
use typxen.Protocol.Sample.{image_reader, fixed_sha256, image_reader-GivesBytes, image-accepted}
use typxen.Safety.Defs.{
  Marker, waiting_for_report_path, report_path_pending, init, cleared, begin_release,
  complete_release, snapshot, connected, authenticated,
}
use typxen.Safety.Invariant.{init-IsValid}
use typxen.HidRuntime.Defs.{set_connected}
use typxen.BleHid.Defs.{send_report, send_consumer_report, Ble, Platform}
use typxen.BleHid.Run.{run_schedule_countdown_observed}
use typxen.BleHid.Stopping.{run_schedule-forgets}
use typxen.BleHid.Ended.{Ends, run_schedule-Ends}
use typxen.BleHid.Release.{
  safety_of, safety_release_task, attempt, release_task_loop, schedule_safety_release,
}
use typxen.BleHid.Confirmed.{Finishes, Unscheduled, safety_release_task-Finishes}
use typxen.BleHid.Events.{gap_callback, hid_callback, auth_cmpl, connect}
use typxen.BleHid.Linked.{IsLinked, serve, hidd, serve-IsLinked}

-- The state counts the reports, and the marker is not stored.
abbrev volatile_marker : Marker ℕ
volatile_marker = record {
  read_active = some (λ p. (some false, p));
  write_active = some (λ active p. (true, p));
}

-- The report of the given number is lost.
abbrev losing : ℕ → Platform ℕ
losing lost = record {
  ms_to_ticks = λ ms. ms;
  input_set = λ report_id report p. (if p == lost then false else true, p + 1);
  record_successful_report = λ running p. p;
  end_activity = λ p. p;
  delay = λ ticks s. s;
  now_us = λ p. (p, p);
  start_advertising = λ p. p;
  stop_advertising = λ p. p;
  create_safety_task = λ generation p. (true, p);
  bind_hid = λ p. p;
}

abbrev powered_on : Ble ℕ
powered_on = record {
  connected = false;
  running = false;
  stop_requested = false;
  context = record {
    hid_device = true;
    adv_data_ready = false;
    scan_response_ready = false;
    hid_ready = false;
    authenticated = false;
    execution_observer = none;
    execution_safety = cleared volatile_marker;
    safety_task_generation = 0;
    sent = [];
    platform = 0;
  };
  log = [];
}

-- A host has connected, and is authenticated.
abbrev online : Ble ℕ
online = record powered_on {
  connected = true;
  context = record powered_on.context {
    authenticated = true;
    execution_safety = record (cleared volatile_marker) {
      is_connected = true;
      is_authenticated = true;
      hid_state = waiting_for_report_path;
      hid_error = report_path_pending;
      connection_generation = 1;
    };
    safety_task_generation = 1;
  };
}

online_after :
    gap_callback (losing 1) (auth_cmpl true) (hid_callback (losing 1) connect powered_on) ≡ online
unfolding gap_callback hid_callback connected authenticated schedule_safety_release set_connected
online_after = refl

abbrev schedule : VerifiedSchedule
schedule = (verify image_reader esp32_cam_limits (fixed_sha256 7) 0).1

schedule-IsExecutable : IsExecutable schedule
schedule-IsExecutable =
    verify-IsExecutable image_reader esp32_cam_limits (fixed_sha256 7) 0 image_reader-GivesBytes
      image-accepted

powered_on-IsLinked : IsLinked powered_on
unfolding init
powered_on-IsLinked = record {
  valid =
      init-IsValid (cleared volatile_marker) volatile_marker 0 (λ p. (some false, p))
        (λ active p. (true, p)) refl refl;
  agrees = refl;
}

serve-IsLinked_example : IsLinked (serve (losing 1) (hidd connect) powered_on)
serve-IsLinked_example = serve-IsLinked (losing 1) (hidd connect) powered_on powered_on-IsLinked

-- The second report of the first round is lost, so the task needs another round.
online-ready :
    Finishes (λ r. (snapshot (safety_of r)).attempts ≡ 2) (safety_release_task (losing 1) 1 online)
unfolding safety_release_task release_task_loop attempt begin_release complete_release snapshot
    send_report send_consumer_report
online-ready = refl

safety_release_task-Finishes_example :
    Finishes (Unscheduled 1) (safety_release_task (losing 1) 1 online)
safety_release_task-Finishes_example =
    safety_release_task-Finishes (losing 1) 1 online (λ ticks s. inl refl)

run_schedule-Ends_example :
    let o = run_schedule_countdown_observed (losing 9) schedule 1 none online in
    (((is_verified schedule ≡ false) ⊎ (online.connected ≡ false) ⊎ (online.running ≡ true))
      × (o.0 ≢ ok)
      × (o.1 ≡ [])
      × (o.2 ≡ online))
    ⊎ ((is_verified schedule ≡ true)
        × (online.connected ≡ true)
        × (online.running ≡ false)
        × Ends schedule o)
run_schedule-Ends_example = run_schedule-Ends (losing 9) schedule 1 none online

run_schedule-forgets_example :
    run_schedule_countdown_observed
      (losing 9)
      schedule
      8
      none
      (record online { stop_requested = true })
    ≡ run_schedule_countdown_observed
        (losing 9)
        schedule
        8
        none
        (record online { stop_requested = false })
run_schedule-forgets_example =
    run_schedule-forgets (losing 9) schedule 8 none online schedule-IsExecutable.verified refl refl

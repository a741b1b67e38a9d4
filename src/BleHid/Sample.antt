-- ===== src/BleHid/Sample.antt =====
-- A keyboard over a stack in memory.
use typxen.Base.{ℕ, true, false, none, some, List, [], ◌∷◌}
use typxen.Safety.Defs.{Marker, cleared}
use typxen.BleHid.Defs.{Ble, Platform}

-- A keyboard that is connected, over a stack that sends every report; its state is the bonds.
abbrev pub stack : Platform (List ℕ)
stack = record {
  ms_to_ticks = λ ms. ms;
  input_set = λ report_id bytes q. (true, q);
  record_successful_report = λ on q. q;
  end_activity = λ q. q;
  delay = λ ticks s. s;
  now_us = λ q. (0, q);
  start_advertising = λ q. q;
  stop_advertising = λ q. q;
  create_safety_task = λ generation q. (true, q);
  bind_hid = λ q. q;
}

abbrev pub volatile_marker : Marker (List ℕ)
volatile_marker = record {
  read_active = some (λ q. (some false, q));
  write_active = some (λ active q. (true, q));
}

abbrev pub keyboard : Ble (List ℕ)
keyboard = record {
  connected = true;
  running = false;
  stop_requested = false;
  context = record {
    hid_device = true;
    adv_data_ready = true;
    scan_response_ready = true;
    hid_ready = true;
    authenticated = true;
    execution_observer = none;
    execution_safety = cleared volatile_marker;
    safety_task_generation = 0;
    sent = [];
    platform = 11 ∷ 12 ∷ [];
  };
  log = [];
}

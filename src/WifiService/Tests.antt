-- ===== src/WifiService/Tests.antt =====
-- Requests to a board, and the theorems at them.
use typxen.Base.{ℕ, ◌≡◌, refl, Bool, true, false, none, some, List, [], ◌∷◌, ◌++◌, replicate, arith}
use typxen.Base.Text.{codes, strtoul}
use typxen.Protocol.Types.{esp32_cam_limits}
use typxen.Protocol.Bytes.{same_bytes}
use typxen.Protocol.Verify.{verify}
use typxen.Protocol.Sample.{image_reader, fixed_sha256}
use typxen.Safety.Defs.{confirmed, none_error}
use typxen.Upload.Types.{Upload, receiving, ready, Storage}
use typxen.Upload.Crc.{crc32_update, crc_bits}
use typxen.Upload.Job.{cleared, same_job}
use typxen.Upload.Chunk.{chunk_begin, chunk_write, chunk_finish}
use typxen.BleHid.Events.{Nvs}
use typxen.WifiService.Hex.{format_hex, parse_hex, parse_pairs, parse_u32}
use typxen.WifiService.RoundTrip.{parse_hex-format_hex}
use typxen.WifiService.Defs.{Board, host_marker}
use typxen.WifiService.Handlers.{JobRequest, ChunkRequest, Server, start_handler}
use typxen.WifiService.Chunks.{chunk_handler, chunk_fields, handle_chunk, receive_loop}
use typxen.WifiService.Starting.{StartsOrNot, start_handler-StartsOrNot}
use typxen.WifiService.Network.{Net, NetPlatform, wifi_stopped}
use typxen.WifiService.Sound.{IsRunning}
use typxen.WifiService.Managed.{manage, service, manage-IsRunning}
use typxen.WifiService.Received.{is_chunk_taken, CameWhole, chunk_handler-CameWhole}

parse_hex-format_hex_example :
    parse_hex (some (format_hex (0 ∷ 171 ∷ 255 ∷ []))) 3 ≡ some (0 ∷ 171 ∷ 255 ∷ [])
parse_hex-format_hex_example =
    parse_hex-format_hex (0 ∷ 171 ∷ 255 ∷ []) (omega arith, (omega arith, (omega arith, tt)))

-- `strtoul` skips blanks and takes a sign, so these pass for bytes in hexadecimal.
loose_bytes : parse_hex (some (codes " 5+a")) 2 ≡ some (5 ∷ 10 ∷ [])
unfolding parse_hex parse_pairs strtoul
loose_bytes = refl

abbrev job : List ℕ
job = 9 ∷ replicate 15 0

abbrev job_text : List ℕ
job_text = codes "09000000000000000000000000000000"

abbrev nvs : Nvs (List ℕ)
nvs = record {
  open_nvs = λ q. (true, q);
  get_active = λ q. none;
  set_active = λ value q. (true, q);
  commit = λ q. (true, q);
}

-- The state of the platform is what the connection still gives.
abbrev board : Upload (List ℕ) → Board (List ℕ) (List ℕ)
board u = record {
  connected = true;
  running = false;
  stop_requested = false;
  context = record {
    hid_device = true;
    adv_data_ready = true;
    scan_response_ready = true;
    hid_ready = true;
    authenticated = true;
    execution_observer = none;
    execution_safety = record {
      marker = host_marker nvs;
      interrupted_reset = false;
      is_connected = true;
      is_authenticated = true;
      hid_state = confirmed;
      hid_error = none_error;
      release_attempts = 1;
      connection_generation = 1;
    };
    safety_task_generation = 0;
    sent = [];
    platform = record {
      upload = u;
      flash = [];
      pending_schedule = none;
      execution_task = false;
      rest = codes "hello";
    };
  };
  log = [];
}

abbrev flash : Storage (List ℕ)
flash = record {
  erase = λ c. (true, []);
  erase_range = λ offset n c. (true, c);
  write = λ offset bytes c. (true, c ++ bytes);
  read = λ c offset n. none;
}

-- A connection that gives two bytes at a time, while it has them, and answers only if the flag is set.
abbrev server : Bool → Server (List ℕ)
server answers = record {
  receive =
      λ wanted q. elim q [ [] ↦ ([], []) | b ∷ [] ↦ (b ∷ [], []) | b ∷ c ∷ q' ↦ (b ∷ c ∷ [], q') ];
  create_execution_task = λ q. (true, q);
  respond = λ response q. (answers, q);
}

abbrev ready_upload : Upload (List ℕ)
ready_upload = record (cleared (some flash)) {
  status = ready;
  job_id = job;
  verified_schedule = (verify image_reader esp32_cam_limits (fixed_sha256 7) 0).1;
}

abbrev start_request : JobRequest
start_request = record { job_id = some job_text; size = none; sha256 = none }

start_handler-StartsOrNot_example :
    StartsOrNot
      (board ready_upload)
      (start_handler (server false) (some start_request) (board ready_upload))
start_handler-StartsOrNot_example =
    start_handler-StartsOrNot nvs (server false) (some start_request) (board ready_upload) refl

abbrev receiving_upload : Upload (List ℕ)
receiving_upload = record (cleared (some flash)) {
  status = receiving;
  job_id = job;
  expected_size = 5;
}

abbrev chunk_request : ChunkRequest
chunk_request = record {
  content_len = 5;
  job_id = some job_text;
  sequence = some (codes "0");
  offset = some (codes "0");
  length = some (codes "5");
  crc32 = some (codes "3610a686");
}

chunk_taken_lem :
    is_chunk_taken (chunk_handler (server true) chunk_request (board receiving_upload)).0 ≡ true
unfolding chunk_handler chunk_fields handle_chunk receive_loop parse_hex parse_pairs parse_u32
    strtoul chunk_begin chunk_write chunk_finish same_job cleared crc32_update crc_bits same_bytes
chunk_taken_lem = refl

chunk_handler-CameWhole_example :
    CameWhole (server true) (board receiving_upload) (chunk_fields chunk_request)
chunk_handler-CameWhole_example =
    chunk_handler-CameWhole (server true) chunk_request (board receiving_upload) chunk_taken_lem

-- A platform that answers every call with ESP_OK, at the start.
abbrev answering : NetPlatform ℕ
answering = record {
  announce = λ q. (true, q);
  mdns_free = λ q. q;
  httpd_start = λ q. (true, q);
  register_uris = λ q. (true, q);
  httpd_stop = λ q. (true, q);
  initialize = λ q. (true, q);
  configure = λ mode q. (true, q);
  wifi_start = λ q. (true, q);
  wifi_stop = λ q. (true, q);
  wifi_connect = λ q. (true, q);
  access_point_ip = λ q. some (codes "192.168.4.1");
  create_restart_task = λ q. (true, q);
  create_fallback_task = λ q. (true, q);
  store_station = λ ssid password q. (true, q);
  erase_station = λ q. (true, q);
  delay_ms = λ ms n. n;
}

abbrev switched_on : Net ℕ
switched_on = record {
  http = false;
  wifi_initialized = false;
  wifi_started = false;
  execution_wifi_pause = false;
  fallback_task_pending = false;
  http_restart_task_pending = false;
  mdns_started = false;
  post_job_station_reconnect = false;
  execution_task = false;
  sta_connect_attempts = 0;
  wifi_mode = wifi_stopped;
  station = record { ssid = []; password = []; configured = false };
  active_ip = codes "0.0.0.0";
  rest = 0;
}

manage-IsRunning_example : IsRunning false (manage answering service switched_on)
manage-IsRunning_example =
    manage-IsRunning answering (λ ms n h. h) service switched_on (ground arith)

-- ===== src/WifiService/Defs.antt =====
-- The state of the board as the handlers see it, the storage on the partition, and the answers.
use typxen.Base.{
  ℕ, ◌-◌, Bool, true, false, not, ◌&&◌, ◌||◌, Option, none, some, List, if◌then◌else◌, ltb, leb,
  length,
}
use typxen.Protocol.Types.{VerifiedSchedule}
use typxen.Safety.Defs.{
  Marker, Snapshot, HidError, auth_failed, is_failed_retryable, release_max_attempts,
}
use typxen.Upload.Types.{
  Upload, Storage, UploadStatus, UploadError, invalid_state, hid_not_connected, hid_safety_pending,
  hid_safety_failed, HidReadiness, hid_disconnected, hid_ready, hid_failed, hid_pending,
}
use typxen.BleHid.Defs.{Ble}
use typxen.BleHid.Events.{Nvs, marker}

-- A partition: its size, and whether the calls on it give ESP_OK.
pub record Partition (C : Type 0) : Type 0 where
  pub size : ℕ
  pub erase_partition : ℕ → ℕ → C → Bool × C
  pub write_partition : ℕ → List ℕ → C → Bool × C
  pub read_partition : ℕ → ℕ → C → Option (List ℕ)

module _ {C : Type 0} where
  unfoldable pub storage_erase : Option (Partition C) → C → Bool × C
  storage_erase none c = (false, c)
  storage_erase (some p) c = p.erase_partition 0 p.size c

  -- `offset > partition->size || length > partition->size - offset`.
  abbrev pub outside : Partition C → ℕ → ℕ → Bool
  outside p offset n = ltb p.size offset || ltb (p.size - offset) n

  unfoldable pub storage_erase_range : Option (Partition C) → ℕ → ℕ → C → Bool × C
  storage_erase_range none offset n c = (false, c)
  storage_erase_range (some p) offset n c =
      if outside p offset n then (false, c) else p.erase_partition offset n c

  -- The bytes are not NULL.
  unfoldable pub storage_write : Option (Partition C) → ℕ → List ℕ → C → Bool × C
  storage_write none offset data_bytes c = (false, c)
  storage_write (some p) offset data_bytes c =
      if outside p offset (length data_bytes)
      then (false, c)
      else p.write_partition offset data_bytes c

  unfoldable pub storage_read : Option (Partition C) → C → ℕ → ℕ → Option (List ℕ)
  storage_read none c offset n = none
  storage_read (some p) c offset n =
      if outside p offset n then none else p.read_partition offset n c

  -- The storage that `typx_wifi_service_init` gives the upload.
  unfoldable pub storage_of : Option (Partition C) → Storage C
  unfolding storage_erase storage_erase_range storage_write storage_read
  storage_of partition = record {
    erase = storage_erase partition;
    erase_range = storage_erase_range partition;
    write = storage_write partition;
    read = storage_read partition;
  }

-- The variables of the service that the job needs, with the flash `C` and the state `Q` of the
-- platform. `execution_task` says whether there is a task.
pub record Host (C Q : Type 0) : Type 0 where
  pub upload : Upload C
  pub flash : C
  pub pending_schedule : Option VerifiedSchedule
  pub execution_task : Bool
  pub rest : Q

-- The keyboard's service over the host.
abbrev pub Board : Type 0 → Type 0 → Type 0
Board C Q = Ble (Host C Q)

-- The marker that `typx_ble_hid_init` gives the safety state, over the rest of the host.
abbrev pub on_rest : {C Q A : Type 0} → (Q → A × Q) → Host C Q → A × Host C Q
on_rest f h = let (a, q) = f h.rest in (a, record h { rest = q })

unfoldable pub host_marker : {C Q : Type 0} → Nvs Q → Marker (Host C Q)
unfolding marker
host_marker nvs = marker (record {
  open_nvs = on_rest nvs.open_nvs;
  get_active = λ h. nvs.get_active h.rest;
  set_active = λ value. on_rest (nvs.set_active value);
  commit = on_rest nvs.commit;
})

-- What a handler sends: the status of HTTP, where there are two, and the data of the body. `not_sent`
-- stands for an answer that could not be sent.
pub data Response : Type 0 where
  created ready_state idle_state chunk_taken not_sent : Response
  start_accepted : Response
  refused : ℕ → UploadError → UploadStatus → Bool → Response
  stop_taken : ℕ → UploadStatus → Response
  retry_taken : ℕ → Snapshot → Response

abbrev pub is_start_accepted : Response → Bool
is_start_accepted start_accepted = true
is_start_accepted _ = false

abbrev retryable : UploadError → Bool
retryable hid_not_connected = true
retryable hid_safety_pending = true
retryable hid_safety_failed = true
retryable _ = false

abbrev is_invalid_state : UploadError → Bool
is_invalid_state invalid_state = true
is_invalid_state _ = false

module _ {C Q : Type 0} where
  abbrev pub host : Board C Q → Host C Q
  host b = b.context.platform

  abbrev pub with_host : Board C Q → Host C Q → Board C Q
  with_host b h = record b { context = record b.context { platform = h } }

  abbrev pub upload_of : Board C Q → Upload C
  upload_of b = (host b).upload

  abbrev pub with_upload : Board C Q → Upload C → Board C Q
  with_upload b u = with_host b (record (host b) { upload = u })

  -- `send_upload_error`.
  unfoldable pub send_upload_error : UploadError → Board C Q → Response
  send_upload_error e b =
      refused (if is_invalid_state e || retryable e then 409 else 400) e (upload_of b).status
        (retryable e)

abbrev is_auth_failed : HidError → Bool
is_auth_failed auth_failed = true
is_auth_failed _ = false

-- `hidSafetyRetryAvailable` of the status.
unfoldable pub release_failed : Snapshot → Bool
release_failed hid =
    is_failed_retryable hid.state
    && (is_auth_failed hid.error || leb release_max_attempts hid.attempts)

-- The readiness that `start_handler` makes of the snapshot.
unfoldable pub hid_readiness : Snapshot → HidReadiness
unfolding release_failed
hid_readiness hid =
    if not hid.connected
    then hid_disconnected
    else if hid.ready
    then hid_ready
    else if release_failed hid
    then hid_failed
    else hid_pending

-- ===== src/IdentityHttp/Tests.antt =====
-- The theorems at a request, over a storage in memory.
use typxen.Base.{ℕ, ◌≡◌, refl, Bool, true, false, Option, none, some, List, [], ◌∷◌, if◌then◌else◌}
use typxen.Base.{length, drop}
use typxen.Base.Text.{codes, same_text}
use typxen.Identity.Types.{IdentityState}
use typxen.Identity.Text.{
  generated_serial, identity_hash, hash_bytes, hex, board_identifier, text_valid, text_length,
  printable, advertising_fits, scan_response_bytes,
}
use typxen.Identity.Config.{
  validate, validate_texts, validate_battery, defaults, defaults_config, load, apply, apply_config,
  fill_serial, prepare_update, identity_text_changed, text_differs,
}
use typxen.Protocol.Bytes.{same_bytes}
use typxen.IdentityService.Defs.{
  ok, Service, c_string, get_optional_string, get_optional_u8, get_optional_u16, load_overrides,
  init_loaded,
}
use typxen.IdentityService.Calls.{
  write_one, write_all, saved_writes, clear_request, init_ended, init_locked, init_read, init,
  save_config, tell_changed, take_effect, saved, save_prepared, save, bind_hid,
}
use typxen.IdentityService.Memory.{Memory, board, board-IsStorage, off}
use typxen.IdentityService.Sound.{binding, call, serve}
use typxen.HidRuntime.Defs.{is_idle, request_stop, io_valid}
use typxen.HidRuntime.Keys.{release, release_loop, release_all}
use typxen.BleHid.Defs.{release_all_reports, send_report, send_consumer_report, consumer_loop}
use typxen.BleHid.Events.{Bonds, clear_bonds, remove_listed, remove_loop, prepare_reboot}
use typxen.Identity.Codes.{restart_clears_bonds}
use typxen.BleHid.Sample.{stack, keyboard}
use typxen.IdentityHttp.Json.{
  Json, pos, Report, identity_json, parse_config, parse_battery, copy_string, copy_integer,
  put_string, in_range,
}
use typxen.IdentityHttp.Handlers.{
  Answer, shown, put_handler, config_taken, save_answered, Reboot, told_to_restart, restart_handler,
  reboot_made, reboot_prepared, bonds_cleared, answer_restart,
}
use typxen.IdentityHttp.Shown.{Shows}
use typxen.IdentityHttp.Taken.{put-init-Shows}
use typxen.IdentityHttp.Restarting.{IsReleased, restart_handler-IsReleased}

-- A document: a request, its battery, and the values.
data Document : Type 0 where
  request battery : Document
  text : List ℕ → Document
  number : ℕ → Document
  boolean : Bool → Document

abbrev first_of : List (List ℕ × Document) → List ℕ → Option Document
first_of [] name = none
first_of ((key, value) ∷ members) name =
    if same_text key name then some value else first_of members name

abbrev members_of : Document → List (List ℕ × Document)
members_of request =
    (codes "deviceName", text (codes "Desk"))
    ∷ (codes "manufacturerName", text (codes "Me"))
    ∷ (codes "modelNumber", text (codes "M1"))
    ∷ (codes "serialNumber", text [])
    ∷ (codes "hardwareRevision", text (codes "1.0"))
    ∷ (codes "softwareRevision", text (codes "2.0"))
    ∷ (codes "battery", battery)
    ∷ []
members_of battery =
    (codes "simulationEnabled", boolean true)
    ∷ (codes "minimumPercent", number 20)
    ∷ (codes "maximumPercent", number 80)
    ∷ (codes "currentPercent", number 55)
    ∷ (codes "dropActiveMinutes", number 15)
    ∷ []
members_of _ = []

abbrev documents : Json Document
documents = record {
  is_object = λ d. elim d [ request ↦ true | battery ↦ true | _ ↦ false ];
  has_item = λ d name. false;
  item = λ d name. first_of (members_of d) name;
  string = λ d. elim d [ text t ↦ some t | _ ↦ none ];
  number = λ d. elim d [ number n ↦ some (true, pos n) | _ ↦ none ];
  boolean = λ d. elim d [ boolean b ↦ some b | _ ↦ none ];
}

-- The board behind its start, with a HID device.
abbrev running : Service × Memory
running = serve board (binding (some 7) ∷ []) ((init board off []).0, (init board off []).1)

abbrev put : Answer × Service × Memory
put = put_handler board false true documents (some request) running.0 running.1

-- What the request is answered with.
abbrev report : Report
report = elim put.0 [ shown r ↦ r | _ ↦ identity_json off.state false ]

init-ok : (init board off []).2 ≡ ok
unfolding init init_read init_locked init_ended init_loaded load_overrides get_optional_string
    get_optional_u8 get_optional_u16 same_text
init-ok = refl

put-answered : put.0 ≡ shown report
unfolding init init_read init_locked init_ended init_loaded load_overrides get_optional_string
    get_optional_u8 get_optional_u16 same_text serve call bind_hid save save_prepared saved
    save_config saved_writes write_all write_one c_string load apply apply_config take_effect
    tell_changed prepare_update validate validate_texts validate_battery text_valid text_length
    printable advertising_fits scan_response_bytes fill_serial identity_text_changed text_differs
    same_bytes defaults defaults_config board_identifier generated_serial identity_hash hash_bytes
    hex clear_request put_handler config_taken save_answered parse_config parse_battery copy_string
    copy_integer put_string in_range identity_json
put-answered = refl

same_chip : board.read_mac put.2 ≡ (running.0.chip_identity, ok)
unfolding init init_read init_locked init_ended init_loaded load_overrides get_optional_string
    get_optional_u8 get_optional_u16 same_text serve call bind_hid
same_chip = refl

put-init-Shows_example :
    (false ≡ false)
    × Shows documents request report
    × ((init board off put.2).2 ≡ ok)
    × Shows documents request (identity_json (init board off put.2).0.state true)
put-init-Shows_example =
    put-init-Shows board false true board-IsStorage documents request (binding (some 7) ∷ []) off
      off [] put.2 report init-ok put-answered (λ key. refl) same_chip refl refl

-- The bonds are the state of the stack.
abbrev bonds : Bonds (List ℕ) ℕ
bonds = record {
  bond_device_num = length;
  bond_device_list = λ n q. some q;
  remove_bond_device = λ device q. (true, drop 1 q);
}

abbrev server : Reboot (List ℕ)
server = record { create_task = λ q. (true, q); send_answer = λ answer q. (true, q) }

abbrev renamed : IdentityState
renamed = record off.state { restart_required = true }

told : (restart_handler server stack bonds false renamed keyboard).task ≡ told_to_restart
unfolding restart_handler restart_clears_bonds is_idle reboot_made reboot_prepared prepare_reboot
    request_stop release_all_reports release_all release release_loop io_valid send_report
    send_consumer_report consumer_loop clear_bonds remove_listed remove_loop bonds_cleared
    answer_restart
told = refl

restart_handler-IsReleased_example :
    (false ≡ false)
    × (is_idle keyboard ≡ true)
    × IsReleased server stack bonds true keyboard
        (prepare_reboot stack keyboard).1
        (restart_handler server stack bonds false renamed keyboard).ble
restart_handler-IsReleased_example =
    restart_handler-IsReleased server stack bonds false renamed keyboard told

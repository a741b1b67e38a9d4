-- ===== src/IdentityService/Tests.antt =====
-- The theorems over a storage in memory.
use typxen.Base.{◌≡◌, refl, some, [], ◌∷◌, replicate}
use typxen.Base.Text.{codes, same_text}
use typxen.Identity.Types.{Config, valid}
use typxen.Identity.Text.{
  generated_serial, identity_hash, hash_bytes, hex, board_identifier, text_valid, text_length,
  printable, advertising_fits, scan_response_bytes,
}
use typxen.Identity.Config.{
  validate, validate_texts, validate_battery, defaults, defaults_config, load, apply, apply_config,
  fill_serial, prepare_update, identity_text_changed, text_differs,
}
use typxen.Protocol.Bytes.{same_bytes}
use typxen.IdentityService.Defs.{
  ok, Service, c_string, get_optional_string, get_optional_u8, get_optional_u16, load_overrides,
  init_loaded,
}
use typxen.IdentityService.Calls.{
  write_one, write_all, saved_writes, erasures, clear_request, init_ended, init_locked, init_read,
  init, save_config, tell_changed, take_effect, saved, save_prepared, save, reset, reset_stored,
  reset_state, erase_identity, bind_hid,
}
use typxen.IdentityService.Memory.{Memory, board, board-IsStorage, off}
use typxen.IdentityService.Sound.{IsSound, binding, call, serve, init-serve-IsSound}
use typxen.IdentityService.Restarted.{IsKept, save-init-IsKept}
use typxen.IdentityService.Erased.{reset-init}

-- A request with an empty serial number and another name.
abbrev renamed : Config
renamed = record (defaults_config []) {
  serial_number = replicate 33 0;
  device_name = 75 ∷ 0 ∷ replicate 28 9;
  battery_current_percent = 60;
}

abbrev started : Service × Memory
started = ((init board off []).0, (init board off []).1)

abbrev bound : Service × Memory
bound = serve board (binding (some 7) ∷ []) started

init-ok : (init board off []).2 ≡ ok
unfolding init init_read init_locked init_ended init_loaded load_overrides get_optional_string
    get_optional_u8 get_optional_u16 same_text
init-ok = refl

abbrev saved_memory : Memory
saved_memory = (save board bound.0 bound.1 renamed valid).0.1

save-ok : (save board bound.0 bound.1 renamed valid).0.2 ≡ ok
unfolding init init_read init_locked init_ended init_loaded load_overrides get_optional_string
    get_optional_u8 get_optional_u16 same_text serve call bind_hid save save_prepared saved
    save_config saved_writes write_all write_one c_string load apply apply_config take_effect
    tell_changed prepare_update validate validate_texts validate_battery text_valid text_length
    printable advertising_fits scan_response_bytes fill_serial identity_text_changed text_differs
    same_bytes defaults defaults_config board_identifier generated_serial identity_hash hash_bytes
    hex clear_request
save-ok = refl

bound-chip : board.read_mac saved_memory ≡ (bound.0.chip_identity, ok)
unfolding init init_read init_locked init_ended init_loaded load_overrides get_optional_string
    get_optional_u8 get_optional_u16 same_text serve call bind_hid
bound-chip = refl

save-init-IsKept_example :
    ((init board off saved_memory).2 ≡ ok)
    × IsKept
        (save board bound.0 bound.1 renamed valid).0.0.state
        (init board off saved_memory).0.state
save-init-IsKept_example =
    save-init-IsKept board board-IsStorage (binding (some 7) ∷ []) off off [] saved_memory renamed
      valid init-ok save-ok (λ key. refl) bound-chip refl refl

init-serve-IsSound_example : IsSound bound.0
init-serve-IsSound_example = init-serve-IsSound board (binding (some 7) ∷ []) off [] init-ok

-- The state with the other name, behind the save.
abbrev renamed_service : Service
renamed_service = (save board bound.0 bound.1 renamed valid).0.0

abbrev reset_memory : Memory
reset_memory = (reset board renamed_service saved_memory).1

reset-ok : (reset board renamed_service saved_memory).2 ≡ ok
unfolding init init_read init_locked init_ended init_loaded load_overrides get_optional_string
    get_optional_u8 get_optional_u16 same_text serve call bind_hid save save_prepared saved
    save_config saved_writes write_all write_one c_string load apply apply_config take_effect
    tell_changed prepare_update validate validate_texts validate_battery text_valid text_length
    printable advertising_fits scan_response_bytes fill_serial identity_text_changed text_differs
    same_bytes defaults defaults_config board_identifier generated_serial identity_hash hash_bytes
    hex clear_request reset reset_stored reset_state erase_identity erasures
reset-ok = refl

renamed-chip : board.read_mac reset_memory ≡ (renamed_service.chip_identity, ok)
unfolding init init_read init_locked init_ended init_loaded load_overrides get_optional_string
    get_optional_u8 get_optional_u16 same_text serve call bind_hid save save_prepared saved
    save_config saved_writes write_all write_one c_string load apply apply_config take_effect
    tell_changed prepare_update validate validate_texts validate_battery text_valid text_length
    printable advertising_fits scan_response_bytes fill_serial identity_text_changed text_differs
    same_bytes defaults defaults_config board_identifier generated_serial identity_hash hash_bytes
    hex clear_request
renamed-chip = refl

reset-init_example :
    let fresh =
      defaults renamed_service.chip_identity (some renamed_service.state.firmware_revision) in
    ((reset board renamed_service saved_memory).0.state ≡ record fresh {
      restart_required = identity_text_changed renamed_service.state.config fresh.config;
    })
    × ((init board off reset_memory).2 ≡ ok)
    × ((init board off reset_memory).0.state
        ≡ defaults renamed_service.chip_identity (some (codes "1.2")))
reset-init_example =
    reset-init board board-IsStorage renamed_service off saved_memory reset_memory reset-ok
      (λ key. refl) renamed-chip refl refl

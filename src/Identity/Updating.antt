-- ===== src/Identity/Updating.antt =====
-- The configuration that `prepare_update` gives.
use typxen.Base.{
  ℕ, suc, ◌≤◌, ◌≡◌, refl, sym, ap, ◌∙◌, ◌⊎◌, inl, inr, Bool, true, false, not, ◌||◌, Option, none,
  some, List, [], ◌∷◌, ◌++◌, arith, if◌then◌else◌, ◌==◌, length, length-append, get_or, take, drop,
  All,
}
use typxen.Identity.Types.{
  Config, Validation, valid, invalid_device_name, invalid_manufacturer, invalid_model,
  invalid_serial, invalid_hardware_revision, invalid_software_revision, IdentityState,
}
use typxen.Identity.Text.{
  identity_hash, hex, put_text, serial_prefix, board_identifier, text_length, text_valid,
  advertising_fits,
}
use typxen.Identity.Config.{
  validate_battery, validate_texts, validate, is_valid, fill_serial, prepare_update,
  identity_text_changed,
}
use typxen.Identity.Loading.{
  IsPlain, All-append, hex-IsPlain, length-hex, text_length-put_text, put_text-text_valid,
}
use typxen.Identity.Valid.{both_valid, validate-parts}

-- The chain of the tests of the texts.
abbrev pub chain : Bool → Bool → Bool → Bool → Bool → Bool → Bool → Validation
chain name fits manufacturer model serial hardware software =
    if not name || not fits
    then invalid_device_name
    else if not manufacturer
    then invalid_manufacturer
    else if not model
    then invalid_model
    else if not serial
    then invalid_serial
    else if not hardware
    then invalid_hardware_revision
    else if not software
    then invalid_software_revision
    else valid

chain_serial :
    (name fits manufacturer model serial hardware software : Bool)
    → chain name fits manufacturer model serial hardware software ≡ valid
    → (serial ≡ true) × (chain name fits manufacturer model true hardware software ≡ valid)
chain_serial name fits manufacturer model serial hardware software h = ground arith

-- The tests of the texts with another serial number.
with_serial :
    (c : Config) (serial : List ℕ)
    → validate_texts c true ≡ valid
    → text_valid serial 33 false ≡ true
    → validate_texts (record c { serial_number = serial }) false ≡ valid
unfolding validate_texts
with_serial c serial h k =
    rw k
      (chain_serial (text_valid c.device_name 30 false) (advertising_fits c.device_name)
        (text_valid c.manufacturer_name 33 false) (text_valid c.model_number 33 false)
        (text_valid c.serial_number 33 true) (text_valid c.hardware_revision 17 false)
        (text_valid c.software_revision 17 false) h).1

serial_valid :
    (c : Config) → validate_texts c true ≡ valid → text_valid c.serial_number 33 true ≡ true
unfolding validate_texts
serial_valid c h =
    (chain_serial (text_valid c.device_name 30 false) (advertising_fits c.device_name)
      (text_valid c.manufacturer_name 33 false) (text_valid c.model_number 33 false)
      (text_valid c.serial_number 33 true) (text_valid c.hardware_revision 17 false)
      (text_valid c.software_revision 17 false) h).0

-- A text that is valid and begins with a byte is valid where an empty one is not.
text_valid_some :
    (text : List ℕ) (capacity : ℕ)
    → text_valid text (suc capacity) true ≡ true
    → (get_or text 0 0 == 0) ≡ false
    → text_valid text (suc capacity) false ≡ true
unfolding text_valid text_length
text_valid_some [] capacity h k = absurd (ground (arith, k))
text_valid_some (b ∷ text) capacity h k = ground (arith, h, k)

pub take-append : (xs ys : List ℕ) → take (length xs) (xs ++ ys) ≡ xs
take-append [] ys = refl
take-append (x ∷ xs) ys = ap (λ l. x ∷ l) (take-append xs ys)

-- The text that `prepare_update` reads behind "BOARD-".
pub board_text :
    (chip_identity buffer : List ℕ)
    → let board = drop 6 (board_identifier chip_identity buffer) in
      take (text_length (length board) board) board ≡ hex 8 (identity_hash chip_identity)
unfolding board_identifier
board_text chip_identity buffer =
    let digits = hex 8 (identity_hash chip_identity) in
    let rest = drop 15 buffer in
    let size = length-hex 8 (identity_hash chip_identity) in
    let whole = length-append digits (0 ∷ rest) in
    ap (λ n. take n (digits ++ (0 ∷ rest)))
      (text_length-put_text (length (digits ++ (0 ∷ rest))) digits rest
        (hex-IsPlain 8 (identity_hash chip_identity)) (omega arith))
    ∙ take-append digits (0 ∷ rest)

fill_serial-cases :
    (state : IdentityState) (c : Config)
    → let board = drop 6 state.board_identifier in
      (fill_serial state c ≡ record c {
        serial_number =
            put_text c.serial_number
              (serial_prefix ++ take (text_length (length board) board) board);
      })
      ⊎ (((get_or c.serial_number 0 0 == 0) ≡ false) × (fill_serial state c ≡ c))
unfolding fill_serial
fill_serial-cases state c = ground arith

filled-text_valid :
    (buffer text : List ℕ)
    → All IsPlain text
    → length text ≤ 8
    → text_valid (put_text buffer (serial_prefix ++ text)) 33 false ≡ true
filled-text_valid buffer text h l =
    let size = length-append serial_prefix text in
    put_text-text_valid buffer (serial_prefix ++ text) 33 false
      (All-append serial_prefix text (omega arith) h) (omega arith) (omega arith)

with_serial-valid :
    (c : Config) (serial : List ℕ)
    → validate c true ≡ valid
    → text_valid serial 33 false ≡ true
    → validate (record c { serial_number = serial }) false ≡ valid
unfolding validate validate_battery
with_serial-valid c serial h k =
    let parts = validate-parts c true h in both_valid _ _ (with_serial c serial parts.0 k) parts.1

fill_serial-valid :
    (state : IdentityState) (c : Config) (chip_identity buffer : List ℕ)
    → state.board_identifier ≡ board_identifier chip_identity buffer
    → validate c true ≡ valid
    → validate (fill_serial state c) false ≡ valid
fill_serial-valid state c chip_identity buffer b h =
    let digits = hex 8 (identity_hash chip_identity) in
    let size = length-hex 8 (identity_hash chip_identity) in
    elim (fill_serial-cases state c) [
      | inl filled ↦
          rw (filled, b, board_text chip_identity buffer)
            (with_serial-valid c (put_text c.serial_number (serial_prefix ++ digits)) h (
              filled-text_valid c.serial_number digits (hex-IsPlain 8 (identity_hash chip_identity))
                (omega arith)))
      | inr (first, kept) ↦ rw kept (
          with_serial-valid c c.serial_number h
            (text_valid_some c.serial_number 32 (serial_valid c (validate-parts c true h).0) first))
    ]

abbrev pub answer : Validation → Config → Bool → Option (Config × Bool) × Validation
answer v filled r = if not (is_valid v) then (none, v) else (some (filled, r), v)

pub accepted :
    (v : Validation) (filled effective : Config) (r restart : Bool)
    → (answer v filled r).0 ≡ some (effective, restart)
    → (v ≡ valid) × (filled ≡ effective)
accepted v filled effective r restart h = ground arith

-- For a state whose board identifier is the generated one: a configuration that `prepare_update`
-- gives is valid, its serial number not empty, even where the requested one is empty.
pub prepare_update-valid :
    (state : IdentityState) (requested effective : Config) (restart : Bool)
    (chip_identity buffer : List ℕ)
    → state.board_identifier ≡ board_identifier chip_identity buffer
    → (prepare_update state requested).0 ≡ some (effective, restart)
    → validate effective false ≡ valid
unfolding prepare_update
prepare_update-valid state requested effective restart chip_identity buffer b h =
    let (is, same) =
      accepted (validate requested true) (fill_serial state requested) effective
        (state.restart_required || identity_text_changed state.config (fill_serial state requested))
        restart h in
    rw (sym same) (fill_serial-valid state requested chip_identity buffer b is)

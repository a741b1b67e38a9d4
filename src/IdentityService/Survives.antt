-- ===== src/IdentityService/Survives.antt =====
-- A configuration that was saved is there again when the board starts anew.
use typxen.Base.{
  ℕ, suc, ◌≡◌, refl, sym, ap, ◌∙◌, Bool, true, false, not, Option, none, some, List, ◌∷◌, ◌++◌,
  arith, if◌then◌else◌, ◌==◌, ◌!=◌, get_or, length, length-append, replicate, take, drop, All,
}
use typxen.Base.Text.{codes, same_text}
use typxen.Identity.Types.{Config, Validation, valid, IdentityState}
use typxen.Identity.Text.{
  put_text, serial_prefix, identity_hash, hex, generated_serial, board_identifier,
}
use typxen.Identity.Config.{
  validate, defaults, defaults_config, apply, apply_config, load, is_valid, fill_serial,
}
use typxen.Identity.Loading.{IsPlain, All-append, hex-IsPlain, text_length-put_text}
use typxen.Identity.Updating.{take-append, board_text}
use typxen.IdentityService.Defs.{Status, ok, Platform, Service, c_string, init_loaded, version_text}
use typxen.IdentityService.Calls.{
  next, saved_writes, write_all, init, init_ended, init_locked, init_read, save_config, saved,
  save_prepared, take_effect, tell, tell_changed,
}
use typxen.IdentityService.Writes.{IsStorage, written, next_ok, write_all-reads}
use typxen.IdentityService.Texts.{copied, copied_config}
use typxen.IdentityService.Copied.{copied_config-valid}
use typxen.IdentityService.Loaded.{Holds, held, load_overrides-Holds}

-- The text of a buffer that a text was put into.
c_string-put_text : (buffer t : List ℕ) → All IsPlain t → c_string (put_text buffer t) ≡ t
unfolding c_string
c_string-put_text buffer t h =
    let rest : List ℕ = drop (suc (length t)) buffer in
    let size = length-append t (0 ∷ rest) in
    ap (λ n. take n (t ++ (0 ∷ rest)))
      (text_length-put_text (length (t ++ (0 ∷ rest))) t rest h (omega arith))
    ∙ take-append t (0 ∷ rest)

-- A serial number that was filled in is the one that is generated.
pub fill_serial-copied :
    (state : IdentityState) (c : Config) (chip_identity buffer : List ℕ)
    → state.board_identifier ≡ board_identifier chip_identity buffer
    → (get_or c.serial_number 0 0 == 0) ≡ true
    → copied 33 (fill_serial state c).serial_number
      ≡ generated_serial chip_identity (replicate 33 0)
unfolding fill_serial generated_serial
fill_serial-copied state c chip_identity buffer b empty =
    let digits = hex 8 (identity_hash chip_identity) in
    rw (empty, b, board_text chip_identity buffer)
      (ap (put_text (replicate 33 0)) (
        c_string-put_text c.serial_number (serial_prefix ++ digits) (
          All-append serial_prefix digits (omega arith)
            (hex-IsPlain 8 (identity_hash chip_identity)))))

abbrev chosen : IdentityState → IdentityState → Validation → IdentityState
chosen fallback candidate v = if not (is_valid v) then fallback else candidate

pub apply-held :
    (chip_identity : List ℕ) (version : Option (List ℕ)) (generated : Bool) (c : Config)
    → (generated ≡ true
        → copied 33 c.serial_number ≡ generated_serial chip_identity (replicate 33 0))
    → (apply (defaults chip_identity version) (some (held generated c))).config ≡ copied_config c
unfolding apply apply_config defaults defaults_config
apply-held chip_identity version true c h =
    ap (λ serial. record (copied_config c) { serial_number = serial }) (sym (h refl))
apply-held chip_identity version false c h = refl

load-held :
    (chip_identity : List ℕ) (version : Option (List ℕ)) (generated : Bool) (c : Config)
    → (generated ≡ true
        → copied 33 c.serial_number ≡ generated_serial chip_identity (replicate 33 0))
    → validate c false ≡ valid
    → load chip_identity version (some (held generated c))
      ≡ apply (defaults chip_identity version) (some (held generated c))
unfolding load
load-held chip_identity version generated c h v =
    let candidate = apply (defaults chip_identity version) (some (held generated c)) in
    let fine : validate candidate.config false ≡ valid =
      ap (λ config. validate config false) (apply-held chip_identity version generated c h)
      ∙ copied_config-valid c v in
    ap (chosen (defaults chip_identity version) candidate) fine

module _ {W : Type 0} (p : Platform W) where
  saved_ok :
      (svc : Service) (requested effective : Config) (restart : Bool) (r : W × Status)
      → (saved p svc requested effective restart r).2 ≡ ok
      → (r.1 ≡ ok)
        × (saved p svc requested effective restart r
            ≡ saved p svc requested effective restart (r.0, ok))
  unfolding saved
  saved_ok svc requested effective restart r h = ground arith

  tell-get :
      (s : IsStorage p) (device : Option ℕ) (level : ℕ) (w : W) (key : List ℕ)
      → p.get (tell p device level w).0 key ≡ p.get w key
  tell-get s none level w key = refl
  tell-get s (some device) level w key = s.battery-get w device level key

  branch-get :
      (changed : Bool) (w' w : W) (key : List ℕ)
      → p.get w' key ≡ p.get w key
      → p.get (if changed then w' else w) key ≡ p.get w key
  branch-get true w' w key h = h
  branch-get false w' w key h = refl

  pub tell_changed-get :
      (s : IsStorage p) (previous : ℕ) (svc : Service) (w : W) (key : List ℕ)
      → p.get (tell_changed p previous svc w) key ≡ p.get w key
  unfolding tell_changed
  tell_changed-get s previous svc w key =
      let level = svc.state.config.battery_current_percent in
      branch-get (previous != level) (tell p svc.hid_device level w).0 w key
        (tell-get s svc.hid_device level w key)

  saved-get :
      (s : IsStorage p) (svc : Service) (requested effective : Config) (restart : Bool) (w : W)
      (key : List ℕ)
      → p.get (saved p svc requested effective restart (w, ok)).1 key ≡ p.get w key
  unfolding saved
  saved-get s svc requested effective restart w key =
      tell_changed-get s svc.state.config.battery_current_percent
        (record svc { state = take_effect svc.state requested effective restart }) w key

  save_config-writes :
      (s : IsStorage p) (w : W) (requested effective : Config) (restart : Bool) (key : List ℕ)
      → (save_config p w requested effective restart).1 ≡ ok
      → p.get (save_config p w requested effective restart).0 key
        ≡ written (saved_writes requested effective restart) key (p.get w key)
  unfolding save_config
  save_config-writes s w requested effective restart key h =
      let writes = saved_writes requested effective restart in
      let w1 = (p.open_readwrite w).0 in
      let (o, opened) =
        next_ok (p.open_readwrite w) (λ w. next (write_all p writes w) p.commit) h in
      let (o', stored) =
        next_ok (write_all p writes w1) p.commit (ap (λ r. r.1) (sym opened) ∙ h) in
      ap (λ r. p.get r.0 key) (opened ∙ stored)
      ∙ s.commit-get (write_all p writes w1).0 key
      ∙ write_all-reads p s writes w1 key o'
      ∙ ap (written writes key) (s.open-get w key)

  pub save_config-Holds :
      (s : IsStorage p) (w w' : W) (requested effective : Config) (restart : Bool)
      → (save_config p w requested effective restart).1 ≡ ok
      → ((key : List ℕ) → p.get w' key ≡ p.get (save_config p w requested effective restart).0 key)
      → Holds p (get_or requested.serial_number 0 0 == 0) effective w'
  unfolding saved_writes same_text
  save_config-Holds s w w' requested effective restart h later =
      let reads : (key : List ℕ)
          → p.get w' key ≡ written (saved_writes requested effective restart) key (p.get w key) =
        λ key. later key ∙ save_config-writes s w requested effective restart key h in
      record {
        name = reads (codes "name");
        manufacturer = reads (codes "manufacturer");
        model = reads (codes "model");
        serial = reads (codes "serial");
        hardware = reads (codes "hw_rev");
        software = reads (codes "sw_rev");
        enabled = reads (codes "batt_enabled");
        minimum = reads (codes "batt_min");
        maximum = reads (codes "batt_max");
        current = reads (codes "batt_current");
        interval = reads (codes "batt_interval");
        active = reads (codes "batt_active_ms");
      }

  -- A board that starts over a storage that holds a valid configuration.
  pub init-Holds :
      (later : Service) (w : W) (chip_identity : List ℕ) (generated : Bool) (c : Config)
      → p.read_mac w ≡ (chip_identity, ok)
      → p.create_mutex w ≡ true
      → p.open_readonly w ≡ ok
      → Holds p generated c w
      → (generated ≡ true
          → copied 33 c.serial_number ≡ generated_serial chip_identity (replicate 33 0))
      → validate c false ≡ valid
      → ((init p later w).2 ≡ ok)
        × ((init p later w).0.state
            ≡ apply
                (defaults chip_identity (some (version_text p.version)))
                (some (held generated c)))
  unfolding init init_read init_locked init_ended init_loaded
  init-Holds later w chip_identity generated c mac mutex opens holds serial v =
      rw (mac, mutex, load_overrides-Holds p w generated c opens holds v)
        (refl, load-held chip_identity (some (version_text p.version)) generated c serial v)

  -- The parts of a save that was accepted and stored.
  pub save_prepared_ok :
      (s : IsStorage p) (svc : Service) (w : W) (requested : Config)
      (prepared : Option (Config × Bool))
      → (save_prepared p svc w requested prepared).2 ≡ ok
      → (effective : Config) × (restart : Bool) × (prepared ≡ some (effective, restart))
        × ((save_config p w requested effective restart).1 ≡ ok)
        × ((save_prepared p svc w requested prepared).0.state
            ≡ take_effect svc.state requested effective restart)
        × ((key : List ℕ)
            → p.get (save_prepared p svc w requested prepared).1 key
              ≡ p.get (save_config p w requested effective restart).0 key)
  unfolding save_prepared saved
  save_prepared_ok s svc w requested none h = absurd (ground arith)
  save_prepared_ok s svc w requested (some (effective, restart)) h =
      let stored = save_config p w requested effective restart in
      let (status, whole) = saved_ok svc requested effective restart stored h in
      (
        effective,
        restart,
        refl,
        status,
        ap (λ r. r.0.state) whole,
        λ key.
            ap (λ r. p.get r.1 key) whole
            ∙ saved-get s svc requested effective restart stored.0 key,
      )

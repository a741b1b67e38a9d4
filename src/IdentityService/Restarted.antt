-- ===== src/IdentityService/Restarted.antt =====
-- A restart after a save.
use typxen.Base.{
  subst, ℕ, ◌≡◌, refl, sym, ap, ◌∙◌, Bool, true, false, not, ◌||◌, Option, some, List, arith, ◌==◌,
  ◌!=◌, get_or, replicate, if◌then◌else◌,
}
use typxen.Identity.Types.{Config, Validation, IdentityState}
use typxen.Identity.Text.{generated_serial, board_identifier}
use typxen.Identity.Config.{
  validate, defaults, apply, prepare_update, fill_serial, identity_text_changed,
}
use typxen.Identity.Updating.{prepare_update-valid, accepted}
use typxen.IdentityService.Defs.{
  Error, Status, ok, error, invalid_arg, is_some, Platform, Service, version_text,
}
use typxen.IdentityService.Calls.{init, save_config, save_prepared, save, take_effect}
use typxen.IdentityService.Writes.{IsStorage}
use typxen.IdentityService.Texts.{copied, copied_config}
use typxen.IdentityService.Loaded.{held, kept_serial}
use typxen.IdentityService.Sound.{Call, serve, init-serve-IsSound}
use typxen.IdentityService.Survives.{
  apply-held, fill_serial-copied, save_config-Holds, init-Holds, save_prepared_ok,
}

-- What a restart keeps of a state; its texts are in new buffers.
pub record IsKept (old new : IdentityState) : Type 0 where
  pub config : new.config ≡ copied_config old.config
  pub battery_active_ms : new.battery_active_ms ≡ old.battery_active_ms
  pub activity_open : new.activity_open ≡ old.activity_open
  pub source_device_name_nvs : new.source_device_name_nvs ≡ old.source_device_name_nvs
  pub source_manufacturer_nvs : new.source_manufacturer_nvs ≡ old.source_manufacturer_nvs
  pub source_model_nvs : new.source_model_nvs ≡ old.source_model_nvs
  pub source_serial_nvs : new.source_serial_nvs ≡ old.source_serial_nvs

serial_source : (first : ℕ) (c : Config) → is_some (kept_serial (first == 0) c) ≡ (first != 0)
serial_source first c = ground arith

apply-IsKept :
    (old : IdentityState) (chip_identity : List ℕ) (version : Option (List ℕ))
    (requested c : Config) (restart : Bool)
    → ((get_or requested.serial_number 0 0 == 0) ≡ true
        → copied 33 c.serial_number ≡ generated_serial chip_identity (replicate 33 0))
    → IsKept (take_effect old requested c restart) (
        apply
          (defaults chip_identity version)
          (some (held (get_or requested.serial_number 0 0 == 0) c)))
unfolding take_effect apply defaults
apply-IsKept old chip_identity version requested c restart h = record {
  config = apply-held chip_identity version (get_or requested.serial_number 0 0 == 0) c h;
  battery_active_ms = refl;
  activity_open = refl;
  source_device_name_nvs = refl;
  source_manufacturer_nvs = refl;
  source_model_nvs = refl;
  source_serial_nvs = serial_source (get_or requested.serial_number 0 0) c;
}

pub prepare_update-filled :
    (state : IdentityState) (requested effective : Config) (restart : Bool)
    → (prepare_update state requested).0 ≡ some (effective, restart)
    → fill_serial state requested ≡ effective
unfolding prepare_update
prepare_update-filled state requested effective restart h =
    (accepted (validate requested true) (fill_serial state requested) effective
      (state.restart_required || identity_text_changed state.config (fill_serial state requested))
      restart h).1

pub test_ok {ℓ} :
    {A : Type ℓ} (status_of : A → Status) (locked : Bool) (x y : A) {e : Error}
    → status_of x ≡ error e
    → status_of (if not locked then x else y) ≡ ok
    → (if not locked then x else y) ≡ y
test_ok status_of true x y h k = refl
test_ok status_of false x y h k = absurd (ground (arith, h, k))

module _ {W : Type 0} (p : Platform W) where
  pub save_ok :
      (svc : Service) (w : W) (requested : Config) (v : Validation)
      → (save p svc w requested v).0.2 ≡ ok
      → (save p svc w requested v).0
        ≡ save_prepared p svc w requested (prepare_update svc.state requested).0
  unfolding save
  save_ok svc w requested v h =
      ap (λ r. r.0)
        (test_ok (λ (r : (Service × W × Status) × Validation). r.0.2) svc.mutex
          ((svc, w, error invalid_arg), v)
          (
            save_prepared p svc w requested (prepare_update svc.state requested).0,
            (prepare_update svc.state requested).1,
          )
          refl h)

  -- The restart, once the parts of the save are known.
  saved-init :
      (s : IsStorage p) (svc later : Service) (w w' : W) (requested effective : Config)
      (restart : Bool) (buffer : List ℕ)
      → svc.state.board_identifier ≡ board_identifier svc.chip_identity buffer
      → (prepare_update svc.state requested).0 ≡ some (effective, restart)
      → (save_config p w requested effective restart).1 ≡ ok
      → ((key : List ℕ) → p.get w' key ≡ p.get (save_config p w requested effective restart).0 key)
      → p.read_mac w' ≡ (svc.chip_identity, ok)
      → p.create_mutex w' ≡ true
      → p.open_readonly w' ≡ ok
      → ((init p later w').2 ≡ ok)
        × IsKept (take_effect svc.state requested effective restart) (init p later w').0.state
  saved-init s svc later w w' requested effective restart buffer board prepared stored same mac
        mutex opens =
      let serial : (get_or requested.serial_number 0 0 == 0) ≡ true
          → copied 33 effective.serial_number
            ≡ generated_serial svc.chip_identity (replicate 33 0) =
        λ empty.
          ap (λ c. copied 33 c.serial_number)
            (sym (prepare_update-filled svc.state requested effective restart prepared))
          ∙ fill_serial-copied svc.state requested svc.chip_identity buffer board empty in
      let (status, state) =
        init-Holds p later w' svc.chip_identity (get_or requested.serial_number 0 0 == 0) effective
          mac mutex opens (save_config-Holds p s w w' requested effective restart stored same)
          serial
          (prepare_update-valid svc.state requested effective restart svc.chip_identity buffer board
            prepared) in
      (
        status,
        subst (IsKept (take_effect svc.state requested effective restart)) (sym state) (
            apply-IsKept svc.state svc.chip_identity (some (version_text p.version)) requested
              effective restart serial),
      )

  save-init :
      (s : IsStorage p) (svc later : Service) (w w' : W) (requested : Config) (v : Validation)
      (buffer : List ℕ)
      → svc.state.board_identifier ≡ board_identifier svc.chip_identity buffer
      → (save p svc w requested v).0.2 ≡ ok
      → ((key : List ℕ) → p.get w' key ≡ p.get (save p svc w requested v).0.1 key)
      → p.read_mac w' ≡ (svc.chip_identity, ok)
      → p.create_mutex w' ≡ true
      → p.open_readonly w' ≡ ok
      → ((init p later w').2 ≡ ok)
        × IsKept (save p svc w requested v).0.0.state (init p later w').0.state
  save-init s svc later w w' requested v buffer board h same mac mutex opens =
      let reduced = save_ok svc w requested v h in
      let (effective, restart, prepared, status, state, reads) =
        save_prepared_ok p s svc w requested (prepare_update svc.state requested).0
          (ap (λ r. r.2) (sym reduced) ∙ h) in
      let (booted, kept) =
        saved-init s svc later w w' requested effective restart buffer board prepared status
          (λ key. same key ∙ ap (λ r. p.get r.1 key) reduced ∙ reads key) mac mutex opens in
      (
        booted,
        subst (λ old. IsKept old (init p later w').0.state)
            (sym state ∙ ap (λ r. r.0.state) (sym reduced)) kept,
      )

  -- Over a storage that works as documented, behind an `init` that returned ESP_OK and any calls: where
  -- `save` returns ESP_OK, a board that starts over a storage with the values that were left, on the
  -- same chip, with a mutex and the namespace there to open, returns ESP_OK from `init` and has the
  -- configuration that was saved, its texts in new buffers, with the same sources of the texts, no
  -- activity counted and none open; also where the serial number was requested empty and is not stored.
  pub save-init-IsKept :
      (s : IsStorage p) (cs : List Call) (first later : Service) (w w' : W) (requested : Config)
      (v : Validation)
      → (init p first w).2 ≡ ok
      → let run = serve p cs ((init p first w).0, (init p first w).1) in
        (save p run.0 run.1 requested v).0.2 ≡ ok
        → ((key : List ℕ) → p.get w' key ≡ p.get (save p run.0 run.1 requested v).0.1 key)
        → p.read_mac w' ≡ (run.0.chip_identity, ok)
        → p.create_mutex w' ≡ true
        → p.open_readonly w' ≡ ok
        → ((init p later w').2 ≡ ok)
          × IsKept (save p run.0 run.1 requested v).0.0.state (init p later w').0.state
  save-init-IsKept s cs first later w w' requested v started h same mac mutex opens =
      let run = serve p cs ((init p first w).0, (init p first w).1) in
      save-init s run.0 later run.1 w' requested v (replicate 15 0)
        (init-serve-IsSound p cs first w started).board h same mac mutex opens

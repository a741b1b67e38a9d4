-- ===== src/IdentityService/Sound.antt =====
-- What every call of the service keeps.
use typxen.Base.{
  ℕ, ◌≡◌, refl, ◌∙◌, Bool, true, false, not, Option, none, some, List, [], ◌∷◌, arith,
  if◌then◌else◌, replicate,
}
use typxen.Identity.Types.{Config, Overrides, Validation, valid}
use typxen.Identity.Text.{board_identifier}
use typxen.Identity.Config.{validate, prepare_update, identity_text_changed}
use typxen.Identity.Battery.{end_activity}
use typxen.Identity.Loading.{load-valid}
use typxen.Identity.Valid.{record_successful_report-valid, reset_battery-valid}
use typxen.Identity.Updating.{prepare_update-valid}
use typxen.IdentityService.Boards.{load-board, record_successful_report-board, reset_battery-board}
use typxen.IdentityService.Defs.{
  Status, ok, error, is_ok, Reading, got, stopped, Platform, Service, init_loaded, or_none,
  load_overrides, version_text,
}
use typxen.IdentityService.Calls.{
  init, init_read, init_locked, init_ended, save, save_prepared, saved, save_config, take_effect,
  reset, reset_stored, reset_state, erase_identity, battery_reset, bind_hid, report, close_activity,
}

-- The mutex is there, the configuration is valid, and the board identifier is the generated one.
pub record IsSound (svc : Service) : Type 0 where
  pub mutex : svc.mutex ≡ true
  pub config : validate svc.state.config false ≡ valid
  pub board : svc.state.board_identifier ≡ board_identifier svc.chip_identity (replicate 15 0)

-- The calls behind `init`.
pub data Call : Type 0 where
  saving : Config → Validation → Call
  resetting resetting_battery closing : Call
  binding : Option ℕ → Call
  reporting : ℕ → Bool → Call

either-IsSound :
    {A : Type 0} (service_of : A → Service) (test : Bool) (x y : A)
    → IsSound (service_of x)
    → IsSound (service_of y)
    → IsSound (service_of (if test then x else y))
either-IsSound service_of true x y h k = h
either-IsSound service_of false x y h k = k

module _ {W : Type 0} (p : Platform W) where
  unfoldable pub call : Call → Service × W → Service × W
  unfolding save reset battery_reset bind_hid report close_activity
  call (saving requested v) (svc, w) =
      let ((svc', w', status), v') = save p svc w requested v in (svc', w')
  call resetting (svc, w) = let (svc', w', status) = reset p svc w in (svc', w')
  call resetting_battery (svc, w) = let (svc', w', status) = battery_reset p svc w in (svc', w')
  call closing (svc, w) = close_activity p svc w
  call (binding device) (svc, w) = let (svc', w', status) = bind_hid p svc w device in (svc', w')
  call (reporting now_ms active) (svc, w) = report p svc w now_ms active

  -- Calls in a row.
  unfoldable pub serve : List Call → Service × W → Service × W
  unfolding call
  serve [] s = s
  serve (c ∷ cs) s = serve cs (call c s)

  saved-IsSound :
      (svc : Service) (requested effective : Config) (restart : Bool) (r : W × Status)
      → IsSound svc
      → validate effective false ≡ valid
      → IsSound (saved p svc requested effective restart r).0
  unfolding saved take_effect
  saved-IsSound svc requested effective restart r h v =
      either-IsSound (λ (r : Service × W × Status). r.0) (is_ok r.1) _ _
        record { mutex = h.mutex; config = v; board = h.board } h

  save_prepared-IsSound :
      (svc : Service) (w : W) (requested : Config) (prepared : Option (Config × Bool))
      → IsSound svc
      → (prepare_update svc.state requested).0 ≡ prepared
      → IsSound (save_prepared p svc w requested prepared).0
  unfolding save_prepared
  save_prepared-IsSound svc w requested none h e = h
  save_prepared-IsSound svc w requested (some (effective, restart)) h e =
      saved-IsSound svc requested effective restart (save_config p w requested effective restart) h
        (prepare_update-valid svc.state requested effective restart svc.chip_identity
          (replicate 15 0) h.board e)

  reset_stored-IsSound :
      (svc : Service) (restart : Bool) (r : W × Status)
      → IsSound svc
      → IsSound (reset_stored p svc (reset_state svc) restart r).0
  unfolding reset_stored reset_state
  reset_stored-IsSound svc restart r h =
      either-IsSound (λ (r : Service × W × Status). r.0) (is_ok r.1) _ _
        record {
          mutex = h.mutex;
          config = load-valid svc.chip_identity (some svc.state.firmware_revision) none;
          board = load-board svc.chip_identity (some svc.state.firmware_revision) none;
        }
        h

  report-IsSound :
      (svc : Service) (w : W) (now_ms : ℕ) (active : Bool)
      → IsSound svc
      → IsSound (report p svc w now_ms active).0
  unfolding report
  report-IsSound svc w now_ms active h =
      either-IsSound (λ (r : Service × W). r.0) (not svc.mutex) _ _ h
        record {
          mutex = h.mutex;
          config = record_successful_report-valid svc.state now_ms active false h.config;
          board = record_successful_report-board svc.state now_ms active ∙ h.board;
        }

  close_activity-IsSound :
      (svc : Service) (w : W) → IsSound svc → IsSound (close_activity p svc w).0
  unfolding close_activity end_activity
  close_activity-IsSound svc w h =
      either-IsSound (λ (r : Service × W). r.0) (not svc.mutex) _ _ h
        record { mutex = h.mutex; config = h.config; board = h.board }

  bind_hid-IsSound :
      (svc : Service) (w : W) (device : Option ℕ)
      → IsSound svc
      → IsSound (bind_hid p svc w device).0
  unfolding bind_hid
  bind_hid-IsSound svc w device h =
      either-IsSound (λ (r : Service × W × Status). r.0) (not svc.mutex) _ _ h
        record { mutex = h.mutex; config = h.config; board = h.board }

  battery_reset-IsSound : (svc : Service) (w : W) → IsSound svc → IsSound (battery_reset p svc w).0
  unfolding battery_reset
  battery_reset-IsSound svc w h =
      either-IsSound (λ (r : Service × W × Status). r.0) (not svc.mutex) _ _ h
        record {
          mutex = h.mutex;
          config = reset_battery-valid svc.state false h.config;
          board = reset_battery-board svc.state ∙ h.board;
        }

  reset-IsSound : (svc : Service) (w : W) → IsSound svc → IsSound (reset p svc w).0
  unfolding reset
  reset-IsSound svc w h =
      let restart = identity_text_changed svc.state.config (reset_state svc).config in
      either-IsSound (λ (r : Service × W × Status). r.0) (not svc.mutex) _ _ h
        (reset_stored-IsSound svc restart (erase_identity p restart w) h)

  save-IsSound :
      (svc : Service) (w : W) (requested : Config) (v : Validation)
      → IsSound svc
      → IsSound (save p svc w requested v).0.0
  unfolding save
  save-IsSound svc w requested v h =
      either-IsSound (λ (r : (Service × W × Status) × Validation). r.0.0) (not svc.mutex) _ _ h
        (save_prepared-IsSound svc w requested (prepare_update svc.state requested).0 h refl)

  call-IsSound : (c : Call) (s : Service × W) → IsSound s.0 → IsSound (call c s).0
  unfolding call
  call-IsSound (saving requested v) (svc, w) h = save-IsSound svc w requested v h
  call-IsSound resetting (svc, w) h = reset-IsSound svc w h
  call-IsSound resetting_battery (svc, w) h = battery_reset-IsSound svc w h
  call-IsSound closing (svc, w) h = close_activity-IsSound svc w h
  call-IsSound (binding device) (svc, w) h = bind_hid-IsSound svc w device h
  call-IsSound (reporting now_ms active) (svc, w) h = report-IsSound svc w now_ms active h

  serve-IsSound : (cs : List Call) (s : Service × W) → IsSound s.0 → IsSound (serve cs s).0
  unfolding serve
  serve-IsSound [] s h = h
  serve-IsSound (c ∷ cs) s h = serve-IsSound cs (call c s) (call-IsSound c s h)

  init_loaded-IsSound :
      (svc : Service) (reading : Reading Overrides)
      → svc.mutex ≡ true
      → (init_loaded p svc reading).1 ≡ ok
      → IsSound (init_loaded p svc reading).0
  unfolding init_loaded
  init_loaded-IsSound svc (stopped e) m h = absurd (ground arith)
  init_loaded-IsSound svc (got overrides) m h = record {
    mutex = m;
    config = load-valid svc.chip_identity (some (version_text p.version)) (some overrides);
    board = load-board svc.chip_identity (some (version_text p.version)) (some overrides);
  }

  init_locked-IsSound :
      (svc : Service) (w : W) (made : Bool)
      → (init_locked p svc w made).2 ≡ ok
      → IsSound (init_locked p svc w made).0
  unfolding init_locked init_ended
  init_locked-IsSound svc w false h = absurd (ground arith)
  init_locked-IsSound svc w true h =
      init_loaded-IsSound (record svc { mutex = true }) (or_none (load_overrides p w)) refl h

  init_read-IsSound :
      (svc : Service) (w : W) (mac : List ℕ × Status)
      → (init_read p svc w mac).2 ≡ ok
      → IsSound (init_read p svc w mac).0
  unfolding init_read
  init_read-IsSound svc w (chip, ok) h =
      init_locked-IsSound (record svc { chip_identity = chip }) w (p.create_mutex w) h
  init_read-IsSound svc w (chip, error e) h = absurd (ground arith)

  init-IsSound : (svc : Service) (w : W) → (init p svc w).2 ≡ ok → IsSound (init p svc w).0
  unfolding init
  init-IsSound svc w h = init_read-IsSound svc w (p.read_mac w) h

  -- Where `init` returns ESP_OK, the mutex is there, the configuration is valid and the board identifier
  -- is the one that is generated from the chip, behind any calls and whatever the platform answers.
  pub init-serve-IsSound :
      (cs : List Call) (svc : Service) (w : W)
      → (init p svc w).2 ≡ ok
      → IsSound (serve cs ((init p svc w).0, (init p svc w).1)).0
  init-serve-IsSound cs svc w h =
      serve-IsSound cs ((init p svc w).0, (init p svc w).1) (init-IsSound svc w h)

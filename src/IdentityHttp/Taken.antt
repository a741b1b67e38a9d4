-- ===== src/IdentityHttp/Taken.antt =====
-- A request that was taken, and what a restart keeps of it.
use typxen.Base.{
  ℕ, ◌≡◌, refl, sym, ap, ◌∙◌, subst, Bool, true, false, Option, none, some, List, arith,
  if◌then◌else◌,
}
use typxen.Base.Text.{codes}
use typxen.Identity.Codes.{validation_code}
use typxen.Identity.Types.{Config, Validation, valid, IdentityState}
use typxen.Identity.Config.{fill_serial, prepare_update}
use typxen.IdentityService.Defs.{Status, ok, error, Platform, Service}
use typxen.IdentityService.Calls.{save, init, take_effect}
use typxen.IdentityService.Writes.{IsStorage}
use typxen.IdentityService.Survives.{save_prepared_ok}
use typxen.IdentityService.Restarted.{save_ok, prepare_update-filled, save-init-IsKept}
use typxen.IdentityService.Sound.{Call, serve}
use typxen.IdentityHttp.Json.{Json, parse_config, Report, identity_json}
use typxen.IdentityHttp.Handlers.{
  Answer, shown, refused, answer_of, is_invalid_arg, job_active, save_answered, config_taken,
  put_handler, validation_field,
}
use typxen.IdentityHttp.Parsed.{HasConfig, parse_config-HasConfig}
use typxen.IdentityHttp.Shown.{
  Shows, fill_serial-HasConfig, copied_config-HasConfig, identity_json-Shows,
}

abbrev is_shown : Answer → Bool
is_shown (shown report) = true
is_shown _ = false

refusal-is_shown :
    (test : Bool) (n m : ℕ) (code code' : List ℕ) (field field' : Option (List ℕ))
    → is_shown (if test then refused n code field else refused m code' field') ≡ false
refusal-is_shown true n m code code' field field' = refl
refusal-is_shown false n m code code' field field' = refl

shown-is_shown : (a : Answer) (report : Report) → a ≡ shown report → is_shown a ≡ true
shown-is_shown a report h = ap is_shown h

report_of : Report → Answer → Report
report_of d (shown report) = report
report_of d _ = d

module _ {W : Type 0} (p : Platform W) (job_locked ble_connected : Bool) where
  answer_of_shown :
      (failure : Answer) (r : Service × W × Status) (report : Report)
      → is_shown failure ≡ false
      → (answer_of p job_locked ble_connected failure r).0 ≡ shown report
      → (r.2 ≡ ok) × (identity_json r.0.state ble_connected ≡ report)
  unfolding report_of
  answer_of_shown failure (svc, w, ok) report f h = (refl, ap (report_of report) h)
  answer_of_shown failure (svc, w, error e) report f h =
      let is = shown-is_shown failure report h in absurd (ground (arith, f, is))

  save_answered_shown :
      (r : (Service × W × Status) × Validation) (report : Report)
      → (save_answered p job_locked ble_connected r).0 ≡ shown report
      → (r.0.2 ≡ ok)
        × (identity_json r.0.0.state ble_connected ≡ report)
        × ((save_answered p job_locked ble_connected r).2 ≡ r.0.1)
  unfolding save_answered
  save_answered_shown ((svc, w, status), validation) report h =
      let (fine, same) =
        answer_of_shown _ (svc, w, status) report
          (refusal-is_shown (is_invalid_arg status) 422 500 (validation_code validation)
            (codes "SAVE_FAILED") (validation_field validation) none)
          h in
      (fine, same, refl)

  config_taken_shown :
      (svc : Service) (w : W) (config : Option Config) (report : Report)
      → (config_taken p job_locked ble_connected svc w config).0 ≡ shown report
      → (c : Config) × (config ≡ some c)
        × ((save p svc w c valid).0.2 ≡ ok)
        × (identity_json (save p svc w c valid).0.0.state ble_connected ≡ report)
        × ((config_taken p job_locked ble_connected svc w config).2 ≡ (save p svc w c valid).0.1)
  unfolding config_taken
  config_taken_shown svc w none report h =
      let is = shown-is_shown _ report h in absurd (ground (arith, is))
  config_taken_shown svc w (some c) report h =
      let (fine, same, world) = save_answered_shown (save p svc w c valid) report h in
      (c, refl, fine, same, world)

  unlocked_shown :
      (locked : Bool) (x y : Answer × Service × W) (report : Report)
      → is_shown x.0 ≡ false
      → (if locked then x else y).0 ≡ shown report
      → (locked ≡ false) × ((if locked then x else y) ≡ y)
  unlocked_shown false x y report f h = (refl, refl)
  unlocked_shown true x y report f h =
      let is = shown-is_shown x.0 report h in absurd (ground (arith, f, is))

  put_unlocked :
      {J : Type 0} (json : Json J) (root : J) (svc : Service) (w : W) (report : Report)
      → (put_handler p job_locked ble_connected json (some root) svc w).0 ≡ shown report
      → (job_locked ≡ false)
        × (put_handler p job_locked ble_connected json (some root) svc w
            ≡ config_taken p job_locked ble_connected svc w (parse_config json root))
  unfolding put_handler
  put_unlocked json root svc w report h =
      unlocked_shown job_locked (job_active, svc, w)
        (config_taken p job_locked ble_connected svc w (parse_config json root)) report refl h

  -- A request that is answered with the identity was parsed and saved.
  put_shown :
      {J : Type 0} (json : Json J) (root : J) (svc : Service) (w : W) (report : Report)
      → (put_handler p job_locked ble_connected json (some root) svc w).0 ≡ shown report
      → (c : Config) × (parse_config json root ≡ some c)
        × ((save p svc w c valid).0.2 ≡ ok)
        × (identity_json (save p svc w c valid).0.0.state ble_connected ≡ report)
        × ((put_handler p job_locked ble_connected json (some root) svc w).2
            ≡ (save p svc w c valid).0.1)
  put_shown json root svc w report h =
      let (unlocked, same) = put_unlocked json root svc w report h in
      let (c, parsed, fine, seen, world) =
        config_taken_shown svc w (parse_config json root) report (ap (λ r. r.0) (sym same) ∙ h) in
      (c, parsed, fine, seen, ap (λ r. r.2) same ∙ world)

  -- The configuration behind a save that was accepted holds what was requested.
  saved-HasConfig :
      {J : Type 0} (s : IsStorage p) (json : Json J) (root : J) (svc : Service) (w : W) (c : Config)
      → HasConfig json root c
      → (save p svc w c valid).0.2 ≡ ok
      → HasConfig json root (save p svc w c valid).0.0.state.config
  unfolding take_effect
  saved-HasConfig s json root svc w c h fine =
      let reduced = save_ok p svc w c valid fine in
      let (effective, restart, prepared, status, state, reads) =
        save_prepared_ok p s svc w c (prepare_update svc.state c).0
          (ap (λ r. r.2) (sym reduced) ∙ fine) in
      let same : fill_serial svc.state c ≡ (save p svc w c valid).0.0.state.config =
        prepare_update-filled svc.state c effective restart prepared
        ∙ ap (λ (st : IdentityState). st.config) (sym state)
        ∙ ap (λ r. r.0.state.config) (sym reduced) in
      subst (HasConfig json root) same (fill_serial-HasConfig json root svc.state c h)

  -- Over a storage that works as documented, behind an `init` that returned ESP_OK and any calls: where
  -- a PUT of an identity is answered with 200, no job holds the board, and the answer shows the texts
  -- and the numbers of the request, any serial number where an empty one is requested; and a board that
  -- starts over a storage with the values that were left, on the same chip, with a mutex and the
  -- namespace there to open, returns ESP_OK from `init` and shows them too.
  pub put-init-Shows :
      {J : Type 0} (s : IsStorage p) (json : Json J) (root : J) (cs : List Call)
      (first later : Service) (w w' : W) (report : Report)
      → (init p first w).2 ≡ ok
      → let run = serve p cs ((init p first w).0, (init p first w).1) in
        let put = put_handler p job_locked ble_connected json (some root) run.0 run.1 in
        put.0 ≡ shown report
        → ((key : List ℕ) → p.get w' key ≡ p.get put.2 key)
        → p.read_mac w' ≡ (run.0.chip_identity, ok)
        → p.create_mutex w' ≡ true
        → p.open_readonly w' ≡ ok
        → (job_locked ≡ false)
          × Shows json root report
          × ((init p later w').2 ≡ ok)
          × Shows json root (identity_json (init p later w').0.state ble_connected)
  put-init-Shows s json root cs first later w w' report started h same mac mutex opens =
      let run = serve p cs ((init p first w).0, (init p first w).1) in
      let (c, parsed, fine, seen, world) = put_shown json root run.0 run.1 report h in
      let held =
        saved-HasConfig s json root run.0 run.1 c (parse_config-HasConfig json root c parsed)
          fine in
      let (booted, kept) =
        save-init-IsKept p s cs first later w w' c valid started fine
          (λ key. same key ∙ ap (λ world. p.get world key) world) mac mutex opens in
      (
        (put_unlocked json root run.0 run.1 report h).0,
        subst (Shows json root) seen (
            identity_json-Shows json root (save p run.0 run.1 c valid).0.0.state ble_connected
              held),
        booted,
        identity_json-Shows json root (init p later w').0.state ble_connected (
            subst (HasConfig json root) (sym kept.config)
              (copied_config-HasConfig json root _ held)),
      )

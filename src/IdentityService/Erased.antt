-- ===== src/IdentityService/Erased.antt =====
-- The defaults are there again when the board starts anew after a reset.
use typxen.Base.{
  ℕ, ◌≡◌, refl, sym, ap, ◌∙◌, Bool, true, false, not, Option, none, some, List, arith,
  if◌then◌else◌,
}
use typxen.Base.Text.{codes, same_text}
use typxen.Identity.Types.{IdentityState}
use typxen.Identity.Config.{
  validate, defaults, apply, apply_config, load, is_valid, identity_text_changed,
}
use typxen.IdentityService.Defs.{
  Status, ok, error, invalid_state, u8, got, no_overrides, Platform, Service, load_overrides,
  get_optional_string, get_optional_u8, get_optional_u16, init_loaded, version_text,
}
use typxen.IdentityService.Calls.{
  next, erasures, write_all, init, init_read, init_locked, init_ended, erase_identity, reset,
  reset_state, reset_stored,
}
use typxen.IdentityService.Writes.{IsStorage, written, next_ok, write_all-reads}
use typxen.IdentityService.Restarted.{test_ok}
use typxen.IdentityService.Survives.{tell_changed-get}

-- A state that asks for a restart if its texts are not those of another.
abbrev asked_from : IdentityState → IdentityState → IdentityState
asked_from old new = record new { restart_required = identity_text_changed old.config new.config }

same_choice : {A : Type 0} (test : Bool) (x : A) → (if test then x else x) ≡ x
same_choice true x = refl
same_choice false x = refl

apply-no_overrides :
    (chip_identity : List ℕ) (version : Option (List ℕ))
    → apply (defaults chip_identity version) (some no_overrides) ≡ defaults chip_identity version
unfolding apply apply_config defaults
apply-no_overrides chip_identity version = refl

-- Without overrides, the defaults are loaded.
load-none :
    (chip_identity : List ℕ) (version : Option (List ℕ))
    → load chip_identity version none ≡ defaults chip_identity version
unfolding load apply
load-none chip_identity version =
    same_choice (not (is_valid (validate (defaults chip_identity version).config false)))
      (defaults chip_identity version)

load-no_overrides :
    (chip_identity : List ℕ) (version : Option (List ℕ))
    → load chip_identity version (some no_overrides) ≡ defaults chip_identity version
unfolding load
load-no_overrides chip_identity version =
    let fallback = defaults chip_identity version in
    ap
      (λ candidate.
        if not (is_valid (validate candidate.config false)) then fallback else candidate)
      (apply-no_overrides chip_identity version)
    ∙ same_choice (not (is_valid (validate fallback.config false))) fallback

module _ {W : Type 0} (p : Platform W) where
  -- A board that starts over a storage that the keys of the identity were erased from.
  load_overrides-none :
      (w x : W)
      → p.open_readonly w ≡ ok
      → ((key : List ℕ)
          → same_text (codes "restart_req") key ≡ false
          → p.get w key ≡ written erasures key (p.get x key))
      → load_overrides p w ≡ got no_overrides
  unfolding load_overrides get_optional_string get_optional_u8 get_optional_u16 erasures same_text
  load_overrides-none w x opens h =
      rw
        (
          opens,
          h (codes "name") refl,
          h (codes "manufacturer") refl,
          h (codes "model") refl,
          h (codes "serial") refl,
          h (codes "hw_rev") refl,
          h (codes "sw_rev") refl,
          h (codes "batt_enabled") refl,
          h (codes "batt_min") refl,
          h (codes "batt_max") refl,
          h (codes "batt_current") refl,
          h (codes "batt_interval") refl,
          h (codes "batt_active_ms") refl,
        )
        refl

  init-none :
      (later : Service) (w : W) (chip_identity : List ℕ)
      → p.read_mac w ≡ (chip_identity, ok)
      → p.create_mutex w ≡ true
      → load_overrides p w ≡ got no_overrides
      → ((init p later w).2 ≡ ok)
        × ((init p later w).0.state ≡ defaults chip_identity (some (version_text p.version)))
  unfolding init init_read init_locked init_ended init_loaded
  init-none later w chip_identity mac mutex none_there =
      rw (mac, mutex, none_there)
        (refl, load-no_overrides chip_identity (some (version_text p.version)))

  request : Bool → W → W × Status
  request restart w = if restart then p.set w (codes "restart_req") (u8 1) else (w, ok)

  request-get :
      (s : IsStorage p) (restart : Bool) (w : W) (key : List ℕ)
      → same_text (codes "restart_req") key ≡ false
      → p.get (request restart w).0 key ≡ p.get w key
  unfolding request
  request-get s true w key h = s.set-other w (codes "restart_req") key (u8 1) h
  request-get s false w key h = refl

  erase_identity-get :
      (s : IsStorage p) (restart : Bool) (w : W) (key : List ℕ)
      → (erase_identity p restart w).1 ≡ ok
      → same_text (codes "restart_req") key ≡ false
      → p.get (erase_identity p restart w).0 key ≡ written erasures key (p.get w key)
  unfolding erase_identity request
  erase_identity-get s restart w key h other =
      let w1 = (p.open_readwrite w).0 in
      let w2 = (write_all p erasures w1).0 in
      let (o, opened) =
        next_ok (p.open_readwrite w)
          (λ w. next (write_all p erasures w) λ w. next (request restart w) p.commit) h in
      let (o', erased) =
        next_ok (write_all p erasures w1) (λ w. next (request restart w) p.commit)
          (ap (λ r. r.1) (sym opened) ∙ h) in
      let (o'', asked) =
        next_ok (request restart w2) p.commit (ap (λ r. r.1) (sym (opened ∙ erased)) ∙ h) in
      ap (λ r. p.get r.0 key) (opened ∙ erased ∙ asked)
      ∙ s.commit-get (request restart w2).0 key
      ∙ request-get s restart w2 key other
      ∙ write_all-reads p s erasures w1 key o'
      ∙ ap (written erasures key) (s.open-get w key)

  reset_stored_ok :
      (s : IsStorage p) (svc : Service) (defaults : IdentityState) (restart : Bool) (r : W × Status)
      → (reset_stored p svc defaults restart r).2 ≡ ok
      → (r.1 ≡ ok)
        × ((reset_stored p svc defaults restart r).0.state
            ≡ record defaults { restart_required = restart })
        × ((key : List ℕ) → p.get (reset_stored p svc defaults restart r).1 key ≡ p.get r.0 key)
  unfolding reset_stored
  reset_stored_ok s svc defaults restart (w, ok) h = (
    refl,
    refl,
    λ key.
        tell_changed-get p s svc.state.config.battery_current_percent
          (record svc { state = record defaults { restart_required = restart } }) w key,
  )
  reset_stored_ok s svc defaults restart (w, error e) h = absurd (ground arith)

  reset_ok :
      (svc : Service) (w : W)
      → (reset p svc w).2 ≡ ok
      → let restart = identity_text_changed svc.state.config (reset_state svc).config in
        reset p svc w ≡ reset_stored p svc (reset_state svc) restart (erase_identity p restart w)
  unfolding reset
  reset_ok svc w h =
      let restart = identity_text_changed svc.state.config (reset_state svc).config in
      test_ok (λ (r : Service × W × Status). r.2) svc.mutex (svc, w, error invalid_state)
        (reset_stored p svc (reset_state svc) restart (erase_identity p restart w)) refl h

  reset_state-defaults :
      (svc : Service)
      → reset_state svc ≡ defaults svc.chip_identity (some svc.state.firmware_revision)
  unfolding reset_state
  reset_state-defaults svc = load-none svc.chip_identity (some svc.state.firmware_revision)

  -- Over a storage that works as documented: where `reset` returns ESP_OK, the state is that of the
  -- defaults of the chip, but for the flag that asks for a restart, which is set if a text changed; and
  -- a board that starts over a storage with the values that were left, on the same chip, with a mutex
  -- and the namespace there to open, returns ESP_OK from `init` and has the defaults of the chip.
  pub reset-init :
      (s : IsStorage p) (svc later : Service) (w w' : W)
      → (reset p svc w).2 ≡ ok
      → ((key : List ℕ) → p.get w' key ≡ p.get (reset p svc w).1 key)
      → p.read_mac w' ≡ (svc.chip_identity, ok)
      → p.create_mutex w' ≡ true
      → p.open_readonly w' ≡ ok
      → let fresh = defaults svc.chip_identity (some svc.state.firmware_revision) in
        ((reset p svc w).0.state
          ≡ record fresh { restart_required = identity_text_changed svc.state.config fresh.config })
        × ((init p later w').2 ≡ ok)
        × ((init p later w').0.state ≡ defaults svc.chip_identity (some (version_text p.version)))
  reset-init s svc later w w' h same mac mutex opens =
      let restart = identity_text_changed svc.state.config (reset_state svc).config in
      let reduced = reset_ok svc w h in
      let (status, state, reads) =
        reset_stored_ok s svc (reset_state svc) restart (erase_identity p restart w)
          (ap (λ r. r.2) (sym reduced) ∙ h) in
      let (booted, loaded) = init-none later w' svc.chip_identity mac mutex (
        load_overrides-none w' w opens λ key other.
          same key
          ∙ ap (λ r. p.get r.1 key) reduced
          ∙ reads key
          ∙ erase_identity-get s restart w key status other) in
      (
        ap (λ r. r.0.state) reduced ∙ state ∙ ap (asked_from svc.state) (reset_state-defaults svc),
        booted,
        loaded,
      )

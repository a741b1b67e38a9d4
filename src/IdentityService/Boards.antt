-- ===== src/IdentityService/Boards.antt =====
-- No operation of the identity changes the board identifier.
use typxen.Base.{
  ℕ, zero, suc, ◌*◌, ◌≡◌, refl, ◌∙◌, Bool, true, false, not, Option, none, some, List, arith,
  if◌then◌else◌, replicate,
}
use typxen.Identity.Types.{Overrides, IdentityState}
use typxen.Identity.Text.{board_identifier}
use typxen.Identity.Config.{validate, defaults, apply, load, is_valid}
use typxen.Identity.Battery.{
  add_delta, count_activity, drop_loop, drop_once, record_successful_report, reset_battery,
}

defaults-board :
    (chip_identity : List ℕ) (version : Option (List ℕ))
    → (defaults chip_identity version).board_identifier
      ≡ board_identifier chip_identity (replicate 15 0)
unfolding defaults
defaults-board chip_identity version = refl

apply-board :
    (s : IdentityState) (o : Option Overrides) → (apply s o).board_identifier ≡ s.board_identifier
unfolding apply
apply-board s none = refl
apply-board s (some o) = refl

chosen-board :
    (fine : Bool) (fallback candidate : IdentityState)
    → candidate.board_identifier ≡ fallback.board_identifier
    → (if not fine then fallback else candidate).board_identifier ≡ fallback.board_identifier
chosen-board true fallback candidate h = h
chosen-board false fallback candidate h = refl

pub load-board :
    (chip_identity : List ℕ) (version : Option (List ℕ)) (overrides : Option Overrides)
    → (load chip_identity version overrides).board_identifier
      ≡ board_identifier chip_identity (replicate 15 0)
unfolding load
load-board chip_identity version overrides =
    let fallback = defaults chip_identity version in
    let candidate = apply fallback overrides in
    chosen-board (is_valid (validate candidate.config false)) fallback candidate
      (apply-board fallback overrides)
    ∙ defaults-board chip_identity version

drop_loop-board :
    (fuel interval_ms : ℕ) (s : IdentityState) (changed : Bool)
    → (drop_loop fuel interval_ms s changed).0.board_identifier ≡ s.board_identifier
unfolding drop_loop
drop_loop-board zero interval_ms s changed = refl
drop_loop-board (suc fuel) interval_ms s changed =
    ground (arith, drop_loop-board fuel interval_ms (drop_once interval_ms s) true)

count_activity-board :
    (s : IdentityState) (now_ms : ℕ)
    → (count_activity s now_ms).0.board_identifier ≡ s.board_identifier
unfolding count_activity
count_activity-board s now_ms =
    drop_loop-board (add_delta s now_ms).battery_active_ms
      (s.config.battery_drop_active_minutes * 60000) (add_delta s now_ms) false

pub record_successful_report-board :
    (s : IdentityState) (now_ms : ℕ) (active : Bool)
    → (record_successful_report s now_ms active).0.board_identifier ≡ s.board_identifier
unfolding record_successful_report
record_successful_report-board s now_ms active = ground (arith, count_activity-board s now_ms)

pub reset_battery-board :
    (s : IdentityState) → (reset_battery s).0.board_identifier ≡ s.board_identifier
unfolding reset_battery
reset_battery-board s = refl

-- ===== src/Identity/Valid.antt =====
-- A valid configuration stays valid when the battery changes.
use typxen.Base.{ℕ, zero, suc, ◌*◌, ◌≤◌, ◌<◌, ◌≡◌, refl, ◌∙◌, Bool, true, false, arith}
use typxen.Identity.Types.{Config, Validation, valid, IdentityState}
use typxen.Identity.Config.{validate_battery, validate_texts, validate, first_failure}
use typxen.Identity.Battery.{
  drop_percent, drop_once, add_delta, drop_loop, count_activity, record_successful_report,
  reset_battery,
}

-- What the tests of the battery establish.
pub record IsBattery (config : Config) : Type 0 where
  pub minimum : config.battery_minimum_percent < config.battery_maximum_percent
  pub maximum : config.battery_maximum_percent ≤ 100
  pub low : config.battery_minimum_percent ≤ config.battery_current_percent
  pub high : config.battery_current_percent ≤ config.battery_maximum_percent
  pub shortest : 1 ≤ config.battery_drop_active_minutes
  pub longest : config.battery_drop_active_minutes ≤ 1440

validate_battery-IsBattery : (c : Config) → validate_battery c ≡ valid → IsBattery c
unfolding validate_battery
validate_battery-IsBattery c h = ground arith

drop_percent-validate :
    (c : Config)
    → validate_battery c ≡ valid
    → validate_battery (record c { battery_current_percent = drop_percent c }) ≡ valid
unfolding validate_battery
drop_percent-validate c h = ground arith

full_percent-validate :
    (c : Config)
    → validate_battery c ≡ valid
    → validate_battery (record c { battery_current_percent = c.battery_maximum_percent }) ≡ valid
unfolding validate_battery
full_percent-validate c h = ground arith

pub first_failure_valid : (a b : Validation) → first_failure a b ≡ valid → (a ≡ valid) × (b ≡ valid)
first_failure_valid a b h = ground arith

pub both_valid : (a b : Validation) → a ≡ valid → b ≡ valid → first_failure a b ≡ valid
both_valid a b h k = ground arith

pub validate-parts :
    (c : Config) (empty : Bool)
    → validate c empty ≡ valid
    → (validate_texts c empty ≡ valid) × (validate_battery c ≡ valid)
unfolding validate
validate-parts c empty h = first_failure_valid (validate_texts c empty) (validate_battery c) h

percent-validate_texts :
    (c : Config) (percent : ℕ) (empty : Bool)
    → validate_texts (record c { battery_current_percent = percent }) empty ≡ validate_texts c empty
unfolding validate_texts
percent-validate_texts c percent empty = refl

-- The tests of the texts do not read the percentage.
with_percent-validate :
    (c : Config) (percent : ℕ) (empty : Bool)
    → validate c empty ≡ valid
    → validate_battery (record c { battery_current_percent = percent }) ≡ valid
    → validate (record c { battery_current_percent = percent }) empty ≡ valid
unfolding validate
with_percent-validate c percent empty h k =
    both_valid _ _ (percent-validate_texts c percent empty ∙ (validate-parts c empty h).0) k

drop_once-validate :
    (interval_ms : ℕ) (s : IdentityState) (empty : Bool)
    → validate s.config empty ≡ valid
    → validate (drop_once interval_ms s).config empty ≡ valid
drop_once-validate interval_ms s empty h =
    with_percent-validate s.config (drop_percent s.config) empty h
      (drop_percent-validate s.config (validate-parts s.config empty h).1)

drop_loop-validate :
    (fuel interval_ms : ℕ) (s : IdentityState) (changed empty : Bool)
    → validate s.config empty ≡ valid
    → validate (drop_loop fuel interval_ms s changed).0.config empty ≡ valid
unfolding drop_loop
drop_loop-validate zero interval_ms s changed empty h = h
drop_loop-validate (suc fuel) interval_ms s changed empty h = ground (
  arith,
  drop_loop-validate fuel interval_ms (drop_once interval_ms s) true empty
      (drop_once-validate interval_ms s empty h),
)

-- The loop ends below one interval.
drop_loop-lt :
    (fuel interval_ms : ℕ) (s : IdentityState) (changed : Bool)
    → 0 < interval_ms
    → s.battery_active_ms ≤ fuel
    → (drop_loop fuel interval_ms s changed).0.battery_active_ms < interval_ms
unfolding drop_loop
drop_loop-lt zero interval_ms s changed h f = omega arith
drop_loop-lt (suc fuel) interval_ms s changed h f = ground (
  arith,
  λ (le : interval_ms ≤ s.battery_active_ms).
      drop_loop-lt fuel interval_ms (drop_once interval_ms s) true h (omega arith),
)

count_activity-validate :
    (s : IdentityState) (now_ms : ℕ) (empty : Bool)
    → validate s.config empty ≡ valid
    → validate (count_activity s now_ms).0.config empty ≡ valid
unfolding count_activity
count_activity-validate s now_ms empty h =
    drop_loop-validate (add_delta s now_ms).battery_active_ms
      (s.config.battery_drop_active_minutes * 60000) (add_delta s now_ms) false empty h

-- A report keeps a valid configuration valid.
pub record_successful_report-valid :
    (s : IdentityState) (now_ms : ℕ) (active empty : Bool)
    → validate s.config empty ≡ valid
    → validate (record_successful_report s now_ms active).0.config empty ≡ valid
unfolding record_successful_report
record_successful_report-valid s now_ms active empty h =
    ground (arith, count_activity-validate s now_ms empty h)

count_activity-lt :
    (s : IdentityState) (now_ms : ℕ)
    → validate_battery s.config ≡ valid
    → (count_activity s now_ms).0.battery_active_ms < s.config.battery_drop_active_minutes * 60000
unfolding count_activity
count_activity-lt s now_ms h =
    let minutes = (validate_battery-IsBattery s.config h).shortest in
    drop_loop-lt (add_delta s now_ms).battery_active_ms
      (s.config.battery_drop_active_minutes * 60000) (add_delta s now_ms) false (omega arith)
      (omega arith)

-- With a valid configuration, and less than an interval counted before, a report leaves less than an
-- interval counted.
pub record_successful_report-lt :
    (s : IdentityState) (now_ms : ℕ) (active empty : Bool)
    → validate s.config empty ≡ valid
    → s.battery_active_ms < s.config.battery_drop_active_minutes * 60000
    → (record_successful_report s now_ms active).0.battery_active_ms
      < s.config.battery_drop_active_minutes * 60000
unfolding record_successful_report
record_successful_report-lt s now_ms active empty h lt =
    ground (arith, count_activity-lt s now_ms (validate-parts s.config empty h).1)

-- A full battery keeps a valid configuration valid.
pub reset_battery-valid :
    (s : IdentityState) (empty : Bool)
    → validate s.config empty ≡ valid
    → validate (reset_battery s).0.config empty ≡ valid
unfolding reset_battery
reset_battery-valid s empty h =
    with_percent-validate s.config s.config.battery_maximum_percent empty h
      (full_percent-validate s.config (validate-parts s.config empty h).1)

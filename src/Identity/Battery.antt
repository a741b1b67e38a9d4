-- ===== src/Identity/Battery.antt =====
-- The simulated battery: `record_successful_report`, `end_activity` and `reset_battery`.
use typxen.Base.{
  ℕ, zero, suc, ◌+◌, ◌-◌, ◌*◌, ◌%◌, ◌^◌, Bool, true, false, not, ◌||◌, if◌then◌else◌, ◌!=◌, ltb,
  leb,
}
use typxen.Identity.Types.{Config, IdentityState}

-- The percentage after one interval.
abbrev pub drop_percent : Config → ℕ
drop_percent config =
    if leb config.battery_current_percent config.battery_minimum_percent
    then config.battery_maximum_percent
    else (config.battery_current_percent - 1) % 2 ^ 8

-- The body of the `while` loop.
abbrev pub drop_once : ℕ → IdentityState → IdentityState
drop_once interval_ms state = record state {
  battery_active_ms = state.battery_active_ms - interval_ms;
  config = record (state.config) { battery_current_percent = drop_percent state.config };
}

-- The `while` loop. A round takes `interval_ms`, so `battery_active_ms` is fuel enough when the
-- interval is not 0.
unfoldable pub drop_loop : ℕ → ℕ → IdentityState → Bool → IdentityState × Bool
drop_loop zero interval_ms state changed = (state, changed)
drop_loop (suc fuel) interval_ms state changed =
    let rest = drop_loop fuel interval_ms (drop_once interval_ms state) true in
    if ltb state.battery_active_ms interval_ms then (state, changed) else rest

-- The assignments before the loop; `delta` wraps around if the clock goes back.
abbrev pub add_delta : IdentityState → ℕ → IdentityState
add_delta state now_ms =
    let delta = (2 ^ 64 + now_ms - state.last_success_ms) % 2 ^ 64 in
    record state {
      last_success_ms = now_ms;
      battery_active_ms = (state.battery_active_ms + delta) % 2 ^ 64;
    }

-- The part after the two early returns.
unfoldable pub count_activity : IdentityState → ℕ → IdentityState × Bool
unfolding drop_loop
count_activity state now_ms =
    let state' = add_delta state now_ms in
    drop_loop state'.battery_active_ms (state.config.battery_drop_active_minutes * 60000) state'
      false

unfoldable pub record_successful_report : IdentityState → ℕ → Bool → IdentityState × Bool
unfolding count_activity
record_successful_report state now_ms execution_active =
    if not execution_active || not state.config.battery_simulation_enabled
    then (record state { activity_open = false }, false)
    else if not state.activity_open
    then (record state { last_success_ms = now_ms; activity_open = true }, false)
    else count_activity state now_ms

unfoldable pub end_activity : IdentityState → IdentityState
end_activity state = record state { activity_open = false }

unfoldable pub reset_battery : IdentityState → IdentityState × Bool
reset_battery state = (
  record state {
    config = record (state.config) {
      battery_current_percent = state.config.battery_maximum_percent;
    };
    battery_active_ms = 0;
    activity_open = false;
  },
  state.config.battery_current_percent != state.config.battery_maximum_percent,
)

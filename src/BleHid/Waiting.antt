-- ===== src/BleHid/Waiting.antt =====
-- That the fuel of a wait is enough.
use typxen.Base.{ℕ, zero, suc, ◌-◌, ◌≤◌, ◌<◌, ◌≡◌, refl, arith, if◌then◌else◌, ltb}
use typxen.HidRuntime.Defs.{Shared}
use typxen.BleHid.Defs.{Service, Platform, wait_loop, scheduler_wait_ticks}

module _ {P : Type 0} (platform : Platform P) where
  abbrev slice_of : ℕ → ℕ
  slice_of total_ticks =
      if ltb (platform.ms_to_ticks 10) total_ticks then platform.ms_to_ticks 10 else total_ticks

  slice-le :
      (total_ticks fuel : ℕ)
      → 0 < platform.ms_to_ticks 10
      → total_ticks ≤ suc fuel
      → total_ticks - slice_of total_ticks ≤ fuel
  slice-le total_ticks fuel p h = ground arith

  wait_loop-enough :
      (fuel fuel' total_ticks : ℕ) (s : Shared (Service P))
      → 0 < platform.ms_to_ticks 10
      → total_ticks ≤ fuel
      → total_ticks ≤ fuel'
      → wait_loop platform fuel total_ticks s ≡ wait_loop platform fuel' total_ticks s
  unfolding wait_loop
  wait_loop-enough zero zero total_ticks s p h h' = refl
  wait_loop-enough zero (suc fuel') total_ticks s p h h' = ground arith
  wait_loop-enough (suc fuel) zero total_ticks s p h h' = ground arith
  wait_loop-enough (suc fuel) (suc fuel') total_ticks s p h h' =
      rw
        (wait_loop-enough fuel fuel' (total_ticks - slice_of total_ticks)
          (platform.delay (slice_of total_ticks) s) p (slice-le total_ticks fuel p h)
          (slice-le total_ticks fuel' p h'))
        refl

  -- Where 10 ms are at least a tick, a wait has enough fuel: more of it changes nothing.
  scheduler_wait_ticks-enough :
      (fuel total_ticks : ℕ) (s : Shared (Service P))
      → 0 < platform.ms_to_ticks 10
      → total_ticks ≤ fuel
      → wait_loop platform fuel total_ticks s ≡ scheduler_wait_ticks platform total_ticks s
  unfolding scheduler_wait_ticks
  scheduler_wait_ticks-enough fuel total_ticks s p h =
      wait_loop-enough fuel total_ticks total_ticks s p h (omega arith)

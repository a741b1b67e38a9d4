-- ===== src/Embedded.antt =====
-- The schedules that are linked into the firmware, and the SHA-256 of mbedTLS:
-- targets/esp32_cam/main/typx_embedded_schedules.c and
-- components/typx_protocol/src/typx_sha256_mbedtls.c. The bytes of the schedules and the functions of
-- mbedTLS are parameters; contexts and outputs are not NULL.
use typxen.Base.{ℕ, ◌≡◌, Bool, Option, none, some, ◌++◌, ◌+◌, List, [], if◌then◌else◌, ◌==◌}
use typxen.Base.Text.{codes}
use typxen.Protocol.Types.{Sha256Provider, VerifiedSchedule, esp32_cam_limits}
use typxen.Sha256.Digest.{sha256}
use typxen.Executor.Defs.{ExecutorError}
use typxen.Executor.Defs.{Event}
use typxen.LocalSchedule.Defs.{LocalResult, verify_and_run}
use typxen.BleHid.Defs.{Ble, Platform}
use typxen.BleHid.Run.{run_schedule_countdown}
pub mod Ends
pub mod Sample
mod Tests

-- What is used of mbedTLS; the numbers are its results, 0 for success.
pub record Mbedtls (C : Type 0) : Type 0 where
  pub init : C → C
  pub starts : C → ℕ × C
  pub update : List ℕ → C → ℕ × C
  pub finish : C → ℕ × List ℕ × C
  pub free : C → C

module _ {C : Type 0} (mbedtls : Mbedtls C) where
  unfoldable pub mbedtls_begin : C → Bool × C
  mbedtls_begin context =
      let (result, context') = mbedtls.starts (mbedtls.init context) in (result == 0, context')

  unfoldable pub mbedtls_update : List ℕ → C → Bool × C
  mbedtls_update bytes context =
      let (result, context') = mbedtls.update bytes context in (result == 0, context')

  -- The digest is `none` where the code returns false.
  unfoldable pub mbedtls_finish : C → Option (List ℕ) × C
  mbedtls_finish context =
      let (result, digest, context') = mbedtls.finish context in
      (if result == 0 then some digest else none, mbedtls.free context')

  unfoldable pub mbedtls_provider : Sha256Provider C
  unfolding mbedtls_begin mbedtls_update mbedtls_finish
  mbedtls_provider = record {
    begin = some mbedtls_begin;
    update = some mbedtls_update;
    finish = some mbedtls_finish;
  }

-- What the calls of mbedTLS promise where they return 0, with a relation of a context and the bytes
-- that it has taken: a context that has started has taken nothing, an update takes its bytes after those
-- before, and `finish` writes their SHA-256.
pub record IsMbedtls {C : Type 0} (mbedtls : Mbedtls C) (HasTaken : C → List ℕ → Type 0)
    : Type 0 where
  pub starts :
      (c : C)
      → (mbedtls.starts (mbedtls.init c)).0 ≡ 0
      → HasTaken (mbedtls.starts (mbedtls.init c)).1 []
  pub update :
      (c : C) (xs ys : List ℕ)
      → HasTaken c xs
      → (mbedtls.update ys c).0 ≡ 0
      → HasTaken (mbedtls.update ys c).1 (xs ++ ys)
  pub finish :
      (c : C) (xs : List ℕ)
      → HasTaken c xs
      → (mbedtls.finish c).0 ≡ 0
      → (mbedtls.finish c).1 ≡ sha256 xs

pub data LocalScheduleId : Type 0 where
  local_standard local_personal : LocalScheduleId

-- The bytes between the linked symbols.
pub record Linked : Type 0 where
  pub standard : List ℕ
  pub personal : List ℕ

unfoldable pub schedule_blob : Linked → LocalScheduleId → List ℕ
schedule_blob linked local_standard = linked.standard
schedule_blob linked local_personal = linked.personal

unfoldable pub embedded_schedule_name : LocalScheduleId → List ℕ
embedded_schedule_name local_standard = codes "standard"
embedded_schedule_name local_personal = codes "personal"

-- A run with its calls of the executor, which are only looked at.
abbrev pub Run : Type 0 → Type 0
Run P = List Event × Ble P

module _ {P C : Type 0} (platform : Platform P) (linked : Linked) (mbedtls : Mbedtls C) where
  unfoldable pub run_verified : VerifiedSchedule → Run P → ExecutorError × Run P
  unfolding run_schedule_countdown
  run_verified schedule (log, r) =
      let (e, log', r') = run_schedule_countdown platform schedule 5 r in (e, (log', r'))

  -- The context of mbedTLS is not set before.
  unfoldable pub embedded_schedule_run : LocalScheduleId → C → Ble P → LocalResult × Run P
  unfolding schedule_blob mbedtls_provider run_verified
  embedded_schedule_run schedule_id context r =
      verify_and_run (record { data_bytes = some (schedule_blob linked schedule_id) })
        esp32_cam_limits (mbedtls_provider mbedtls) context
        (record { run_verified = some run_verified }) ([], r)

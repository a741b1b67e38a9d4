-- ===== src/Embedded/Ends.antt =====
-- How a run of a schedule that is linked into the firmware ends.
use typxen.Base.{
  subst, ℕ, ◌≡◌, ◌≢◌, ◌⊎◌, inl, inr, refl, ap, sym, ◌∙◌, true, false, none, some, ◌+◌, length,
  length-drop, drop, List, [], arith, Bool-cases,
}
use typxen.Protocol.Types.{pass, header_bytes, ActionRecord, VerifiedSchedule, esp32_cam_limits}
use typxen.Protocol.Types.{ok as protocol_ok}
use typxen.Protocol.Bytes.{slice, read_exact, same_bytes}
use typxen.Protocol.Verify.{read_header, verify, is_verified}
use typxen.Protocol.Schedule.{IsSchedule}
use typxen.Protocol.Hashing.{Holds}
use typxen.Protocol.Digests.{IsDigesting, verify_payload_sha256-digest}
use typxen.Protocol.Verified.{schedule_of, verify_iff, read_header-IsHeaderOf}
use typxen.Sha256.Digest.{sha256, take_length}
use typxen.Protocol.Decoding.{IsBytes}
use typxen.Protocol.Reading.{IsExecutable, verify-IsExecutable}
use typxen.Executor.Defs.{ok}
use typxen.LocalSchedule.Defs.{LocalResult, read_memory, memory_reader, verify_and_run}
use typxen.LocalSchedule.Guarded.{memory_reader-GivesBytes, started, not_started, refused}
use typxen.BleHid.Defs.{Ble, Platform}
use typxen.BleHid.Run.{Outcome, run_schedule_countdown}
use typxen.BleHid.Ended.{Ends, run_schedule-Ends}
use typxen.Embedded.{
  Mbedtls, IsMbedtls, mbedtls_begin, mbedtls_update, mbedtls_finish, mbedtls_provider,
  LocalScheduleId, local_standard, local_personal, Linked, schedule_blob, Run, run_verified,
  embedded_schedule_run,
}

mbedtls-IsDigesting :
    {C : Type 0} (mbedtls : Mbedtls C) {HasTaken : C → List ℕ → Type 0}
    → IsMbedtls mbedtls HasTaken
    → IsDigesting sha256 HasTaken
        (mbedtls_begin mbedtls)
        (mbedtls_update mbedtls)
        (mbedtls_finish mbedtls)
unfolding mbedtls_begin mbedtls_update mbedtls_finish
mbedtls-IsDigesting mbedtls laws = record {
  begins = λ c h. laws.starts c (ground (arith, h));
  takes = λ c xs ys t h. laws.update c xs ys t (ground (arith, h));
  finishes = λ c xs ds t h.
      let worked : (mbedtls.finish c).0 ≡ 0 = ground (arith, h) in
      let written : (mbedtls.finish c).1 ≡ ds = ground (arith, h) in
      sym written ∙ laws.finish c xs t worked;
}

module _ {P : Type 0} (platform : Platform P) where
  -- A run of a verified schedule: refused with an error and no change exactly where the keyboard is not
  -- connected or a run is on, and otherwise ended.
  abbrev pub RefusedOrEnds : VerifiedSchedule → Ble P → Outcome P → Type 0
  RefusedOrEnds s r (e, log, r') =
      (((r.connected ≡ false) ⊎ (r.running ≡ true)) × (e ≢ ok) × (log ≡ []) × (r' ≡ r))
      ⊎ ((r.connected ≡ true) × (r.running ≡ false) × Ends s (e, log, r'))

  refused_or_ends :
      (s : VerifiedSchedule) (r : Ble P)
      → is_verified s ≡ true
      → RefusedOrEnds s r (run_schedule_countdown platform s 5 r)
  unfolding run_schedule_countdown
  refused_or_ends s r verified = elim (run_schedule-Ends platform s 5 none r) [
    | inr (_, connected, idle, ended) ↦ inr (connected, idle, ended)
    | inl (inl unverified, failed, nothing, same) ↦ absurd (ground (arith, verified, unverified))
    | inl (inr why, failed, nothing, same) ↦ inl (why, failed, nothing, same)
  ]

-- What the linked bytes hold where they are accepted: a header that passes its tests, with the SHA-256 of
-- the bytes after it, and a valid schedule, whose records are all safe to execute.
pub record IsScheduleOf (bytes : List ℕ) (s : VerifiedSchedule) : Type 0 where
  pub is : s ≡ schedule_of (memory_reader bytes) esp32_cam_limits s.header
  pub headed : read_header (memory_reader bytes) esp32_cam_limits ≡ pass s.header
  pub whole : length bytes ≡ header_bytes + s.header.payload_bytes
  pub digest : same_bytes 32 (sha256 (drop header_bytes bytes)) s.header.payload_sha256 ≡ true
  pub holds :
      (records : List ActionRecord) × IsSchedule
        (memory_reader bytes)
        esp32_cam_limits
        s.header
        records
  pub executable : IsExecutable s

memory_reader-Holds : (bytes : List ℕ) → Holds (read_exact (memory_reader bytes)) bytes
unfolding read_exact read_memory
memory_reader-Holds bytes offset n h = ground arith

drop_whole :
    (bytes : List ℕ) (offset n : ℕ)
    → length bytes ≡ offset + n
    → slice bytes offset n ≡ drop offset bytes
drop_whole bytes offset n h =
    take_length (drop offset bytes) n (omega (arith, length-drop offset bytes))

verify-IsScheduleOf :
    {C : Type 0} (mbedtls : Mbedtls C) {HasTaken : C → List ℕ → Type 0} (bytes : List ℕ)
    (context : C)
    → IsMbedtls mbedtls HasTaken
    → IsBytes bytes
    → (verify (memory_reader bytes) esp32_cam_limits (mbedtls_provider mbedtls) context).0
      ≡ protocol_ok
    → IsScheduleOf bytes
        (verify (memory_reader bytes) esp32_cam_limits (mbedtls_provider mbedtls) context).1
unfolding mbedtls_provider
verify-IsScheduleOf mbedtls bytes context laws h accepted =
    let reader = memory_reader bytes in
    let given = memory_reader-GivesBytes bytes h in
    let provider = mbedtls_provider mbedtls in
    let (header, records, is, s) =
      (verify_iff reader esp32_cam_limits provider context given).0 accepted in
    let sizes = read_header-IsHeaderOf reader esp32_cam_limits given is.headed in
    let whole : length bytes ≡ header_bytes + header.payload_bytes =
      omega (arith, sizes.exact_size, sizes.exact_payload) in
    let digest =
      verify_payload_sha256-digest (mbedtls-IsDigesting mbedtls laws) reader header bytes context
        (memory_reader-Holds bytes) (omega arith) is.hashed in
    let executable = verify-IsExecutable reader esp32_cam_limits provider context given accepted in
    subst (IsScheduleOf bytes) (sym s) (record {
      is = refl;
      headed = is.headed;
      whole = whole;
      digest = rw (drop_whole bytes header_bytes header.payload_bytes whole) at digest;
      holds = (records, is.holds);
      executable = subst IsExecutable s executable;
    })

module _ {P C : Type 0} (platform : Platform P) (linked : Linked) (mbedtls : Mbedtls C) where
  -- The call for these bytes: nothing is executed, with a protocol error, as `verify` does not accept the
  -- bytes; or the schedule that they hold is run, or refused by the keyboard.
  abbrev pub RunsItsSchedule : List ℕ → C → Ble P → LocalResult × Run P → Type 0
  RunsItsSchedule bytes context r o =
      ((o.0.execution_started ≡ false)
        × (o.0.protocol_error ≢ protocol_ok)
        × ((verify (memory_reader bytes) esp32_cam_limits (mbedtls_provider mbedtls) context).0
            ≢ protocol_ok)
        × (o.1.0 ≡ [])
        × (o.1.1 ≡ r))
      ⊎ ((o.0.execution_started ≡ true)
          × (o.0.protocol_error ≡ protocol_ok)
          × ((s : VerifiedSchedule) × IsScheduleOf bytes s
              × RefusedOrEnds platform s r (o.0.executor_error, o.1.0, o.1.1)))

  -- `embedded_schedule_run` for the bytes.
  abbrev run_bytes : List ℕ → C → Ble P → LocalResult × Run P
  run_bytes bytes context r =
      verify_and_run (record { data_bytes = some bytes }) esp32_cam_limits
        (mbedtls_provider mbedtls) context
        (record { run_verified = some (run_verified platform linked mbedtls) }) ([], r)

  run_bytes-RunsItsSchedule :
      {HasTaken : C → List ℕ → Type 0} (bytes : List ℕ) (context : C) (r : Ble P)
      → IsMbedtls mbedtls HasTaken
      → IsBytes bytes
      → RunsItsSchedule bytes context r (run_bytes bytes context r)
  unfolding run_verified
  run_bytes-RunsItsSchedule bytes context r laws h =
      let provider = mbedtls_provider mbedtls in
      let run = run_verified platform linked mbedtls in
      let after = (run_bytes bytes context r).1 in
      elim (Bool-cases (run_bytes bytes context r).0.execution_started) [
        | inr off ↦
            let same = not_started bytes esp32_cam_limits provider context run ([], r) off in
            let (failed, unaccepted) =
              refused bytes esp32_cam_limits provider context run ([], r) h off in
            inl
              (off, failed, unaccepted, ap (λ (x : Run P). x.0) same, ap (λ (x : Run P). x.1) same)
        | inl on ↦
            let (accepted, fine, error, ran) =
              started bytes esp32_cam_limits provider context run ([], r) on in
            let s = (verify (memory_reader bytes) esp32_cam_limits provider context).1 in
            let whole = verify-IsScheduleOf mbedtls bytes context laws h accepted in
            let o = run_schedule_countdown platform s 5 r in
            inr (
              on,
              fine,
              (
                s,
                whole,
                subst (λ e. RefusedOrEnds platform s r (e, after.0, after.1)) (sym error)
                    (subst (λ (x : Run P). RefusedOrEnds platform s r (o.0, x.0, x.1)) (sym ran)
                      (refused_or_ends platform s r whole.executable.verified)),
              ),
            )
      ]

  -- For linked bytes and a mbedTLS that keeps its promises. Where no execution is started, there is a
  -- protocol error, the linked bytes of the id are not accepted by `verify`, nothing is typed and the
  -- keyboard is as before. Where one is started, there is no protocol error, and it is of the schedule
  -- that the linked bytes of the id hold: the header passes its tests and has the SHA-256 of the bytes
  -- after it, and the records are those of a valid schedule and all safe to execute. This run is
  -- refused, with an error and no change, exactly where the keyboard is not connected or a run is on;
  -- otherwise it ends: with no run on and no observer, having pressed each key only with all keys
  -- released and no stop seen, and typed the first keys of the schedule in order; if the result is OK it
  -- has typed all of them, the last reports that were sent lift the keyboard and the consumer keys, and
  -- no stop is pending.
  pub embedded_schedule_run-Ends :
      {HasTaken : C → List ℕ → Type 0} (id : LocalScheduleId) (context : C) (r : Ble P)
      → IsMbedtls mbedtls HasTaken
      → IsBytes linked.standard
      → IsBytes linked.personal
      → let bytes : List ℕ = elim id [
        | local_standard ↦ linked.standard
        | local_personal ↦ linked.personal
      ] in
        RunsItsSchedule bytes context r (embedded_schedule_run platform linked mbedtls id context r)
  unfolding embedded_schedule_run schedule_blob
  embedded_schedule_run-Ends local_standard context r laws standard personal =
      run_bytes-RunsItsSchedule linked.standard context r laws standard
  embedded_schedule_run-Ends local_personal context r laws standard personal =
      run_bytes-RunsItsSchedule linked.personal context r laws personal

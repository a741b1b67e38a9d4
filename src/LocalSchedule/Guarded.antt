-- ===== src/LocalSchedule/Guarded.antt =====
-- The runner is called for a verified schedule only.
use typxen.Base.{ℕ, ◌≡◌, ◌≢◌, length, true, false, some, List, arith, All-take, All-drop, drop}
use typxen.Protocol.Types.{ok, Sha256Provider, Limits, VerifiedSchedule}
use typxen.Protocol.Bytes.{read_exact}
use typxen.Protocol.Verify.{verify}
use typxen.Protocol.Decoding.{IsByte, IsBytes}
use typxen.Protocol.Verified.{GivesBytes, verify_iff, read_header-IsHeaderOf}
use typxen.Protocol.Reading.{IsExecutable, verify-IsExecutable}
use typxen.Executor.Defs.{ExecutorError}
use typxen.LocalSchedule.Defs.{LocalResult, read_memory, memory_reader, verify_and_run}

pub memory_reader-GivesBytes :
    (memory : List ℕ) → IsBytes memory → GivesBytes (memory_reader memory)
unfolding read_exact read_memory
memory_reader-GivesBytes memory h offset n bytes e =
    let whole = All-take IsByte n (drop offset memory) (All-drop IsByte offset memory h) in
    ground (arith, whole)

module _ {C D : Type 0} (memory : List ℕ) (limits : Limits) (sha256 : Sha256Provider D) (d : D)
    (run : VerifiedSchedule → C → ExecutorError × C) (c : C) where
  abbrev outcome : LocalResult × C
  outcome =
      verify_and_run (record { data_bytes = some memory }) limits sha256 d
        (record { run_verified = some run }) c

  pub started :
      outcome.0.execution_started ≡ true
      → let v = verify (memory_reader memory) limits sha256 d in
        (v.0 ≡ ok)
        × (outcome.0.protocol_error ≡ ok)
        × (outcome.0.executor_error ≡ (run v.1 c).0)
        × (outcome.1 ≡ (run v.1 c).1)
  unfolding verify_and_run
  started h = ground arith

  pub not_started : outcome.0.execution_started ≡ false → outcome.1 ≡ c
  unfolding verify_and_run
  not_started h = ground arith

  unread :
      outcome.0.execution_started ≡ false
      → (outcome.0.protocol_error ≢ ok)
        × ((verify (memory_reader memory) limits sha256 d).0 ≡ ok → length memory ≡ 0)
  unfolding verify_and_run
  unread h = ground arith

  -- For a memory of bytes: if nothing was executed, the schedule is not one that `verify` accepts.
  pub refused :
      IsBytes memory
      → outcome.0.execution_started ≡ false
      → (outcome.0.protocol_error ≢ ok) × ((verify (memory_reader memory) limits sha256 d).0 ≢ ok)
  refused h e = (
    (unread e).0,
    λ accepted.
        let given = memory_reader-GivesBytes memory h in
        let (header, records, is, _) =
          (verify_iff (memory_reader memory) limits sha256 d given).0 accepted in
        let size =
          (read_header-IsHeaderOf (memory_reader memory) limits given is.headed).exact_size in
        omega (arith, (unread e).1 accepted),
  )

  -- For a memory of bytes: if execution started, the runner was called once, with a schedule that is verified and whose
  -- records are all safe to execute, and its error is the result's.
  pub verify_and_run-IsExecutable :
      IsBytes memory
      → outcome.0.execution_started ≡ true
      → (s : VerifiedSchedule) × IsExecutable s
        × (outcome.0.executor_error ≡ (run s c).0)
        × (outcome.1 ≡ (run s c).1)
  verify_and_run-IsExecutable h e =
      let (accepted, _, error, context) = started e in
      (
        (verify (memory_reader memory) limits sha256 d).1,
        verify-IsExecutable (memory_reader memory) limits sha256 d
            (memory_reader-GivesBytes memory h) accepted,
        error,
        context,
      )

-- ===== src/LocalSchedule/Defs.antt =====
-- `read_memory` and `typx_local_schedule_verify_and_run`.
use typxen.Base.{
  ℕ, ◌-◌, Bool, true, false, not, ◌||◌, Option, none, some, List, if◌then◌else◌, ◌==◌, ltb, length,
}
use typxen.Protocol.Types.{
  ProtocolError, header_invalid, Reader, Sha256Provider, Limits, VerifiedSchedule,
}
use typxen.Protocol.Bytes.{slice}
use typxen.Protocol.Verify.{verify, is_ok}
use typxen.Executor.Defs.{ExecutorError, not_verified}

-- `size` is the length of `data`.
pub record Blob : Type 0 where
  pub data_bytes : Option (List ℕ)

pub record Runner (C : Type 0) : Type 0 where
  pub run_verified : Option (VerifiedSchedule → C → ExecutorError × C)

pub record LocalResult : Type 0 where
  pub execution_started : Bool
  pub protocol_error : ProtocolError
  pub executor_error : ExecutorError

unfoldable pub read_memory : List ℕ → ℕ → ℕ → Option (List ℕ)
read_memory memory offset size =
    if ltb (length memory) offset || ltb (length memory - offset) size
    then none
    else some (slice memory offset size)

abbrev pub memory_reader : List ℕ → Reader
memory_reader memory = record { size_bytes = length memory; read_at = some (read_memory memory) }

-- The initial value of `result`.
abbrev pub no_result : LocalResult
no_result = record {
  execution_started = false;
  protocol_error = header_invalid;
  executor_error = not_verified;
}

module _ {C : Type 0} where
  -- The part after `typx_protocol_v1_verify`.
  abbrev after_verify :
      (VerifiedSchedule → C → ExecutorError × C)
      → ProtocolError
      → VerifiedSchedule
      → C
      → LocalResult × C
  after_verify run_verified protocol_error schedule c =
      let (e, c') = run_verified schedule c in
      if not (is_ok protocol_error)
      then (record no_result { protocol_error = protocol_error }, c)
      else (
        record { execution_started = true; protocol_error = protocol_error; executor_error = e },
        c',
      )

  unfoldable pub verify_and_run :
      {D : Type 0} → Blob → Limits → Sha256Provider D → D → Runner C → C → LocalResult × C
  unfolding verify
  verify_and_run blob limits sha256 d runner c = elim blob.data_bytes [
    | none ↦ (no_result, c)
    | some memory ↦ elim runner.run_verified [
      | none ↦ (no_result, c)
      | some run_verified ↦
          if length memory == 0
          then (no_result, c)
          else let v = verify (memory_reader memory) limits sha256 d in
            after_verify run_verified v.0 v.1 c
    ]
  ]

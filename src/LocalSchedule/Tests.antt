-- ===== src/LocalSchedule/Tests.antt =====
-- The sample schedule, run by a runner that counts its calls.
use typxen.Base.{ℕ, suc, ◌≡◌, refl, true, some}
use typxen.Protocol.Types.{VerifiedSchedule, esp32_cam_limits}
use typxen.Protocol.Bytes.{read_u16_le, read_u32_le, read_u64_le, read_exact, all_zero, same_bytes}
use typxen.Protocol.Record.{
  supported_keycode, record_fields, delay_fault, flags_fault, decode_record, read_record_unverified,
}
use typxen.Protocol.Payload.{verify_payload_sha256}
use typxen.Protocol.Validate.{check_record, validate_from, validate_records}
use typxen.Protocol.Verify.{
  check_arguments, check_format, header_fields, check_header, read_header, verify,
}
use typxen.Protocol.Reading.{IsExecutable}
use typxen.Protocol.Sample.{image, image-IsBytes, fixed_sha256}
use typxen.Executor.Defs.{ExecutorError}
use typxen.LocalSchedule.Defs.{LocalResult, read_memory, verify_and_run}
use typxen.LocalSchedule.Guarded.{verify_and_run-IsExecutable}

abbrev count_call : VerifiedSchedule → ℕ → ExecutorError × ℕ
count_call schedule calls = (ExecutorError.ok, suc calls)

abbrev sample_result : LocalResult × ℕ
sample_result =
    verify_and_run (record { data_bytes = some image }) esp32_cam_limits (fixed_sha256 7) 0
      (record { run_verified = some count_call }) 4

sample_starts : sample_result.0.execution_started ≡ true
unfolding verify_and_run read_memory verify read_header check_arguments check_format header_fields
    check_header read_u16_le read_u32_le read_u64_le read_exact all_zero same_bytes
    supported_keycode record_fields delay_fault flags_fault decode_record read_record_unverified
    verify_payload_sha256 check_record validate_from validate_records esp32_cam_limits
sample_starts = refl

verify_and_run-IsExecutable_example :
    (s : VerifiedSchedule) × IsExecutable s
    × (sample_result.0.executor_error ≡ (count_call s 4).0)
    × (sample_result.1 ≡ (count_call s 4).1)
verify_and_run-IsExecutable_example =
    verify_and_run-IsExecutable image esp32_cam_limits (fixed_sha256 7) 0 count_call 4 image-IsBytes
      sample_starts

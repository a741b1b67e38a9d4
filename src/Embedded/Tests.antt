-- ===== src/Embedded/Tests.antt =====
-- The sample schedule as the linked one, typed over a stack that sends every report.
use typxen.Base.{arith, true, ◌≡◌, refl, [], ◌∷◌}
use typxen.Protocol.Types.{esp32_cam_limits}
use typxen.Protocol.Bytes.{read_u16_le, read_u32_le, read_u64_le, read_exact, all_zero, same_bytes}
use typxen.Protocol.Record.{
  supported_keycode, record_fields, delay_fault, flags_fault, decode_record, read_record_unverified,
}
use typxen.Protocol.Payload.{hash_loop, compare_digest, verify_payload_sha256}
use typxen.Protocol.Validate.{check_record, validate_from, validate_records}
use typxen.Protocol.Verify.{
  check_arguments, check_format, header_fields, check_header, read_header, verify,
}
use typxen.LocalSchedule.Defs.{read_memory, verify_and_run}
use typxen.BleHid.Sample.{stack, keyboard}
use typxen.Embedded.{Linked, local_standard, embedded_schedule_run}
use typxen.Embedded.Ends.{RunsItsSchedule, embedded_schedule_run-Ends}
use typxen.Embedded.Sample.{signed, signed-IsBytes, one_digest, one_digest-IsMbedtls}

abbrev linked : Linked
linked = record { standard = signed; personal = 1 ∷ 2 ∷ [] }

standard_starts :
    (embedded_schedule_run stack linked one_digest local_standard [] keyboard).0.execution_started
    ≡ true
unfolding embedded_schedule_run verify_and_run read_memory verify read_header check_arguments
    check_format header_fields check_header read_u16_le read_u32_le read_u64_le read_exact all_zero
    same_bytes supported_keycode record_fields delay_fault flags_fault decode_record
    read_record_unverified hash_loop compare_digest verify_payload_sha256 check_record validate_from
    validate_records esp32_cam_limits one_digest
standard_starts = refl

embedded_schedule_run-Ends_example :
    RunsItsSchedule stack linked one_digest signed [] keyboard
      (embedded_schedule_run stack linked one_digest local_standard [] keyboard)
embedded_schedule_run-Ends_example =
    embedded_schedule_run-Ends stack linked one_digest local_standard [] keyboard
      one_digest-IsMbedtls signed-IsBytes (omega arith)

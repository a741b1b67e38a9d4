-- ===== src/Protocol/Record.antt =====
-- One action record: `supported_keycode`, `decode_record`, `read_record_unverified`.
use typxen.Base.{ℕ, ◌+◌, ◌*◌, Bool, not, ◌&&◌, ◌||◌, List, bit_and, ◌==◌, ◌!=◌, ltb, leb}
use typxen.Protocol.Types.{
  reader_error, reserved_field_nonzero, flags_invalid, delay_invalid, modifier_invalid,
  keycode_unsupported, Reader, ActionRecord, header_bytes, record_bytes, flag_source,
  flag_technical, flag_final_cleanup, flag_release_all, Checked, pass, ◌>>=◌, ◌>>◌, fail_if,
  or_fail,
}
use typxen.Protocol.Bytes.{byte, read_u16_le, read_u32_le, read_exact, all_zero}

unfoldable pub supported_keycode : ℕ → Bool
supported_keycode keycode =
    (leb 0x04 keycode && leb keycode 0x31)
    || ((leb 0x33 keycode && leb keycode 0x38)
        || (keycode == 0x4a || (keycode == 0x4c || (keycode == 0x4d || keycode == 0x4f))))

-- The assignments to `record->…`.
unfoldable pub record_fields : List ℕ → ActionRecord
record_fields bytes = record {
  wait_before_key_down_us = read_u32_le bytes 0;
  key_down_hold_us = read_u32_le bytes 4;
  wait_after_release_us = read_u32_le bytes 8;
  source_index = read_u32_le bytes 12;
  modifier = byte bytes 16;
  keycode = byte bytes 17;
  flags = read_u16_le bytes 18;
}

unfoldable pub delay_fault : ℕ → ActionRecord → Bool
delay_fault max_delay_us r =
    ltb max_delay_us r.wait_before_key_down_us
    || (ltb max_delay_us r.key_down_hold_us
        || (ltb max_delay_us r.wait_after_release_us || r.key_down_hold_us != 8000))

-- The flag tests at the end; `~0x000f` on a uint16_t is 0xfff0.
unfoldable pub flags_fault : ℕ → Bool
flags_fault flags =
    bit_and flags 0xfff0 != 0
    || (bit_and flags flag_release_all == 0
        || ((bit_and flags 0x0003 != flag_source && bit_and flags 0x0003 != flag_technical)
            || (bit_and flags flag_final_cleanup != 0 && bit_and flags 0x0003 != flag_technical)))

-- `(uint8_t)~0x03` is 0xfc.
unfoldable pub decode_record : List ℕ → ℕ → Checked ActionRecord
decode_record bytes max_delay_us = do
  fail_if (not (all_zero bytes 22 10)) reserved_field_nonzero
  fail_if (byte bytes 20 != 1 || byte bytes 21 != 1) flags_invalid
  let r = record_fields bytes
  fail_if (delay_fault max_delay_us r) delay_invalid
  fail_if (bit_and r.modifier 0xfc != 0) modifier_invalid
  fail_if (not (supported_keycode r.keycode)) keycode_unsupported
  fail_if (flags_fault r.flags) flags_invalid
  pass r

unfoldable pub read_record_unverified : Reader → ℕ → ℕ → Checked ActionRecord
read_record_unverified reader index max_delay_us = do
  bytes ←
      or_fail (read_exact reader (header_bytes + index * record_bytes) record_bytes) reader_error
  decode_record bytes max_delay_us

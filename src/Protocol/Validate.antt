-- ===== src/Protocol/Validate.antt =====
-- `validate_records`: the pass over all records.
use typxen.Base.{
  ℕ, zero, suc, ◌+◌, ◌-◌, ◌^◌, Bool, not, true, false, ◌&&◌, ◌||◌, List, [], ◌∷◌, bit_and, ◌==◌,
  ◌!=◌, ltb, leb, get_or,
}
use typxen.Protocol.Types.{
  source_index_invalid, final_cleanup_invalid, integer_overflow, total_duration_invalid, Reader,
  Limits, Header, ActionRecord, flag_source, flag_final_cleanup, Checked, pass, ◌>>=◌, ◌>>◌,
  fail_if,
}
use typxen.Protocol.Record.{read_record_unverified}

abbrev pub cleanup_modifiers : List ℕ
cleanup_modifiers = 0x00 ∷ 0x03 ∷ 0x00 ∷ []

abbrev pub cleanup_keycodes : List ℕ
cleanup_keycodes = 0x29 ∷ 0x4d ∷ 0x4c ∷ []

unfoldable pub source_fault : Header → ℕ → ActionRecord → Bool
source_fault header previous r =
    ltb r.source_index previous
    || (ltb header.total_source_characters r.source_index
        || (bit_and r.flags flag_source != 0 && r.source_index == 0))

abbrev pub marked_cleanup : ActionRecord → Bool
marked_cleanup r = bit_and r.flags flag_final_cleanup != 0

-- The keys of the record at `cleanup_index` are not the ones of the tables.
unfoldable pub cleanup_keys_fault : ℕ → ActionRecord → Bool
cleanup_keys_fault cleanup_index r =
    r.modifier != get_or cleanup_modifiers cleanup_index 0
    || r.keycode != get_or cleanup_keycodes cleanup_index 0

abbrev pub differ : Bool → Bool → Bool
differ true b = not b
differ false b = b

unfoldable pub duration : ActionRecord → ℕ
duration r = r.wait_before_key_down_us + r.key_down_hold_us + r.wait_after_release_us

-- The body of the loop behind the read; it gives the new `total_duration`.
unfoldable pub check_record : Header → ℕ → ℕ → ℕ → ActionRecord → Checked ℕ
unfolding source_fault cleanup_keys_fault duration
check_record header index previous total r = do
  fail_if (source_fault header previous r) source_index_invalid
  let should_be_cleanup = leb (header.action_count - 3) index
  fail_if (differ (marked_cleanup r) should_be_cleanup) final_cleanup_invalid
  fail_if (should_be_cleanup && cleanup_keys_fault (index - (header.action_count - 3)) r)
      final_cleanup_invalid
  fail_if (ltb (2 ^ 64 - 1 - total) (duration r)) integer_overflow
  pass (total + duration r)

-- The loop, with the rounds that are left; it gives the final `total_duration`.
unfoldable pub validate_from : Reader → Limits → Header → ℕ → ℕ → ℕ → ℕ → Checked ℕ
validate_from reader limits header zero index previous total = pass total
validate_from reader limits header (suc rounds) index previous total = do
  r ← read_record_unverified reader index limits.max_individual_delay_us
  total' ← check_record header index previous total r
  validate_from reader limits header rounds (index + 1) r.source_index total'

unfoldable pub validate_records : Reader → Limits → Header → Checked (Unit {0})
unfolding validate_from
validate_records reader limits header = do
  fail_if (ltb header.action_count 3) final_cleanup_invalid
  total ← validate_from reader limits header header.action_count 0 0 0
  fail_if (not (total == header.total_expected_duration_us && ltb 0 total)) total_duration_invalid

-- ===== src/Protocol/Schedule.antt =====
-- The pass over the records against a description of a schedule as a list of records.
use typxen.Base.{
  ap, ℕ, zero, suc, ◌+◌, ◌-◌, ◌^◌, ◌≤◌, ◌<◌, ◌≡◌, ◌≢◌, ◌↔◌, refl, List, [], ◌∷◌, arith, length,
  get_or, leb, bit_and,
}
use typxen.Protocol.Types.{
  Reader, Limits, Header, ActionRecord, flag_source, Checked, pass, fail, ◌>>=◌,
}
use typxen.Protocol.Record.{read_record_unverified}
use typxen.Protocol.Validate.{
  cleanup_modifiers, cleanup_keycodes, marked_cleanup, duration, check_record, validate_from,
  validate_records,
}

-- The reader holds these records from an index on.
abbrev pub ReadsAs : Reader → ℕ → ℕ → List ActionRecord → Type 0
ReadsAs reader max_delay index [] = Unit
ReadsAs reader max_delay index (r ∷ rs) =
    (read_record_unverified reader index max_delay ≡ pass r)
    × ReadsAs reader max_delay (index + 1) rs

-- The source indices do not fall, stay within the source, and start at 1 for source characters.
abbrev pub SourcesFrom : ℕ → ℕ → List ActionRecord → Type 0
SourcesFrom characters previous [] = Unit
SourcesFrom characters previous (r ∷ rs) =
    (previous ≤ r.source_index)
    × (r.source_index ≤ characters)
    × (bit_and r.flags flag_source ≢ 0 → r.source_index ≢ 0)
    × SourcesFrom characters r.source_index rs

-- The last three records, and no others, are marked as the cleanup, and hold its keys in order.
abbrev pub EndsInCleanup : List ActionRecord → Type 0
EndsInCleanup [] = Unit
EndsInCleanup (r ∷ rs) =
    (marked_cleanup r ≡ leb (length rs) 2)
    × (length rs ≤ 2
        → (r.modifier ≡ get_or cleanup_modifiers (2 - length rs) 0)
          × (r.keycode ≡ get_or cleanup_keycodes (2 - length rs) 0))
    × EndsInCleanup rs

pub total_duration : List ActionRecord → ℕ
total_duration [] = 0
total_duration (r ∷ rs) = duration r + total_duration rs

-- The records of a valid schedule.
pub record IsSchedule (reader : Reader) (limits : Limits) (header : Header)
    (records : List ActionRecord) : Type 0 where
  pub counted : length records ≡ header.action_count
  pub enough : 3 ≤ header.action_count
  pub stored : ReadsAs reader limits.max_individual_delay_us 0 records
  pub sources : SourcesFrom header.total_source_characters 0 records
  pub cleanup : EndsInCleanup records
  pub lasts : total_duration records ≡ header.total_expected_duration_us
  pub takes_time : 0 < total_duration records

-- What one round asks of its record, of which `rest` others follow.
abbrev Accepts : Header → ℕ → ActionRecord → ℕ → Type 0
Accepts header previous r rest =
    (previous ≤ r.source_index)
    × (r.source_index ≤ header.total_source_characters)
    × (bit_and r.flags flag_source ≢ 0 → r.source_index ≢ 0)
    × (marked_cleanup r ≡ leb rest 2)
    × (rest ≤ 2
        → (r.modifier ≡ get_or cleanup_modifiers (2 - rest) 0)
          × (r.keycode ≡ get_or cleanup_keycodes (2 - rest) 0))

cleanup_position :
    (count index rest : ℕ)
    → index + suc rest ≡ count
    → 3 ≤ count
    → (leb (count - 3) index ≡ leb rest 2) × (rest ≤ 2 → index - (count - 3) ≡ 2 - rest)
cleanup_position count index rest e m = ground arith

check_record_pass :
    (header : Header) (index previous total : ℕ) (r : ActionRecord) (rest : ℕ) {total' : ℕ}
    → index + suc rest ≡ header.action_count
    → 3 ≤ header.action_count
    → check_record header index previous total r ≡ pass total'
    → Accepts header previous r rest × (total' ≡ total + duration r)
unfolding check_record
check_record_pass header index previous total r rest e m h =
    ground (arith, cleanup_position header.action_count index rest e m)

check_record-Accepts :
    (header : Header) (index previous total : ℕ) (r : ActionRecord) (rest : ℕ)
    → index + suc rest ≡ header.action_count
    → 3 ≤ header.action_count
    → Accepts header previous r rest
    → total + duration r < 2 ^ 64
    → check_record header index previous total r ≡ pass (total + duration r)
unfolding check_record
check_record-Accepts header index previous total r rest e m a h =
    ground (arith, cleanup_position header.action_count index rest e m)

-- The records that a pass has read.
abbrev Passed : Reader → Limits → Header → ℕ → ℕ → ℕ → ℕ → ℕ → List ActionRecord → Type 0
Passed reader limits header rounds index previous total total' rs =
    (length rs ≡ rounds)
    × ReadsAs reader limits.max_individual_delay_us index rs
    × SourcesFrom header.total_source_characters previous rs
    × EndsInCleanup rs
    × (total' ≡ total + total_duration rs)

>>=-pass {ℓ κ} :
    {A : Type ℓ} {B : Type κ} (m : Checked A) (f : A → Checked B) {b : B}
    → (m >>= f) ≡ pass b
    → (a : A) × (m ≡ pass a) × (f a ≡ pass b)
>>=-pass (pass a) f h = (a, refl, h)
>>=-pass (fail e) f h = cc

validate_from_sound :
    (reader : Reader) (limits : Limits) (header : Header) (rounds index previous total : ℕ)
    {total' : ℕ}
    → index + rounds ≡ header.action_count
    → 3 ≤ header.action_count
    → validate_from reader limits header rounds index previous total ≡ pass total'
    → (rs : List ActionRecord) × Passed reader limits header rounds index previous total total' rs
unfolding validate_from total_duration
validate_from_sound reader limits header zero index previous total e m h =
    ([], (refl, tt, tt, tt, ground arith))
validate_from_sound reader limits header (suc rounds) index previous total {total'} e m h =
    let (r, read, checked) =
      >>=-pass (read_record_unverified reader index limits.max_individual_delay_us) _ h in
    let (total'', accepted, rest) =
      >>=-pass (check_record header index previous total r) _ checked in
    let (rs, passed) =
      validate_from_sound reader limits header rounds (index + 1) r.source_index total''
        (omega arith) m rest in
    let (accepts, sum) = check_record_pass header index previous total r rounds e m accepted in
    (
      r ∷ rs,
      (
        ap suc passed.0,
        (read, passed.1),
        (accepts.0, accepts.1, accepts.2, passed.2),
        (rw passed.0 accepts.3, rw passed.0 accepts.4, passed.3),
        omega (arith, passed.4, sum),
      ),
    )

validate_from_complete :
    (reader : Reader) (limits : Limits) (header : Header) (rounds index previous total total' : ℕ)
    (rs : List ActionRecord)
    → index + rounds ≡ header.action_count
    → 3 ≤ header.action_count
    → Passed reader limits header rounds index previous total total' rs
    → total' < 2 ^ 64
    → validate_from reader limits header rounds index previous total ≡ pass total'
unfolding validate_from total_duration
validate_from_complete reader limits header rounds index previous total total' [] e m p small =
    ground arith
validate_from_complete reader limits header zero index previous total total' (r ∷ rs) e m p small =
    absurd (omega (arith, p.0))
validate_from_complete reader limits header (suc rounds) index previous total total' (r ∷ rs) e m
      (counted, stored, sources, cleanup, lasts) small =
    rw
      (
        stored.0,
        check_record-Accepts header index previous total r (length rs) (omega arith) m
            (sources.0, sources.1, sources.2, cleanup.0, cleanup.1) (omega arith),
      )
      (validate_from_complete reader limits header rounds (index + 1) r.source_index
        (total + duration r) total' rs (omega arith) m
        (omega arith, stored.1, sources.3, cleanup.2, omega arith) small)

validate_records_pass :
    (reader : Reader) (limits : Limits) (header : Header)
    → validate_records reader limits header ≡ pass tt
    → (3 ≤ header.action_count)
      × (0 < header.total_expected_duration_us)
      × (validate_from reader limits header header.action_count 0 0 0
          ≡ pass header.total_expected_duration_us)
unfolding validate_records
validate_records_pass reader limits header h = ground arith

-- The pass succeeds exactly on the readers that hold a valid schedule for the header, if the
-- header's duration is a 64-bit word.
pub validate_records_iff :
    (reader : Reader) (limits : Limits) (header : Header)
    → header.total_expected_duration_us < 2 ^ 64
    → (validate_records reader limits header ≡ pass tt)
      ↔ ((records : List ActionRecord) × IsSchedule reader limits header records)
unfolding validate_records
validate_records_iff reader limits header word = (sound, complete)
  where
    sound :
        validate_records reader limits header ≡ pass tt
        → (records : List ActionRecord) × IsSchedule reader limits header records
    sound h =
        let (enough, time, passes) = validate_records_pass reader limits header h in
        let (rs, passed) =
          validate_from_sound reader limits header header.action_count 0 0 0 (omega arith) enough
            passes in
        (
          rs,
          record {
            counted = passed.0;
            enough = enough;
            stored = passed.1;
            sources = passed.2;
            cleanup = passed.3;
            lasts = omega (arith, passed.4);
            takes_time = omega (arith, passed.4);
          },
        )

    complete :
        (records : List ActionRecord) × IsSchedule reader limits header records
        → validate_records reader limits header ≡ pass tt
    complete (rs, v) = ground (
      arith,
      validate_from_complete reader limits header header.action_count 0 0 0
          header.total_expected_duration_us rs (omega arith) v.enough
          (v.counted, v.stored, v.sources, v.cleanup, omega arith) word,
    )

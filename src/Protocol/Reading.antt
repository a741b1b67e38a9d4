-- ===== src/Protocol/Reading.antt =====
-- What a verified schedule gives to its reader.
use typxen.Base.{
  ℕ, zero, suc, ◌+◌, ◌*◌, ◌<◌, ◌≡◌, refl, sym, subst, inl, inr, true, List, [], ◌∷◌, arith, length,
  Option-cases,
}
use typxen.Protocol.Types.{
  ok, Reader, Limits, Header, ActionRecord, Sha256Provider, VerifiedSchedule, header_bytes,
  record_bytes, pass,
}
use typxen.Protocol.Bytes.{read_exact}
use typxen.Protocol.Record.{read_record_unverified}
use typxen.Protocol.Verify.{verify, is_verified, read_record}
use typxen.Protocol.Decoding.{IsSafeRecord, decode_record-IsSafeRecord}
use typxen.Protocol.Schedule.{ReadsAs, IsSchedule}
use typxen.Protocol.Verified.{GivesBytes, schedule_of, verify_iff}

ReadsAs-reads :
    (reader : Reader) (max_delay index i : ℕ) (records : List ActionRecord)
    → ReadsAs reader max_delay index records
    → i < length records
    → (r : ActionRecord) × (read_record_unverified reader (index + i) max_delay ≡ pass r)
ReadsAs-reads reader max_delay index i [] h lt = absurd (omega arith)
ReadsAs-reads reader max_delay index zero (r ∷ rs) h lt =
    let e : index + 0 ≡ index = omega arith in (r, rw e h.0)
ReadsAs-reads reader max_delay index (suc i) (r ∷ rs) h lt =
    let e : index + suc i ≡ index + 1 + i = omega arith in
    rw e (ReadsAs-reads reader max_delay (index + 1) i rs h.1 (omega arith))

read_record_unverified-IsSafeRecord :
    (reader : Reader) (index max_delay : ℕ) {r : ActionRecord}
    → GivesBytes reader
    → read_record_unverified reader index max_delay ≡ pass r
    → IsSafeRecord max_delay r
unfolding read_record_unverified
read_record_unverified-IsSafeRecord reader index max_delay given h =
    elim (Option-cases (read_exact reader (header_bytes + index * record_bytes) record_bytes)) [
      | inl e ↦ absurd (cc (rw e at h))
      | inr (bytes, e) ↦
          decode_record-IsSafeRecord bytes max_delay
            (given (header_bytes + index * record_bytes) record_bytes bytes e) (rw e at h)
    ]

-- The schedule is verified, and every index below its record count reads a safe record.
pub record IsExecutable (s : VerifiedSchedule) : Type 0 where
  pub verified : is_verified s ≡ true
  pub readable :
      (i : ℕ)
      → i < s.header.action_count
      → (r : ActionRecord) × (read_record s i ≡ pass r)
        × IsSafeRecord s.limits.max_individual_delay_us r

schedule_of-IsExecutable :
    (reader : Reader) (limits : Limits) (header : Header) (records : List ActionRecord)
    → GivesBytes reader
    → IsSchedule reader limits header records
    → IsExecutable (schedule_of reader limits header)
unfolding is_verified read_record
schedule_of-IsExecutable reader limits header records given s = record {
  verified = refl;
  readable = λ i lt.
      let (r, reads) =
        ReadsAs-reads reader limits.max_individual_delay_us 0 i records s.stored
          (omega (arith, s.counted)) in
      let e : 0 + i ≡ i = omega arith in
      let here : read_record_unverified reader i limits.max_individual_delay_us ≡ pass r =
        rw e at reads in
      (
        r,
        ground (arith, here),
        read_record_unverified-IsSafeRecord reader i limits.max_individual_delay_us given here,
      );
}

-- A schedule that `verify` accepts is verified, and every index below its record count reads a
-- record that is safe to execute.
pub verify-IsExecutable :
    {C : Type 0} (reader : Reader) (limits : Limits) (sha256 : Sha256Provider C) (c : C)
    → GivesBytes reader
    → (verify reader limits sha256 c).0 ≡ ok
    → IsExecutable (verify reader limits sha256 c).1
verify-IsExecutable reader limits sha256 c given h =
    let (header, records, accepted, is) = (verify_iff reader limits sha256 c given).0 h in
    subst IsExecutable (sym is)
      (schedule_of-IsExecutable reader limits header records given accepted.holds)

-- ===== src/Upload/Ledger.antt =====
-- The accounting of the chunks: the lengths that are stored, their sum, and the test for gaps.
use typxen.Base.{
  ℕ, ◌+◌, ◌-◌, ◌*◌, ◌/◌, ◌%◌, ◌^◌, ◌≤◌, ◌<◌, ◌≡◌, refl, sym, ◌∙◌, ◌↔◌, ◌⊎◌, inl, inr, true, false,
  Option, List, arith, ◌!=◌, length, get_or, set, length-set, bit_xor,
}
use typxen.Upload.Types.{
  ok, receiving, chunk_crc_mismatch, Upload, ChunkSession, chunk_bytes, max_chunks, max_bytes,
}
use typxen.Upload.Job.{begin, begin_with, cleared}
use typxen.Upload.Chunk.{expected_length, chunk_begin, chunk_finish}
use typxen.Upload.Finalize.{all_received}
use typxen.Upload.Lengths.{
  total, Fits, Fits-total, Fits-set, total-set, Fits-replicate, Fits-all_received, WholeFrom,
  all_received-WholeFrom, WholeFrom-total, Whole,
}

module _ {C : Type 0} where
  -- The accounts of an upload.
  pub record IsLedger (u : Upload C) : Type 0 where
    pub slots : length u.chunk_lengths ≡ max_chunks
    pub bounded : u.expected_size ≤ max_bytes
    pub fits : Fits u.expected_size 0 u.chunk_lengths
    pub sum : u.received_bytes ≡ total u.chunk_lengths

  -- A session that agrees with the upload as it is now.
  pub record IsCurrent (u : Upload C) (session : ChunkSession) : Type 0 where
    pub in_range : session.sequence < max_chunks
    pub exact : session.length ≡ expected_length u.expected_size (session.sequence * chunk_bytes)
    pub fresh : session.repeated ≡ (get_or u.chunk_lengths session.sequence 0 != 0)

  begin_ok :
      (u : Upload C) (job_id : Option (List ℕ)) (size : ℕ) (sha256 : Option (List ℕ)) (c : C)
      → (begin u job_id size sha256 c).1 ≡ ok
      → (size ≤ max_bytes)
        × ((begin u job_id size sha256 c).0 ≡ record (cleared u.storage) {
          status = receiving;
          expected_size = size;
          job_id = (begin u job_id size sha256 c).0.job_id;
          expected_sha256 = (begin u job_id size sha256 c).0.expected_sha256;
        })
  unfolding begin begin_with
  begin_ok u job_id size sha256 c h = ground arith

  -- A job that `begin` accepts starts with clean accounts, and is being received.
  pub begin-IsLedger :
      (u : Upload C) (job_id : Option (List ℕ)) (size : ℕ) (sha256 : Option (List ℕ)) (c : C)
      → (begin u job_id size sha256 c).1 ≡ ok
      → IsLedger (begin u job_id size sha256 c).0
        × ((begin u job_id size sha256 c).0.status ≡ receiving)
  unfolding cleared
  begin-IsLedger u job_id size sha256 c h =
      let (bound, e) = begin_ok u job_id size sha256 c h in
      rw e (
        record {
          slots = refl;
          bounded = bound;
          fits = Fits-replicate size 0 max_chunks;
          sum = refl;
        },
        refl,
      )

  -- A session that `chunk_begin` accepts is current.
  pub chunk_begin-IsCurrent :
      (u : Upload C) (job_id : Option (List ℕ)) (sequence offset size crc32 : ℕ)
      (session : ChunkSession) (c : C)
      → (chunk_begin u job_id sequence offset size crc32 session c).1 ≡ ok
      → IsCurrent u (chunk_begin u job_id sequence offset size crc32 session c).0
  unfolding chunk_begin
  chunk_begin-IsCurrent u job_id sequence offset size crc32 session c h = ground arith

  total-small : (u : Upload C) → IsLedger u → total u.chunk_lengths ≤ max_bytes
  total-small u h = omega (arith, h.bounded, Fits-total u.expected_size 0 u.chunk_lengths h.fits)

  -- The accounts after a chunk that was missing.
  add_chunk-IsLedger :
      (u : Upload C) (session : ChunkSession) (chunk_crc32 : List ℕ)
      → IsLedger u
      → IsCurrent u session
      → session.repeated ≡ false
      → IsLedger (record u {
        chunk_lengths = set u.chunk_lengths session.sequence (session.length % 2 ^ 16);
        chunk_crc32 = chunk_crc32;
        received_bytes = (u.received_bytes + session.length) % 2 ^ 32;
      })
  add_chunk-IsLedger u session chunk_crc32 h s new =
      let i = session.sequence in
      let whole = Fits-set u.expected_size 0 i u.chunk_lengths h.fits in
      let size : session.length ≤ chunk_bytes = omega (arith, s.exact) in
      let word : session.length % 2 ^ 16 ≡ session.length = omega arith in
      let missing : get_or u.chunk_lengths i 0 ≡ 0 = ground (arith, s.fresh) in
      let sum =
        total-set i session.length u.chunk_lengths missing (omega (arith, h.slots, s.in_range)) in
      let small = total-small u h in
      let start : 0 + i * chunk_bytes ≡ i * chunk_bytes = omega arith in
      let whole' = rw start at whole in
      record {
        slots = length-set u.chunk_lengths i (session.length % 2 ^ 16) ∙ h.slots;
        bounded = h.bounded;
        fits = rw (word, s.exact) (whole');
        sum = rw word (omega (arith, h.sum));
      }

  chunk_finish-cases :
      (u : Upload C) (session : ChunkSession)
      → ((chunk_finish u session).0 ≡ u)
        ⊎ ((chunk_finish u session).0 ≡ record u { last_error = chunk_crc_mismatch })
        ⊎ ((session.repeated ≡ false)
            × ((chunk_finish u session).0 ≡ record u {
              chunk_lengths = set u.chunk_lengths session.sequence (session.length % 2 ^ 16);
              chunk_crc32 =
                  set u.chunk_crc32 session.sequence (bit_xor session.running_crc32 0xffffffff);
              received_bytes = (u.received_bytes + session.length) % 2 ^ 32;
            }))
  unfolding chunk_finish
  chunk_finish-cases u session = ground arith

  -- `chunk_finish` keeps the accounts of an upload, accepted or not, for a session that is current.
  pub chunk_finish-IsLedger :
      (u : Upload C) (session : ChunkSession)
      → IsLedger u
      → IsCurrent u session
      → IsLedger (chunk_finish u session).0
  chunk_finish-IsLedger u session h s = elim (chunk_finish-cases u session) [
    | inl same ↦ rw same h
    | inr (inl same) ↦
        rw same (record { slots = h.slots; bounded = h.bounded; fits = h.fits; sum = h.sum })
    | inr (inr (new, added)) ↦ rw added (add_chunk-IsLedger u session _ h s new)
  ]

-- When the accounts hold, these say the same: as many bytes are received as expected; the test for
-- gaps finds none among the chunks that cover the expected size; and each of these chunks is there
-- with its full length, which is the chunk size, or what is left of the expected size.
pub IsLedger-all_received :
    {C : Type 0} (u : Upload C)
    → IsLedger u
    → let n = (u.expected_size + chunk_bytes - 1) / chunk_bytes in
      ((u.received_bytes ≡ u.expected_size) ↔ Whole u.expected_size n u.chunk_lengths)
      × ((all_received n 0 u.chunk_lengths ≡ true) ↔ Whole u.expected_size n u.chunk_lengths)
IsLedger-all_received u h =
    let size = u.expected_size in
    let n = (size + chunk_bytes - 1) / chunk_bytes in
    let sum = h.sum in
    let no_gap : total u.chunk_lengths ≡ size → all_received n 0 u.chunk_lengths ≡ true =
      λ e. Fits-all_received size 0 n u.chunk_lengths h.fits (omega arith) (omega arith) in
    let whole : all_received n 0 u.chunk_lengths ≡ true → Whole size n u.chunk_lengths =
      λ e i lt. omega (arith, all_received-WholeFrom size 0 n u.chunk_lengths h.fits e i lt) in
    let all : Whole size n u.chunk_lengths → total u.chunk_lengths ≡ size = λ w.
      let from_start : WholeFrom size 0 n u.chunk_lengths = λ i lt. omega (arith, w i lt) in
      omega (arith, WholeFrom-total size 0 n u.chunk_lengths h.fits from_start (omega arith)) in
    ((λ e. whole (no_gap (sym sum ∙ e)), λ w. sum ∙ all w), (whole, λ w. no_gap (all w)))

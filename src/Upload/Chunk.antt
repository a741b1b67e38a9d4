-- ===== src/Upload/Chunk.antt =====
-- A chunk: `chunk_begin`, `chunk_write` and `chunk_finish`.
use typxen.Base.{
  ℕ, zero, suc, ◌+◌, ◌-◌, ◌*◌, ◌%◌, ◌^◌, Bool, true, false, not, ◌&&◌, ◌||◌, Option, none, some,
  List, [], ◌∷◌, if◌then◌else◌, ◌==◌, ◌!=◌, ltb, leb, min, length, take, drop, get_or, set, bit_xor,
}
use typxen.Protocol.Bytes.{same_bytes}
use typxen.Upload.Types.{
  UploadError, ok, invalid_argument, invalid_state, job_mismatch, chunk_crc_mismatch,
  chunk_conflict, storage_failure, incomplete, Storage, Upload, ChunkSession, chunk_bytes,
  max_chunks,
}
use typxen.Upload.Crc.{crc32_update}
use typxen.Upload.Job.{is_receiving, same_job}

-- The length that the chunk at an offset must have.
abbrev pub expected_length : ℕ → ℕ → ℕ
expected_length expected_size offset = min (expected_size - offset) chunk_bytes

-- The comparison of a repeated chunk with the storage, in pieces of 256 bytes: the offset in the
-- storage, and the bytes that are left. A round takes at least a byte, so `length bytes` is fuel
-- enough.
unfoldable pub compare_stored : (ℕ → ℕ → Option (List ℕ)) → ℕ → ℕ → List ℕ → UploadError
compare_stored read fuel at [] = ok
compare_stored read zero at (b ∷ bytes) = storage_failure
compare_stored read (suc fuel) at (b ∷ bytes) =
    let chunk = min (length (b ∷ bytes)) 256 in
    let rest = compare_stored read fuel ((at + chunk) % 2 ^ 32) (drop chunk (b ∷ bytes)) in
    elim (read at chunk) [
      | none ↦ storage_failure
      | some stored ↦
          if same_bytes chunk stored (take chunk (b ∷ bytes)) then rest else chunk_conflict
    ]

abbrev is_conflict : UploadError → Bool
is_conflict chunk_conflict = true
is_conflict _ = false

abbrev compared : ChunkSession → ℕ → UploadError → ChunkSession × UploadError
compared session received ok = (record session { received = received }, ok)
compared session received e = (record session { conflict = is_conflict e }, e)

module _ {C : Type 0} where
  -- The assignments after `memset(session, 0, …)`.
  abbrev pub new_session : Upload C → ℕ → ℕ → ℕ → ℕ → ChunkSession
  new_session u sequence offset length crc32 = record {
    sequence = sequence;
    offset = offset;
    length = length;
    expected_crc32 = crc32;
    running_crc32 = 0xffffffff;
    received = 0;
    repeated = get_or u.chunk_lengths sequence 0 != 0;
    conflict = false;
  }

  -- `storage.erase_range`.
  abbrev erase_range : Option (Storage C) → ℕ → ℕ → C → Bool × C
  erase_range none offset length c = (false, c)
  erase_range (some storage) offset length c = storage.erase_range offset length c

  -- The end of `chunk_begin`, with what `erase_range` answered.
  abbrev erased : ChunkSession → Bool × C → ChunkSession × UploadError × C
  erased session (true, c) = (session, ok, c)
  erased session (false, c) = (session, storage_failure, c)

  -- The upload is not changed.
  unfoldable pub chunk_begin :
      Upload C → Option (List ℕ) → ℕ → ℕ → ℕ → ℕ → ChunkSession → C → ChunkSession × UploadError × C
  unfolding same_job
  chunk_begin u job_id sequence offset length crc32 session c =
      let session' = new_session u sequence offset length crc32 in
      if not (is_receiving u.status)
      then (session, invalid_state, c)
      else if not (same_job u job_id)
      then (session, job_mismatch, c)
      else if leb max_chunks sequence
          || (offset != sequence * chunk_bytes % 2 ^ 32 || leb u.expected_size offset)
      then (session, invalid_argument, c)
      else if length == 0 || length != expected_length u.expected_size offset
      then (session, invalid_argument, c)
      else if session'.repeated
          && (get_or u.chunk_lengths sequence 0 != length
              || get_or u.chunk_crc32 sequence 0 != crc32)
      then (record session' { conflict = true }, chunk_conflict, c)
      else if session'.repeated
      then (session', ok, c)
      else erased session' (erase_range u.storage offset chunk_bytes c)

  -- `storage.read`.
  abbrev pub read : Option (Storage C) → C → ℕ → ℕ → Option (List ℕ)
  read none c offset length = none
  read (some storage) c offset length = storage.read c offset length

  -- `storage.write`.
  abbrev write : Option (Storage C) → ℕ → List ℕ → C → Bool × C
  write none offset bytes c = (false, c)
  write (some storage) offset bytes c = storage.write offset bytes c

  abbrev written : ChunkSession → ℕ → Bool × C → ChunkSession × UploadError × C
  written session received (true, c) = (record session { received = received }, ok, c)
  written session received (false, c) = (session, storage_failure, c)

  unfoldable pub chunk_write : Upload C → ChunkSession → List ℕ → C → ChunkSession × UploadError × C
  unfolding crc32_update compare_stored
  chunk_write u session bytes c =
      let n = length bytes in
      let at = (session.offset + session.received) % 2 ^ 32 in
      let received = (session.received + n) % 2 ^ 32 in
      let session' = record session { running_crc32 = crc32_update session.running_crc32 bytes } in
      let (s, e) = compared session' received (compare_stored (read u.storage c) n at bytes) in
      if n == 0
        || (ltb ((2 ^ 32 + session.length - session.received) % 2 ^ 32) n || session.conflict)
      then (session, invalid_argument, c)
      else if session.repeated
      then (s, e, c)
      else written session' received (write u.storage at bytes c)

  unfoldable pub chunk_finish : Upload C → ChunkSession → Upload C × UploadError
  chunk_finish u session =
      let actual_crc = bit_xor session.running_crc32 0xffffffff in
      if session.conflict
      then (u, chunk_conflict)
      else if session.received != session.length
      then (u, incomplete)
      else if actual_crc != session.expected_crc32
      then (record u { last_error = chunk_crc_mismatch }, chunk_crc_mismatch)
      else if session.repeated
      then (u, ok)
      else (
        record u {
          chunk_lengths = set u.chunk_lengths session.sequence (session.length % 2 ^ 16);
          chunk_crc32 = set u.chunk_crc32 session.sequence actual_crc;
          received_bytes = (u.received_bytes + session.length) % 2 ^ 32;
        },
        ok,
      )

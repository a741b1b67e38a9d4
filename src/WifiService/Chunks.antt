-- ===== src/WifiService/Chunks.antt =====
-- The handler of a chunk, which takes it from the connection piece by piece.
use typxen.Base.{
  ℕ, zero, suc, ◌+◌, ◌-◌, ◌%◌, ◌^◌, min, false, not, ◌||◌, Option, none, some, List, if◌then◌else◌,
  ◌==◌, ◌!=◌, ltb, leb, length,
}
use typxen.Upload.Types.{
  Upload, UploadError, ok, invalid_argument, incomplete, ChunkSession, chunk_bytes,
}
use typxen.Upload.Chunk.{chunk_begin, chunk_write, chunk_finish}
use typxen.WifiService.Hex.{parse_hex, parse_u32}
use typxen.WifiService.Defs.{
  Board, Response, chunk_taken, host, with_host, upload_of, send_upload_error,
}
use typxen.WifiService.Handlers.{ChunkRequest, Server, is_ok}

abbrev pub http_read_bytes : ℕ
http_read_bytes = 256

-- The numbers of a request.
pub record ChunkFields : Type 0 where
  pub id : List ℕ
  pub sequence : ℕ
  pub offset : ℕ
  pub length : ℕ
  pub crc : ℕ

abbrev pub fields_with :
    ℕ → Option (List ℕ) → Option ℕ → Option ℕ → Option ℕ → Option ℕ → Option ChunkFields
fields_with content_len (some id) (some sequence) (some offset) (some n) (some crc) =
    if n != content_len
    then none
    else some (record { id = id; sequence = sequence; offset = offset; length = n; crc = crc })
fields_with content_len _ _ _ _ _ = none

unfoldable pub chunk_fields : ChunkRequest → Option ChunkFields
unfolding parse_hex parse_u32
chunk_fields request =
    if request.content_len == 0 || ltb chunk_bytes request.content_len
    then none
    else fields_with request.content_len (parse_hex request.job_id 16)
        (parse_u32 request.sequence 10) (parse_u32 request.offset 10) (parse_u32 request.length 10)
        (parse_u32 request.crc32 16)

-- What the loop leaves: the session, the error, the flash and the state of the server.
pub record Taken (C Q : Type 0) : Type 0 where
  pub session : ChunkSession
  pub error : UploadError
  pub flash : C
  pub rest : Q

abbrev pub stop_at : {C Q : Type 0} → ChunkSession → UploadError → C → Q → Taken C Q
stop_at session e c q = record { session = session; error = e; flash = c; rest = q }

module _ {C Q : Type 0} (server : Server Q) (u : Upload C) (n : ℕ) where
  -- The loop with its fuel and `received`; it ends when all is received, and a round takes a byte.
  unfoldable pub receive_loop : ℕ → ℕ → ChunkSession → C → Q → Taken C Q
  unfolding chunk_write
  receive_loop zero received session c q = stop_at session ok c q
  receive_loop (suc fuel) received session c q =
      let (bytes, q') = server.receive (min (n - received) http_read_bytes) q in
      let (session', e, c') = chunk_write u session bytes c in
      let rest = receive_loop fuel ((received + length bytes) % 2 ^ 32) session' c' q' in
      if leb n received
      then stop_at session ok c q
      else if length bytes == 0
      then stop_at session incomplete c q'
      else if not (is_ok e)
      then stop_at session' e c' q'
      else rest

-- A session with any contents: `chunk_begin` sets it where it succeeds.
abbrev pub unset_session : ChunkSession
unset_session = record {
  sequence = 0;
  offset = 0;
  length = 0;
  expected_crc32 = 0;
  running_crc32 = 0;
  received = 0;
  repeated = false;
  conflict = false;
}

module _ {C Q : Type 0} where
  -- The end of it, with `chunk_finish` where nothing failed.
  abbrev pub finish_chunk : Board C Q → Taken C Q → UploadError × Board C Q
  finish_chunk b t =
      let (u, e) = chunk_finish (upload_of b) t.session in
      if is_ok t.error
      then (e, with_host b (record (host b) { upload = u; flash = t.flash; rest = t.rest }))
      else (t.error, with_host b (record (host b) { flash = t.flash; rest = t.rest }))

  abbrev pub chunk_answer : UploadError × Board C Q → Response × Board C Q
  chunk_answer (e, b) = if is_ok e then (chunk_taken, b) else (send_upload_error e b, b)

module _ {C Q : Type 0} (server : Server Q) where
  -- The part of the handler that holds the mutex, on what `chunk_begin` gave.
  abbrev pub take_chunk : Board C Q → ℕ → ChunkSession × UploadError × C → Taken C Q
  take_chunk b n (session, e, c) =
      if is_ok e
      then receive_loop server (upload_of b) n n 0 session c (host b).rest
      else record { session = session; error = e; flash = c; rest = (host b).rest }

  -- The handler, on what its tests gave.
  unfoldable pub handle_chunk : Option ChunkFields → Board C Q → Response × Board C Q
  unfolding chunk_begin receive_loop chunk_finish send_upload_error
  handle_chunk none b = (send_upload_error invalid_argument b, b)
  handle_chunk (some f) b = chunk_answer (
      finish_chunk b (
        take_chunk b f.length (
          chunk_begin (upload_of b) (some f.id) f.sequence f.offset f.length f.crc unset_session
            (host b).flash)))

  unfoldable pub chunk_handler : ChunkRequest → Board C Q → Response × Board C Q
  unfolding chunk_fields handle_chunk
  chunk_handler request b = handle_chunk (chunk_fields request) b

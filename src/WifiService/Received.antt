-- ===== src/WifiService/Received.antt =====
-- A chunk that is answered with 200 came whole.
use typxen.Base.{
  ℕ, zero, suc, ◌+◌, ◌-◌, ◌%◌, ◌^◌, ◌<◌, ◌≡◌, refl, ◌∙◌, Bool, true, false, not, ◌||◌, Option, none,
  some, List, [], ◌++◌, arith, if◌then◌else◌, ◌==◌, ltb, leb, length, min,
}
use mathlib.Core.List.{append-nil, append_assoc}
use typxen.Upload.Types.{Upload, UploadError, ok, incomplete, chunk_bytes, ChunkSession}
use typxen.Upload.Crc.{crc32}
use typxen.Upload.Chunk.{chunk_begin, chunk_write}
use typxen.Upload.Ready.{HasTaken, chunk_begin-HasTaken, chunk_write-HasTaken, chunk_finish_lem}
use typxen.WifiService.Hex.{parse_hex, parse_u32}
use typxen.WifiService.Defs.{Board, Response, chunk_taken, host, upload_of, send_upload_error}
use typxen.WifiService.Handlers.{ChunkRequest, Server, is_ok}
use typxen.WifiService.Chunks.{
  ChunkFields, fields_with, chunk_fields, Taken, receive_loop, stop_at, take_chunk, finish_chunk,
  chunk_answer, handle_chunk, chunk_handler, unset_session, http_read_bytes,
}

-- What the connection gives the loop, from `received` on.
unfoldable pub incoming : {Q : Type 0} → Server Q → ℕ → ℕ → ℕ → Q → List ℕ
incoming server n zero received q = []
incoming server n (suc fuel) received q =
    let (bytes, q') = server.receive (min (n - received) http_read_bytes) q in
    let rest = incoming server n fuel ((received + length bytes) % 2 ^ 32) q' in
    if leb n received then [] else bytes ++ rest

-- Where the loop ends well, its session has taken the bytes before it and those that came in, for
-- the length and the checksum of the session that it began with.
abbrev pub HasReceived : {C Q : Type 0} → ChunkSession → List ℕ → Taken C Q → Type 0
HasReceived session bytes t =
    t.error ≡ ok
    → HasTaken t.session bytes
      × (t.session.length ≡ session.length)
      × (t.session.expected_crc32 ≡ session.expected_crc32)

module _ {C Q : Type 0} (server : Server Q) (u : Upload C) (n : ℕ) where
  chunk_write-same :
      (session : ChunkSession) (piece : List ℕ) (c : C)
      → let session' = (chunk_write u session piece c).0 in
        (session'.length ≡ session.length) × (session'.expected_crc32 ≡ session.expected_crc32)
  unfolding chunk_write
  chunk_write-same session piece c = ground arith

  HasReceived-same :
      (session session' : ChunkSession) (bytes : List ℕ) (t : Taken C Q)
      → (session'.length ≡ session.length) × (session'.expected_crc32 ≡ session.expected_crc32)
      → HasReceived session' bytes t
      → HasReceived session bytes t
  HasReceived-same session session' bytes t (same_length, same_crc) h e =
      let (taken, l, k) = h e in (taken, l ∙ same_length, k ∙ same_crc)

  ok-lem : (e : UploadError) → is_ok e ≡ true → e ≡ ok
  ok-lem e h = ground arith

  -- The branches of a round.
  round-HasReceived :
      (whole none_came fine : Bool) (session session' : ChunkSession) (e : UploadError)
      (before piece rest : List ℕ) (c c' : C) (q q' : Q) (t : Taken C Q)
      → is_ok e ≡ fine
      → HasTaken session before
      → (fine ≡ true → HasReceived session (before ++ (piece ++ rest)) t)
      → HasReceived session (before ++ (if whole then [] else piece ++ rest)) (
          if whole
          then stop_at session ok c q
          else if none_came
          then stop_at session incomplete c q'
          else if not fine
          then stop_at session' e c' q'
          else t)
  round-HasReceived true none_came fine session session' e before piece rest c c' q q' t f h k o =
      rw (append-nil before) (h, refl, refl)
  round-HasReceived false true fine session session' e before piece rest c c' q q' t f h k o =
      absurd cc
  round-HasReceived false false false session session' e before piece rest c c' q q' t f h k o =
      absurd (ground (arith, f, o))
  round-HasReceived false false true session session' e before piece rest c c' q q' t f h k o =
      k refl o

  receive_loop-HasReceived :
      (fuel received : ℕ) (session : ChunkSession) (c : C) (q : Q) (before : List ℕ)
      → HasTaken session before
      → HasReceived session
          (before ++ incoming server n fuel received q)
          (receive_loop server u n fuel received session c q)
  unfolding receive_loop incoming
  receive_loop-HasReceived zero received session c q before h =
      λ e. rw (append-nil before) (h, refl, refl)
  receive_loop-HasReceived (suc fuel) received session c q before h =
      let (bytes, q') = server.receive (min (n - received) http_read_bytes) q in
      let (session', e, c') = chunk_write u session bytes c in
      let next = (received + length bytes) % 2 ^ 32 in
      round-HasReceived (leb n received) (length bytes == 0) (is_ok e) session session' e before
        bytes (incoming server n fuel next q') c c' q q'
        (receive_loop server u n fuel next session' c' q') refl h
        (λ fine. rw⁻¹ (append_assoc before bytes (incoming server n fuel next q')) (
          HasReceived-same session session' _ (receive_loop server u n fuel next session' c' q')
            (chunk_write-same session bytes c)
            (receive_loop-HasReceived fuel next session' c' q' (before ++ bytes)
              (chunk_write-HasTaken u session before bytes c h (ok-lem e fine)))))

abbrev pub is_chunk_taken : Response → Bool
is_chunk_taken chunk_taken = true
is_chunk_taken _ = false

fields_with-length :
    (content_len : ℕ) (id : Option (List ℕ)) (sequence offset n crc : Option ℕ) (f : ChunkFields)
    → fields_with content_len id sequence offset n crc ≡ some f
    → f.length ≡ content_len
fields_with-length content_len id sequence offset n crc f h = ground arith

small-bound : (n m : ℕ) → (n == 0 || ltb chunk_bytes n) ≡ false → m ≡ n → m < 2 ^ 32
small-bound n m small same = ground arith

else-lem :
    (b : Bool) (o : Option ChunkFields) (f : ChunkFields)
    → (if b then none else o) ≡ some f
    → (b ≡ false) × (o ≡ some f)
else-lem b o f h = ground arith

chunk_fields-bound :
    (request : ChunkRequest) (f : ChunkFields) → chunk_fields request ≡ some f → f.length < 2 ^ 32
unfolding chunk_fields
chunk_fields-bound request f h =
    let (small, fields) =
      else-lem (request.content_len == 0 || ltb chunk_bytes request.content_len) _ f h in
    let same =
      fields_with-length request.content_len (parse_hex request.job_id 16)
        (parse_u32 request.sequence 10) (parse_u32 request.offset 10) (parse_u32 request.length 10)
        (parse_u32 request.crc32 16) f fields in
    small-bound request.content_len f.length small same

module _ {C Q : Type 0} (server : Server Q) where
  -- What the handler holds of its chunk when it answers.
  finish_chunk-lem :
      (b : Board C Q) (f : ChunkFields) (s : ChunkSession × UploadError × C)
      → f.length < 2 ^ 32
      → (s.1 ≡ ok → HasTaken s.0 [] × (s.0.length ≡ f.length) × (s.0.expected_crc32 ≡ f.crc))
      → is_chunk_taken (chunk_answer (finish_chunk b (take_chunk server b f.length s))).0 ≡ true
      → let bytes = incoming server f.length f.length 0 (host b).rest in
        (length bytes ≡ f.length) × (crc32 (some bytes) ≡ f.crc)
  unfolding send_upload_error
  finish_chunk-lem b f s w h t = ground (
    arith,
    receive_loop-HasReceived server (upload_of b) f.length f.length 0 s.0 s.2 (host b).rest [],
    chunk_finish_lem (upload_of b) (take_chunk server b f.length s).session
        (incoming server f.length f.length 0 (host b).rest),
  )

  chunk_begin-same :
      (u : Upload C) (job_id : Option (List ℕ)) (sequence offset size crc : ℕ)
      (session : ChunkSession) (c : C)
      → let (session', e, _) = chunk_begin u job_id sequence offset size crc session c in
        e ≡ ok → (session'.length ≡ size) × (session'.expected_crc32 ≡ crc)
  unfolding chunk_begin
  chunk_begin-same u job_id sequence offset size crc session c h = ground arith

  -- The bytes of a request came in whole, with the length and the checksum that it names.
  abbrev pub CameWhole : Board C Q → Option ChunkFields → Type 0
  CameWhole b none = ⊥
  CameWhole b (some f) =
      let bytes = incoming server f.length f.length 0 (host b).rest in
      (length bytes ≡ f.length) × (crc32 (some bytes) ≡ f.crc)

  handle_chunk-CameWhole :
      (o : Option ChunkFields) (b : Board C Q)
      → ((f : ChunkFields) → o ≡ some f → f.length < 2 ^ 32)
      → is_chunk_taken (handle_chunk server o b).0 ≡ true
      → CameWhole b o
  unfolding handle_chunk send_upload_error
  handle_chunk-CameWhole none b w t = absurd cc
  handle_chunk-CameWhole (some f) b w t =
      finish_chunk-lem b f _ (w f refl)
        (λ e.
          let (l, k) =
            chunk_begin-same (upload_of b) (some f.id) f.sequence f.offset f.length f.crc
              unset_session (host b).flash e in
          (
            chunk_begin-HasTaken (upload_of b) (some f.id) f.sequence f.offset f.length f.crc
                unset_session (host b).flash (w f refl) e,
            l,
            k,
          ))
        t

  -- A chunk is answered with 200 only if its request is well-formed and the bytes that came in over
  -- the connection have the length and the CRC-32 that the request names.
  pub chunk_handler-CameWhole :
      (request : ChunkRequest) (b : Board C Q)
      → is_chunk_taken (chunk_handler server request b).0 ≡ true
      → CameWhole b (chunk_fields request)
  unfolding chunk_handler
  chunk_handler-CameWhole request b t =
      handle_chunk-CameWhole (chunk_fields request) b (chunk_fields-bound request) t

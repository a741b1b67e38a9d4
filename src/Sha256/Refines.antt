-- ===== src/Sha256/Refines.antt =====
-- The payload that is hashed in pieces has the digest of the whole.
use typxen.Base.{
  ℕ, ◌+◌, ◌-◌, ◌*◌, ◌/◌, ◌%◌, ◌^◌, ◌≤◌, ◌<◌, ◌≡◌, refl, sym, ap, ◌∙◌, true, false, some, List, [],
  ◌∷◌, arith, ◌⊎◌, inl, inr, if◌then◌else◌, ltb, length, replicate,
}
use typxen.Protocol.Types.{Reader, Header, header_bytes}
use typxen.Protocol.Bytes.{slice, read_exact}
use typxen.Protocol.Payload.{verify_payload_sha256, compare_digest}
use typxen.Protocol.Hashing.{IsStreaming, Holds, hash_loop_lem, length-slice}
use typxen.Sha256.Block.{PortableContext, initial_state}
use typxen.Sha256.Provider.{
  digest_of, last_block, pad_tail, portable_begin, portable_update, portable_finish, update_loop,
  portable_provider,
}
use typxen.Sha256.Streaming.{
  HasRoom, absorb, feed_all, feed_all_room, feed_all_keeps_total, portable_update_lem,
  absorb-append,
}
use typxen.Sha256.Padding.{finish_state, pad_from}
use typxen.Sha256.Digest.{
  by_blocks, by_blocks-append, length-by_blocks, padding, sha256, IsAt, feed_all-IsAt,
}

-- The bytes that a context still takes; none if its block were full.
abbrev room_of : PortableContext → ℕ
room_of c = if ltb c.block_bytes 64 then 2 ^ 64 - 1 - c.total_bytes else 0

absorb-nil : (c : PortableContext) → absorb c [] ≡ c
unfolding feed_all
absorb-nil c = let e : c.total_bytes + 0 ≡ c.total_bytes = omega arith in rw e refl

room_cases : (c : PortableContext) (xs : List ℕ) → length xs ≤ room_of c → HasRoom c xs ⊎ (xs ≡ [])
room_cases c [] h = inr refl
room_cases c (x ∷ xs) h = inl (ground (arith, h))

update_nothing : (c : PortableContext) → portable_update [] c ≡ (true, absorb c [])
unfolding portable_update update_loop feed_all
update_nothing c = let e : ltb (2 ^ 64 - 1 - c.total_bytes) 0 ≡ false = ground arith in rw e refl

portable-accepts :
    (c : PortableContext) (xs : List ℕ)
    → length xs ≤ room_of c
    → portable_update xs c ≡ (true, absorb c xs)
portable-accepts c xs h = elim (room_cases c xs h) [
  | inl room ↦ portable_update_lem xs c room
  | inr none_given ↦ rw none_given (update_nothing c)
]

some_rest :
    (c c' : PortableContext) (n : ℕ)
    → c.block_bytes < 64
    → c'.block_bytes < 64
    → c'.total_bytes ≡ c.total_bytes + n
    → c.total_bytes + n < 2 ^ 64
    → room_of c' + n ≡ room_of c
some_rest c c' n h h' e lt = ground (arith, h, h', e, lt)

portable-rest :
    (c : PortableContext) (xs : List ℕ)
    → length xs ≤ room_of c
    → room_of (absorb c xs) + length xs ≡ room_of c
portable-rest c xs h = elim (room_cases c xs h) [
  | inl room ↦
      let c' : PortableContext = record c { total_bytes = c.total_bytes + length xs } in
      some_rest c (absorb c xs) (length xs) room.0 (feed_all_room xs c' room.0)
        (feed_all_keeps_total xs c') room.1
  | inr none_given ↦ rw none_given (ap (λ n. n + 0) (ap room_of (absorb-nil c)) ∙ omega arith)
]

portable_streaming : IsStreaming portable_update
portable_streaming = record {
  absorb = absorb;
  room = room_of;
  accepts = portable-accepts;
  rest = portable-rest;
  nothing = absorb-nil;
  in_a_row = λ c xs ys. absorb-append xs ys c;
}

-- The context that `portable_begin` gives.
abbrev fresh : PortableContext
fresh = record { state = initial_state; total_bytes = 0; block = replicate 64 0; block_bytes = 0 }

absorb-IsAt : (message : List ℕ) → IsAt (absorb fresh message) (by_blocks initial_state [] message)
absorb-IsAt message =
    feed_all-IsAt message (record fresh { total_bytes = 0 + length message }) initial_state []
      record { state = refl; size = refl; count = refl; small = omega arith; pending = refl }

too_long : (total n : ℕ) → total ≡ n → n * 8 < 2 ^ 64 → ltb ((2 ^ 64 - 1) / 8) total ≡ false
too_long total n e h = ground (arith, e, h)

finish-some :
    (c : PortableContext)
    → ltb ((2 ^ 64 - 1) / 8) c.total_bytes ≡ false
    → (portable_finish c).0 ≡ some (digest_of (last_block (pad_tail c) (c.total_bytes * 8)).state)
unfolding portable_finish
finish-some c h = rw h refl

-- The digest of a context that took a message.
portable_finish-sha256 :
    (message : List ℕ)
    → length message * 8 < 2 ^ 64
    → (portable_finish (absorb fresh message)).0 ≡ some (sha256 message)
portable_finish-sha256 message h =
    let c = absorb fresh message in
    let at = absorb-IsAt message in
    let n = length message in
    let total : c.total_bytes ≡ n =
      feed_all_keeps_total message (record fresh { total_bytes = 0 + n }) ∙ omega arith in
    let count : c.block_bytes ≡ n % 64 =
      at.count ∙ length-by_blocks message initial_state [] (omega arith) ∙ omega arith in
    let fits : ltb ((2 ^ 64 - 1) / 8) c.total_bytes ≡ false = too_long c.total_bytes n total h in
    let pad = padding n in
    let fed =
      feed_all-IsAt pad c (by_blocks initial_state [] message).0
        (by_blocks initial_state [] message).1 at in
    finish-some c fits
    ∙ ap (λ s. some (digest_of s))
        (finish_state c (c.total_bytes * 8) (omega (arith, at.count, at.small))
          ∙ ap (λ m. (feed_all (pad_from m (c.total_bytes * 8)) c).state) count
          ∙ ap (λ m. (feed_all (pad_from (n % 64) (m * 8)) c).state) total
          ∙ fed.state
          ∙ ap (λ (r : List ℕ × List ℕ). r.0) (sym (by_blocks-append message pad initial_state [])))

-- For a reader that gives the bytes of an image, which holds the header and its payload: the pass over
-- the payload with the portable provider, whatever its context was, compares the digest in the header
-- with SHA-256 of the payload, padded in full and compressed by blocks, and makes no other error.
pub verify_payload_sha256-sha256 :
    (reader : Reader) (header : Header) (image : List ℕ) (context : PortableContext)
    → Holds (read_exact reader) image
    → header_bytes + header.payload_bytes ≤ length image
    → header.payload_bytes < 2 ^ 32
    → (verify_payload_sha256 reader header portable_provider context).0
      ≡ compare_digest header.payload_sha256
          (some (sha256 (slice image header_bytes header.payload_bytes)))
unfolding verify_payload_sha256 portable_provider portable_begin portable_streaming
verify_payload_sha256-sha256 reader header image context holds fits small =
    let n = header.payload_bytes in
    let payload = slice image header_bytes n in
    let size = length-slice image header_bytes n fits in
    let loop =
      hash_loop_lem portable_streaming (read_exact reader) image n header_bytes n fresh holds fits
        (omega arith) (omega arith) in
    rw loop (
      ap (compare_digest header.payload_sha256)
        (portable_finish-sha256 payload (omega (arith, size))))

-- ===== src/Protocol/Payload.antt =====
-- `verify_payload_sha256`: the payload is hashed in pieces of at most 256 bytes.
use typxen.Base.{
  ℕ, zero, suc, ◌+◌, ◌-◌, Bool, true, false, not, Option, none, some, List, if◌then◌else◌, ◌==◌,
  min,
}
use typxen.Protocol.Types.{
  ProtocolError, ok, reader_error, checksum_mismatch, Reader, Header, header_bytes, Sha256Provider,
}
use typxen.Protocol.Bytes.{read_exact, same_bytes}

-- The comparison of the digest, or the failure of `finish`.
unfoldable pub compare_digest : List ℕ → Option (List ℕ) → ProtocolError
compare_digest expected none = reader_error
compare_digest expected (some digest) =
    if same_bytes 32 digest expected then ok else checksum_mismatch

module _ {C : Type 0} where
  -- `&&` of two calls on a context: the second is made only if the first returned true.
  abbrev pub and_then : Bool × C → (C → Bool × C) → Bool × C
  and_then (false, c) next = (false, c)
  and_then (true, c) next = next c

  -- The `while` loop, with the source of the pieces and `update`; each round takes at least a byte,
  -- so `remaining` rounds are enough.
  unfoldable pub hash_loop :
      (ℕ → ℕ → Option (List ℕ)) → (List ℕ → C → Bool × C) → ℕ → ℕ → ℕ → C → Bool × C
  hash_loop read update zero offset remaining c = (remaining == 0, c)
  hash_loop read update (suc fuel) offset remaining c = elim (remaining == 0) [
    | true ↦ (true, c)
    | false ↦ elim (read offset (min remaining 256)) [
      | none ↦ (false, c)
      | some buffer ↦
          and_then (update buffer c) (
            hash_loop read update fuel (offset + min remaining 256) (remaining - min remaining 256))
    ]
  ]

  hash_payload :
      Reader
      → Header
      → (C → Bool × C)
      → (List ℕ → C → Bool × C)
      → (C → Option (List ℕ) × C)
      → C
      → ProtocolError × C
  unfolding hash_loop compare_digest
  hash_payload reader header begin update finish c =
      let (hashed, c') = and_then (begin c) (
        hash_loop (read_exact reader) update header.payload_bytes header_bytes
          header.payload_bytes) in
      if not hashed
      then (reader_error, c')
      else let (digest, c'') = finish c' in (compare_digest header.payload_sha256 digest, c'')

  unfoldable pub verify_payload_sha256 : Reader → Header → Sha256Provider C → C → ProtocolError × C
  unfolding hash_payload
  verify_payload_sha256 reader header sha256 c = elim sha256.begin [
    | none ↦ (reader_error, c)
    | some begin ↦ elim sha256.update [
      | none ↦ (reader_error, c)
      | some update ↦ elim sha256.finish [
        | none ↦ (reader_error, c)
        | some finish ↦ hash_payload reader header begin update finish c
      ]
    ]
  ]

-- ===== src/Sha256/Tests.antt =====
-- Test vectors of FIPS 180-4, and the theorems at a context.
use typxen.Protocol.Types.{Header}
use typxen.Protocol.Bytes.{slice, read_exact}
use typxen.Protocol.Payload.{verify_payload_sha256, compare_digest}
use typxen.Protocol.Hashing.{Holds}
use typxen.Protocol.Sample.{image, image_reader}
use typxen.Sha256.Digest.{sha256}
use typxen.Sha256.Refines.{verify_payload_sha256-sha256}
use typxen.Sha256.Streaming.{HasRoom, portable_update-append}
use typxen.Base.{
  replicate, ltb, false, ◌||◌, ◌+◌, ◌-◌, ◌≤◌, ℕ, ◌<◌, ◌≡◌, ◌++◌, arith, length, refl, List, [], ◌∷◌,
  some,
}
use typxen.Sha256.Block.{
  PortableContext, rotate_right, read_u32_be, write_u32_be, load_words, extend_words, round, rounds,
  process_block,
}
use typxen.Sha256.Provider.{
  portable_begin, copy_to, update_loop, portable_update, portable_finish, portable_provider,
}

abbrev blank : PortableContext
blank = record { state = []; total_bytes = 0; block = []; block_bytes = 0 }

-- "abc"
abbrev abc : List ℕ
abc = 97 ∷ 98 ∷ 99 ∷ []

digest_abc :
    (portable_finish (portable_update abc (portable_begin blank).1).1).0
    ≡ some (
        0xba ∷ 0x78 ∷ 0x16 ∷ 0xbf ∷ 0x8f ∷ 0x01 ∷ 0xcf ∷ 0xea ∷ 0x41 ∷ 0x41 ∷ 0x40 ∷ 0xde ∷ 0x5d
        ∷ 0xae ∷ 0x22 ∷ 0x23 ∷ 0xb0 ∷ 0x03 ∷ 0x61 ∷ 0xa3 ∷ 0x96 ∷ 0x17 ∷ 0x7a ∷ 0x9c ∷ 0xb4 ∷ 0x10
        ∷ 0xff ∷ 0x61 ∷ 0xf2 ∷ 0x00 ∷ 0x15 ∷ 0xad ∷ [])
unfolding portable_finish portable_update portable_begin update_loop copy_to process_block rounds
    round extend_words load_words rotate_right read_u32_be write_u32_be
digest_abc = refl

abbrev begun : PortableContext
begun = (portable_begin blank).1

begun-HasRoom : (xs : List ℕ) → length xs < 100 → HasRoom begun xs
unfolding portable_begin
begun-HasRoom xs h = (omega arith, omega arith)

portable_update-append_example :
    portable_update abc (portable_update abc begun).1 ≡ portable_update (abc ++ abc) begun
portable_update-append_example =
    portable_update-append abc abc begun (begun-HasRoom (abc ++ abc) (omega arith))

-- The header of the sample schedule, as far as the hash needs it.
abbrev sample_header : Header
sample_header = record {
  protocol_major = 1;
  protocol_minor = 0;
  schedule_format_version = 1;
  action_count = 4;
  payload_bytes = 128;
  total_source_characters = 1;
  total_expected_duration_us = 32400;
  job_id = replicate 16 9;
  payload_sha256 = replicate 32 7;
}

inside :
    (offset n size : ℕ) → offset + n ≤ size → (ltb size offset || ltb (size - offset) n) ≡ false
inside offset n size h = ground arith

image-Holds : Holds (read_exact image_reader) image
unfolding read_exact
image-Holds offset n h = rw (inside offset n (length image) h) refl

verify_payload_sha256-sha256_example :
    (verify_payload_sha256 image_reader sample_header portable_provider blank).0
    ≡ compare_digest (replicate 32 7) (some (sha256 (slice image 96 128)))
verify_payload_sha256-sha256_example =
    verify_payload_sha256-sha256 image_reader sample_header image blank image-Holds (omega arith)
      (omega arith)

-- ===== src/Sha256/Digest.antt =====
-- The digest of a message by blocks, and the context as a view of it.
use typxen.Base.{
  ℕ, zero, suc, ◌+◌, ◌-◌, ◌*◌, ◌%◌, ◌<◌, ◌≡◌, refl, sym, ap, ◌∙◌, Bool, true, false, List, [], ◌∷◌,
  ◌++◌, arith, if◌then◌else◌, ◌==◌, ==_iff, Bool-cases, inl, inr, length, length-append, length-set,
  set, take, replicate,
}
use typxen.Sha256.Block.{PortableContext, initial_state, process_block}
use typxen.Sha256.Provider.{length_bytes, digest_of}
use typxen.Sha256.Streaming.{feed, feed_all, feed_small}

-- The state behind the blocks of 64 bytes, and the bytes that are no block yet.
abbrev pub by_blocks : List ℕ → List ℕ → List ℕ → List ℕ × List ℕ
by_blocks state pending [] = (state, pending)
by_blocks state pending (b ∷ bytes) =
    if suc (length pending) == 64
    then by_blocks (process_block state (pending ++ (b ∷ []))) [] bytes
    else by_blocks state (pending ++ (b ∷ [])) bytes

-- A bit, zeros up to 8 bytes before the end of a block, and the length of the message in bits.
abbrev pub padding : ℕ → List ℕ
padding n = 0x80 ∷ (replicate ((119 - n % 64) % 64) 0 ++ length_bytes (n * 8))

-- SHA-256 of a message of bytes (FIPS 180-4).
abbrev pub sha256 : List ℕ → List ℕ
sha256 message = digest_of (by_blocks initial_state [] (message ++ padding (length message))).0

-- The context holds a state and the bytes that are no block yet.
pub record IsAt (c : PortableContext) (at : List ℕ × List ℕ) : Type 0 where
  pub state : c.state ≡ at.0
  pub size : length c.block ≡ 64
  pub count : c.block_bytes ≡ length at.1
  pub small : length at.1 < 64
  pub pending : take (length at.1) c.block ≡ at.1

take-set :
    (xs : List ℕ) (i v : ℕ) → i < length xs → take (suc i) (set xs i v) ≡ take i xs ++ (v ∷ [])
take-set [] i v h = absurd (omega arith)
take-set (x ∷ xs) zero v h = refl
take-set (x ∷ xs) (suc i) v h = ap (λ l. x ∷ l) (take-set xs i v (omega arith))

pub take_length : (xs : List ℕ) (n : ℕ) → length xs ≡ n → take n xs ≡ xs
take_length [] n h = rw (sym h) refl
take_length (x ∷ xs) zero h = absurd (omega arith)
take_length (x ∷ xs) (suc n) h = ap (λ l. x ∷ l) (take_length xs n (omega arith))

-- A byte more in the block.
grown :
    (c : PortableContext) (state pending : List ℕ) (b : ℕ)
    → IsAt c (state, pending)
    → take (suc (length pending)) (set c.block c.block_bytes b) ≡ pending ++ (b ∷ [])
grown c state pending b h =
    let in_block : length pending < length c.block = omega (arith, h.size, h.small) in
    rw h.count (take-set c.block (length pending) b in_block ∙ ap (λ l. l ++ (b ∷ [])) h.pending)

feed_whole :
    (b : ℕ) (c : PortableContext)
    → suc c.block_bytes ≡ 64
    → feed b c ≡ record c {
      state = process_block c.state (set c.block c.block_bytes b);
      block = set c.block c.block_bytes b;
      block_bytes = 0;
    }
unfolding feed
feed_whole b c h = ground (arith, h)

feed-full :
    (c : PortableContext) (state pending : List ℕ) (b : ℕ)
    → IsAt c (state, pending)
    → suc (length pending) ≡ 64
    → IsAt (feed b c) (process_block state (pending ++ (b ∷ [])), [])
feed-full c state pending b h full =
    let block = set c.block c.block_bytes b in
    let size = length-set c.block c.block_bytes b ∙ h.size in
    let whole : block ≡ pending ++ (b ∷ []) =
      sym (take_length block (suc (length pending)) (size ∙ sym full))
      ∙ grown c state pending b h in
    rw (feed_whole b c (ap suc h.count ∙ full)) record {
      state = ap (λ s. process_block s block) h.state ∙ ap (process_block state) whole;
      size = size;
      count = refl;
      small = omega arith;
      pending = refl;
    }

feed-more :
    (c : PortableContext) (state pending : List ℕ) (b : ℕ)
    → IsAt c (state, pending)
    → suc (length pending) < 64
    → IsAt (feed b c) (state, pending ++ (b ∷ []))
feed-more c state pending b h more =
    let size = length-append pending (b ∷ []) in
    let one_more : length (pending ++ (b ∷ [])) ≡ suc (length pending) = omega arith in
    rw (feed_small b c (omega (arith, h.count, more))) record {
      state = h.state;
      size = length-set c.block c.block_bytes b ∙ h.size;
      count = ap suc h.count ∙ sym one_more;
      small = omega arith;
      pending = ap (λ n. take n (set c.block c.block_bytes b)) one_more ∙ grown c state pending b h;
    }

feed-IsAt :
    (c : PortableContext) (state pending : List ℕ) (b : ℕ) (bytes : List ℕ) (full : Bool)
    → (suc (length pending) == 64) ≡ full
    → IsAt c (state, pending)
    → IsAt (feed b c) (
        if full
        then (process_block state (pending ++ (b ∷ [])), [])
        else (state, pending ++ (b ∷ [])))
feed-IsAt c state pending b bytes true e h =
    feed-full c state pending b h ((==_iff (suc (length pending)) 64).0 e)
feed-IsAt c state pending b bytes false e h =
    feed-more c state pending b h (ground (arith, e, h.small))

-- Bytes that are fed go to blocks.
pub feed_all-IsAt :
    (bytes : List ℕ) (c : PortableContext) (state pending : List ℕ)
    → IsAt c (state, pending)
    → IsAt (feed_all bytes c) (by_blocks state pending bytes)
unfolding feed_all
feed_all-IsAt [] c state pending h = h
feed_all-IsAt (b ∷ bytes) c state pending h = elim (Bool-cases (suc (length pending) == 64)) [
  | inl full ↦ rw full (
      feed_all-IsAt bytes (feed b c) (process_block state (pending ++ (b ∷ []))) []
        (feed-IsAt c state pending b bytes true full h))
  | inr more ↦ rw more (
      feed_all-IsAt bytes (feed b c) state (pending ++ (b ∷ []))
        (feed-IsAt c state pending b bytes false more h))
]

-- The bytes that are no block yet.
pub length-by_blocks :
    (bytes state pending : List ℕ)
    → length pending < 64
    → length (by_blocks state pending bytes).1 ≡ (length pending + length bytes) % 64
length-by_blocks [] state pending h = omega arith
length-by_blocks (b ∷ bytes) state pending h =
    let size = length-append pending (b ∷ []) in
    elim (Bool-cases (suc (length pending) == 64)) [
      | inl full ↦
          let e = (==_iff (suc (length pending)) 64).0 full in
          rw full (
            length-by_blocks bytes (process_block state (pending ++ (b ∷ []))) [] (omega arith)
            ∙ omega arith)
      | inr more ↦
          let lt : suc (length pending) < 64 = ground (arith, more, h) in
          rw more (length-by_blocks bytes state (pending ++ (b ∷ [])) (omega arith) ∙ omega arith)
    ]

pub by_blocks-append :
    (xs ys state pending : List ℕ)
    → by_blocks state pending (xs ++ ys)
      ≡ by_blocks (by_blocks state pending xs).0 (by_blocks state pending xs).1 ys
by_blocks-append [] ys state pending = refl
by_blocks-append (b ∷ xs) ys state pending = elim (Bool-cases (suc (length pending) == 64)) [
  | inl full ↦ rw full (by_blocks-append xs ys (process_block state (pending ++ (b ∷ []))) [])
  | inr more ↦ rw more (by_blocks-append xs ys state (pending ++ (b ∷ [])))
]

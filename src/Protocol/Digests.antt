-- ===== src/Protocol/Digests.antt =====
-- The hash of the payload over a library whose contexts stand for the bytes that they have taken.
use typxen.Base.{
  ℕ, zero, suc, ◌+◌, ◌-◌, ◌≤◌, ◌≡◌, refl, sym, ap, ◌∙◌, subst, Bool, true, false, Option, none,
  some, List, [], ◌∷◌, ◌++◌, arith, length, min,
}
use typxen.Protocol.Types.{ok, Reader, Header, header_bytes}
use typxen.Protocol.Bytes.{slice, read_exact, same_bytes}
use typxen.Protocol.Payload.{and_then, compare_digest, hash_loop, verify_payload_sha256}
use typxen.Protocol.Hashing.{Holds, slice_split}
use mathlib.Core.List.{append_assoc}

-- What calls that succeed promise: a context that has begun has taken nothing, an update takes its
-- bytes after those before, and the digest is that of the bytes that were taken.
pub record IsDigesting {C : Type 0} (digest : List ℕ → List ℕ) (HasTaken : C → List ℕ → Type 0)
    (begin : C → Bool × C) (update : List ℕ → C → Bool × C) (finish : C → Option (List ℕ) × C)
    : Type 0 where
  pub begins : (c : C) → (begin c).0 ≡ true → HasTaken (begin c).1 []
  pub takes :
      (c : C) (xs ys : List ℕ)
      → HasTaken c xs
      → (update ys c).0 ≡ true
      → HasTaken (update ys c).1 (xs ++ ys)
  pub finishes : (c : C) (xs ds : List ℕ) → HasTaken c xs → (finish c).0 ≡ some ds → ds ≡ digest xs

pieces :
    (image : List ℕ) (offset n k : ℕ) (xs : List ℕ)
    → k ≤ suc n
    → (xs ++ slice image offset k) ++ slice image (offset + k) (suc n - k)
      ≡ xs ++ slice image offset (suc n)
pieces image offset n k xs h =
    let whole : k + (suc n - k) ≡ suc n = omega arith in
    append_assoc xs (slice image offset k) (slice image (offset + k) (suc n - k))
    ∙ ap (λ l. xs ++ l) (sym (slice_split image offset k (suc n - k)))
    ∙ ap (λ (m : ℕ). xs ++ slice image offset m) whole

append-nil : (xs : List ℕ) → xs ++ [] ≡ xs
append-nil [] = refl
append-nil (x ∷ xs) = ap (λ l. x ∷ l) (append-nil xs)

and_then-true :
    {C : Type 0} (p : Bool × C) (next : C → Bool × C)
    → (and_then p next).0 ≡ true
    → (p.0 ≡ true) × (and_then p next ≡ next p.1)
and_then-true (true, c) next h = (refl, refl)
and_then-true (false, c) next h = absurd cc

compare_digest_ok :
    (expected : List ℕ) (answer : Option (List ℕ))
    → compare_digest expected answer ≡ ok
    → (ds : List ℕ) × (answer ≡ some ds) × (same_bytes 32 ds expected ≡ true)
unfolding compare_digest
compare_digest_ok expected none h = absurd cc
compare_digest_ok expected (some ds) h = (ds, refl, ground arith)

hash_payload_ok :
    {C : Type 0} (reader : Reader) (header : Header) (begin : C → Bool × C)
    (update : List ℕ → C → Bool × C) (finish : C → Option (List ℕ) × C) (c : C)
    → (verify_payload_sha256 reader header
        (record { begin = some begin; update = some update; finish = some finish })
        c).0
      ≡ ok
    → let hashed = and_then (begin c) (
        hash_loop
          (read_exact reader)
          update
          header.payload_bytes
          header_bytes
          header.payload_bytes) in
      (hashed.0 ≡ true) × (compare_digest header.payload_sha256 (finish hashed.1).0 ≡ ok)
unfolding verify_payload_sha256
hash_payload_ok reader header begin update finish c h = ground arith

module _ {C : Type 0} {digest : List ℕ → List ℕ} {HasTaken : C → List ℕ → Type 0}
    {begin : C → Bool × C} {update : List ℕ → C → Bool × C} {finish : C → Option (List ℕ) × C}
    (d : IsDigesting digest HasTaken begin update finish) where
  round :
      (read : ℕ → ℕ → Option (List ℕ)) (fuel offset n k : ℕ) (xs : List ℕ) (c : C)
      → k ≡ min (suc n) 256
      → read offset k ≡ some xs
      → hash_loop read update (suc fuel) offset (suc n) c
        ≡ and_then (update xs c) (hash_loop read update fuel (offset + k) (suc n - k))
  unfolding hash_loop
  round read fuel offset n k xs c e r = ground (arith, r)

  -- A loop that succeeds has taken every byte of the range, in order.
  hash_loop-HasTaken :
      (read : ℕ → ℕ → Option (List ℕ)) (image : List ℕ) (fuel offset remaining : ℕ) (xs : List ℕ)
      (c : C)
      → Holds read image
      → offset + remaining ≤ length image
      → remaining ≤ fuel
      → HasTaken c xs
      → (hash_loop read update fuel offset remaining c).0 ≡ true
      → HasTaken
          (hash_loop read update fuel offset remaining c).1
          (xs ++ slice image offset remaining)
  unfolding hash_loop
  hash_loop-HasTaken read image zero offset zero xs c holds fits f t h = rw (append-nil xs) t
  hash_loop-HasTaken read image zero offset (suc n) xs c holds fits f t h = absurd (omega arith)
  hash_loop-HasTaken read image (suc fuel) offset zero xs c holds fits f t h = rw (append-nil xs) t
  hash_loop-HasTaken read image (suc fuel) offset (suc n) xs c holds fits f t h =
      let k = min (suc n) 256 in
      let piece = slice image offset k in
      let next = hash_loop read update fuel (offset + k) (suc n - k) in
      let is : hash_loop read update (suc fuel) offset (suc n) c ≡ and_then (update piece c) next =
        round read fuel offset n k piece c refl (holds offset k (omega arith)) in
      let (taken, goes) =
        and_then-true (update piece c) next (sym (ap (λ (x : Bool × C). x.0) is) ∙ h) in
      let after : hash_loop read update (suc fuel) offset (suc n) c ≡ next (update piece c).1 =
        is ∙ goes in
      let rest =
        hash_loop-HasTaken read image fuel (offset + k) (suc n - k) (xs ++ piece) (update piece c).1
          holds (omega arith) (omega arith) (d.takes c xs piece t taken)
          (sym (ap (λ (x : Bool × C). x.0) after) ∙ h) in
      subst (λ (x : Bool × C). HasTaken x.1 (xs ++ slice image offset (suc n))) (sym after)
        (subst (HasTaken (next (update piece c).1).1) (pieces image offset n k xs (omega arith))
          rest)

  -- A payload that is accepted has the digest of the header.
  pub verify_payload_sha256-digest :
      (reader : Reader) (header : Header) (image : List ℕ) (c : C)
      → Holds (read_exact reader) image
      → header_bytes + header.payload_bytes ≤ length image
      → (verify_payload_sha256 reader header
          (record { begin = some begin; update = some update; finish = some finish })
          c).0
        ≡ ok
      → same_bytes 32 (digest (slice image header_bytes header.payload_bytes)) header.payload_sha256
        ≡ true
  verify_payload_sha256-digest reader header image c holds fits h =
      let loop =
        hash_loop (read_exact reader) update header.payload_bytes header_bytes
          header.payload_bytes in
      let (hashed, compared) = hash_payload_ok reader header begin update finish c h in
      let (begun, goes) = and_then-true (begin c) loop hashed in
      let (ds, answered, same) =
        compare_digest_ok header.payload_sha256 (finish (and_then (begin c) loop).1).0 compared in
      let taken =
        hash_loop-HasTaken (read_exact reader) image header.payload_bytes header_bytes
          header.payload_bytes [] (begin c).1 holds fits (omega arith) (d.begins c begun)
          (sym (ap (λ (x : Bool × C). x.0) goes) ∙ hashed) in
      let payload = slice image header_bytes header.payload_bytes in
      let taken' : HasTaken (and_then (begin c) loop).1 payload =
        subst (λ (x : Bool × C). HasTaken x.1 payload) (sym goes) taken in
      rw (sym (d.finishes (and_then (begin c) loop).1 payload ds taken' answered)) same

-- ===== src/Protocol/Hashing.antt =====
-- The hash loop against one update with all the bytes.
use typxen.Base.{
  ℕ, zero, suc, ◌+◌, ◌-◌, ◌≤◌, ◌≡◌, refl, sym, ap, ◌∙◌, Bool, true, Option, some, List, [], ◌++◌,
  arith, length, drop, min, take_split, drop_split, length-take, length-drop,
}
use typxen.Protocol.Bytes.{slice}
use typxen.Protocol.Payload.{hash_loop}

-- What a provider's `update` promises: it takes bytes while it has room for them, and two calls are
-- one call with the bytes in a row.
pub record IsStreaming {C : Type 0} (update : List ℕ → C → Bool × C) : Type 0 where
  pub absorb : C → List ℕ → C
  pub room : C → ℕ
  pub accepts : (c : C) (xs : List ℕ) → length xs ≤ room c → update xs c ≡ (true, absorb c xs)
  pub rest : (c : C) (xs : List ℕ) → length xs ≤ room c → room (absorb c xs) + length xs ≡ room c
  pub nothing : (c : C) → absorb c [] ≡ c
  pub in_a_row : (c : C) (xs ys : List ℕ) → absorb c (xs ++ ys) ≡ absorb (absorb c xs) ys

-- A source of pieces that stands for the bytes of `image`.
abbrev pub Holds : (ℕ → ℕ → Option (List ℕ)) → List ℕ → Type 0
Holds read image =
    (offset n : ℕ) → offset + n ≤ length image → read offset n ≡ some (slice image offset n)

pub length-slice :
    (image : List ℕ) (offset n : ℕ) → offset + n ≤ length image → length (slice image offset n) ≡ n
length-slice image offset n h =
    omega (arith, length-take n (drop offset image), length-drop offset image)

pub slice_split :
    (image : List ℕ) (offset k m : ℕ)
    → slice image offset (k + m) ≡ slice image offset k ++ slice image (offset + k) m
slice_split image offset k m =
    rw (drop_split offset k (offset + k) image refl)
      (take_split k m (k + m) (drop offset image) refl)

module _ {C : Type 0} {update : List ℕ → C → Bool × C} (s : IsStreaming update) where
  open s use {absorb, room, accepts, rest, nothing, in_a_row}

  absorb_chunk :
      (image : List ℕ) (offset k m : ℕ) (c : C)
      → absorb (absorb c (slice image offset k)) (slice image (offset + k) m)
        ≡ absorb c (slice image offset (k + m))
  absorb_chunk image offset k m c = rw (slice_split image offset k m) (sym (in_a_row c _ _))

  round :
      (read : ℕ → ℕ → Option (List ℕ)) (fuel offset n k : ℕ) (xs : List ℕ) (c c' : C)
      → k ≡ min (suc n) 256
      → read offset k ≡ some xs
      → update xs c ≡ (true, c')
      → hash_loop read update (suc fuel) offset (suc n) c
        ≡ hash_loop read update fuel (offset + k) (suc n - k) c'
  unfolding hash_loop
  round read fuel offset n k xs c c' e r u = ground (arith, r, u)

  -- The loop ends with every byte of the range taken, in order, if it has a round for each byte.
  pub hash_loop_lem :
      (read : ℕ → ℕ → Option (List ℕ)) (image : List ℕ) (fuel offset remaining : ℕ) (c : C)
      → Holds read image
      → offset + remaining ≤ length image
      → remaining ≤ room c
      → remaining ≤ fuel
      → hash_loop read update fuel offset remaining c
        ≡ (true, absorb c (slice image offset remaining))
  unfolding hash_loop
  hash_loop_lem read image zero offset zero c holds fits enough f = rw nothing
  hash_loop_lem read image zero offset (suc n) c holds fits enough f = absurd (omega arith)
  hash_loop_lem read image (suc fuel) offset zero c holds fits enough f = rw nothing
  hash_loop_lem read image (suc fuel) offset (suc n) c holds fits enough f =
      let k = min (suc n) 256 in
      let xs = slice image offset k in
      let size = length-slice image offset k (omega arith) in
      let whole : k + (suc n - k) ≡ suc n = omega arith in
      round read fuel offset n k xs c (absorb c xs) refl (holds offset k (omega arith))
        (accepts c xs (omega arith))
      ∙ hash_loop_lem read image fuel (offset + k) (suc n - k) (absorb c xs) holds (omega arith)
          (omega (arith, rest c xs (omega arith))) (omega arith)
      ∙ ap (λ x. (true, x)) (absorb_chunk image offset k (suc n - k) c)
      ∙ ap (λ (m : ℕ). (true, absorb c (slice image offset m))) whole

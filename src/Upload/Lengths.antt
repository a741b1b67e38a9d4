-- ===== src/Upload/Lengths.antt =====
-- The lengths of the chunks as a list: their sum, the length that each chunk must have, and the loop of
-- `typx_upload_finalize` over the chunks.
use typxen.Base.{
  ℕ, zero, suc, ◌+◌, ◌-◌, ◌*◌, ◌≤◌, ◌<◌, ◌≡◌, refl, ap, ◌∙◌, ◌⊎◌, inl, inr, true, List, [], ◌∷◌,
  arith, length, get_or, min, set, replicate,
}
use typxen.Upload.Types.{chunk_bytes}
use typxen.Upload.Chunk.{expected_length}
use typxen.Upload.Finalize.{all_received}

abbrev pub total : List ℕ → ℕ
total [] = 0
total (n ∷ lengths) = n + total lengths

-- Each chunk from the offset `at` on is missing or has the length that it must have.
abbrev pub Fits : ℕ → ℕ → List ℕ → Type 0
Fits size at [] = Unit
Fits size at (n ∷ lengths) =
    ((n ≡ 0) ⊎ (n ≡ expected_length size at)) × Fits size (at + chunk_bytes) lengths

pub Fits-total : (size at : ℕ) (lengths : List ℕ) → Fits size at lengths → total lengths ≤ size - at
Fits-total size at [] h = omega arith
Fits-total size at (n ∷ lengths) h =
    let rest = Fits-total size (at + chunk_bytes) lengths h.1 in
    elim h.0 [ inl missing ↦ omega arith | inr whole ↦ omega arith ]

pub Fits-set :
    (size at i : ℕ) (lengths : List ℕ)
    → Fits size at lengths
    → Fits size at (set lengths i (expected_length size (at + i * chunk_bytes)))
Fits-set size at i [] h = tt
Fits-set size at zero (n ∷ lengths) h = (inr (omega arith), h.1)
Fits-set size at (suc i) (n ∷ lengths) h =
    let e : at + suc i * chunk_bytes ≡ at + chunk_bytes + i * chunk_bytes = omega arith in
    (h.0, rw e (Fits-set size (at + chunk_bytes) i lengths h.1))

pub total-set :
    (i v : ℕ) (lengths : List ℕ)
    → get_or lengths i 0 ≡ 0
    → i < length lengths
    → total (set lengths i v) ≡ total lengths + v
total-set i v [] h l = absurd (omega arith)
total-set zero v (n ∷ lengths) h l = omega arith
total-set (suc i) v (n ∷ lengths) h l = omega (arith, total-set i v lengths h (omega arith))

pub Fits-replicate : (size at n : ℕ) → Fits size at (replicate n 0)
Fits-replicate size at zero = tt
Fits-replicate size at (suc n) = (inl refl, Fits-replicate size (at + chunk_bytes) n)

-- A chunk that is not the first is a chunk of the rest.
all_received-suc :
    (n index x : ℕ) (lengths : List ℕ)
    → all_received n (suc index) (x ∷ lengths) ≡ all_received n index lengths
unfolding all_received
all_received-suc zero index x lengths = refl
all_received-suc (suc n) index x lengths = rw (all_received-suc n (suc index) x lengths)

all_received_step :
    (n x : ℕ) (lengths : List ℕ)
    → 0 < x
    → all_received n 0 lengths ≡ true
    → all_received (suc n) 0 (x ∷ lengths) ≡ true
unfolding all_received
all_received_step n x lengths h r = ground (arith, all_received-suc n 0 x lengths)

pub Fits-all_received :
    (size at n : ℕ) (lengths : List ℕ)
    → Fits size at lengths
    → total lengths ≡ size - at
    → n * chunk_bytes < size - at + chunk_bytes
    → all_received n 0 lengths ≡ true
unfolding all_received
Fits-all_received size at zero lengths h e b = refl
Fits-all_received size at (suc n) [] h e b = absurd (omega arith)
Fits-all_received size at (suc n) (x ∷ lengths) h e b =
    let least = Fits-total size (at + chunk_bytes) lengths h.1 in
    elim h.0 [
      | inl missing ↦ absurd (omega arith)
      | inr whole ↦
          all_received_step n x lengths (omega arith)
            (Fits-all_received size (at + chunk_bytes) n lengths h.1 (omega arith) (omega arith))
    ]

-- From the offset `at` on, each of the next `n` chunks has the length that it must have.
abbrev pub WholeFrom : ℕ → ℕ → ℕ → List ℕ → Type 0
WholeFrom size at n lengths =
    (i : ℕ) → i < n → get_or lengths i 0 ≡ expected_length size (at + i * chunk_bytes)

all_received-cons :
    (n x : ℕ) (lengths : List ℕ)
    → all_received (suc n) 0 (x ∷ lengths) ≡ true
    → (0 < x) × (all_received n 0 lengths ≡ true)
unfolding all_received
all_received-cons n x lengths h = ground (arith, all_received-suc n 0 x lengths)

pub all_received-WholeFrom :
    (size at n : ℕ) (lengths : List ℕ)
    → Fits size at lengths
    → all_received n 0 lengths ≡ true
    → WholeFrom size at n lengths
unfolding all_received
all_received-WholeFrom size at zero lengths h e i lt = absurd (omega arith)
all_received-WholeFrom size at (suc n) [] h e i lt = absurd (ground (arith, e))
all_received-WholeFrom size at (suc n) (x ∷ lengths) h e zero lt =
    let here = (all_received-cons n x lengths e).0 in
    elim h.0 [ inl missing ↦ absurd (omega arith) | inr whole ↦ omega arith ]
all_received-WholeFrom size at (suc n) (x ∷ lengths) h e (suc i) lt =
    let rest = (all_received-cons n x lengths e).1 in
    let later : at + suc i * chunk_bytes ≡ at + chunk_bytes + i * chunk_bytes = omega arith in
    rw later (all_received-WholeFrom size (at + chunk_bytes) n lengths h.1 rest i (omega arith))

pub WholeFrom-total :
    (size at n : ℕ) (lengths : List ℕ)
    → Fits size at lengths
    → WholeFrom size at n lengths
    → size - at ≤ n * chunk_bytes
    → total lengths ≡ size - at
WholeFrom-total size at zero lengths h w b = omega (arith, Fits-total size at lengths h)
WholeFrom-total size at (suc n) [] h w b = omega (arith, w 0 (omega arith))
WholeFrom-total size at (suc n) (x ∷ lengths) h w b =
    let rest =
      WholeFrom-total size (at + chunk_bytes) n lengths h.1
        (λ i lt. w (suc i) (omega arith) ∙ ap (expected_length size) (omega arith)) (omega arith) in
    omega (arith, w 0 (omega arith))

-- Each of the first `n` chunks is there with the chunk size, or with what is left of the whole size.
abbrev pub Whole : ℕ → ℕ → List ℕ → Type 0
Whole size n lengths =
    (i : ℕ) → i < n → get_or lengths i 0 ≡ min (size - i * chunk_bytes) chunk_bytes

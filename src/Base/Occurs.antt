-- ===== src/Base/Occurs.antt =====
-- Entries that a list holds in a given order, others between them.
use mathlib.Core.List.{List, [], ◌∷◌}

pub data Occur {ℓ} {A : Type ℓ} : List A → List A → Type ℓ where
  all : {entries : List A} → Occur [] entries
  skip : {wanted entries : List A} {x : A} → Occur wanted entries → Occur wanted (x ∷ entries)
  keep : {wanted entries : List A} {x : A} → Occur wanted entries → Occur (x ∷ wanted) (x ∷ entries)

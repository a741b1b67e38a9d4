-- ===== src/Base/Bits.antt =====
-- Bit operations on native numbers: laws for disjoint fields and masks, and a check of every value
-- below a bound.
use Prim.Native.Nat.{
  ℕ, zero, suc, ◌+◌, ◌*◌, ◌/◌, ◌%◌, ◌^◌, ◌≤◌, ◌<◌, min, max, bit_and, bit_or, digits,
  bit_and-bitwise, bit_or-bitwise,
}
use mathlib.Core.Path.{◌≡◌, refl, ap}
use mathlib.Core.Bool.{Bool, true, false}
use native.Mathlib.Nat.{pow-suc}
use native.Mathlib.Omega.{arith}

-- Whether `test` passes at every number under the bound; it stops at the first failure.
unfoldable pub passes_under : (ℕ → Bool) → ℕ → Bool
passes_under test zero = true
passes_under test (suc bound) = elim (test bound) [ true ↦ passes_under test bound | false ↦ false ]

pub passes_under_at :
    (test : ℕ → Bool) (bound n : ℕ) → n < bound → passes_under test bound ≡ true → test n ≡ true
unfolding passes_under
passes_under_at test zero n under all = absurd (omega arith)
passes_under_at test (suc bound) n under all = ground (arith, passes_under_at test bound n)

-- Rounds beyond the value of the first number add nothing.
module _ (rest : ℕ → ℕ) (bit : ℕ → ℕ → ℕ) where
  spare_rounds : (m n x y : ℕ) → x ≤ m → x ≤ n → digits rest bit m x y ≡ digits rest bit n x y
  spare_rounds zero zero zero y p q = refl
  spare_rounds zero (suc n) zero y p q = refl
  spare_rounds (suc m) zero zero y p q = refl
  spare_rounds (suc m) (suc n) zero y p q = refl
  spare_rounds zero n (suc x) y p q = absurd (omega arith)
  spare_rounds (suc m) zero (suc x) y p q = absurd (omega arith)
  spare_rounds (suc m) (suc n) (suc x) y p q =
      omega (arith, spare_rounds m n (suc x / 2) (y / 2) (omega arith) (omega arith))

-- One binary digit of each operation.
pub bit_or_halves : (x y : ℕ) → bit_or x y ≡ bit_or (x / 2) (y / 2) * 2 + max (x % 2) (y % 2)
bit_or_halves zero y = omega (arith, bit_or-bitwise 0 y, bit_or-bitwise 0 (y / 2))
bit_or_halves (suc x) y = omega (
  arith,
  bit_or-bitwise (suc x) y,
  bit_or-bitwise (suc x / 2) (y / 2),
  spare_rounds (λ b. b) max x (suc x / 2) (suc x / 2) (y / 2) (omega arith) (omega arith),
)

pub bit_and_halves : (x y : ℕ) → bit_and x y ≡ bit_and (x / 2) (y / 2) * 2 + min (x % 2) (y % 2)
bit_and_halves zero y = omega (arith, bit_and-bitwise 0 y, bit_and-bitwise 0 (y / 2))
bit_and_halves (suc x) y = omega (
  arith,
  bit_and-bitwise (suc x) y,
  bit_and-bitwise (suc x / 2) (y / 2),
  spare_rounds (λ b. 0) min x (suc x / 2) (suc x / 2) (y / 2) (omega arith) (omega arith),
)

pub zero-bit_or : (y : ℕ) → bit_or 0 y ≡ y
zero-bit_or y = bit_or-bitwise 0 y

-- A low field and a field shifted above it are disjoint, so `|` adds them.
pub bit_or_fields : (k lo hi : ℕ) → lo < 2 ^ k → bit_or lo (hi * 2 ^ k) ≡ lo + hi * 2 ^ k
bit_or_fields zero lo hi h = ground (arith, zero-bit_or (hi * 1))
bit_or_fields (suc k) lo hi h = ground (
  arith,
  bit_or_halves lo (hi * 2 ^ suc k),
  pow-suc 2 k,
  ap (λ (t : ℕ). hi * t) (pow-suc 2 k),
  bit_or_fields k (lo / 2) hi,
)

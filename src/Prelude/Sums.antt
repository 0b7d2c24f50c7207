-- ===== src/Prelude/Sums.antt =====
-- Sums over a list and over the references of a heap, and the update of a heap at one reference.
use Prim.Native.Nat.{ℕ, zero, suc, ◌+◌, ◌≤◌, ◌<◌}
use mathlib.Core.Path.{◌≡◌, refl}
use mathlib.Core.Logic.{◌≢◌}
use mathlib.Core.List.{List, [], ◌∷◌, ◌++◌}
use native.Mathlib.Omega.{arith}
use native.Mathlib.Decide.{ℕ_discrete}
use mathlib.Core.Bool.{Bool, not}
use myqrlwallet_backend.Prelude.Tests.{◌==◌, if◌then◌else◌}
use myqrlwallet_backend.Prelude.Lists.{keep_if}

module _ {ℓ} {A : Type ℓ} where
  unfoldable pub sum_by : (A → ℕ) → List A → ℕ
  sum_by f [] = 0
  sum_by f (x ∷ xs) = f x + sum_by f xs

  pub sum_by-append : (f : A → ℕ) (xs ys : List A) → sum_by f (xs ++ ys) ≡ sum_by f xs + sum_by f ys
  unfolding sum_by
  sum_by-append f [] ys = omega arith
  sum_by-append f (x ∷ xs) ys = omega (arith, sum_by-append f xs ys)

  -- A heap: the objects that the program has made, by reference.
  abbrev pub update : ℕ → A → (ℕ → A) → ℕ → A
  update r a heap k = if k == r then a else heap k

-- The sum over the references below the bound.
unfoldable pub sum_to : ℕ → (ℕ → ℕ) → ℕ
sum_to zero g = 0
sum_to (suc n) g = sum_to n g + g n

pub sum_to_outside :
    (n r : ℕ) (g k : ℕ → ℕ) → ((i : ℕ) → i ≢ r → g i ≡ k i) → n ≤ r → sum_to n g ≡ sum_to n k
unfolding sum_to
sum_to_outside zero r g k same h = refl
sum_to_outside (suc n) r g k same h =
    omega (arith, sum_to_outside n r g k same (omega arith), same n (omega arith))

-- Two heaps that differ at one reference only.
pub sum_to_change :
    (n r : ℕ) (g k : ℕ → ℕ)
    → ((i : ℕ) → i ≢ r → g i ≡ k i)
    → r < n
    → sum_to n g + k r ≡ sum_to n k + g r
unfolding sum_to
sum_to_change zero r g k same h = absurd (omega arith)
sum_to_change (suc n) r g k same h = elim (ℕ_discrete n r) [
  | yes e ↦ rw (← e) (omega (arith, sum_to_outside n n g k (rw e same) (omega arith)))
  | no ne ↦ omega (arith, sum_to_change n r g k same (omega arith), same n ne)
]

pub sum_to_member : (n r : ℕ) (g : ℕ → ℕ) → r < n → g r ≤ sum_to n g
unfolding sum_to
sum_to_member zero r g h = absurd (omega arith)
sum_to_member (suc n) r g h = elim (ℕ_discrete n r) [
  | yes e ↦ rw (← e) (omega arith)
  | no ne ↦ omega (arith, sum_to_member n r g (omega arith))
]

pub sum_to_ext : (n : ℕ) (g k : ℕ → ℕ) → ((i : ℕ) → g i ≡ k i) → sum_to n g ≡ sum_to n k
unfolding sum_to
sum_to_ext zero g k same = refl
sum_to_ext (suc n) g k same = omega (arith, sum_to_ext n g k same, same n)

-- A filter and its complement share a sum out.
pub sum_by-partition {ℓ} :
    {A : Type ℓ} (f : A → ℕ) (p : A → Bool) (xs : List A)
    → sum_by f xs ≡ sum_by f (keep_if p xs) + sum_by f (keep_if (λ x. not (p x)) xs)
unfolding sum_by keep_if
sum_by-partition f p [] = omega arith
sum_by-partition f p (x ∷ xs) = ground (arith, sum_by-partition f p xs)

-- ===== src/Prelude/Sums.antt =====
-- Sums and maxima over lists.
use Prim.Native.Nat.{ℕ, ◌+◌, max}
use mathlib.Core.Logic.{∥∥₁_elim}
use mathlib.Core.Path.{◌≡◌, refl, ap, ◌∙◌}
use mathlib.Core.List.{List, [], ◌∷◌, ◌++◌, Perm, Permᴰ}
use native.Mathlib.Nat.{ℕ_set}
use native.Mathlib.Omega.{arith}

module _ {ℓ} {A : Type ℓ} where
  abbrev pub sum_of : (A → ℕ) → List A → ℕ
  sum_of f [] = 0
  sum_of f (x ∷ xs) = f x + sum_of f xs

  pub sum_of-append : (f : A → ℕ) (xs ys : List A) → sum_of f (xs ++ ys) ≡ sum_of f xs + sum_of f ys
  sum_of-append f [] ys = omega arith
  sum_of-append f (x ∷ xs) ys = omega (arith, sum_of-append f xs ys)

  sum_of-Permᴰ : (f : A → ℕ) {xs ys : List A} → Permᴰ xs ys → sum_of f xs ≡ sum_of f ys
  sum_of-Permᴰ f Permᴰ.nil = refl
  sum_of-Permᴰ f (Permᴰ.cons e p) = omega (arith, ap f e, sum_of-Permᴰ f p)
  sum_of-Permᴰ f (Permᴰ.swap e e') = omega (arith, ap f e, ap f e')
  sum_of-Permᴰ f (Permᴰ.trans p q) = sum_of-Permᴰ f p ∙ sum_of-Permᴰ f q

  -- The order does not count.
  pub sum_of-Perm : (f : A → ℕ) (xs ys : List A) → Perm xs ys → sum_of f xs ≡ sum_of f ys
  sum_of-Perm f xs ys p = ∥∥₁_elim p (ℕ_set _ _) (sum_of-Permᴰ f)

module _ {ℓ} {A : Type ℓ} where
  abbrev pub max_of : (A → ℕ) → List A → ℕ
  max_of f [] = 0
  max_of f (x ∷ xs) = max (f x) (max_of f xs)

  max_of-Permᴰ : (f : A → ℕ) {xs ys : List A} → Permᴰ xs ys → max_of f xs ≡ max_of f ys
  max_of-Permᴰ f Permᴰ.nil = refl
  max_of-Permᴰ f (Permᴰ.cons e p) = omega (arith, ap f e, max_of-Permᴰ f p)
  max_of-Permᴰ f (Permᴰ.swap e e') = omega (arith, ap f e, ap f e')
  max_of-Permᴰ f (Permᴰ.trans p q) = max_of-Permᴰ f p ∙ max_of-Permᴰ f q

  pub max_of-Perm : (f : A → ℕ) (xs ys : List A) → Perm xs ys → max_of f xs ≡ max_of f ys
  max_of-Perm f xs ys p = ∥∥₁_elim p (ℕ_set _ _) (max_of-Permᴰ f)

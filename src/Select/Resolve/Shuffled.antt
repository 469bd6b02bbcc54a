-- ===== src/Select/Resolve/Shuffled.antt =====
-- The positions of a range in another order.
use mathlib.Core.List.{Perm}
use xsv.Prelude.{ℕ, ◌≡◌, ◌<◌, refl, sym, ◌∙◌, List, [], ◌∷◌, length, All, ltb, if◌then◌else◌, arith}
use xsv.Prelude.Sums.{sum_of, sum_of-Perm}
use xsv.Select.Resolve.{ascending}
use xsv.Select.Resolve.Range.{ascending-All, length-ascending}

-- Whether a number is out of range, counted over a list.
abbrev outside : ℕ → ℕ → ℕ
outside n i = if ltb i n then 0 else 1

outside-none : (n : ℕ) (is : List ℕ) → All (λ i. i < n) is → sum_of (outside n) is ≡ 0
outside-none n [] h = refl
outside-none n (i ∷ is) (h, hs) =
    let e : outside n i ≡ 0 = ground arith in omega (arith, e, outside-none n is hs)

outside-All : (n : ℕ) (is : List ℕ) → sum_of (outside n) is ≡ 0 → All (λ i. i < n) is
outside-All n [] e = tt
outside-All n (i ∷ is) e =
    let here : outside n i ≡ 0 = omega arith in (ground arith, outside-All n is (omega arith))

sum_of_ones : (is : List ℕ) → sum_of (λ i. 1) is ≡ length is
sum_of_ones [] = refl
sum_of_ones (i ∷ is) = omega (arith, sum_of_ones is)

module _ (n : ℕ) (is : List ℕ) (p : Perm is (ascending 0 n)) where
  pub shuffled-length : length is ≡ n
  shuffled-length =
      sym (sum_of_ones is)
      ∙ sum_of-Perm (λ i. 1) is (ascending 0 n) p
      ∙ sum_of_ones (ascending 0 n)
      ∙ length-ascending 0 n

  pub shuffled-All : All (λ i. i < n) is
  shuffled-All = outside-All n is (
      sum_of-Perm (outside n) is (ascending 0 n) p
      ∙ outside-none n (ascending 0 n) (ascending-All 0 n n (omega arith)))

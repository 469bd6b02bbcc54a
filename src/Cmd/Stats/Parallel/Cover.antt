-- ===== src/Cmd/Stats/Parallel/Cover.antt =====
-- The maximum over chunks that cover a list.
use xsv.Prelude.{
  ℕ, zero, suc, ◌+◌, ◌*◌, ◌≡◌, ◌≤◌, ◌<◌, refl, ap, ◌∙◌, List, [], ◌∷◌, Option, some, max, length,
  take, drop, drop-drop, take-nil, take_all, All, arith,
}
use xsv.Prelude.Sums.{max_of}
use xsv.Select.Resolve.{ascending}
use xsv.Cmd.Frequency.{received}

module _ {A : Type 0} (f : A → ℕ) where
  max_of-take :
      (c q : ℕ) (xs : List A)
      → max_of f (take (c + q) xs) ≡ max (max_of f (take c xs)) (max_of f (take q (drop c xs)))
  max_of-take zero q xs = let e : 0 + q ≡ q = omega arith in rw e (omega arith)
  max_of-take (suc c) q [] =
      let e : suc c + q ≡ suc (c + q) = omega arith in rw (e, take-nil) (omega arith)
  max_of-take (suc c) q (x ∷ xs) =
      let e : suc c + q ≡ suc (c + q) = omega arith in rw e (omega (arith, max_of-take c q xs))

  max_of-chunks :
      (c m n : ℕ) (xs : List A)
      → max_of (λ k. max_of f (take c (drop (k * c) xs))) (ascending m n)
        ≡ max_of f (take (n * c) (drop (m * c) xs))
  unfolding ascending
  max_of-chunks c m zero xs = let e : 0 * c ≡ 0 = omega arith in rw e refl
  max_of-chunks c m (suc n) xs =
      let more : suc n * c ≡ c + n * c = grind arith in
      let next : suc m * c ≡ m * c + c = grind arith in
      rw more (
        omega (
          arith,
          max_of-take c (n * c) (drop (m * c) xs),
          rw next at (max_of-chunks c (suc m) n xs),
          ap (λ ys. max_of f (take (n * c) ys)) (drop-drop c (m * c) xs),
        ))

  pub max_of-all_chunks :
      (c n : ℕ) (xs : List A)
      → length xs ≤ n * c
      → max_of (λ k. max_of f (take c (drop (k * c) xs))) (ascending 0 n) ≡ max_of f xs
  max_of-all_chunks c n xs l =
      let e : 0 * c ≡ 0 = omega arith in
      rw e at (max_of-chunks c 0 n xs) ∙ ap (max_of f) (take_all (n * c) xs l)

pub max_of-received :
    {F : Type 0} (g : List F → ℕ) (h : ℕ → ℕ) (work : ℕ → Option (List F)) (k : ℕ) (order : List ℕ)
    → ((i : ℕ) → i < k → (xs : List F) × (work i ≡ some xs) × (g xs ≡ h i))
    → All (λ i. i < k) order
    → max_of g (received work order) ≡ max_of h order
unfolding received
max_of-received g h work k [] sends t = refl
max_of-received g h work k (i ∷ order) sends (l, t) =
    let (xs, e, same) = sends i l in
    rw (received, e) (omega (arith, same, max_of-received g h work k order sends t))

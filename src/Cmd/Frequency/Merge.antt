-- ===== src/Cmd/Frequency/Merge.antt =====
-- The sums of the chunks, in whichever order they arrive.
use xsv.Prelude.{
  ℕ, zero, suc, ◌+◌, ◌*◌, ◌≡◌, ◌≤◌, ◌<◌, refl, ap, ◌∙◌, List, [], ◌∷◌, Option, none, some,
  Option-cases, length, take, drop, drop-drop, take-nil, take_all, All, arith, inl, inr,
}
use xsv.Prelude.Sums.{sum_of}
use xsv.Select.Resolve.{ascending}
use xsv.Cmd.Frequency.{received}

module _ {A : Type 0} (f : A → ℕ) where
  sum_of-take :
      (c q : ℕ) (xs : List A)
      → sum_of f (take (c + q) xs) ≡ sum_of f (take c xs) + sum_of f (take q (drop c xs))
  sum_of-take zero q xs = let e : 0 + q ≡ q = omega arith in rw e (omega arith)
  sum_of-take (suc c) q [] =
      let e : suc c + q ≡ suc (c + q) = omega arith in rw (e, take-nil) (omega arith)
  sum_of-take (suc c) q (x ∷ xs) =
      let e : suc c + q ≡ suc (c + q) = omega arith in rw e (omega (arith, sum_of-take c q xs))

  sum_of-chunks :
      (c m n : ℕ) (xs : List A)
      → sum_of (λ k. sum_of f (take c (drop (k * c) xs))) (ascending m n)
        ≡ sum_of f (take (n * c) (drop (m * c) xs))
  unfolding ascending
  sum_of-chunks c m zero xs = let e : 0 * c ≡ 0 = omega arith in rw e refl
  sum_of-chunks c m (suc n) xs =
      let more : suc n * c ≡ c + n * c = grind arith in
      let next : suc m * c ≡ m * c + c = grind arith in
      rw more (
        omega (
          arith,
          sum_of-take c (n * c) (drop (m * c) xs),
          rw next at (sum_of-chunks c (suc m) n xs),
          ap (λ ys. sum_of f (take (n * c) ys)) (drop-drop c (m * c) xs),
        ))

  -- The sum over all the chunks, if they cover the list.
  pub sum_of-all_chunks :
      (c n : ℕ) (xs : List A)
      → length xs ≤ n * c
      → sum_of (λ k. sum_of f (take c (drop (k * c) xs))) (ascending 0 n) ≡ sum_of f xs
  sum_of-all_chunks c n xs l =
      let e : 0 * c ≡ 0 = omega arith in
      rw e at (sum_of-chunks c 0 n xs) ∙ ap (sum_of f) (take_all (n * c) xs l)

pub sum_of-ascending :
    (f g : ℕ → ℕ) (m n : ℕ)
    → ((k : ℕ) → k < m + n → f k ≡ g k)
    → sum_of f (ascending m n) ≡ sum_of g (ascending m n)
unfolding ascending
sum_of-ascending f g m zero h = refl
sum_of-ascending f g m (suc n) h =
    omega (arith, h m (omega arith), sum_of-ascending f g (suc m) n (λ k l. h k (omega arith)))

module _ {F : Type 0} (work : ℕ → Option (List F)) where
  -- What a chunk adds to a measure of the tables; nothing if its worker panics.
  abbrev pub share : (List F → ℕ) → Option (List F) → ℕ
  share f none = 0
  share f (some tabs) = f tabs

  pub sum_of-received :
      (f : List F → ℕ) (order : List ℕ)
      → sum_of f (received work order) ≡ sum_of (λ k. share f (work k)) order
  unfolding received
  sum_of-received f [] = refl
  sum_of-received f (k ∷ order) = elim (Option-cases (work k)) [
    | inl panics ↦ rw (panics, received) (omega (arith, sum_of-received f order))
    | inr (tabs, sends) ↦ rw (sends, received) (omega (arith, sum_of-received f order))
  ]

  pub received-All :
      (P : List F → Type 0) (order : List ℕ)
      → ((k : ℕ) (tabs : List F) → work k ≡ some tabs → P tabs)
      → All P (received work order)
  unfolding received
  received-All P [] h = tt
  received-All P (k ∷ order) h =
      let rest = received-All P order h in
      elim (Option-cases (work k)) [
        | inl panics ↦ rw (panics, received) rest
        | inr (tabs, sends) ↦ rw (sends, received) (h k tabs sends, rest)
      ]

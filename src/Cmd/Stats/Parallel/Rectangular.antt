-- ===== src/Cmd/Stats/Parallel/Rectangular.antt =====
-- Merging keeps the columns and their parts.
use xsv.Prelude.Sums.{max_of}
use xsv.Cmd.Stats.Types.{rank, rank-merge}
use xsv.Cmd.Stats.Command.Rectangular.{rank_at, by_position}
use xsv.Prelude.{
  max, ℕ, suc, ◌≡◌, ◌<◌, refl, sym, ap, ◌∙◌, Bool, true, false, List, [], ◌∷◌, Option, none, some,
  length, All, if◌then◌else◌, arith,
}
use xsv.Cmd.Stats.{Floats}
use xsv.Cmd.Stats.Range.{Extremes}
use xsv.Cmd.Stats.Column.{Summaries, WhichStats, Column}
use xsv.Cmd.Stats.Column.Shape.{HasParts}
use xsv.Cmd.Stats.Parallel.{Merging, same, which_eq, column_merge, joined_column}

-- Merging two vectors merges their elements; there is no result for different lengths.
abbrev pub zip_merge : {A : Type 0} → (A → A → Option A) → List A → List A → Option (List A)
zip_merge f [] [] = some []
zip_merge f [] (y ∷ ys) = none
zip_merge f (x ∷ xs) [] = none
zip_merge f (x ∷ xs) (y ∷ ys) = elim (f x y) [
  | none ↦ none
  | some z ↦ elim (zip_merge f xs ys) [ none ↦ none | some zs ↦ some (z ∷ zs) ]
]

abbrev pub fold_merge : {A : Type 0} → (A → A → Option A) → List A → List (List A) → Option (List A)
fold_merge f xs [] = some xs
fold_merge f xs (ys ∷ rest) = elim (zip_merge f xs ys) [
  | none ↦ none
  | some zs ↦ fold_merge f zs rest
]

abbrev pub found : {A : Type 0} → Option A → Option (Option A)
found none = none
found (some a) = some (some a)

-- What the stats crate documents: merging with an absent part, and merging all of a stream into its
-- first element.
pub record IsMerging {n : Floats} {q : Summaries n} (j : Merging q) : Type 1 where
  pub none_joined : {A : Type 0} (f : A → A → A) → j.join_option f none none ≡ none
  pub all_merged :
      {A : Type 0} (f : A → A → Option A) (xs : List A) (rest : List (List A))
      → j.merge_all f (xs ∷ rest) ≡ found (fold_merge f xs rest)

same_refl : (b : Bool) → same b b ≡ true
unfolding same
same_refl true = refl
same_refl false = refl

which_eq_refl : (w : WhichStats) → which_eq w w ≡ true
unfolding which_eq
which_eq_refl w =
    rw
      (
        same_refl w.include_nulls,
        same_refl w.sum,
        same_refl w.range,
        same_refl w.dist,
        same_refl w.cardinality,
        same_refl w.median,
        same_refl w.mode,
      )
      refl

module _ (n : Floats) (m : Extremes n) (q : Summaries n) (j : Merging q) (laws : IsMerging j) where
  column_merge-HasParts :
      (which : WhichStats) (s t : Column n m q)
      → HasParts n m q which s
      → HasParts n m q which t
      → (u : Column n m q) × (column_merge n m q j s t ≡ some u)
        × HasParts n m q which u
        × (rank u.typ ≡ max (rank s.typ) (rank t.typ))
  unfolding column_merge
  column_merge-HasParts which s t hs ht =
      let equal : which_eq s.which t.which ≡ true =
        ap (λ w. which_eq w t.which) hs.which_is
        ∙ ap (which_eq which) ht.which_is
        ∙ which_eq_refl which in
      (
        joined_column n m q j s t,
        ap (λ b. if b then some (joined_column n m q j s t) else none) equal,
        record {
          which_is = hs.which_is;
          no_median = λ w.
              ap (λ o. j.join_option j.join_numbers o t.median) (hs.no_median w)
              ∙ ap (j.join_option j.join_numbers none) (ht.no_median w)
              ∙ laws.none_joined j.join_numbers;
        },
        rank-merge s.typ t.typ,
      )

  module _ (which : WhichStats) where
    abbrev Parts : List (Column n m q) → Type 0
    Parts = All (HasParts n m q which)

    zip_merge-Parts :
        (xs ys : List (Column n m q))
        → length xs ≡ length ys
        → Parts xs
        → Parts ys
        → (zs : List (Column n m q)) × (zip_merge (column_merge n m q j) xs ys ≡ some zs)
          × (length zs ≡ length xs)
          × Parts zs
          × ((i : ℕ) → rank_at i zs ≡ max (rank_at i xs) (rank_at i ys))
    zip_merge-Parts [] [] l h k = ([], refl, refl, tt, λ i. omega arith)
    zip_merge-Parts [] (y ∷ ys) l h k = absurd (omega (arith, l))
    zip_merge-Parts (x ∷ xs) [] l h k = absurd (omega (arith, l))
    zip_merge-Parts (x ∷ xs) (y ∷ ys) l (h, hs) (k, ks) =
        let (z, e, p, highest) = column_merge-HasParts which x y h k in
        let (zs, e', same_length, ps, ranks) = zip_merge-Parts xs ys (omega (arith, l)) hs ks in
        (
          z ∷ zs,
          rw (zip_merge, e, e') refl,
          ap suc same_length,
          (p, ps),
          by_position (λ i. rank_at i (z ∷ zs) ≡ max (rank_at i (x ∷ xs)) (rank_at i (y ∷ ys)))
              highest ranks,
        )

    -- As many columns as `w`, with their parts.
    abbrev pub Sized : ℕ → List (Column n m q) → Type 0
    Sized w xs = (length xs ≡ w) × Parts xs

    fold_merge-Sized :
        (w : ℕ) (xs : List (Column n m q)) (rest : List (List (Column n m q)))
        → Sized w xs
        → All (Sized w) rest
        → (zs : List (Column n m q)) × (fold_merge (column_merge n m q j) xs rest ≡ some zs)
          × Sized w zs
          × ((i : ℕ) → rank_at i zs ≡ max (rank_at i xs) (max_of (rank_at i) rest))
    fold_merge-Sized w xs [] h t = (xs, refl, h, λ i. omega arith)
    fold_merge-Sized w xs (ys ∷ rest) (l, h) ((l', k), t) =
        let (zs, e, same_length, p, ranks) = zip_merge-Parts xs ys (l ∙ sym l') h k in
        let (us, e', sized, ranks') = fold_merge-Sized w zs rest (same_length ∙ l, p) t in
        (us, rw (fold_merge, e) e', sized, λ i. omega (arith, ranks i, ranks' i))

    pub merge_all-Sized :
        (w : ℕ) (sent : List (List (Column n m q)))
        → 0 < length sent
        → All (Sized w) sent
        → (zs : List (Column n m q)) × (j.merge_all (column_merge n m q j) sent ≡ some (some zs))
          × Sized w zs
          × ((i : ℕ) → rank_at i zs ≡ max_of (rank_at i) sent)
    merge_all-Sized w [] pos t = absurd (omega (arith, pos))
    merge_all-Sized w (xs ∷ rest) pos (h, t) =
        let (zs, e, sized, ranks) = fold_merge-Sized w xs rest h t in
        (zs, laws.all_merged (column_merge n m q j) xs rest ∙ ap found e, sized, ranks)

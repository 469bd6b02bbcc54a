-- ===== src/Cmd/Stats/Range/Agree.antt =====
-- The extremes of chunks are those of the whole column.
use xsv.Prelude.{
  map-append, any_value, ℕ, ◌≡◌, ◌≤◌, refl, sym, ap, ◌∙◌, List, [], ◌∷◌, ◌++◌, Option, none, some,
  length, map, All, All-append, arith,
}
use mathlib.Core.Path.{ap₂}
use xsv.Select.Syntax.{decimal}
use xsv.Error.{Bytes}
use xsv.Cmd.Stats.{
  Floats, FieldType, unknown, null, unicode, float, integer, merge, float_from_bytes,
}
use xsv.Cmd.Stats.Types.{rank, rank-merge}
use xsv.Cmd.Stats.Sums.{types, types-append}
use xsv.Cmd.Stats.Range.{
  MinMax, Extremes, TypedMinMax, read_int, show, both, len_range, minmax_merge, no_extremes, Ranged,
  new_ranged, compute_ranged, merge_ranged,
}
use xsv.Cmd.Stats.Range.Reading.{IsExact, keep_all, push, non_empty, integers_of, floats_of}
use xsv.Cmd.Stats.Range.Parts.{Keeps, compute_ranged-Keeps}

-- What the stats crate documents of `MinMax`: merging what is kept of two sequences gives what is kept
-- of both. `P` is where the order is total.
pub record IsMinMax {T : Type 0} (m : MinMax T) (P : T → Type 0) : Type 0 where
  pub joins :
      (xs ys : List T)
      → All P xs
      → All P ys
      → m.join (keep_all m m.nothing xs) (keep_all m m.nothing ys) ≡ keep_all m m.nothing (xs ++ ys)

non_empty-append : (xs ys : List Bytes) → non_empty (xs ++ ys) ≡ non_empty xs ++ non_empty ys
non_empty-append [] ys = refl
non_empty-append ([] ∷ xs) ys = non_empty-append xs ys
non_empty-append ((c ∷ cs) ∷ xs) ys = ap (◌∷◌ (c ∷ cs)) (non_empty-append xs ys)

push-append : {T : Type 0} (o : Option T) (xs ys : List T) → push o (xs ++ ys) ≡ push o xs ++ ys
push-append none xs ys = refl
push-append (some x) xs ys = refl

module _ (n : Floats) (m : Extremes n) where
  integers_of-append :
      (xs ys : List Bytes) → integers_of n (xs ++ ys) ≡ integers_of n xs ++ integers_of n ys
  integers_of-append [] ys = refl
  integers_of-append ([] ∷ xs) ys = integers_of-append xs ys
  integers_of-append ((c ∷ cs) ∷ xs) ys =
      ap (push (read_int n (c ∷ cs))) (integers_of-append xs ys)
      ∙ push-append (read_int n (c ∷ cs)) (integers_of n xs) (integers_of n ys)

  floats_of-append :
      (xs ys : List Bytes) → floats_of n (xs ++ ys) ≡ floats_of n xs ++ floats_of n ys
  floats_of-append [] ys = refl
  floats_of-append ([] ∷ xs) ys = floats_of-append xs ys
  floats_of-append ((c ∷ cs) ∷ xs) ys =
      ap (push (float_from_bytes n (c ∷ cs))) (floats_of-append xs ys)
      ∙ push-append (float_from_bytes n (c ∷ cs)) (floats_of n xs) (floats_of n ys)

  module _ (IsOrdered : n.Float64 → Type 0) (strings_law : IsMinMax m.of_strings (λ x. Unit {0}))
      (lengths_law : IsMinMax m.of_lengths (λ x. Unit {0}))
      (integers_law : IsMinMax m.of_integers (λ x. Unit {0}))
      (floats_law : IsMinMax m.of_floats IsOrdered) (xs ys : List Bytes)
      (h : All IsOrdered (floats_of n xs)) (k : All IsOrdered (floats_of n ys)) where
    show-parts :
        (t : FieldType) (s s' : TypedMinMax n m)
        → s.strings ≡ s'.strings
        → (rank t ≤ 1 → s.integers ≡ s'.integers)
        → (rank t ≤ 2 → s.floats ≡ s'.floats)
        → show n m s t ≡ show n m s' t
    unfolding show
    show-parts null s s' e i f = refl
    show-parts unicode s s' e i f =
        ap (λ v. both m.lossy_text (m.of_strings.min v) (m.of_strings.max v)) e
    show-parts unknown s s' e i f =
        ap (λ v. both m.lossy_text (m.of_strings.min v) (m.of_strings.max v)) e
    show-parts integer s s' e i f =
        ap (λ v. both m.integer_text (m.of_integers.min v) (m.of_integers.max v)) (i (omega arith))
    show-parts float s s' e i f =
        ap (λ v. both m.float_text (m.of_floats.min v) (m.of_floats.max v)) (f (omega arith))

    types_both : types n null (xs ++ ys) ≡ merge (types n null xs) (types n null ys)
    types_both = types-append n null xs ys

    within :
        (r : ℕ)
        → rank (types n null (xs ++ ys)) ≤ r
        → (rank (types n null xs) ≤ r) × (rank (types n null ys) ≤ r)
    within r l =
        let e = ap rank types_both in
        let e' = rank-merge (types n null xs) (types n null ys) in
        (omega (arith, l, e, e'), omega (arith, l, e, e'))

    module _ (a b c : TypedMinMax n m) (ka : Keeps n m (types n null xs) (no_extremes n m) a xs)
        (kb : Keeps n m (types n null ys) (no_extremes n m) b ys)
        (kc : Keeps n m (types n null (xs ++ ys)) (no_extremes n m) c (xs ++ ys)) where
      strings_joined : m.of_strings.join a.strings b.strings ≡ c.strings
      strings_joined =
          ap₂ m.of_strings.join ka.strings_kept kb.strings_kept
          ∙ strings_law.joins (non_empty xs) (non_empty ys) (any_value _) (any_value _)
          ∙ ap (keep_all m.of_strings m.of_strings.nothing) (sym (non_empty-append xs ys))
          ∙ sym kc.strings_kept

      lengths_joined : m.of_lengths.join a.str_len b.str_len ≡ c.str_len
      lengths_joined =
          ap₂ m.of_lengths.join ka.lengths_kept kb.lengths_kept
          ∙ lengths_law.joins (map length xs) (map length ys) (any_value _) (any_value _)
          ∙ ap (keep_all m.of_lengths m.of_lengths.nothing) (sym (map-append length xs ys))
          ∙ sym kc.lengths_kept

      integers_joined :
          rank (types n null (xs ++ ys)) ≤ 1 → m.of_integers.join a.integers b.integers ≡ c.integers
      integers_joined l =
          ap₂ m.of_integers.join (ka.integers_kept (within 1 l).0) (kb.integers_kept (within 1 l).1)
          ∙ integers_law.joins (integers_of n xs) (integers_of n ys) (any_value _) (any_value _)
          ∙ ap (keep_all m.of_integers m.of_integers.nothing) (sym (integers_of-append xs ys))
          ∙ sym (kc.integers_kept l)

      floats_joined :
          rank (types n null (xs ++ ys)) ≤ 2 → m.of_floats.join a.floats b.floats ≡ c.floats
      floats_joined l =
          ap₂ m.of_floats.join (ka.floats_kept (within 2 l).0) (kb.floats_kept (within 2 l).1)
          ∙ floats_law.joins (floats_of n xs) (floats_of n ys) h k
          ∙ ap (keep_all m.of_floats m.of_floats.nothing) (sym (floats_of-append xs ys))
          ∙ sym (kc.floats_kept l)

      show_joined :
          show n m (minmax_merge n m a b) (types n null (xs ++ ys))
          ≡ show n m c (types n null (xs ++ ys))
      unfolding minmax_merge
      show_joined =
          show-parts (types n null (xs ++ ys)) (minmax_merge n m a b) c strings_joined
            integers_joined floats_joined

      len_range_joined : len_range n m (minmax_merge n m a b) ≡ len_range n m c
      unfolding minmax_merge len_range
      len_range_joined =
          ap (λ v. both decimal (m.of_lengths.min v) (m.of_lengths.max v)) lengths_joined

    -- For samples that read as floats with a place in the order (no NaN) or as no floats, and of which
    -- none reads both as an integer and as a float that is not the one next to it (as `-0` does), cut in
    -- two chunks anywhere: neither the chunks nor the whole column panics, and merging the statistics of
    -- the chunks gives the type of the whole column, the least and the greatest value that are shown for
    -- it, and its shortest and longest length.
    pub merge_ranged-compute_ranged :
        All (IsExact n) xs
        → All (IsExact n) ys
        → (a b c : Ranged n m) × (compute_ranged n m (new_ranged n m) xs ≡ some a)
          × (compute_ranged n m (new_ranged n m) ys ≡ some b)
          × (compute_ranged n m (new_ranged n m) (xs ++ ys) ≡ some c)
          × ((merge_ranged n m a b).typ ≡ c.typ)
          × (show n m (merge_ranged n m a b).minmax (merge_ranged n m a b).typ
              ≡ show n m c.minmax c.typ)
          × (len_range n m (merge_ranged n m a b).minmax ≡ len_range n m c.minmax)
    unfolding merge_ranged
    merge_ranged-compute_ranged exact exact' =
        let (a, ra, ta, ka) = compute_ranged-Keeps n m (new_ranged n m) xs exact in
        let (b, rb, tb, kb) = compute_ranged-Keeps n m (new_ranged n m) ys exact' in
        let (c, rc, tc, kc) =
          compute_ranged-Keeps n m (new_ranged n m) (xs ++ ys)
            (All-append (IsExact n) xs ys exact exact') in
        let whole : merge a.typ b.typ ≡ types n null (xs ++ ys) =
          ap₂ merge ta tb ∙ sym types_both in
        (
          a,
          b,
          c,
          ra,
          rb,
          rc,
          whole ∙ sym tc,
          ap (show n m (minmax_merge n m a.minmax b.minmax)) whole
              ∙ show_joined a.minmax b.minmax c.minmax ka kb kc
              ∙ ap (show n m c.minmax) (sym tc),
          len_range_joined a.minmax b.minmax c.minmax ka kb kc,
        )

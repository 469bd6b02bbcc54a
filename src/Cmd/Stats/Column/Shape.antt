-- ===== src/Cmd/Stats/Column/Shape.antt =====
-- Every column gives a record of the same length.
use xsv.Prelude.{
  ℕ, ◌+◌, ◌≡◌, ◌≢◌, refl, sym, ap, ◌∙◌, ◌⊎◌, inl, inr, Bool, true, false, Bool-cases, [], ◌∷◌, ◌++◌,
  Option, none, some, length, length-append, if◌then◌else◌, arith,
}
use xsv.Error.{Text, Bytes}
use xsv.Cmd.Stats.{
  Floats, FieldType, unknown, null, unicode, float, integer, from_sample, merge, float_from_bytes,
}
use xsv.Cmd.Stats.Sums.{ReadsIntegers, is_integer, is_number, reads_float, sum_add-some}
use xsv.Cmd.Stats.Range.{Extremes, show, len_range}
use xsv.Cmd.Stats.Range.Total.{minmax_add-some}
use xsv.Cmd.Stats.Column.{
  Summaries, WhichStats, when, Column, new_column, on_some, show_sum, count_null, count_number,
  count_sample, add_dist, add_sample, with_part, one_piece, two_pieces, of_part, dist_pieces,
  median_pieces, mode_pieces, to_record, is_number as column_is_number,
}

-- One where a flag is set.
abbrev pub one_if : Bool → ℕ
one_if b = if b then 1 else 0

pub length-when : (b : Bool) (t : Text) → length (if b then t ∷ [] else []) ≡ one_if b
length-when true t = refl
length-when false t = refl

module _ (n : Floats) (m : Extremes n) (q : Summaries n) where
  -- The column has the settings `which`, and keeps no medians unless they ask for them.
  pub record HasParts (which : WhichStats) (s : Column n m q) : Type 0 where
    pub which_is : s.which ≡ which
    pub no_median : which.median ≡ false → s.median ≡ none

  pub new_column-HasParts : (which : WhichStats) → HasParts which (new_column n m q which)
  unfolding new_column
  new_column-HasParts which = record {
    which_is = refl;
    no_median = λ e. ap (λ b. when b q.no_numbers) e;
  }

  length-two_pieces : (o : Option (Text × Text)) → length (two_pieces n m q o) ≡ 2
  length-two_pieces none = refl
  length-two_pieces (some (s, t)) = refl

  length-one_piece : (o : Option Text) → length (one_piece n m q o) ≡ 1
  length-one_piece none = refl
  length-one_piece (some t) = refl

  length-dist_pieces : (b : Bool) (o : Option q.Online) → length (dist_pieces n m q b o) ≡ 2
  unfolding dist_pieces
  length-dist_pieces false o = refl
  length-dist_pieces true none = refl
  length-dist_pieces true (some v) = refl

  length-mode_pieces :
      (which : WhichStats) (o : Option q.Values)
      → length (mode_pieces n m q which o) ≡ one_if which.mode + one_if which.cardinality
  unfolding mode_pieces
  length-mode_pieces which none = ground arith
  length-mode_pieces which (some v) = ground arith

  length-median_pieces :
      (b : Bool) (o : Option n.Float64)
      → (b ≡ false → o ≡ none)
      → length (median_pieces n m q b o) ≡ one_if b
  unfolding median_pieces
  length-median_pieces b none h = length-when b []
  length-median_pieces true (some v) h = refl
  length-median_pieces false (some v) h = absurd (ground (arith, h refl))

  -- One less than the headers, which also name the column.
  abbrev pub width : WhichStats → ℕ
  width which = 8 + (one_if which.median + (one_if which.mode + one_if which.cardinality))

  pub length-to_record :
      (which : WhichStats) (s : Column n m q)
      → HasParts which s
      → length (to_record n m q s) ≡ width which
  unfolding to_record
  length-to_record which s h =
      let a = one_piece n m q (of_part n m q (λ sum. show_sum n m q sum s.typ) s.sum) in
      let b = two_pieces n m q (of_part n m q (λ mm. show n m mm s.typ) s.minmax) in
      let c = two_pieces n m q (of_part n m q (len_range n m) s.minmax) in
      let d = dist_pieces n m q (column_is_number s.typ) s.online in
      let e = median_pieces n m q s.which.median (of_part n m q q.median_of s.median) in
      let f = mode_pieces n m q s.which s.mode in
      omega (
        arith,
        length-append (a ++ b ++ c ++ d ++ e) f,
        length-append (a ++ b ++ c ++ d) e,
        length-append (a ++ b ++ c) d,
        length-append (a ++ b) c,
        length-append a b,
        length-one_piece (of_part n m q (λ sum. show_sum n m q sum s.typ) s.sum),
        length-two_pieces (of_part n m q (λ mm. show n m mm s.typ) s.minmax),
        length-two_pieces (of_part n m q (len_range n m) s.minmax),
        length-dist_pieces (column_is_number s.typ) s.online,
        length-median_pieces s.which.median (of_part n m q q.median_of s.median) (λ k.
            ap (of_part n m q q.median_of) (h.no_median (sym (ap (λ w. w.median) h.which_is) ∙ k))),
        length-mode_pieces s.which s.mode,
        ap (λ w. width w) h.which_is,
      )

  -- `s'` has the settings of `s`, and no more medians.
  record Follows (s s' : Column n m q) : Type 0 where
    which_same : s'.which ≡ s.which
    typ_same : s'.typ ≡ s.typ
    median_same : s.median ≡ none → s'.median ≡ none

  count_null-Follows : (s : Column n m q) → Follows s (count_null n m q s)
  count_null-Follows s = elim (Bool-cases s.which.include_nulls) [
    | inl yes' ↦ record {
      which_same = rw yes' refl;
      typ_same = rw yes' refl;
      median_same = λ e. rw yes' e;
    }
    | inr no' ↦ record {
      which_same = rw no' refl;
      typ_same = rw no' refl;
      median_same = λ e. rw no' e;
    }
  ]

  abbrev Goes : Column n m q → Option (Column n m q) → Type 0
  Goes s o = (s' : Column n m q) × (o ≡ some s') × Follows s s'

  count_number-Goes :
      (s : Column n m q) (o : Option n.Float64)
      → (x : n.Float64) × (o ≡ some x)
      → Goes s (count_number n m q s o)
  count_number-Goes s o (x, e) = (
    _,
    ap (count_number n m q s) e,
    record {
      which_same = refl;
      typ_same = refl;
      median_same = λ h. ap (on_some (q.add_number x)) h;
    },
  )

  count_sample-Goes :
      (s : Column n m q) (u : FieldType) (x : Bytes)
      → (u ≢ null → (f : n.Float64) × (float_from_bytes n x ≡ some f))
      → Goes s (count_sample n m q s u x)
  count_sample-Goes s null x h = (_, refl, count_null-Follows s)
  count_sample-Goes s unknown x h =
      count_number-Goes s (float_from_bytes n x) (h (λ e. ground (arith, e)))
  count_sample-Goes s unicode x h =
      count_number-Goes s (float_from_bytes n x) (h (λ e. ground (arith, e)))
  count_sample-Goes s float x h =
      count_number-Goes s (float_from_bytes n x) (h (λ e. ground (arith, e)))
  count_sample-Goes s integer x h =
      count_number-Goes s (float_from_bytes n x) (h (λ e. ground (arith, e)))

  add_dist-Goes :
      (s : Column n m q) (t u : FieldType) (x : Bytes)
      → ((t ≡ integer) ⊎ (t ≡ float) → u ≢ null → (f : n.Float64) × (float_from_bytes n x ≡ some f))
      → Goes s (add_dist n m q s t u x)
  unfolding add_dist
  add_dist-Goes s unknown u x h =
      (s, refl, record { which_same = refl; typ_same = refl; median_same = λ e. e })
  add_dist-Goes s unicode u x h =
      (s, refl, record { which_same = refl; typ_same = refl; median_same = λ e. e })
  add_dist-Goes s null u x h = (_, refl, count_null-Follows s)
  add_dist-Goes s float u x h = count_sample-Goes s u x (h (inr refl))
  add_dist-Goes s integer u x h = count_sample-Goes s u x (h (inl refl))

  with_part-Goes :
      {A : Type 0} (s : Column n m q) (f : A → Option A) (o : Option A)
      (k : Option A → Option (Column n m q))
      → ((a : A) → (b : A) × (f a ≡ some b))
      → ((o' : Option A) → Goes s (k o'))
      → Goes s (with_part f o k)
  with_part-Goes s f none k h g = g none
  with_part-Goes s f (some a) k h g =
      let (b, e) = h a in
      let (s', r, t) = g (some b) in
      (s', ap (λ x. elim x [ none ↦ none | some y ↦ k (some y) ]) e ∙ r, t)

  module _ (reads : ReadsIntegers n) where
    reads_sample :
        (t : FieldType) (x : Bytes)
        → (merge t (from_sample n x) ≡ integer) ⊎ (merge t (from_sample n x) ≡ float)
        → from_sample n x ≢ null
        → (f : n.Float64) × (float_from_bytes n x ≡ some f)
    reads_sample t [] h ne = absurd (ne (unfold from_sample in refl))
    reads_sample t (c ∷ cs) h ne = reads_float n reads c cs (elim h [
      | inl e ↦ inl (is_integer n t (from_sample n (c ∷ cs)) ne e)
      | inr e ↦ is_number n t (from_sample n (c ∷ cs)) ne e
    ])

    add_sample-Goes :
        (s : Column n m q) (x : Bytes)
        → Goes (record s { typ = merge s.typ (from_sample n x) }) (add_sample n m q s x)
    unfolding add_sample
    add_sample-Goes s x =
        let t : Column n m q = record s { typ = merge s.typ (from_sample n x) } in
        with_part-Goes t _ s.sum _ (λ v. sum_add-some n reads v s.typ x)
          (λ sum.
            with_part-Goes t _ s.minmax _ (λ v. minmax_add-some n m reads v s.typ x)
              (λ minmax.
                let (s', e, f) =
                  add_dist-Goes
                    (record s {
                      typ = merge s.typ (from_sample n x);
                      sum = sum;
                      minmax = minmax;
                      mode = on_some (q.add_value x) s.mode;
                    })
                    (merge s.typ (from_sample n x)) (from_sample n x) x (reads_sample s.typ x) in
                (
                  s',
                  e,
                  record {
                    which_same = f.which_same;
                    typ_same = f.typ_same;
                    median_same = f.median_same;
                  },
                )))

    -- A sample never makes the code panic; it keeps the parts of a column, and merges its type.
    pub add_sample-HasParts :
        (which : WhichStats) (s : Column n m q) (x : Bytes)
        → HasParts which s
        → (s' : Column n m q) × (add_sample n m q s x ≡ some s')
          × HasParts which s'
          × (s'.typ ≡ merge s.typ (from_sample n x))
    add_sample-HasParts which s x h =
        let (s', e, f) = add_sample-Goes s x in
        (
          s',
          e,
          record {
            which_is = f.which_same ∙ h.which_is;
            no_median = λ w. f.median_same (h.no_median w);
          },
          f.typ_same,
        )

-- ===== src/Cmd/Stats/Integers.antt =====
-- The sums of chunks of a column of integers.
use xsv.Prelude.{
  ℕ, ◌+◌, ◌%◌, ◌≡◌, ◌≢◌, ◌≤◌, ◌<◌, refl, sym, ap, ◌∙◌, List, [], ◌∷◌, ◌++◌, Option, none, some, All,
  All-append, arith,
}
use xsv.Error.{Bytes}
use xsv.Cmd.Stats.{
  Floats, FieldType, unknown, null, unicode, float, integer, from_sample, merge, i64_mod,
  int_from_bytes, sum_add, sum_merge, Stats, new_stats, add, compute, stats_merge, merge_floats,
  add_typed, add_to_integer, add_integer,
}
use xsv.Cmd.Stats.Types.{rank, rank-merge}
use xsv.Cmd.Stats.Sums.{types, types-append, reads_int, from_sample-null}

-- The samples of a column of integers: integers and empty fields.
abbrev pub IsInteger : Floats → Bytes → Type 0
IsInteger n x = rank (from_sample n x) ≤ 1

abbrev or_zero : Option ℕ → ℕ
or_zero none = 0
or_zero (some v) = v

-- The sum of the samples, from `acc` on, as 64 bits.
abbrev int_value : Floats → Bytes → ℕ
int_value n [] = 0
int_value n (c ∷ cs) = or_zero (int_from_bytes n (c ∷ cs))

abbrev total : Floats → ℕ → List Bytes → ℕ
total n acc [] = acc
total n acc (x ∷ xs) = total n ((acc + int_value n x) % i64_mod) xs

total-add :
    (n : Floats) (a b : ℕ) (xs : List Bytes)
    → (a + total n b xs) % i64_mod ≡ total n ((a + b) % i64_mod) xs
total-add n a b [] = refl
total-add n a b (x ∷ xs) =
    let step : (a + (b + int_value n x) % i64_mod) % i64_mod
        ≡ ((a + b) % i64_mod + int_value n x) % i64_mod =
      omega arith in
    total-add n a ((b + int_value n x) % i64_mod) xs ∙ ap (λ acc. total n acc xs) step

total-append :
    (n : Floats) (acc : ℕ) (xs ys : List Bytes)
    → total n acc (xs ++ ys) ≡ total n (total n acc xs) ys
total-append n acc [] ys = refl
total-append n acc (x ∷ xs) ys = total-append n ((acc + int_value n x) % i64_mod) xs ys

total-lt : (n : Floats) (acc : ℕ) (xs : List Bytes) → acc < i64_mod → total n acc xs < i64_mod
total-lt n acc [] h = h
total-lt n acc (x ∷ xs) h = total-lt n ((acc + int_value n x) % i64_mod) xs (omega arith)

total-merge :
    (n : Floats) (xs ys : List Bytes)
    → total n 0 (xs ++ ys) ≡ (total n 0 xs + total n 0 ys) % i64_mod
total-merge n xs ys =
    let same : (total n 0 xs + 0) % i64_mod ≡ total n 0 xs =
      omega (arith, total-lt n 0 xs (omega arith)) in
    total-append n 0 xs ys
    ∙ ap (λ acc. total n acc ys) (sym same)
    ∙ sym (total-add n (total n 0 xs) 0 ys)

abbrev counted : (n : Floats) → FieldType → ℕ → Stats n
counted n t acc = record { typ = t; sum = record { sum_integer = acc; sum_float = none } }

module _ (n : Floats) where
  small : (t : FieldType) → rank t ≤ 1 → t ≢ null → t ≡ integer
  small null h ne = absurd (ne refl)
  small integer h ne = refl
  small float h ne = absurd (omega arith)
  small unicode h ne = absurd (omega arith)
  small unknown h ne = absurd (omega arith)

  merge_integer : (t : FieldType) → rank t ≤ 1 → merge t integer ≡ integer
  unfolding merge
  merge_integer null h = refl
  merge_integer integer h = refl
  merge_integer float h = absurd (omega arith)
  merge_integer unicode h = absurd (omega arith)
  merge_integer unknown h = absurd (omega arith)

  sum_add-counted :
      (acc c : ℕ) (cs : Bytes) (v : ℕ)
      → int_from_bytes n (c ∷ cs) ≡ some v
      → sum_add n (counted n integer acc).sum integer (c ∷ cs)
        ≡ some (record { sum_integer = (acc + v) % i64_mod; sum_float = none })
  unfolding sum_add add_to_integer add_integer
  sum_add-counted acc c cs v e = rw e

  add-counted :
      (t : FieldType) (acc : ℕ) (x : Bytes)
      → rank t ≤ 1
      → acc < i64_mod
      → IsInteger n x
      → add n (counted n t acc) x
        ≡ some (counted n (merge t (from_sample n x)) ((acc + int_value n x) % i64_mod))
  unfolding add add_typed
  add-counted t acc [] h l i =
      let same : (acc + 0) % i64_mod ≡ acc = omega arith in rw same (unfold sum_add in refl)
  add-counted t acc (c ∷ cs) h l i =
      let int = small (from_sample n (c ∷ cs)) i (from_sample-null n c cs) in
      let (v, e) = reads_int n c cs int in
      rw (int, merge_integer t h)
        (ap (add_typed n integer) (sum_add-counted acc c cs v e)
          ∙ ap (λ o. some (counted n integer ((acc + or_zero o) % i64_mod))) (sym e))

  compute-counted :
      (t : FieldType) (acc : ℕ) (xs : List Bytes)
      → rank t ≤ 1
      → acc < i64_mod
      → All (IsInteger n) xs
      → compute n (counted n t acc) xs ≡ some (counted n (types n t xs) (total n acc xs))
  unfolding compute
  compute-counted t acc [] h l i = refl
  compute-counted t acc (x ∷ xs) h l (i, is) =
      rw (compute, add-counted t acc x h l i)
        (compute-counted (merge t (from_sample n x)) ((acc + int_value n x) % i64_mod) xs
          (omega (arith, rank-merge t (from_sample n x))) (omega arith) is)

  -- For a column of integers and empty fields, cut in two chunks anywhere, merging the statistics of
  -- the chunks gives exactly the type and the sum of the whole column, also where the sum wraps
  -- around 2^64.
  pub stats_merge-compute :
      (xs ys : List Bytes)
      → All (IsInteger n) xs
      → All (IsInteger n) ys
      → (a : Stats n) × (b : Stats n) × (compute n (new_stats n) xs ≡ some a)
        × (compute n (new_stats n) ys ≡ some b)
        × (compute n (new_stats n) (xs ++ ys) ≡ some (stats_merge n a b))
  unfolding new_stats stats_merge sum_merge merge_floats
  stats_merge-compute xs ys h k =
      let zero_lt : 0 < i64_mod = omega arith in
      (
        counted n (types n null xs) (total n 0 xs),
        counted n (types n null ys) (total n 0 ys),
        compute-counted null 0 xs (omega arith) zero_lt h,
        compute-counted null 0 ys (omega arith) zero_lt k,
        compute-counted null 0 (xs ++ ys) (omega arith) zero_lt (All-append (IsInteger n) xs ys h k)
            ∙ ap (λ t. some (counted n t (total n 0 (xs ++ ys)))) (types-append n null xs ys)
            ∙ ap (λ v. some (counted n (merge (types n null xs) (types n null ys)) v))
                (total-merge n xs ys),
      )

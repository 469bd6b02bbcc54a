-- ===== src/Cmd/Stats/Sums.antt =====
-- What chunks of a column add up to.
use xsv.Prelude.{
  ℕ, ◌+◌, ◌%◌, ◌≡◌, ◌≢◌, ◌≤◌, refl, sym, ap, ◌∙◌, ◌⊎◌, inl, inr, List, [], ◌∷◌, ◌++◌, Option, none,
  some, arith, Bool-cases, Option-cases,
}
use xsv.Error.{Bytes}
use xsv.Cmd.Sort.Compare.{Int64, parse_int}
use xsv.Cmd.Stats.{
  Floats, FieldType, unknown, null, unicode, float, integer, from_sample, merge, bits, i64_mod,
  TypedSum, float_from_bytes, int_from_bytes, sum_add, of_string, add_to_float, add_to_integer,
  add_integer, Stats, new_stats, add, compute, stats_merge,
}
use xsv.Cmd.Stats.Types.{rank, rank-merge, merge_assoc, merge_null}

-- The type of a column, from the types of its samples.
abbrev pub types : Floats → FieldType → List Bytes → FieldType
types n t [] = t
types n t (x ∷ xs) = types n (merge t (from_sample n x)) xs

pub types-merge :
    (n : Floats) (t : FieldType) (xs : List Bytes) → types n t xs ≡ merge t (types n null xs)
unfolding merge
types-merge n t [] = sym (merge_null t)
types-merge n t (x ∷ xs) =
    types-merge n (merge t (from_sample n x)) xs
    ∙ merge_assoc t (from_sample n x) (types n null xs)
    ∙ ap (merge t) (sym (types-merge n (from_sample n x) xs))

pub types-append :
    (n : Floats) (t : FieldType) (xs ys : List Bytes)
    → types n t (xs ++ ys) ≡ merge (types n t xs) (types n null ys)
types-append n t [] ys = types-merge n t ys
types-append n t (x ∷ xs) ys = types-append n (merge t (from_sample n x)) xs ys

-- What the standard library documents of floats: the text of an integer is the text of a float.
abbrev pub ReadsIntegers : Floats → Type 0
ReadsIntegers n =
    (s : Bytes) (i : Int64) → parse_int s ≡ some i → (f : n.Float64) × (n.parse_float s ≡ some f)

module _ (n : Floats) where
  pub reads_int :
      (c : ℕ) (cs : Bytes)
      → from_sample n (c ∷ cs) ≡ integer
      → (v : ℕ) × (int_from_bytes n (c ∷ cs) ≡ some v)
  unfolding int_from_bytes from_sample
  reads_int c cs h = elim (Bool-cases (n.is_utf8 (c ∷ cs))) [
    | inl valid ↦ elim (Option-cases (parse_int (c ∷ cs))) [
      | inr (i, e) ↦ (bits i, rw (valid, e))
      | inl e ↦ elim (Option-cases (n.parse_float (c ∷ cs))) [
        | inl e' ↦
            let k : from_sample n (c ∷ cs) ≡ unicode = rw (valid, e, e') in
            absurd (ground (arith, k, h))
        | inr (f, e') ↦
            let k : from_sample n (c ∷ cs) ≡ float = rw (valid, e, e') in
            absurd (ground (arith, k, h))
      ]
    ]
    | inr invalid ↦
        let k : from_sample n (c ∷ cs) ≡ unknown = rw invalid in absurd (ground (arith, k, h))
  ]

  of_string-null : (i : Option Int64) (f : Option n.Float64) → of_string i f ≢ null
  unfolding of_string
  of_string-null (some i) f h = cc
  of_string-null none (some f) h = cc
  of_string-null none none h = cc

  pub from_sample-null : (c : ℕ) (cs : Bytes) → from_sample n (c ∷ cs) ≢ null
  unfolding from_sample
  from_sample-null c cs h = elim (Bool-cases (n.is_utf8 (c ∷ cs))) [
    | inl valid ↦ of_string-null (parse_int (c ∷ cs)) (n.parse_float (c ∷ cs)) (rw valid at h)
    | inr invalid ↦
        let k : from_sample n (c ∷ cs) ≡ unknown = rw invalid in absurd (ground (arith, k, h))
  ]

  pub is_integer : (t u : FieldType) → u ≢ null → merge t u ≡ integer → u ≡ integer
  is_integer t u ne h = number u ne (omega (arith, rank-merge t u, ap rank h))
    where
      number : (u : FieldType) → u ≢ null → rank u ≤ 1 → u ≡ integer
      number null ne h = absurd (ne refl)
      number integer ne h = refl
      number float ne h = absurd (omega arith)
      number unicode ne h = absurd (omega arith)
      number unknown ne h = absurd (omega arith)

  pub is_number : (t u : FieldType) → u ≢ null → merge t u ≡ float → (u ≡ integer) ⊎ (u ≡ float)
  is_number t u ne h = number u ne (omega (arith, rank-merge t u, ap rank h))
    where
      number : (u : FieldType) → u ≢ null → rank u ≤ 2 → (u ≡ integer) ⊎ (u ≡ float)
      number null ne h = absurd (ne refl)
      number integer ne h = inl refl
      number float ne h = inr refl
      number unicode ne h = absurd (omega arith)
      number unknown ne h = absurd (omega arith)

module _ (n : Floats) (reads : ReadsIntegers n) where
  pub reads_float :
      (c : ℕ) (cs : Bytes)
      → (from_sample n (c ∷ cs) ≡ integer) ⊎ (from_sample n (c ∷ cs) ≡ float)
      → (f : n.Float64) × (float_from_bytes n (c ∷ cs) ≡ some f)
  unfolding float_from_bytes from_sample
  reads_float c cs h = elim (Bool-cases (n.is_utf8 (c ∷ cs))) [
    | inl valid ↦ elim (Option-cases (n.parse_float (c ∷ cs))) [
      | inr (f, e) ↦ (f, rw valid e)
      | inl e ↦ elim (Option-cases (parse_int (c ∷ cs))) [
        | inl e' ↦
            let k : from_sample n (c ∷ cs) ≡ unicode = rw (valid, e, e') in
            absurd (ground (arith, k, h))
        | inr (i, e') ↦ let (f, k) = reads (c ∷ cs) i e' in absurd (ground (arith, k, e))
      ]
    ]
    | inr invalid ↦
        let k : from_sample n (c ∷ cs) ≡ unknown = rw invalid in absurd (ground (arith, k, h))
  ]

  abbrev Adds : Option (TypedSum n) → Type 0
  Adds o = (s' : TypedSum n) × (o ≡ some s')

  add_to_float-Adds :
      (s : TypedSum n) (o : Option n.Float64) (x : n.Float64) → Adds (add_to_float n s o (some x))
  unfolding add_to_float
  add_to_float-Adds s none x = (_, refl)
  add_to_float-Adds s (some f) x = (_, refl)

  add_to_integer-Adds :
      (s : TypedSum n) (o : Option n.Float64) (x : Bytes)
      → (f : n.Float64) × (float_from_bytes n x ≡ some f)
      → (v : ℕ) × (int_from_bytes n x ≡ some v)
      → Adds (add_to_integer n s o x)
  unfolding add_to_integer add_integer
  add_to_integer-Adds s none x (f, h) (v, k) =
      (record s { sum_integer = (s.sum_integer + v) % i64_mod }, rw k)
  add_to_integer-Adds s (some g) x (f, h) (v, k) = rw h (add_to_float-Adds s (some g) f)

  sum_add-Adds :
      (s : TypedSum n) (t : FieldType) (c : ℕ) (cs : Bytes)
      → (t ≡ float → (f : n.Float64) × (float_from_bytes n (c ∷ cs) ≡ some f))
      → (t ≡ integer
          → ((f : n.Float64) × (float_from_bytes n (c ∷ cs) ≡ some f))
            × ((v : ℕ) × (int_from_bytes n (c ∷ cs) ≡ some v)))
      → Adds (sum_add n s t (c ∷ cs))
  unfolding sum_add
  sum_add-Adds s unknown c cs h k = (s, refl)
  sum_add-Adds s null c cs h k = (s, refl)
  sum_add-Adds s unicode c cs h k = (s, refl)
  sum_add-Adds s float c cs h k = let (f, e) = h refl in rw e (add_to_float-Adds s s.sum_float f)
  sum_add-Adds s integer c cs h k =
      let (e, e') = k refl in add_to_integer-Adds s s.sum_float (c ∷ cs) e e'

  pub sum_add-some :
      (s : TypedSum n) (t : FieldType) (x : Bytes)
      → Adds (sum_add n s (merge t (from_sample n x)) x)
  sum_add-some s t [] = (s, unfold sum_add in refl)
  sum_add-some s t (c ∷ cs) =
      let ne = from_sample-null n c cs in
      sum_add-Adds s (merge t (from_sample n (c ∷ cs))) c cs
        (λ e. reads_float c cs (is_number n t (from_sample n (c ∷ cs)) ne e))
        (λ e.
          let i = is_integer n t (from_sample n (c ∷ cs)) ne e in
          (reads_float c cs (inl i), reads_int n c cs i))

  -- A column of samples never panics, and its type is the merge of the types of its samples.
  compute-types :
      (s : Stats n) (xs : List Bytes)
      → (s' : Stats n) × (compute n s xs ≡ some s') × (s'.typ ≡ types n s.typ xs)
  unfolding compute
  compute-types s [] = (s, refl, refl)
  compute-types s (x ∷ xs) =
      let (sum, e) = sum_add-some s.sum s.typ x in
      let next : Stats n = record { typ = merge s.typ (from_sample n x); sum = sum } in
      let step : add n s x ≡ some next = unfold add in rw e in
      let (s', r, t) = compute-types next xs in (s', rw (compute, step) r, t)

  -- For any samples, cut in two chunks anywhere: neither the chunks nor the whole column panics, and
  -- the type that merging the statistics of the chunks gives is the type of the whole column. (The
  -- text of an integer is taken to be the text of a float.)
  pub stats_merge-types :
      (xs ys : List Bytes)
      → (a : Stats n) × (b : Stats n) × (c : Stats n) × (compute n (new_stats n) xs ≡ some a)
        × (compute n (new_stats n) ys ≡ some b)
        × (compute n (new_stats n) (xs ++ ys) ≡ some c)
        × ((stats_merge n a b).typ ≡ c.typ)
  unfolding new_stats stats_merge
  stats_merge-types xs ys =
      let (a, r, t) = compute-types (new_stats n) xs in
      let (b, r', t') = compute-types (new_stats n) ys in
      let (c, r'', t'') = compute-types (new_stats n) (xs ++ ys) in
      (
        a,
        b,
        c,
        r,
        r',
        r'',
        ap (λ u. merge u b.typ) t
            ∙ ap (merge (types n null xs)) t'
            ∙ sym (types-append n null xs ys)
            ∙ sym t'',
      )

-- ===== src/Cmd/Stats/Range/Parts.antt =====
-- Which values each part of a `TypedMinMax` keeps.
use xsv.Prelude.{
  ℕ, ◌≡◌, ◌≢◌, ◌≤◌, refl, sym, ap, ◌∙◌, inl, inr, List, [], ◌∷◌, some, length, All, map, arith,
}
use xsv.Error.{Bytes}
use xsv.Cmd.Sort.Compare.{Int64}
use xsv.Cmd.Stats.{
  Floats, FieldType, unknown, null, unicode, float, integer, from_sample, merge, bits,
  float_from_bytes,
}
use xsv.Cmd.Stats.Types.{rank, rank-merge}
use xsv.Cmd.Stats.Sums.{types, types-merge, from_sample-null, is_integer, is_number}
use xsv.Cmd.Stats.Range.{
  Extremes, TypedMinMax, read_int, keep_number, keep_float, keep_integer, minmax_add, Ranged,
  add_ranged, compute_ranged,
}
use xsv.Cmd.Stats.Range.Reading.{
  IsExact, keep_all, keep_some, keep_all-push, non_empty, integers_of, floats_of, read_integer,
  read_float,
}

module _ (n : Floats) (m : Extremes n) where
  -- `s'` keeps more than `s`: the strings, the lengths and, in a column of integers or of numbers, the
  -- integers or the floats.
  pub record Keeps (t : FieldType) (s s' : TypedMinMax n m) (xs : List Bytes) : Type 0 where
    pub strings_kept : s'.strings ≡ keep_all m.of_strings s.strings (non_empty xs)
    pub lengths_kept : s'.str_len ≡ keep_all m.of_lengths s.str_len (map length xs)
    pub integers_kept :
        rank t ≤ 1 → s'.integers ≡ keep_all m.of_integers s.integers (integers_of n xs)
    pub floats_kept : rank t ≤ 2 → s'.floats ≡ keep_all m.of_floats s.floats (floats_of n xs)

  keep_number-Keeps :
      (s : TypedMinMax n m) (t : FieldType) (c : ℕ) (cs : Bytes)
      → t ≢ null
      → (t ≡ integer
          → (i : Int64) × (read_int n (c ∷ cs) ≡ some i)
            × (float_from_bytes n (c ∷ cs) ≡ some (n.as_float (bits i))))
      → (t ≡ float → (f : n.Float64) × (float_from_bytes n (c ∷ cs) ≡ some f))
      → (s' : TypedMinMax n m) × (keep_number n m s t (c ∷ cs) ≡ some s')
        × (s'.strings ≡ s.strings)
        × (s'.str_len ≡ s.str_len)
        × (rank t ≤ 1 → s'.integers ≡ keep_some m.of_integers (read_int n (c ∷ cs)) s.integers)
        × (rank t ≤ 2 → s'.floats ≡ keep_some m.of_floats (float_from_bytes n (c ∷ cs)) s.floats)
  unfolding keep_number keep_integer keep_float
  keep_number-Keeps s null c cs ne i f = absurd (ne refl)
  keep_number-Keeps s unicode c cs ne i f =
      (s, refl, refl, refl, λ l. absurd (omega (arith, l)), λ l. absurd (omega (arith, l)))
  keep_number-Keeps s unknown c cs ne i f =
      (s, refl, refl, refl, λ l. absurd (omega (arith, l)), λ l. absurd (omega (arith, l)))
  keep_number-Keeps s integer c cs ne i f =
      let (v, e, e') = i refl in
      (
        _,
        ap (keep_integer n m s) e,
        refl,
        refl,
        λ l. sym (ap (λ o. keep_some m.of_integers o s.integers) e),
        λ l. sym (ap (λ o. keep_some m.of_floats o s.floats) e'),
      )
  keep_number-Keeps s float c cs ne i f =
      let (v, e) = f refl in
      (
        _,
        ap (keep_float n m s) e,
        refl,
        refl,
        λ l. absurd (omega (arith, l)),
        λ l. sym (ap (λ o. keep_some m.of_floats o s.floats) e),
      )

  merge_not-null : (t : FieldType) (c : ℕ) (cs : Bytes) → merge t (from_sample n (c ∷ cs)) ≢ null
  merge_not-null t c cs h = from_sample-null n c cs (
      is_null (from_sample n (c ∷ cs))
        (omega (arith, rank-merge t (from_sample n (c ∷ cs)), ap rank h)))
    where
      is_null : (u : FieldType) → rank u ≤ 0 → u ≡ null
      is_null u l = ground arith

  pub minmax_add-Keeps :
      (s : TypedMinMax n m) (t : FieldType) (x : Bytes)
      → IsExact n x
      → (s' : TypedMinMax n m) × (minmax_add n m s (merge t (from_sample n x)) x ≡ some s')
        × Keeps (merge t (from_sample n x)) s s' (x ∷ [])
  unfolding minmax_add
  minmax_add-Keeps s t [] exact = (
    record s { str_len = m.of_lengths.keep 0 s.str_len },
    refl,
    record {
      strings_kept = refl;
      lengths_kept = refl;
      integers_kept = λ l. refl;
      floats_kept = λ l. refl;
    },
  )
  minmax_add-Keeps s t (c ∷ cs) exact =
      let u = from_sample n (c ∷ cs) in
      let some_type = from_sample-null n c cs in
      let (s', e, strings, lengths, integers, floats) =
        keep_number-Keeps
          (record s {
            str_len = m.of_lengths.keep (length (c ∷ cs)) s.str_len;
            strings = m.of_strings.keep (c ∷ cs) s.strings;
          })
          (merge t u) c cs (merge_not-null t c cs)
          (λ h. read_integer n c cs exact (is_integer n t u some_type h))
          (λ h. elim (is_number n t u some_type h) [
            | inl i ↦ let (v, e, e') = read_integer n c cs exact i in (n.as_float (bits v), e')
            | inr f ↦ read_float n c cs f
          ]) in
      (
        s',
        e,
        record {
          strings_kept = strings;
          lengths_kept = lengths;
          integers_kept = λ l.
              integers l ∙ sym (keep_all-push m.of_integers (read_int n (c ∷ cs)) s.integers []);
          floats_kept = λ l.
              floats l ∙ sym (keep_all-push m.of_floats (float_from_bytes n (c ∷ cs)) s.floats []);
        },
      )

  keep_integers :
      (a : m.of_integers.Kept) (x : Bytes) (xs : List Bytes)
      → keep_all m.of_integers
          (keep_all m.of_integers a (integers_of n (x ∷ [])))
          (integers_of n xs)
        ≡ keep_all m.of_integers a (integers_of n (x ∷ xs))
  keep_integers a [] xs = refl
  keep_integers a (c ∷ cs) xs =
      ap (λ b. keep_all m.of_integers b (integers_of n xs))
        (keep_all-push m.of_integers (read_int n (c ∷ cs)) a [])
      ∙ sym (keep_all-push m.of_integers (read_int n (c ∷ cs)) a (integers_of n xs))

  keep_floats :
      (a : m.of_floats.Kept) (x : Bytes) (xs : List Bytes)
      → keep_all m.of_floats (keep_all m.of_floats a (floats_of n (x ∷ []))) (floats_of n xs)
        ≡ keep_all m.of_floats a (floats_of n (x ∷ xs))
  keep_floats a [] xs = refl
  keep_floats a (c ∷ cs) xs =
      ap (λ b. keep_all m.of_floats b (floats_of n xs))
        (keep_all-push m.of_floats (float_from_bytes n (c ∷ cs)) a [])
      ∙ sym (keep_all-push m.of_floats (float_from_bytes n (c ∷ cs)) a (floats_of n xs))

  keep_strings :
      (a : m.of_strings.Kept) (x : Bytes) (xs : List Bytes)
      → keep_all m.of_strings (keep_all m.of_strings a (non_empty (x ∷ []))) (non_empty xs)
        ≡ keep_all m.of_strings a (non_empty (x ∷ xs))
  keep_strings a [] xs = refl
  keep_strings a (c ∷ cs) xs = refl

  Keeps-trans :
      (t u : FieldType) (s s1 s2 : TypedMinMax n m) (x : Bytes) (xs : List Bytes)
      → rank t ≤ rank u
      → Keeps t s s1 (x ∷ [])
      → Keeps u s1 s2 xs
      → Keeps u s s2 (x ∷ xs)
  Keeps-trans t u s s1 s2 x xs l h k = record {
    strings_kept =
        k.strings_kept
        ∙ ap (λ a. keep_all m.of_strings a (non_empty xs)) h.strings_kept
        ∙ keep_strings s.strings x xs;
    lengths_kept =
        k.lengths_kept ∙ ap (λ a. keep_all m.of_lengths a (map length xs)) h.lengths_kept;
    integers_kept = λ r.
        k.integers_kept r
        ∙ ap (λ a. keep_all m.of_integers a (integers_of n xs)) (h.integers_kept (omega arith))
        ∙ keep_integers s.integers x xs;
    floats_kept = λ r.
        k.floats_kept r
        ∙ ap (λ a. keep_all m.of_floats a (floats_of n xs)) (h.floats_kept (omega arith))
        ∙ keep_floats s.floats x xs;
  }

  types-rank : (t : FieldType) (xs : List Bytes) → rank t ≤ rank (types n t xs)
  types-rank t xs = omega (arith, ap rank (types-merge n t xs), rank-merge t (types n null xs))

  pub compute_ranged-Keeps :
      (s : Ranged n m) (xs : List Bytes)
      → All (IsExact n) xs
      → (s' : Ranged n m) × (compute_ranged n m s xs ≡ some s')
        × (s'.typ ≡ types n s.typ xs)
        × Keeps (types n s.typ xs) s.minmax s'.minmax xs
  unfolding compute_ranged
  compute_ranged-Keeps s [] exact = (
    s,
    refl,
    refl,
    record {
      strings_kept = refl;
      lengths_kept = refl;
      integers_kept = λ l. refl;
      floats_kept = λ l. refl;
    },
  )
  compute_ranged-Keeps s (x ∷ xs) (exact, others) =
      let (mm, e, kept) = minmax_add-Keeps s.minmax s.typ x exact in
      let next : Ranged n m = record { typ = merge s.typ (from_sample n x); minmax = mm } in
      let step : add_ranged n m s x ≡ some next = unfold add_ranged in rw e refl in
      let (s', r, t, more) = compute_ranged-Keeps next xs others in
      (
        s',
        rw (compute_ranged, step) r,
        t,
        Keeps-trans next.typ (types n next.typ xs) s.minmax mm s'.minmax x xs
            (types-rank next.typ xs) kept more,
      )

-- ===== src/Tests/Range.antt =====
-- A run and a witness for the extremes of src/cmd/stats.rs.
use mathlib.Core.List.{append_assoc}
use xsv.Prelude.{
  Bool-cases, inl, inr, ℕ, ◌≡◌, refl, sym, ap, ◌∙◌, Bool, true, false, List, [], ◌∷◌, ◌++◌,
  append-nil, Option, none, some, ltb, if◌then◌else◌,
}
use xsv.Prelude.Bytes.{bytes_eq}
use xsv.Prelude.Literal.{codes}
use xsv.Error.{Bytes}
use xsv.Select.Number.{digits_value}
use xsv.Select.Syntax.{decimal}
use xsv.Cmd.Sort.Compare.{Int64, pos, parse_int}
use xsv.Cmd.Stats.{i64_mod, Floats, bits, float_from_bytes}
use xsv.Cmd.Stats.Range.{
  MinMax, Extremes, Ranged, new_ranged, compute_ranged, merge_ranged, show, len_range, read_int,
}
use xsv.Cmd.Stats.Sums.{ReadsIntegers}
use xsv.Cmd.Stats.Range.Reading.{keep_all}
use xsv.Cmd.Stats.Range.Agree.{IsMinMax, merge_ranged-compute_ranged}

abbrev bits_of : Option Int64 → Option ℕ
bits_of none = none
bits_of (some i) = some (bits i)

abbrev minus_zero : Bytes
minus_zero = codes "-0"

-- A stand-in for floats: those without a fraction, by the bits of their integers, and the float -0,
-- which is not the float next to the integer 0.
abbrev pub whole : Floats
whole = record {
  Float64 = ℕ;
  is_utf8 = λ s. true;
  parse_float = λ s. if bytes_eq s minus_zero then some i64_mod else bits_of (parse_int s);
  as_float = λ b. b;
  add_float = λ x y. x;
}

pub whole-ReadsIntegers : ReadsIntegers whole
whole-ReadsIntegers s i e = elim (Bool-cases (bytes_eq s minus_zero)) [
  | inl zero ↦ (i64_mod, rw zero)
  | inr other ↦ (bits i, rw other (ap bits_of e))
]

-- The text `-0` reads as the integer 0 and as the float -0.
both_zeros :
    (read_int whole minus_zero ≡ some (pos 0)) × (float_from_bytes whole minus_zero ≡ some i64_mod)
unfolding read_int float_from_bytes parse_int digits_value bytes_eq
both_zeros = (refl, refl)

module _ {T : Type 0} where
  abbrev pick : (T → T → Bool) → T → List T → T
  pick better x [] = x
  pick better x (y ∷ ys) = if better y x then pick better y ys else pick better x ys

  abbrev best : (T → T → Bool) → List T → Option T
  best better [] = none
  best better (x ∷ xs) = some (pick better x xs)

  -- Everything is kept, in order.
  abbrev listing : (T → T → Bool) → MinMax T
  listing less = record {
    Kept = List T;
    nothing = [];
    keep = λ x xs. xs ++ x ∷ [];
    join = ◌++◌;
    min = best less;
    max = best (λ x y. less y x);
  }

keep_all-append :
    {T : Type 0} (less : T → T → Bool) (a xs : List T) → keep_all (listing less) a xs ≡ a ++ xs
keep_all-append less a [] = sym (append-nil a)
keep_all-append less a (x ∷ xs) = keep_all-append less (a ++ x ∷ []) xs ∙ append_assoc a (x ∷ []) xs

listing-IsMinMax : {T : Type 0} (less : T → T → Bool) (P : T → Type 0) → IsMinMax (listing less) P
listing-IsMinMax less P = record {
  joins = λ xs ys h k.
      ap (λ a. a ++ keep_all (listing less) [] ys) (keep_all-append less [] xs)
      ∙ ap (◌++◌ xs) (keep_all-append less [] ys)
      ∙ sym (keep_all-append less [] (xs ++ ys));
}

abbrev earlier : Bytes → Bytes → Bool
earlier xs [] = false
earlier [] (y ∷ ys) = true
earlier (x ∷ xs) (y ∷ ys) = if ltb x y then true else if ltb y x then false else earlier xs ys

abbrev pub lists : Extremes whole
lists = record {
  of_strings = listing earlier;
  of_lengths = listing ltb;
  of_integers = listing (λ i j. ltb (bits i) (bits j));
  of_floats = listing ltb;
  as_integer = λ f. pos f;
  lossy_text = λ b. b;
  integer_text = λ i. decimal (bits i);
  float_text = decimal;
}

abbrev ages : List Bytes
ages = codes "12" ∷ [] ∷ []

abbrev others : List Bytes
others = codes "7" ∷ codes "x" ∷ []

merge_ranged-compute_ranged_example :
    (a b c : Ranged whole lists) × (compute_ranged whole lists (new_ranged whole lists) ages
      ≡ some a)
    × (compute_ranged whole lists (new_ranged whole lists) others ≡ some b)
    × (compute_ranged whole lists
          (new_ranged whole lists)
          (codes "12" ∷ [] ∷ codes "7" ∷ codes "x" ∷ [])
        ≡ some c)
    × ((merge_ranged whole lists a b).typ ≡ c.typ)
    × (show whole lists (merge_ranged whole lists a b).minmax (merge_ranged whole lists a b).typ
        ≡ show whole lists c.minmax c.typ)
    × (len_range whole lists (merge_ranged whole lists a b).minmax ≡ len_range whole lists c.minmax)
unfolding read_int float_from_bytes parse_int digits_value bytes_eq
merge_ranged-compute_ranged_example =
    merge_ranged-compute_ranged whole lists (λ f. Unit {0}) (listing-IsMinMax earlier _)
      (listing-IsMinMax ltb _) (listing-IsMinMax _ _) (listing-IsMinMax ltb _) ages others (tt, tt)
      (tt, tt) (refl, (refl, tt)) (refl, (refl, tt))

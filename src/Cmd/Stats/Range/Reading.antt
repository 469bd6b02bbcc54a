-- ===== src/Cmd/Stats/Range/Reading.antt =====
-- What is read of the samples, and what is kept of a sequence.
use xsv.Prelude.{
  ℕ, ◌≡◌, refl, sym, ap, ◌∙◌, inl, inr, List, [], ◌∷◌, Option, none, some, Option-cases, Bool-cases,
  arith,
}
use xsv.Error.{Bytes}
use xsv.Cmd.Sort.Compare.{Int64, parse_int}
use xsv.Cmd.Stats.{
  Floats, unknown, unicode, float, integer, from_sample, of_string, bits, float_from_bytes,
}
use xsv.Cmd.Stats.Range.{MinMax, read_int}

-- What a sample is as a float, where one that reads as an integer is the float next to it.
abbrev pub read_either : (n : Floats) → Option Int64 → Option n.Float64 → Option n.Float64
read_either n none f = f
read_either n (some i) f = some (n.as_float (bits i))

-- The sample does not read as an integer, or reads as the float next to the integer. (The text `-0`
-- reads as the integer 0, and as the float -0, which is not the float next to 0.)
abbrev pub IsExact : Floats → Bytes → Type 0
IsExact n s = read_either n (read_int n s) (float_from_bytes n s) ≡ float_from_bytes n s

module _ {T : Type 0} (m : MinMax T) where
  abbrev pub keep_all : m.Kept → List T → m.Kept
  keep_all a [] = a
  keep_all a (x ∷ xs) = keep_all (m.keep x a) xs

  abbrev pub keep_some : Option T → m.Kept → m.Kept
  keep_some none a = a
  keep_some (some x) a = m.keep x a

abbrev pub push : {T : Type 0} → Option T → List T → List T
push none xs = xs
push (some x) xs = x ∷ xs

pub keep_all-push :
    {T : Type 0} (m : MinMax T) (o : Option T) (a : m.Kept) (xs : List T)
    → keep_all m a (push o xs) ≡ keep_all m (keep_some m o a) xs
keep_all-push m none a xs = refl
keep_all-push m (some x) a xs = refl

abbrev pub non_empty : List Bytes → List Bytes
non_empty [] = []
non_empty ([] ∷ xs) = non_empty xs
non_empty ((c ∷ cs) ∷ xs) = (c ∷ cs) ∷ non_empty xs

module _ (n : Floats) where
  abbrev pub integers_of : List Bytes → List Int64
  integers_of [] = []
  integers_of ([] ∷ xs) = integers_of xs
  integers_of ((c ∷ cs) ∷ xs) = push (read_int n (c ∷ cs)) (integers_of xs)

  abbrev pub floats_of : List Bytes → List n.Float64
  floats_of [] = []
  floats_of ([] ∷ xs) = floats_of xs
  floats_of ((c ∷ cs) ∷ xs) = push (float_from_bytes n (c ∷ cs)) (floats_of xs)

  pub read_int-some :
      (c : ℕ) (cs : Bytes)
      → from_sample n (c ∷ cs) ≡ integer
      → (i : Int64) × (read_int n (c ∷ cs) ≡ some i)
  unfolding read_int from_sample of_string
  read_int-some c cs h = elim (Bool-cases (n.is_utf8 (c ∷ cs))) [
    | inr invalid ↦
        let k : from_sample n (c ∷ cs) ≡ unknown = rw invalid in absurd (ground (arith, k, h))
    | inl valid ↦ elim (Option-cases (parse_int (c ∷ cs))) [
      | inr (i, e) ↦ (i, rw (valid, e) refl)
      | inl e ↦ elim (Option-cases (n.parse_float (c ∷ cs))) [
        | inl e' ↦
            let k : from_sample n (c ∷ cs) ≡ unicode = rw (valid, e, e') in
            absurd (ground (arith, k, h))
        | inr (f, e') ↦
            let k : from_sample n (c ∷ cs) ≡ float = rw (valid, e, e') in
            absurd (ground (arith, k, h))
      ]
    ]
  ]

  pub read_integer :
      (c : ℕ) (cs : Bytes)
      → IsExact n (c ∷ cs)
      → from_sample n (c ∷ cs) ≡ integer
      → (i : Int64) × (read_int n (c ∷ cs) ≡ some i)
        × (float_from_bytes n (c ∷ cs) ≡ some (n.as_float (bits i)))
  read_integer c cs exact h =
      let (i, e) = read_int-some c cs h in
      (i, e, sym exact ∙ ap (λ o. read_either n o (float_from_bytes n (c ∷ cs))) e)

  pub read_float :
      (c : ℕ) (cs : Bytes)
      → from_sample n (c ∷ cs) ≡ float
      → (f : n.Float64) × (float_from_bytes n (c ∷ cs) ≡ some f)
  unfolding float_from_bytes from_sample of_string
  read_float c cs h = elim (Bool-cases (n.is_utf8 (c ∷ cs))) [
    | inr invalid ↦
        let k : from_sample n (c ∷ cs) ≡ unknown = rw invalid in absurd (ground (arith, k, h))
    | inl valid ↦ elim (Option-cases (n.parse_float (c ∷ cs))) [
      | inr (f, e) ↦ (f, rw valid e)
      | inl e ↦ elim (Option-cases (parse_int (c ∷ cs))) [
        | inl e' ↦
            let k : from_sample n (c ∷ cs) ≡ unicode = rw (valid, e, e') in
            absurd (ground (arith, k, h))
        | inr (i, e') ↦
            let k : from_sample n (c ∷ cs) ≡ integer = rw (valid, e') in
            absurd (ground (arith, k, h))
      ]
    ]
  ]

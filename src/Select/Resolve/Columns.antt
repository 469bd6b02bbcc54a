-- ===== src/Select/Resolve/Columns.antt =====
-- `SelectColumns::selection`: its positions are in bounds, and an inverted selection is the
-- complement of the plain one.
use xsv.Prelude.{
  ℕ, zero, suc, ◌+◌, ◌<◌, ◌≤◌, ◌≡◌, refl, ap, Bool, true, false, not, ◌&&◌, List, [], ◌∷◌, length,
  filter, All, All-append, ltb, leb, ◌==◌, ==→eq, Bool-cases, inl, inr, arith,
}
use xsv.Prelude.Results.{Result, ok, err, ◌>>=◌, OnOk, OnOk-intro, OnOk-bind, OnOk-elim}
use xsv.Prelude.Bytes.{contains}
use xsv.Error.{ByteRecord, Message}
use xsv.Select.{OneSelector, Selector, one, range, SelectColumns}
use xsv.Select.Resolve.{
  index_of, ascending, indices, collect_indices, complement, select_from, selection,
}
use xsv.Select.Resolve.Index.{index_of-lt-length}
use xsv.Select.Resolve.Range.{ascending-All, between-All}

module _ (first : ByteRecord) (use_names : Bool) (nonempty : 0 < length first) where
  abbrev InBounds : List ℕ → Type 0
  InBounds = All (λ i. i < length first)

  index_of-OnOk : (f : OneSelector) → OnOk (λ i. i < length first) (index_of f first use_names)
  index_of-OnOk f =
      OnOk-intro _ (index_of f first use_names)
        (λ i e. index_of-lt-length f first use_names nonempty e)

  indices-InBounds : (s : Selector) → OnOk InBounds (indices s first use_names)
  unfolding indices
  indices-InBounds (one f) =
      OnOk-bind _ InBounds (index_of f first use_names) _ (index_of-OnOk f) (λ i h. (h, tt))
  indices-InBounds (range f g) =
      OnOk-bind _ InBounds (index_of f first use_names) _ (index_of-OnOk f) λ i1 h1.
        OnOk-bind _ InBounds (index_of g first use_names) _ (index_of-OnOk g)
          λ i2 h2. between-All i1 i2 (length first) h1 h2

  collect_indices-InBounds :
      (sels : List Selector) → OnOk InBounds (collect_indices sels first use_names)
  unfolding collect_indices
  collect_indices-InBounds [] = tt
  collect_indices-InBounds (sel ∷ sels) =
      OnOk-bind _ InBounds (indices sel first use_names) _ (indices-InBounds sel) λ xs hx.
        OnOk-bind _ InBounds (collect_indices sels first use_names) _
          (collect_indices-InBounds sels) λ ys hy. All-append _ xs ys hx hy

  filter-InBounds : (p : ℕ → Bool) (xs : List ℕ) → InBounds xs → InBounds (filter p xs)
  filter-InBounds p [] h = tt
  filter-InBounds p (x ∷ xs) (h, hs) = elim (Bool-cases (p x)) [
    | inl keep ↦ rw keep (h, filter-InBounds p xs hs)
    | inr out ↦ rw out (filter-InBounds p xs hs)
  ]

  every_position-InBounds : InBounds (ascending 0 (length first))
  every_position-InBounds = ascending-All 0 (length first) (length first) (omega arith)

  select_from-InBounds :
      (sels : List Selector) (invert : Bool)
      → OnOk InBounds (select_from sels invert first use_names)
  unfolding select_from
  select_from-InBounds [] true = tt
  select_from-InBounds [] false = every_position-InBounds
  select_from-InBounds (sel ∷ sels) true =
      OnOk-bind _ InBounds (collect_indices (sel ∷ sels) first use_names) _
        (collect_indices-InBounds (sel ∷ sels))
        (λ xs h. filter-InBounds (λ i. not (contains i xs)) _ every_position-InBounds)
  select_from-InBounds (sel ∷ sels) false =
      OnOk-bind _ InBounds (collect_indices (sel ∷ sels) first use_names) _
        (collect_indices-InBounds (sel ∷ sels)) (λ xs h. h)

-- On a header with at least one field, every position of a selection that resolves is in bounds.
pub selection-InBounds :
    (c : SelectColumns) (first : ByteRecord) (use_names : Bool) {xs : List ℕ}
    → 0 < length first
    → selection c first use_names ≡ ok xs
    → All (λ i. i < length first) xs
unfolding selection
selection-InBounds c first names {xs} h e =
    OnOk-elim (All (λ i. i < length first)) (select_from c.selectors c.invert first names) xs e
      (select_from-InBounds first names h c.selectors c.invert)

-- Strictly increasing, and all at least `lo`.
abbrev pub IsIncreasing : ℕ → List ℕ → Type 0
IsIncreasing lo [] = Unit
IsIncreasing lo (x ∷ xs) = (lo ≤ x) × IsIncreasing (suc x) xs

IsIncreasing-weaken :
    (lo lo' : ℕ) (xs : List ℕ) → lo ≤ lo' → IsIncreasing lo' xs → IsIncreasing lo xs
IsIncreasing-weaken lo lo' [] h s = tt
IsIncreasing-weaken lo lo' (x ∷ xs) h (k, s) = (omega arith, s)

filter-ascending-IsIncreasing :
    (p : ℕ → Bool) (lo n : ℕ) → IsIncreasing lo (filter p (ascending lo n))
unfolding ascending
filter-ascending-IsIncreasing p lo zero = tt
filter-ascending-IsIncreasing p lo (suc n) = elim (Bool-cases (p lo)) [
  | inl keep ↦ rw keep (omega arith, filter-ascending-IsIncreasing p (suc lo) n)
  | inr out ↦
      rw out (
        IsIncreasing-weaken lo (suc lo) _ (omega arith)
          (filter-ascending-IsIncreasing p (suc lo) n))
]

contains-filter-ascending :
    (p : ℕ → Bool) (lo n i : ℕ)
    → contains i (filter p (ascending lo n)) ≡ (leb lo i && ltb i (lo + n) && p i)
unfolding ascending contains
contains-filter-ascending p lo zero i = ground arith
contains-filter-ascending p lo (suc n) i = elim (Bool-cases (lo == i)) [
  | inl here ↦
      let e : lo ≡ i = ==→eq lo i here in
      ground (arith, ap p e, contains-filter-ascending p (suc lo) n i)
  | inr later ↦ ground (arith, contains-filter-ascending p (suc lo) n i)
]

contains-ascending : (lo n i : ℕ) → contains i (ascending lo n) ≡ (leb lo i && ltb i (lo + n))
unfolding ascending contains
contains-ascending lo zero i = ground arith
contains-ascending lo (suc n) i = ground (arith, contains-ascending (suc lo) n i)

-- What inverting a selection does to the result of the plain one.
abbrev pub Inverts : ℕ → Result Message (List ℕ) → Result Message (List ℕ) → Type 0
Inverts len (err m) inverted = inverted ≡ err m
Inverts len (ok ys) inverted =
    (xs : List ℕ) × (inverted ≡ ok xs)
    × IsIncreasing 0 xs
    × ((i : ℕ) → contains i xs ≡ (ltb i len && not (contains i ys)))

-- Inverting a selection keeps its errors; where the plain selection gives positions, the inverted
-- one gives, in increasing order, exactly the positions of the header that the plain one lacks.
pub selection-Inverts :
    (sels : List Selector) (first : ByteRecord) (use_names : Bool)
    → Inverts
        (length first)
        (selection (record { selectors = sels; invert = false }) first use_names)
        (selection (record { selectors = sels; invert = true }) first use_names)
unfolding selection select_from
selection-Inverts [] first names =
    ([], refl, tt, λ i. unfold contains in ground (arith, contains-ascending 0 (length first) i))
selection-Inverts (sel ∷ sels) first names = go (collect_indices (sel ∷ sels) first names)
  where
    go :
        (r : Result Message (List ℕ))
        → Inverts
            (length first)
            (r >>= λ map. ok map)
            (r >>= λ map. ok (complement map (length first)))
    go (err m) = refl
    go (ok ys) = (
      complement ys (length first),
      refl,
      filter-ascending-IsIncreasing (λ i. not (contains i ys)) 0 (length first),
      λ i.
          unfold complement in
          ground (arith, contains-filter-ascending (λ j. not (contains j ys)) 0 (length first) i),
    )

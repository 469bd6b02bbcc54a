-- ===== src/Select/Resolve/Range.antt =====
-- The positions of a range `i1-i2`: every one between the two ends, from the first to the second.
use xsv.Prelude.{
  ℕ, zero, suc, ◌+◌, ◌-◌, ◌<◌, ◌≤◌, ◌≡◌, refl, Bool, List, length, get_elem?, some, All, ltb, leb,
  ltb→lt, ltb→ge, if◌then◌else◌, Bool-cases, inl, inr, arith,
}
use xsv.Prelude.Results.{ok}
use xsv.Error.{ByteRecord}
use xsv.Select.{OneSelector, range}
use xsv.Select.Resolve.{index_of, ascending, descending, between, indices}

pub length-ascending : (lo n : ℕ) → length (ascending lo n) ≡ n
unfolding ascending
length-ascending lo zero = refl
length-ascending lo (suc n) = omega (arith, length-ascending (suc lo) n)

get_elem?-ascending : (lo n k : ℕ) → k < n → get_elem? (ascending lo n) k ≡ some (lo + k)
unfolding ascending
get_elem?-ascending lo zero k h = absurd (omega arith)
get_elem?-ascending lo (suc n) zero h = ground arith
get_elem?-ascending lo (suc n) (suc k) h = ground (arith, get_elem?-ascending (suc lo) n k)

length-descending : (i i2 : ℕ) → length (descending i i2) ≡ i - i2
unfolding descending
length-descending zero i2 = omega arith
length-descending (suc i) i2 = elim (Bool-cases (ltb i2 (suc i))) [
  | inl more ↦ rw more (omega (arith, ltb→lt i2 (suc i) more, length-descending i i2))
  | inr done ↦ rw done (omega (arith, ltb→ge i2 (suc i) done))
]

get_elem?-descending : (i i2 k : ℕ) → k < i - i2 → get_elem? (descending i i2) k ≡ some (i - 1 - k)
unfolding descending
get_elem?-descending zero i2 k h = absurd (omega arith)
get_elem?-descending (suc i) i2 zero h = ground arith
get_elem?-descending (suc i) i2 (suc k) h = ground (arith, get_elem?-descending i i2 k)

length-between : (i1 i2 : ℕ) → length (between i1 i2) ≡ (i1 - i2) + (i2 - i1) + 1
unfolding between
length-between i1 i2 =
    ground (arith, length-ascending i1 (i2 + 1 - i1), length-descending (i1 + 1) i2)

get_elem?-between :
    (i1 i2 k : ℕ)
    → k < length (between i1 i2)
    → get_elem? (between i1 i2) k ≡ some (if leb i1 i2 then i1 + k else i1 - k)
get_elem?-between i1 i2 k h = near (rw length-between at h)
  where
    near :
        k < (i1 - i2) + (i2 - i1) + 1
        → get_elem? (between i1 i2) k ≡ some (if leb i1 i2 then i1 + k else i1 - k)
    near h' =
        unfold between in
        ground (
          arith,
          get_elem?-ascending i1 (i2 + 1 - i1) k,
          get_elem?-descending (i1 + 1) i2 k,
          get_elem?-ascending i1 1 k,
        )

-- A range that resolves lists each position between its two ends once, the ends included, upwards
-- if the first end is the smaller one and downwards otherwise.
pub indices-range :
    (f g : OneSelector) (first : ByteRecord) (use_names : Bool) (i1 i2 : ℕ)
    → index_of f first use_names ≡ ok i1
    → index_of g first use_names ≡ ok i2
    → (xs : List ℕ) × (indices (range f g) first use_names ≡ ok xs)
      × (length xs ≡ (i1 - i2) + (i2 - i1) + 1)
      × ((k : ℕ) → k < length xs → get_elem? xs k ≡ some (if leb i1 i2 then i1 + k else i1 - k))
indices-range f g first names i1 i2 p q =
    (between i1 i2, unfold indices in rw (p, q), length-between i1 i2, get_elem?-between i1 i2)

pub ascending-All : (lo n m : ℕ) → lo + n ≤ m → All (λ i. i < m) (ascending lo n)
unfolding ascending
ascending-All lo zero m h = tt
ascending-All lo (suc n) m h = (omega arith, ascending-All (suc lo) n m (omega arith))

descending-All : (i i2 m : ℕ) → i ≤ m → All (λ i. i < m) (descending i i2)
unfolding descending
descending-All zero i2 m h = tt
descending-All (suc i) i2 m h = elim (Bool-cases (ltb i2 (suc i))) [
  | inl more ↦ rw more (h, descending-All i i2 m (omega arith))
  | inr done ↦ rw done tt
]

pub between-All : (i1 i2 m : ℕ) → i1 < m → i2 < m → All (λ i. i < m) (between i1 i2)
unfolding between
between-All i1 i2 m h k =
    ground (arith, ascending-All i1 (i2 + 1 - i1) m, descending-All (i1 + 1) i2 m)

-- ===== src/Select/Row.antt =====
-- src/select.rs: applying a selection to a record, `Selection` and `NormalSelection`.
pub mod Normal
use Prim.Native.Nat.{compare}
use xsv.Prelude.{
  ℕ, zero, suc, ◌+◌, Bool, true, false, List, [], ◌∷◌, Option, none, some, length, get_elem?, set,
  replicate, ◌==◌, if◌then◌else◌,
}
use xsv.Prelude.Sort.{sort_by}
use xsv.Error.{Bytes, ByteRecord}

-- `&row[*idx]` panics past the end of the row: then there is no result.
unfoldable pub select : List ℕ → ByteRecord → Option (List Bytes)
select [] row = some []
select (i ∷ is) row = elim (get_elem? row i) [
  | none ↦ none
  | some field ↦ elim (select is row) [ none ↦ none | some fields ↦ some (field ∷ fields) ]
]

-- `Vec::dedup` behind a first element.
unfoldable pub dedup_after : ℕ → List ℕ → List ℕ
dedup_after last [] = []
dedup_after last (x ∷ xs) =
    let rest = x ∷ dedup_after x xs in if last == x then dedup_after last xs else rest

unfoldable pub dedup : List ℕ → List ℕ
unfolding dedup_after
dedup [] = []
dedup (x ∷ xs) = x ∷ dedup_after x xs

-- The last element of `x ∷ xs`.
unfoldable pub last_of : ℕ → List ℕ → ℕ
last_of x [] = x
last_of x (y ∷ ys) = last_of y ys

unfoldable pub mark_all : List ℕ → List Bool → List Bool
mark_all [] s = s
mark_all (i ∷ is) s = mark_all is (set s i true)

unfoldable pub marked : List ℕ → List Bool
unfolding last_of mark_all
marked [] = []
marked (x ∷ xs) = mark_all (x ∷ xs) (replicate (suc (last_of x xs)) false)

-- `Selection::normal`.
unfoldable pub normal : List ℕ → List Bool
unfolding dedup marked
normal inds = marked (dedup (sort_by compare inds))

-- `i < set.len() && set[i]`.
abbrev pub is_set : List Bool → ℕ → Bool
is_set [] i = false
is_set (b ∷ bs) zero = b
is_set (b ∷ bs) (suc i) = is_set bs i

-- `NormalSelection::select` over the items from number `i` on.
module _ {ℓ} {A : Type ℓ} where
  unfoldable pub normal_select_from : ℕ → List Bool → List A → List A
  normal_select_from i s [] = []
  normal_select_from i s (v ∷ vs) =
      let rest = normal_select_from (suc i) s vs in if is_set s i then v ∷ rest else rest

  unfoldable pub normal_select : List Bool → List A → List A
  unfolding normal_select_from
  normal_select s row = normal_select_from 0 s row

-- `NormalSelection::len`.
unfoldable pub normal_len : List Bool → ℕ
normal_len [] = 0
normal_len (b ∷ bs) = (if b then 1 else 0) + normal_len bs

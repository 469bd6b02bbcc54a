-- ===== src/Select/Row/Normal.antt =====
-- A normal selection marks the positions of the selection that it comes from, and no others.
use Prim.Native.Nat.{compare}
use xsv.Prelude.{
  ℕ, zero, suc, ◌<◌, ◌≤◌, ◌≡◌, refl, ◌∙◌, ◌⊎◌, append_assoc, Bool, true, false, ◌&&◌, ◌||◌, List,
  [], ◌∷◌, ◌++◌, some, All, length, length-replicate, length-set, length-append, get_elem?, set,
  replicate, filter, ltb, ◌==◌, Bool-cases, inl, inr, arith,
}
use xsv.Prelude.Sort.{insert_by, sort_by, IsSorted, IsPreorder, sort_by-IsSorted, sort_by-All}
use xsv.Prelude.Bytes.{contains}
use xsv.Select.Resolve.{ascending}
use xsv.Error.{Bytes, ByteRecord}
use xsv.Select.Row.{
  select, dedup_after, dedup, last_of, mark_all, marked, normal, is_set, normal_select_from,
  normal_select, normal_len,
}

compare-IsPreorder : IsPreorder compare
compare-IsPreorder = record { total = λ x y h. ground arith; trans = λ x y z h k. ground arith }

contains-insert_by :
    (i x : ℕ) (xs : List ℕ) → contains i (insert_by compare x xs) ≡ contains i (x ∷ xs)
unfolding contains insert_by
contains-insert_by i x [] = refl
contains-insert_by i x (y ∷ ys) = ground (arith, contains-insert_by i x ys)

contains-sort_by : (i : ℕ) (xs : List ℕ) → contains i (sort_by compare xs) ≡ contains i xs
unfolding contains sort_by
contains-sort_by i [] = refl
contains-sort_by i (x ∷ xs) =
    contains-insert_by i x (sort_by compare xs) ∙ ground (arith, contains-sort_by i xs)

contains-dedup_after :
    (i x : ℕ) (xs : List ℕ) → contains i (x ∷ dedup_after x xs) ≡ contains i (x ∷ xs)
unfolding contains dedup_after
contains-dedup_after i x [] = refl
contains-dedup_after i x (y ∷ ys) =
    ground (arith, contains-dedup_after i x ys, contains-dedup_after i y ys)

is_set-set :
    (s : List Bool) (i j : ℕ)
    → is_set (set s i true) j ≡ (is_set s j || (i == j && ltb i (length s)))
is_set-set [] i j = ground arith
is_set-set (b ∷ bs) zero zero = ground arith
is_set-set (b ∷ bs) zero (suc j) = ground arith
is_set-set (b ∷ bs) (suc i) zero = ground arith
is_set-set (b ∷ bs) (suc i) (suc j) = ground (arith, is_set-set bs i j)

is_set-mark_all :
    (is : List ℕ) (s : List Bool) (j : ℕ)
    → is_set (mark_all is s) j ≡ (is_set s j || (contains j is && ltb j (length s)))
unfolding mark_all contains
is_set-mark_all [] s j = ground arith
is_set-mark_all (i ∷ is) s j =
    ground (arith, is_set-mark_all is (set s i true) j, is_set-set s i j, length-set s i true)

is_set-replicate : (n j : ℕ) → is_set (replicate n false) j ≡ false
is_set-replicate zero j = refl
is_set-replicate (suc n) zero = refl
is_set-replicate (suc n) (suc j) = is_set-replicate n j

-- In a sorted list nothing exceeds the last element.
last_of-IsSorted :
    (x : ℕ) (xs : List ℕ) (j : ℕ)
    → IsSorted compare (x ∷ xs)
    → contains j (x ∷ xs) ≡ true
    → j ≤ last_of x (dedup_after x xs)
unfolding last_of dedup_after contains
last_of-IsSorted x [] j s h = ground arith
last_of-IsSorted x (y ∷ ys) j ((b, bs), (c, s)) h = ground (
  arith,
  last_of-IsSorted x ys j (bs, s),
  last_of-IsSorted y ys j (c, s),
  last_of-IsSorted y ys y (c, s),
)

is_set-marked :
    (xs : List ℕ) (j : ℕ) → IsSorted compare xs → is_set (marked (dedup xs)) j ≡ contains j xs
unfolding marked dedup
is_set-marked [] j s = unfold contains in refl
is_set-marked (x ∷ xs) j s = ground (
  arith,
  is_set-mark_all (x ∷ dedup_after x xs) (replicate (suc (last_of x (dedup_after x xs))) false) j,
  is_set-replicate (suc (last_of x (dedup_after x xs))) j,
  length-replicate (suc (last_of x (dedup_after x xs))) false,
  contains-dedup_after j x xs,
  last_of-IsSorted x xs j s,
)

-- A position is marked in the normal form of a selection exactly when the selection has it.
pub is_set-normal : (inds : List ℕ) (j : ℕ) → is_set (normal inds) j ≡ contains j inds
unfolding normal
is_set-normal inds j =
    is_set-marked (sort_by compare inds) j (sort_by-IsSorted compare compare-IsPreorder inds)
    ∙ contains-sort_by j inds

get_elem?-append_length :
    (before : ByteRecord) (f : Bytes) (row : ByteRecord)
    → get_elem? (before ++ f ∷ row) (length before) ≡ some f
get_elem?-append_length [] f row = refl
get_elem?-append_length (b ∷ before) f row = get_elem?-append_length before f row

select-keep :
    (is : List ℕ) (row : ByteRecord) (i : ℕ) (f : Bytes) (fs : List Bytes)
    → get_elem? row i ≡ some f
    → select is row ≡ some fs
    → select (i ∷ is) row ≡ some (f ∷ fs)
unfolding select
select-keep is row i f fs g h = ground arith

-- The same from position `lo` on, `before` being the fields in front.
select-normal_select_from :
    (inds : List ℕ) (before row : ByteRecord) (lo : ℕ)
    → length before ≡ lo
    → select (filter (λ i. contains i inds) (ascending lo (length row))) (before ++ row)
      ≡ some (normal_select_from lo (normal inds) row)
unfolding normal_select_from ascending
select-normal_select_from inds before [] lo e = unfold select in refl
select-normal_select_from inds before (f ∷ row) lo e =
    split
      (rw append_assoc at (
        select-normal_select_from inds (before ++ f ∷ []) row (suc lo)
          (omega (arith, length-append before (f ∷ [])))))
      (Bool-cases (contains lo inds))
  where
    split :
        (select
            (filter (λ i. contains i inds) (ascending (suc lo) (length row)))
            (before ++ f ∷ row)
          ≡ some (normal_select_from (suc lo) (normal inds) row))
        → (contains lo inds ≡ true) ⊎ (contains lo inds ≡ false)
        → select
            (filter (λ i. contains i inds) (ascending lo (suc (length row))))
            (before ++ f ∷ row)
          ≡ some (normal_select_from lo (normal inds) (f ∷ row))
    split rest (inl keep) =
        rw (is_set-normal inds lo, keep)
          (select-keep _ _ lo f _ (rw (← e) (get_elem?-append_length before f row)) rest)
    split rest (inr out) = rw (is_set-normal inds lo, out) rest

-- `NormalSelection::select` gives the fields of the selected columns in the order of the record,
-- each of them once, whatever order and repetitions the selection has.
pub normal_select-select :
    (inds : List ℕ) (row : ByteRecord)
    → select (filter (λ i. contains i inds) (ascending 0 (length row))) row
      ≡ some (normal_select (normal inds) row)
unfolding normal_select
normal_select-select inds row = select-normal_select_from inds [] row 0 refl

normal_select_from-nil : (i : ℕ) (row : ByteRecord) → normal_select_from i [] row ≡ []
unfolding normal_select_from
normal_select_from-nil i [] = refl
normal_select_from-nil i (f ∷ row) = normal_select_from-nil (suc i) row

normal_select_from-cons :
    (i : ℕ) (b : Bool) (s : List Bool) (row : ByteRecord)
    → normal_select_from (suc i) (b ∷ s) row ≡ normal_select_from i s row
unfolding normal_select_from
normal_select_from-cons i b s [] = refl
normal_select_from-cons i b s (f ∷ row) = ground (arith, normal_select_from-cons (suc i) b s row)

-- As many fields are selected as positions are marked, if the record reaches them all.
length-normal_select_from :
    (s : List Bool) (row : ByteRecord)
    → length s ≤ length row
    → length (normal_select_from 0 s row) ≡ normal_len s
unfolding normal_len normal_select_from
length-normal_select_from [] row h = rw normal_select_from-nil
length-normal_select_from (b ∷ s) [] h = absurd (omega arith)
length-normal_select_from (b ∷ s) (f ∷ row) h =
    ground (arith, normal_select_from-cons 0 b s row, length-normal_select_from s row)

length-mark_all : (is : List ℕ) (s : List Bool) → length (mark_all is s) ≡ length s
unfolding mark_all
length-mark_all [] s = refl
length-mark_all (i ∷ is) s = length-mark_all is (set s i true) ∙ length-set s i true

last_of-All : (m x : ℕ) (xs : List ℕ) → All (λ i. i < m) (x ∷ xs) → last_of x (dedup_after x xs) < m
unfolding last_of dedup_after
last_of-All m x [] (h, k) = h
last_of-All m x (y ∷ ys) (h, (k, ks)) =
    ground (arith, last_of-All m x ys (h, ks), last_of-All m y ys (k, ks))

length-marked : (m : ℕ) (xs : List ℕ) → All (λ i. i < m) xs → length (marked (dedup xs)) ≤ m
unfolding marked dedup
length-marked m [] h = omega arith
length-marked m (x ∷ xs) h = omega (
  arith,
  length-mark_all (x ∷ dedup_after x xs) (replicate (suc (last_of x (dedup_after x xs))) false),
  length-replicate (suc (last_of x (dedup_after x xs))) false,
  last_of-All m x xs h,
)

-- If the record has every selected column, `NormalSelection::select` yields exactly `len` fields.
pub length-normal_select :
    (inds : List ℕ) (row : ByteRecord)
    → All (λ i. i < length row) inds
    → length (normal_select (normal inds) row) ≡ normal_len (normal inds)
unfolding normal_select normal
length-normal_select inds row h =
    length-normal_select_from (normal inds) row
      (length-marked (length row) (sort_by compare inds) (sort_by-All compare _ inds h))

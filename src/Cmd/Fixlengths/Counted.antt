-- ===== src/Cmd/Fixlengths/Counted.antt =====
-- src/cmd/fixlengths.rs: what the loop over the fields of a record counts.
use xsv.Prelude.{
  All-drop, drop-drop, ℕ, suc, ◌+◌, ◌-◌, ◌≡◌, ◌≤◌, refl, min, ◌⊎◌, true, false, not, ◌||◌, List, [],
  ◌∷◌, length, drop, leb, ◌==◌, All, arith, Bool-cases, inl, inr,
}
use xsv.Error.{Bytes, ByteRecord}
use xsv.Cmd.Fixlengths.{is_empty, count_fields}

abbrev pub Empty : Bytes → Type 0
Empty field = field ≡ []

is_empty-Empty : (f : Bytes) → is_empty f ≡ true → Empty f
is_empty-Empty [] h = refl
is_empty-Empty (c ∷ cs) h = cc

drop_step :
    (res index : ℕ) (f : Bytes) (r : ByteRecord)
    → All Empty (drop (res - suc index) r)
    → (suc index ≤ res) ⊎ (Empty f × res ≤ index)
    → All Empty (drop (res - index) (f ∷ r))
drop_step res index f r h (inl more) =
    let e : res - index ≡ suc (res - suc index) = omega arith in rw e h
drop_step res index f r h (inr (e, less)) =
    let same : res - index ≡ 0 = omega arith in
    let same' : res - suc index ≡ 0 = omega arith in rw same (e, rw same' at h)

within : (index res : ℕ) (f : Bytes) → Empty f → (suc index ≤ res) ⊎ (Empty f × res ≤ index)
within index res f e = elim (Bool-cases (leb (suc index) res)) [
  | inl more ↦ inl (ground arith)
  | inr less ↦ inr (e, ground arith)
]

-- The fields behind the counted ones are empty.
count_fields-Empty :
    (index n : ℕ) (r : ByteRecord)
    → n ≤ index
    → (n ≤ count_fields index n r) × All Empty (drop (count_fields index n r - index) r)
unfolding count_fields
count_fields-Empty index n [] h =
    let done : n - index ≡ 0 = omega arith in (omega arith, rw done tt)
count_fields-Empty index n (f ∷ r) h =
    split (Bool-cases ((suc index == 1) || not (is_empty f)))
      (count_fields-Empty (suc index) (suc index) r (omega arith))
      (count_fields-Empty (suc index) n r (omega arith))
  where
    Counted : ℕ → ℕ → Type 0
    Counted k res = (k ≤ res) × All Empty (drop (res - suc index) r)

    split :
        (((suc index == 1) || not (is_empty f)) ≡ true)
          ⊎ (((suc index == 1) || not (is_empty f)) ≡ false)
        → Counted (suc index) (count_fields (suc index) (suc index) r)
        → Counted n (count_fields (suc index) n r)
        → (n ≤ count_fields index n (f ∷ r))
          × All Empty (drop (count_fields index n (f ∷ r) - index) (f ∷ r))
    split (inl counted) (le, e) old = rw counted (omega arith, drop_step _ index f r e (inl le))
    split (inr skipped) full (le, e) =
        rw skipped
          (le, drop_step _ index f r e (within index _ f (is_empty-Empty f (ground arith))))

counted-Empty : (len : ℕ) (r : ByteRecord) → count_fields 0 0 r ≤ len → All Empty (drop len r)
counted-Empty len r h =
    let split : count_fields 0 0 r - 0 + (len - (count_fields 0 0 r - 0)) ≡ len = omega arith in
    rw (← split, ← drop-drop (len - (count_fields 0 0 r - 0)) (count_fields 0 0 r - 0) r)
      (All-drop Empty (len - (count_fields 0 0 r - 0)) _
        ((count_fields-Empty 0 0 r (omega arith)).1))

-- The record has nothing but empty fields behind its first `len`; its first field is among these.
abbrev pub Holds : ℕ → ByteRecord → Type 0
Holds len r = (min 1 (length r) ≤ len) × All Empty (drop len r)

counted_first : (r : ByteRecord) → min 1 (length r) ≤ count_fields 0 0 r
unfolding count_fields
counted_first [] = omega arith
counted_first (f ∷ r) = let (le, e) = count_fields-Empty 1 1 r (omega arith) in omega (arith, le)

pub counted-Holds : (len : ℕ) (r : ByteRecord) → count_fields 0 0 r ≤ len → Holds len r
counted-Holds len r h = (omega (arith, counted_first r), counted-Empty len r h)

-- What is behind the first `m` fields, where a field in front is at `index`.
behind :
    (index m : ℕ) (f : Bytes) (r : ByteRecord)
    → All Empty (drop (m - index) (f ∷ r))
    → (Empty f ⊎ (suc index ≤ m)) × All Empty (drop (m - suc index) r)
behind index m f r h = elim (Bool-cases (leb (suc index) m)) [
  | inl more ↦
      let e : m - index ≡ suc (m - suc index) = ground arith in (inr (ground arith), rw e at h)
  | inr less ↦
      let same : m - index ≡ 0 = ground arith in
      let same' : m - suc index ≡ 0 = ground arith in
      let (e, es) : All Empty (f ∷ r) = rw same at h in (inl e, rw same' es)
]

-- A number of fields that leaves only empty ones behind is at least the number counted.
count_fields-least :
    (index n m : ℕ) (r : ByteRecord)
    → n ≤ m
    → (index ≡ 0 → min 1 (length r) ≤ m)
    → All Empty (drop (m - index) r)
    → count_fields index n r ≤ m
unfolding count_fields
count_fields-least index n m [] le first h = le
count_fields-least index n m (f ∷ r) le first h =
    let (there, rest) = behind index m f r h in
    elim (Bool-cases ((suc index == 1) || not (is_empty f))) [
      | inl counted ↦ rw counted (
          count_fields-least (suc index) (suc index) m r (reached counted there)
            (λ e. absurd (omega (arith, e))) rest)
      | inr skipped ↦
          rw skipped (count_fields-least (suc index) n m r le (λ e. absurd (omega (arith, e))) rest)
    ]
  where
    reached :
        ((suc index == 1) || not (is_empty f)) ≡ true → Empty f ⊎ (suc index ≤ m) → suc index ≤ m
    reached counted (inr le) = le
    reached counted (inl e) = elim (Bool-cases (suc index == 1)) [
      | inl one ↦
          let zero_index : index ≡ 0 = ground arith in omega (arith, zero_index, first zero_index)
      | inr other ↦
          let none_left : is_empty f ≡ true = rw e refl in
          absurd (ground (arith, none_left, other, counted))
    ]

counted_most : (m : ℕ) (r : ByteRecord) → Holds m r → count_fields 0 0 r ≤ m
counted_most m r (first, h) =
    let e : m - 0 ≡ m = omega arith in
    count_fields-least 0 0 m r (omega arith) (λ z. first) (rw e h)

pub every_counted :
    (m : ℕ) (rows : List ByteRecord) → All (Holds m) rows → All (λ r. count_fields 0 0 r ≤ m) rows
every_counted m [] h = tt
every_counted m (r ∷ rows) (h, hs) = (counted_most m r h, every_counted m rows hs)

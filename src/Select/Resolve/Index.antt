-- ===== src/Select/Resolve/Index.antt =====
-- What a single selector resolves to: a position of the header, the one that it describes.
use xsv.Prelude.{
  ℕ, zero, suc, ◌+◌, ◌-◌, ◌<◌, ◌≤◌, ◌≡◌, refl, ap, ◌↔◌, Bool, true, false, [], ◌∷◌, length,
  get_elem?, get_elem?-some-lt, take, some, ◌==◌, if◌then◌else◌, Bool-cases, inl, inr, arith,
}
use xsv.Prelude.Results.{ok, err}
use xsv.Prelude.Bytes.{bytes_eq, bytes_eq_iff, as_bytes}
use xsv.Error.{Bytes, Text, ByteRecord, no_such_name, occurrence_out_of_bounds}
use xsv.Select.{OneSelector, start, end, index, indexed_name}
use xsv.Select.Resolve.{Scan, found, counted, scan_name, name_result, index_of}

-- How many fields equal `name`.
abbrev pub occurrences : Bytes → ByteRecord → ℕ
occurrences name [] = 0
occurrences name (f ∷ fs) = (if bytes_eq f name then 1 else 0) + occurrences name fs

-- What the loop over the header promises, `n` matches before position `i` being known.
abbrev ScanSpec : Bytes → ℕ → ℕ → ℕ → ByteRecord → Scan → Type 0
ScanSpec name j i n fs (found k) =
    (m : ℕ) × (k ≡ i + m) × (get_elem? fs m ≡ some name) × (n + occurrences name (take m fs) ≡ j)
ScanSpec name j i n fs (counted c) = (c ≡ n + occurrences name fs) × (c ≤ j)

-- One field further: `n'` counts that field too.
ScanSpec-cons :
    (name : Bytes) (j i n n' : ℕ) (f : Bytes) (fs : ByteRecord) (r : Scan)
    → n' ≡ n + (if bytes_eq f name then 1 else 0)
    → ScanSpec name j (suc i) n' fs r
    → ScanSpec name j i n (f ∷ fs) r
ScanSpec-cons name j i n n' f fs (found k) e (m, p, q, t) = (suc m, omega arith, q, omega arith)
ScanSpec-cons name j i n n' f fs (counted c) e (p, q) = (omega arith, q)

scan_name-ScanSpec :
    (name : Bytes) (j i n : ℕ) (fs : ByteRecord)
    → n ≤ j
    → ScanSpec name j i n fs (scan_name name j i n fs)
unfolding scan_name
scan_name-ScanSpec name j i n [] h = ground arith
scan_name-ScanSpec name j i n (f ∷ fs) h = elim (Bool-cases (bytes_eq f name)) [
  | inl same ↦ elim (Bool-cases (n == j)) [
    | inl here ↦
        rw (same, here) (0, omega arith, ap some ((bytes_eq_iff f name).0 same), ground arith)
    | inr later ↦
        rw (same, later)
          (ScanSpec-cons name j i n (suc n) f fs (scan_name name j (suc i) (suc n) fs)
            (rw same (omega arith)) (scan_name-ScanSpec name j (suc i) (suc n) fs (ground arith)))
  ]
  | inr other ↦ rw other (
      ScanSpec-cons name j i n n f fs (scan_name name j (suc i) n fs) (rw other (omega arith))
        (scan_name-ScanSpec name j (suc i) n fs h))
]

-- The field that the loop should find, it finds.
scan_name-found :
    (name : Bytes) (j i n : ℕ) (fs : ByteRecord) (m : ℕ)
    → get_elem? fs m ≡ some name
    → n + occurrences name (take m fs) ≡ j
    → scan_name name j i n fs ≡ found (i + m)
unfolding scan_name
scan_name-found name j i n [] m g e = cc
scan_name-found name j i n (f ∷ fs) zero g e = ground (arith, bytes_eq_iff f name)
scan_name-found name j i n (f ∷ fs) (suc m) g e = elim (Bool-cases (bytes_eq f name)) [
  | inl same ↦
      rw same (ground (arith, scan_name-found name j (suc i) (suc n) fs m g (ground arith)))
  | inr other ↦ rw other (ground (arith, scan_name-found name j (suc i) n fs m g (ground arith)))
]

-- A name selector with occurrence number `j` resolves to position `k` exactly when the header's
-- field `k` is that name and `j` earlier fields are that name too.
pub index_of-indexed_name :
    (s : Text) (j : ℕ) (first : ByteRecord) (k : ℕ)
    → (index_of (indexed_name s j) first true ≡ ok k)
      ↔ ((get_elem? first k ≡ some (as_bytes s)) × (occurrences (as_bytes s) (take k first) ≡ j))
unfolding index_of
index_of-indexed_name s j first k = (
  λ e.
      resolve (scan_name (as_bytes s) j 0 0 first)
        (scan_name-ScanSpec (as_bytes s) j 0 0 first (omega arith)) e,
  λ h.
      rw (scan_name-found (as_bytes s) j 0 0 first k h.0 (omega (arith, h.1)))
        (ap ok (omega arith)),
)
  where
    resolve :
        (r : Scan)
        → ScanSpec (as_bytes s) j 0 0 first r
        → name_result s j r ≡ ok k
        → (get_elem? first k ≡ some (as_bytes s)) × (occurrences (as_bytes s) (take k first) ≡ j)
    resolve (found i) (m, p, q, t) e =
        let same : m ≡ k = ground arith in rw (← same) (q, omega arith)
    resolve (counted c) spec e = absurd (ground arith)

occurrences-take-lt :
    (name : Bytes) (fs : ByteRecord) (m : ℕ)
    → get_elem? fs m ≡ some name
    → occurrences name (take m fs) < occurrences name fs
occurrences-take-lt name [] m g = absurd (ground arith)
occurrences-take-lt name (f ∷ fs) zero g = ground (arith, bytes_eq_iff f name)
occurrences-take-lt name (f ∷ fs) (suc m) g = omega (arith, occurrences-take-lt name fs m g)

-- A name selector whose occurrence number is not below the number of matching fields is an error:
-- the name does not exist if there is none, and the occurrence is out of bounds otherwise.
pub index_of-missing :
    (s : Text) (j : ℕ) (first : ByteRecord)
    → occurrences (as_bytes s) first ≤ j
    → index_of (indexed_name s j) first true ≡ (
        if occurrences (as_bytes s) first == 0
        then err (no_such_name s)
        else err (occurrence_out_of_bounds j s (occurrences (as_bytes s) first - 1)))
unfolding index_of
index_of-missing s j first h =
    resolve (scan_name (as_bytes s) j 0 0 first)
      (scan_name-ScanSpec (as_bytes s) j 0 0 first (omega arith))
  where
    resolve :
        (r : Scan)
        → ScanSpec (as_bytes s) j 0 0 first r
        → name_result s j r ≡ (
            if occurrences (as_bytes s) first == 0
            then err (no_such_name s)
            else err (occurrence_out_of_bounds j s (occurrences (as_bytes s) first - 1)))
    resolve (found i) (m, p, q, t) =
        absurd (omega (arith, occurrences-take-lt (as_bytes s) first m q))
    resolve (counted c) (e, q) =
        let same : c ≡ occurrences (as_bytes s) first = omega arith in rw same refl

-- On a header with at least one field, every selector that resolves, resolves to one of its fields.
pub index_of-lt-length :
    (f : OneSelector) (first : ByteRecord) (use_names : Bool) {i : ℕ}
    → 0 < length first
    → index_of f first use_names ≡ ok i
    → i < length first
unfolding index_of
index_of-lt-length start first names h e = ground arith
index_of-lt-length end first names h e = ground arith
index_of-lt-length (index n) first names h e = ground arith
index_of-lt-length (indexed_name s j) first true {i} h e =
    get_elem?-some-lt first i ((index_of-indexed_name s j first i).0 e).0
index_of-lt-length (indexed_name s j) first false h e = cc

-- ===== src/Tests/Frequency.antt =====
-- Runs and witnesses for src/cmd/frequency.rs, with tables that list the values added.
use Prim.Native.Nat.{compare, Ordering}
use mathlib.Core.List.Perm
use xsv.Prelude.{
  min, ltb, leb, Bool, true, All-weaken, Bool-cases, inl, inr, ℕ, zero, suc, ◌+◌, ◌≡◌, refl, sym,
  ap, ◌∙◌, false, List, [], ◌∷◌, ◌++◌, none, some, length, map, All, if◌then◌else◌, arith,
}
use xsv.Prelude.Bytes.{bytes_eq, bytes_eq_iff}
use xsv.Prelude.Dict.{nat_eq, list_eq, mem, list_beq_iff}
use xsv.Prelude.Literal.{codes}
use xsv.Prelude.Results.{ok}
use xsv.Prelude.Sort.{
  sort_by, sort_by-All, sort_by-perm, sort_by-IsSorted, IsSorted, IsPreorder, Before,
}
use xsv.Prelude.Sums.{sum_of, sum_of-Perm}
use xsv.Error.{Bytes, ByteRecord}
use xsv.Csv.Laws.{all_ok}
use xsv.Config.{config_selection}
use xsv.Select.{one, index}
use xsv.Select.Resolve.{selection, index_of, ascending}
use xsv.Select.Row.{select, normal, normal_len}
use xsv.Cmd.Frequency.{
  Frequencies, Args, sequential_ftables, parallel_ftables, ftables, heading, run,
}
use xsv.Cmd.Frequency.Counting.{count_at, IsOrdered, IsListing, IsListed, IsCounting}
use xsv.Cmd.Frequency.Tables.{tally, ftables-tally}
use xsv.Cmd.Frequency.Agree.{parallel_ftables-sequential_ftables}
use xsv.Cmd.Frequency.Report.{lines_of, listing_at, run-lines_of}
use xsv.Tests.Data.{
  standard, header, rows, reader, indexed, indexed-Describes, all_rows, sink, sink-Accepts,
}
use xsv.Tests.Join.{ascii}

abbrev Table : Type 0
Table = List Bytes

abbrev occurrences : Table → Bytes → ℕ
occurrences [] v = 0
occurrences (a ∷ t) v = occurrences t v + (if bytes_eq a v then 1 else 0)

occurrences-append :
    (s t : Table) (v : Bytes) → occurrences (s ++ t) v ≡ occurrences s v + occurrences t v
occurrences-append [] t v = omega arith
occurrences-append (a ∷ s) t v = omega (arith, occurrences-append s t v)

abbrev distinct : Table → Table
distinct [] = []
distinct (a ∷ t) = if mem a t then distinct t else a ∷ distinct t

abbrev listed : Table → Table → List (Bytes × ℕ)
listed all = map (λ v. (v, occurrences all v))

mem_occurs : (a : Bytes) (t : Table) → mem a t ≡ ltb 0 (occurrences t a)
mem_occurs a [] = refl
mem_occurs a (x ∷ t) = ground (arith, mem_occurs a t, list_beq_iff a x, bytes_eq_iff x a)

alike : (a b : Bytes) (t : Table) → bytes_eq a b ≡ true → occurrences t a ≡ occurrences t b
alike a b t h = ap (occurrences t) ((bytes_eq_iff a b).0 h)

-- How often a value is listed.
abbrev entries : Bytes → List (Bytes × ℕ) → ℕ
entries v = sum_of (λ x. if bytes_eq x.0 v then 1 else 0)

entries_once :
    (all t : Table) (v : Bytes) → entries v (listed all (distinct t)) ≡ min 1 (occurrences t v)
entries_once all [] v = refl
entries_once all (a ∷ t) v = elim (Bool-cases (mem a t)) [
  | inl again ↦
      rw again (ground (arith, entries_once all t v, rw again at (mem_occurs a t), alike a v t))
  | inr first ↦
      rw first (ground (arith, entries_once all t v, rw first at (mem_occurs a t), alike a v t))
]

listed_counts : (all t : Table) → All (λ x. x.1 ≡ occurrences all x.0) (listed all t)
listed_counts all [] = tt
listed_counts all (a ∷ t) = (refl, listed_counts all t)

abbrev together : List Table → List Table → List Table
together [] ys = []
together (x ∷ xs) [] = x ∷ xs
together (x ∷ xs) (y ∷ ys) = (x ++ y) ∷ together xs ys

together-length : (xs ys : List Table) → length (together xs ys) ≡ length xs
together-length [] ys = refl
together-length (x ∷ xs) [] = refl
together-length (x ∷ xs) (y ∷ ys) = ap suc (together-length xs ys)

count_at-together :
    (xs ys : List Table) (i : ℕ) (v : Bytes)
    → length ys ≡ length xs
    → count_at occurrences (together xs ys) i v
      ≡ count_at occurrences xs i v + count_at occurrences ys i v
count_at-together [] [] i v h = refl
count_at-together [] (y ∷ ys) i v h = absurd (omega (arith, h))
count_at-together (x ∷ xs) [] i v h = absurd (omega (arith, h))
count_at-together (x ∷ xs) (y ∷ ys) zero v h = occurrences-append x y v
count_at-together (x ∷ xs) (y ∷ ys) (suc i) v h = count_at-together xs ys i v (omega arith)

abbrev all_together : List Table → List (List Table) → List Table
all_together t [] = t
all_together t (s ∷ ts) = all_together (together t s) ts

all_together-sum_of :
    (t : List Table) (ts : List (List Table))
    → All (λ s. length s ≡ length t) ts
    → (length (all_together t ts) ≡ length t)
      × ((i : ℕ) (v : Bytes)
          → count_at occurrences (all_together t ts) i v
            ≡ sum_of (λ s. count_at occurrences s i v) (t ∷ ts))
all_together-sum_of t [] h = (refl, λ i v. omega arith)
all_together-sum_of t (s ∷ ts) (h, hs) =
    let same = together-length t s in
    let (len, sums) = all_together-sum_of (together t s) ts (rw (sym same) at hs) in
    (len ∙ same, λ i v. omega (arith, sums i v, count_at-together t s i v h))

abbrev falling : Bytes × ℕ → Bytes × ℕ → Ordering
falling x y = compare y.1 x.1

abbrev rising : Bytes × ℕ → Bytes × ℕ → Ordering
rising x y = compare x.1 y.1

falling-IsPreorder : IsPreorder falling
falling-IsPreorder = record {
  total = λ x y h. ground (arith, h);
  trans = λ x y z h k. ground (arith, h, k);
}

rising-IsPreorder : IsPreorder rising
rising-IsPreorder = record {
  total = λ x y h. ground (arith, h);
  trans = λ x y z h k. ground (arith, h, k);
}

module _ (asc : Bool) (cmp : Bytes × ℕ → Bytes × ℕ → Ordering) (p : IsPreorder cmp)
    (q : (x y : Bytes × ℕ)
      → Before cmp x y
      → (if asc then leb x.1 y.1 else leb y.1 x.1) ≡ true) where
  ordered : (xs : List (Bytes × ℕ)) → IsSorted cmp xs → IsOrdered asc xs
  ordered [] h = tt
  ordered (x ∷ xs) (h, hs) = (All-weaken _ _ xs (λ y k. q x y k) h, ordered xs hs)

  sorted-IsListing :
      (t : Table) → IsListing asc (occurrences t) (sort_by cmp (listed t (distinct t)))
  sorted-IsListing t =
      let xs = listed t (distinct t) in
      (
        sort_by-All cmp (λ x. x.1 ≡ occurrences t x.0) xs (listed_counts t (distinct t)),
        (λ v.
            sum_of-Perm (λ x. if bytes_eq x.0 v then 1 else 0) (sort_by cmp xs) xs
              (sort_by-perm cmp xs)
            ∙ entries_once t t v),
        ordered (sort_by cmp xs) (sort_by-IsSorted cmp p xs),
      )

abbrev by_listing : Frequencies Table
by_listing = record {
  new = [];
  add = λ a t. a ∷ t;
  merge_all = λ ts. elim ts [ [] ↦ none | t ∷ rest ↦ some (all_together t rest) ];
  most_frequent = λ t. sort_by falling (listed t (distinct t));
  least_frequent = λ t. sort_by rising (listed t (distinct t));
}

abbrev by_listing-IsCounting : IsCounting occurrences by_listing
by_listing-IsCounting = record {
  counts_none = λ v. refl;
  counts_added = λ a v t. refl;
  merges = λ t ts h.
      let (len, sums) = all_together-sum_of t ts h in (all_together t ts, refl, len, sums);
}

by_listing-IsListed : IsListed occurrences by_listing
by_listing-IsListed = record {
  most_listed =
      λ t. sorted-IsListing false falling falling-IsPreorder (λ x y h. ground (arith, h)) t;
  least_listed = λ t. sorted-IsListing true rising rising-IsPreorder (λ x y h. ground (arith, h)) t;
}

abbrev no_output : List ByteRecord
no_output = []

abbrev by_name : Args
by_name = record {
  rconfig = record standard {
    select_columns = some (record { selectors = one (index 1) ∷ []; invert = false });
  };
  flag_limit = 10;
  flag_asc = false;
  flag_no_nulls = false;
  flag_jobs = 2;
}

first_column : config_selection by_name.rconfig header ≡ ok (0 ∷ [])
unfolding config_selection selection index_of
first_column = refl

its_name : select (0 ∷ []) header ≡ some (codes "name" ∷ [])
unfolding select
its_name = refl

ftables-tally_example :
    (tabs : List Table) × (ftables by_listing ascii false (0 ∷ []) (all_ok rows) no_output
      ≡ (ok tabs, no_output))
    × (length tabs ≡ 1)
    × ((i : ℕ) (v : Bytes)
        → count_at occurrences tabs i v ≡ tally ascii false (normal (0 ∷ [])) i v rows)
unfolding normal normal_len sort_by
ftables-tally_example =
    ftables-tally ascii by_listing occurrences by_listing-IsCounting false (0 ∷ []) rows no_output

parallel_ftables-sequential_ftables_example :
    (tabs tabs' : List Table) × (sequential_ftables by_listing ascii by_name reader no_output
      ≡ (ok (codes "name" ∷ [], tabs), no_output))
    × (parallel_ftables by_listing ascii by_name reader indexed 2 (ascending 0) no_output
        ≡ (ok (codes "name" ∷ [], tabs'), no_output))
    × ((i : ℕ) (v : Bytes) → count_at occurrences tabs' i v ≡ count_at occurrences tabs i v)
parallel_ftables-sequential_ftables_example =
    parallel_ftables-sequential_ftables ascii by_listing occurrences by_listing-IsCounting indexed
      all_rows indexed-Describes rows refl by_name reader header (codes "name" ∷ []) (0 ∷ []) 2
      (ascending 0) no_output refl refl first_column its_name (omega arith)
      (λ n. Perm.refl (ascending 0 n))

run-lines_of_example :
    (listings : List (List (Bytes × ℕ))) × (run by_listing ascii by_name 4
        (ascending 0)
        reader
        (some indexed)
        sink
        []
      ≡ (ok tt, heading ∷ lines_of by_name 0 (codes "name" ∷ []) listings))
    × ((i : ℕ)
        → IsListing false
            (λ v. tally ascii false (normal (0 ∷ [])) i v rows)
            (listing_at listings i))
run-lines_of_example =
    run-lines_of ascii by_listing occurrences by_listing-IsCounting by_name reader rows header
      (codes "name" ∷ []) (0 ∷ []) refl refl first_column its_name 4 (ascending 0)
      (λ n. Perm.refl (ascending 0 n)) by_listing-IsListed (some indexed) sink sink-Accepts []
      (all_rows, indexed-Describes, refl)

-- ===== src/Cmd/Frequency/Report.antt =====
-- The records that are written.
use mathlib.Core.List.{Perm, append_assoc}
use xsv.Prelude.{
  take, ◌==◌, ℕ, zero, suc, ◌+◌, ◌≡◌, refl, sym, ap, ◌∙◌, Bool, true, false, List, [], ◌∷◌, ◌++◌,
  append-nil, Option, none, some, map, ltb, if◌then◌else◌, Bool-cases, inl, inr, arith,
}
use mathlib.Core.Path.{subst}
use xsv.Prelude.Results.{ok}
use xsv.Error.{Bytes, ByteRecord}
use xsv.Csv.{Rows, Reader, Sink, write_record}
use xsv.Csv.Laws.{Accepts, all_ok, write_record-Accepts, bind-ok}
use xsv.Config.{config_selection}
use xsv.Index.{Indexed, Describes}
use xsv.Select.Resolve.{ascending}
use xsv.Select.Row.{select, normal}
use xsv.Select.Syntax.{decimal}
use xsv.Unicode.{Unicode}
use xsv.Cmd.Frequency.{
  Frequencies, Args, null_name, counts, write_counts, write_tables, heading, njobs, choose_ftables,
  run,
}
use xsv.Cmd.Frequency.Agree.{parallel_ftables-tally}
use xsv.Cmd.Frequency.Counting.{count_at, IsListing, IsListed, IsCounting, sel_headers-select}
use xsv.Cmd.Frequency.Tables.{tally, sequential_ftables-tally}

abbrev pub name_of : Args → ℕ → Bytes → Bytes
name_of a i h = if a.rconfig.no_headers then decimal (i + 1) else h

abbrev pub line : Bytes → Bytes × ℕ → ByteRecord
line h x = h ∷ x.0 ∷ decimal x.1 ∷ []

-- What is shown of a listing: all of it where the limit is 0.
abbrev pub shown : ℕ → List (Bytes × ℕ) → List (Bytes × ℕ)
shown limit xs = map null_name (if limit == 0 then xs else take limit xs)

-- The records of a listing for each header, whose first one has number `n`.
abbrev pub lines_of : Args → ℕ → List Bytes → List (List (Bytes × ℕ)) → List ByteRecord
lines_of a n [] listings = []
lines_of a n (h ∷ names) [] = []
lines_of a n (h ∷ names) (xs ∷ listings) =
    map (line (name_of a n h)) (shown a.flag_limit xs) ++ lines_of a (suc n) names listings

-- The listing at a position, which is empty past the end.
abbrev pub listing_at : List (List (Bytes × ℕ)) → ℕ → List (Bytes × ℕ)
listing_at [] i = []
listing_at (xs ∷ listings) zero = xs
listing_at (xs ∷ listings) (suc i) = listing_at listings i

module _ {F : Type 0} (fs : Frequencies F) (count_of : F → Bytes → ℕ)
    (listed : IsListed count_of fs) where
  abbrev listing : Args → F → List (Bytes × ℕ)
  listing a t = if a.flag_asc then fs.least_frequent t else fs.most_frequent t

  listing-IsListing : (a : Args) (t : F) → IsListing a.flag_asc (count_of t) (listing a t)
  listing-IsListing a t = by_order a.flag_asc
    where
      by_order :
          (asc : Bool)
          → IsListing asc (count_of t) (if asc then fs.least_frequent t else fs.most_frequent t)
      by_order true = listed.least_listed t
      by_order false = listed.most_listed t

  listing_at-IsListing :
      (a : Args) (tabs : List F) (i : ℕ)
      → IsListing a.flag_asc (count_at count_of tabs i) (listing_at (map (listing a) tabs) i)
  listing_at-IsListing a [] i = (tt, (λ v. refl), tt)
  listing_at-IsListing a (t ∷ tabs) zero = listing-IsListing a t
  listing_at-IsListing a (t ∷ tabs) (suc i) = listing_at-IsListing a tabs i

  counts-shown : (a : Args) (t : F) → counts fs a t ≡ shown a.flag_limit (listing a t)
  unfolding counts
  counts-shown a t = elim (Bool-cases (a.flag_limit == 0)) [
    | inl unlimited ↦ let e : ltb 0 a.flag_limit ≡ false = ground arith in rw (e, unlimited)
    | inr limited ↦ let e : ltb 0 a.flag_limit ≡ true = ground arith in rw (e, limited)
  ]

  module _ (w : Sink) (acc : Accepts w) (a : Args) where
    write_counts-line :
        (h : Bytes) (cs : List (Bytes × ℕ)) (out : List ByteRecord)
        → write_counts fs w h cs out ≡ (ok tt, out ++ map (line h) cs)
    unfolding write_counts
    write_counts-line h [] out = ap (λ rs. (ok tt, rs)) (sym (append-nil out))
    write_counts-line h ((v, n) ∷ cs) out =
        bind-ok (write_record w (line h (v, n))) _ (write_record-Accepts w acc (line h (v, n)) out)
        ∙ write_counts-line h cs (out ++ line h (v, n) ∷ [])
        ∙ ap (λ rs. (ok tt, rs)) (append_assoc out (line h (v, n) ∷ []) (map (line h) cs))

    write_tables-lines_of :
        (n : ℕ) (names : List Bytes) (tabs : List F) (out : List ByteRecord)
        → write_tables fs a w n names tabs out
          ≡ (ok tt, out ++ lines_of a n names (map (listing a) tabs))
    unfolding write_tables
    write_tables-lines_of n [] tabs out = ap (λ rs. (ok tt, rs)) (sym (append-nil out))
    write_tables-lines_of n (h ∷ names) [] out = ap (λ rs. (ok tt, rs)) (sym (append-nil out))
    write_tables-lines_of n (h ∷ names) (t ∷ tabs) out =
        let here = map (line (name_of a n h)) (counts fs a t) in
        let rest = lines_of a (suc n) names (map (listing a) tabs) in
        bind-ok (write_counts fs w (name_of a n h) (counts fs a t)) _
          (write_counts-line (name_of a n h) (counts fs a t) out)
        ∙ write_tables-lines_of (suc n) names tabs (out ++ here)
        ∙ ap (λ rs. (ok tt, rs)) (append_assoc out here rest)
        ∙ ap (λ cs. (ok tt, out ++ (map (line (name_of a n h)) cs ++ rest))) (counts-shown a t)

-- An index, if there is one, describes the data.
abbrev pub IsIndexOf : List ByteRecord → Option Indexed → Type 0
IsIndexOf rows none = Unit
IsIndexOf rows (some idx) = (all : Rows) × Describes idx all × (idx.rdr.records ≡ all_ok rows)

module _ (u : Unicode) {F : Type 0} (fs : Frequencies F) (count_of : F → Bytes → ℕ)
    (laws : IsCounting count_of fs) (a : Args) (rdr : Reader) (rows : List ByteRecord)
    (headers names : ByteRecord) (sel : List ℕ) (h : rdr.headers ≡ ok headers)
    (r : rdr.records ≡ all_ok rows) (k : config_selection a.rconfig headers ≡ ok sel)
    (j : select sel headers ≡ some names) (num_cpus : ℕ) (order : ℕ → List ℕ)
    (p : (n : ℕ) → Perm (order n) (ascending 0 n)) where
  choose_ftables-tally :
      (idx : Option Indexed) (out : List ByteRecord)
      → IsIndexOf rows idx
      → (tabs : List F) × (choose_ftables fs u a num_cpus order rdr idx out
          ≡ (ok (names, tabs), out))
        × ((i : ℕ) (v : Bytes)
            → count_at count_of tabs i v ≡ tally u a.flag_no_nulls (normal sel) i v rows)
  unfolding choose_ftables
  choose_ftables-tally none out d =
      sequential_ftables-tally u fs count_of laws a rdr rows names sel out r
        (sel_headers-select a rdr headers names sel out h k j)
  choose_ftables-tally (some idx) out (all, d, e) = elim (Bool-cases (ltb 1 (njobs a num_cpus))) [
    | inl many ↦ rw many (
        parallel_ftables-tally u fs count_of laws idx all d rows e a rdr names sel
          (njobs a num_cpus) order out (sel_headers-select a rdr headers names sel out h k j)
          (ground arith) p)
    | inr one ↦ rw one (
        sequential_ftables-tally u fs count_of laws a rdr rows names sel out r
          (sel_headers-select a rdr headers names sel out h k j))
  ]

  -- On data that reads without errors, with a selection that resolves, with or without an index (one
  -- that describes the data), with any number of jobs and in whichever order the workers send, and
  -- into a writer that takes every record: the command writes the heading, and then for each position
  -- of the selection the records of a listing, in the order of the selection. The listing at a position
  -- has every value that is counted at the same position of the normal selection, which has the
  -- columns in the order of the data, once and with the number of records that have it: the most
  -- frequent first, or the least frequent with `flag_asc`. Its records are the first `flag_limit` of it,
  -- or all where that is 0; each holds the name of the column (its position from 1 without headers),
  -- the value, as `(NULL)` if it is empty, and the number.
  pub run-lines_of :
      (listed : IsListed count_of fs) (idx : Option Indexed) (w : Sink) (acc : Accepts w)
      (out : List ByteRecord)
      → IsIndexOf rows idx
      → (listings : List (List (Bytes × ℕ))) × (run fs u a num_cpus order rdr idx w out
          ≡ (ok tt, (out ++ heading ∷ []) ++ lines_of a 0 names listings))
        × ((i : ℕ)
            → IsListing a.flag_asc
                (λ v. tally u a.flag_no_nulls (normal sel) i v rows)
                (listing_at listings i))
  unfolding run
  run-lines_of listed idx w acc out d =
      let (tabs, chosen, c) = choose_ftables-tally idx out d in
      (
        map (listing fs count_of listed a) tabs,
        bind-ok (choose_ftables fs u a num_cpus order rdr idx) _ chosen
            ∙ bind-ok (write_record w heading) _ (write_record-Accepts w acc heading out)
            ∙ write_tables-lines_of fs count_of listed w acc a 0 names tabs (out ++ heading ∷ []),
        λ i.
            subst
              (λ times.
                IsListing a.flag_asc times (listing_at (map (listing fs count_of listed a) tabs) i))
              (λ k v. c i v k) (listing_at-IsListing fs count_of listed a tabs i),
      )

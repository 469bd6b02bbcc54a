-- ===== src/Cmd/Sort/Laws.antt =====
-- What sorting by the fields as bytes promises.
use Prim.Native.Nat.{Ordering, compare}
use mathlib.Core.List.{Perm}
use mathlib.Core.List.Perm
use xsv.Prelude.{
  ℕ, ◌≡◌, refl, sym, ap, ◌∙◌, Bool, true, false, List, [], ◌∷◌, ◌++◌, none, some, map, filter, All,
}
use xsv.Prelude.Results.{ok}
use xsv.Prelude.Sort.{
  sort_by, insert_by, sort_by-All, sort_by-perm, sort_by-stable, sort_by-IsSorted, IsSorted,
  IsPreorder, is_gt, is_eq,
}
use xsv.Error.{ByteRecord, Bytes}
use xsv.Csv.{Reader, Sink, write_rows, try_csv, try_text, unwrap}
use xsv.Csv.Laws.{Accepts, all_ok, write_rows-Accepts, flush-Accepts, bind-ok}
use xsv.Config.{config_selection, write_headers}
use xsv.Select.Row.{select}
use xsv.Cmd.Sort.{Args, run, sorted, sort_all, keyed, collect, comparison, by_key}
use xsv.Cmd.Sort.Compare.{Numerals, iter_cmp}
use xsv.Cmd.Sort.Compare.Laws.{
  IsLinear, compare-IsLinear, iter_cmp-IsLinear, key-IsPreorder, reverse-IsPreorder,
}

-- `r.0` are the fields that the selection takes from the record `r.1`.
abbrev pub Fits : List ℕ → List Bytes × ByteRecord → Type 0
Fits sel r = select sel r.1 ≡ some r.0

keyed_complete :
    (sel : List ℕ) (ks : List (List Bytes × ByteRecord))
    → All (Fits sel) ks
    → keyed sel (map (λ r. r.1) ks) ≡ some ks
unfolding keyed
keyed_complete sel [] h = refl
keyed_complete sel (r ∷ ks) (h, hs) = rw (keyed, h, keyed_complete sel ks hs)

sort_all-sorted :
    (n : Numerals) (a : Args) (sel : List ℕ) (keys : List (List Bytes × ByteRecord))
    → All (Fits sel) keys
    → sort_all n a sel (map (λ r. r.1) keys) ≡ some (sorted n a keys)
unfolding sort_all sorted sort_by
sort_all-sorted n a sel [] h = refl
sort_all-sorted n a sel (r ∷ []) h = unfold insert_by in refl
sort_all-sorted n a sel (r ∷ s ∷ keys) h =
    ap (λ o. elim o [ none ↦ none | some ks ↦ some (sorted n a ks) ])
      (keyed_complete sel (r ∷ s ∷ keys) h)

collect-all_ok : (rows : List ByteRecord) → collect (all_ok rows) ≡ ok rows
unfolding collect
collect-all_ok [] = refl
collect-all_ok (r ∷ rows) = rw (collect-all_ok rows)

pub bytes-IsLinear : IsLinear (iter_cmp (iter_cmp compare))
bytes-IsLinear = iter_cmp-IsLinear _ (iter_cmp-IsLinear _ compare-IsLinear)

-- Sequences of fields as bytes, in either direction.
abbrev pub lexical : Bool → List Bytes → List Bytes → Ordering
lexical false a b = iter_cmp (iter_cmp compare) a b
lexical true a b = iter_cmp (iter_cmp compare) b a

comparison-lexical : (n : Numerals) (reverse : Bool) → comparison n false reverse ≡ lexical reverse
unfolding comparison
comparison-lexical n false = refl
comparison-lexical n true = refl

lexical-IsPreorder : (reverse : Bool) → IsPreorder (by_key {A = ByteRecord} (lexical reverse))
lexical-IsPreorder false = key-IsPreorder _ bytes-IsLinear (λ r. r.0)
lexical-IsPreorder true = reverse-IsPreorder _ bytes-IsLinear (λ r. r.0)

-- The record has the selected fields `k`.
abbrev pub has_key : List Bytes → List Bytes × ByteRecord → Bool
has_key k r = is_eq (iter_cmp (iter_cmp compare) r.0 k)

eq_of : (o : Ordering) → is_eq o ≡ true → o ≡ Ordering.eq
eq_of Ordering.eq h = refl
eq_of Ordering.lt h = cc
eq_of Ordering.gt h = cc

alike : (reverse : Bool) (x y : List Bytes) → x ≡ y → is_gt (lexical reverse x y) ≡ false
alike false x y e = rw (e, bytes-IsLinear.cmp_refl y)
alike true x y e = rw (e, bytes-IsLinear.cmp_refl y)

lexical-alike :
    (reverse : Bool) (k : List Bytes) (x y : List Bytes × ByteRecord)
    → has_key k x ≡ true
    → has_key k y ≡ true
    → is_gt (by_key (lexical reverse) x y) ≡ false
lexical-alike reverse k x y h l =
    let same : x.0 ≡ y.0 =
      bytes-IsLinear.cmp_eq x.0 k (eq_of (iter_cmp (iter_cmp compare) x.0 k) h)
      ∙ sym (bytes-IsLinear.cmp_eq y.0 k (eq_of (iter_cmp (iter_cmp compare) y.0 k) l)) in
    alike reverse x.0 y.0 same

-- `out` is a sort of the records `keys`, given with their selected fields: the same records, in an
-- order in which none compares greater than a later one by its selected fields, and in which records
-- with the same selected fields keep their order.
abbrev pub IsSortOf :
    (List Bytes → List Bytes → Ordering)
    → List ℕ
    → List (List Bytes × ByteRecord)
    → List ByteRecord
    → Type 0
IsSortOf cmp sel keys out =
    Perm out (map (λ r. r.1) keys)
    × (ks : List (List Bytes × ByteRecord)) × (keyed sel out ≡ some ks)
    × IsSorted (by_key cmp) ks
    × ((k : List Bytes) → filter (has_key k) ks ≡ filter (has_key k) keys)

Perm-records :
    (xs ys : List (List Bytes × ByteRecord))
    → Perm xs ys
    → Perm (map (λ r. r.1) xs) (map (λ r. r.1) ys)
Perm-records xs ys p = Perm.map (λ r. r.1) p

sorted-IsSortOf :
    (n : Numerals) (a : Args) (sel : List ℕ) (keys : List (List Bytes × ByteRecord))
    → a.flag_numeric ≡ false
    → All (Fits sel) keys
    → IsSortOf (lexical a.flag_reverse) sel keys (sorted n a keys)
unfolding sorted
sorted-IsSortOf n a sel keys plain fits =
    rw (plain, comparison-lexical n a.flag_reverse)
      (let cmp = by_key {A = ByteRecord} (lexical a.flag_reverse) in
        (
          Perm-records (sort_by cmp keys) keys (sort_by-perm cmp keys),
          sort_by cmp keys,
          keyed_complete sel (sort_by cmp keys) (sort_by-All cmp (Fits sel) keys fits),
          sort_by-IsSorted cmp (lexical-IsPreorder a.flag_reverse) keys,
          λ k. sort_by-stable cmp (has_key k) (lexical-alike a.flag_reverse k) keys,
        ))

-- Sorting by the fields as bytes, in either direction, on data that reads without errors and whose
-- records all have the selected fields, and into a writer that takes every record: the command
-- writes the headers and then all the records, sorted by the selected fields with a stable sort.
pub run-IsSortOf :
    (n : Numerals) (a : Args) (rdr : Reader) (w : Sink) (headers : ByteRecord)
    (out heads : List ByteRecord) (sel : List ℕ) (keys : List (List Bytes × ByteRecord))
    → Accepts w
    → a.flag_numeric ≡ false
    → rdr.headers ≡ ok headers
    → config_selection a.rconfig headers ≡ ok sel
    → rdr.records ≡ all_ok (map (λ r. r.1) keys)
    → All (Fits sel) keys
    → write_headers a.rconfig.no_headers rdr w out ≡ (ok tt, out ++ heads)
    → (rows : List ByteRecord) × (run n a rdr w out ≡ (ok tt, (out ++ heads) ++ rows))
      × IsSortOf (lexical a.flag_reverse) sel keys rows
unfolding run
run-IsSortOf n a rdr w headers out heads sel keys acc plain h c e fits hw = (
  sorted n a keys,
  bind-ok (try_csv rdr.headers) _ (ap (λ r. try_csv r out) h)
      ∙ bind-ok (try_text (config_selection a.rconfig headers)) _ (ap (λ r. try_text r out) c)
      ∙ bind-ok (try_csv (collect rdr.records)) _ (
          ap (λ r. try_csv (collect r) out) e
          ∙ ap (λ r. try_csv r out) (collect-all_ok (map (λ r. r.1) keys)))
      ∙ bind-ok (unwrap (sort_all n a sel (map (λ r. r.1) keys))) _
          (ap (λ r. unwrap r out) (sort_all-sorted n a sel keys fits))
      ∙ bind-ok (write_headers a.rconfig.no_headers rdr w) _ hw
      ∙ bind-ok (write_rows w (all_ok (sorted n a keys))) _
          (write_rows-Accepts w acc (sorted n a keys) (out ++ heads))
      ∙ flush-Accepts w acc ((out ++ heads) ++ sorted n a keys),
  sorted-IsSortOf n a sel keys plain fits,
)

-- ===== src/Cmd/Sort.antt =====
-- src/cmd/sort.rs: the records in the order of the selected fields.
pub mod Compare
pub mod Laws
pub mod Numeric
use Prim.Native.Nat.{Ordering, compare}
use xsv.Prelude.{ℕ, Bool, true, false, not, List, [], ◌∷◌, Option, none, some, map}
use xsv.Prelude.Results.{Result, ok, err}
use xsv.Prelude.Sort.{sort_by}
use xsv.Error.{ByteRecord, Bytes, CsvError}
use xsv.Csv.{
  Rows, Reader, Sink, Output, ◌>>=◌, ◌>>◌, pure, try_csv, try_text, unwrap, write_rows, flush,
}
use xsv.Config.{Config, config_selection, write_headers}
use xsv.Select.Row.{select}
use xsv.Cmd.Sort.Compare.{Numerals, iter_cmp, iter_cmp_num}

pub record Args : Type 0 where
  pub rconfig : Config
  pub flag_numeric : Bool
  pub flag_reverse : Bool

-- `collect` of the records: the first error, or all of them.
unfoldable pub collect : Rows → Result CsvError (List ByteRecord)
collect [] = ok []
collect (err e ∷ rows) = err e
collect (ok r ∷ rows) = elim (collect rows) [ ok rs ↦ ok (r ∷ rs) | err e ↦ err e ]

-- The selected fields of the records that are compared; selecting a field that a record does not have
-- panics. The source takes them one by one, but the records of a reader that is not flexible are all
-- as long as the headers, in which the selection is, so none is missing.
unfoldable pub keyed : List ℕ → List ByteRecord → Option (List (List Bytes × ByteRecord))
keyed sel [] = some []
keyed sel (r ∷ rs) = elim (select sel r) [
  | none ↦ none
  | some k ↦ elim (keyed sel rs) [ none ↦ none | some ks ↦ some ((k, r) ∷ ks) ]
]

-- The comparison that `run` chooses, on the selected fields of two records.
unfoldable pub comparison : Numerals → Bool → Bool → List Bytes → List Bytes → Ordering
comparison n false false a b = iter_cmp (iter_cmp compare) a b
comparison n true false a b = iter_cmp_num n a b
comparison n false true a b = iter_cmp (iter_cmp compare) b a
comparison n true true a b = iter_cmp_num n b a

module _ {ℓ} {A : Type ℓ} where
  abbrev pub by_key :
      (List Bytes → List Bytes → Ordering) → List Bytes × A → List Bytes × A → Ordering
  by_key cmp r1 r2 = cmp r1.0 r2.0

unfoldable pub sorted : (n : Numerals) → Args → List (List Bytes × ByteRecord) → List ByteRecord
sorted n a all = map (λ r. r.1) (sort_by (by_key (comparison n a.flag_numeric a.flag_reverse)) all)

-- `sort_by`, which compares nothing where there are less than two records.
unfoldable pub sort_all : Numerals → Args → List ℕ → List ByteRecord → Option (List ByteRecord)
sort_all n a sel [] = some []
sort_all n a sel (r ∷ []) = some (r ∷ [])
sort_all n a sel (r ∷ s ∷ rs) = elim (keyed sel (r ∷ s ∷ rs)) [
  | none ↦ none
  | some keys ↦ some (sorted n a keys)
]

unfoldable pub run : (n : Numerals) → Args → Reader → Sink → Output (Unit {0})
run n a rdr w = do
  headers ← try_csv rdr.headers
  sel ← try_text (config_selection a.rconfig headers)
  all ← try_csv (collect rdr.records)
  all' ← unwrap (sort_all n a sel all)
  write_headers a.rconfig.no_headers rdr w
  write_rows w (map ok all')
  flush w

-- ===== src/Cmd/Count/Laws.antt =====
-- The two ways to count agree.
use xsv.Prelude.{ℕ, ◌+◌, ◌≡◌, ap, ◌∙◌, List, [], ◌∷◌, length, none, some, arith}
use xsv.Prelude.Results.{ok, map_err}
use xsv.Error.{ByteRecord, from_csv}
use xsv.Csv.{Rows}
use xsv.Csv.Laws.{all_ok, length-all_ok}
use xsv.Index.{Indexed, Describes}
use xsv.Index.Laws.{count-length}
use xsv.Cmd.Count.{count_rows, run}

count_rows-all_ok :
    (n : ℕ) (rows : List ByteRecord) → count_rows n (all_ok rows) ≡ ok (n + length rows)
unfolding count_rows
count_rows-all_ok n [] = ap ok (omega arith)
count_rows-all_ok n (r ∷ rows) = count_rows-all_ok (n + 1) rows ∙ ap ok (omega arith)

-- On data that reads without errors, with an index that describes it, the number printed is the
-- number of records behind the headers, with the index and without it.
pub run-length :
    (idx : Indexed) (all : Rows) (rows : List ByteRecord)
    → Describes idx all
    → idx.rdr.records ≡ all_ok rows
    → (run (some idx) idx.rdr ≡ ok (length rows)) × (run none idx.rdr ≡ ok (length rows))
unfolding run
run-length idx all rows d e = (
  ap ok (count-length idx all d ∙ ap length e ∙ length-all_ok rows),
  ap (λ rs. map_err from_csv (count_rows 0 rs)) e
      ∙ ap (map_err from_csv) (count_rows-all_ok 0 rows ∙ ap ok (omega arith)),
)

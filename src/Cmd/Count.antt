-- ===== src/Cmd/Count.antt =====
-- src/cmd/count.rs: the number of records, with and without an index.
pub mod Laws
use xsv.Prelude.{ℕ, ◌+◌, List, [], ◌∷◌, Option, none, some}
use xsv.Prelude.Results.{Result, ok, err, map_err}
use xsv.Error.{CsvError, CliResult, from_csv}
use xsv.Csv.{Rows, Reader}
use xsv.Index.{Indexed, count}

-- The loop over the records.
unfoldable pub count_rows : ℕ → Rows → Result CsvError ℕ
count_rows n [] = ok n
count_rows n (err e ∷ rows) = err e
count_rows n (ok r ∷ rows) = count_rows (n + 1) rows

-- The number that `run` prints.
unfoldable pub run : Option Indexed → Reader → CliResult ℕ
run (some idx) rdr = ok (count idx)
run none rdr = map_err from_csv (count_rows 0 rdr.records)

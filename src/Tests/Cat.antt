-- ===== src/Tests/Cat.antt =====
-- Runs and witnesses for src/cmd/cat.rs.
use xsv.Prelude.{◌≡◌, refl, true, false, List, [], ◌∷◌, map}
use xsv.Prelude.Results.{ok}
use xsv.Prelude.Literal.{codes}
use xsv.Csv.{Reader, write_record}
use xsv.Config.{write_headers}
use xsv.Cmd.Cat.{cat_columns, open_inputs, empty_fields}
use xsv.Cmd.Cat.Rows.{readable}
use xsv.Cmd.Cat.Columns.{Columns, input, row_at, height, tabulate, cat_columns-row_at}
use xsv.Tests.Data.{header, rows, reader, sink, sink-Accepts}

headers_first : write_headers false (readable (reader, rows)) sink [] ≡ (ok tt, header ∷ [])
unfolding write_headers write_record
headers_first = refl

abbrev short : Reader
short = record {
  has_headers = false;
  headers = ok (codes "u" ∷ []);
  records = ok (codes "u" ∷ []) ∷ [];
}

abbrev both : List Columns
both = (1, (codes "u" ∷ []) ∷ []) ∷ (2, rows) ∷ []

opened : open_inputs (short ∷ reader ∷ []) ≡ ok (map input both)
unfolding open_inputs
opened = refl

cat_columns-row_at_example :
    cat_columns true sink (short ∷ reader ∷ []) []
    ≡ (ok tt, tabulate (row_at both) (height true both))
cat_columns-row_at_example =
    cat_columns-row_at true sink (short ∷ reader ∷ []) both [] sink-Accepts opened

padded_row : row_at both 1 ≡ [] ∷ codes "a" ∷ codes "y" ∷ []
unfolding empty_fields
padded_row = refl

-- ===== src/Tests/Data.antt =====
-- Data that the runs share: three records behind headers, an index of them, a writer that takes
-- every record.
use xsv.Prelude.{true, false, List, [], ◌∷◌, none, refl, drop}
use xsv.Prelude.Results.{ok}
use xsv.Prelude.Literal.{codes}
use xsv.Error.{ByteRecord}
use xsv.Csv.{Rows, Reader, Sink}
use xsv.Csv.Laws.{Accepts, all_ok}
use xsv.Config.{Config, any, necessary}
use xsv.Index.{Indexed, Describes}

abbrev pub header : ByteRecord
header = codes "name" ∷ codes "city" ∷ []

abbrev pub rows : List ByteRecord
rows =
    (codes "b" ∷ codes "x" ∷ []) ∷ (codes "a" ∷ codes "y" ∷ []) ∷ (codes "b" ∷ codes "z" ∷ []) ∷ []

abbrev pub all_rows : Rows
all_rows = all_ok (header ∷ rows)

abbrev pub reader : Reader
reader = record { has_headers = true; headers = ok header; records = all_ok rows }

abbrev pub indexed : Indexed
indexed = record { rdr = reader; len = 4; get = λ i. ok i; seek_to = λ p. ok (drop p all_rows) }

abbrev pub indexed-Describes : Describes indexed all_rows
indexed-Describes = record { len_is = refl; lands = λ i h. (i, refl, refl); records_are = refl }

abbrev pub sink : Sink
sink = record { refuses = λ out r. none; flush_fails = λ out. none }

abbrev pub sink-Accepts : Accepts sink
sink-Accepts = record { takes = λ out r. refl; flushes = λ out. refl }

-- The settings of `Config::new(&None)`.
abbrev pub standard : Config
standard = record {
  path = none;
  idx_path = none;
  select_columns = none;
  delimiter = b',';
  no_headers = false;
  flexible = false;
  terminator = any b'\n';
  quote = b'"';
  quote_style = necessary;
  double_quote = true;
  escape = b'\\';
  quoting = true;
}

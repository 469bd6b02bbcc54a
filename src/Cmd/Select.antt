-- ===== src/Cmd/Select.antt =====
-- src/cmd/select.rs: the selected fields of every record.
pub mod Laws
use xsv.Prelude.{ℕ, not, List, [], ◌∷◌, if◌then◌else◌}
use xsv.Prelude.Results.{ok, err}
use xsv.Csv.{
  Rows, Reader, Sink, Output, ◌>>=◌, ◌>>◌, pure, try_csv, try_text, unwrap, write_record, flush,
}
use xsv.Config.{Config, config_selection}
use xsv.Select.Row.{select}

-- The loop over the records.
unfoldable pub select_rows : Sink → List ℕ → Rows → Output (Unit {0})
select_rows w sel [] = pure tt
select_rows w sel (row ∷ rows) = do
  record' ← try_csv row
  fields ← unwrap (select sel record')
  write_record w fields
  select_rows w sel rows

unfoldable pub run : Config → Reader → Sink → Output (Unit {0})
run rconfig rdr w = do
  headers ← try_csv rdr.headers
  sel ← try_text (config_selection rconfig headers)
  if not rconfig.no_headers then (unwrap (select sel headers) >>= write_record w) else pure tt
  select_rows w sel rdr.records
  flush w

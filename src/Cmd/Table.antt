-- ===== src/Cmd/Table.antt =====
-- src/cmd/table.rs: all records again, through a `TabWriter`, their fields condensed.
pub mod Laws
use xsv.Prelude.{ℕ, Bool, true, List, [], ◌∷◌, Option, some, map}
use xsv.Error.{Text}
use xsv.Csv.{Rows, Sink, Output, ◌>>=◌, ◌>>◌, pure, try_csv, write_record, flush}
use xsv.Csv.Plain.{try_io}
use xsv.Config.{Config, WriterSettings, from_writer, new_config, with_delimiter, with_no_headers}
use xsv.Config.Files.{Platform, Destination, reader, io_writer}
use xsv.Unicode.{Unicode}
use xsv.Util.Condense.{condense}

pub record Args : Type 0 where
  pub arg_input : Option Text
  pub flag_width : ℕ
  pub flag_pad : ℕ
  pub flag_output : Option Text
  pub flag_delimiter : Option ℕ
  pub flag_condense : Option ℕ

unfoldable pub write_condensed : Unicode → Option ℕ → Sink → Rows → Output (Unit {0})
write_condensed u n w [] = pure tt
write_condensed u n w (r ∷ rows) = do
  record' ← try_csv r
  write_record w (map (λ f. condense u f n) record')
  write_condensed u n w rows

-- `tab_writer` is a csv writer in front of a `TabWriter` with a minimal width and a padding.
module _ (is_tsv : Text → Bool) (toggle : Bool) (u : Unicode)
    (tab_writer : ℕ → ℕ → WriterSettings → Destination → Sink) where
  unfoldable pub rconfig : Args → Config
  rconfig a =
      with_no_headers toggle true (with_delimiter a.flag_delimiter (new_config is_tsv a.arg_input))

  unfoldable pub wconfig : Args → Config
  wconfig a = with_delimiter (some b'\t') (new_config is_tsv a.flag_output)

  unfoldable pub run : Platform → Args → Output (Unit {0})
  run p a = do
    to ← try_io (io_writer p (wconfig a))
    let wtr = tab_writer a.flag_width a.flag_pad (from_writer (wconfig a)) to
    rdr ← try_io (reader p (rconfig a))
    write_condensed u a.flag_condense wtr rdr.records
    flush wtr

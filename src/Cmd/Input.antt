-- ===== src/Cmd/Input.antt =====
-- src/cmd/input.rs: all records again, read under special quoting rules.
pub mod Laws
use xsv.Prelude.{ℕ, Bool, true, false, Option, none, some, if◌then◌else◌}
use xsv.Error.{Text}
use xsv.Csv.{Output, ◌>>=◌, ◌>>◌, write_rows, flush}
use xsv.Csv.Plain.{try_io}
use xsv.Config.{
  Config, new_config, with_delimiter, with_no_headers, with_quote, with_double_quote, with_escape,
  with_quoting,
}
use xsv.Config.Files.{Platform, reader, writer}

pub record Args : Type 0 where
  pub arg_input : Option Text
  pub flag_output : Option Text
  pub flag_delimiter : Option ℕ
  pub flag_quote : ℕ
  pub flag_escape : Option ℕ
  pub flag_no_quoting : Bool

unfoldable pub escaped : Option ℕ → Config → Config
escaped none c = c
escaped (some e) c = with_double_quote false (with_escape e c)

unfoldable pub unquoted : Bool → Config → Config
unquoted set c = if set then with_quoting false c else c

module _ (is_tsv : Text → Bool) (toggle : Bool) where
  unfoldable pub rconfig : Args → Config
  rconfig a = unquoted a.flag_no_quoting (
      escaped a.flag_escape (
        with_quote a.flag_quote (
          with_no_headers toggle true
            (with_delimiter a.flag_delimiter (new_config is_tsv a.arg_input)))))

  unfoldable pub run : Platform → Args → Output (Unit {0})
  run p a = do
    rdr ← try_io (reader p (rconfig a))
    wtr ← try_io (writer p (new_config is_tsv a.flag_output))
    write_rows wtr rdr.records
    flush wtr

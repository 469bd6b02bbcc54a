-- ===== src/Cmd/Fmt.antt =====
-- src/cmd/fmt.rs: all records again, under other settings.
pub mod Laws
use xsv.Prelude.{ℕ, Bool, true, false, Option, none, some, if◌then◌else◌}
use xsv.Error.{Text}
use xsv.Csv.{Output, ◌>>=◌, ◌>>◌, write_rows, flush}
use xsv.Csv.Plain.{try_io}
use xsv.Config.{
  Config, any, always, new_config, with_delimiter, with_no_headers, with_crlf, with_terminator,
  with_quote, with_quote_style, with_double_quote, with_escape,
}
use xsv.Config.Files.{Platform, reader, writer}

pub record Args : Type 0 where
  pub arg_input : Option Text
  pub flag_out_delimiter : Option ℕ
  pub flag_crlf : Bool
  pub flag_ascii : Bool
  pub flag_output : Option Text
  pub flag_delimiter : Option ℕ
  pub flag_quote : ℕ
  pub flag_quote_always : Bool
  pub flag_escape : Option ℕ

module _ (is_tsv : Text → Bool) (toggle : Bool) where
  unfoldable pub rconfig : Args → Config
  rconfig a =
      with_no_headers toggle true (with_delimiter a.flag_delimiter (new_config is_tsv a.arg_input))

  ascii : Bool → Config → Config
  ascii set c = if set then with_terminator (any 0x1e) (with_delimiter (some 0x1f) c) else c

  quote_always : Bool → Config → Config
  quote_always set c = if set then with_quote_style always c else c

  escaped : Option ℕ → Config → Config
  escaped none c = c
  escaped (some e) c = with_double_quote false (with_escape e c)

  unfoldable pub wconfig : Args → Config
  unfolding ascii quote_always escaped
  wconfig a = with_quote a.flag_quote (
      escaped a.flag_escape (
        quote_always a.flag_quote_always (
          ascii a.flag_ascii (
            with_crlf a.flag_crlf
              (with_delimiter a.flag_out_delimiter (new_config is_tsv a.flag_output))))))

  unfoldable pub run : Platform → Args → Output (Unit {0})
  run p a = do
    rdr ← try_io (reader p (rconfig a))
    wtr ← try_io (writer p (wconfig a))
    write_rows wtr rdr.records
    flush wtr

-- ===== src/Tests/Files.antt =====
-- Runs and witnesses for src/config.rs, src/cmd/fmt.rs, src/cmd/input.rs and src/cmd/table.rs.
use xsv.Prelude.{◌≡◌, ◌↔◌, refl, Bool, true, false, [], ◌∷◌, none, some, drop, if◌then◌else◌}
use xsv.Prelude.Results.{ok, err}
use xsv.Prelude.Bytes.{bytes_eq}
use xsv.Prelude.Literal.{codes}
use xsv.Error.{Text, index_too_old}
use xsv.Csv.Laws.{all_ok}
use xsv.Config.{
  Config, from_reader, new_config, decode_delimiter, with_delimiter, with_no_headers, with_crlf,
  with_terminator, with_quote,
}
use xsv.Config.Files.{File, Platform, index_files, check_modified, io_reader, io_writer, writer}
use xsv.Config.Laws.{UsesIndex, index_files-UsesIndex}
use xsv.Cmd.Fmt
use xsv.Cmd.Fmt.Laws.{run-copies}
use xsv.Cmd.Input
use xsv.Cmd.Input.Laws.{run-ignores_escape}
use xsv.Tests.Data.{header, rows, indexed, sink, sink-Accepts, standard}

abbrev pub content_file : File
content_file = record { content = []; last_modified = ok 7 }

abbrev old_index : File
old_index = record { content = []; last_modified = ok 6 }

abbrev new_index : File
new_index = record { content = []; last_modified = ok 7 }

-- Every file holds the test data; those named `old` were modified earlier.
abbrev pub platform : Platform
platform = record {
  stdin = content_file;
  open_file = λ p. ok content_file;
  create = λ p. none;
  csv_reader = λ s f. record {
    has_headers = s.has_headers;
    headers = ok header;
    records = if s.has_headers then drop 1 (all_ok (header ∷ rows)) else all_ok (header ∷ rows);
  };
  csv_writer = λ s to. sink;
  open_index = λ r f. ok indexed;
}

abbrev pub of_file : Config
of_file = record standard { path = some (codes "in.csv") }

abbrev pub test_is_tsv : Text → Bool
test_is_tsv t = false

too_old : check_modified platform (from_reader of_file) content_file old_index ≡ err index_too_old
unfolding check_modified
too_old = refl

tab_decoded : decode_delimiter (codes "\\t") ≡ ok b'\t'
unfolding decode_delimiter bytes_eq
tab_decoded = refl

index_files-UsesIndex_example :
    (index_files platform of_file
      ≡ ok (some (platform.csv_reader (from_reader of_file) content_file, content_file)))
    ↔ UsesIndex platform
        (from_reader of_file)
        (platform.csv_reader (from_reader of_file) content_file)
        content_file
        (some (codes "in.csv"))
        none
index_files-UsesIndex_example =
    index_files-UsesIndex platform of_file (platform.csv_reader (from_reader of_file) content_file)
      content_file

abbrev fmt_args : Fmt.Args
fmt_args = record {
  arg_input = none;
  flag_out_delimiter = none;
  flag_crlf = false;
  flag_ascii = true;
  flag_output = none;
  flag_delimiter = none;
  flag_quote = b'"';
  flag_quote_always = false;
  flag_escape = none;
}

from_stdin :
    (toggle : Bool) → io_reader platform (Fmt.rconfig test_is_tsv toggle fmt_args) ≡ ok content_file
unfolding io_reader Fmt.rconfig new_config with_delimiter with_no_headers
from_stdin toggle = refl

to_sink : writer platform (Fmt.wconfig test_is_tsv true fmt_args) ≡ ok sink
unfolding writer io_writer Fmt.wconfig new_config with_delimiter with_crlf with_terminator
    with_quote
to_sink = refl

-- With XSV_TOGGLE_HEADERS set the header line is lost.
run-copies_example : Fmt.run test_is_tsv true platform fmt_args [] ≡ (ok tt, rows)
run-copies_example =
    run-copies test_is_tsv true platform fmt_args content_file sink (header ∷ rows) []
      (from_stdin true) refl to_sink sink-Accepts

abbrev input_args : Input.Args
input_args = record {
  arg_input = none;
  flag_output = none;
  flag_delimiter = none;
  flag_quote = b'\'';
  flag_escape = some b'\\';
  flag_no_quoting = false;
}

run-ignores_escape_example :
    Input.run test_is_tsv false platform input_args
    ≡ Input.run test_is_tsv false platform (record input_args { flag_escape = none })
run-ignores_escape_example = run-ignores_escape test_is_tsv false platform input_args

-- ===== src/Error.antt =====
-- src/main.rs: `CliError` and its conversions, with the texts that the program formats as data.
-- A message that the source builds by `format!` is a constructor with the values it interpolates.
use xsv.Prelude.{ℕ, List}
use xsv.Prelude.Results.{Result}

-- Bytes of a field, and code points of a `String`.
abbrev pub Bytes : Type 0
Bytes = List ℕ

abbrev pub Text : Type 0
Text = List ℕ

abbrev pub ByteRecord : Type 0
ByteRecord = List Bytes

pub data Message : Type 0 where
  -- select.rs
  expected_end_of_field : ℕ → Message
  unclosed_quote unclosed_bracket : Message
  bad_index : Text → Message
  index_out_of_bounds : ℕ → ℕ → Message
  names_without_headers : Text → Message
  no_such_name : Text → Message
  occurrence_out_of_bounds : ℕ → Text → ℕ → Message
  -- config.rs
  no_select_columns : Message
  -- util.rs
  many_stdin index_with_range end_with_len : Message
  end_before_start : ℕ → ℕ → Message
  -- cmd/*.rs
  size_zero length_zero stdin_not_allowed one_column_only pick_one_join : Message
  selection_lengths_differ : ℕ → ℕ → Message
  -- The model's own: a loop ran out of fuel.
  out_of_fuel : Message

-- Errors of the io and csv crates are opaque: a number tells them apart.
pub data IoError : Type 0 where
  invalid_record_index : ℕ → ℕ → IoError
  broken_pipe already_exists : IoError
  stdin_here index_with_stdin index_too_old : IoError
  failed_to_open : Text → IoError → IoError
  other_io : ℕ → IoError

pub data CsvError : Type 0 where
  csv_io : IoError → CsvError
  csv_other : ℕ → CsvError

pub data CliError : Type 0 where
  flag : ℕ → CliError
  csv : CsvError → CliError
  io : IoError → CliError
  other : Message → CliError

abbrev pub CliResult : Type 0 → Type 0
CliResult A = Result CliError A

-- `impl From<csv::Error> for CliError`: an I/O error keeps its own kind.
abbrev pub from_csv : CsvError → CliError
from_csv (csv_io e) = io e
from_csv (csv_other n) = csv (csv_other n)

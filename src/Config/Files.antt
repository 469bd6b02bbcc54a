-- ===== src/Config/Files.antt =====
-- src/config.rs: the files of a `Config`, with the index beside the data. The file system and the csv
-- and csv-index crates are parameters.
use xsv.Prelude.{ℕ, Option, none, some, ltb, if◌then◌else◌}
use xsv.Prelude.Results.{Result, ok, err, map_err, ◌>>=◌}
use xsv.Error.{
  Bytes, Text, IoError, CsvError, CliResult, io, from_csv, stdin_here, index_with_stdin,
  index_too_old, failed_to_open,
}
use xsv.Csv.{Reader, Sink}
use xsv.Index.{Indexed}
use xsv.Util.{idx_path}
use xsv.Config.{Config, ReaderSettings, WriterSettings, from_reader, from_writer}

-- An open file: its content, and what `metadata` tells of its last modification, in seconds.
pub record File : Type 0 where
  pub content : Bytes
  pub last_modified : Result IoError ℕ

pub data Destination : Type 0 where
  to_stdout : Destination
  to_file : Text → Destination

-- `create` is the error, if any, of creating a file; `open_index` is `Indexed::open`.
pub record Platform : Type 0 where
  pub stdin : File
  pub open_file : Text → Result IoError File
  pub create : Text → Option IoError
  pub csv_reader : ReaderSettings → File → Reader
  pub csv_writer : WriterSettings → Destination → Sink
  pub open_index : Reader → File → Result CsvError Indexed

module _ (p : Platform) where
  unfoldable pub io_reader : Config → Result IoError File
  io_reader c = elim c.path [
    | none ↦ ok p.stdin
    | some path ↦ map_err (failed_to_open path) (p.open_file path)
  ]

  unfoldable pub reader : Config → Result IoError Reader
  reader c = do file ← io_reader c; ok (p.csv_reader (from_reader c) file)

  unfoldable pub reader_file : Config → Result IoError Reader
  reader_file c = elim c.path [
    | none ↦ err stdin_here
    | some path ↦ (do file ← p.open_file path; ok (p.csv_reader (from_reader c) file))
  ]

  unfoldable pub io_writer : Config → Result IoError Destination
  io_writer c = elim c.path [
    | none ↦ ok to_stdout
    | some path ↦ elim (p.create path) [ none ↦ ok (to_file path) | some e ↦ err e ]
  ]

  unfoldable pub writer : Config → Result IoError Sink
  writer c = do to ← io_writer c; ok (p.csv_writer (from_writer c) to)

  -- The end of `index_files`: data that was modified after its index is an error.
  unfoldable pub check_modified :
      ReaderSettings → File → File → Result IoError (Option (Reader × File))
  check_modified s csv_file idx_file = do
    data_modified ← csv_file.last_modified
    idx_modified ← idx_file.last_modified
    (if ltb idx_modified data_modified
        then err index_too_old
        else ok (some (p.csv_reader s csv_file, idx_file)))

  -- An index that nobody asked for: if it cannot be opened, there is none.
  unfoldable pub passive_index :
      ReaderSettings → Text → Result IoError File → Result IoError (Option (Reader × File))
  passive_index s path (err e) = ok none
  passive_index s path (ok idx_file) = do
    csv_file ← p.open_file path
    check_modified s csv_file idx_file

  -- The match on the path of the data and that of the index.
  unfoldable pub index_pair :
      ReaderSettings → Option Text → Option Text → Result IoError (Option (Reader × File))
  index_pair s none none = ok none
  index_pair s none (some idx) = err index_with_stdin
  index_pair s (some path) none = passive_index s path (p.open_file (idx_path path))
  index_pair s (some path) (some idx) = do
    csv_file ← p.open_file path
    idx_file ← p.open_file idx
    check_modified s csv_file idx_file

  unfoldable pub index_files : Config → Result IoError (Option (Reader × File))
  index_files c = index_pair (from_reader c) c.path c.idx_path

  opened : Option (Reader × File) → CliResult (Option Indexed)
  opened none = ok none
  opened (some (r, i)) = do idx ← map_err from_csv (p.open_index r i); ok (some idx)

  unfoldable pub indexed : Config → CliResult (Option Indexed)
  unfolding opened
  indexed c = do files ← map_err io (index_files c); opened files

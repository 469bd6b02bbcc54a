-- ===== src/Index.antt =====
-- src/index.rs: a reader with random access by record number.
pub mod Laws
use xsv.Prelude.{
  ℕ, suc, ◌+◌, ◌-◌, ◌≡◌, ◌<◌, Bool, true, false, not, ◌&&◌, List, Option, none, some, leb, length,
  drop, ◌==◌, if◌then◌else◌,
}
use xsv.Prelude.Results.{Result, ok, err, map_err}
use xsv.Error.{
  ByteRecord, CsvError, CliResult, CliError, io, IoError, invalid_record_index, from_csv,
}
use xsv.Csv.{Rows, Reader}

-- `Indexed`: the reader, with what the index file and seeking answer. `len` counts the records of
-- the index, `get` is the position that it holds for a record, and `seek_to` is what the reader
-- yields once it is moved to a position.
pub record Indexed : Type 0 where
  pub rdr : Reader
  pub len : ℕ
  pub get : ℕ → Result CsvError ℕ
  pub seek_to : ℕ → Result CsvError Rows

unfoldable pub count : Indexed → ℕ
count idx = if idx.rdr.has_headers && not (idx.len == 0) then idx.len - 1 else idx.len

abbrev pub move_to : Indexed → Result CsvError ℕ → CliResult Rows
move_to idx (err e) = err (from_csv e)
move_to idx (ok pos) = map_err from_csv (idx.seek_to pos)

-- `seek`, with the records that follow.
unfoldable pub seek : Indexed → ℕ → CliResult Rows
seek idx i =
    if leb (count idx) i
    then err (io (invalid_record_index i (count idx)))
    else move_to idx (idx.get (if idx.rdr.has_headers then i + 1 else i))

-- What an index file made from the same data answers: the index lists every record, the header
-- record included, and its entry for record `i` is a position from which the reader yields the
-- records from `i` on. `all` are the records of the data, the header record included.
pub record Describes (idx : Indexed) (all : Rows) : Type 0 where
  pub len_is : idx.len ≡ length all
  pub lands :
      (i : ℕ) → i < length all → (p : ℕ) × (idx.get i ≡ ok p) × (idx.seek_to p ≡ ok (drop i all))
  pub records_are : idx.rdr.records ≡ (if idx.rdr.has_headers then drop 1 all else all)

-- The index, if there is one, is of the data that the reader yields.
abbrev pub IndexOf : Reader → Rows → Option Indexed → Type 0
IndexOf rdr all none = Unit
IndexOf rdr all (some idx) = Describes idx all × (idx.rdr ≡ rdr)

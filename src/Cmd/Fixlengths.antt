-- ===== src/Cmd/Fixlengths.antt =====
-- src/cmd/fixlengths.rs: records cut or padded to one length.
pub mod Counted
pub mod Laws
use Prim.Native.Nat.{compare}
use xsv.Prelude.{
  ℕ, zero, suc, ◌-◌, max, Bool, true, false, not, ◌||◌, List, [], ◌∷◌, ◌++◌, Option, none, some,
  length, take, leb, ◌==◌, if◌then◌else◌, map,
}
use xsv.Prelude.Bytes.{is_empty}
use xsv.Prelude.Results.{Result, ok, err}
use xsv.Error.{
  Bytes, ByteRecord, CsvError, CliResult, CliError, other, from_csv, length_zero, stdin_not_allowed,
}
use xsv.Csv.{Rows, Reader, Sink, Output, ◌>>=◌, ◌>>◌, pure, try_csv, try_cli, write_record, flush}
use xsv.Config.{Config, is_std}

pub record Args : Type 0 where
  pub config : Config
  pub flag_length : Option ℕ

-- The loop over the fields of a record.
unfoldable pub count_fields : ℕ → ℕ → ByteRecord → ℕ
count_fields index nonempty_count [] = nonempty_count
count_fields index nonempty_count (field ∷ fields) =
    count_fields (suc index)
      (if (suc index == 1) || not (is_empty field) then suc index else nonempty_count) fields

-- The loop over the records that looks for the longest.
unfoldable pub longest : ℕ → Rows → Result CsvError ℕ
longest maxlen [] = ok maxlen
longest maxlen (err e ∷ rows) = err e
longest maxlen (ok record' ∷ rows) = longest (max maxlen (count_fields 0 0 record')) rows

unfoldable pub pad : ℕ → ByteRecord → ByteRecord
pad zero r = r
pad (suc n) r = pad n (r ++ [] ∷ [])

-- What becomes of a record.
unfoldable pub resize : ℕ → ByteRecord → ByteRecord
unfolding pad
resize len r = if leb (length r) len then pad (len - length r) r else take len r

unfoldable pub write_fixed : Sink → ℕ → Rows → Output (Unit {0})
write_fixed w len [] = pure tt
write_fixed w len (row ∷ rows) = do
  r ← try_csv row
  write_record w (resize len r)
  write_fixed w len rows

unfoldable pub length_of : Args → Option ℕ → Rows → CliResult ℕ
length_of a (some len) rows = if len == 0 then err (other length_zero) else ok len
length_of a none rows =
    if is_std a.config
    then err (other stdin_not_allowed)
    else elim (longest 0 rows) [ ok len ↦ ok len | err e ↦ err (from_csv e) ]

-- `run`; the reader is made anew for the second loop, and yields the same records.
unfoldable pub run : Args → Reader → Sink → Output (Unit {0})
run a rdr w = do
  len ← try_cli (length_of a a.flag_length rdr.records)
  write_fixed w len rdr.records
  flush w

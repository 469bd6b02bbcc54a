-- ===== src/Cmd/Slice.antt =====
-- src/cmd/slice.rs: the records of a range, with and without an index.
pub mod Laws
use xsv.Prelude.{ℕ, Option, none, some, take, drop, ◌==◌, if◌then◌else◌}
use xsv.Prelude.Results.{Result}
use xsv.Error.{Message}
use xsv.Csv.{Rows, Reader, Sink, Output, ◌>>=◌, ◌>>◌, pure, try_cli, try_text, flush, write_rows}
use xsv.Csv.Plain.{try_io}
use xsv.Config.{Config, write_headers}
use xsv.Config.Files.{Platform, reader, writer, indexed}
use xsv.Index.{Indexed, seek}
use xsv.Util
use xsv.Util.{wrapping_sub}

-- The configurations stand for the flags that they are made of.
pub record Args : Type 0 where
  pub flag_start : Option ℕ
  pub flag_end : Option ℕ
  pub flag_len : Option ℕ
  pub flag_index : Option ℕ
  pub rconfig : Config
  pub wconfig : Config

unfoldable pub range : Args → Result Message (ℕ × ℕ)
range a = Util.range a.flag_start a.flag_end a.flag_len a.flag_index

unfoldable pub no_index : Args → Reader → Sink → Output (Unit {0})
no_index a rdr w = do
  write_headers a.rconfig.no_headers rdr w
  (start, end) ← try_text (range a)
  write_rows w (take (wrapping_sub end start) (drop start rdr.records))
  flush w

-- What follows the range in `with_index`. An empty slice returns without a flush.
unfoldable pub from_index : Indexed → Sink → ℕ → ℕ → Output (Unit {0})
from_index idx w start end = if wrapping_sub end start == 0 then pure tt else (do
  rows ← try_cli (seek idx start)
  write_rows w (take (wrapping_sub end start) rows)
  flush w)

unfoldable pub with_index : Args → Indexed → Sink → Output (Unit {0})
with_index a idx w = do
  write_headers a.rconfig.no_headers idx.rdr w
  (start, end) ← try_text (range a)
  from_index idx w start end

module _ (p : Platform) where
  -- The match on the index; both bodies open the writer, and the one without an index its reader.
  unfoldable pub sliced : Args → Option Indexed → Output (Unit {0})
  sliced a none = do
    rdr ← try_io (reader p a.rconfig)
    wtr ← try_io (writer p a.wconfig)
    no_index a rdr wtr
  sliced a (some idxed) = do wtr ← try_io (writer p a.wconfig); with_index a idxed wtr

  unfoldable pub run : Args → Output (Unit {0})
  run a = do idx ← try_cli (indexed p a.rconfig); sliced a idx

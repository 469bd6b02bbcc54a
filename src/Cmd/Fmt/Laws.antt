-- ===== src/Cmd/Fmt/Laws.antt =====
-- What `fmt` writes.
use xsv.Prelude.{◌≡◌, not, Bool, List, ◌++◌, drop, if◌then◌else◌}
use xsv.Prelude.Results.{ok}
use xsv.Error.{Text, ByteRecord}
use xsv.Csv.{Sink}
use xsv.Csv.Laws.{Accepts, write_rows-Accepts, flush-Accepts}
use xsv.Config.{from_reader}
use xsv.Config.Files.{Platform, File, io_reader, writer}
use xsv.Config.Laws.{Yields, reader-Yields, headers_taken}
use xsv.Cmd.Fmt.{Args, rconfig, wconfig, run}

module _ (is_tsv : Text → Bool) (toggle : Bool) where
  takes_headers : (a : Args) → not (rconfig is_tsv toggle a).no_headers ≡ toggle
  unfolding rconfig
  takes_headers a = headers_taken toggle _

  -- From an input without errors, and into an output that takes everything, `fmt` writes all records
  -- of the input as they are, its first line included; but where XSV_TOGGLE_HEADERS is set it leaves
  -- the first record out.
  pub run-copies :
      (p : Platform) (a : Args) (f : File) (w : Sink) (rows out : List ByteRecord)
      → io_reader p (rconfig is_tsv toggle a) ≡ ok f
      → Yields p f (from_reader (rconfig is_tsv toggle a)) rows
      → writer p (wconfig is_tsv toggle a) ≡ ok w
      → Accepts w
      → run is_tsv toggle p a out ≡ (ok tt, out ++ (if toggle then drop 1 rows else rows))
  unfolding run
  run-copies p a f w rows out opens yields creates acc =
      let (rdr, opened, reads) = reader-Yields p (rconfig is_tsv toggle a) f rows opens yields in
      let kept = if toggle then drop 1 rows else rows in
      rw (
        opened,
        creates,
        reads,
        takes_headers a,
        write_rows-Accepts w acc kept out,
        flush-Accepts w acc (out ++ kept),
      )

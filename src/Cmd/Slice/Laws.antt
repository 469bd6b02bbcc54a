-- ===== src/Cmd/Slice/Laws.antt =====
-- The two ways to slice agree on every range that starts inside the data.
use xsv.Prelude.{
  some, none, sym, ◌∙◌, ℕ, ◌≡◌, ◌≢◌, ◌<◌, ◌≤◌, ap, true, false, List, [], ◌++◌, length, take, drop,
  drop_all, take-nil, append-nil, ◌==◌, leb, arith,
}
use xsv.Prelude.Results.{Result, ok, err}
use xsv.Error.{ByteRecord, CsvError, io, invalid_record_index}
use xsv.Csv.{Rows, Reader, Sink, failed, try_cli, flush, write_rows, ◌>>◌, ◌>>=◌}
use xsv.Csv.Laws.{Accepts, all_ok, take-all_ok, drop-all_ok, write_rows-Accepts, flush-Accepts}
use xsv.Config.{write_headers}
use xsv.Index.{Indexed, Describes}
use xsv.Index.Laws.{seek-drop}
use xsv.Util.{wrapping_sub}
use xsv.Config.Files.{Platform, reader, writer, indexed}
use xsv.Csv.Plain.{try_io}
use xsv.Cmd.Slice.{Args, range, no_index, from_index, with_index, sliced, run}

from_index-drop :
    (idx : Indexed) (all : Rows) (w : Sink) (start end : ℕ)
    → Describes idx all
    → start < length idx.rdr.records
    → wrapping_sub end start ≢ 0
    → from_index idx w start end
      ≡ (write_rows w (take (wrapping_sub end start) (drop start idx.rdr.records)) >> flush w)
unfolding from_index
from_index-drop idx all w start end d s n =
    let some_rows : (wrapping_sub end start == 0) ≡ false = ground arith in
    let inside : leb (length idx.rdr.records) start ≡ false = ground arith in
    rw (some_rows, seek-drop idx all d start, inside)

from_index-past :
    (idx : Indexed) (all : Rows) (w : Sink) (start end : ℕ)
    → Describes idx all
    → length idx.rdr.records ≤ start
    → wrapping_sub end start ≢ 0
    → from_index idx w start end
      ≡ try_cli (err (io (invalid_record_index start (length idx.rdr.records))))
unfolding from_index
from_index-past idx all w start end d s n =
    let some_rows : (wrapping_sub end start == 0) ≡ false = ground arith in
    let past : leb (length idx.rdr.records) start ≡ true = ground arith in
    rw (some_rows, seek-drop idx all d start, past)

-- With an index that describes the data, and a range that starts inside the data and is not empty,
-- slicing through the index does exactly what slicing from the start does: the same output, the
-- same result and the same errors, whatever the writer refuses.
pub with_index-no_index :
    (a : Args) (idx : Indexed) (all : Rows) (w : Sink) {start end : ℕ}
    → Describes idx all
    → range a ≡ ok (start, end)
    → start < length idx.rdr.records
    → wrapping_sub end start ≢ 0
    → with_index a idx w ≡ no_index a idx.rdr w
unfolding with_index no_index
with_index-no_index a idx all w {start} {end} d r s n = rw r (
    ap (λ k. write_headers a.rconfig.no_headers idx.rdr w >> k)
      (from_index-drop idx all w start end d s n))

-- A range that is not empty and starts at or past the end of the data is treated in two ways:
-- without an index the output is the headers alone, and the command succeeds; with an index it ends
-- with an error behind the same headers. (The writer takes every record, and the headers are read.)
pub past_the_end_differs :
    (a : Args) (idx : Indexed) (all : Rows) (w : Sink) (headers out : List ByteRecord)
    {start end : ℕ}
    → Accepts w
    → Describes idx all
    → write_headers a.rconfig.no_headers idx.rdr w out ≡ (ok tt, out ++ headers)
    → range a ≡ ok (start, end)
    → length idx.rdr.records ≤ start
    → wrapping_sub end start ≢ 0
    → (no_index a idx.rdr w out ≡ (ok tt, out ++ headers))
      × (with_index a idx w out ≡ (
        err (failed (io (invalid_record_index start (length idx.rdr.records)))),
        out ++ headers,
      ))
unfolding with_index no_index
past_the_end_differs a idx all w headers out {start} {end} acc d h r s n = (
  rw (
    r,
    h,
    drop_all start idx.rdr.records s,
    take-nil {A = Result CsvError ByteRecord} (wrapping_sub end start),
    write_rows-Accepts w acc [] (out ++ headers),
    append-nil (out ++ headers),
    flush-Accepts w acc (out ++ headers),
  ),
  rw (r, h, from_index-past idx all w start end d s n),
)

-- On data that reads without errors, and into a writer that takes every record, slicing writes the
-- headers and then the records of the range, in order, however many of them there are.
pub no_index-window :
    (a : Args) (rdr : Reader) (w : Sink) (headers rows out : List ByteRecord) {start end : ℕ}
    → Accepts w
    → write_headers a.rconfig.no_headers rdr w out ≡ (ok tt, out ++ headers)
    → rdr.records ≡ all_ok rows
    → range a ≡ ok (start, end)
    → no_index a rdr w out
      ≡ (ok tt, (out ++ headers) ++ take (wrapping_sub end start) (drop start rows))
unfolding no_index
no_index-window a rdr w headers rows out {start} {end} acc h e r = rw (
  r,
  h,
  e,
  drop-all_ok start rows,
  take-all_ok (wrapping_sub end start) (drop start rows),
  write_rows-Accepts w acc (take (wrapping_sub end start) (drop start rows)) (out ++ headers),
  flush-Accepts w acc ((out ++ headers) ++ take (wrapping_sub end start) (drop start rows)),
)

-- Where the command finds an index that describes the data of its reader, and the range starts inside
-- the data and is not empty, it does exactly what it does where there is no index.
pub run-no_index :
    (p : Platform) (a : Args) (rdr : Reader) (idx : Indexed) (all : Rows) {start end : ℕ}
    → indexed p a.rconfig ≡ ok (some idx)
    → reader p a.rconfig ≡ ok rdr
    → idx.rdr ≡ rdr
    → Describes idx all
    → range a ≡ ok (start, end)
    → start < length rdr.records
    → wrapping_sub end start ≢ 0
    → run p a ≡ sliced p a none
unfolding run sliced
run-no_index p a rdr idx all {start} {end} finds opens same d r s n =
    let inside : start < length idx.rdr.records = rw same s in
    let agrees : (w : Sink) → with_index a idx w ≡ no_index a rdr w =
      λ w. with_index-no_index a idx all w d r inside n ∙ ap (λ x. no_index a x w) same in
    ap (λ f. try_cli f >>= sliced p a) finds
    ∙ ap (λ k. try_io (writer p a.wconfig) >>= k) (λ i w. agrees w i)
    ∙ ap (λ f. try_io f >>= λ x. try_io (writer p a.wconfig) >>= no_index a x) (sym opens)

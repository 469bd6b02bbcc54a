-- ===== src/Cmd/Table/Laws.antt =====
-- What `table` writes.
use mathlib.Core.List.{append_assoc}
use xsv.Prelude.{
  ◌≡◌, ap, ◌∙◌, not, Bool, List, [], ◌∷◌, ◌++◌, append-nil, ℕ, Option, map, drop, if◌then◌else◌,
}
use xsv.Prelude.Results.{ok}
use xsv.Error.{Text, ByteRecord}
use xsv.Csv.{Sink}
use xsv.Csv.Laws.{Accepts, all_ok, write_record-Accepts, flush-Accepts}
use xsv.Config.{WriterSettings, from_reader, from_writer}
use xsv.Config.Files.{Platform, File, Destination, io_reader, io_writer}
use xsv.Config.Laws.{Yields, reader-Yields, headers_taken}
use xsv.Unicode.{Unicode}
use xsv.Util.Condense.{condense}
use xsv.Cmd.Table.{Args, write_condensed, rconfig, wconfig, run}

abbrev pub condensed : Unicode → Option ℕ → List ByteRecord → List ByteRecord
condensed u n = map (map (λ f. condense u f n))

write_condensed-Accepts :
    (u : Unicode) (n : Option ℕ) (w : Sink) (acc : Accepts w) (rows out : List ByteRecord)
    → write_condensed u n w (all_ok rows) out ≡ (ok tt, out ++ condensed u n rows)
unfolding write_condensed
write_condensed-Accepts u n w acc [] out = rw append-nil
write_condensed-Accepts u n w acc (r ∷ rows) out =
    let r' = map (λ f. condense u f n) r in
    rw (write_record-Accepts w acc r' out) (
      write_condensed-Accepts u n w acc rows (out ++ r' ∷ [])
      ∙ ap (λ o. (ok tt, o)) (append_assoc out (r' ∷ []) (condensed u n rows)))

module _ (is_tsv : Text → Bool) (toggle : Bool) (u : Unicode)
    (tab_writer : ℕ → ℕ → WriterSettings → Destination → Sink) where
  takes_headers : (a : Args) → not (rconfig is_tsv toggle u tab_writer a).no_headers ≡ toggle
  unfolding rconfig
  takes_headers a = headers_taken toggle _

  -- From an input without errors, and into a writer that takes everything, `table` writes all records
  -- of the input, its first line included, every field condensed; but where XSV_TOGGLE_HEADERS is
  -- set it leaves the first record out.
  pub run-condensed :
      (p : Platform) (a : Args) (f : File) (to : Destination) (rows out : List ByteRecord)
      → io_writer p (wconfig is_tsv toggle u tab_writer a) ≡ ok to
      → Accepts (
          tab_writer a.flag_width a.flag_pad
            (from_writer (wconfig is_tsv toggle u tab_writer a))
            to)
      → io_reader p (rconfig is_tsv toggle u tab_writer a) ≡ ok f
      → Yields p f (from_reader (rconfig is_tsv toggle u tab_writer a)) rows
      → run is_tsv toggle u tab_writer p a out
        ≡ (ok tt, out ++ condensed u a.flag_condense (if toggle then drop 1 rows else rows))
  unfolding run
  run-condensed p a f to rows out creates acc opens yields =
      let c = rconfig is_tsv toggle u tab_writer a in
      let w =
        tab_writer a.flag_width a.flag_pad (from_writer (wconfig is_tsv toggle u tab_writer a))
          to in
      let (rdr, opened, reads) = reader-Yields p c f rows opens yields in
      let kept = if toggle then drop 1 rows else rows in
      rw (
        creates,
        opened,
        reads,
        takes_headers a,
        write_condensed-Accepts u a.flag_condense w acc kept out,
        flush-Accepts w acc (out ++ condensed u a.flag_condense kept),
      )

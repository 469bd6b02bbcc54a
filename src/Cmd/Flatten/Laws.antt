-- ===== src/Cmd/Flatten/Laws.antt =====
-- What `flatten` prints.
use xsv.Prelude.{
  ℕ, ◌+◌, ◌≡◌, ap, ◌∙◌, true, false, not, List, [], ◌∷◌, ◌++◌, append-nil, if◌then◌else◌, map,
}
use xsv.Prelude.Bytes.{as_bytes, is_empty}
use xsv.Prelude.Results.{ok}
use xsv.Error.{Bytes, ByteRecord}
use xsv.Csv.{Reader, pure}
use xsv.Csv.Laws.{all_ok}
use xsv.Csv.Plain.{
  Plain, Takes, Prints, Prints-nothing, Prints-then, write_all, write_all-Takes, flush_all-Takes,
}
use xsv.Config.Files.{Platform, reader}
use xsv.Select.Syntax.{decimal}
use xsv.Unicode.{Unicode}
use xsv.Util.Condense.{condense}
use xsv.Cmd.Flatten.{Args, write_fields, write_records, run}

-- Texts with a separator between each two of them.
abbrev pub joined : Bytes → List Bytes → Bytes
joined sep [] = []
joined sep (x ∷ []) = x
joined sep (x ∷ y ∷ xs) = x ++ (sep ++ joined sep (y ∷ xs))

-- The line that stands between two records.
abbrev pub separator_line : List ℕ → Bytes
separator_line [] = []
separator_line (c ∷ cs) = as_bytes (c ∷ cs) ++ b'\n' ∷ []

module _ (u : Unicode) (a : Args) where
  -- The lines of one record, from column `i` on.
  abbrev pub record_lines : ℕ → ByteRecord → ByteRecord → Bytes
  record_lines i [] fields = []
  record_lines i (header ∷ headers) [] = []
  record_lines i (header ∷ headers) (field ∷ fields) =
      (if a.rconfig.no_headers then decimal i else header)
      ++ (b'\t'
          ∷ (condense u field a.flag_condense ++ (b'\n' ∷ record_lines (i + 1) headers fields)))

  module _ (w : Plain) (t : Takes w) where
    write_fields-lines :
        (i : ℕ) (headers fields : ByteRecord)
        → Prints (write_fields u w a i headers fields) (record_lines i headers fields)
    unfolding write_fields
    write_fields-lines i [] fields = Prints-nothing
    write_fields-lines i (header ∷ headers) [] = Prints-nothing
    write_fields-lines i (header ∷ headers) (field ∷ fields) =
        let rest = write_fields-lines (i + 1) headers fields in
        let newline = Prints-then _ _ (write_all-Takes w t (b'\n' ∷ [])) rest in
        let shown =
          Prints-then _ _ (write_all-Takes w t (condense u field a.flag_condense)) newline in
        let tab = Prints-then _ _ (write_all-Takes w t (b'\t' ∷ [])) shown in
        Prints-then _ _ (write_all-Takes w t (if a.rconfig.no_headers then decimal i else header))
          tab

    separates :
        (sep : List ℕ)
        → Prints
            (if not (is_empty sep) then write_all w (as_bytes sep ++ b'\n' ∷ []) else pure tt)
            (separator_line sep)
    separates [] = Prints-nothing
    separates (c ∷ cs) = write_all-Takes w t (as_bytes (c ∷ cs) ++ b'\n' ∷ [])

    -- Each further record stands behind a separator.
    abbrev further : ByteRecord → List ByteRecord → Bytes
    further headers [] = []
    further headers (r ∷ rows) =
        separator_line a.flag_separator ++ (record_lines 0 headers r ++ further headers rows)

    write_records-further :
        (headers : ByteRecord) (rows : List ByteRecord)
        → Prints (write_records u w a headers false (all_ok rows)) (further headers rows)
    unfolding write_records
    write_records-further headers [] = Prints-nothing
    write_records-further headers (r ∷ rows) =
        Prints-then _ _ (separates a.flag_separator)
          (Prints-then _ _ (write_fields-lines 0 headers r) (write_records-further headers rows))

    further-joined :
        (headers r : ByteRecord) (rows : List ByteRecord)
        → record_lines 0 headers r ++ further headers rows
          ≡ joined (separator_line a.flag_separator) (map (record_lines 0 headers) (r ∷ rows))
    further-joined headers r [] = append-nil (record_lines 0 headers r)
    further-joined headers r (q ∷ rows) =
        ap (λ x. record_lines 0 headers r ++ (separator_line a.flag_separator ++ x))
          (further-joined headers q rows)

    write_records-joined :
        (headers : ByteRecord) (rows : List ByteRecord)
        → Prints
            (write_records u w a headers true (all_ok rows))
            (joined (separator_line a.flag_separator) (map (record_lines 0 headers) rows))
    unfolding write_records
    write_records-joined headers [] out = Prints-nothing out
    write_records-joined headers (r ∷ rows) out =
        Prints-then _ _ (write_fields-lines 0 headers r) (write_records-further headers rows) out
        ∙ ap (λ x. (ok tt, out ++ x)) (further-joined headers r rows)

-- From an input that opens and reads without errors, and into a writer that takes everything,
-- `flatten` prints the records in order with the separator line between each two of them and none
-- before the first or behind the last; the lines of a record pair the columns with their fields,
-- labelled by the header, or by the column's number from 0 on if there are no headers, and each field
-- is condensed. An empty separator is no line.
pub run-joined :
    (u : Unicode) (w : Plain) (p : Platform) (a : Args) (rdr : Reader) (headers : ByteRecord)
    (rows : List ByteRecord) (out : Bytes)
    → Takes w
    → reader p a.rconfig ≡ ok rdr
    → rdr.headers ≡ ok headers
    → rdr.records ≡ all_ok rows
    → run u w p a out ≡ (
      ok tt,
      out ++ joined (separator_line a.flag_separator) (map (record_lines u a 0 headers) rows),
    )
unfolding run
run-joined u w p a rdr headers rows out t opens has reads = rw (
  opens,
  has,
  reads,
  write_records-joined u a w t headers rows out,
  flush_all-Takes w t
      (out ++ joined (separator_line a.flag_separator) (map (record_lines u a 0 headers) rows)),
)

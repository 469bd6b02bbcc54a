-- ===== src/Tests/Select.antt =====
-- Runs and witnesses for src/select.rs.
use xsv.Prelude.{
  ◌<◌, ◌≡◌, ◌≢◌, refl, ◌↔◌, true, false, [], ◌∷◌, some, List, map, All, length, get_elem?, take,
  arith,
}
use xsv.Prelude.Results.{ok, err}
use xsv.Prelude.Literal.{codes}
use xsv.Prelude.Bytes.{as_bytes, contains}
use xsv.Prelude.Sort.{sort_by}
use xsv.Error.{Bytes, Text, ByteRecord, out_of_fuel, unclosed_quote}
use xsv.Select.{start, end, index, indexed_name, one, range, SelectColumns}
use xsv.Select.Number.{usize_from_str}
use xsv.Select.Syntax.{
  Written, alone, from_to, number, bare_at, open_end, quoted, write_columns, selector_of, IsWritten,
}
use xsv.Select.Parser.{parse, parse_columns}
use xsv.Select.Parser.Total.{parse_columns-ne_out_of_fuel}
use xsv.Select.Parser.RoundTrip.{parse_columns-write_columns}
use xsv.Select.Resolve.{index_of, selection}
use xsv.Select.Resolve.Index.{occurrences, index_of-indexed_name, index_of-lt-length}
use xsv.Select.Resolve.Columns.{Inverts, selection-Inverts}
use xsv.Select.Resolve.Fits.{selection-select}
use xsv.Select.Row.{select, normal, is_set}
use xsv.Select.Row.Normal.{is_set-normal}

abbrev header : ByteRecord
header = codes "h1" ∷ codes "h2" ∷ codes "h1" ∷ []

abbrev two_ranges : SelectColumns
two_ranges = record {
  selectors = range (index 3) (index 1) ∷ one (indexed_name (codes "h1") 1) ∷ range start end ∷ [];
  invert = true;
}

-- The text `!3-1,h1[1],-,"a ""b"" c"`.
abbrev four_selectors : List Written
four_selectors =
    from_to (number 3) (number 1)
    ∷ alone (bare_at (codes "h1") 1)
    ∷ from_to open_end open_end
    ∷ alone (quoted (codes "a \"b\" c"))
    ∷ []

parse_run : parse_columns (codes "!3-1,h1[1],-") ≡ ok two_ranges
unfolding parse_columns parse usize_from_str
parse_run = refl

parse_unclosed : parse_columns (codes "\"h1") ≡ err unclosed_quote
unfolding parse_columns parse
parse_unclosed = refl

-- A doubled quote stays doubled, and a quoted number is still an index.
parse_quotes :
    parse_columns (codes "\"a\"\"b\",\"2\"")
    ≡ ok (record {
      selectors = one (indexed_name (codes "a\"\"b") 0) ∷ one (index 2) ∷ [];
      invert = false;
    })
unfolding parse_columns parse usize_from_str
parse_quotes = refl

selection_run :
    selection (record { selectors = range (index 3) (index 2) ∷ []; invert = false }) header true
    ≡ ok (2 ∷ 1 ∷ [])
unfolding selection
selection_run = refl

normal_run : normal (2 ∷ 0 ∷ 2 ∷ []) ≡ true ∷ false ∷ true ∷ []
unfolding normal sort_by
normal_run = refl

four_selectors-IsWritten : All IsWritten four_selectors
four_selectors-IsWritten =
    ((omega arith, omega arith), (((refl, (refl, (refl, tt))), omega arith), ((tt, tt), (tt, tt))))

parse_columns-ne_out_of_fuel_example : parse_columns (codes "\"h1") ≢ err out_of_fuel
parse_columns-ne_out_of_fuel_example = parse_columns-ne_out_of_fuel (codes "\"h1")

parse_columns-write_columns_example :
    parse_columns (write_columns true false four_selectors)
    ≡ ok (record { selectors = map selector_of four_selectors; invert = true })
parse_columns-write_columns_example =
    parse_columns-write_columns true false four_selectors four_selectors-IsWritten refl

quotes_stay_doubled :
    parse_columns (codes "\"a \"\"b\"")
    ≡ ok (record { selectors = one (indexed_name (codes "a \"\"b") 0) ∷ []; invert = false })
unfolding parse_columns parse usize_from_str
quotes_stay_doubled = refl

index_of-indexed_name_example : (index_of (indexed_name (codes "h1") 1) header true ≡ ok 2) ↔ (
    (get_elem? header 2 ≡ some (as_bytes (codes "h1")))
    × (occurrences (as_bytes (codes "h1")) (take 2 header) ≡ 1))
index_of-indexed_name_example = index_of-indexed_name (codes "h1") 1 header 2

abbrev absent : Text
absent = codes "h3"

index_of-end_run : index_of end header true ≡ ok 2
unfolding index_of
index_of-end_run = refl

index_of-lt-length_example : 2 < length header
index_of-lt-length_example = index_of-lt-length end header true (omega arith) index_of-end_run

indices_first : index_of (index 3) header false ≡ ok 2
unfolding index_of
indices_first = refl

indices_last : index_of start header false ≡ ok 0
unfolding index_of
indices_last = refl

abbrev third : ByteRecord
third = codes "a" ∷ codes "b" ∷ codes "c" ∷ []

selection-select_example :
    All (λ i. i < length third) (2 ∷ 1 ∷ [])
    × ((fields : List Bytes) × (select (2 ∷ 1 ∷ []) third ≡ some fields)
        × (map some fields ≡ map (get_elem? third) (2 ∷ 1 ∷ [])))
selection-select_example =
    selection-select (record { selectors = range (index 3) (index 2) ∷ []; invert = false }) header
      true (2 ∷ 1 ∷ []) third (omega arith) selection_run refl

selection-Inverts_example :
    Inverts
      (length header)
      (selection (record { selectors = one (index 2) ∷ []; invert = false }) header true)
      (selection (record { selectors = one (index 2) ∷ []; invert = true }) header true)
selection-Inverts_example = selection-Inverts (one (index 2) ∷ []) header true

is_set-normal_example : is_set (normal (2 ∷ 0 ∷ [])) 2 ≡ contains 2 (2 ∷ 0 ∷ [])
is_set-normal_example = is_set-normal (2 ∷ 0 ∷ []) 2

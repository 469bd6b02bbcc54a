-- ===== src/Cmd/Join/Values.antt =====
-- src/cmd/join.rs: `ValueIndex`, the rows of an input by the values of the selected fields, and
-- `transform`, which makes values comparable.
use xsv.Prelude.{
  ℕ, suc, ◌+◌, not, Bool, true, false, ◌||◌, List, [], ◌∷◌, ◌++◌, Option, none, some, map, any,
  get_elem?, take, if◌then◌else◌,
}
use xsv.Prelude.Bytes.{as_bytes, is_empty}
use xsv.Prelude.Dict.{nat_eq, list_eq, lookup, insert}
use xsv.Prelude.Results.{Result, ok, err}
use xsv.Error.{Text, Bytes, ByteRecord, CsvError, csv_other}
use xsv.Csv.{Rows, Reader, Output, ◌>>=◌, pure, try_csv, unwrap}
use xsv.Index.{Indexed}
use xsv.Select.Row.{select}
use xsv.Unicode.{Unicode, trim}

-- A reader of a file that can be moved: the byte positions of the records that it yields, and what it
-- yields from a position on.
pub record Seekable : Type 0 where
  pub rdr : Reader
  pub positions : List ℕ
  pub seek_to : ℕ → Result CsvError Rows

pub record ValueIndex : Type 0 where
  pub values : List (List Bytes × List ℕ)
  pub idx : Indexed
  pub num_rows : ℕ

unfoldable pub pushed : Option (List ℕ) → ℕ → List ℕ
pushed none rowi = rowi ∷ []
pushed (some rows) rowi = rows ++ rowi ∷ []

-- `match val_idx.entry(fields)`.
unfoldable pub push_row : List Bytes → ℕ → List (List Bytes × List ℕ) → List (List Bytes × List ℕ)
unfolding pushed
push_row fields rowi values = insert fields (pushed (lookup fields values) rowi) values

unfoldable pub index_row :
    Bool → List Bytes → ℕ → List (List Bytes × List ℕ) → List (List Bytes × List ℕ)
index_row nulls fields rowi values =
    if nulls || not (any is_empty fields) then push_row fields rowi values else values

-- The rows that the loop reads: behind the headers, or from the beginning of the file.
unfoldable pub input_rows : Seekable → Result CsvError Rows
input_rows rdr =
    if rdr.rdr.has_headers
    then (elim rdr.rdr.headers [ err e ↦ err e | ok h ↦ ok rdr.rdr.records ])
    else rdr.seek_to 0

unfoldable pub position_at : Option ℕ → Result CsvError ℕ
position_at none = err (csv_other 0)
position_at (some p) = ok p

-- `row_idx`, opened as an index: the positions of the rows, behind that of the headers.
unfoldable pub row_index : Seekable → ℕ → Indexed
unfolding position_at
row_index rdr count = record {
  rdr = rdr.rdr;
  len = if rdr.rdr.has_headers then count + 1 else count;
  get = λ i. position_at (
      get_elem?
        (if rdr.rdr.has_headers then 0 ∷ take count rdr.positions else take count rdr.positions) i);
  seek_to = rdr.seek_to;
}

module _ (u : Unicode) where
  unfoldable pub normalized : Bool → Text → Bytes
  normalized false s = as_bytes (trim u s)
  normalized true s = as_bytes (map u.to_lower (trim u s))

  unfoldable pub transform : Bool → Bytes → Bytes
  unfolding normalized
  transform casei bs = elim (u.from_utf8 bs) [ none ↦ bs | some s ↦ normalized casei s ]

  -- There is no key where selecting its fields panics.
  unfoldable pub get_row_key : Bool → List ℕ → ByteRecord → Option (List Bytes)
  get_row_key casei sel row = elim (select sel row) [
    | none ↦ none
    | some fields ↦ some (map (transform casei) fields)
  ]

  -- The loop over the rows. `rowi` counts them.
  unfoldable pub index_rows :
      Bool
      → List ℕ
      → Bool
      → ℕ
      → List (List Bytes × List ℕ)
      → Rows
      → Output (List (List Bytes × List ℕ) × ℕ)
  index_rows casei sel nulls rowi values [] = pure (values, rowi)
  index_rows casei sel nulls rowi values (r ∷ rows) = do
    row ← try_csv r
    fields ← unwrap (get_row_key casei sel row)
    index_rows casei sel nulls (suc rowi) (index_row nulls fields rowi values) rows

  -- `ValueIndex::new`.
  unfoldable pub value_index : Bool → List ℕ → Bool → Seekable → Output ValueIndex
  value_index casei sel nulls rdr = do
    rows ← try_csv (input_rows rdr)
    (values, count) ← index_rows casei sel nulls 0 [] rows
    pure (record { values = values; idx = row_index rdr count; num_rows = count })

-- ===== src/Cmd/Join.antt =====
-- src/cmd/join.rs: two inputs joined on the values of selected fields.
pub mod Full
pub mod Hits
pub mod Laws
pub mod Readable
pub mod Refusals
pub mod Values
use xsv.Prelude.{
  ℕ, zero, suc, ◌+◌, not, Bool, true, false, List, [], ◌∷◌, ◌++◌, Option, none, some, length,
  replicate, set, ◌==◌, if◌then◌else◌,
}
use xsv.Prelude.Dict.{nat_eq, list_eq, lookup}
use xsv.Prelude.Results.{Result, ok, err}
use xsv.Error.{
  Text, CliResult, IoError, Bytes, ByteRecord, CsvError, Message, selection_lengths_differ,
  pick_one_join,
}
use xsv.Csv.{
  Rows, Reader, Sink, Output, ◌>>=◌, ◌>>◌, pure, try_csv, try_cli, try_text, unwrap, write_record,
}
use xsv.Select.{SelectColumns}
use xsv.Config.{Config, config_selection, new_config, with_delimiter, with_no_headers, with_select}
use xsv.Index.{Indexed, seek}
use xsv.Csv.Plain.{try_io}
use xsv.Unicode.{Unicode}
use xsv.Cmd.Join.Values.{Seekable, ValueIndex, get_row_key, value_index, input_rows}

pub record Args : Type 0 where
  pub arg_columns1 : SelectColumns
  pub arg_input1 : Text
  pub arg_columns2 : SelectColumns
  pub arg_input2 : Text
  pub flag_left : Bool
  pub flag_right : Bool
  pub flag_full : Bool
  pub flag_cross : Bool
  pub flag_output : Option Text
  pub flag_no_headers : Bool
  pub flag_no_case : Bool
  pub flag_nulls : Bool
  pub flag_delimiter : Option ℕ

pub record IoState : Type 0 where
  pub rdr1 : Seekable
  pub sel1 : List ℕ
  pub rdr2 : Seekable
  pub sel2 : List ℕ
  pub no_headers : Bool
  pub casei : Bool
  pub nulls : Bool

-- `Args::get_selections`.
unfoldable pub get_selections : Config → Reader → Config → Reader → Output (List ℕ × List ℕ)
get_selections rconf1 rdr1 rconf2 rdr2 = do
  headers1 ← try_csv rdr1.headers
  headers2 ← try_csv rdr2.headers
  select1 ← try_text (config_selection rconf1 headers1)
  select2 ← try_text (config_selection rconf2 headers2)
  if length select1 == length select2
      then pure (select1, select2)
      else try_text (err (selection_lengths_differ (length select1) (length select2)))

-- `read_byte_record`, which leaves an empty record at the end of the data.
unfoldable pub read_first : Rows → Result CsvError ByteRecord
read_first [] = ok []
read_first (r ∷ rows) = r

-- The row number `rowi` of the indexed input.
unfoldable pub fetch : Indexed → ℕ → Output ByteRecord
fetch idx rowi = do rows ← try_cli (seek idx rowi); try_csv (read_first rows)

-- `get_padding`.
unfoldable pub get_padding : IoState → Output (ByteRecord × ByteRecord)
get_padding st = do
  headers1 ← try_csv st.rdr1.rdr.headers
  headers2 ← try_csv st.rdr2.rdr.headers
  pure (replicate (length headers1) [], replicate (length headers2) [])

abbrev pub beside : Bool → ByteRecord → ByteRecord → ByteRecord
beside right row other = if right then other ++ row else row ++ other

abbrev pub swap : IoState → IoState
swap st = record st { rdr1 = st.rdr2; sel1 = st.sel2; rdr2 = st.rdr1; sel2 = st.sel1 }

-- `rdr2_written` is threaded through the loops.
abbrev pub mark : List ℕ → List Bool → List Bool
mark [] written = written
mark (rowi ∷ rows) written = mark rows (set written rowi true)

-- The second input from its beginning, without its headers.
unfoldable pub skip_headers : Bool → Rows → Result CsvError Rows
skip_headers false rows = ok rows
skip_headers true [] = ok []
skip_headers true (err e ∷ rows) = err e
skip_headers true (ok r ∷ rows) = ok rows

module _ (w : Sink) where
  unfoldable pub write_headers : IoState → Output (Unit {0})
  write_headers st =
      if not st.no_headers
      then (do
        headers1 ← try_csv st.rdr1.rdr.headers
        headers2 ← try_csv st.rdr2.rdr.headers
        write_record w (headers1 ++ headers2))
      else pure tt

  -- The loop over the rows that a key hits.
  unfoldable pub write_hits : Indexed → (ByteRecord → ByteRecord) → List ℕ → Output (Unit {0})
  write_hits idx combined [] = pure tt
  write_hits idx combined (rowi ∷ rows) = do
    scratch ← fetch idx rowi
    write_record w (combined scratch)
    write_hits idx combined rows

  unfoldable pub inner_row : ValueIndex → ByteRecord → Option (List ℕ) → Output (Unit {0})
  inner_row validx row none = pure tt
  inner_row validx row (some rows) = write_hits validx.idx (λ scratch. row ++ scratch) rows

  unfoldable pub outer_row :
      Bool → ByteRecord → ValueIndex → ByteRecord → Option (List ℕ) → Output (Unit {0})
  outer_row right pad2 validx row none = write_record w (beside right row pad2)
  outer_row right pad2 validx row (some rows) = write_hits validx.idx (beside right row) rows

  unfoldable pub full_row :
      ByteRecord → ValueIndex → ByteRecord → Option (List ℕ) → List Bool → Output (List Bool)
  full_row pad2 validx row none written = do write_record w (row ++ pad2); pure written
  full_row pad2 validx row (some rows) written = do
    write_hits validx.idx (λ scratch. row ++ scratch) rows
    pure (mark rows written)

  -- The second loop, from row `i` on.
  unfoldable pub rest_rows : ByteRecord → Indexed → ℕ → List Bool → Output (Unit {0})
  rest_rows pad1 idx i [] = pure tt
  rest_rows pad1 idx i (true ∷ written) = rest_rows pad1 idx (i + 1) written
  rest_rows pad1 idx i (false ∷ written) = do
    scratch ← fetch idx i
    write_record w (pad1 ++ scratch)
    rest_rows pad1 idx (i + 1) written

  unfoldable pub write_beside : ByteRecord → Rows → Output (Unit {0})
  write_beside row1 [] = pure tt
  write_beside row1 (r ∷ rows) = do
    row2 ← try_csv r
    write_record w (row1 ++ row2)
    write_beside row1 rows

  unfoldable pub cross_rows : Seekable → Rows → Output (Unit {0})
  cross_rows rdr2 [] = pure tt
  cross_rows rdr2 (r ∷ rows) = do
    row1 ← try_csv r
    all2 ← try_csv (rdr2.seek_to 0)
    rows2 ← try_csv (skip_headers rdr2.rdr.has_headers all2)
    write_beside row1 rows2
    cross_rows rdr2 rows

  unfoldable pub cross_join : IoState → Output (Unit {0})
  cross_join st = cross_rows st.rdr2 st.rdr1.rdr.records

module _ (u : Unicode) (w : Sink) where
  unfoldable pub inner_rows : IoState → ValueIndex → Rows → Output (Unit {0})
  inner_rows st validx [] = pure tt
  inner_rows st validx (r ∷ rows) = do
    row ← try_csv r
    key ← unwrap (get_row_key u st.casei st.sel1 row)
    inner_row w validx row (lookup key validx.values)
    inner_rows st validx rows

  unfoldable pub inner_join : IoState → Output (Unit {0})
  inner_join st = do
    validx ← value_index u st.casei st.sel2 st.nulls st.rdr2
    inner_rows st validx st.rdr1.rdr.records

  unfoldable pub outer_rows : Bool → IoState → ByteRecord → ValueIndex → Rows → Output (Unit {0})
  outer_rows right st pad2 validx [] = pure tt
  outer_rows right st pad2 validx (r ∷ rows) = do
    row ← try_csv r
    key ← unwrap (get_row_key u st.casei st.sel1 row)
    outer_row w right pad2 validx row (lookup key validx.values)
    outer_rows right st pad2 validx rows

  -- `outer_join`, behind the swap.
  unfoldable pub outer_from : Bool → IoState → Output (Unit {0})
  outer_from right st = do
    pads ← get_padding st
    validx ← value_index u st.casei st.sel2 st.nulls st.rdr2
    outer_rows right st pads.1 validx st.rdr1.rdr.records

  unfoldable pub outer_join : Bool → IoState → Output (Unit {0})
  unfolding outer_from
  outer_join right st = outer_from right (if right then swap st else st)

  unfoldable pub full_rows :
      IoState → ByteRecord → ValueIndex → List Bool → Rows → Output (List Bool)
  full_rows st pad2 validx written [] = pure written
  full_rows st pad2 validx written (r ∷ rows) = do
    row ← try_csv r
    key ← unwrap (get_row_key u st.casei st.sel1 row)
    written' ← full_row w pad2 validx row (lookup key validx.values) written
    full_rows st pad2 validx written' rows

  unfoldable pub full_outer_join : IoState → Output (Unit {0})
  full_outer_join st = do
    pads ← get_padding st
    validx ← value_index u st.casei st.sel2 st.nulls st.rdr2
    written ← full_rows st pads.1 validx (replicate validx.num_rows false) st.rdr1.rdr.records
    rest_rows w pads.0 validx.idx 0 written

  -- The match on the flags for the left, right, full and cross joins.
  unfoldable pub joined : Bool → Bool → Bool → Bool → IoState → Output (Unit {0})
  joined true false false false st = write_headers w st >> outer_join false st
  joined false true false false st = write_headers w st >> outer_join true st
  joined false false true false st = write_headers w st >> full_outer_join st
  joined false false false true st = write_headers w st >> cross_join w st
  joined false false false false st = write_headers w st >> inner_join st
  joined left right full cross st = try_text (err pick_one_join)

-- `is_tsv` and `toggle` are the parameters of `Config::new` and `Config::no_headers`; `reader_file`
-- opens an input, and `open_writer` the output.
module _ (is_tsv : Text → Bool) (toggle : Bool) (reader_file : Config → CliResult Seekable)
    (open_writer : Config → Result IoError Sink) where
  unfoldable pub rconf : Text → SelectColumns → Args → Config
  rconf input columns a = with_select columns (
      with_no_headers toggle a.flag_no_headers
        (with_delimiter a.flag_delimiter (new_config is_tsv (some input))))

  -- The writer, which is a field of `IoState` in the source, stands beside it.
  unfoldable pub new_io_state : Args → Output (IoState × Sink)
  unfolding rconf
  new_io_state a = do
    rdr1 ← try_cli (reader_file (rconf a.arg_input1 a.arg_columns1 a))
    rdr2 ← try_cli (reader_file (rconf a.arg_input2 a.arg_columns2 a))
    sels ←
        get_selections (rconf a.arg_input1 a.arg_columns1 a) rdr1.rdr
          (rconf a.arg_input2 a.arg_columns2 a) rdr2.rdr
    wtr ← try_io (open_writer (new_config is_tsv a.flag_output))
    pure (
      record {
        rdr1 = rdr1;
        sel1 = sels.0;
        rdr2 = rdr2;
        sel2 = sels.1;
        no_headers = (rconf a.arg_input1 a.arg_columns1 a).no_headers;
        casei = a.flag_no_case;
        nulls = a.flag_nulls;
      },
      wtr,
    )

  unfoldable pub run : Unicode → Args → Output (Unit {0})
  run u a = do
    (st, w) ← new_io_state a
    joined u w a.flag_left a.flag_right a.flag_full a.flag_cross st

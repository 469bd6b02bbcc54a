-- ===== src/Cmd/Stats/Command.antt =====
-- src/cmd/stats.rs: the columns of the data, one after the other, and the records that are written.
pub mod Rectangular
use xsv.Prelude.{
  ℕ, zero, suc, Bool, List, [], ◌∷◌, Option, none, some, length, map, replicate, if◌then◌else◌,
}
use xsv.Prelude.Bytes.{as_bytes}
use xsv.Error.{Bytes, ByteRecord}
use xsv.Csv.{
  Rows, Reader, Sink, Run, Output, ◌>>=◌, ◌>>◌, pure, try_csv, try_text, unwrap, write_record,
  flush,
}
use xsv.Config.{Config, config_selection}
use xsv.Select.Row.{select}
use xsv.Select.Syntax.{decimal}
use xsv.Cmd.Stats.{Floats}
use xsv.Cmd.Stats.Range.{Extremes}
use xsv.Cmd.Stats.Column.{
  Summaries, Flags, which_of, stat_headers, Column, new_column, add_sample, to_record,
}

-- The configuration stands for the flags that it is made of.
pub record Args : Type 0 where
  pub rconfig : Config
  pub flags : Flags
  pub flag_no_headers : Bool
  pub flag_jobs : ℕ

unfoldable pub stats_sel_headers : {S : Type 0} → Config → Reader → Run S (ByteRecord × List ℕ)
stats_sel_headers rconfig rdr = do
  headers ← try_csv rdr.headers
  sel ← try_text (config_selection rconfig headers)
  names ← unwrap (select sel headers)
  pure (names, sel)

module _ (n : Floats) (m : Extremes n) (q : Summaries n) where
  unfoldable pub new_columns : Flags → ℕ → List (Column n m q)
  new_columns flags record_len = replicate record_len (new_column n m q (which_of flags))

  -- The inner loop; there is no result where the source panics, also where a record has more fields
  -- than there are columns.
  unfoldable pub add_record : List (Column n m q) → List Bytes → Option (List (Column n m q))
  add_record columns [] = some columns
  add_record [] (f ∷ fields) = none
  add_record (c ∷ columns) (f ∷ fields) = elim (add_sample n m q c f) [
    | none ↦ none
    | some c' ↦ elim (add_record columns fields) [ none ↦ none | some rest ↦ some (c' ∷ rest) ]
  ]

  unfoldable pub add_records :
      {S : Type 0} → List ℕ → List (Column n m q) → Rows → Run S (List (Column n m q))
  add_records sel columns [] = pure columns
  add_records sel columns (r ∷ rows) = do
    row ← try_csv r
    fields ← unwrap (select sel row)
    columns' ← unwrap (add_record columns fields)
    add_records sel columns' rows

  -- `Args::compute`.
  unfoldable pub compute_columns :
      {S : Type 0} → Flags → List ℕ → Rows → Run S (List (Column n m q))
  compute_columns flags sel rows = add_records sel (new_columns flags (length sel)) rows

  unfoldable pub sequential_stats :
      {S : Type 0} → Args → Reader → Run S (ByteRecord × List (Column n m q))
  sequential_stats a rdr = do
    (headers, sel) ← stats_sel_headers a.rconfig rdr
    columns ← compute_columns a.flags sel rdr.records
    pure (headers, columns)

  -- The loop of `run`, from column `i` on.
  unfoldable pub write_stats :
      Bool → Sink → ℕ → List Bytes → List (Column n m q) → Output (Unit {0})
  write_stats no_headers w i [] columns = pure tt
  write_stats no_headers w i (h ∷ headers) [] = pure tt
  write_stats no_headers w i (h ∷ headers) (c ∷ columns) = do
    write_record w
        ((if no_headers then as_bytes (decimal i) else h) ∷ map as_bytes (to_record n m q c))
    write_stats no_headers w (suc i) headers columns

-- ===== src/Cmd/Frequency.antt =====
-- src/cmd/frequency.rs: how often each value stands in each selected column.
pub mod Agree
pub mod Counting
pub mod Merge
pub mod Report
pub mod Tables
use xsv.Prelude.{
  ℕ, zero, suc, ◌+◌, ◌*◌, not, Bool, true, false, ◌&&◌, List, [], ◌∷◌, Option, none, some, length,
  take, get_elem?, set, replicate, map, ltb, ◌==◌, if◌then◌else◌,
}
use xsv.Prelude.Bytes.{as_bytes, is_empty}
use xsv.Prelude.Results.{Result, ok, err}
use xsv.Error.{Bytes, ByteRecord, CliResult}
use xsv.Csv.{
  Rows, Reader, Sink, Run, Stop, Output, ◌>>=◌, ◌>>◌, pure, try_csv, try_text, unwrap, write_record,
}
use xsv.Config.{Config, config_selection}
use xsv.Index.{Indexed, count, seek}
use xsv.Select.Row.{select, normal, normal_select, normal_len}
use xsv.Select.Syntax.{decimal}
use xsv.Unicode.{Unicode, trim}
use xsv.Util.{chunk_size, num_of_chunks}

-- What the stats crate offers: tables of frequencies, and `merge_all` over vectors of them.
pub record Frequencies (F : Type 0) : Type 0 where
  pub new : F
  pub add : Bytes → F → F
  pub merge_all : List (List F) → Option (List F)
  pub most_frequent : F → List (Bytes × ℕ)
  pub least_frequent : F → List (Bytes × ℕ)

-- The configuration stands for the flags that it is made of.
pub record Args : Type 0 where
  pub rconfig : Config
  pub flag_limit : ℕ
  pub flag_asc : Bool
  pub flag_no_nulls : Bool
  pub flag_jobs : ℕ

unfoldable pub njobs : Args → ℕ → ℕ
njobs a num_cpus = if a.flag_jobs == 0 then num_cpus else a.flag_jobs

-- `trim`.
unfoldable pub trimmed : Unicode → Bytes → Bytes
trimmed u bs = elim (u.from_utf8 bs) [ none ↦ bs | some s ↦ as_bytes (trim u s) ]

-- A panic where a header that the selection names is missing.
unfoldable pub sel_headers : {S : Type 0} → Config → Reader → Run S (ByteRecord × List ℕ)
sel_headers rconfig rdr = do
  headers ← try_csv rdr.headers
  sel ← try_text (config_selection rconfig headers)
  names ← unwrap (select sel headers)
  pure (names, sel)

abbrev pub value_of : {A : Type 0} → Result Stop A × Unit {0} → Option A
value_of (ok a, s) = some a
value_of (err e, s) = none

-- An empty value is written as `(NULL)`.
unfoldable pub null_name : Bytes × ℕ → Bytes × ℕ
null_name ([], c) = (b'(' ∷ b'N' ∷ b'U' ∷ b'L' ∷ b'L' ∷ b')' ∷ [], c)
null_name (b ∷ bs, c) = (b ∷ bs, c)

abbrev pub heading : ByteRecord
heading =
    (b'f' ∷ b'i' ∷ b'e' ∷ b'l' ∷ b'd' ∷ [])
    ∷ (b'v' ∷ b'a' ∷ b'l' ∷ b'u' ∷ b'e' ∷ [])
    ∷ (b'c' ∷ b'o' ∷ b'u' ∷ b'n' ∷ b't' ∷ [])
    ∷ []

-- The tables that are received, in the order in which the workers of the chunks get to send.
unfoldable pub received : {F : Type 0} → (ℕ → Option (List F)) → List ℕ → List (List F)
received work [] = []
received work (i ∷ order) = elim (work i) [
  | none ↦ received work order
  | some tabs ↦ tabs ∷ received work order
]

module _ {F : Type 0} (fs : Frequencies F) where
  unfoldable pub counts : Args → F → List (Bytes × ℕ)
  counts a t =
      let all = if a.flag_asc then fs.least_frequent t else fs.most_frequent t in
      map null_name (if ltb 0 a.flag_limit then take a.flag_limit all else all)

  -- `tabs[i].add(field)`, a panic out of range.
  unfoldable pub add_at : ℕ → Bytes → List F → Option (List F)
  add_at i field tabs = elim (get_elem? tabs i) [
    | none ↦ none
    | some t ↦ some (set tabs i (fs.add field t))
  ]

  module _ (u : Unicode) where
    -- The body of the inner loop.
    unfoldable pub add_field : Bool → ℕ → Bytes → List F → Option (List F)
    add_field no_nulls i field tabs =
        if not (is_empty (trimmed u field))
        then add_at i (trimmed u field) tabs
        else if not no_nulls
        then add_at i [] tabs
        else some tabs

    -- The inner loop, from field `i` on.
    unfoldable pub add_fields : Bool → ℕ → List Bytes → List F → Option (List F)
    add_fields no_nulls i [] tabs = some tabs
    add_fields no_nulls i (f ∷ fields) tabs = elim (add_field no_nulls i f tabs) [
      | none ↦ none
      | some tabs' ↦ add_fields no_nulls (suc i) fields tabs'
    ]

    unfoldable pub add_rows : {S : Type 0} → Bool → List Bool → Rows → List F → Run S (List F)
    add_rows no_nulls nsel [] tabs = pure tabs
    add_rows no_nulls nsel (r ∷ rows) tabs = do
      row ← try_csv r
      tabs' ← unwrap (add_fields no_nulls 0 (normal_select nsel row) tabs)
      add_rows no_nulls nsel rows tabs'

    unfoldable pub ftables : {S : Type 0} → Bool → List ℕ → Rows → Run S (List F)
    ftables no_nulls sel rows =
        add_rows no_nulls (normal sel) rows (replicate (normal_len (normal sel)) fs.new)

    unfoldable pub sequential_ftables : {S : Type 0} → Args → Reader → Run S (ByteRecord × List F)
    sequential_ftables a rdr = do
      (headers, sel) ← sel_headers a.rconfig rdr
      tabs ← ftables a.flag_no_nulls sel rdr.records
      pure (headers, tabs)

    unfoldable pub worker_rows : Bool → List ℕ → ℕ → CliResult Rows → Option (List F)
    worker_rows no_nulls sel size (err e) = none
    worker_rows no_nulls sel size (ok rows) = value_of (ftables no_nulls sel (take size rows) tt)

    -- What the worker of chunk `i` sends. Where it unwraps an error it panics and sends nothing.
    unfoldable pub worker : Bool → List ℕ → Indexed → ℕ → ℕ → Option (List F)
    unfolding worker_rows
    worker no_nulls sel idx size i = worker_rows no_nulls sel size (seek idx (i * size))

    -- `order` is the order of the chunks, given their number.
    unfoldable pub parallel_ftables :
        {S : Type 0} → Args → Reader → Indexed → ℕ → (ℕ → List ℕ) → Run S (ByteRecord × List F)
    parallel_ftables a rdr idx jobs order = do
      (headers, sel) ← sel_headers a.rconfig rdr
      let size = chunk_size (count idx) jobs
      let work = worker a.flag_no_nulls sel idx size
      if count idx == 0 then pure (headers, []) else (do
        tabs ← unwrap (fs.merge_all (received work (order (num_of_chunks (count idx) size))))
        pure (headers, tabs))

  -- The records of the table of one column. Digits are their own encoding.
  unfoldable pub write_counts : Sink → Bytes → List (Bytes × ℕ) → Output (Unit {0})
  write_counts w header [] = pure tt
  write_counts w header ((value, n) ∷ rest) = do
    write_record w (header ∷ value ∷ decimal n ∷ [])
    write_counts w header rest

  -- The loop over the headers and tables, from number `i` on.
  unfoldable pub write_tables : Args → Sink → ℕ → List Bytes → List F → Output (Unit {0})
  write_tables a w i [] tables = pure tt
  write_tables a w i (h ∷ headers) [] = pure tt
  write_tables a w i (h ∷ headers) (t ∷ tables) = do
    write_counts w (if a.rconfig.no_headers then decimal (i + 1) else h) (counts a t)
    write_tables a w (suc i) headers tables

  unfoldable pub choose_ftables :
      Unicode → Args → ℕ → (ℕ → List ℕ) → Reader → Option Indexed → Output (ByteRecord × List F)
  choose_ftables u a num_cpus order rdr none = sequential_ftables u a rdr
  choose_ftables u a num_cpus order rdr (some idx) =
      if ltb 1 (njobs a num_cpus)
      then parallel_ftables u a rdr idx (njobs a num_cpus) order
      else sequential_ftables u a rdr

  -- `run`, with the reader and, if there is one, the index of the input.
  unfoldable pub run :
      Unicode → Args → ℕ → (ℕ → List ℕ) → Reader → Option Indexed → Sink → Output (Unit {0})
  unfolding choose_ftables
  run u a num_cpus order rdr idx w = do
    (headers, tables) ← choose_ftables u a num_cpus order rdr idx
    write_record w heading
    write_tables a w 0 headers tables

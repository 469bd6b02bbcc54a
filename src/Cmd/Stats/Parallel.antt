-- ===== src/Cmd/Stats/Parallel.antt =====
-- src/cmd/stats.rs: the statistics of the chunks of the data, merged, and the whole command.
pub mod Agree
pub mod Chunks
pub mod Cover
pub mod Rectangular
pub mod Report
use xsv.Prelude.{
  ℕ, ◌*◌, Bool, true, false, ◌&&◌, List, [], ◌∷◌, Option, none, some, map, take, ◌==◌,
  if◌then◌else◌,
}
use xsv.Prelude.Bytes.{as_bytes}
use xsv.Prelude.Results.{ok, err}
use xsv.Error.{ByteRecord, CliResult}
use xsv.Csv.{Rows, Reader, Sink, Run, Output, ◌>>=◌, ◌>>◌, pure, unwrap, write_record, flush}
use xsv.Index.{Indexed, count, seek}
use xsv.Util.{chunk_size, num_of_chunks}
use xsv.Cmd.Frequency.{value_of, received}
use xsv.Cmd.Stats.{Floats, merge, sum_merge}
use xsv.Cmd.Stats.Range.{Extremes, minmax_merge}
use xsv.Cmd.Stats.Column.{Summaries, Flags, WhichStats, stat_headers, Column}
use xsv.Cmd.Stats.Command.{Args, stats_sel_headers, compute_columns, sequential_stats, write_stats}

-- How the stats crate merges: its summaries, options of what merges, and a stream of vectors of it.
-- `merge_all` gives nothing where merging panics, and `some none` for an empty stream.
pub record Merging {n : Floats} (q : Summaries n) : Type 1 where
  pub join_online : q.Online → q.Online → q.Online
  pub join_values : q.Values → q.Values → q.Values
  pub join_numbers : q.Numbers → q.Numbers → q.Numbers
  pub join_option : {A : Type 0} → (A → A → A) → Option A → Option A → Option A
  pub merge_all : {A : Type 0} → (A → A → Option A) → List (List A) → Option (Option (List A))

unfoldable pub same : Bool → Bool → Bool
same true b = b
same false true = false
same false false = true

-- `PartialEq for WhichStats`.
unfoldable pub which_eq : WhichStats → WhichStats → Bool
unfolding same
which_eq s t =
    same s.include_nulls t.include_nulls
    && (same s.sum t.sum
        && (same s.range t.range
            && (same s.dist t.dist
                && (same s.cardinality t.cardinality
                    && (same s.median t.median && same s.mode t.mode)))))

unfoldable pub njobs : Args → ℕ → ℕ
njobs a num_cpus = if a.flag_jobs == 0 then num_cpus else a.flag_jobs

unfoldable pub or_empty : {A : Type 0} → Option (List A) → List A
or_empty none = []
or_empty (some xs) = xs

module _ (n : Floats) (m : Extremes n) (q : Summaries n) (j : Merging q) where
  abbrev pub joined_column : Column n m q → Column n m q → Column n m q
  joined_column s t = record {
    typ = merge s.typ t.typ;
    sum = j.join_option (sum_merge n) s.sum t.sum;
    minmax = j.join_option (minmax_merge n m) s.minmax t.minmax;
    online = j.join_option j.join_online s.online t.online;
    mode = j.join_option j.join_values s.mode t.mode;
    median = j.join_option j.join_numbers s.median t.median;
    which = s.which;
  }

  -- `Commute for Stats`; columns of different settings make it panic.
  unfoldable pub column_merge : Column n m q → Column n m q → Option (Column n m q)
  column_merge s t = if which_eq s.which t.which then some (joined_column s t) else none

  unfoldable pub worker_columns : Flags → List ℕ → ℕ → CliResult Rows → Option (List (Column n m q))
  worker_columns flags sel size (err e) = none
  worker_columns flags sel size (ok rows) =
      value_of (compute_columns n m q flags sel (take size rows) tt)

  -- What the worker of chunk `i` sends. Where it unwraps an error it panics and sends nothing.
  unfoldable pub chunk_columns : Flags → List ℕ → Indexed → ℕ → ℕ → Option (List (Column n m q))
  unfolding worker_columns
  chunk_columns flags sel idx size i = worker_columns flags sel size (seek idx (i * size))

  -- `order` is the order in which the chunks arrive, given their number.
  unfoldable pub parallel_stats :
      {S : Type 0}
      → Args
      → ℕ
      → (ℕ → List ℕ)
      → Reader
      → Indexed
      → Run S (ByteRecord × List (Column n m q))
  parallel_stats a jobs order rdr idx = if count idx == 0 then sequential_stats n m q a rdr else (do
    (headers, sel) ← stats_sel_headers a.rconfig rdr
    let size = chunk_size (count idx) jobs
    let sent =
        received (chunk_columns a.flags sel idx size) (order (num_of_chunks (count idx) size))
    merged ← unwrap (j.merge_all column_merge sent)
    pure (headers, or_empty merged))

  -- The match on the index.
  unfoldable pub choose_stats :
      {S : Type 0}
      → Args
      → ℕ
      → (ℕ → List ℕ)
      → Reader
      → Option Indexed
      → Run S (ByteRecord × List (Column n m q))
  choose_stats a num_cpus order rdr none = sequential_stats n m q a rdr
  choose_stats a num_cpus order rdr (some idx) =
      if a.flag_jobs == 1
      then sequential_stats n m q a rdr
      else parallel_stats a (njobs a num_cpus) order rdr idx

  -- The records of the columns are made by threads, but taken in the order of the columns.
  unfoldable pub run : Args → ℕ → (ℕ → List ℕ) → Reader → Option Indexed → Sink → Output (Unit {0})
  run a num_cpus order rdr idx w = do
    (headers, columns) ← choose_stats a num_cpus order rdr idx
    write_record w (map as_bytes (stat_headers a.flags))
    write_stats n m q a.flag_no_headers w 0 headers columns
    flush w

-- ===== src/Cmd/Stats/Parallel/Report.antt =====
-- All the records that are written have the same number of fields.
use mathlib.Core.List.{Perm}
use xsv.Prelude.{
  take, ℕ, ◌≡◌, ◌<◌, sym, ap, ◌∙◌, Bool-cases, inl, inr, List, [], ◌∷◌, ◌++◌, Option, none, some,
  length, map, All, ◌==◌, arith,
}
use xsv.Prelude.Bytes.{as_bytes}
use xsv.Prelude.Results.{ok}
use xsv.Prelude.Sums.{max_of}
use xsv.Error.{ByteRecord}
use xsv.Csv.{Rows, Reader, Sink, write_record}
use xsv.Csv.Laws.{Accepts, all_ok, bind-ok, write_record-Accepts, flush-Accepts}
use xsv.Config.{config_selection}
use xsv.Index.{Indexed, IndexOf}
use xsv.Select.Resolve.{ascending}
use xsv.Select.Row.{select}
use xsv.Cmd.Stats.{Floats}
use xsv.Cmd.Stats.Range.{Extremes}
use xsv.Cmd.Stats.Sums.{ReadsIntegers}
use xsv.Cmd.Stats.Column.{Summaries, stat_headers, Column}
use xsv.Cmd.Stats.Command.{Args, stats_sel_headers, write_stats}
use xsv.Cmd.Stats.Command.Rectangular.{
  HasFields, AreColumns, select-length, stats_sel_headers-select, sequential_stats-AreColumns,
  write_stats-width, labels, selected_rank,
}
use xsv.Cmd.Stats.Parallel.{Merging, njobs, choose_stats, run}
use xsv.Cmd.Stats.Parallel.Rectangular.{IsMerging}
use xsv.Cmd.Stats.Parallel.Chunks.{parallel_stats-AreColumns}

module _ (n : Floats) (m : Extremes n) (q : Summaries n) (j : Merging q) (laws : IsMerging j)
    (reads_ints : ReadsIntegers n) where
  choose_stats-AreColumns :
      {S : Type 0} (a : Args) (num_cpus : ℕ) (order : ℕ → List ℕ) (rdr : Reader)
      (idx : Option Indexed) (all : Rows) (names : ByteRecord) (sel : List ℕ)
      (rows : List ByteRecord) (s : S)
      → stats_sel_headers a.rconfig rdr s ≡ (ok (names, sel), s)
      → rdr.records ≡ all_ok rows
      → All (HasFields sel) rows
      → IndexOf rdr all idx
      → 0 < num_cpus
      → ((k : ℕ) → Perm (order k) (ascending 0 k))
      → (columns : List (Column n m q)) × (choose_stats n m q j a num_cpus order rdr idx s
          ≡ (ok (names, columns), s))
        × AreColumns n m q reads_ints a.flags sel rows columns
  unfolding choose_stats njobs
  choose_stats-AreColumns a num_cpus order rdr none all names sel rows s selected r fits d pos p =
      sequential_stats-AreColumns n m q reads_ints a rdr names sel rows s selected r fits
  choose_stats-AreColumns a num_cpus order rdr (some idx) all names sel rows s selected r fits
        (d, of_data) pos p =
      elim (Bool-cases (a.flag_jobs == 1)) [
        | inl alone ↦
            let (columns, e, are) =
              sequential_stats-AreColumns n m q reads_ints a rdr names sel rows s selected r fits in
            (columns, rw alone e, are)
        | inr many ↦
            let (columns, e, are) =
              parallel_stats-AreColumns n m q j laws reads_ints idx all d rows
                (ap (λ x. x.records) of_data ∙ r) a rdr names sel (njobs a num_cpus) order s
                selected r fits (ground arith) p in
            (columns, rw many e, are)
      ]

  -- On data that reads without errors, with a selection that resolves, if every record has the
  -- selected columns, and into a writer that takes every record: with and without an index of the
  -- data, with any number of jobs, and in whichever order the chunks arrive, the command ends
  -- without a panic, and writes the names of the statistics and then one record for each selected
  -- column, in the order of the selection: it starts with the name of the column (its position from 0
  -- with `flag_no_headers`) and with its type, the least specific type of the selected fields. All
  -- have as many fields as there are names of statistics, for any choice of the statistics. (The text
  -- of an integer is taken to be the text of a float.)
  pub run-stat_headers :
      (w : Sink) (acc : Accepts w) (a : Args) (num_cpus : ℕ) (order : ℕ → List ℕ) (rdr : Reader)
      (idx : Option Indexed) (all : Rows) (headers names : ByteRecord) (sel : List ℕ)
      (rows out : List ByteRecord)
      → rdr.headers ≡ ok headers
      → rdr.records ≡ all_ok rows
      → config_selection a.rconfig headers ≡ ok sel
      → select sel headers ≡ some names
      → All (HasFields sel) rows
      → IndexOf rdr all idx
      → 0 < num_cpus
      → ((k : ℕ) → Perm (order k) (ascending 0 k))
      → (ls : List ByteRecord) × (run n m q j a num_cpus order rdr idx w out
          ≡ (ok tt, (out ++ map as_bytes (stat_headers a.flags) ∷ []) ++ ls))
        × (length ls ≡ length sel)
        × (map (take 2) ls
            ≡ labels a.flag_no_headers (λ i. max_of (selected_rank n sel i) rows) 0 names)
        × All (λ l. length l ≡ length (stat_headers a.flags)) ls
  unfolding run
  run-stat_headers w acc a num_cpus order rdr idx all headers names sel rows out h r k at fits d pos
        p =
      let heads = map as_bytes (stat_headers a.flags) in
      let (columns, e, (same_length, parts, ranks)) =
        choose_stats-AreColumns a num_cpus order rdr idx all names sel rows out
          (stats_sel_headers-select n m q reads_ints a rdr headers names sel out h k at) r fits d
          pos p in
      let (ls, e', count_is, starts, wide) =
        write_stats-width n m q reads_ints a.flags w acc a.flag_no_headers 0 names columns
          (out ++ heads ∷ []) (λ i. max_of (selected_rank n sel i) rows)
          (select-length sel headers names at ∙ sym same_length) ranks parts in
      (
        ls,
        bind-ok (choose_stats n m q j a num_cpus order rdr idx) _ e
            ∙ bind-ok (write_record w heads) _ (write_record-Accepts w acc heads out)
            ∙ bind-ok (write_stats n m q a.flag_no_headers w 0 names columns) _ e'
            ∙ flush-Accepts w acc ((out ++ heads ∷ []) ++ ls),
        count_is ∙ same_length,
        starts,
        wide,
      )

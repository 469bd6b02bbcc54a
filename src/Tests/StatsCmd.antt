-- ===== src/Tests/StatsCmd.antt =====
-- A run of the records of src/cmd/stats.rs.
use mathlib.Core.List.Perm
use xsv.Prelude.{
  take, Option, ◌++◌, arith, ℕ, ◌≡◌, refl, true, false, List, [], ◌∷◌, none, some, length, map, All,
}
use xsv.Prelude.Bytes.{as_bytes}
use xsv.Prelude.Literal.{codes}
use xsv.Prelude.Results.{ok}
use xsv.Prelude.Sums.{max_of}
use xsv.Error.{Bytes, ByteRecord}
use xsv.Config.{config_selection}
use xsv.Select.{one, index}
use xsv.Select.Resolve.{selection, index_of}
use xsv.Select.Row.{select}
use xsv.Cmd.Stats.Column.{Column, Summaries, stat_headers}
use xsv.Cmd.Stats.Command.{Args, sequential_stats}
use xsv.Cmd.Stats.Command.Rectangular.{HasFields, labels, selected_rank}
use xsv.Cmd.Stats.Parallel.{Merging, parallel_stats, run}
use xsv.Cmd.Stats.Parallel.Agree.{types_of, parallel_stats-sequential_stats}
use xsv.Cmd.Stats.Parallel.Rectangular.{IsMerging, found, fold_merge}
use xsv.Cmd.Stats.Parallel.Report.{run-stat_headers}
use xsv.Select.Resolve.{ascending}
use xsv.Tests.Data.{
  standard, header, rows, all_rows, reader, indexed, indexed-Describes, sink, sink-Accepts,
}
use xsv.Tests.Range.{whole, whole-ReadsIntegers, lists}

-- Everything is kept, and the last value stands for the mean, the mode and the median.
abbrev last_values : Summaries whole
last_values = record {
  Online = ℕ;
  no_online = 0;
  add_online = λ x o. x;
  add_null = λ o. o;
  mean = λ o. o;
  stddev = λ o. 0;
  Values = List Bytes;
  no_values = [];
  add_value = λ v vs. v ∷ vs;
  mode_of = λ vs. elim vs [ [] ↦ none | v ∷ rest ↦ some v ];
  cardinality_of = length;
  Numbers = List ℕ;
  no_numbers = [];
  add_number = λ x xs. x ∷ xs;
  median_of = λ xs. elim xs [ [] ↦ none | x ∷ rest ↦ some x ];
}

abbrev with_modes : Args
with_modes = record {
  rconfig = record standard {
    select_columns = some (record { selectors = one (index 1) ∷ []; invert = false });
  };
  flags = record {
    flag_everything = false;
    flag_mode = true;
    flag_cardinality = false;
    flag_median = true;
    flag_nulls = false;
  };
  flag_no_headers = false;
  flag_jobs = 2;
}

first_column : config_selection with_modes.rconfig header ≡ ok (0 ∷ [])
unfolding config_selection selection index_of
first_column = refl

its_name : select (0 ∷ []) header ≡ some (codes "name" ∷ [])
unfolding select
its_name = refl

every_name : All (HasFields (0 ∷ [])) rows
unfolding select
every_name = ((_, refl), ((_, refl), ((_, refl), tt)))

abbrev join_options : {A : Type 0} → (A → A → A) → Option A → Option A → Option A
join_options f none t = t
join_options f (some a) none = some a
join_options f (some a) (some b) = some (f a b)

abbrev merge_stream : {A : Type 0} → (A → A → Option A) → List (List A) → Option (Option (List A))
merge_stream f [] = some none
merge_stream f (xs ∷ rest) = found (fold_merge f xs rest)

abbrev merging : Merging last_values
merging = record {
  join_online = λ x y. y;
  join_values = λ xs ys. ys ++ xs;
  join_numbers = λ xs ys. ys ++ xs;
  join_option = join_options;
  merge_all = merge_stream;
}

abbrev merging-IsMerging : IsMerging merging
merging-IsMerging = record { none_joined = λ f. refl; all_merged = λ f xs rest. refl }

-- Two jobs, whose chunks arrive in their order.
run-stat_headers_example :
    (ls : List ByteRecord) × (run whole lists last_values merging with_modes 4
        (ascending 0)
        reader
        (some indexed)
        sink
        []
      ≡ (ok tt, map as_bytes (stat_headers with_modes.flags) ∷ ls))
    × (length ls ≡ 1)
    × (map (take 2) ls
        ≡ labels false (λ i. max_of (selected_rank whole (0 ∷ []) i) rows) 0 (codes "name" ∷ []))
    × All (λ l. length l ≡ length (stat_headers with_modes.flags)) ls
run-stat_headers_example =
    run-stat_headers whole lists last_values merging merging-IsMerging whole-ReadsIntegers sink
      sink-Accepts with_modes 4 (ascending 0) reader (some indexed) all_rows header
      (codes "name" ∷ []) (0 ∷ []) rows [] refl refl first_column its_name every_name
      (indexed-Describes, refl) (omega arith) (λ k. Perm.refl (ascending 0 k))

eleven : length (stat_headers with_modes.flags) ≡ 11
unfolding stat_headers
eleven = refl

parallel_stats-sequential_stats_example :
    (columns : List (Column whole lists last_values)) × (columns' : List
      (Column whole lists last_values))
    × (sequential_stats whole lists last_values with_modes reader tt
        ≡ (ok (codes "name" ∷ [], columns), tt))
    × (parallel_stats whole lists last_values merging with_modes 2 (ascending 0) reader indexed tt
        ≡ (ok (codes "name" ∷ [], columns'), tt))
    × (types_of columns' ≡ types_of columns)
parallel_stats-sequential_stats_example =
    parallel_stats-sequential_stats whole lists last_values merging merging-IsMerging
      whole-ReadsIntegers indexed all_rows with_modes reader header (codes "name" ∷ []) (0 ∷ [])
      rows 2 (ascending 0) tt indexed-Describes refl refl refl first_column its_name every_name
      (omega arith) (λ k. Perm.refl (ascending 0 k))

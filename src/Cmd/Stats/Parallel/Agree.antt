-- ===== src/Cmd/Stats/Parallel/Agree.antt =====
-- The types of the columns do not depend on the chunks.
use mathlib.Core.List.{Perm}
use xsv.Prelude.{
  ℕ, zero, suc, ◌≡◌, ◌<◌, refl, sym, ap, ◌∙◌, List, [], ◌∷◌, length, map, All, some, arith,
}
use xsv.Prelude.Results.{ok}
use xsv.Error.{ByteRecord}
use xsv.Csv.{Rows, Reader}
use xsv.Csv.Laws.{all_ok}
use xsv.Config.{config_selection}
use xsv.Index.{Indexed, Describes}
use xsv.Select.Resolve.{ascending}
use xsv.Select.Row.{select}
use xsv.Cmd.Stats.{Floats, FieldType}
use xsv.Cmd.Stats.Types.{rank_injective}
use xsv.Cmd.Stats.Range.{Extremes}
use xsv.Cmd.Stats.Sums.{ReadsIntegers}
use xsv.Cmd.Stats.Column.{Summaries, Column}
use xsv.Cmd.Stats.Command.{Args, sequential_stats}
use xsv.Cmd.Stats.Command.Rectangular.{
  HasFields, rank_at, stats_sel_headers-select, sequential_stats-AreColumns,
}
use xsv.Cmd.Stats.Parallel.{Merging, parallel_stats}
use xsv.Cmd.Stats.Parallel.Chunks.{parallel_stats-AreColumns}
use xsv.Cmd.Stats.Parallel.Rectangular.{IsMerging}

abbrev pub types_of :
    {n : Floats} {m : Extremes n} {q : Summaries n} → List (Column n m q) → List FieldType
types_of = map (λ c. c.typ)

types_of-rank_at :
    (n : Floats) (m : Extremes n) (q : Summaries n) (xs ys : List (Column n m q))
    → length xs ≡ length ys
    → ((i : ℕ) → rank_at i xs ≡ rank_at i ys)
    → types_of xs ≡ types_of ys
types_of-rank_at n m q [] [] l h = refl
types_of-rank_at n m q [] (y ∷ ys) l h = absurd (omega (arith, l))
types_of-rank_at n m q (x ∷ xs) [] l h = absurd (omega (arith, l))
types_of-rank_at n m q (x ∷ xs) (y ∷ ys) l h =
    let here : x.typ ≡ y.typ = rank_injective x.typ y.typ (h zero) in
    rw here (ap (◌∷◌ y.typ) (types_of-rank_at n m q xs ys (omega (arith, l)) (λ i. h (suc i))))

-- For an index that describes the data, on data that reads without errors, with a selection that
-- resolves, if every record has the selected columns, and with at least one job: the sequential and
-- the parallel statistics both end without a panic, with the same names of columns, and every column
-- gets the same type, in whichever order the chunks arrive. (The text of an integer is taken to be
-- the text of a float.)
pub parallel_stats-sequential_stats :
    (n : Floats) (m : Extremes n) (q : Summaries n) (j : Merging q) (laws : IsMerging j)
    (reads_ints : ReadsIntegers n) {S : Type 0} (idx : Indexed) (all : Rows) (a : Args)
    (rdr : Reader) (headers names : ByteRecord) (sel : List ℕ) (rows : List ByteRecord) (jobs : ℕ)
    (order : ℕ → List ℕ) (s : S)
    → Describes idx all
    → idx.rdr.records ≡ all_ok rows
    → rdr.headers ≡ ok headers
    → rdr.records ≡ all_ok rows
    → config_selection a.rconfig headers ≡ ok sel
    → select sel headers ≡ some names
    → All (HasFields sel) rows
    → 0 < jobs
    → ((k : ℕ) → Perm (order k) (ascending 0 k))
    → (columns : List (Column n m q)) × (columns' : List (Column n m q)) × (sequential_stats n m q a
          rdr s
        ≡ (ok (names, columns), s))
      × (parallel_stats n m q j a jobs order rdr idx s ≡ (ok (names, columns'), s))
      × (types_of columns' ≡ types_of columns)
parallel_stats-sequential_stats n m q j laws reads_ints idx all a rdr headers names sel rows jobs
      order s d reads h r k at fits pos p =
    let selected = stats_sel_headers-select n m q reads_ints a rdr headers names sel s h k at in
    let (columns, e, (wide, parts, ranks)) =
      sequential_stats-AreColumns n m q reads_ints a rdr names sel rows s selected r fits in
    let (columns', e', (wide', parts', ranks')) =
      parallel_stats-AreColumns n m q j laws reads_ints idx all d rows reads a rdr names sel jobs
        order s selected r fits pos p in
    (
      columns,
      columns',
      e,
      e',
      types_of-rank_at n m q columns' columns (wide' ∙ sym wide) (λ i. ranks' i ∙ sym (ranks i)),
    )

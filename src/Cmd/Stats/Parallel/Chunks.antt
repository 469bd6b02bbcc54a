-- ===== src/Cmd/Stats/Parallel/Chunks.antt =====
-- The columns of the chunks.
use mathlib.Core.List.{Perm}
use xsv.Prelude.{
  ℕ, zero, suc, ◌*◌, ◌≡◌, ◌≤◌, ◌<◌, refl, ap, ◌∙◌, false, Bool-cases, inl, inr, List, [], ◌∷◌,
  Option, some, length, take, drop, All, All-take, All-drop, leb, ◌==◌, arith,
}
use xsv.Prelude.Results.{ok}
use xsv.Prelude.Sums.{max_of, max_of-Perm}
use xsv.Error.{ByteRecord}
use xsv.Csv.{Rows, Reader}
use xsv.Csv.Laws.{all_ok, take-all_ok, drop-all_ok, length-all_ok, bind-ok}
use xsv.Index.{Indexed, count, Describes}
use xsv.Index.Laws.{count-length, seek-drop}
use xsv.Select.Resolve.{ascending}
use xsv.Select.Resolve.Shuffled.{shuffled-All, shuffled-length}
use xsv.Util.{chunk_size, num_of_chunks}
use xsv.Util.Laws.{chunk_start-lt, num_of_chunks-chunk_size}
use xsv.Cmd.Frequency.{value_of, received}
use xsv.Cmd.Stats.{Floats}
use xsv.Cmd.Stats.Range.{Extremes}
use xsv.Cmd.Stats.Sums.{ReadsIntegers}
use xsv.Cmd.Stats.Column.{Summaries, Flags, which_of, Column}
use xsv.Cmd.Stats.Command.{Args, stats_sel_headers, compute_columns}
use xsv.Cmd.Stats.Command.Rectangular.{
  HasFields, AreColumns, rank_at, selected_rank, compute_columns-AreColumns,
  sequential_stats-AreColumns,
}
use xsv.Cmd.Stats.Parallel.{
  Merging, or_empty, column_merge, worker_columns, chunk_columns, parallel_stats,
}
use xsv.Cmd.Stats.Parallel.Cover.{max_of-all_chunks, max_of-received}
use xsv.Cmd.Stats.Parallel.Rectangular.{IsMerging, Sized, merge_all-Sized}

-- What is received from workers that all send.
received-All :
    {F : Type 0} (P : List F → Type 0) (work : ℕ → Option (List F)) (k : ℕ) (order : List ℕ)
    → ((i : ℕ) → i < k → (xs : List F) × (work i ≡ some xs) × P xs)
    → All (λ i. i < k) order
    → (length (received work order) ≡ length order) × All P (received work order)
unfolding received
received-All P work k [] sends h = (refl, tt)
received-All P work k (i ∷ order) sends (h, hs) =
    let (xs, e, p) = sends i h in
    let (l, t) = received-All P work k order sends hs in
    (rw (received, e) (ap suc l), rw (received, e) (p, t))

module _ (n : Floats) (m : Extremes n) (q : Summaries n) (j : Merging q) (laws : IsMerging j)
    (reads_ints : ReadsIntegers n) where
  module _ (idx : Indexed) (all : Rows) (d : Describes idx all) (rows : List ByteRecord)
      (reads : idx.rdr.records ≡ all_ok rows) where
    chunk_columns-AreColumns :
        (flags : Flags) (sel : List ℕ) (size k : ℕ)
        → All (HasFields sel) rows
        → k * size < length rows
        → (columns : List (Column n m q)) × (chunk_columns n m q j flags sel idx size k
            ≡ some columns)
          × AreColumns n m q reads_ints flags sel (take size (drop (k * size) rows)) columns
    unfolding chunk_columns worker_columns
    chunk_columns-AreColumns flags sel size k fits l =
        let inside : leb (length idx.rdr.records) (k * size) ≡ false =
          ground (arith, ap length reads, length-all_ok rows) in
        let (columns, e, are) =
          compute_columns-AreColumns n m q reads_ints flags sel (take size (drop (k * size) rows))
            tt (All-take (HasFields sel) size _ (All-drop (HasFields sel) (k * size) rows fits)) in
        (
          columns,
          ap (worker_columns n m q j flags sel size) (
                rw inside at (seek-drop idx all d (k * size))
                ∙ ap (λ rs. ok (drop (k * size) rs)) reads)
              ∙ ap (λ rs. value_of (compute_columns n m q flags sel rs tt))
                  (ap (take size) (drop-all_ok (k * size) rows)
                    ∙ take-all_ok size (drop (k * size) rows))
              ∙ ap value_of e,
          are,
        )

    -- The columns of all the chunks, merged in the order in which they arrive.
    merged-AreColumns :
        (flags : Flags) (sel : List ℕ) (jobs : ℕ) (order : List ℕ)
        → All (HasFields sel) rows
        → 0 < jobs
        → 0 < length rows
        → Perm order (ascending 0 (num_of_chunks (length rows) (chunk_size (length rows) jobs)))
        → (columns : List (Column n m q)) × (j.merge_all
              (column_merge n m q j)
              (received (chunk_columns n m q j flags sel idx (chunk_size (length rows) jobs)) order)
            ≡ some (some columns))
          × AreColumns n m q reads_ints flags sel rows columns
    merged-AreColumns flags sel jobs order fits pos some_row p =
        let size = chunk_size (length rows) jobs in
        let chunks = num_of_chunks (length rows) size in
        let (size_pos, covers, last) = num_of_chunks-chunk_size (length rows) jobs some_row pos in
        let work = chunk_columns n m q j flags sel idx size in
        let within = shuffled-All chunks order p in
        let sends : (k : ℕ)
            → k < chunks
            → (columns : List (Column n m q)) × (work k ≡ some columns)
              × AreColumns n m q reads_ints flags sel (take size (drop (k * size) rows)) columns =
          λ k l.
            chunk_columns-AreColumns flags sel size k fits
              (chunk_start-lt (length rows) size k size_pos l) in
        let (count_is, sized) =
          received-All (Sized n m q j laws (which_of flags) (length sel)) work chunks order
            (λ k l.
              let (columns, e, (wide, parts, ranks)) = sends k l in (columns, e, (wide, parts)))
            within in
        let (columns, e, (wide, parts), ranks) =
          merge_all-Sized n m q j laws (which_of flags) (length sel) _
            (omega (arith, count_is, shuffled-length chunks order p, some_chunk chunks covers))
            sized in
        (
          columns,
          e,
          (
            wide,
            parts,
            λ i.
                ranks i
                ∙ max_of-received (rank_at i)
                    (λ k. max_of (selected_rank n sel i) (take size (drop (k * size) rows))) work
                    chunks order
                    (λ k l. let (cs, e', (wide', parts', ranks')) = sends k l in (cs, e', ranks' i))
                    within
                ∙ max_of-Perm _ order (ascending 0 chunks) p
                ∙ max_of-all_chunks (selected_rank n sel i) size chunks rows covers,
          ),
        )
      where
        some_chunk : (k : ℕ) → length rows ≤ k * chunk_size (length rows) jobs → 0 < k
        some_chunk zero l = absurd (omega (arith, l, some_row))
        some_chunk (suc k) l = omega arith

    pub parallel_stats-AreColumns :
        {S : Type 0} (a : Args) (rdr : Reader) (names : ByteRecord) (sel : List ℕ) (jobs : ℕ)
        (order : ℕ → List ℕ) (s : S)
        → stats_sel_headers a.rconfig rdr s ≡ (ok (names, sel), s)
        → rdr.records ≡ all_ok rows
        → All (HasFields sel) rows
        → 0 < jobs
        → ((k : ℕ) → Perm (order k) (ascending 0 k))
        → (columns : List (Column n m q)) × (parallel_stats n m q j a jobs order rdr idx s
            ≡ (ok (names, columns), s))
          × AreColumns n m q reads_ints a.flags sel rows columns
    unfolding parallel_stats or_empty
    parallel_stats-AreColumns a rdr names sel jobs order s selected r fits pos p =
        elim (Bool-cases (length rows == 0)) [
          | inl no_rows ↦
              let (columns, e, are) =
                sequential_stats-AreColumns n m q reads_ints a rdr names sel rows s selected r
                  fits in
              (columns, rw (counted, no_rows) e, are)
          | inr some_rows ↦
              let size = chunk_size (length rows) jobs in
              let (columns, e, are) =
                merged-AreColumns a.flags sel jobs (order (num_of_chunks (length rows) size)) fits
                  pos (ground arith) (p (num_of_chunks (length rows) size)) in
              (
                columns,
                rw (counted, some_rows)
                    (bind-ok (stats_sel_headers a.rconfig rdr) _ selected ∙ rw e refl),
                are,
              )
        ]
      where
        counted : count idx ≡ length rows
        counted = count-length idx all d ∙ ap length reads ∙ length-all_ok rows

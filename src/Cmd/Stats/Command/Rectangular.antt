-- ===== src/Cmd/Stats/Command/Rectangular.antt =====
-- The records that are written all have the same number of fields.
use mathlib.Core.List.{append_assoc}
use xsv.Prelude.{
  take, ◌==◌, max, none, replicate, zero, length-map, All-replicate, ℕ, suc, ◌≡◌, refl, sym, ap,
  ◌∙◌, Bool, List, [], ◌∷◌, ◌++◌, append-nil, some, length, length-append, length-replicate, map,
  get_elem?, All, Option-cases, inl, inr, if◌then◌else◌, arith,
}
use mathlib.Core.Option.{some_inj}
use mathlib.Core.Path.{ap₂}
use xsv.Prelude.Bytes.{as_bytes}
use xsv.Prelude.Literal.{codes}
use xsv.Prelude.Results.{ok}
use xsv.Error.{Bytes, ByteRecord}
use xsv.Csv.{Reader, Sink, try_csv, try_text, unwrap, write_record}
use xsv.Csv.Laws.{Accepts, all_ok, write_record-Accepts, bind-ok}
use xsv.Config.{config_selection}
use xsv.Select.Row.{select}
use xsv.Select.Syntax.{decimal}
use xsv.Cmd.Stats.{Floats, FieldType, integer, float, unicode, unknown, from_sample, null}
use xsv.Cmd.Stats.Types.{rank, rank-merge}
use xsv.Prelude.Sums.{max_of}
use xsv.Cmd.Stats.Range.{Extremes}
use xsv.Cmd.Stats.Sums.{ReadsIntegers}
use xsv.Cmd.Stats.Column.{
  new_column, WhichStats, Summaries, Flags, which_of, stat_headers, Column, to_record, type_name,
}
use xsv.Cmd.Stats.Column.Shape.{
  HasParts, new_column-HasParts, add_sample-HasParts, length-to_record, width, length-when,
}
use xsv.Cmd.Stats.Command.{
  Args, new_columns, add_record, add_records, compute_columns, stats_sel_headers, sequential_stats,
  write_stats,
}

-- The record has the selected fields.
abbrev pub HasFields : List ℕ → ByteRecord → Type 0
HasFields sel r = (fields : List Bytes) × (select sel r ≡ some fields)

pub select-length :
    (sel : List ℕ) (r : ByteRecord) (fields : List Bytes)
    → select sel r ≡ some fields
    → length fields ≡ length sel
unfolding select
select-length [] r fields h = ap length (some_inj.0 (sym h))
select-length (i ∷ is) r fields h = elim (Option-cases (get_elem? r i)) [
  | inl missing ↦ absurd (ground (arith, rw (missing, select) at h))
  | inr (f, there) ↦ elim (Option-cases (select is r)) [
    | inl missing ↦ absurd (ground (arith, rw (there, select, missing) at h))
    | inr (rest, more) ↦
        ap length (some_inj.0 (sym (rw (there, select, more) at h)))
        ∙ ap suc (select-length is r rest more)
  ]
]

length-stat_headers :
    (n : Floats) (m : Extremes n) (q : Summaries n) (flags : Flags)
    → length (stat_headers flags) ≡ suc (width n m q (which_of flags))
unfolding stat_headers which_of
length-stat_headers n m q flags =
    let w = which_of flags in
    let median = if w.median then codes "median" ∷ [] else [] in
    let mode = if w.mode then codes "mode" ∷ [] else [] in
    let cardinality = if w.cardinality then codes "cardinality" ∷ [] else [] in
    let always =
      codes "field"
      ∷ codes "type"
      ∷ codes "sum"
      ∷ codes "min"
      ∷ codes "max"
      ∷ codes "min_length"
      ∷ codes "max_length"
      ∷ codes "mean"
      ∷ codes "stddev"
      ∷ [] in
    omega (
      arith,
      length-append (always ++ median ++ mode) cardinality,
      length-append (always ++ median) mode,
      length-append always median,
      length-when w.median (codes "median"),
      length-when w.mode (codes "mode"),
      length-when w.cardinality (codes "cardinality"),
    )

pub by_position : (P : ℕ → Type 0) → P zero → ((i : ℕ) → P (suc i)) → (i : ℕ) → P i
by_position P z s zero = z
by_position P z s (suc i) = s i

-- How specific the type of column `i` is, and of field `i` of a record.
abbrev pub rank_at : {n : Floats} {m : Extremes n} {q : Summaries n} → ℕ → List (Column n m q) → ℕ
rank_at i columns = elim (get_elem? columns i) [ none ↦ 0 | some c ↦ rank c.typ ]

abbrev pub rank_of : Floats → ℕ → List Bytes → ℕ
rank_of n i fields = elim (get_elem? fields i) [ none ↦ 0 | some x ↦ rank (from_sample n x) ]

abbrev pub selected_rank : Floats → List ℕ → ℕ → ByteRecord → ℕ
selected_rank n sel i r = elim (select sel r) [ none ↦ 0 | some fields ↦ rank_of n i fields ]

-- The type of a rank.
abbrev pub of_rank : ℕ → FieldType
of_rank i =
    if i == 0
    then null
    else if i == 1
    then integer
    else if i == 2
    then float
    else if i == 3
    then unicode
    else unknown

of_rank-rank : (t : FieldType) → of_rank (rank t) ≡ t
of_rank-rank t = ground arith

-- How the records of the columns start: with the name, or its position from `i` on, and the type.
abbrev pub labels : Bool → (ℕ → ℕ) → ℕ → List Bytes → List (List Bytes)
labels no_headers ranks i [] = []
labels no_headers ranks i (h ∷ names) =
    ((if no_headers then as_bytes (decimal i) else h)
      ∷ as_bytes (type_name (of_rank (ranks 0)))
      ∷ [])
    ∷ labels no_headers (λ k. ranks (suc k)) (suc i) names

module _ (n : Floats) (m : Extremes n) (q : Summaries n) (reads_ints : ReadsIntegers n)
    (flags : Flags) where
  abbrev pub Fit : List (Column n m q) → Type 0
  Fit = All (HasParts n m q (which_of flags))

  add_record-Fit :
      (columns : List (Column n m q)) (fields : List Bytes)
      → length fields ≡ length columns
      → Fit columns
      → (columns' : List (Column n m q)) × (add_record n m q columns fields ≡ some columns')
        × (length columns' ≡ length columns)
        × Fit columns'
        × ((i : ℕ) → rank_at i columns' ≡ max (rank_at i columns) (rank_of n i fields))
  unfolding add_record
  add_record-Fit [] [] l h = ([], refl, refl, h, λ i. omega arith)
  add_record-Fit (c ∷ columns) [] l h = absurd (omega (arith, l))
  add_record-Fit [] (f ∷ fields) l h = absurd (omega (arith, l))
  add_record-Fit (c ∷ columns) (f ∷ fields) l (h, hs) =
      let (c', e, k, merged) = add_sample-HasParts n m q reads_ints (which_of flags) c f h in
      let (rest, e', same, ks, ranks) = add_record-Fit columns fields (omega (arith, l)) hs in
      (
        c' ∷ rest,
        rw (add_record, e, e') refl,
        ap suc same,
        (k, ks),
        by_position
            (λ i. rank_at i (c' ∷ rest) ≡ max (rank_at i (c ∷ columns)) (rank_of n i (f ∷ fields)))
            (ap rank merged ∙ rank-merge c.typ (from_sample n f)) ranks,
      )

  add_records-Fit :
      {S : Type 0} (sel : List ℕ) (columns : List (Column n m q)) (rows : List ByteRecord) (s : S)
      → length columns ≡ length sel
      → Fit columns
      → All (HasFields sel) rows
      → (columns' : List (Column n m q)) × (add_records n m q sel columns (all_ok rows) s
          ≡ (ok columns', s))
        × (length columns' ≡ length sel)
        × Fit columns'
        × ((i : ℕ)
            → rank_at i columns' ≡ max (rank_at i columns) (max_of (selected_rank n sel i) rows))
  unfolding add_records
  add_records-Fit sel columns [] s l h fits = (columns, refl, l, h, λ i. omega arith)
  add_records-Fit sel columns (r ∷ rows) s l h ((fields, has), fits) =
      let (columns', e, same, k, ranks) =
        add_record-Fit columns fields (select-length sel r fields has ∙ sym l) h in
      let (columns'', e', same', k', ranks') =
        add_records-Fit sel columns' rows s (same ∙ l) k fits in
      (
        columns'',
        bind-ok (unwrap (select sel r)) _ (ap (λ o. unwrap o s) has)
            ∙ bind-ok (unwrap (add_record n m q columns fields)) _ (ap (λ o. unwrap o s) e)
            ∙ e',
        same',
        k',
        λ i.
            let here : selected_rank n sel i r ≡ rank_of n i fields =
              rw (selected_rank, has) refl in
            omega (arith, ranks' i, ranks i, here),
      )

  module _ (w : Sink) (acc : Accepts w) where
    pub write_stats-width :
        (no_headers : Bool) (i : ℕ) (names : List Bytes) (columns : List (Column n m q))
        (out : List ByteRecord) (ranks : ℕ → ℕ)
        → length names ≡ length columns
        → ((k : ℕ) → rank_at k columns ≡ ranks k)
        → Fit columns
        → (ls : List ByteRecord) × (write_stats n m q no_headers w i names columns out
            ≡ (ok tt, out ++ ls))
          × (length ls ≡ length columns)
          × (map (take 2) ls ≡ labels no_headers ranks i names)
          × All (λ l. length l ≡ length (stat_headers flags)) ls
    unfolding write_stats to_record
    write_stats-width no_headers i [] [] out ranks l t h =
        ([], ap (λ rs. (ok tt, rs)) (sym (append-nil out)), refl, refl, tt)
    write_stats-width no_headers i [] (c ∷ columns) out ranks l t h = absurd (omega (arith, l))
    write_stats-width no_headers i (x ∷ names) [] out ranks l t h = absurd (omega (arith, l))
    write_stats-width no_headers i (x ∷ names) (c ∷ columns) out ranks l t (h, hs) =
        let line =
          (if no_headers then as_bytes (decimal i) else x) ∷ map as_bytes (to_record n m q c) in
        let (ls, e, count_is, starts, wide) =
          write_stats-width no_headers (suc i) names columns (out ++ line ∷ []) (λ k. ranks (suc k))
            (omega (arith, l)) (λ k. t (suc k)) hs in
        (
          line ∷ ls,
          bind-ok (write_record w line) _ (write_record-Accepts w acc line out)
              ∙ e
              ∙ ap (λ rs. (ok tt, rs)) (append_assoc out (line ∷ []) ls),
          ap suc count_is,
          ap₂ (◌∷◌)
              (ap
                (λ u.
                  (if no_headers then as_bytes (decimal i) else x) ∷ as_bytes (type_name u) ∷ [])
                (sym (of_rank-rank c.typ) ∙ ap of_rank (t 0)))
              starts,
          (
            ap suc (
                  length-map as_bytes (to_record n m q c)
                  ∙ length-to_record n m q (which_of flags) c h)
                ∙ sym (length-stat_headers n m q flags),
            wide,
          ),
        )

module _ (n : Floats) (m : Extremes n) (q : Summaries n) (reads_ints : ReadsIntegers n) where
  -- The columns of `sel`, which all have the parts that the flags ask for, and the types that merging
  -- the types of their fields gives.
  abbrev pub AreColumns : Flags → List ℕ → List ByteRecord → List (Column n m q) → Type 0
  AreColumns flags sel rows columns =
      (length columns ≡ length sel)
      × Fit n m q reads_ints flags columns
      × ((i : ℕ) → rank_at i columns ≡ max_of (selected_rank n sel i) rows)

  rank_at-new : (w : ℕ) (c : Column n m q) (i : ℕ) → c.typ ≡ null → rank_at i (replicate w c) ≡ 0
  rank_at-new zero c i e = refl
  rank_at-new (suc w) c zero e = ap rank e
  rank_at-new (suc w) c (suc i) e = rank_at-new w c i e

  new_typ : (which : WhichStats) → (new_column n m q which).typ ≡ null
  unfolding new_column
  new_typ which = refl

  pub compute_columns-AreColumns :
      {S : Type 0} (flags : Flags) (sel : List ℕ) (rows : List ByteRecord) (s : S)
      → All (HasFields sel) rows
      → (columns : List (Column n m q)) × (compute_columns n m q flags sel (all_ok rows) s
          ≡ (ok columns, s))
        × AreColumns flags sel rows columns
  unfolding compute_columns new_columns
  compute_columns-AreColumns flags sel rows s fits =
      let (columns, e, same, parts, ranks) =
        add_records-Fit n m q reads_ints flags sel (new_columns n m q flags (length sel)) rows s
          (length-replicate (length sel) _)
          (All-replicate (HasParts n m q (which_of flags)) (length sel) _
            (new_column-HasParts n m q (which_of flags)))
          fits in
      (
        columns,
        e,
        (
          same,
          parts,
          λ i.
              let fresh : rank_at i (new_columns n m q flags (length sel)) ≡ 0 =
                rank_at-new (length sel) _ i (new_typ (which_of flags)) in
              omega (arith, ranks i, fresh),
        ),
      )

  pub stats_sel_headers-select :
      {S : Type 0} (a : Args) (rdr : Reader) (headers names : ByteRecord) (sel : List ℕ) (s : S)
      → rdr.headers ≡ ok headers
      → config_selection a.rconfig headers ≡ ok sel
      → select sel headers ≡ some names
      → stats_sel_headers a.rconfig rdr s ≡ (ok (names, sel), s)
  unfolding stats_sel_headers
  stats_sel_headers-select a rdr headers names sel s h k j =
      bind-ok (try_csv rdr.headers) _ (ap (λ x. try_csv x s) h)
      ∙ bind-ok (try_text (config_selection a.rconfig headers)) _ (ap (λ x. try_text x s) k)
      ∙ bind-ok (unwrap (select sel headers)) _ (ap (λ x. unwrap x s) j)

  pub sequential_stats-AreColumns :
      {S : Type 0} (a : Args) (rdr : Reader) (names : ByteRecord) (sel : List ℕ)
      (rows : List ByteRecord) (s : S)
      → stats_sel_headers a.rconfig rdr s ≡ (ok (names, sel), s)
      → rdr.records ≡ all_ok rows
      → All (HasFields sel) rows
      → (columns : List (Column n m q)) × (sequential_stats n m q a rdr s
          ≡ (ok (names, columns), s))
        × AreColumns a.flags sel rows columns
  unfolding sequential_stats
  sequential_stats-AreColumns a rdr names sel rows s selected r fits =
      let (columns, e, are) = compute_columns-AreColumns a.flags sel rows s fits in
      (
        columns,
        bind-ok (stats_sel_headers a.rconfig rdr) _ selected
            ∙ bind-ok (compute_columns n m q a.flags sel rdr.records) _
                (ap (λ x. compute_columns n m q a.flags sel x s) r ∙ e),
        are,
      )

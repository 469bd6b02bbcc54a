-- ===== src/Cmd/Frequency/Agree.antt =====
-- Counting chunk by chunk counts the same.
use mathlib.Core.List.{Perm}
use mathlib.Core.Option.{some_inj}
use xsv.Prelude.{
  ℕ, zero, suc, ◌*◌, ◌≡◌, ◌≤◌, ◌<◌, refl, sym, ap, ◌∙◌, Bool, true, false, List, [], ◌∷◌, Option,
  none, some, length, take, drop, All, leb, ◌==◌, Bool-cases, inl, inr, arith,
}
use xsv.Prelude.Results.{ok}
use xsv.Prelude.Sums.{sum_of, sum_of-Perm}
use xsv.Error.{Bytes, ByteRecord}
use xsv.Csv.{Rows, Reader}
use xsv.Csv.Laws.{all_ok, take-all_ok, drop-all_ok, length-all_ok, bind-ok}
use xsv.Config.{config_selection}
use xsv.Index.{Indexed, count, Describes}
use xsv.Index.Laws.{count-length, seek-drop}
use xsv.Select.Resolve.{ascending}
use xsv.Select.Row.{select, normal, normal_len, normal_select}
use xsv.Unicode.{Unicode}
use xsv.Util.{chunk_size, num_of_chunks}
use xsv.Util.Laws.{chunk_start-lt, num_of_chunks-chunk_size}
use xsv.Cmd.Frequency.{
  Frequencies, Args, value_of, ftables, worker, worker_rows, received, sel_headers,
  sequential_ftables, parallel_ftables,
}
use xsv.Cmd.Frequency.Merge.{
  share, sum_of-all_chunks, sum_of-ascending, sum_of-received, received-All,
}
use xsv.Cmd.Frequency.Counting.{count_at, IsCounting, sel_headers-select}
use xsv.Cmd.Frequency.Tables.{counted_at, tally, ftables-tally, sequential_ftables-tally}

module _ (u : Unicode) {F : Type 0} (fs : Frequencies F) (count_of : F → Bytes → ℕ)
    (laws : IsCounting count_of fs) (idx : Indexed) (all : Rows) (d : Describes idx all)
    (rows : List ByteRecord) (e : idx.rdr.records ≡ all_ok rows) where
  abbrev chunk : ℕ → ℕ → List ByteRecord
  chunk size k = take size (drop (k * size) rows)

  module _ (no_nulls : Bool) (sel : List ℕ) (size : ℕ) where
    abbrev work : ℕ → Option (List F)
    work = worker fs u no_nulls sel idx size

    worker_inside :
        (k : ℕ)
        → k * size < length rows
        → (tabs : List F) × (work k ≡ some tabs)
          × (length tabs ≡ normal_len (normal sel))
          × ((i : ℕ) (v : Bytes)
              → count_at count_of tabs i v ≡ tally u no_nulls (normal sel) i v (chunk size k))
    unfolding worker worker_rows
    worker_inside k l =
        let inside : leb (length idx.rdr.records) (k * size) ≡ false =
          ground (arith, ap length e, length-all_ok rows) in
        let (tabs, run, same, c) =
          ftables-tally u fs count_of laws no_nulls sel (chunk size k) tt in
        (
          tabs,
          ap (worker_rows fs u no_nulls sel size) (
                rw inside at (seek-drop idx all d (k * size))
                ∙ ap (λ rs. ok (drop (k * size) rs)) e)
              ∙ ap (λ rs. value_of (ftables fs u no_nulls sel rs tt))
                  (ap (take size) (drop-all_ok (k * size) rows)
                    ∙ take-all_ok size (drop (k * size) rows))
              ∙ ap value_of run,
          same,
          c,
        )

    worker_outside : (k : ℕ) → leb (length rows) (k * size) ≡ true → work k ≡ none
    unfolding worker worker_rows
    worker_outside k l =
        let outside : leb (length idx.rdr.records) (k * size) ≡ true =
          ground (arith, ap length e, length-all_ok rows) in
        ap (worker_rows fs u no_nulls sel size) (rw outside at (seek-drop idx all d (k * size)))

    worker-length :
        (k : ℕ) (tabs : List F) → work k ≡ some tabs → length tabs ≡ normal_len (normal sel)
    worker-length k tabs sends = elim (Bool-cases (leb (length rows) (k * size))) [
      | inl outside ↦ absurd (ground (arith, worker_outside k outside, sends))
      | inr inside ↦
          let (tabs', sends', same, c) = worker_inside k (ground arith) in
          ap length (some_inj.0 (sym sends ∙ sends')) ∙ same
    ]

    -- The tables of all the chunks, in any order.
    module _ (order : List ℕ) (n : ℕ) (p : Perm order (ascending 0 n))
        (inside : (k : ℕ) → k < n → k * size < length rows) where
      received-tally :
          (i : ℕ) (v : Bytes)
          → length rows ≤ n * size
          → sum_of (λ s. count_at count_of s i v) (received work order)
            ≡ tally u no_nulls (normal sel) i v rows
      received-tally i v l =
          sum_of-received work (λ s. count_at count_of s i v) order
          ∙ sum_of-Perm (λ k. share work (λ s. count_at count_of s i v) (work k)) order
              (ascending 0 n) p
          ∙ sum_of-ascending (λ k. share work (λ s. count_at count_of s i v) (work k))
              (λ k. tally u no_nulls (normal sel) i v (chunk size k)) 0 n
              (λ k b.
                let (tabs, sends, same, c) = worker_inside k (inside k (omega arith)) in
                ap (share work (λ s. count_at count_of s i v)) sends ∙ c i v)
          ∙ sum_of-all_chunks (λ r. counted_at u no_nulls v (normal_select (normal sel) r) i) size n
              rows l

      received-all : sum_of (λ s. 1) (received work order) ≡ sum_of (λ k. 1) (ascending 0 n)
      received-all =
          sum_of-received work (λ s. 1) order
          ∙ sum_of-Perm (λ k. share work (λ s. 1) (work k)) order (ascending 0 n) p
          ∙ sum_of-ascending (λ k. share work (λ s. 1) (work k)) (λ k. 1) 0 n
              (λ k b.
                ap (share work (λ s. 1))
                  (let (tabs, sends, same, c) = worker_inside k (inside k (omega arith)) in sends))

  merged :
      (width : ℕ) (ts : List (List F))
      → 0 < sum_of (λ s. 1) ts
      → All (λ s. length s ≡ width) ts
      → (m : List F) × (fs.merge_all ts ≡ some m)
        × ((i : ℕ) (v : Bytes) → count_at count_of m i v ≡ sum_of (λ s. count_at count_of s i v) ts)
  merged width [] pos h = absurd (omega (arith, pos))
  merged width (t ∷ ts) pos (h, hs) =
      let (m, is, same, c) = laws.merges t ts (rw (sym h) at hs) in (m, is, c)

  some_chunk : (n : ℕ) → 0 < n → 0 < sum_of (λ k. 1) (ascending 0 n)
  unfolding ascending
  some_chunk zero l = absurd (omega (arith, l))
  some_chunk (suc n) l = omega arith

  counted_rows : count idx ≡ length rows
  counted_rows = count-length idx all d ∙ ap length e ∙ length-all_ok rows

  received_tables :
      (no_nulls : Bool) (sel : List ℕ) (jobs : ℕ) (order : List ℕ)
      → 0 < jobs
      → 0 < length rows
      → Perm order (ascending 0 (num_of_chunks (length rows) (chunk_size (length rows) jobs)))
      → (m : List F) × (fs.merge_all
            (received (worker fs u no_nulls sel idx (chunk_size (length rows) jobs)) order)
          ≡ some m)
        × ((i : ℕ) (v : Bytes) → count_at count_of m i v ≡ tally u no_nulls (normal sel) i v rows)
  received_tables no_nulls sel jobs order pos some_row p =
      let size = chunk_size (length rows) jobs in
      let n = num_of_chunks (length rows) size in
      let (size_pos, covers, last) = num_of_chunks-chunk_size (length rows) jobs some_row pos in
      let inside : (k : ℕ) → k < n → k * size < length rows =
        λ k l. chunk_start-lt (length rows) size k size_pos l in
      let chunks : 0 < n = some_chunks n covers in
      let (m, is, c) =
        merged (normal_len (normal sel)) (received (work no_nulls sel size) order)
          (omega (arith, received-all no_nulls sel size order n p inside, some_chunk n chunks))
          (received-All (work no_nulls sel size) (λ s. length s ≡ normal_len (normal sel)) order
            (worker-length no_nulls sel size)) in
      (m, is, λ i v. c i v ∙ received-tally no_nulls sel size order n p inside i v covers)
    where
      some_chunks : (n : ℕ) → length rows ≤ n * chunk_size (length rows) jobs → 0 < n
      some_chunks zero l = absurd (omega (arith, l, some_row))
      some_chunks (suc n) l = omega arith

  pub parallel_ftables-tally :
      {S : Type 0} (a : Args) (rdr : Reader) (names : ByteRecord) (sel : List ℕ) (jobs : ℕ)
      (order : ℕ → List ℕ) (s : S)
      → sel_headers a.rconfig rdr s ≡ (ok (names, sel), s)
      → 0 < jobs
      → ((n : ℕ) → Perm (order n) (ascending 0 n))
      → (tabs : List F) × (parallel_ftables fs u a rdr idx jobs order s ≡ (ok (names, tabs), s))
        × ((i : ℕ) (v : Bytes)
            → count_at count_of tabs i v ≡ tally u a.flag_no_nulls (normal sel) i v rows)
  unfolding parallel_ftables
  parallel_ftables-tally a rdr names sel jobs order s h pos p =
      elim (Bool-cases (length rows == 0)) [
        | inl no_rows ↦ (
          [],
          bind-ok (sel_headers a.rconfig rdr) _ h ∙ rw (counted_rows, no_rows) refl,
          λ i v. sym (ap (tally u a.flag_no_nulls (normal sel) i v) (is_nil rows no_rows)),
        )
        | inr some_rows ↦
            let size = chunk_size (length rows) jobs in
            let (m, is, c) =
              received_tables a.flag_no_nulls sel jobs (order (num_of_chunks (length rows) size))
                pos (ground arith) (p (num_of_chunks (length rows) size)) in
            (m, bind-ok (sel_headers a.rconfig rdr) _ h ∙ rw (counted_rows, some_rows, is) refl, c)
      ]
    where
      is_nil : (xs : List ByteRecord) → (length xs == 0) ≡ true → xs ≡ []
      is_nil [] b = refl
      is_nil (x ∷ xs) b = absurd (ground (arith, b))

  -- For an index that describes the data, on data that reads without errors, with a selection that
  -- resolves and at least one job: the sequential and the parallel count both end without a panic,
  -- with the same names of columns, and every value has the same count in every column, in whichever
  -- order the workers send their tables.
  pub parallel_ftables-sequential_ftables :
      {S : Type 0} (a : Args) (rdr : Reader) (headers names : ByteRecord) (sel : List ℕ) (jobs : ℕ)
      (order : ℕ → List ℕ) (s : S)
      → rdr.headers ≡ ok headers
      → rdr.records ≡ all_ok rows
      → config_selection a.rconfig headers ≡ ok sel
      → select sel headers ≡ some names
      → 0 < jobs
      → ((n : ℕ) → Perm (order n) (ascending 0 n))
      → (tabs tabs' : List F) × (sequential_ftables fs u a rdr s ≡ (ok (names, tabs), s))
        × (parallel_ftables fs u a rdr idx jobs order s ≡ (ok (names, tabs'), s))
        × ((i : ℕ) (v : Bytes) → count_at count_of tabs' i v ≡ count_at count_of tabs i v)
  parallel_ftables-sequential_ftables a rdr headers names sel jobs order s h r k j pos p =
      let selected = sel_headers-select a rdr headers names sel s h k j in
      let (tabs, run, c) =
        sequential_ftables-tally u fs count_of laws a rdr rows names sel s r selected in
      let (tabs', run', c') = parallel_ftables-tally a rdr names sel jobs order s selected pos p in
      (tabs, tabs', run, run', λ i v. c' i v ∙ sym (c i v))

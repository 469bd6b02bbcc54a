-- ===== src/Cmd/Split/Agree.antt =====
-- The two ways to split leave the same files, but for data without a record.
use xsv.Prelude.{
  false, append-nil, ℕ, zero, suc, ◌+◌, ◌*◌, ◌≡◌, ◌<◌, refl, sym, ap, ◌∙◌, List, [], ◌∷◌, ◌++◌,
  length, take, drop, some, map, max, leb, arith,
}
use xsv.Prelude.Results.{ok}
use xsv.Error.{ByteRecord}
use xsv.Csv.{Rows, Reader, Sink}
use xsv.Csv.Laws.{
  Accepts, all_ok, take-all_ok, drop-all_ok, length-all_ok, write_rows-Accepts, flush-Accepts,
}
use xsv.Util.{num_of_chunks}
use xsv.Util.Laws.{chunk_start-lt}
use mathlib.Core.Path.{ap₂}
use xsv.Index.{Indexed, count, Describes}
use xsv.Index.Laws.{count-length, seek-drop}
use xsv.Cmd.Split.{
  Args, Files, worker, worker_rows, worker_seek, workers, finished, sequential_split,
  parallel_split, no_files,
}
use xsv.Cmd.Split.Laws.{header_rows, expected, write_headers-Accepts, split_rows-start}

module _ (a : Args) (w : Sink) (headers : ByteRecord) (rows : List ByteRecord) (acc : Accepts w)
    (pos : 0 < a.flag_size) where
  -- With a positive size, on data that reads without errors, and into a writer that takes every
  -- record: split one after the other, the records go to files in order, `flag_size` to a file and the
  -- rest to the last one, each file behind a copy of the headers (unless there are none) and named by
  -- the number of its first record. Data without a record gives one file.
  pub sequential_split-expected :
      (rdr : Reader)
      → rdr.headers ≡ ok headers
      → rdr.records ≡ all_ok rows
      → (fs : Files) × (sequential_split a w rdr no_files ≡ (ok tt, fs))
        × (fs.closed ++ fs.current ∷ []
            ≡ workers (expected a headers rows) 0 (num_of_chunks (max 1 (length rows)) a.flag_size))
  unfolding sequential_split
  sequential_split-expected rdr h e =
      let zero_start : 0 * a.flag_size ≡ 0 = omega arith in
      rw (h, e, write_headers-Accepts a w headers acc [])
        (rw (append-nil, zero_start) at (split_rows-start a w headers acc rows pos rows refl))

  worker_rows-expected :
      (start : ℕ)
      → worker_rows a w headers start (ok (drop start (all_ok rows)))
        ≡ some (record {
          start = start;
          written = header_rows a headers ++ take a.flag_size (drop start rows);
        })
  unfolding worker_rows finished
  worker_rows-expected start = rw (
    drop-all_ok start rows,
    take-all_ok a.flag_size (drop start rows),
    write_headers-Accepts a w headers acc [],
    write_rows-Accepts w acc (take a.flag_size (drop start rows)) (header_rows a headers),
    flush-Accepts w acc (header_rows a headers ++ take a.flag_size (drop start rows)),
  )

  worker-expected :
      (idx : Indexed) (all : Rows) (k : ℕ)
      → Describes idx all
      → idx.rdr.headers ≡ ok headers
      → idx.rdr.records ≡ all_ok rows
      → k * a.flag_size < length rows
      → worker a w idx k ≡ some (expected a headers rows k)
  unfolding worker
  worker-expected idx all k d h e l =
      let inside : leb (length idx.rdr.records) (k * a.flag_size) ≡ false =
        ground (arith, ap length e, length-all_ok rows) in
      ap (worker_seek a w idx k) h
      ∙ ap (worker_rows a w headers (k * a.flag_size)) (
          rw inside at (seek-drop idx all d (k * a.flag_size))
          ∙ ap (λ rs. ok (drop (k * a.flag_size) rs)) e)
      ∙ worker_rows-expected (k * a.flag_size)

  workers-expected :
      (idx : Indexed) (all : Rows) (k n : ℕ)
      → Describes idx all
      → idx.rdr.headers ≡ ok headers
      → idx.rdr.records ≡ all_ok rows
      → ((j : ℕ) → j < k + n → j * a.flag_size < length rows)
      → workers (worker a w idx) k n ≡ map some (workers (expected a headers rows) k n)
  unfolding workers
  workers-expected idx all k zero d h e b = refl
  workers-expected idx all k (suc n) d h e b =
      ap₂ (◌∷◌) (worker-expected idx all k d h e (b k (omega arith)))
        (workers-expected idx all (suc k) n d h e (λ j l. b j (omega arith)))

  -- With a positive size, on data that reads without errors, and into a writer that takes every
  -- record: with an index that describes the data, no worker of a parallel split panics, and worker
  -- `k` leaves file number `k`, with its share of the records behind a copy of the headers; there are
  -- as many workers as files, and none for data without a record.
  pub parallel_split-expected :
      (idx : Indexed) (all : Rows)
      → Describes idx all
      → idx.rdr.headers ≡ ok headers
      → idx.rdr.records ≡ all_ok rows
      → parallel_split a w idx
        ≡ map some (workers (expected a headers rows) 0 (num_of_chunks (length rows) a.flag_size))
  unfolding parallel_split
  parallel_split-expected idx all d h e =
      let counted : count idx ≡ length rows =
        count-length idx all d ∙ ap length e ∙ length-all_ok rows in
      rw counted (
        workers-expected idx all 0 (num_of_chunks (length rows) a.flag_size) d h e
          (λ j l. chunk_start-lt (length rows) a.flag_size j pos (omega arith)))

  -- With a positive size, on data that has a record and reads without errors, and into a writer that
  -- takes every record: a parallel split with an index that describes the data leaves the files that
  -- the sequential split leaves, with the same names and in the same order.
  pub parallel_split-sequential_split :
      (idx : Indexed) (all : Rows)
      → Describes idx all
      → idx.rdr.headers ≡ ok headers
      → idx.rdr.records ≡ all_ok rows
      → 0 < length rows
      → (fs : Files) × (sequential_split a w idx.rdr no_files ≡ (ok tt, fs))
        × (parallel_split a w idx ≡ map some (fs.closed ++ fs.current ∷ []))
  parallel_split-sequential_split idx all d h e some_row =
      let at_least_one : max 1 (length rows) ≡ length rows = omega arith in
      let (fs, run, left) = sequential_split-expected idx.rdr h e in
      (
        fs,
        run,
        parallel_split-expected idx all d h e ∙ ap (map some) (sym (rw at_least_one at left)),
      )

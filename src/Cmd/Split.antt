-- ===== src/Cmd/Split.antt =====
-- src/cmd/split.rs: the records cut into files of equal size, one after the other, or each by a
-- worker of its own that seeks in the index.
pub mod Agree
pub mod Laws
use xsv.Prelude.{
  ℕ, zero, suc, ◌+◌, ◌*◌, ◌%◌, Bool, true, false, not, ◌&&◌, List, [], ◌∷◌, ◌++◌, Option, none,
  some, take, ltb, ◌==◌, if◌then◌else◌,
}
use xsv.Prelude.Results.{Result, ok, err}
use xsv.Error.{ByteRecord, CsvError, CliResult, Message, size_zero}
use xsv.Csv.{
  Rows, Reader, Sink, Run, Output, Stop, panicked, after, ◌>>=◌, ◌>>◌, pure, try_csv, try_text,
  write_record, write_rows, flush,
}
use xsv.Index.{Indexed, count, seek}
use xsv.Util.{num_of_chunks}

pub record Args : Type 0 where
  pub flag_size : ℕ
  pub no_headers : Bool

-- An output file: the number of its first record, which names it, and what is written to it.
pub record Chunk : Type 0 where
  pub start : ℕ
  pub written : List ByteRecord

-- The files behind the one that is open, oldest first, and the open one.
pub record Files : Type 0 where
  pub closed : List Chunk
  pub current : Chunk

-- An action of the writer on the open file.
abbrev pub in_current : {A : Type 0} → Output A → Run Files A
in_current m fs =
    after (m fs.current.written)
      (λ a out. (ok a, record fs { current = record (fs.current) { written = out } }))
      (λ e out. (err e, record fs { current = record (fs.current) { written = out } }))

-- A new output file, named by the number `start`. Opening it is taken to succeed.
abbrev pub open_file : ℕ → Run Files (Unit {0})
open_file start fs = (
  ok tt,
  record {
    closed = fs.closed ++ fs.current ∷ [];
    current = record { start = start; written = [] };
  },
)

-- The headers of a new file.
unfoldable pub write_headers : Args → Sink → ByteRecord → Output (Unit {0})
write_headers a w headers = if not a.no_headers then write_record w headers else pure tt

-- `new_writer`, called while another file is open.
unfoldable pub new_writer : Args → Sink → ByteRecord → ℕ → Run Files (Unit {0})
new_writer a w headers start = open_file start >> in_current (write_headers a w headers)

-- `i > 0 && i % size == 0`.
unfoldable pub is_boundary : Args → ℕ → Bool
is_boundary a i = ltb 0 i && (i % a.flag_size == 0)

-- The loop over the records; `i` counts those written.
unfoldable pub split_rows : Args → Sink → ByteRecord → ℕ → Rows → Run Files (Unit {0})
split_rows a w headers i [] = in_current (flush w)
split_rows a w headers i (r ∷ rs) = do
  row ← try_csv r
  if is_boundary a i then (in_current (flush w) >> new_writer a w headers i) else pure tt
  in_current (write_record w row)
  split_rows a w headers (suc i) rs

-- `sequential_split`: the first file is there from the beginning.
unfoldable pub sequential_split : Args → Sink → Reader → Run Files (Unit {0})
sequential_split a w rdr = do
  headers ← try_csv rdr.headers
  in_current (write_headers a w headers)
  split_rows a w headers 0 rdr.records

abbrev pub no_files : Files
no_files = record { closed = []; current = record { start = 0; written = [] } }

-- The check in `run`.
unfoldable pub check_size : Args → Result Message (Unit {0})
check_size a = if a.flag_size == 0 then err size_zero else ok tt

unfoldable pub finished : ℕ → Result Stop (Unit {0}) × List ByteRecord → Option Chunk
finished start (ok t, out) = some (record { start = start; written = out })
finished start (err e, out) = none

-- What a worker does once it has sought its first record.
unfoldable pub worker_rows : Args → Sink → ByteRecord → ℕ → CliResult Rows → Option Chunk
worker_rows a w headers start (err e) = none
worker_rows a w headers start (ok rows) =
    finished start
      ((write_headers a w headers >> (write_rows w (take a.flag_size rows) >> flush w)) [])

unfoldable pub worker_seek : Args → Sink → Indexed → ℕ → Result CsvError ByteRecord → Option Chunk
worker_seek a w idx i (err e) = none
worker_seek a w idx i (ok headers) =
    worker_rows a w headers (i * a.flag_size) (seek idx (i * a.flag_size))

-- The body of a worker's closure: the file of chunk `i`. Every error is unwrapped, so it panics.
unfoldable pub worker : Args → Sink → Indexed → ℕ → Option Chunk
unfolding worker_seek
worker a w idx i = worker_seek a w idx i idx.rdr.headers

-- `for i in 0..nchunks`, from number `i` on with `n` rounds left.
unfoldable pub workers : {A : Type 0} → (ℕ → A) → ℕ → ℕ → List A
workers f i zero = []
workers f i (suc n) = f i ∷ workers f (suc i) n

-- `parallel_split`: what each worker leaves behind, in the order of the chunks. The workers share
-- no file, so the order in which they run does not show.
unfoldable pub parallel_split : Args → Sink → Indexed → List (Option Chunk)
unfolding workers
parallel_split a w idx = workers (worker a w idx) 0 (num_of_chunks (count idx) a.flag_size)

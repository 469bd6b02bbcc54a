-- ===== src/Cmd/Cat.antt =====
-- src/cmd/cat.rs: several inputs, one below the other or side by side.
pub mod Rows
pub mod Columns
use xsv.Prelude.{
  ℕ, zero, suc, ◌+◌, Bool, true, false, List, [], ◌∷◌, ◌++◌, length, leb, ◌==◌, if◌then◌else◌, map,
}
use xsv.Prelude.Results.{Result, ok, err}
use xsv.Error.{ByteRecord, CsvError, other, out_of_fuel, from_csv}
use xsv.Csv
use xsv.Csv.{
  Reader, Sink, Output, failed, ◌>>=◌, ◌>>◌, pure, try_csv, write_record, write_rows, flush,
}
use xsv.Config.{write_headers}

-- The loop of `cat_rows` over the inputs; `i` is the number of the input.
unfoldable pub rows_from : Bool → Sink → ℕ → List Reader → Output (Unit {0})
rows_from no_headers w i [] = pure tt
rows_from no_headers w i (rdr ∷ rdrs) = do
  if i == 0 then write_headers no_headers rdr w else pure tt
  write_rows w rdr.records
  rows_from no_headers w (suc i) rdrs

unfoldable pub cat_rows : Bool → Sink → List Reader → Output (Unit {0})
cat_rows no_headers w rdrs = rows_from no_headers w 0 rdrs >> flush w

-- An input of `cat_columns`: the length of its first record, and the records still to come.
pub record Input : Type 0 where
  pub len : ℕ
  pub rows : Csv.Rows

unfoldable pub empty_fields : ℕ → ByteRecord
empty_fields zero = []
empty_fields (suc n) = [] ∷ empty_fields n

-- What the round over the inputs comes to: the end of the loop, an error, or a record, with the
-- number of inputs that are exhausted and the inputs one record on.
pub data Round : Type 0 where
  break_outer : Round
  bad : CsvError → Round
  made : ByteRecord → ℕ → List Input → Round

abbrev pub and_then : Round → Input → Round
and_then (made r n ins) i = made r n (i ∷ ins)
and_then break_outer i = break_outer
and_then (bad e) i = bad e

-- What an input adds to the record and to the count; `next` goes on with the inputs behind it.
take_next : Bool → ByteRecord → ℕ → Input → Csv.Rows → (ByteRecord → ℕ → Round) → Round
take_next false r num_done i [] next = break_outer
take_next true r num_done i [] next = and_then (next (r ++ empty_fields i.len) (suc num_done)) i
take_next pad r num_done i (err e ∷ rows) next = bad e
take_next pad r num_done i (ok record' ∷ rows) next =
    and_then (next (r ++ record') num_done) (record { len = i.len; rows = rows })

-- The loop over the inputs, with the record and the count so far.
unfoldable pub gather : Bool → ByteRecord → ℕ → List Input → Round
unfolding take_next empty_fields
gather pad r num_done [] = made r num_done []
gather pad r num_done (i ∷ ins) =
    take_next pad r num_done i i.rows (λ r' num_done'. gather pad r' num_done' ins)

outer_round : Sink → ℕ → Round → (List Input → Output (Unit {0})) → Output (Unit {0})
outer_round w n break_outer next = pure tt
outer_round w n (bad e) next = try_csv (err e)
outer_round w n (made r num_done ins) next =
    if leb n num_done then pure tt else (write_record w r >> next ins)

-- 'OUTER, on fuel.
unfoldable pub outer : ℕ → Bool → Sink → List Input → Output (Unit {0})
unfolding outer_round
outer zero pad w ins = λ out. (err (failed (other out_of_fuel)), out)
outer (suc fuel) pad w ins =
    outer_round w (length ins) (gather pad [] 0 ins) (λ ins'. outer fuel pad w ins')

-- The first loop, over the readers.
unfoldable pub open_inputs : List Reader → Result CsvError (List Input)
open_inputs [] = ok []
open_inputs (rdr ∷ rdrs) = elim rdr.headers [
  | err e ↦ err e
  | ok h ↦ elim (open_inputs rdrs) [
    | err e ↦ err e
    | ok ins ↦ ok (record { len = length h; rows = rdr.records } ∷ ins)
  ]
]

-- Each round but the last one takes a record from an input.
unfoldable pub total_rows : List Input → ℕ
total_rows [] = 0
total_rows (i ∷ ins) = length i.rows + total_rows ins

unfoldable pub cat_columns : Bool → Sink → List Reader → Output (Unit {0})
unfolding outer
cat_columns pad w rdrs = do
  ins ← try_csv (open_inputs rdrs)
  outer (suc (total_rows ins)) pad w ins
  flush w

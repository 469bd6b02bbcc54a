-- ===== src/Tests/Sample.antt =====
-- Runs and witnesses for src/cmd/sample.rs.
use mathlib.Core.List.Perm
use xsv.Prelude.{ℕ, false, ◌≡◌, ◌≤◌, refl, min, List, [], ◌∷◌, ◌++◌, none, length, arith}
use xsv.Prelude.Results.{ok}
use xsv.Error.{ByteRecord}
use xsv.Csv.{write_record}
use xsv.Config.{write_headers}
use xsv.Index.{seek, count}
use xsv.Cmd.Sample.{Args, put, fill, replace, sample_reservoir, run, next_row, seek_each}
use xsv.Cmd.Sample.Access.{pick}
use xsv.Cmd.Sample.Laws.{run-Chosen}
use xsv.Cmd.Sample.Reservoir.{Chosen}
use xsv.Tests.Data.{header, rows, reader, indexed, sink, sink-Accepts, standard}

abbrev two : Args
two = record { rconfig = standard; arg_sample_size = 2 }

abbrev first : ℕ → ℕ
first i = 0

abbrev exact : ℕ → ℕ
exact n = n

abbrev kept : List ℕ → List ℕ
kept is = is

headers_written : write_headers false reader sink [] ≡ (ok tt, header ∷ [])
unfolding write_headers write_record
headers_written = refl

-- The third record takes the place of the first.
reservoir_run : sample_reservoir first exact 2 reader tt ≡ (ok (pick rows 2 ∷ pick rows 1 ∷ []), tt)
unfolding sample_reservoir fill replace put
reservoir_run = refl

random_access_run : seek_each indexed (2 ∷ 0 ∷ []) tt ≡ (ok (pick rows 2 ∷ pick rows 0 ∷ []), tt)
unfolding seek_each next_row seek count
random_access_run = refl

run-Chosen_example :
    (n : ℕ) × (records : List ByteRecord) × (min 2 (length rows) ≤ n)
    × (n ≤ min 2 (length rows))
    × (run first exact kept two reader none sink [] ≡ (ok tt, (header ∷ []) ++ records))
    × Chosen n rows records
run-Chosen_example =
    run-Chosen first exact kept two reader none sink (header ∷ []) rows [] [] sink-Accepts
      (omega arith) (λ is. Perm.refl is) refl tt headers_written

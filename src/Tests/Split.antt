-- ===== src/Tests/Split.antt =====
-- Runs and witnesses for src/cmd/split.rs.
use xsv.Prelude.{◌≡◌, refl, false, [], ◌∷◌, ◌++◌, some, length, map, max, arith}
use xsv.Prelude.Results.{ok}
use xsv.Prelude.Literal.{codes}
use xsv.Util.{num_of_chunks}
use xsv.Cmd.Split.{Args, Files, sequential_split, parallel_split, no_files, workers}
use xsv.Cmd.Split.Laws.{expected}
use xsv.Cmd.Split.Agree.{sequential_split-expected, parallel_split-sequential_split}
use xsv.Tests.Data.{header, rows, all_rows, reader, indexed, indexed-Describes, sink, sink-Accepts}

abbrev by_two : Args
by_two = record { flag_size = 2; no_headers = false }

sequential_split-expected_example :
    (fs : Files) × (sequential_split by_two sink reader no_files ≡ (ok tt, fs))
    × (fs.closed ++ fs.current ∷ []
        ≡ workers (expected by_two header rows) 0 (num_of_chunks (max 1 (length rows)) 2))
sequential_split-expected_example =
    sequential_split-expected by_two sink header rows sink-Accepts (omega arith) reader refl refl

parallel_split-sequential_split_example :
    (fs : Files) × (sequential_split by_two sink reader no_files ≡ (ok tt, fs))
    × (parallel_split by_two sink indexed ≡ map some (fs.closed ++ fs.current ∷ []))
parallel_split-sequential_split_example =
    parallel_split-sequential_split by_two sink header rows sink-Accepts (omega arith) indexed
      all_rows indexed-Describes refl refl (omega arith)

two_files :
    workers (expected by_two header rows) 0 (num_of_chunks 3 2)
    ≡ record {
      start = 0;
      written = header ∷ (codes "b" ∷ codes "x" ∷ []) ∷ (codes "a" ∷ codes "y" ∷ []) ∷ [];
    }
      ∷ record { start = 2; written = header ∷ (codes "b" ∷ codes "z" ∷ []) ∷ [] }
      ∷ []
unfolding workers num_of_chunks
two_files = refl

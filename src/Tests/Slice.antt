-- ===== src/Tests/Slice.antt =====
-- Runs and witnesses for src/index.rs and src/cmd/slice.rs.
use xsv.Prelude.{◌≡◌, refl, false, [], ◌∷◌, none, some, arith}
use xsv.Prelude.Results.{ok, err}
use xsv.Error.{io, invalid_record_index}
use xsv.Csv.{failed, write_record}
use xsv.Config.{from_reader}
use xsv.Config.Files
use xsv.Config.Files.{index_files, index_pair, passive_index, check_modified, io_reader}
use xsv.Tests.Files.{platform, of_file}
use xsv.Cmd.Slice.{Args, range, no_index, with_index, sliced, run}
use xsv.Cmd.Slice.Laws.{past_the_end_differs, run-no_index}
use xsv.Config.{write_headers}
use xsv.Util
use xsv.Util.{wrapping_sub}
use xsv.Tests.Data.{
  header, all_rows, reader, indexed, indexed-Describes, sink, sink-Accepts, standard,
}

abbrev second : Args
second = record {
  flag_start = some 1;
  flag_end = none;
  flag_len = some 1;
  flag_index = none;
  rconfig = standard;
  wconfig = standard;
}

abbrev past : Args
past = record second { flag_start = some 5 }

one_record : range second ≡ ok (1, 2)
unfolding range Util.range
one_record = refl

behind_end : range past ≡ ok (5, 6)
unfolding range Util.range
behind_end = refl

headers_written : write_headers false reader sink [] ≡ (ok tt, header ∷ [])
unfolding write_headers write_record
headers_written = refl

past_the_end_differs_example :
    (no_index past reader sink [] ≡ (ok tt, header ∷ []))
    × (with_index past indexed sink []
        ≡ (err (failed (io (invalid_record_index 5 3))), header ∷ []))
past_the_end_differs_example =
    past_the_end_differs past indexed all_rows sink (header ∷ []) [] sink-Accepts indexed-Describes
      headers_written behind_end (omega arith) (omega arith)

-- The second record of a file that has an index.
abbrev second_of_file : Args
second_of_file = record second { rconfig = of_file }

index_found : Files.indexed platform of_file ≡ ok (some indexed)
unfolding Files.indexed index_files index_pair passive_index check_modified
index_found = refl

file_opens : Files.reader platform of_file ≡ ok reader
unfolding Files.reader io_reader from_reader
file_opens = refl

its_range : range second_of_file ≡ ok (1, 2)
unfolding range Util.range
its_range = refl

run-no_index_example : run platform second_of_file ≡ sliced platform second_of_file none
run-no_index_example =
    run-no_index platform second_of_file reader indexed all_rows index_found file_opens refl
      indexed-Describes its_range (omega arith) (omega arith)

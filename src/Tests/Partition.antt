-- ===== src/Tests/Partition.antt =====
-- Runs and witnesses for src/cmd/partition.rs.
use xsv.Prelude.{◌≡◌, refl, false, List, [], ◌∷◌, none, some, arith}
use xsv.Prelude.Results.{ok}
use xsv.Prelude.Literal.{codes}
use xsv.Prelude.Dict.{nat_eq, list_eq, IsDistinct}
use xsv.Error.{Text, Bytes, ByteRecord}
use xsv.Config.{config_selection}
use xsv.Select.{one, index}
use xsv.Select.Resolve.{selection, index_of}
use xsv.Select.Syntax.{decimal}
use xsv.Util.{FilenameTemplate}
use xsv.Cmd.Partition.{Args, State, key_column, sequential_partition}
use xsv.Cmd.Partition.Contents.{IsPartition, heads_of}
use xsv.Cmd.Partition.Laws.{keys_of, no_writers, file_names, sequential_partition-IsPartition}
use xsv.Cmd.Partition.Names.{WriterGenerator, unique_value, candidate}
use xsv.Cmd.Partition.Names.Fresh.{Names, unique_value-Names}
use xsv.Tests.Data.{standard, header, reader, sink, sink-Accepts}

-- A regular expression that matches nothing.
abbrev keep : Bytes → Text
keep k = k

abbrev csv_files : FilenameTemplate
csv_files = record { prefix = []; suffix = codes ".csv" }

abbrev by_name : Args
by_name = record {
  rconfig = record standard {
    select_columns = some (record { selectors = one (index 1) ∷ []; invert = false });
  };
  flag_prefix_length = none;
}

abbrev columns : List (Bytes × ByteRecord)
columns =
    (codes "b", codes "b" ∷ codes "x" ∷ [])
    ∷ (codes "a", codes "a" ∷ codes "y" ∷ [])
    ∷ (codes "b", codes "b" ∷ codes "z" ∷ [])
    ∷ []

first_column : key_column by_name.rconfig header ≡ ok 0
unfolding key_column config_selection selection index_of
first_column = refl

sequential_partition-IsPartition_example :
    (s : State) × (sequential_partition keep
        (λ name. none)
        sink
        by_name
        reader
        (no_writers csv_files)
      ≡ (ok tt, s))
    × IsPartition (heads_of false header) csv_files (keys_of none columns) s
    × IsDistinct (file_names s.writers)
sequential_partition-IsPartition_example =
    sequential_partition-IsPartition keep (λ name. none) (λ name. refl) sink sink-Accepts csv_files
      by_name reader header 0 columns refl first_column refl (refl, (refl, (refl, tt)))
      (omega arith)

abbrev two_used : WriterGenerator
two_used = record { template = csv_files; counter = 1; used = codes "a" ∷ codes "a_1" ∷ [] }

unique_value-Names_example : Names two_used (unique_value keep (codes "a") two_used)
unique_value-Names_example = unique_value-Names keep (codes "a") two_used (omega arith)

second_candidate : candidate (codes "a") 2 ≡ codes "a_2"
unfolding candidate decimal
second_candidate = refl

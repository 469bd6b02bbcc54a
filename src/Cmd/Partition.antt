-- ===== src/Cmd/Partition.antt =====
-- src/cmd/partition.rs: the records cut into files, one for each value of a column.
pub mod Names
pub mod Contents
pub mod Laws
pub mod Row
use xsv.Prelude.{
  ℕ, not, Bool, List, [], ◌∷◌, ◌++◌, Option, none, some, length, take, get_elem?, ltb,
  if◌then◌else◌,
}
use xsv.Prelude.Dict.{nat_eq, list_eq, lookup, insert}
use xsv.Prelude.Results.{Result, ok, err}
use xsv.Error.{Text, Bytes, ByteRecord, Message, CliResult, IoError, io, other, one_column_only}
use xsv.Csv.{
  Rows, Reader, Sink, Run, failed, Output, after, ◌>>=◌, ◌>>◌, pure, try_csv, try_cli, try_text,
  unwrap, write_record,
}
use xsv.Config.{Config, config_selection}
use xsv.Util.{filename}
use xsv.Cmd.Partition.Names.{WriterGenerator, new_generator, unique_value}

pub record Args : Type 0 where
  pub rconfig : Config
  pub flag_prefix_length : Option ℕ

-- An output file. `unique` is the part of its name that the generator gave.
pub record OutFile : Type 0 where
  pub unique : Text
  pub name : Text
  pub written : List ByteRecord

-- `gen` and `writers`.
pub record State : Type 0 where
  pub gen : WriterGenerator
  pub writers : List (Bytes × OutFile)

-- `Args::key_column`.
unfoldable pub key_column : Config → ByteRecord → CliResult ℕ
key_column rconfig headers = elim (config_selection rconfig headers) [
  | err m ↦ err (other m)
  | ok sel ↦ elim sel [
    | [] ↦ err (other one_column_only)
    | i ∷ rest ↦ elim rest [ [] ↦ ok i | _ ∷ _ ↦ err (other one_column_only) ]
  ]
]

unfoldable pub key_of : Option ℕ → Bytes → Bytes
key_of none column = column
key_of (some len) column = if ltb len (length column) then take len column else column

-- An action of the writer on a file, which stands for the new content.
abbrev pub in_file : Output (Unit {0}) → OutFile → Run State OutFile
in_file m f s =
    after (m f.written) (λ a out. (ok (record f { written = out }), s)) (λ e out. (err e, s))

opened : Option IoError → OutFile → Run State OutFile
opened none f s = (ok f, s)
opened (some e) f s = (err (failed (io e)), s)

-- `create` is the error, if any, of opening the file of a name.
module _ (safe : Bytes → Text) (create : Text → Option IoError) (w : Sink) where
  named : Option (Text × WriterGenerator) → Run State OutFile
  unfolding opened
  named none s = unwrap none s
  named (some (u, gen)) s =
      opened (create (filename gen.template u))
        (record { unique = u; name = filename gen.template u; written = [] })
        (record s { gen = gen })

  -- `WriterGenerator::writer`.
  unfoldable pub new_writer : Bytes → Run State OutFile
  unfolding named
  new_writer key s = named (unique_value safe key s.gen) s

  -- The two arms of `match entry`.
  unfoldable pub writer_for : Bool → ByteRecord → Bytes → Option OutFile → Run State OutFile
  writer_for no_headers headers key (some f) = pure f
  writer_for no_headers headers key none = do
    f ← new_writer key
    in_file (if not no_headers then write_record w headers else pure tt) f

  unfoldable pub store : Bytes → OutFile → Run State (Unit {0})
  store key f s = (ok tt, record s { writers = insert key f s.writers })

  -- One round of the loop, behind the choice of the key.
  unfoldable pub partition_row : Bool → ByteRecord → Bytes → ByteRecord → Run State (Unit {0})
  unfolding store
  partition_row no_headers headers key row s =
      (writer_for no_headers headers key (lookup key s.writers) >>= λ f.
      in_file (write_record w row) f >>= λ f'. store key f')
        s

  unfoldable pub partition_rows : Option ℕ → Bool → ByteRecord → ℕ → Rows → Run State (Unit {0})
  partition_rows prefix no_headers headers key_col [] = pure tt
  partition_rows prefix no_headers headers key_col (r ∷ rs) = do
    row ← try_csv r
    column ← unwrap (get_elem? row key_col)
    partition_row no_headers headers (key_of prefix column) row
    partition_rows prefix no_headers headers key_col rs

  -- `sequential_partition`, from the state with no writers.
  unfoldable pub sequential_partition : Args → Reader → Run State (Unit {0})
  sequential_partition a rdr = do
    headers ← try_csv rdr.headers
    key_col ← try_cli (key_column a.rconfig headers)
    partition_rows a.flag_prefix_length a.rconfig.no_headers headers key_col rdr.records

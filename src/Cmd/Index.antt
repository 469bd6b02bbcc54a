-- ===== src/Cmd/Index.antt =====
-- src/cmd/index.rs: an index file beside the data.
use xsv.Prelude.{ℕ, Bool, Option, none, some}
use xsv.Prelude.Results.{Result, ok, err, map_err, ◌>>=◌, ◌>>◌}
use xsv.Error.{Text, IoError, CsvError, CliResult, io, from_csv}
use xsv.Csv.{Reader}
use xsv.Config.{Config, new_config, with_delimiter}
use xsv.Config.Files.{Platform, reader_file}
use xsv.Util.{idx_path}

pub record Args : Type 0 where
  pub arg_input : Text
  pub flag_output : Option Text
  pub flag_delimiter : Option ℕ

unfoldable pub pidx : Args → Text
pidx a = elim a.flag_output [ none ↦ idx_path a.arg_input | some p ↦ p ]

created : Option IoError → CliResult (Unit {0})
created none = ok tt
created (some e) = err (io e)

-- `create_index` is `RandomAccessSimple::create` into the file of a path.
module _ (is_tsv : Text → Bool) (create_index : Reader → Text → Result CsvError (Unit {0})) where
  unfoldable pub rconfig : Args → Config
  rconfig a = with_delimiter a.flag_delimiter (new_config is_tsv (some a.arg_input))

  unfoldable pub run : Platform → Args → CliResult (Unit {0})
  unfolding created
  run p a = do
    rdr ← map_err io (reader_file p (rconfig a))
    created (p.create (pidx a))
    map_err from_csv (create_index rdr (pidx a))

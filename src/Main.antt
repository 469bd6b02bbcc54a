-- ===== src/Main.antt =====
-- src/main.rs: the commands, and how the program ends.
pub mod Laws
use xsv.Prelude.{ℕ, Bool, true, false, Option, none, some, if◌then◌else◌}
use xsv.Prelude.Results.{Result, ok, err}
use xsv.Error.{CliError, CliResult, IoError, broken_pipe, flag, csv, io, other}

pub data Command : Type 0 where
  cat count fix_lengths flatten fmt frequency headers help index input : Command
  join partition sample search select slice sort split stats table : Command

pub record Args : Type 0 where
  pub arg_command : Option Command
  pub flag_list : Bool

-- What the program shows as it ends: the list of the commands, or an error.
pub data Shown : Type 0 where
  nothing installed_commands choose_command : Shown
  error_of : CliError → Shown

pub record Exit : Type 0 where
  pub code : ℕ
  pub shown : Shown

-- `err.kind() == io::ErrorKind::BrokenPipe`.
unfoldable pub is_broken_pipe : IoError → Bool
is_broken_pipe broken_pipe = true
is_broken_pipe _ = false

-- `docopt_exit` is `docopt::Error::exit`: the end of a program that was called with `--help` or with
-- wrong arguments.
module _ (docopt_exit : ℕ → Exit) where
  -- The match on the result of the command.
  unfoldable pub finish : CliResult (Unit {0}) → Exit
  finish (ok done) = record { code = 0; shown = nothing }
  finish (err (flag e)) = docopt_exit e
  finish (err (csv e)) = record { code = 1; shown = error_of (csv e) }
  finish (err (io e)) =
      if is_broken_pipe e
      then record { code = 0; shown = nothing }
      else record { code = 1; shown = error_of (io e) }
  finish (err (other m)) = record { code = 1; shown = error_of (other m) }

  unfoldable pub start : (Command → CliResult (Unit {0})) → Args → Exit
  start run a =
      if a.flag_list then record { code = 0; shown = installed_commands } else elim a.arg_command [
        | none ↦ record { code = 0; shown = choose_command }
        | some cmd ↦ finish (run cmd)
      ]

  -- `run` is `Command::run`, over the arguments of the process.
  unfoldable pub main : (Command → CliResult (Unit {0})) → Result ℕ Args → Exit
  main run (ok a) = start run a
  main run (err e) = docopt_exit e

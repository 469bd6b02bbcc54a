-- ===== src/Tests/Main.antt =====
-- Runs and witnesses for src/main.rs.
use xsv.Prelude.{ℕ, ◌≡◌, ◌≢◌, refl, false, some, arith}
use xsv.Prelude.Results.{ok, err}
use xsv.Error.{CliResult, flag, io, broken_pipe, other, size_zero}
use xsv.Main.{Args, Command, count, Exit, nothing, error_of, is_broken_pipe, finish, main}
use xsv.Main.Laws.{main-Tells, Tells}

abbrev usage : ℕ → Exit
usage e = record { code = 1; shown = error_of (flag e) }

abbrev counting : Args
counting = record { arg_command = some count; flag_list = false }

-- `xsv count` whose output is closed, and any other command with an error of its own.
abbrev commands : Command → CliResult (Unit {0})
commands count = err (io broken_pipe)
commands _ = err (other size_zero)

closed_output : finish usage (err (io broken_pipe)) ≡ record { code = 0; shown = nothing }
unfolding finish is_broken_pipe
closed_output = refl

no_flag : (e : ℕ) → commands count ≢ err (flag e)
no_flag e h = ground arith

main-Tells_example : Tells (commands count) (main usage commands (ok counting))
main-Tells_example = main-Tells usage commands counting count refl refl no_flag

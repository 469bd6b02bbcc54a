-- ===== src/Cmd/Input/Laws.antt =====
-- Which flags of `input` have an effect.
use xsv.Prelude.{ℕ, Option, ◌≡◌, refl, Bool, true, false, none, some}
use xsv.Error.{Text}
use xsv.Config.{Config, from_reader, with_double_quote, with_escape, with_quoting}
use xsv.Config.Files.{Platform, reader, io_reader}
use xsv.Cmd.Input.{Args, escaped, unquoted, rconfig, run}

unread :
    (p : Platform) (no_quoting : Bool) (e : Option ℕ) (c : Config)
    → reader p (unquoted no_quoting (escaped e c)) ≡ reader p (unquoted no_quoting (escaped none c))
unfolding reader io_reader from_reader escaped unquoted with_escape with_double_quote with_quoting
unread p true none c = refl
unread p true (some e) c = refl
unread p false none c = refl
unread p false (some e) c = refl

module _ (is_tsv : Text → Bool) (toggle : Bool) where
  reader_ignores_escape :
      (p : Platform) (a : Args)
      → reader p (rconfig is_tsv toggle a)
        ≡ reader p (rconfig is_tsv toggle (record a { flag_escape = none }))
  unfolding rconfig
  reader_ignores_escape p a = unread p a.flag_no_quoting a.flag_escape _

  -- The flag --escape of `input` has no effect: with and without it the command opens the same
  -- reader and writer, writes the same records and ends with the same result, on every input.
  pub run-ignores_escape :
      (p : Platform) (a : Args)
      → run is_tsv toggle p a ≡ run is_tsv toggle p (record a { flag_escape = none })
  unfolding run
  run-ignores_escape p a = rw (reader_ignores_escape p a)

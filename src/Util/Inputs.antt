-- ===== src/Util/Inputs.antt =====
-- src/util.rs: the settings of the inputs of a command that takes several.
use xsv.Prelude.{ℕ, Bool, List, [], ◌∷◌, Option, some, map, filter, length, ltb, if◌then◌else◌}
use xsv.Prelude.Results.{Result, ok, err, ◌>>◌}
use xsv.Error.{Text, Message, many_stdin}
use xsv.Config.{Config, new_config, with_delimiter, with_no_headers, is_std}

unfoldable pub errif_greater_one_stdin : List Config → Result Message (Unit {0})
errif_greater_one_stdin inps =
    let nstd = length (filter is_std inps) in if ltb 1 nstd then err many_stdin else ok tt

-- No inputs stand for standard input.
unfoldable pub inputs_or_stdin : List Text → List Text
inputs_or_stdin [] = (b'-' ∷ []) ∷ []
inputs_or_stdin (i ∷ inps) = i ∷ inps

module _ (is_tsv : Text → Bool) (toggle : Bool) where
  unfoldable pub input_config : Option ℕ → Bool → Text → Config
  input_config delim no_headers path =
      with_no_headers toggle no_headers (with_delimiter delim (new_config is_tsv (some path)))

  unfoldable pub many_configs : List Text → Option ℕ → Bool → Result Message (List Config)
  unfolding input_config inputs_or_stdin
  many_configs inps delim no_headers = do
    errif_greater_one_stdin (map (input_config delim no_headers) (inputs_or_stdin inps))
    ok (map (input_config delim no_headers) (inputs_or_stdin inps))

-- ===== src/Tests/JoinCmd.antt =====
-- A run that src/cmd/join.rs refuses.
use xsv.Prelude.{◌≡◌, inr, refl, true, false, [], ◌∷◌, none, arith}
use xsv.Prelude.Bytes.{bytes_eq}
use xsv.Prelude.Literal.{codes}
use xsv.Prelude.Results.{Result, ok, err}
use xsv.Error.{CliResult, IoError, other, selection_lengths_differ}
use xsv.Csv.{Sink, failed}
use xsv.Config.{Config, config_selection, new_config, with_delimiter, with_no_headers, with_select}
use xsv.Select.{one, index, SelectColumns}
use xsv.Select.Resolve.{selection, index_of}
use xsv.Cmd.Join.{Args, rconf, run}
use xsv.Cmd.Join.Hits.{rows_of}
use xsv.Cmd.Join.Values.{Seekable}
use xsv.Cmd.Join.Refusals.{config1, config2, run-refuses}
use xsv.Tests.Data.{sink}
use xsv.Tests.Join.{ascii, cities, city_rows, file}

abbrev first : SelectColumns
first = record { selectors = one (index 1) ∷ []; invert = false }

abbrev first_two : SelectColumns
first_two = record { selectors = one (index 1) ∷ one (index 2) ∷ []; invert = false }

abbrev left_and_full : Args
left_and_full = record {
  arg_columns1 = first;
  arg_input1 = codes "a.csv";
  arg_columns2 = first_two;
  arg_input2 = codes "b.csv";
  flag_left = true;
  flag_right = false;
  flag_full = true;
  flag_cross = false;
  flag_output = none;
  flag_no_headers = false;
  flag_no_case = false;
  flag_nulls = false;
  flag_delimiter = none;
}

abbrev writes : Config → Result IoError Sink
writes c = ok sink

abbrev opens : Config → CliResult Seekable
opens c = ok (file cities (rows_of city_rows))

first_selected :
    config_selection (config1 (λ p. false) false opens writes left_and_full) cities ≡ ok (0 ∷ [])
unfolding config_selection selection index_of rconf new_config with_select with_no_headers
    with_delimiter bytes_eq
first_selected = refl

first_two_selected :
    config_selection (config2 (λ p. false) false opens writes left_and_full) cities
    ≡ ok (0 ∷ 1 ∷ [])
unfolding config_selection selection index_of rconf new_config with_select with_no_headers
    with_delimiter bytes_eq
first_two_selected = refl

run-refuses_example :
    run (λ p. false) false opens writes ascii left_and_full []
    ≡ (err (failed (other (selection_lengths_differ 1 2))), [])
run-refuses_example =
    run-refuses (λ p. false) false opens writes left_and_full (file cities (rows_of city_rows))
      (file cities (rows_of city_rows)) cities cities (0 ∷ []) (0 ∷ 1 ∷ []) refl refl refl refl
      first_selected first_two_selected ascii [] (inr (omega arith))

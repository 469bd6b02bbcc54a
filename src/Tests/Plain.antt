-- ===== src/Tests/Plain.antt =====
-- Runs and witnesses for src/cmd/headers.rs, src/cmd/flatten.rs and `condense` of src/util.rs.
use xsv.Prelude.{
  ℕ, ◌≡◌, ◌≤◌, ◌<◌, ◌⊎◌, refl, true, false, List, [], ◌∷◌, ◌++◌, none, some, ◌==◌, map,
}
use xsv.Prelude.Results.{ok}
use xsv.Prelude.Bytes.{bytes_eq, as_bytes, encode_char}
use xsv.Prelude.Literal.{codes}
use xsv.Error.{Bytes}
use xsv.Csv.Laws.{all_ok}
use xsv.Csv.Plain.{Plain, Takes}
use xsv.Config.{Config, from_reader, new_config, with_delimiter, with_no_headers, is_std}
use xsv.Config.Files.{reader, io_reader}
use xsv.Unicode.{Unicode}
use xsv.Util.Condense.{condense, condense_to, condense-CutAt, measure, dots, CutAt}
use xsv.Util.Inputs.{many_configs, errif_greater_one_stdin}
use xsv.Cmd.Headers
use xsv.Cmd.Headers.Laws.{run-Listing, lines, Listing, all_names}
use xsv.Cmd.Flatten
use xsv.Cmd.Flatten.Laws.{run-joined, joined, separator_line, record_lines}
use xsv.Tests.Data.{header, rows, standard}
use xsv.Tests.Files.{platform, test_is_tsv, content_file}

abbrev terminal : Plain
terminal = record { refuses = λ out b. none; flush_fails = λ out. none }

abbrev terminal-Takes : Takes terminal
terminal-Takes = record { takes = λ out b. refl; flushes = λ out. refl }

abbrev ascii : Unicode
ascii = record { from_utf8 = λ b. some b; is_whitespace = λ c. c == b' '; to_lower = λ c. c }

shortened : condense ascii (codes "abcd") (some 2) ≡ codes "ab..."
unfolding condense condense_to as_bytes encode_char
shortened = refl

condense-CutAt_example :
    ((measure (codes "abcd") (some (codes "abcd")) ≤ 2)
      × (condense ascii (codes "abcd") (some 2) ≡ codes "abcd"))
    ⊎ ((2 < measure (codes "abcd") (some (codes "abcd")))
        × (pre : Bytes) × (condense ascii (codes "abcd") (some 2) ≡ pre ++ dots)
        × CutAt 2 (codes "abcd") (some (codes "abcd")) pre)
condense-CutAt_example = condense-CutAt ascii (codes "abcd") 2

abbrev two_inputs : Headers.Args
two_inputs = record {
  arg_input = codes "a.csv" ∷ codes "b.csv" ∷ [];
  flag_just_names = false;
  flag_intersect = true;
  flag_delimiter = none;
}

abbrev of_input : List ℕ → Config
of_input p = record standard { path = some p; no_headers = true }

two_configs :
    many_configs test_is_tsv false two_inputs.arg_input none true
    ≡ ok (of_input (codes "a.csv") ∷ of_input (codes "b.csv") ∷ [])
unfolding many_configs errif_greater_one_stdin is_std new_config with_delimiter with_no_headers
    bytes_eq
two_configs = refl

opens_input :
    (p : List ℕ)
    → reader platform (of_input p)
      ≡ ok (platform.csv_reader (from_reader (of_input p)) content_file)
unfolding reader io_reader
opens_input p = refl

opens_stdin :
    reader platform standard ≡ ok (platform.csv_reader (from_reader standard) content_file)
unfolding reader io_reader
opens_stdin = refl

rows_read : (platform.csv_reader (from_reader standard) content_file).records ≡ all_ok rows
unfolding from_reader
rows_read = refl

run-Listing_example :
    (headers : List Bytes) × (Headers.run test_is_tsv false platform terminal terminal two_inputs []
      ≡ (ok tt, lines false 0 headers))
    × Listing true (all_names (header ∷ header ∷ [])) headers
run-Listing_example =
    run-Listing test_is_tsv false platform terminal terminal two_inputs
      (of_input (codes "a.csv") ∷ of_input (codes "b.csv") ∷ []) (header ∷ header ∷ []) []
      terminal-Takes terminal-Takes two_configs
      (_, opens_input (codes "a.csv"), refl, (_, opens_input (codes "b.csv"), refl, tt))

abbrev flat : Flatten.Args
flat = record { rconfig = standard; flag_condense = none; flag_separator = codes "#" }

run-joined_example :
    Flatten.run ascii terminal platform flat []
    ≡ (ok tt, joined (separator_line (codes "#")) (map (record_lines ascii flat 0 header) rows))
run-joined_example =
    run-joined ascii terminal platform flat _ header rows [] terminal-Takes opens_stdin refl
      rows_read

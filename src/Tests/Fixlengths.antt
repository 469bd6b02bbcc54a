-- ===== src/Tests/Fixlengths.antt =====
-- Runs and witnesses for src/cmd/fixlengths.rs.
use xsv.Prelude.{
  ℕ, ◌≡◌, refl, ◌++◌, ◌-◌, true, false, List, [], ◌∷◌, none, some, All, map, take, drop, length,
  replicate,
}
use xsv.Prelude.Results.{ok}
use xsv.Prelude.Literal.{codes}
use xsv.Error.{ByteRecord}
use xsv.Csv.{Reader}
use xsv.Csv.Laws.{all_ok}
use xsv.Config.{Config, is_std}
use xsv.Cmd.Fixlengths.{Args, run, resize, count_fields}
use xsv.Cmd.Fixlengths.Counted.{Empty}
use xsv.Cmd.Fixlengths.Laws.{run-IsLongest, IsLongest}
use xsv.Tests.Data.{standard, sink, sink-Accepts}

abbrev a_file : Config
a_file = record standard { path = some (codes "in.csv"); no_headers = true; flexible = true }

abbrev to_longest : Args
to_longest = record { config = a_file; flag_length = none }

abbrev ragged : List ByteRecord
ragged = (codes "a" ∷ []) ∷ (codes "b" ∷ codes "c" ∷ [] ∷ [] ∷ []) ∷ []

abbrev ragged_reader : Reader
ragged_reader = record {
  has_headers = false;
  headers = ok (codes "a" ∷ []);
  records = all_ok ragged;
}

not_std : is_std a_file ≡ false
unfolding is_std
not_std = refl

run-IsLongest_example :
    (len : ℕ) × IsLongest 0 ragged len
    × (run to_longest ragged_reader sink [] ≡ (ok tt, map (resize len) ragged))
    × All
        (λ r.
          (resize len r ≡ take len r ++ replicate (len - length r) [])
          × (length (resize len r) ≡ len)
          × All Empty (drop len r))
        ragged
run-IsLongest_example =
    run-IsLongest sink sink-Accepts to_longest ragged_reader ragged [] refl not_std refl

padded : resize 2 (codes "a" ∷ []) ≡ codes "a" ∷ [] ∷ []
unfolding resize
padded = refl

trailing_fields : count_fields 0 0 (codes "b" ∷ codes "c" ∷ [] ∷ [] ∷ []) ≡ 2
unfolding count_fields
trailing_fields = refl

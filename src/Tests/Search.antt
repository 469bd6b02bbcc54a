-- ===== src/Tests/Search.antt =====
-- Runs and witnesses for src/cmd/search.rs and src/cmd/count.rs.
use xsv.Prelude.{◌≡◌, refl, Bool, true, false, List, [], ◌∷◌, some, none, filter, map}
use xsv.Prelude.Results.{ok}
use xsv.Prelude.Bytes.{bytes_eq}
use xsv.Prelude.Literal.{codes}
use xsv.Error.{Bytes, ByteRecord}
use xsv.Config.{config_selection}
use xsv.Select.{one, index}
use xsv.Select.Resolve.{selection, index_of}
use xsv.Cmd.Count
use xsv.Cmd.Count.Laws.{run-length}
use xsv.Cmd.Search.{Args, run}
use xsv.Cmd.Search.Laws.{found, run-found}
use xsv.Tests.Data.{
  standard, header, rows, all_rows, reader, indexed, indexed-Describes, sink, sink-Accepts,
}

run-length_example : (Count.run (some indexed) reader ≡ ok 3) × (Count.run none reader ≡ ok 3)
run-length_example = run-length indexed all_rows rows indexed-Describes refl

abbrev is_b : Bytes → Bool
is_b f = bytes_eq f (codes "b")

abbrev by_first : Args
by_first = record {
  rconfig = record standard {
    select_columns = some (record { selectors = one (index 1) ∷ []; invert = false });
  };
  flag_invert_match = true;
}

abbrev keys : List (List Bytes × ByteRecord)
keys =
    (codes "b" ∷ [], codes "b" ∷ codes "x" ∷ [])
    ∷ (codes "a" ∷ [], codes "a" ∷ codes "y" ∷ [])
    ∷ (codes "b" ∷ [], codes "b" ∷ codes "z" ∷ [])
    ∷ []

first_selected : config_selection by_first.rconfig header ≡ ok (0 ∷ [])
unfolding config_selection selection index_of
first_selected = refl

run-found_example :
    run is_b by_first reader sink []
    ≡ (ok tt, header ∷ map (λ r. r.1) (filter (found is_b true) keys))
run-found_example =
    run-found is_b by_first reader sink header [] (0 ∷ []) keys sink-Accepts refl first_selected
      refl ((refl, refl), ((refl, refl), ((refl, refl), tt)))

others : filter (found is_b true) keys ≡ (codes "a" ∷ [], codes "a" ∷ codes "y" ∷ []) ∷ []
unfolding bytes_eq
others = refl

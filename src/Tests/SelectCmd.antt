-- ===== src/Tests/SelectCmd.antt =====
-- Runs and witnesses for src/cmd/select.rs.
use xsv.Prelude.{◌≡◌, refl, false, List, [], ◌∷◌, some, map, arith}
use xsv.Prelude.Results.{ok}
use xsv.Prelude.Literal.{codes}
use xsv.Error.{Bytes, ByteRecord}
use xsv.Config.{Config, config_selection}
use xsv.Select.{one, index}
use xsv.Select.Resolve.{selection, index_of}
use xsv.Select.Row.{select}
use xsv.Cmd.Select.{run}
use xsv.Cmd.Select.Laws.{run-select}
use xsv.Tests.Data.{standard, header, rows, reader, sink, sink-Accepts}

abbrev swapped : Config
swapped = record standard {
  select_columns = some (record { selectors = one (index 2) ∷ one (index 1) ∷ []; invert = false });
}

both_selected : config_selection swapped header ≡ ok (1 ∷ 0 ∷ [])
unfolding config_selection selection index_of
both_selected = refl

run-select_example :
    (fields : List Bytes) × (selected : List ByteRecord) × (select (1 ∷ 0 ∷ []) header
      ≡ some fields)
    × (map (select (1 ∷ 0 ∷ [])) rows ≡ map some selected)
    × (run swapped reader sink [] ≡ (ok tt, fields ∷ selected))
run-select_example =
    run-select swapped reader sink header (1 ∷ 0 ∷ []) rows [] sink-Accepts refl refl both_selected
      (omega arith) (refl, (refl, (refl, tt)))

city_first : select (1 ∷ 0 ∷ []) header ≡ some (codes "city" ∷ codes "name" ∷ [])
unfolding select
city_first = refl

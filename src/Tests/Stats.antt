-- ===== src/Tests/Stats.antt =====
-- Runs and witnesses for src/cmd/stats.rs.
use xsv.Prelude.{◌≡◌, refl, true, List, [], ◌∷◌, some, All, arith}
use xsv.Prelude.Literal.{codes}
use xsv.Error.{Bytes}
use xsv.Select.Number.{digits_value}
use xsv.Cmd.Sort.Compare.{parse_int}
use xsv.Cmd.Stats.{Floats, Stats, from_sample, new_stats, compute, stats_merge}
use xsv.Cmd.Stats.Sums.{ReadsIntegers}
use xsv.Cmd.Stats.Integers.{IsInteger, stats_merge-compute}

-- A stand-in for floats: there is one, and every text is it.
abbrev one_float : Floats
one_float = record {
  Float64 = Unit {0};
  is_utf8 = λ s. true;
  parse_float = λ s. some tt;
  as_float = λ b. tt;
  add_float = λ x y. tt;
}

abbrev one_float-ReadsIntegers : ReadsIntegers one_float
one_float-ReadsIntegers s i h = (tt, refl)

abbrev ages : List Bytes
ages = codes "12" ∷ [] ∷ []

abbrev years : List Bytes
years = codes "-3" ∷ []

ages-IsInteger : All (IsInteger one_float) ages
unfolding from_sample parse_int digits_value
ages-IsInteger = (omega arith, (omega arith, tt))

years-IsInteger : All (IsInteger one_float) years
unfolding from_sample parse_int digits_value
years-IsInteger = (omega arith, tt)

stats_merge-compute_example :
    (a : Stats one_float) × (b : Stats one_float) × (compute one_float (new_stats one_float) ages
      ≡ some a)
    × (compute one_float (new_stats one_float) years ≡ some b)
    × (compute one_float (new_stats one_float) (codes "12" ∷ [] ∷ codes "-3" ∷ [])
        ≡ some (stats_merge one_float a b))
stats_merge-compute_example =
    stats_merge-compute one_float ages years ages-IsInteger years-IsInteger

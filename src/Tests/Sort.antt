-- ===== src/Tests/Sort.antt =====
-- Runs and witnesses for src/cmd/sort.rs.
use Prim.Native.Nat.{Ordering}
use xsv.Prelude.{◌≡◌, refl, true, false, List, [], ◌∷◌, none, some, All}
use xsv.Prelude.Results.{ok}
use xsv.Prelude.Literal.{codes}
use xsv.Prelude.Sort.{sort_by}
use xsv.Error.{Bytes, ByteRecord}
use xsv.Csv.{write_record}
use xsv.Config.{Config, config_selection, write_headers}
use xsv.Select.{one, index}
use xsv.Select.Resolve.{selection, index_of}
use xsv.Select.Number.{digits_value}
use xsv.Select.Row.{select}
use xsv.Cmd.Sort.{Args, run, sorted, comparison}
use xsv.Cmd.Sort.Compare.{
  Numerals, Int64, pos, negsuc, parse_int, iter_cmp, iter_cmp_num, compare_int,
}
use xsv.Cmd.Sort.Numeric.{IsInteger, iter_cmp_num-iter_cmp}
use xsv.Cmd.Sort.Laws.{run-IsSortOf, IsSortOf, lexical, Fits}
use xsv.Tests.Data.{standard, header, reader, sink, sink-Accepts}

-- A stand-in for floats: there is one, and every text is it.
abbrev one_float : Numerals
one_float = record {
  Float64 = Unit {0};
  is_utf8 = λ s. true;
  parse_float = λ s. none;
  as_float = λ i. tt;
  partial_cmp = λ x y. none;
}

abbrev settings : Config
settings = record standard {
  select_columns = some (record { selectors = one (index 1) ∷ []; invert = false });
}

abbrev by_name : Args
by_name = record { rconfig = settings; flag_numeric = false; flag_reverse = false }

abbrev keys : List (List Bytes × ByteRecord)
keys =
    (codes "b" ∷ [], codes "b" ∷ codes "x" ∷ [])
    ∷ (codes "a" ∷ [], codes "a" ∷ codes "y" ∷ [])
    ∷ (codes "b" ∷ [], codes "b" ∷ codes "z" ∷ [])
    ∷ []

selected : config_selection settings header ≡ ok (0 ∷ [])
unfolding config_selection selection index_of
selected = refl

fits : All (Fits (0 ∷ [])) keys
unfolding select
fits = (refl, (refl, (refl, tt)))

headers_first : write_headers false reader sink [] ≡ (ok tt, header ∷ [])
unfolding write_headers write_record
headers_first = refl

run-IsSortOf_example :
    (rows : List ByteRecord) × (run one_float by_name reader sink [] ≡ (ok tt, header ∷ rows))
    × IsSortOf (lexical false) (0 ∷ []) keys rows
run-IsSortOf_example =
    run-IsSortOf one_float by_name reader sink header [] (header ∷ []) (0 ∷ []) keys sink-Accepts
      refl refl selected refl fits headers_first

stable_order :
    sorted one_float by_name keys
    ≡ (codes "a" ∷ codes "y" ∷ [])
      ∷ (codes "b" ∷ codes "x" ∷ [])
      ∷ (codes "b" ∷ codes "z" ∷ [])
      ∷ []
unfolding sorted comparison iter_cmp sort_by
stable_order = refl

negative_number : parse_int (codes "-12") ≡ some (negsuc 11)
unfolding parse_int digits_value
negative_number = refl

abbrev nine : List (Bytes × Int64)
nine = (codes "9", pos 9) ∷ []

abbrev ten : List (Bytes × Int64)
ten = (codes "10", pos 10) ∷ []

nine_read : All (IsInteger one_float) nine
unfolding parse_int digits_value
nine_read = ((refl, refl), tt)

ten_read : All (IsInteger one_float) ten
unfolding parse_int digits_value
ten_read = ((refl, refl), tt)

iter_cmp_num-iter_cmp_example :
    iter_cmp_num one_float (codes "9" ∷ []) (codes "10" ∷ [])
    ≡ iter_cmp compare_int (pos 9 ∷ []) (pos 10 ∷ [])
iter_cmp_num-iter_cmp_example = iter_cmp_num-iter_cmp one_float nine ten nine_read ten_read

by_value : iter_cmp compare_int (pos 9 ∷ []) (pos 10 ∷ []) ≡ Ordering.lt
unfolding iter_cmp compare_int
by_value = refl

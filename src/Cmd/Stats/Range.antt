-- ===== src/Cmd/Stats/Range.antt =====
-- src/cmd/stats.rs: the least and the greatest value of a column, and its shortest and longest.
pub mod Agree
pub mod Parts
pub mod Reading
pub mod Total
use xsv.Prelude.{ℕ, List, [], ◌∷◌, Option, none, some, length, if◌then◌else◌}
use xsv.Error.{Text, Bytes}
use xsv.Select.Syntax.{decimal}
use xsv.Cmd.Sort.Compare.{Int64, parse_int}
use xsv.Cmd.Stats.{
  Floats, FieldType, unknown, null, unicode, float, integer, from_sample, merge, bits,
  float_from_bytes,
}

-- `MinMax` of the stats crate.
pub record MinMax (T : Type 0) : Type 1 where
  pub Kept : Type 0
  pub nothing : Kept
  pub keep : T → Kept → Kept
  pub join : Kept → Kept → Kept
  pub min : Kept → Option T
  pub max : Kept → Option T

-- What the model takes from outside: the four instances of `MinMax`, `n as i64` of a float, and how
-- values are shown.
pub record Extremes (n : Floats) : Type 1 where
  pub of_strings : MinMax Bytes
  pub of_lengths : MinMax ℕ
  pub of_integers : MinMax Int64
  pub of_floats : MinMax n.Float64
  pub as_integer : n.Float64 → Int64
  pub lossy_text : Bytes → Text
  pub integer_text : Int64 → Text
  pub float_text : n.Float64 → Text

pub record TypedMinMax (n : Floats) (m : Extremes n) : Type 0 where
  pub strings : m.of_strings.Kept
  pub str_len : m.of_lengths.Kept
  pub integers : m.of_integers.Kept
  pub floats : m.of_floats.Kept

-- `str::from_utf8(..).ok().and_then(|s| s.parse::<i64>().ok())`.
unfoldable pub read_int : Floats → Bytes → Option Int64
read_int n s = if n.is_utf8 s then parse_int s else none

unfoldable pub both : {T : Type 0} → (T → Text) → Option T → Option T → Option (Text × Text)
both show (some a) (some b) = some (show a, show b)
both show (some a) none = none
both show none b = none

module _ (n : Floats) (m : Extremes n) where
  -- `Default for TypedMinMax`.
  abbrev pub no_extremes : TypedMinMax n m
  no_extremes = record {
    strings = m.of_strings.nothing;
    str_len = m.of_lengths.nothing;
    integers = m.of_integers.nothing;
    floats = m.of_floats.nothing;
  }

  unfoldable pub keep_float : TypedMinMax n m → Option n.Float64 → Option (TypedMinMax n m)
  keep_float s none = none
  keep_float s (some f) = some (record s {
    floats = m.of_floats.keep f s.floats;
    integers = m.of_integers.keep (m.as_integer f) s.integers;
  })

  unfoldable pub keep_integer : TypedMinMax n m → Option Int64 → Option (TypedMinMax n m)
  keep_integer s none = none
  keep_integer s (some i) = some (record s {
    integers = m.of_integers.keep i s.integers;
    floats = m.of_floats.keep (n.as_float (bits i)) s.floats;
  })

  -- The match on the type; there is no result where the source panics.
  unfoldable pub keep_number : TypedMinMax n m → FieldType → Bytes → Option (TypedMinMax n m)
  unfolding keep_float keep_integer
  keep_number s float sample = keep_float s (float_from_bytes n sample)
  keep_number s integer sample = keep_integer s (read_int n sample)
  keep_number s unicode sample = some s
  keep_number s unknown sample = some s
  keep_number s null sample = some s

  -- `TypedMinMax::add`.
  unfoldable pub minmax_add : TypedMinMax n m → FieldType → Bytes → Option (TypedMinMax n m)
  unfolding keep_number
  minmax_add s t [] = some (record s { str_len = m.of_lengths.keep 0 s.str_len })
  minmax_add s t (c ∷ cs) =
      keep_number
        (record s {
          str_len = m.of_lengths.keep (length (c ∷ cs)) s.str_len;
          strings = m.of_strings.keep (c ∷ cs) s.strings;
        })
        t (c ∷ cs)

  -- `Commute for TypedMinMax`.
  unfoldable pub minmax_merge : TypedMinMax n m → TypedMinMax n m → TypedMinMax n m
  minmax_merge s t = record {
    strings = m.of_strings.join s.strings t.strings;
    str_len = m.of_lengths.join s.str_len t.str_len;
    integers = m.of_integers.join s.integers t.integers;
    floats = m.of_floats.join s.floats t.floats;
  }

  unfoldable pub len_range : TypedMinMax n m → Option (Text × Text)
  len_range s = both decimal (m.of_lengths.min s.str_len) (m.of_lengths.max s.str_len)

  -- `TypedMinMax::show`.
  unfoldable pub show : TypedMinMax n m → FieldType → Option (Text × Text)
  show s null = none
  show s unicode = both m.lossy_text (m.of_strings.min s.strings) (m.of_strings.max s.strings)
  show s unknown = both m.lossy_text (m.of_strings.min s.strings) (m.of_strings.max s.strings)
  show s integer = both m.integer_text (m.of_integers.min s.integers) (m.of_integers.max s.integers)
  show s float = both m.float_text (m.of_floats.min s.floats) (m.of_floats.max s.floats)

-- `Stats`, as far as its type and its extremes go.
pub record Ranged (n : Floats) (m : Extremes n) : Type 0 where
  pub typ : FieldType
  pub minmax : TypedMinMax n m

module _ (n : Floats) (m : Extremes n) where
  abbrev pub new_ranged : Ranged n m
  new_ranged = record { typ = null; minmax = no_extremes n m }

  abbrev pub with_minmax : FieldType → Option (TypedMinMax n m) → Option (Ranged n m)
  with_minmax t none = none
  with_minmax t (some s) = some (record { typ = t; minmax = s })

  unfoldable pub add_ranged : Ranged n m → Bytes → Option (Ranged n m)
  add_ranged s sample =
      with_minmax (merge s.typ (from_sample n sample))
        (minmax_add n m s.minmax (merge s.typ (from_sample n sample)) sample)

  -- The loop of `compute`, for one column.
  unfoldable pub compute_ranged : Ranged n m → List Bytes → Option (Ranged n m)
  compute_ranged s [] = some s
  compute_ranged s (x ∷ xs) = elim (add_ranged s x) [ none ↦ none | some s' ↦ compute_ranged s' xs ]

  unfoldable pub merge_ranged : Ranged n m → Ranged n m → Ranged n m
  merge_ranged s t = record { typ = merge s.typ t.typ; minmax = minmax_merge n m s.minmax t.minmax }

-- ===== src/Cmd/Stats/Column.antt =====
-- src/cmd/stats.rs: all the statistics of a column and the record that shows them.
pub mod Shape
use xsv.Prelude.{
  ℕ, ◌-◌, ◌^◌, Bool, true, false, ◌||◌, List, [], ◌∷◌, ◌++◌, Option, none, some, ltb, if◌then◌else◌,
}
use xsv.Prelude.Literal.{codes}
use xsv.Error.{Text, Bytes}
use xsv.Select.Syntax.{decimal}
use xsv.Cmd.Stats.{
  Floats, FieldType, unknown, null, unicode, float, integer, from_sample, merge, TypedSum, sum_add,
  float_from_bytes, i64_mod,
}
use xsv.Cmd.Stats.Range.{Extremes, TypedMinMax, no_extremes, minmax_add, show, len_range}

-- `OnlineStats`, and `Unsorted` over byte strings and over floats, of the stats crate.
pub record Summaries (n : Floats) : Type 1 where
  pub Online : Type 0
  pub no_online : Online
  pub add_online : n.Float64 → Online → Online
  pub add_null : Online → Online
  pub mean : Online → n.Float64
  pub stddev : Online → n.Float64
  pub Values : Type 0
  pub no_values : Values
  pub add_value : Bytes → Values → Values
  pub mode_of : Values → Option Bytes
  pub cardinality_of : Values → ℕ
  pub Numbers : Type 0
  pub no_numbers : Numbers
  pub add_number : n.Float64 → Numbers → Numbers
  pub median_of : Numbers → Option n.Float64

pub record Flags : Type 0 where
  pub flag_everything : Bool
  pub flag_mode : Bool
  pub flag_cardinality : Bool
  pub flag_median : Bool
  pub flag_nulls : Bool

pub record WhichStats : Type 0 where
  pub include_nulls : Bool
  pub sum : Bool
  pub range : Bool
  pub dist : Bool
  pub cardinality : Bool
  pub median : Bool
  pub mode : Bool

-- The argument of `Stats::new` in `Args::new_stats`.
unfoldable pub which_of : Flags → WhichStats
which_of a = record {
  include_nulls = a.flag_nulls;
  sum = true;
  range = true;
  dist = true;
  cardinality = a.flag_cardinality || a.flag_everything;
  median = a.flag_median || a.flag_everything;
  mode = a.flag_mode || a.flag_everything;
}

-- `Args::stat_headers`.
unfoldable pub stat_headers : Flags → List Text
stat_headers a =
    (codes "field"
      ∷ codes "type"
      ∷ codes "sum"
      ∷ codes "min"
      ∷ codes "max"
      ∷ codes "min_length"
      ∷ codes "max_length"
      ∷ codes "mean"
      ∷ codes "stddev"
      ∷ [])
    ++ (if a.flag_median || a.flag_everything then codes "median" ∷ [] else [])
    ++ (if a.flag_mode || a.flag_everything then codes "mode" ∷ [] else [])
    ++ (if a.flag_cardinality || a.flag_everything then codes "cardinality" ∷ [] else [])

abbrev pub is_number : FieldType → Bool
is_number float = true
is_number integer = true
is_number null = false
is_number unicode = false
is_number unknown = false

-- `Display for FieldType`.
abbrev pub type_name : FieldType → Text
type_name unknown = codes "Unknown"
type_name null = codes "NULL"
type_name unicode = codes "Unicode"
type_name float = codes "Float"
type_name integer = codes "Integer"

-- The text of an `i64`, given by its bits.
abbrev pub i64_text : ℕ → Text
i64_text b = if ltb b (2 ^ 63) then decimal b else b'-' ∷ decimal (i64_mod - b)

abbrev pub when {ℓ} : {A : Type ℓ} → Bool → A → Option A
when true a = some a
when false a = none

abbrev pub on_some : {A B : Type 0} → (A → B) → Option A → Option B
on_some f none = none
on_some f (some a) = some (f a)

-- A part that is there takes the sample, and may panic; the rest goes on with what it has become.
abbrev pub with_part : {A B : Type 0} → (A → Option A) → Option A → (Option A → Option B) → Option B
with_part f none k = k none
with_part f (some a) k = elim (f a) [ none ↦ none | some b ↦ k (some b) ]

-- `Stats`.
pub record Column (n : Floats) (m : Extremes n) (q : Summaries n) : Type 0 where
  pub typ : FieldType
  pub sum : Option (TypedSum n)
  pub minmax : Option (TypedMinMax n m)
  pub online : Option q.Online
  pub mode : Option q.Values
  pub median : Option q.Numbers
  pub which : WhichStats

module _ (n : Floats) (m : Extremes n) (q : Summaries n) where
  -- `Stats::new`.
  unfoldable pub new_column : WhichStats → Column n m q
  new_column which = record {
    typ = null;
    sum = when which.sum (record { sum_integer = 0; sum_float = none });
    minmax = when which.range (no_extremes n m);
    online = when which.dist q.no_online;
    mode = when (which.mode || which.cardinality) q.no_values;
    median = when which.median q.no_numbers;
    which = which;
  }

  abbrev pub count_null : Column n m q → Column n m q
  count_null s =
      if s.which.include_nulls then record s { online = on_some q.add_null s.online } else s

  -- The arm for numbers, on what `from_bytes` returns, which the source unwraps.
  abbrev pub count_number : Column n m q → Option n.Float64 → Option (Column n m q)
  count_number s none = none
  count_number s (some x) = some (record s {
    median = on_some (q.add_number x) s.median;
    online = on_some (q.add_online x) s.online;
  })

  abbrev pub count_sample : Column n m q → FieldType → Bytes → Option (Column n m q)
  count_sample s null sample = some (count_null s)
  count_sample s unknown sample = count_number s (float_from_bytes n sample)
  count_sample s unicode sample = count_number s (float_from_bytes n sample)
  count_sample s float sample = count_number s (float_from_bytes n sample)
  count_sample s integer sample = count_number s (float_from_bytes n sample)

  -- The match on `self.typ`; `sample_type` is that of the sample.
  unfoldable pub add_dist : Column n m q → FieldType → FieldType → Bytes → Option (Column n m q)
  add_dist s unknown sample_type sample = some s
  add_dist s null sample_type sample = some (count_null s)
  add_dist s unicode sample_type sample = some s
  add_dist s float sample_type sample = count_sample s sample_type sample
  add_dist s integer sample_type sample = count_sample s sample_type sample

  -- `Stats::add`; there is no result where the source panics.
  unfoldable pub add_sample : Column n m q → Bytes → Option (Column n m q)
  add_sample s sample =
      let t = merge s.typ (from_sample n sample) in
      with_part (λ v. sum_add n v t sample) s.sum
        (λ sum.
          with_part (λ v. minmax_add n m v t sample) s.minmax
            (λ minmax.
              add_dist
                (record s {
                  typ = t;
                  sum = sum;
                  minmax = minmax;
                  mode = on_some (q.add_value sample) s.mode;
                })
                t (from_sample n sample) sample))

  -- `TypedSum::show`.
  unfoldable pub show_sum : TypedSum n → FieldType → Option Text
  show_sum s null = none
  show_sum s unicode = none
  show_sum s unknown = none
  show_sum s integer = some (i64_text s.sum_integer)
  show_sum s float = some (m.float_text (elim s.sum_float [ none ↦ n.as_float 0 | some f ↦ f ]))

  abbrev pub one_piece : Option Text → List Text
  one_piece none = [] ∷ []
  one_piece (some t) = t ∷ []

  abbrev pub two_pieces : Option (Text × Text) → List Text
  two_pieces none = [] ∷ [] ∷ []
  two_pieces (some (s, t)) = s ∷ t ∷ []

  -- `and_then` on an optional part.
  abbrev pub of_part : {A B : Type 0} → (A → Option B) → Option A → Option B
  of_part f none = none
  of_part f (some a) = f a

  unfoldable pub dist_pieces : Bool → Option q.Online → List Text
  dist_pieces false o = [] ∷ [] ∷ []
  dist_pieces true none = [] ∷ [] ∷ []
  dist_pieces true (some v) = m.float_text (q.mean v) ∷ m.float_text (q.stddev v) ∷ []

  unfoldable pub median_pieces : Bool → Option n.Float64 → List Text
  median_pieces wanted none = if wanted then [] ∷ [] else []
  median_pieces wanted (some v) = m.float_text v ∷ []

  unfoldable pub mode_text : Option Bytes → Text
  mode_text none = codes "N/A"
  mode_text (some s) = m.lossy_text s

  unfoldable pub mode_pieces : WhichStats → Option q.Values → List Text
  mode_pieces which none =
      (if which.mode then [] ∷ [] else []) ++ (if which.cardinality then [] ∷ [] else [])
  mode_pieces which (some v) =
      (if which.mode then mode_text (q.mode_of v) ∷ [] else [])
      ++ (if which.cardinality then decimal (q.cardinality_of v) ∷ [] else [])

  -- `Stats::to_record`.
  unfoldable pub to_record : Column n m q → List Text
  to_record s =
      type_name s.typ ∷ one_piece (of_part (λ sum. show_sum sum s.typ) s.sum)
      ++ two_pieces (of_part (λ mm. show n m mm s.typ) s.minmax)
      ++ two_pieces (of_part (len_range n m) s.minmax)
      ++ dist_pieces (is_number s.typ) s.online
      ++ median_pieces s.which.median (of_part q.median_of s.median)
      ++ mode_pieces s.which s.mode

-- ===== src/Cmd/Stats.antt =====
-- src/cmd/stats.rs: the type of a column and its sum, on a stream of samples and merged from chunks.
-- A 64-bit float is a type given with what the standard library answers for it. An `i64` in a sum is
-- its 64 bits, read as a natural number; the addition wraps as in a release build.
pub mod Parallel
pub mod Range
pub mod Types
pub mod Sums
pub mod Column
pub mod Command
pub mod Integers
use xsv.Prelude.{
  ℕ, ◌+◌, ◌-◌, ◌%◌, ◌^◌, Bool, true, false, List, [], ◌∷◌, Option, none, some, if◌then◌else◌,
}
use xsv.Error.{Bytes}
use xsv.Cmd.Sort.Compare.{Int64, pos, negsuc, parse_int}

pub record Floats : Type 1 where
  pub Float64 : Type 0
  pub is_utf8 : Bytes → Bool
  pub parse_float : Bytes → Option Float64
  pub as_float : ℕ → Float64
  pub add_float : Float64 → Float64 → Float64

pub data FieldType : Type 0 where
  unknown null unicode float integer : FieldType

of_string : {F : Type 0} → Option Int64 → Option F → FieldType
of_string (some i) f = integer
of_string none (some f) = float
of_string none none = unicode

-- `FieldType::from_sample`.
unfoldable pub from_sample : Floats → Bytes → FieldType
unfolding of_string
from_sample n [] = null
from_sample n (c ∷ cs) =
    if n.is_utf8 (c ∷ cs) then of_string (parse_int (c ∷ cs)) (n.parse_float (c ∷ cs)) else unknown

-- `Commute for FieldType`.
unfoldable pub merge : FieldType → FieldType → FieldType
merge unicode unicode = unicode
merge float float = float
merge integer integer = integer
merge null t = t
merge t null = t
merge unknown t = unknown
merge t unknown = unknown
merge float integer = float
merge integer float = float
merge unicode float = unicode
merge float unicode = unicode
merge unicode integer = unicode
merge integer unicode = unicode

abbrev pub i64_mod : ℕ
i64_mod = 2 ^ 64

-- The bits of an `i64`.
unfoldable pub bits : Int64 → ℕ
bits (pos n) = n % i64_mod
bits (negsuc n) = i64_mod - 1 - n

pub record TypedSum (n : Floats) : Type 0 where
  pub sum_integer : ℕ
  pub sum_float : Option n.Float64

-- `from_bytes`.
unfoldable pub float_from_bytes : (n : Floats) → Bytes → Option n.Float64
float_from_bytes n s = if n.is_utf8 s then n.parse_float s else none

unfoldable pub int_from_bytes : Floats → Bytes → Option ℕ
int_from_bytes n s =
    if n.is_utf8 s then (elim (parse_int s) [ none ↦ none | some i ↦ some (bits i) ]) else none

module _ (n : Floats) where
  -- The two arms of `TypedSum::add`, on what `from_bytes` returns, which the source unwraps.
  add_to_float : TypedSum n → Option n.Float64 → Option n.Float64 → Option (TypedSum n)
  add_to_float s f none = none
  add_to_float s none (some x) =
      some (record s { sum_float = some (n.add_float (n.as_float s.sum_integer) x) })
  add_to_float s (some f) (some x) = some (record s { sum_float = some (n.add_float f x) })

  add_integer : TypedSum n → Option ℕ → Option (TypedSum n)
  add_integer s none = none
  add_integer s (some x) = some (record s { sum_integer = (s.sum_integer + x) % i64_mod })

  add_to_integer : TypedSum n → Option n.Float64 → Bytes → Option (TypedSum n)
  unfolding add_integer add_to_float
  add_to_integer s none sample = add_integer s (int_from_bytes n sample)
  add_to_integer s (some f) sample = add_to_float s (some f) (float_from_bytes n sample)

  -- `TypedSum::add`; there is no result where the source panics.
  unfoldable pub sum_add : TypedSum n → FieldType → Bytes → Option (TypedSum n)
  unfolding add_to_float add_to_integer
  sum_add s t [] = some s
  sum_add s float (c ∷ cs) = add_to_float s s.sum_float (float_from_bytes n (c ∷ cs))
  sum_add s integer (c ∷ cs) = add_to_integer s s.sum_float (c ∷ cs)
  sum_add s unknown (c ∷ cs) = some s
  sum_add s null (c ∷ cs) = some s
  sum_add s unicode (c ∷ cs) = some s

  -- `Commute for TypedSum`, on the two floats.
  merge_floats : TypedSum n → TypedSum n → Option n.Float64 → Option n.Float64 → TypedSum n
  merge_floats s t (some f1) (some f2) = record s { sum_float = some (n.add_float f1 f2) }
  merge_floats s t (some f1) none = record s {
    sum_float = some (n.add_float f1 (n.as_float t.sum_integer));
  }
  merge_floats s t none (some f2) = record s {
    sum_float = some (n.add_float (n.as_float s.sum_integer) f2);
  }
  merge_floats s t none none = record s { sum_integer = (s.sum_integer + t.sum_integer) % i64_mod }

  unfoldable pub sum_merge : TypedSum n → TypedSum n → TypedSum n
  unfolding merge_floats
  sum_merge s t = merge_floats s t s.sum_float t.sum_float

-- `Stats`, as far as its type and sum go.
pub record Stats (n : Floats) : Type 0 where
  pub typ : FieldType
  pub sum : TypedSum n

module _ (n : Floats) where
  unfoldable pub new_stats : Stats n
  new_stats = record { typ = null; sum = record { sum_integer = 0; sum_float = none } }

  add_typed : FieldType → Option (TypedSum n) → Option (Stats n)
  add_typed t none = none
  add_typed t (some s) = some (record { typ = t; sum = s })

  -- `Stats::add`.
  unfoldable pub add : Stats n → Bytes → Option (Stats n)
  unfolding add_typed
  add s sample =
      add_typed (merge s.typ (from_sample n sample))
        (sum_add n s.sum (merge s.typ (from_sample n sample)) sample)

  -- The loop of `compute`, for one column.
  unfoldable pub compute : Stats n → List Bytes → Option (Stats n)
  compute s [] = some s
  compute s (x ∷ xs) = elim (add s x) [ none ↦ none | some s' ↦ compute s' xs ]

  -- `Commute for Stats`.
  unfoldable pub stats_merge : Stats n → Stats n → Stats n
  stats_merge s t = record { typ = merge s.typ t.typ; sum = sum_merge n s.sum t.sum }

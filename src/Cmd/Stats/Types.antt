-- ===== src/Cmd/Stats/Types.antt =====
-- Merging the types of chunks.
use xsv.Prelude.{ℕ, ◌≡◌, max, arith}
use xsv.Cmd.Stats.{FieldType, unknown, null, unicode, float, integer, merge}

-- From the most specific type to the least.
abbrev pub rank : FieldType → ℕ
rank null = 0
rank integer = 1
rank float = 2
rank unicode = 3
rank unknown = 4

pub rank_injective : (s t : FieldType) → rank s ≡ rank t → s ≡ t
rank_injective s t h = ground arith

-- Merging two types gives the one that is less specific.
pub rank-merge : (s t : FieldType) → rank (merge s t) ≡ max (rank s) (rank t)
unfolding merge
rank-merge s t = ground arith

pub merge_null : (t : FieldType) → merge t null ≡ t
merge_null t = rank_injective _ _ (omega (arith, rank-merge t null))

pub merge_assoc : (s t u : FieldType) → merge (merge s t) u ≡ merge s (merge t u)
merge_assoc s t u = rank_injective _ _ (
    omega
      (arith, rank-merge (merge s t) u, rank-merge s t, rank-merge s (merge t u), rank-merge t u))

pub merge_comm : (s t : FieldType) → merge s t ≡ merge t s
merge_comm s t = rank_injective _ _ (omega (arith, rank-merge s t, rank-merge t s))

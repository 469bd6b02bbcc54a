-- ===== src/Cmd/Sort/Compare.antt =====
-- src/cmd/sort.rs: the comparisons. A 64-bit float is a type given with what the standard library
-- answers for it.
pub mod Laws
use Prim.Native.Nat.{Ordering, compare}
use xsv.Prelude.{
  ℕ, ◌+◌, ◌-◌, ◌*◌, ◌^◌, Bool, true, false, ◌&&◌, List, [], ◌∷◌, Option, none, some, leb, ltb, ◌==◌,
  if◌then◌else◌,
}
use xsv.Select.Number.{unsigned}
use xsv.Error.{Bytes}

-- `iter_cmp`, and also `Ord` on slices of bytes.
unfoldable pub iter_cmp : {A : Type 0} → (A → A → Ordering) → List A → List A → Ordering
iter_cmp cmp [] [] = Ordering.eq
iter_cmp cmp [] (y ∷ b) = Ordering.lt
iter_cmp cmp (x ∷ a) [] = Ordering.gt
iter_cmp cmp (x ∷ a) (y ∷ b) = elim (cmp x y) [
  | Ordering.eq ↦ iter_cmp cmp a b
  | Ordering.lt ↦ Ordering.lt
  | Ordering.gt ↦ Ordering.gt
]

-- `i64`: a natural number, or minus a natural number and one.
pub data Int64 : Type 0 where
  pos : ℕ → Int64
  negsuc : ℕ → Int64

unfoldable pub compare_int : Int64 → Int64 → Ordering
compare_int (pos a) (pos b) = compare a b
compare_int (pos a) (negsuc b) = Ordering.gt
compare_int (negsuc a) (pos b) = Ordering.lt
compare_int (negsuc a) (negsuc b) = compare b a

int_of : Bool → Option ℕ → Option Int64
int_of minus none = none
int_of true (some v) =
    if v == 0 then some (pos 0) else if leb v (2 ^ 63) then some (negsuc (v - 1)) else none
int_of false (some v) = if ltb v (2 ^ 63) then some (pos v) else none

-- `str::parse` to an `i64`: a sign, digits, and a value in range.
unfoldable pub parse_int : Bytes → Option Int64
unfolding int_of
parse_int [] = none
parse_int (c ∷ cs) =
    if c == b'-'
    then int_of true (unsigned cs)
    else if c == b'+'
    then int_of false (unsigned cs)
    else int_of false (unsigned (c ∷ cs))

-- `f64`: `str::parse`, the conversion of an integer, and `partial_cmp`; also `from_utf8`.
pub record Numerals : Type 1 where
  pub Float64 : Type 0
  pub is_utf8 : Bytes → Bool
  pub parse_float : Bytes → Option Float64
  pub as_float : Int64 → Float64
  pub partial_cmp : Float64 → Float64 → Option Ordering

pub data Number (F : Type 0) : Type 0 where
  int : Int64 → Number F
  float : F → Number F

unfoldable pub compare_float : (n : Numerals) → n.Float64 → n.Float64 → Ordering
compare_float n f1 f2 = elim (n.partial_cmp f1 f2) [ none ↦ Ordering.eq | some o ↦ o ]

unfoldable pub compare_num : (n : Numerals) → Number n.Float64 → Number n.Float64 → Ordering
unfolding compare_float
compare_num n (int i1) (int i2) = compare_int i1 i2
compare_num n (int i1) (float f2) = compare_float n (n.as_float i1) f2
compare_num n (float f1) (int i2) = compare_float n f1 (n.as_float i2)
compare_num n (float f1) (float f2) = compare_float n f1 f2

abbrev pub parsed : (n : Numerals) → Option Int64 → Option n.Float64 → Option (Number n.Float64)
parsed n (some i) f = some (int i)
parsed n none (some f) = some (float f)
parsed n none none = none

-- What `next_num` makes of the next field.
unfoldable pub number : (n : Numerals) → Bytes → Option (Number n.Float64)
number n bytes = if n.is_utf8 bytes then parsed n (parse_int bytes) (n.parse_float bytes) else none

-- `next_num`: `None` at the end, and also for a field that is not a number.
unfoldable pub next_num : (n : Numerals) → List Bytes → Option (Number n.Float64)
next_num n [] = none
next_num n (field ∷ fields) = number n field

-- A round of the loop of `iter_cmp_num`; `rest` is what the following rounds return.
abbrev pub num_round :
    (n : Numerals) → Option (Number n.Float64) → Option (Number n.Float64) → Ordering → Ordering
num_round n none none rest = Ordering.eq
num_round n none (some y) rest = Ordering.lt
num_round n (some x) none rest = Ordering.gt
num_round n (some x) (some y) rest = elim (compare_num n x y) [
  | Ordering.eq ↦ rest
  | Ordering.lt ↦ Ordering.lt
  | Ordering.gt ↦ Ordering.gt
]

unfoldable pub iter_cmp_num : (n : Numerals) → List Bytes → List Bytes → Ordering
iter_cmp_num n (x ∷ a) (y ∷ b) =
    num_round n (next_num n (x ∷ a)) (next_num n (y ∷ b)) (iter_cmp_num n a b)
iter_cmp_num n a b = num_round n (next_num n a) (next_num n b) Ordering.eq

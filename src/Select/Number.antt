-- ===== src/Select/Number.antt =====
-- `usize::from_str`, which select.rs calls on names and bracketed indices: an optional plus sign,
-- then decimal digits, and a value below 2^64.
use xsv.Prelude.{
  ℕ, ◌+◌, ◌*◌, ◌-◌, ◌^◌, Bool, ◌&&◌, [], ◌∷◌, Option, none, some, ltb, leb, ◌==◌, if◌then◌else◌,
}
use xsv.Error.{Text}

abbrev pub usize_mod : ℕ
usize_mod = 2 ^ 64

abbrev pub is_digit : ℕ → Bool
is_digit c = leb b'0' c && leb c b'9'

-- The digits in front add up; a value that leaves the range, or another character, is an error.
unfoldable pub digits_value : ℕ → Text → Option ℕ
digits_value acc [] = some acc
digits_value acc (c ∷ cs) =
    let rest = digits_value (acc * 10 + (c - b'0')) cs in
    if is_digit c && ltb (acc * 10 + (c - b'0')) usize_mod then rest else none

abbrev pub unsigned : Text → Option ℕ
unsigned [] = none
unsigned (c ∷ cs) = digits_value 0 (c ∷ cs)

unfoldable pub usize_from_str : Text → Option ℕ
unfolding digits_value
usize_from_str [] = none
usize_from_str (c ∷ cs) = if c == b'+' then unsigned cs else unsigned (c ∷ cs)

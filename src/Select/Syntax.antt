-- ===== src/Select/Syntax.antt =====
-- The notation of a column selection, as the usage text of src/cmd/select.rs describes it: how each
-- selector can be written down, and what it stands for. The usage text is silent on quotes inside a
-- name and on numbers in quotes; there it stands for what the parser makes of it.
use xsv.Prelude.{
  ℕ, zero, suc, ◌+◌, ◌/◌, ◌%◌, ◌<◌, ◌≡◌, Bool, false, ◌||◌, List, [], ◌∷◌, ◌++◌, Option, none, some,
  All, ltb, ◌==◌, if◌then◌else◌,
}
use xsv.Error.{Text}
use xsv.Select.{OneSelector, start, end, index, indexed_name, Selector, one, range}
use xsv.Select.Number.{usize_mod, usize_from_str}

-- Decimal digits of `n` in front of `rest`, most significant first; `n` is enough fuel.
unfoldable pub decimal_onto : ℕ → ℕ → Text → Text
decimal_onto zero n rest = (b'0' + n) ∷ rest
decimal_onto (suc f) n rest =
    let more = decimal_onto f (n / 10) ((b'0' + n % 10) ∷ rest) in
    if ltb n 10 then (b'0' + n) ∷ rest else more

unfoldable pub decimal : ℕ → Text
unfolding decimal_onto
decimal n = decimal_onto n n []

-- The ways to write down one end of a range, or a column on its own: nothing, a number, and a name
-- with or without quotes, each with or without its occurrence in brackets.
pub data Field : Type 0 where
  open_end : Field
  number : ℕ → Field
  bare : Text → Field
  bare_at : Text → ℕ → Field
  quoted : Text → Field
  quoted_at : Text → ℕ → Field

pub data Written : Type 0 where
  alone : Field → Written
  from_to : Field → Field → Written

-- Between quotes a quote is written twice.
abbrev pub escaped : Text → Text
escaped [] = []
escaped (c ∷ cs) = if c == b'"' then b'"' ∷ b'"' ∷ escaped cs else c ∷ escaped cs

abbrev pub bracket : ℕ → Text → Text
bracket i rest = b'[' ∷ (decimal i ++ b']' ∷ rest)

abbrev pub write_field : Field → Text → Text
write_field open_end rest = rest
write_field (number n) rest = decimal n ++ rest
write_field (bare s) rest = s ++ rest
write_field (bare_at s i) rest = s ++ bracket i rest
write_field (quoted s) rest = b'"' ∷ (escaped s ++ b'"' ∷ rest)
write_field (quoted_at s i) rest = b'"' ∷ (escaped s ++ b'"' ∷ bracket i rest)

abbrev pub write_selector : Written → Text → Text
write_selector (alone f) rest = write_field f rest
write_selector (from_to f g) rest = write_field f (b'-' ∷ write_field g rest)

-- Commas stand between the selectors, and may stand behind the last.
abbrev pub write_selectors : Bool → List Written → Text
write_selectors trailing [] = []
write_selectors trailing (s ∷ []) = write_selector s (if trailing then b',' ∷ [] else [])
write_selectors trailing (s ∷ t ∷ ss) = write_selector s (b',' ∷ write_selectors trailing (t ∷ ss))

abbrev pub write_columns : Bool → Bool → List Written → Text
write_columns invert trailing ss =
    if invert then b'!' ∷ write_selectors trailing ss else write_selectors trailing ss

-- A name that reads as a number is one, also in quotes.
abbrev pub named : Text → Option ℕ → OneSelector
named s none = indexed_name s 0
named s (some n) = index n

-- What a field means where an open end means `open'`. A quote that is written twice stays double.
abbrev pub meaning : OneSelector → Field → OneSelector
meaning open' open_end = open'
meaning open' (number n) = index n
meaning open' (bare s) = named s (usize_from_str s)
meaning open' (bare_at s i) = indexed_name s i
meaning open' (quoted s) = named (escaped s) (usize_from_str (escaped s))
meaning open' (quoted_at s i) = indexed_name (escaped s) i

abbrev pub selector_of : Written → Selector
selector_of (alone f) = one (meaning start f)
selector_of (from_to f g) = range (meaning start f) (meaning end g)

-- A character that ends a name without quotes.
abbrev pub is_special : ℕ → Bool
is_special c = (c == b',' || c == b'-') || c == b'['

-- A name that needs no quotes.
abbrev pub IsBare : Text → Type 0
IsBare [] = ⊥
IsBare (c ∷ cs) = ((c == b'"') ≡ false) × All (λ d. is_special d ≡ false) (c ∷ cs)

-- Numbers are below 2^64, and a name without quotes needs none.
abbrev pub IsField : Field → Type 0
IsField open_end = ⊥
IsField (number n) = n < usize_mod
IsField (bare s) = IsBare s
IsField (bare_at s i) = IsBare s × (i < usize_mod)
IsField (quoted s) = Unit
IsField (quoted_at s i) = i < usize_mod

abbrev pub IsEnd : Field → Type 0
IsEnd open_end = Unit
IsEnd f = IsField f

-- Only the ends of a range may be left open.
abbrev pub IsWritten : Written → Type 0
IsWritten (alone f) = IsField f
IsWritten (from_to f g) = IsEnd f × IsEnd g

-- ===== src/Unicode.antt =====
-- What the standard library knows of Unicode, and `str::trim` over it. The decoding of UTF-8 and the
-- tables of the characters are parameters; the encoding is `as_bytes`.
use xsv.Prelude.{ℕ, Bool, [], ◌∷◌, Option, if◌then◌else◌}
use xsv.Error.{Text, Bytes}

-- `to_lower` is the first character of `char::to_lowercase`.
pub record Unicode : Type 0 where
  pub from_utf8 : Bytes → Option Text
  pub is_whitespace : ℕ → Bool
  pub to_lower : ℕ → ℕ

module _ (u : Unicode) where
  unfoldable pub trim_start : Text → Text
  trim_start [] = []
  trim_start (c ∷ cs) = let rest = trim_start cs in if u.is_whitespace c then rest else c ∷ cs

  unfoldable pub in_front : ℕ → Text → Text
  in_front c [] = if u.is_whitespace c then [] else c ∷ []
  in_front c (d ∷ ds) = c ∷ d ∷ ds

  unfoldable pub trim_end : Text → Text
  unfolding in_front
  trim_end [] = []
  trim_end (c ∷ cs) = in_front c (trim_end cs)

  -- `str::trim`.
  unfoldable pub trim : Text → Text
  unfolding trim_start trim_end
  trim s = trim_end (trim_start s)

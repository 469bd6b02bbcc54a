-- ===== src/Select/Parser/Fields.antt =====
-- The steps of the parser over one written field: each lemma runs a step over a piece of text, with
-- any `rest` behind it.
use xsv.Prelude.{
  ℕ, ◌<◌, ◌≡◌, refl, ◌∙◌, true, false, [], ◌∷◌, ◌++◌, append-nil, append_assoc, some, All,
  All-weaken, length, ◌||◌, Option, none, if◌then◌else◌, ◌==◌, Bool-cases, inl, inr, arith,
}
use xsv.Prelude.Results.{ok}
use xsv.Error.{Text}
use xsv.Select.{OneSelector, start, end, indexed_name}
use xsv.Select.Number.{usize_mod, usize_from_str}
use xsv.Select.Syntax.{
  decimal, Field, open_end, number, bare, bare_at, quoted, quoted_at, escaped, bracket, write_field,
  named, meaning, is_special, IsBare, IsField,
}
use xsv.Select.Parser.{
  cur_is, is_end_of_field, is_end_of_selector, parse_name, parse_quoted_name, name_or_index, bump,
  parse_one, parse_first, parse_second,
}
use xsv.Select.Parser.Digits.{
  AllDigits, usize_from_str-decimal, decimal-AllDigits, parse_index-decimal, cur_is-decimal,
}

-- Where a field may stop.
abbrev pub IsStop : Text → Type 0
IsStop s = is_end_of_field s ≡ true

-- Where a name without quotes may stop.
abbrev IsNameStop : Text → Type 0
IsNameStop s = (is_end_of_field s || cur_is b'[' s) ≡ true

parse_name-plain :
    (name xs rest : Text)
    → All (λ c. is_special c ≡ false) xs
    → IsNameStop rest
    → parse_name name (xs ++ rest) ≡ (name ++ xs, rest)
unfolding parse_name
parse_name-plain name [] [] h k = rw append-nil
parse_name-plain name [] (c ∷ rest) h k = rw (append-nil, k)
parse_name-plain name (c ∷ xs) rest (d, h) k =
    rw d (parse_name-plain (name ++ c ∷ []) xs rest h k ∙ rw append_assoc)

digits_plain : (xs : Text) → AllDigits xs → All (λ c. is_special c ≡ false) xs
digits_plain xs h = All-weaken _ _ xs (λ c d. ground (arith, d)) h

parse_quoted_name-char :
    (name : Text) (c : ℕ) (t : Text)
    → (c == b'"') ≡ false
    → parse_quoted_name name (c ∷ t) ≡ parse_quoted_name (name ++ c ∷ []) t
unfolding parse_quoted_name
parse_quoted_name-char name c [] h = rw h
parse_quoted_name-char name c (d ∷ t) h = rw h

parse_quoted_name-escaped :
    (name xs rest : Text)
    → cur_is b'"' rest ≡ false
    → parse_quoted_name name (escaped xs ++ b'"' ∷ rest) ≡ ok (name ++ escaped xs, rest)
unfolding parse_quoted_name
parse_quoted_name-escaped name [] [] h = rw append-nil
parse_quoted_name-escaped name [] (d ∷ rest) h = rw (append-nil, h)
parse_quoted_name-escaped name (c ∷ xs) rest h = elim (Bool-cases (c == b'"')) [
  | inl quote ↦
      rw quote (parse_quoted_name-escaped (name ++ b'"' ∷ b'"' ∷ []) xs rest h ∙ rw append_assoc)
  | inr other ↦ rw other (
      parse_quoted_name-char name c (escaped xs ++ b'"' ∷ rest) other
      ∙ parse_quoted_name-escaped (name ++ c ∷ []) xs rest h
      ∙ rw append_assoc)
]

cur_is-IsStop :
    (b : ℕ) (rest : Text)
    → IsStop rest
    → (b == b',') ≡ false
    → (b == b'-') ≡ false
    → cur_is b rest ≡ false
cur_is-IsStop b [] k h h' = refl
cur_is-IsStop b (c ∷ cs) k h h' = ground arith

name_or_index-named : (s : Text) (o : Option ℕ) → name_or_index s o ≡ named s o
unfolding name_or_index
name_or_index-named s none = refl
name_or_index-named s (some n) = refl

stop_name : (rest : Text) → IsStop rest → IsNameStop rest
stop_name rest h = rw h

-- A name, read up to where a field may stop.
parse_one-named :
    (s name rest : Text)
    → (if cur_is b'"' s then parse_quoted_name [] (bump s) else ok (parse_name [] s))
      ≡ ok (name, rest)
    → IsStop rest
    → parse_one s ≡ ok (named name (usize_from_str name), rest)
unfolding parse_one
parse_one-named s name rest h k =
    rw (h, cur_is-IsStop b'[' rest k refl refl, name_or_index-named name (usize_from_str name))

parse_one-indexed :
    (s name : Text) (i : ℕ) (rest : Text)
    → (if cur_is b'"' s then parse_quoted_name [] (bump s) else ok (parse_name [] s))
      ≡ ok (name, bracket i rest)
    → i < usize_mod
    → parse_one s ≡ ok (indexed_name name i, rest)
unfolding parse_one
parse_one-indexed s name i rest h k = rw (h, parse_index-decimal i rest k)

cur_is-bare : (b : ℕ) (s rest : Text) → IsBare s → (b == b'"') ≡ true → cur_is b (s ++ rest) ≡ false
cur_is-bare b [] rest h k = absurd h
cur_is-bare b (c ∷ s) rest (h, hs) k = ground (arith, h, k)

plain_of : (s : Text) → IsBare s → All (λ c. is_special c ≡ false) s
plain_of [] h = absurd h
plain_of (c ∷ s) (h, hs) = hs

bare_name :
    (s rest : Text)
    → IsBare s
    → IsNameStop rest
    → (if cur_is b'"' (s ++ rest)
        then parse_quoted_name [] (bump (s ++ rest))
        else ok (parse_name [] (s ++ rest)))
      ≡ ok (s, rest)
bare_name s rest h k =
    rw (cur_is-bare b'"' s rest h refl, parse_name-plain [] s rest (plain_of s h) k)

parse_one-write_field :
    (o : OneSelector) (f : Field) (rest : Text)
    → IsField f
    → IsStop rest
    → parse_one (write_field f rest) ≡ ok (meaning o f, rest)
parse_one-write_field o open_end rest h k = absurd h
parse_one-write_field o (number n) rest h k =
    parse_one-named (decimal n ++ rest) (decimal n) rest
      (rw (
        cur_is-decimal b'"' n rest refl h,
        parse_name-plain [] (decimal n) rest (digits_plain (decimal n) (decimal-AllDigits n))
            (stop_name rest k),
      ))
      k
    ∙ rw (usize_from_str-decimal n h)
parse_one-write_field o (bare s) rest h k =
    parse_one-named (s ++ rest) s rest (bare_name s rest h (stop_name rest k)) k
parse_one-write_field o (bare_at s i) rest (h, j) k =
    parse_one-indexed (s ++ bracket i rest) s i rest (bare_name s (bracket i rest) h refl) j
parse_one-write_field o (quoted s) rest h k =
    parse_one-named (b'"' ∷ (escaped s ++ b'"' ∷ rest)) (escaped s) rest
      (parse_quoted_name-escaped [] s rest (cur_is-IsStop b'"' rest k refl refl)) k
parse_one-write_field o (quoted_at s i) rest h k =
    parse_one-indexed (b'"' ∷ (escaped s ++ b'"' ∷ bracket i rest)) (escaped s) i rest
      (parse_quoted_name-escaped [] s (bracket i rest) refl) h

-- A field does not begin with what ends one.
begins_plain :
    (xs rest : Text)
    → All (λ c. is_special c ≡ false) xs
    → 0 < length xs
    → is_end_of_field (xs ++ rest) ≡ false
begins_plain [] rest h k = absurd (omega (arith, k))
begins_plain (c ∷ xs) rest (d, h) k = ground (arith, d)

has_digit : (xs : Text) {n : ℕ} → usize_from_str xs ≡ some n → 0 < length xs
unfolding usize_from_str
has_digit [] e = cc
has_digit (c ∷ xs) e = omega arith

bare_begins : (s rest : Text) → IsBare s → is_end_of_field (s ++ rest) ≡ false
bare_begins [] rest h = absurd h
bare_begins (c ∷ s) rest (h, hs) = begins_plain (c ∷ s) rest hs (omega arith)

pub begins_field :
    (f : Field) (rest : Text) → IsField f → is_end_of_field (write_field f rest) ≡ false
begins_field open_end rest h = absurd h
begins_field (number n) rest h =
    begins_plain (decimal n) rest (digits_plain (decimal n) (decimal-AllDigits n))
      (has_digit (decimal n) (usize_from_str-decimal n h))
begins_field (bare s) rest h = bare_begins s rest h
begins_field (bare_at s i) rest (h, j) = bare_begins s (bracket i rest) h
begins_field (quoted s) rest h = refl
begins_field (quoted_at s i) rest h = refl

no_dash : (s : Text) → is_end_of_field s ≡ false → cur_is b'-' s ≡ false
no_dash [] h = refl
no_dash (c ∷ s) h = ground (arith, h)

no_end : (s : Text) → is_end_of_field s ≡ false → is_end_of_selector s ≡ false
no_end [] h = cc
no_end (c ∷ s) h = ground (arith, h)

pub parse_first-write_field :
    (f : Field) (rest : Text)
    → IsField f
    → IsStop rest
    → parse_first (write_field f rest) ≡ ok (meaning start f, rest)
unfolding parse_first
parse_first-write_field f rest h k =
    rw (no_dash (write_field f rest) (begins_field f rest h))
      (parse_one-write_field start f rest h k)

ends_field : (rest : Text) → is_end_of_selector rest ≡ true → IsStop rest
ends_field [] h = refl
ends_field (c ∷ rest) h = rw h

-- A field behind a dash, in front of the end of the selector.
pub parse_second-write_field :
    (f : Field) (rest : Text)
    → IsField f
    → is_end_of_selector rest ≡ true
    → parse_second (b'-' ∷ write_field f rest) ≡ ok (some (meaning end f), rest)
unfolding parse_second
parse_second-write_field f rest h k = rw (
  no_end (write_field f rest) (begins_field f rest h),
  parse_one-write_field end f rest h (ends_field rest k),
)

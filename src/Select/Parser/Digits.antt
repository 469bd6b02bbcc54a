-- ===== src/Select/Parser/Digits.antt =====
-- The steps of the parser over a written number.
use xsv.Prelude.{
  ℕ, zero, suc, ◌+◌, ◌-◌, ◌*◌, ◌/◌, ◌%◌, ◌<◌, ◌≤◌, ◌≡◌, ◌∙◌, true, false, [], ◌∷◌, ◌++◌, append-nil,
  append_assoc, some, All, ltb, ltb→lt, ltb→ge, Bool-cases, inl, inr, arith,
}
use xsv.Prelude.Results.{ok}
use xsv.Error.{Text}
use xsv.Select.Number.{usize_mod, is_digit, digits_value, usize_from_str}
use xsv.Select.Syntax.{decimal_onto, decimal}
use xsv.Select.Parser.{cur_is, index_digits, parse_index}

abbrev pub AllDigits : Text → Type 0
AllDigits = All (λ c. is_digit c ≡ true)

digits_value-step :
    (acc d : ℕ) (rest : Text)
    → d < 10
    → acc * 10 + d < usize_mod
    → digits_value acc ((b'0' + d) ∷ rest) ≡ digits_value (acc * 10 + d) rest
unfolding digits_value
digits_value-step acc d rest h k = let e : b'0' + d - b'0' ≡ d = omega arith in rw e (ground arith)

usize_from_str-digit :
    (d : ℕ) (rest : Text) → d < 10 → usize_from_str ((b'0' + d) ∷ rest) ≡ digits_value d rest
unfolding usize_from_str
usize_from_str-digit d rest h =
    let e : 0 * 10 + d ≡ d = omega arith in
    ground (arith, rw e at (digits_value-step 0 d rest h (omega arith)))

decimal_onto-value :
    (f n : ℕ) (rest : Text)
    → n < usize_mod
    → n ≤ f
    → usize_from_str (decimal_onto f n rest) ≡ digits_value n rest
unfolding decimal_onto
decimal_onto-value zero n rest h k = usize_from_str-digit n rest (omega arith)
decimal_onto-value (suc f) n rest h k = elim (Bool-cases (ltb n 10)) [
  | inl small ↦ rw small (usize_from_str-digit n rest (ltb→lt n 10 small))
  | inr large ↦
      let many = ltb→ge n 10 large in
      let e : n / 10 * 10 + n % 10 ≡ n = omega arith in
      rw large (
        decimal_onto-value f (n / 10) ((b'0' + n % 10) ∷ rest) (omega arith) (omega arith)
        ∙ digits_value-step (n / 10) (n % 10) rest (omega arith) (omega arith)
        ∙ rw e)
]

pub usize_from_str-decimal : (n : ℕ) → n < usize_mod → usize_from_str (decimal n) ≡ some n
unfolding decimal digits_value
usize_from_str-decimal n h = decimal_onto-value n n [] h (omega arith)

decimal_onto-AllDigits :
    (f n : ℕ) (rest : Text) → n ≤ f → AllDigits rest → AllDigits (decimal_onto f n rest)
unfolding decimal_onto
decimal_onto-AllDigits zero n rest h k = (ground arith, k)
decimal_onto-AllDigits (suc f) n rest h k = elim (Bool-cases (ltb n 10)) [
  | inl small ↦ rw small (ground (arith, ltb→lt n 10 small), k)
  | inr large ↦
      let many = ltb→ge n 10 large in
      rw large
        (decimal_onto-AllDigits f (n / 10) ((b'0' + n % 10) ∷ rest) (omega arith) (ground arith, k))
]

pub decimal-AllDigits : (n : ℕ) → AllDigits (decimal n)
unfolding decimal
decimal-AllDigits n = decimal_onto-AllDigits n n [] (omega arith) tt

index_digits-AllDigits :
    (idx xs rest : Text)
    → AllDigits xs
    → index_digits idx (xs ++ b']' ∷ rest) ≡ ok (idx ++ xs, rest)
unfolding index_digits
index_digits-AllDigits idx [] rest h = rw append-nil
index_digits-AllDigits idx (c ∷ xs) rest (d, h) =
    ground (arith, index_digits-AllDigits (idx ++ c ∷ []) xs rest h, append_assoc idx (c ∷ []) xs)

pub parse_index-decimal :
    (n : ℕ) (rest : Text)
    → n < usize_mod
    → parse_index (b'[' ∷ (decimal n ++ b']' ∷ rest)) ≡ ok (n, rest)
unfolding parse_index
parse_index-decimal n rest h =
    rw
      (index_digits-AllDigits [] (decimal n) rest (decimal-AllDigits n), usize_from_str-decimal n h)

-- A number starts with a digit.
cur_is-digits :
    (b : ℕ) {n : ℕ} (xs rest : Text)
    → is_digit b ≡ false
    → AllDigits xs
    → usize_from_str xs ≡ some n
    → cur_is b (xs ++ rest) ≡ false
unfolding usize_from_str
cur_is-digits b [] rest k h e = cc
cur_is-digits b (x ∷ xs) rest k (d, h) e = ground arith

pub cur_is-decimal :
    (b n : ℕ) (rest : Text)
    → is_digit b ≡ false
    → n < usize_mod
    → cur_is b (decimal n ++ rest) ≡ false
cur_is-decimal b n rest k h =
    cur_is-digits b (decimal n) rest k (decimal-AllDigits n) (usize_from_str-decimal n h)

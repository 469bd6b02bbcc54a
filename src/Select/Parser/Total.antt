-- ===== src/Select/Parser/Total.antt =====
-- The loop over the fields ends: every round takes at least one character, so the length of the
-- text is enough fuel.
use xsv.Prelude.{
  ℕ, zero, suc, ◌≤◌, ◌≢◌, Bool, true, false, List, [], ◌∷◌, ◌++◌, Option, none, some, length, ◌==◌,
  if◌then◌else◌, Bool-cases, inl, inr, arith,
}
use xsv.Prelude.Results.{Result, ok, err, ◌>>=◌}
use xsv.Error.{Text, Message, out_of_fuel}
use xsv.Select.{OneSelector, Selector, SelectColumns}
use xsv.Select.Number.{usize_from_str}
use xsv.Select.Parser.{
  cur_is, bump, is_end_of_selector, to_index, selector, parse_name, parse_quoted_name, index_digits,
  parse_index, parse_one, parse_first, parse_second, end_of_selector, parse_selector, parse_loop,
  parse, parse_columns,
}

-- A step leaves at most `n` characters, and fails for a reason of the source.
abbrev Leaves {ℓ} : {A : Type ℓ} → ℕ → Result Message (A × Text) → Type 0
Leaves n (ok (a, s)) = length s ≤ n
Leaves n (err e) = e ≢ out_of_fuel

Leaves-mono {ℓ} :
    {A : Type ℓ} (m n : ℕ) (r : Result Message (A × Text)) → m ≤ n → Leaves m r → Leaves n r
Leaves-mono m n (ok (a, s)) h l = omega arith
Leaves-mono m n (err e) h l = l

Leaves-bind {ℓ κ} :
    {A : Type ℓ} {B : Type κ} (m n : ℕ) (r : Result Message (A × Text))
    (f : A × Text → Result Message (B × Text))
    → Leaves m r
    → ((a : A) (s : Text) → length s ≤ m → Leaves n (f (a, s)))
    → Leaves n (r >>= f)
Leaves-bind m n (ok (a, s)) f h k = k a s h
Leaves-bind m n (err e) f h k = h

Leaves-if {ℓ} :
    {A : Type ℓ} (n : ℕ) (b : Bool) (r q : Result Message (A × Text))
    → Leaves n r
    → Leaves n q
    → Leaves n (if b then r else q)
Leaves-if n true r q hr hq = hr
Leaves-if n false r q hr hq = hq

length-bump : (s : Text) → length (bump s) ≤ length s
length-bump [] = omega arith
length-bump (c ∷ cs) = omega arith

length-parse_name : (name s : Text) → length (parse_name name s).1 ≤ length s
unfolding parse_name
length-parse_name name [] = omega arith
length-parse_name name (c ∷ cs) = ground (arith, length-parse_name (name ++ c ∷ []) cs)

parse_quoted_name-Leaves : (name s : Text) → Leaves (length s) (parse_quoted_name name s)
unfolding parse_quoted_name
parse_quoted_name-Leaves name [] = ground arith
parse_quoted_name-Leaves name (c ∷ []) = Leaves-if _ (c == b'"') _ _ (omega arith) (ground arith)
parse_quoted_name-Leaves name (c ∷ d ∷ cs) =
    Leaves-if _ (c == b'"') _ _
      (Leaves-if _ (d == b'"') _ _
        (Leaves-mono _ _ _ (omega arith) (parse_quoted_name-Leaves (name ++ b'"' ∷ b'"' ∷ []) cs))
        (omega arith))
      (Leaves-mono _ _ _ (omega arith) (parse_quoted_name-Leaves (name ++ c ∷ []) (d ∷ cs)))

index_digits-Leaves : (idx s : Text) → Leaves (length s) (index_digits idx s)
unfolding index_digits
index_digits-Leaves idx [] = ground arith
index_digits-Leaves idx (c ∷ cs) =
    Leaves-if _ (c == b']') _ _ (omega arith)
      (Leaves-mono _ _ _ (omega arith) (index_digits-Leaves (idx ++ c ∷ []) cs))

parse_index-Leaves : (s : Text) → Leaves (length s) (parse_index s)
unfolding parse_index
parse_index-Leaves s =
    Leaves-bind _ _ (index_digits [] (bump s)) _
      (Leaves-mono _ _ _ (length-bump s) (index_digits-Leaves [] (bump s)))
      (λ idx s' h. convert idx s' h (usize_from_str idx))
  where
    convert :
        (idx s' : Text)
        → length s' ≤ length s
        → (o : Option ℕ) → Leaves (length s) (to_index idx o >>= λ n. ok (n, s'))
    convert idx s' h none = ground arith
    convert idx s' h (some n) = h

parse_one-Leaves : (s : Text) → Leaves (length s) (parse_one s)
unfolding parse_one
parse_one-Leaves s =
    Leaves-bind _ _ (if cur_is b'"' s then parse_quoted_name [] (bump s) else ok (parse_name [] s))
      _
      (Leaves-if _ (cur_is b'"' s) _ _
        (Leaves-mono _ _ _ (length-bump s) (parse_quoted_name-Leaves [] (bump s)))
        (length-parse_name [] s))
      (λ name s' h.
        Leaves-if _ (cur_is b'[' s') _ _
          (Leaves-bind _ _ (parse_index s') _ (Leaves-mono _ _ _ h (parse_index-Leaves s'))
            (λ idx s'' k. k))
          h)

parse_first-Leaves : (s : Text) → Leaves (length s) (parse_first s)
unfolding parse_first
parse_first-Leaves s = Leaves-if _ (cur_is b'-' s) _ _ (omega arith) (parse_one-Leaves s)

parse_second-Leaves : (s : Text) → Leaves (length s) (parse_second s)
unfolding parse_second
parse_second-Leaves s =
    Leaves-if _ (cur_is b'-' s) _ _
      (Leaves-if _ (is_end_of_selector (bump s)) _ _ (length-bump s) (
        Leaves-bind _ _ (parse_one (bump s)) _
          (Leaves-mono _ _ _ (length-bump s) (parse_one-Leaves (bump s))) (λ f s' h. h)))
      (omega arith)

-- A whole round takes a character.
parse_selector-Leaves : (c : ℕ) (cs : Text) → Leaves (length cs) (parse_selector (c ∷ cs))
unfolding parse_selector
parse_selector-Leaves c cs =
    Leaves-bind _ _ (parse_first (c ∷ cs)) _ (parse_first-Leaves (c ∷ cs)) (λ f1 s1 h1.
      Leaves-bind _ _ (parse_second s1) _ (parse_second-Leaves s1)
        (λ f2 s2 h2. close f1 f2 s2 (omega arith)))
  where
    close :
        (f1 : OneSelector) (f2 : Option OneSelector) (s2 : Text)
        → length s2 ≤ suc (length cs)
        → Leaves (length cs) (end_of_selector s2 >>= λ s3. ok (selector f1 f2, s3))
    close f1 f2 [] h = omega arith
    close f1 f2 (d ∷ ds) h = ground arith

parse_loop-ne_out_of_fuel :
    (fuel : ℕ) (s : Text) (sels : List Selector)
    → length s ≤ fuel
    → parse_loop fuel s sels ≢ err out_of_fuel
unfolding parse_loop
parse_loop-ne_out_of_fuel fuel [] sels h = ground arith
parse_loop-ne_out_of_fuel zero (c ∷ cs) sels h = absurd (omega arith)
parse_loop-ne_out_of_fuel (suc fuel) (c ∷ cs) sels h =
    round (parse_selector (c ∷ cs)) (parse_selector-Leaves c cs)
      (λ sel s' k. parse_loop-ne_out_of_fuel fuel s' (sels ++ sel ∷ []) (omega arith))
  where
    round :
        (r : Result Message (Selector × Text))
        → Leaves (length cs) r
        → ((sel : Selector) (s' : Text)
            → length s' ≤ length cs
            → parse_loop fuel s' (sels ++ sel ∷ []) ≢ err out_of_fuel)
        → (r >>= λ p. parse_loop fuel p.1 (sels ++ p.0 ∷ [])) ≢ err out_of_fuel
    round (ok (sel, s')) l k = k sel s' l
    round (err e) l k = λ h'. l (cc)

parse-ne_out_of_fuel :
    (s : Text) (invert : Bool)
    → ◌≢◌ {A = Result Message SelectColumns}
        (parse s >>= λ sels. ok (record { selectors = sels; invert = invert }))
        (err out_of_fuel)
unfolding parse
parse-ne_out_of_fuel s invert h =
    go (parse s) (parse_loop-ne_out_of_fuel (length s) s [] (omega arith)) h
  where
    go :
        (r : Result Message (List Selector))
        → r ≢ err out_of_fuel
        → ◌≢◌ {A = Result Message SelectColumns}
            (r >>= λ sels. ok (record { selectors = sels; invert = invert }))
            (err out_of_fuel)
    go (ok sels) k e = cc
    go (err m) k e = k (cc)

-- The parser of a selection never runs out of the fuel that it gives itself: its loop over the
-- fields ends on every text, with the selectors or with one of the source's own errors.
pub parse_columns-ne_out_of_fuel : (s : Text) → parse_columns s ≢ err out_of_fuel
unfolding parse_columns
parse_columns-ne_out_of_fuel s = elim (Bool-cases (cur_is b'!' s)) [
  | inl inverted ↦ rw inverted (parse-ne_out_of_fuel (bump s) true)
  | inr plain ↦ rw plain (parse-ne_out_of_fuel s false)
]

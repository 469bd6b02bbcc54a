-- ===== src/Select/Parser.antt =====
-- src/select.rs: `SelectorParser`. The field `pos` only moves forward, so the parser's state is the
-- text from `pos` on: `cur` is its first character and `bump` drops that, doing nothing at the end.
-- Each loop of the source over one field is a recursion on the text; the loop over the fields
-- takes fuel, and Select/Parser/Total shows that what `parse` gives it is enough.
pub mod Digits
pub mod Fields
pub mod RoundTrip
pub mod Total
use xsv.Prelude.{
  ℕ, zero, suc, Bool, true, false, ◌||◌, List, [], ◌∷◌, ◌++◌, Option, none, some, length, ◌==◌,
  if◌then◌else◌,
}
use xsv.Prelude.Results.{Result, ok, err, ◌>>=◌}
use xsv.Error.{
  Text, Message, expected_end_of_field, unclosed_quote, unclosed_bracket, bad_index, out_of_fuel,
}
use xsv.Select.{OneSelector, start, end, index, indexed_name, Selector, one, range, SelectColumns}
use xsv.Select.Number.{usize_from_str}

-- What a parsing step returns, and the text that it leaves.
abbrev pub Parsed : Type 0 → Type 0
Parsed A = Result Message (A × Text)

abbrev pub cur : Text → Option ℕ
cur [] = none
cur (c ∷ cs) = some c

abbrev pub bump : Text → Text
bump [] = []
bump (c ∷ cs) = cs

abbrev pub cur_is : ℕ → Text → Bool
cur_is b [] = false
cur_is b (c ∷ cs) = c == b

abbrev pub is_end_of_field : Text → Bool
is_end_of_field [] = true
is_end_of_field (c ∷ cs) = c == b',' || c == b'-'

abbrev pub is_end_of_selector : Text → Bool
is_end_of_selector [] = true
is_end_of_selector (c ∷ cs) = c == b','

-- `name` is what the loop has pushed so far.
unfoldable pub parse_name : Text → Text → Text × Text
parse_name name [] = (name, [])
parse_name name (c ∷ cs) =
    let rest = parse_name (name ++ c ∷ []) cs in
    if is_end_of_field (c ∷ cs) || c == b'[' then (name, c ∷ cs) else rest

unfoldable pub parse_quoted_name : Text → Text → Parsed Text
parse_quoted_name name [] = err unclosed_quote
parse_quoted_name name (c ∷ []) = if c == b'"' then ok (name, []) else err unclosed_quote
parse_quoted_name name (c ∷ d ∷ cs) =
    let escaped = parse_quoted_name (name ++ b'"' ∷ b'"' ∷ []) cs in
    let rest = parse_quoted_name (name ++ c ∷ []) (d ∷ cs) in
    if c == b'"' then (if d == b'"' then escaped else ok (name, d ∷ cs)) else rest

-- The loop of `parse_index`, behind the bracket.
unfoldable pub index_digits : Text → Text → Parsed Text
index_digits idx [] = err unclosed_bracket
index_digits idx (c ∷ cs) =
    let rest = index_digits (idx ++ c ∷ []) cs in if c == b']' then ok (idx, cs) else rest

to_index : Text → Option ℕ → Result Message ℕ
to_index idx none = err (bad_index idx)
to_index idx (some n) = ok n

unfoldable pub parse_index : Text → Parsed ℕ
unfolding to_index
parse_index s = do
  (idx, s') ← index_digits [] (bump s)
  n ← to_index idx (usize_from_str idx)
  ok (n, s')

-- A name that reads as a number is an index.
unfoldable pub name_or_index : Text → Option ℕ → OneSelector
name_or_index name none = indexed_name name 0
name_or_index name (some idx) = index idx

unfoldable pub parse_one : Text → Parsed OneSelector
unfolding name_or_index
parse_one s = do
  (name, s') ← if cur_is b'"' s then parse_quoted_name [] (bump s) else ok (parse_name [] s)
  if cur_is b'[' s'
      then (do (idx, s'') ← parse_index s'; ok (indexed_name name idx, s''))
      else ok (name_or_index name (usize_from_str name), s')

-- The field before a dash: an open start if the dash comes first.
unfoldable pub parse_first : Text → Parsed OneSelector
parse_first s = if cur_is b'-' s then ok (start, s) else parse_one s

some_end : OneSelector × Text → Option OneSelector × Text
some_end (f, s) = (some f, s)

-- The field behind a dash, if there is one.
unfoldable pub parse_second : Text → Parsed (Option OneSelector)
unfolding some_end
parse_second s =
    if cur_is b'-' s
    then (if is_end_of_selector (bump s)
        then ok (some end, bump s)
        else (do f ← parse_one (bump s); ok (some_end f)))
    else ok (none, s)

unfoldable pub selector : OneSelector → Option OneSelector → Selector
selector f1 none = one f1
selector f1 (some f2) = range f1 f2

unfoldable pub end_of_selector : Text → Result Message Text
end_of_selector [] = ok []
end_of_selector (c ∷ cs) = if c == b',' then ok cs else err (expected_end_of_field c)

-- One round of the loop in `parse`, the last `bump` included.
unfoldable pub parse_selector : Text → Parsed Selector
unfolding selector end_of_selector
parse_selector s = do
  (f1, s1) ← parse_first s
  (f2, s2) ← parse_second s1
  s3 ← end_of_selector s2
  ok (selector f1 f2, s3)

unfoldable pub parse_loop : ℕ → Text → List Selector → Result Message (List Selector)
parse_loop fuel [] sels = ok sels
parse_loop zero (c ∷ cs) sels = err out_of_fuel
parse_loop (suc fuel) (c ∷ cs) sels = do
  (sel, s') ← parse_selector (c ∷ cs)
  parse_loop fuel s' (sels ++ sel ∷ [])

unfoldable pub parse : Text → Result Message (List Selector)
unfolding parse_loop parse_selector parse_first parse_second parse_one parse_name parse_quoted_name
    parse_index index_digits
parse s = parse_loop (length s) s []

-- `SelectColumns::parse`: a leading exclamation mark inverts.
unfoldable pub parse_columns : Text → Result Message SelectColumns
parse_columns s =
    if cur_is b'!' s
    then (do sels ← parse (bump s); ok (record { selectors = sels; invert = true }))
    else (do sels ← parse s; ok (record { selectors = sels; invert = false }))

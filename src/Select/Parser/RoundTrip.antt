-- ===== src/Select/Parser/RoundTrip.antt =====
-- What the notation writes, the parser reads back: whole selectors, then their list.
use xsv.Prelude.{
  ℕ, zero, suc, ◌<◌, ◌≤◌, ◌≡◌, refl, ap, ◌∙◌, Bool, true, false, not, ◌||◌, List, [], ◌∷◌, ◌++◌,
  append-nil, append_assoc, some, none, All, length, length-append, map, ◌==◌, arith, if◌then◌else◌,
}
use xsv.Prelude.Results.{ok}
use xsv.Error.{Text}
use xsv.Select.{start, end, Selector}
use xsv.Select.Syntax.{
  decimal, Field, open_end, number, bare, bare_at, quoted, quoted_at, Written, alone, from_to,
  escaped, bracket, write_field, write_selector, write_selectors, write_columns, meaning,
  selector_of, IsEnd, IsWritten,
}
use xsv.Select.Parser.{
  cur_is, is_end_of_field, is_end_of_selector, end_of_selector, selector, parse_first, parse_second,
  parse_selector, parse_loop, parse, parse_columns,
}
use xsv.Select.Parser.Fields.{
  IsStop, begins_field, parse_first-write_field, parse_second-write_field,
}

-- `s` is the end of a selector, and `rest` is behind it.
abbrev IsEndOf : Text → Text → Type 0
IsEndOf rest s = (is_end_of_selector s ≡ true) × (end_of_selector s ≡ ok rest)

-- In front of a dash a field may be left open.
parse_first-end :
    (f : Field) (rest : Text)
    → IsEnd f
    → parse_first (write_field f (b'-' ∷ rest)) ≡ ok (meaning start f, b'-' ∷ rest)
parse_first-end open_end rest h = unfold parse_first in refl
parse_first-end (number n) rest h = parse_first-write_field (number n) (b'-' ∷ rest) h refl
parse_first-end (bare s) rest h = parse_first-write_field (bare s) (b'-' ∷ rest) h refl
parse_first-end (bare_at s i) rest h = parse_first-write_field (bare_at s i) (b'-' ∷ rest) h refl
parse_first-end (quoted s) rest h = parse_first-write_field (quoted s) (b'-' ∷ rest) h refl
parse_first-end (quoted_at s i) rest h =
    parse_first-write_field (quoted_at s i) (b'-' ∷ rest) h refl

-- Behind a dash a field may be left open.
parse_second-end :
    (f : Field) (rest : Text)
    → IsEnd f
    → is_end_of_selector rest ≡ true
    → parse_second (b'-' ∷ write_field f rest) ≡ ok (some (meaning end f), rest)
parse_second-end open_end rest h k = unfold parse_second in rw k
parse_second-end (number n) rest h k = parse_second-write_field (number n) rest h k
parse_second-end (bare s) rest h k = parse_second-write_field (bare s) rest h k
parse_second-end (bare_at s i) rest h k = parse_second-write_field (bare_at s i) rest h k
parse_second-end (quoted s) rest h k = parse_second-write_field (quoted s) rest h k
parse_second-end (quoted_at s i) rest h k = parse_second-write_field (quoted_at s i) rest h k

stops : (s : Text) → is_end_of_selector s ≡ true → IsStop s
stops [] h = refl
stops (c ∷ s) h = rw h

no_second : (s : Text) → is_end_of_selector s ≡ true → parse_second s ≡ ok (none, s)
unfolding parse_second
no_second [] h = refl
no_second (c ∷ s) h = let e : (c == b'-') ≡ false = ground (arith, h) in rw e

parse_selector-write_selector :
    (w : Written) (s rest : Text)
    → IsWritten w
    → IsEndOf rest s
    → parse_selector (write_selector w s) ≡ ok (selector_of w, rest)
unfolding parse_selector selector
parse_selector-write_selector (alone f) s rest h (k, e) =
    rw (parse_first-write_field f s h (stops s k), no_second s k, e)
parse_selector-write_selector (from_to f g) s rest h (k, e) =
    rw (parse_first-end f (write_field g s) h.0, parse_second-end g s h.1 k, e)

length-write_field : (f : Field) (rest : Text) → length rest ≤ length (write_field f rest)
length-write_field open_end rest = omega arith
length-write_field (number n) rest = omega (arith, length-append (decimal n) rest)
length-write_field (bare s) rest = omega (arith, length-append s rest)
length-write_field (bare_at s i) rest =
    omega (arith, length-append s (bracket i rest), length-append (decimal i) (b']' ∷ rest))
length-write_field (quoted s) rest = omega (arith, length-append (escaped s) (b'"' ∷ rest))
length-write_field (quoted_at s i) rest = omega (
  arith,
  length-append (escaped s) (b'"' ∷ bracket i rest),
  length-append (decimal i) (b']' ∷ rest),
)

not_stop : (s : Text) → is_end_of_field s ≡ false → 0 < length s
not_stop [] h = cc
not_stop (c ∷ s) h = omega arith

some_text : (w : Written) (s : Text) → IsWritten w → 0 < length (write_selector w s)
some_text (alone f) s h = not_stop (write_field f s) (begins_field f s h)
some_text (from_to f g) s h =
    omega (arith, length-write_field f (b'-' ∷ write_field g s), length-write_field g s)

-- A selector in front of a comma is longer than what stands behind the comma.
longer : (w : Written) (s : Text) → length s ≤ length (write_selector w s)
longer (alone f) s = length-write_field f s
longer (from_to f g) s =
    omega (arith, length-write_field f (b'-' ∷ write_field g s), length-write_field g s)

length-write_selectors :
    (trailing : Bool) (ws : List Written)
    → All IsWritten ws
    → length ws ≤ length (write_selectors trailing ws)
length-write_selectors trailing [] h = omega arith
length-write_selectors trailing (w ∷ []) (h, hs) =
    omega (arith, some_text w (if trailing then b',' ∷ [] else []) h)
length-write_selectors trailing (w ∷ v ∷ ws) (h, hs) = omega (
  arith,
  longer w (b',' ∷ write_selectors trailing (v ∷ ws)),
  length-write_selectors trailing (v ∷ ws) hs,
)

-- A round of the loop on a text that is not at its end.
parse_loop-some :
    (fuel : ℕ) (t rest : Text) (sel : Selector) (sels : List Selector)
    → 0 < length t
    → parse_selector t ≡ ok (sel, rest)
    → parse_loop (suc fuel) t sels ≡ parse_loop fuel rest (sels ++ sel ∷ [])
unfolding parse_loop
parse_loop-some fuel [] rest sel sels l e = absurd (omega (arith, l))
parse_loop-some fuel (c ∷ t) rest sel sels l e = rw e

parse_loop-round :
    (fuel : ℕ) (w : Written) (s rest : Text) (sels : List Selector)
    → IsWritten w
    → IsEndOf rest s
    → parse_loop (suc fuel) (write_selector w s) sels
      ≡ parse_loop fuel rest (sels ++ selector_of w ∷ [])
parse_loop-round fuel w s rest sels h k =
    parse_loop-some fuel (write_selector w s) rest (selector_of w) sels (some_text w s h)
      (parse_selector-write_selector w s rest h k)

last_end : (trailing : Bool) → IsEndOf [] (if trailing then b',' ∷ [] else [])
unfolding end_of_selector
last_end true = (refl, refl)
last_end false = (refl, refl)

parse_loop-write_selectors :
    (fuel : ℕ) (trailing : Bool) (ws : List Written) (sels : List Selector)
    → length ws ≤ fuel
    → All IsWritten ws
    → parse_loop fuel (write_selectors trailing ws) sels ≡ ok (sels ++ map selector_of ws)
parse_loop-write_selectors fuel trailing [] sels h w = unfold parse_loop in rw append-nil
parse_loop-write_selectors zero trailing (w ∷ ws) sels h hs = absurd (omega (arith, h))
parse_loop-write_selectors (suc fuel) trailing (w ∷ []) sels h (k, ks) =
    parse_loop-round fuel w (if trailing then b',' ∷ [] else []) [] sels k (last_end trailing)
    ∙ unfold parse_loop in refl
parse_loop-write_selectors (suc fuel) trailing (w ∷ v ∷ ws) sels h (k, ks) =
    parse_loop-round fuel w (b',' ∷ write_selectors trailing (v ∷ ws))
      (write_selectors trailing (v ∷ ws)) sels k (refl, unfold end_of_selector in refl)
    ∙ parse_loop-write_selectors fuel trailing (v ∷ ws) (sels ++ selector_of w ∷ [])
        (omega (arith, h)) ks
    ∙ ap ok (append_assoc sels (selector_of w ∷ []) (map selector_of (v ∷ ws)))

parse-write_selectors :
    (trailing : Bool) (ws : List Written)
    → All IsWritten ws
    → parse (write_selectors trailing ws) ≡ ok (map selector_of ws)
unfolding parse
parse-write_selectors trailing ws h =
    parse_loop-write_selectors (length (write_selectors trailing ws)) trailing ws []
      (length-write_selectors trailing ws h) h

-- A selection that is written as a list of selectors is parsed as these selectors, inverted where the
-- text begins with an exclamation mark. A selector is a field, or two with a dash between them of which
-- each may be left out; a field is a number below 2^64, a name without quotes if it has none of the
-- characters `,`, `-` and `[` and is neither empty nor begins with a quote, or any name in quotes, with
-- its quotes doubled; a name may have a number below 2^64 in brackets behind it. Between two selectors
-- stands a comma, and behind the last one if there is to be one. The text of a selection that is not
-- inverted must not begin with an exclamation mark. What comes out of the parser has the numbers and
-- names that were written, but quotes stay doubled, and a name without a number in brackets that reads
-- as a number itself, in quotes or not, comes out as that number.
pub parse_columns-write_columns :
    (invert trailing : Bool) (ws : List Written)
    → All IsWritten ws
    → (invert || not (cur_is b'!' (write_selectors trailing ws))) ≡ true
    → parse_columns (write_columns invert trailing ws)
      ≡ ok (record { selectors = map selector_of ws; invert = invert })
unfolding parse_columns
parse_columns-write_columns true trailing ws h k = rw (parse-write_selectors trailing ws h)
parse_columns-write_columns false trailing ws h k =
    let e : cur_is b'!' (write_selectors trailing ws) ≡ false = ground (arith, k) in
    rw (e, parse-write_selectors trailing ws h)

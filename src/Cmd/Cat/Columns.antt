-- ===== src/Cmd/Cat/Columns.antt =====
-- Inputs side by side.
use xsv.Prelude.{
  length-map, ℕ, zero, suc, ◌+◌, ◌-◌, ◌≡◌, ◌≤◌, ◌<◌, refl, sym, ap, ◌∙◌, max, min, Bool, true,
  false, List, [], ◌∷◌, ◌++◌, append_assoc, append-nil, none, some, get_elem?, length, length-drop,
  drop, map, leb, if◌then◌else◌, arith,
}
use mathlib.Core.Path.{fun_ext}
use xsv.Prelude.Results.{ok}
use xsv.Error.{ByteRecord}
use xsv.Csv.{Sink, Reader, Output, ◌>>◌, pure, write_record, try_csv}
use xsv.Csv.Laws.{Accepts, all_ok, length-all_ok, write_record-Accepts, flush-Accepts, bind-ok}
use xsv.Cmd.Cat.{
  Input, made, break_outer, gather, outer, outer_round, empty_fields, total_rows, cat_columns,
  open_inputs,
}

-- An input whose records all read without an error: the length of its first one, and all of them.
abbrev pub Columns : Type 0
Columns = ℕ × List ByteRecord

abbrev pub input : Columns → Input
input i = record { len = i.0; rows = all_ok i.1 }

-- Record number `k` of an input, or as many empty fields as its first record has.
abbrev pub cell : Columns → ℕ → ByteRecord
cell i k = elim (get_elem? i.1 k) [ some r ↦ r | none ↦ empty_fields i.0 ]

abbrev pub row_at : List Columns → ℕ → ByteRecord
row_at [] k = []
row_at (i ∷ is) k = cell i k ++ row_at is k

-- The number of records: of the longest input with `--pad`, of the shortest one without.
abbrev pub highest : List Columns → ℕ
highest [] = 0
highest (i ∷ is) = max (length i.1) (highest is)

abbrev pub lowest : List Columns → ℕ
lowest [] = 0
lowest (i ∷ []) = length i.1
lowest (i ∷ j ∷ is) = min (length i.1) (lowest (j ∷ is))

abbrev pub height : Bool → List Columns → ℕ
height pad is = if pad then highest is else lowest is

abbrev pub tabulate : (ℕ → ByteRecord) → ℕ → List ByteRecord
tabulate f zero = []
tabulate f (suc n) = f 0 ∷ tabulate (λ k. f (suc k)) n

abbrev tails : List Columns → List Columns
tails = map (λ i. (i.0, drop 1 i.1))

abbrev exhausted : List Columns → ℕ
exhausted [] = 0
exhausted ((n, []) ∷ is) = suc (exhausted is)
exhausted ((n, r ∷ rs) ∷ is) = exhausted is

row_at-tails : (is : List Columns) (k : ℕ) → row_at is (suc k) ≡ row_at (tails is) k
row_at-tails [] k = refl
row_at-tails ((n, []) ∷ is) k = ap (◌++◌ (empty_fields n)) (row_at-tails is k)
row_at-tails ((n, r ∷ rs) ∷ is) k = ap (◌++◌ (cell (n, rs) k)) (row_at-tails is k)

gather-pad :
    (r : ByteRecord) (d : ℕ) (is : List Columns)
    → gather true r d (map input is)
      ≡ made (r ++ row_at is 0) (d + exhausted is) (map input (tails is))
unfolding gather
gather-pad r d [] = let same : d + 0 ≡ d = omega arith in rw (append-nil, same)
gather-pad r d ((n, []) ∷ is) =
    let one : suc d + exhausted is ≡ d + suc (exhausted is) = omega arith in
    rw (gather-pad (r ++ empty_fields n) (suc d) is, append_assoc, one)
gather-pad r d ((n, x ∷ rs) ∷ is) = rw (gather-pad (r ++ x) d is, append_assoc)

gather_full :
    (r : ByteRecord) (d : ℕ) (is : List Columns)
    → exhausted is ≡ 0
    → gather false r d (map input is) ≡ made (r ++ row_at is 0) d (map input (tails is))
unfolding gather
gather_full r d [] h = rw append-nil
gather_full r d ((n, []) ∷ is) h = absurd (omega arith)
gather_full r d ((n, x ∷ rs) ∷ is) h = rw (gather_full (r ++ x) d is h, append_assoc)

gather_short :
    (r : ByteRecord) (d : ℕ) (is : List Columns)
    → 0 < exhausted is
    → gather false r d (map input is) ≡ break_outer
unfolding gather
gather_short r d [] h = absurd (omega arith)
gather_short r d ((n, []) ∷ is) h = refl
gather_short r d ((n, x ∷ rs) ∷ is) h = rw (gather_short (r ++ x) d is h)

highest-tails : (is : List Columns) → highest (tails is) ≡ highest is - 1
highest-tails [] = omega arith
highest-tails (i ∷ is) = omega (arith, length-drop 1 i.1, highest-tails is)

lowest-tails : (is : List Columns) → lowest (tails is) ≡ lowest is - 1
lowest-tails [] = omega arith
lowest-tails (i ∷ []) = length-drop 1 i.1
lowest-tails (i ∷ j ∷ is) = omega (arith, length-drop 1 i.1, lowest-tails (j ∷ is))

exhausted-le : (is : List Columns) → exhausted is ≤ length is
exhausted-le [] = omega arith
exhausted-le ((n, []) ∷ is) = omega (arith, exhausted-le is)
exhausted-le ((n, x ∷ rs) ∷ is) = omega (arith, exhausted-le is)

exhausted-highest : (is : List Columns) → highest is ≡ 0 → exhausted is ≡ length is
exhausted-highest [] h = refl
exhausted-highest ((n, []) ∷ is) h = ap suc (exhausted-highest is (omega arith))
exhausted-highest ((n, x ∷ rs) ∷ is) h = absurd (omega arith)

exhausted-lt : (is : List Columns) → 0 < highest is → exhausted is < length is
exhausted-lt [] h = absurd (omega arith)
exhausted-lt ((n, []) ∷ is) h = omega (arith, exhausted-lt is (omega arith))
exhausted-lt ((n, x ∷ rs) ∷ is) h = omega (arith, exhausted-le is)

exhausted-lowest : (i : Columns) (is : List Columns) → lowest (i ∷ is) ≡ 0 → 0 < exhausted (i ∷ is)
exhausted-lowest (n, []) is h = omega arith
exhausted-lowest (n, x ∷ rs) [] h = absurd (omega arith)
exhausted-lowest (n, x ∷ rs) (j ∷ is) h = exhausted-lowest j is (omega arith)

exhausted-zero : (is : List Columns) → 0 < lowest is → exhausted is ≡ 0
exhausted-zero [] h = refl
exhausted-zero ((n, []) ∷ []) h = absurd (omega arith)
exhausted-zero ((n, x ∷ rs) ∷ []) h = refl
exhausted-zero ((n, []) ∷ j ∷ is) h = absurd (omega arith)
exhausted-zero ((n, x ∷ rs) ∷ j ∷ is) h = exhausted-zero (j ∷ is) (omega arith)

some_input : (is : List Columns) → 0 < lowest is → 0 < length is
some_input [] h = absurd (omega arith)
some_input (i ∷ is) h = omega arith

height-tails : (pad : Bool) (is : List Columns) → height pad (tails is) ≡ height pad is - 1
height-tails true is = highest-tails is
height-tails false is = lowest-tails is

module _ (w : Sink) (next : List Input → Output (Unit {0})) where
  abbrev round : Bool → List Columns → Output (Unit {0})
  round pad is = outer_round w (length (map input is)) (gather pad [] 0 (map input is)) next

  round_last : (pad : Bool) (is : List Columns) → height pad is ≡ 0 → round pad is ≡ pure tt
  unfolding outer_round
  round_last true is h =
      let all_done : leb (length (map input is)) (0 + exhausted is) ≡ true =
        ground (arith, length-map input is, exhausted-highest is h) in
      rw (gather-pad [] 0 is, all_done)
  round_last false [] h = unfold gather in refl
  round_last false (i ∷ is) h = rw (gather_short [] 0 (i ∷ is) (exhausted-lowest i is h))

  round_more :
      (pad : Bool) (is : List Columns)
      → 0 < height pad is
      → round pad is ≡ (write_record w (row_at is 0) >> next (map input (tails is)))
  unfolding outer_round
  round_more true is h =
      let left : leb (length (map input is)) (0 + exhausted is) ≡ false =
        ground (arith, length-map input is, exhausted-lt is h) in
      rw (gather-pad [] 0 is, left)
  round_more false is h =
      let left : leb (length (map input is)) 0 ≡ false =
        ground (arith, length-map input is, some_input is h) in
      rw (gather_full [] 0 is (exhausted-zero is h), left)

module _ (pad : Bool) (w : Sink) (acc : Accepts w) where
  outer-row_at :
      (fuel n : ℕ) (is : List Columns) (out : List ByteRecord)
      → height pad is ≡ n
      → n < fuel
      → outer fuel pad w (map input is) out ≡ (ok tt, out ++ tabulate (row_at is) n)
  unfolding outer
  outer-row_at zero n is out h l = absurd (omega arith)
  outer-row_at (suc fuel) zero is out h l =
      ap (λ m. m out) (round_last w (λ ins. outer fuel pad w ins) pad is h)
      ∙ ap (λ rs. (ok tt, rs)) (sym (append-nil out))
  outer-row_at (suc fuel) (suc n) is out h l =
      ap (λ m. m out) (round_more w (λ ins. outer fuel pad w ins) pad is (omega arith))
      ∙ bind-ok (write_record w (row_at is 0)) _ (write_record-Accepts w acc (row_at is 0) out)
      ∙ outer-row_at fuel n (tails is) (out ++ row_at is 0 ∷ [])
          (omega (arith, height-tails pad is)) (omega arith)
      ∙ ap (λ rs. (ok tt, rs))
          (append_assoc out (row_at is 0 ∷ []) (tabulate (row_at (tails is)) n)
            ∙ ap (λ f. out ++ row_at is 0 ∷ tabulate f n) (fun_ext (λ k. sym (row_at-tails is k))))

highest-le : (is : List Columns) → highest is ≤ total_rows (map input is)
unfolding total_rows
highest-le [] = omega arith
highest-le (i ∷ is) = omega (arith, length-all_ok i.1, highest-le is)

lowest-le : (is : List Columns) → lowest is ≤ highest is
lowest-le [] = omega arith
lowest-le (i ∷ []) = omega arith
lowest-le (i ∷ j ∷ is) = omega (arith, lowest-le (j ∷ is))

height-le : (pad : Bool) (is : List Columns) → height pad is ≤ total_rows (map input is)
height-le true is = highest-le is
height-le false is = omega (arith, highest-le is, lowest-le is)

-- On inputs that open and read without errors, and into a writer that takes every record,
-- `cat columns` writes as many records as the shortest input has, with `--pad` as the longest one
-- has: record `k` is made of record `k` of every input, side by side, and of empty fields for an
-- input that has no record `k`, as many as its first record has. The loop ends.
pub cat_columns-row_at :
    (pad : Bool) (w : Sink) (rdrs : List Reader) (is : List Columns) (out : List ByteRecord)
    → Accepts w
    → open_inputs rdrs ≡ ok (map input is)
    → cat_columns pad w rdrs out ≡ (ok tt, out ++ tabulate (row_at is) (height pad is))
unfolding cat_columns
cat_columns-row_at pad w rdrs is out acc h =
    bind-ok (try_csv (open_inputs rdrs)) _ (ap (λ r. try_csv r out) h)
    ∙ bind-ok (outer (suc (total_rows (map input is))) pad w (map input is)) _ (
        outer-row_at pad w acc (suc (total_rows (map input is))) (height pad is) is out refl
          (omega (arith, height-le pad is)))
    ∙ flush-Accepts w acc (out ++ tabulate (row_at is) (height pad is))

-- ===== src/Select/Resolve.antt =====
-- src/select.rs: from selectors to column positions, `OneSelector::index`, `Selector::indices` and
-- `SelectColumns::selection`.
pub mod Columns
pub mod Fits
pub mod Index
pub mod Range
pub mod Shuffled
use Prim.Native.Nat.{compare, Ordering}
use xsv.Prelude.{
  ℕ, zero, suc, ◌+◌, ◌-◌, Bool, true, false, not, ◌||◌, List, [], ◌∷◌, ◌++◌, length, filter, ltb,
  ◌==◌, if◌then◌else◌,
}
use xsv.Prelude.Results.{Result, ok, err, ◌>>=◌}
use xsv.Prelude.Bytes.{bytes_eq, as_bytes, contains}
use xsv.Error.{
  Bytes, Text, ByteRecord, Message, index_out_of_bounds, names_without_headers, no_such_name,
  occurrence_out_of_bounds,
}
use xsv.Select.{OneSelector, start, end, index, indexed_name, Selector, one, range, SelectColumns}

-- How the loop over the header fields ends: at a position, or with the number of matches.
pub data Scan : Type 0 where
  found : ℕ → Scan
  counted : ℕ → Scan

-- `i` is the position of the first field left, `num_found` the number of matches before it.
unfoldable pub scan_name : Bytes → ℕ → ℕ → ℕ → ByteRecord → Scan
scan_name name sidx i num_found [] = counted num_found
scan_name name sidx i num_found (field ∷ fields) =
    let next = scan_name name sidx (suc i) (suc num_found) fields in
    let skip = scan_name name sidx (suc i) num_found fields in
    if bytes_eq field name then (if num_found == sidx then found i else next) else skip

unfoldable pub name_result : Text → ℕ → Scan → Result Message ℕ
name_result s sidx (found i) = ok i
name_result s sidx (counted n) =
    if n == 0 then err (no_such_name s) else err (occurrence_out_of_bounds sidx s (n - 1))

unfoldable pub index_of : OneSelector → ByteRecord → Bool → Result Message ℕ
unfolding name_result scan_name
index_of start first use_names = ok 0
index_of end first use_names = ok (if length first == 0 then 0 else length first - 1)
index_of (index i) first use_names =
    if ltb i 1 || ltb (length first) i
    then err (index_out_of_bounds i (length first))
    else ok (i - 1)
index_of (indexed_name s sidx) first use_names =
    if not use_names
    then err (names_without_headers s)
    else name_result s sidx (scan_name (as_bytes s) sidx 0 0 first)

-- `lo..lo + n`.
unfoldable pub ascending : ℕ → ℕ → List ℕ
ascending lo zero = []
ascending lo (suc n) = lo ∷ ascending (suc lo) n

-- `while i > i2 { i -= 1; inds.push(i); }`.
unfoldable pub descending : ℕ → ℕ → List ℕ
descending zero i2 = []
descending (suc i) i2 = let rest = descending i i2 in if ltb i2 (suc i) then i ∷ rest else []

unfoldable pub between : ℕ → ℕ → List ℕ
unfolding ascending descending
between i1 i2 = elim (compare i1 i2) [
  | Ordering.eq ↦ i1 ∷ []
  | Ordering.lt ↦ ascending i1 (i2 + 1 - i1)
  | Ordering.gt ↦ descending (i1 + 1) i2
]

unfoldable pub indices : Selector → ByteRecord → Bool → Result Message (List ℕ)
unfolding index_of between
indices (one sel) first use_names = do i ← index_of sel first use_names; ok (i ∷ [])
indices (range sel1 sel2) first use_names = do
  i1 ← index_of sel1 first use_names
  i2 ← index_of sel2 first use_names
  ok (between i1 i2)

-- The loop over the selectors; the first error ends it.
unfoldable pub collect_indices : List Selector → ByteRecord → Bool → Result Message (List ℕ)
unfolding indices
collect_indices [] first use_names = ok []
collect_indices (sel ∷ sels) first use_names = do
  idxs ← indices sel first use_names
  rest ← collect_indices sels first use_names
  ok (idxs ++ rest)

-- The positions that an inverted selection keeps.
unfoldable pub complement : List ℕ → ℕ → List ℕ
unfolding contains ascending
complement map len = filter (λ i. not (contains i map)) (ascending 0 len)

unfoldable pub select_from : List Selector → Bool → ByteRecord → Bool → Result Message (List ℕ)
unfolding collect_indices complement
select_from [] invert first use_names = ok (if invert then [] else ascending 0 (length first))
select_from (sel ∷ sels) invert first use_names = do
  map ← collect_indices (sel ∷ sels) first use_names
  ok (if invert then complement map (length first) else map)

unfoldable pub selection : SelectColumns → ByteRecord → Bool → Result Message (List ℕ)
unfolding select_from
selection c = select_from c.selectors c.invert

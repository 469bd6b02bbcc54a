-- ===== src/Cmd/Join/Hits.antt =====
-- The index of the values holds, for every key, the rows with that key.
use mathlib.Core.List.{append_assoc}
use xsv.Prelude.{
  ℕ, suc, ◌+◌, ◌≡◌, refl, sym, ap, ◌∙◌, not, Bool, ◌||◌, ◌&&◌, List, [], ◌∷◌, ◌++◌, append-nil,
  Option, none, some, length, length-append, get_elem?, map, any, All, if◌then◌else◌, arith,
  Bool-cases, inl, inr,
}
use xsv.Prelude.Bytes.{is_empty}
use xsv.Prelude.Dict.{nat_eq, list_eq, list_beq, list_beq_iff, lookup, lookup-insert}
use xsv.Prelude.Results.{ok}
use xsv.Error.{Bytes, ByteRecord}
use xsv.Csv.{Sink, write_record, try_csv, unwrap}
use xsv.Csv.Laws.{Accepts, all_ok, write_record-Accepts, bind-ok}
use xsv.Unicode.{Unicode}
use xsv.Cmd.Join.{fetch, write_hits}
use xsv.Cmd.Join.Values.{
  Seekable, ValueIndex, value_index, input_rows, get_row_key, push_row, pushed, index_row,
  index_rows, row_index,
}
use xsv.Cmd.Join.Readable.{IsReadable, fetch-row, input_rows-all_ok}
use xsv.Index.{Indexed}

-- A record with its key.
abbrev pub Keyed : Type 0
Keyed = List Bytes × ByteRecord

-- The row is in the index, and has the key `k`.
abbrev pub is_hit : Bool → List Bytes → List Bytes → Bool
is_hit nulls k j = (nulls || not (any is_empty j)) && list_beq k j

-- The rows with the key `k`, with their numbers, which start at `n`.
abbrev pub hits : Bool → List Bytes → ℕ → List Keyed → List (ℕ × ByteRecord)
hits nulls k n [] = []
hits nulls k n ((j, r) ∷ rows) =
    if is_hit nulls k j then (n, r) ∷ hits nulls k (suc n) rows else hits nulls k (suc n) rows

abbrev pub numbers : List (ℕ × ByteRecord) → List ℕ
numbers = map (λ x. x.0)

abbrev rows_in : Option (List ℕ) → List ℕ
rows_in none = []
rows_in (some ns) = ns

-- An entry, once more rows have been found for it.
abbrev pub found : Option (List ℕ) → List ℕ → Option (List ℕ)
found o [] = o
found o (n ∷ ns) = some (rows_in o ++ n ∷ ns)

-- The values that the loop collects.
abbrev values_of : Bool → ℕ → List (List Bytes × List ℕ) → List Keyed → List (List Bytes × List ℕ)
values_of nulls n values [] = values
values_of nulls n values ((j, r) ∷ rows) = values_of nulls (suc n) (index_row nulls j n values) rows

found-found :
    (o : Option (List ℕ)) (n : ℕ) (ns : List ℕ)
    → found (some (rows_in o ++ n ∷ [])) ns ≡ found o (n ∷ ns)
found-found o n [] = refl
found-found o n (m ∷ ns) = ap some (append_assoc (rows_in o) (n ∷ []) (m ∷ ns))

pushed-rows_in : (o : Option (List ℕ)) (n : ℕ) → pushed o n ≡ rows_in o ++ n ∷ []
unfolding pushed
pushed-rows_in none n = refl
pushed-rows_in (some ns) n = refl

lookup-index_row :
    (nulls : Bool) (k j : List Bytes) (n : ℕ) (values : List (List Bytes × List ℕ))
    → lookup k (index_row nulls j n values)
      ≡ (if is_hit nulls k j then some (rows_in (lookup k values) ++ n ∷ []) else lookup k values)
unfolding index_row push_row
lookup-index_row nulls k j n values = elim (Bool-cases (nulls || not (any is_empty j))) [
  | inr skipped ↦ rw skipped refl
  | inl kept ↦
      rw (kept, lookup-insert k j (pushed (lookup j values) n) values)
        (elim (Bool-cases (list_beq k j)) [
          | inr other ↦ rw other refl
          | inl same ↦ rw (same, (list_beq_iff k j).0 same, pushed-rows_in (lookup j values) n) refl
        ])
]

lookup-values_of :
    (nulls : Bool) (k : List Bytes) (n : ℕ) (values : List (List Bytes × List ℕ))
    (rows : List Keyed)
    → lookup k (values_of nulls n values rows)
      ≡ found (lookup k values) (numbers (hits nulls k n rows))
lookup-values_of nulls k n values [] = refl
lookup-values_of nulls k n values ((j, r) ∷ rows) =
    lookup-values_of nulls k (suc n) (index_row nulls j n values) rows
    ∙ ap (λ o. found o (numbers (hits nulls k (suc n) rows))) (lookup-index_row nulls k j n values)
    ∙ elim (Bool-cases (is_hit nulls k j)) [
      | inl hit ↦ rw hit (found-found (lookup k values) n (numbers (hits nulls k (suc n) rows)))
      | inr miss ↦ rw miss refl
    ]

-- Every row has the key.
abbrev pub HasKeys : Unicode → Bool → List ℕ → List Keyed → Type 0
HasKeys u casei sel = All (λ x. get_row_key u casei sel x.1 ≡ some x.0)

abbrev pub rows_of : List Keyed → List ByteRecord
rows_of = map (λ x. x.1)

index_rows-values_of :
    (u : Unicode) (casei : Bool) (sel : List ℕ) (nulls : Bool) (n : ℕ)
    (values : List (List Bytes × List ℕ)) (rows : List Keyed) (out : List ByteRecord)
    → HasKeys u casei sel rows
    → index_rows u casei sel nulls n values (all_ok (rows_of rows)) out
      ≡ (ok (values_of nulls n values rows, n + length rows), out)
unfolding index_rows
index_rows-values_of u casei sel nulls n values [] out h =
    let same : n + 0 ≡ n = omega arith in rw same refl
index_rows-values_of u casei sel nulls n values ((j, r) ∷ rows) out (h, hs) =
    bind-ok (unwrap (get_row_key u casei sel r)) _ (ap (λ o. unwrap o out) h)
    ∙ index_rows-values_of u casei sel nulls (suc n) (index_row nulls j n values) rows out hs
    ∙ ap (λ c. (ok (values_of nulls (suc n) (index_row nulls j n values) rows, c), out))
        (omega arith)

-- The records with the key `k`, in order.
abbrev pub matches : Bool → List Bytes → List Keyed → List ByteRecord
matches nulls k [] = []
matches nulls k ((j, r) ∷ rows) =
    if is_hit nulls k j then r ∷ matches nulls k rows else matches nulls k rows

abbrev pub records : List (ℕ × ByteRecord) → List ByteRecord
records = map (λ x. x.1)

pub records-hits :
    (nulls : Bool) (k : List Bytes) (n : ℕ) (rows : List Keyed)
    → records (hits nulls k n rows) ≡ matches nulls k rows
records-hits nulls k n [] = refl
records-hits nulls k n ((j, r) ∷ rows) = elim (Bool-cases (is_hit nulls k j)) [
  | inl hit ↦ rw hit (ap (◌∷◌ r) (records-hits nulls k (suc n) rows))
  | inr miss ↦ rw miss (records-hits nulls k (suc n) rows)
]

get_elem?-append :
    (before rows : List Keyed) (j : List Bytes) (r : ByteRecord)
    → get_elem? (rows_of (before ++ (j, r) ∷ rows)) (length before) ≡ some r
get_elem?-append [] rows j r = refl
get_elem?-append (x ∷ before) rows j r = get_elem?-append before rows j r

length-rows_of : (rows : List Keyed) → length (rows_of rows) ≡ length rows
length-rows_of [] = refl
length-rows_of (x ∷ rows) = ap suc (length-rows_of rows)

-- The index that is made of an input with the rows `rows`.
abbrev pub built : Bool → Seekable → List Keyed → ValueIndex
built nulls rdr rows = record {
  values = values_of nulls 0 [] rows;
  idx = row_index rdr (length rows);
  num_rows = length rows;
}

pub lookup-built :
    (nulls : Bool) (rdr : Seekable) (k : List Bytes) (rows : List Keyed)
    → lookup k (built nulls rdr rows).values ≡ found none (numbers (hits nulls k 0 rows))
lookup-built nulls rdr k rows = lookup-values_of nulls k 0 [] rows

abbrev pub Fetches : Indexed → ℕ × ByteRecord → Type 0
Fetches idx x = (out : List ByteRecord) → fetch idx x.0 out ≡ (ok x.1, out)

module _ (rdr : Seekable) (headers : ByteRecord) where
  fetch-rows_of :
      (rows : List Keyed) (i : ℕ) (r : ByteRecord) (out : List ByteRecord)
      → IsReadable rdr headers (rows_of rows)
      → get_elem? (rows_of rows) i ≡ some r
      → fetch (row_index rdr (length rows)) i out ≡ (ok r, out)
  fetch-rows_of rows i r out h e =
      rw length-rows_of at (fetch-row rdr headers (rows_of rows) h i r out e)

  pub fetch-at :
      (before rows : List Keyed) (j : List Bytes) (r : ByteRecord)
      → IsReadable rdr headers (rows_of (before ++ (j, r) ∷ rows))
      → Fetches (row_index rdr (length (before ++ (j, r) ∷ rows))) (length before, r)
  fetch-at before rows j r h out =
      fetch-rows_of (before ++ (j, r) ∷ rows) (length before) r out h
        (get_elem?-append before rows j r)

  pub hits-Fetches :
      (nulls : Bool) (k : List Bytes) (all before rows : List Keyed)
      → all ≡ before ++ rows
      → IsReadable rdr headers (rows_of all)
      → All (Fetches (row_index rdr (length all))) (hits nulls k (length before) rows)
  hits-Fetches nulls k all before [] e h = tt
  hits-Fetches nulls k all before ((j, r) ∷ rows) e h =
      let again : all ≡ (before ++ (j, r) ∷ []) ++ rows =
        e ∙ sym (append_assoc before ((j, r) ∷ []) rows) in
      let one_more : length (before ++ (j, r) ∷ []) ≡ suc (length before) =
        omega (arith, length-append before ((j, r) ∷ [])) in
      let rest = rw one_more at (hits-Fetches nulls k all (before ++ (j, r) ∷ []) rows again h) in
      elim (Bool-cases (is_hit nulls k j)) [
        | inl hit ↦ rw hit (rw (← e) at (fetch-at before rows j r (rw e at h)), rest)
        | inr miss ↦ rw miss rest
      ]

  pub value_index-built :
      (u : Unicode) (casei : Bool) (sel : List ℕ) (nulls : Bool) (rows : List Keyed)
      (out : List ByteRecord)
      → IsReadable rdr headers (rows_of rows)
      → HasKeys u casei sel rows
      → value_index u casei sel nulls rdr out ≡ (ok (built nulls rdr rows), out)
  unfolding value_index
  value_index-built u casei sel nulls rows out h k =
      let zero_more : 0 + length rows ≡ length rows = omega arith in
      bind-ok (try_csv (input_rows rdr)) _
        (ap (λ r. try_csv r out) (input_rows-all_ok rdr headers (rows_of rows) h))
      ∙ bind-ok (index_rows u casei sel nulls 0 [] (all_ok (rows_of rows))) _
          (rw zero_more at (index_rows-values_of u casei sel nulls 0 [] rows out k))

module _ (w : Sink) (acc : Accepts w) (idx : Indexed) where
  pub write_hits-records :
      (f : ByteRecord → ByteRecord) (hs : List (ℕ × ByteRecord)) (out : List ByteRecord)
      → All (Fetches idx) hs
      → write_hits w idx f (numbers hs) out ≡ (ok tt, out ++ map f (records hs))
  unfolding write_hits
  write_hits-records f [] out h = ap (λ rs. (ok tt, rs)) (sym (append-nil out))
  write_hits-records f ((n, r) ∷ hs) out (h, k) =
      bind-ok (fetch idx n) _ (h out)
      ∙ bind-ok (write_record w (f r)) _ (write_record-Accepts w acc (f r) out)
      ∙ write_hits-records f hs (out ++ f r ∷ []) k
      ∙ ap (λ rs. (ok tt, rs)) (append_assoc out (f r ∷ []) (map f (records hs)))

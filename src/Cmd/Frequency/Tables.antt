-- ===== src/Cmd/Frequency/Tables.antt =====
-- What the tables count.
use xsv.Prelude.{
  length-set, ℕ, zero, suc, ◌+◌, ◌≡◌, ◌≤◌, ◌<◌, refl, ap, ◌∙◌, not, Bool, true, false, ◌&&◌, List,
  [], ◌∷◌, some, length, get_elem?-lt, set, replicate, length-replicate, ◌==◌, if◌then◌else◌, arith,
}
use xsv.Prelude.Bytes.{bytes_eq, is_empty}
use xsv.Prelude.Results.{ok}
use xsv.Prelude.Sums.{sum_of}
use xsv.Error.{Bytes, ByteRecord}
use xsv.Csv.{Reader, unwrap}
use xsv.Csv.Laws.{all_ok, bind-ok}
use xsv.Unicode.{Unicode}
use xsv.Select.Row.{normal, normal_select, normal_len}
use xsv.Cmd.Frequency.{
  Frequencies, Args, sel_headers, sequential_ftables, trimmed, add_at, add_field, add_fields,
  add_rows, ftables,
}
use xsv.Cmd.Frequency.Counting.{normal_select-length, count_at, count_at-set, IsCounting}

module _ (u : Unicode) where
  -- The field is counted as the value `v`: without the white space around it, and not at all if that
  -- is empty and nulls are left out.
  abbrev pub counted : Bool → Bytes → Bytes → ℕ
  counted no_nulls v field =
      if is_empty (trimmed u field) && no_nulls
      then 0
      else if bytes_eq (trimmed u field) v
      then 1
      else 0

  abbrev pub counted_at : Bool → Bytes → List Bytes → ℕ → ℕ
  counted_at no_nulls v [] i = 0
  counted_at no_nulls v (f ∷ fields) zero = counted no_nulls v f
  counted_at no_nulls v (f ∷ fields) (suc i) = counted_at no_nulls v fields i

  -- In how many records the selected field number `i` is counted as the value `v`.
  abbrev pub tally : Bool → List Bool → ℕ → Bytes → List ByteRecord → ℕ
  tally no_nulls nsel i v = sum_of (λ r. counted_at no_nulls v (normal_select nsel r) i)

  -- The same for the fields from number `n` on.
  abbrev counted_from : Bool → Bytes → ℕ → List Bytes → ℕ → ℕ
  counted_from no_nulls v n [] i = 0
  counted_from no_nulls v n (f ∷ fields) i =
      (if n == i then counted no_nulls v f else 0) + counted_from no_nulls v (suc n) fields i

  counted_from-lt :
      (no_nulls : Bool) (v : Bytes) (n : ℕ) (fields : List Bytes) (i : ℕ)
      → i < n
      → counted_from no_nulls v n fields i ≡ 0
  counted_from-lt no_nulls v n [] i l = refl
  counted_from-lt no_nulls v n (f ∷ fields) i l =
      let e : (n == i) ≡ false = ground arith in
      rw e (omega (arith, counted_from-lt no_nulls v (suc n) fields i (omega arith)))

  counted_from-at :
      (no_nulls : Bool) (v : Bytes) (n : ℕ) (fields : List Bytes) (i : ℕ)
      → counted_from no_nulls v n fields (n + i) ≡ counted_at no_nulls v fields i
  counted_from-at no_nulls v n [] i = refl
  counted_from-at no_nulls v n (f ∷ fields) zero =
      let e : (n == n + 0) ≡ true = ground arith in
      rw (e, counted_from-lt no_nulls v (suc n) fields (n + 0) (omega arith)) (omega arith)
  counted_from-at no_nulls v n (f ∷ fields) (suc i) =
      let e : (n == n + suc i) ≡ false = ground arith in
      let k : n + suc i ≡ suc n + i = omega arith in
      rw e (
        omega (
          arith,
          ap (counted_from no_nulls v (suc n) fields) k
              ∙ counted_from-at no_nulls v (suc n) fields i,
        ))

  module _ {F : Type 0} (fs : Frequencies F) (count_of : F → Bytes → ℕ)
      (laws : IsCounting count_of fs) where
    -- `tabs'` has as many tables as `tabs`, and counts more by `more`.
    abbrev Counts : List F → List F → (ℕ → Bytes → ℕ) → Type 0
    Counts tabs tabs' more =
        (length tabs' ≡ length tabs)
        × ((i : ℕ) (v : Bytes)
            → count_at count_of tabs' i v ≡ count_at count_of tabs i v + more i v)

    add_at-Counts :
        (n : ℕ) (a : Bytes) (tabs : List F)
        → n < length tabs
        → (tabs' : List F) × (add_at fs n a tabs ≡ some tabs')
          × Counts tabs tabs' (λ i v. if n == i then (if bytes_eq a v then 1 else 0) else 0)
    unfolding add_at
    add_at-Counts n a tabs l =
        let (t, e) = get_elem?-lt tabs n l in
        (
          set tabs n (fs.add a t),
          rw (e, add_at) refl,
          (
            length-set tabs n (fs.add a t),
            λ i v.
                count_at-set count_of tabs n i t (fs.add a t) v (if bytes_eq a v then 1 else 0) e
                  (laws.counts_added a v t),
          ),
        )

    add_field-Counts :
        (no_nulls : Bool) (n : ℕ) (f : Bytes) (tabs : List F)
        → n < length tabs
        → (tabs' : List F) × (add_field fs u no_nulls n f tabs ≡ some tabs')
          × Counts tabs tabs' (λ i v. if n == i then counted no_nulls v f else 0)
    unfolding add_field
    add_field-Counts no_nulls n f tabs l = go no_nulls (trimmed u f)
      where
        go :
            (b : Bool) (s : Bytes)
            → (tabs' : List F) × ((if not (is_empty s)
                  then add_at fs n s tabs
                  else if not b
                  then add_at fs n [] tabs
                  else some tabs)
                ≡ some tabs')
              × Counts tabs tabs' (λ i v.
                if n == i
                then (if is_empty s && b then 0 else if bytes_eq s v then 1 else 0)
                else 0)
        go true [] = (tabs, refl, (refl, λ i v. ground arith))
        go false [] = add_at-Counts n [] tabs l
        go b (c ∷ cs) = add_at-Counts n (c ∷ cs) tabs l

    add_fields-Counts :
        (no_nulls : Bool) (n : ℕ) (fields : List Bytes) (tabs : List F)
        → n + length fields ≤ length tabs
        → (tabs' : List F) × (add_fields fs u no_nulls n fields tabs ≡ some tabs')
          × Counts tabs tabs' (λ i v. counted_from no_nulls v n fields i)
    unfolding add_fields
    add_fields-Counts no_nulls n [] tabs l = (tabs, refl, (refl, λ i v. omega arith))
    add_fields-Counts no_nulls n (f ∷ fields) tabs l =
        let (tabs1, e1, (same1, c1)) = add_field-Counts no_nulls n f tabs (omega arith) in
        let (tabs2, e2, (same2, c2)) =
          add_fields-Counts no_nulls (suc n) fields tabs1 (omega arith) in
        (tabs2, rw (e1, add_fields) e2, (same2 ∙ same1, λ i v. omega (arith, c1 i v, c2 i v)))

    add_rows-Counts :
        {S : Type 0} (no_nulls : Bool) (nsel : List Bool) (rows : List ByteRecord) (tabs : List F)
        (s : S)
        → length tabs ≡ normal_len nsel
        → (tabs' : List F) × (add_rows fs u no_nulls nsel (all_ok rows) tabs s ≡ (ok tabs', s))
          × Counts tabs tabs' (λ i v. tally no_nulls nsel i v rows)
    unfolding add_rows
    add_rows-Counts no_nulls nsel [] tabs s len = (tabs, refl, (refl, λ i v. omega arith))
    add_rows-Counts no_nulls nsel (r ∷ rows) tabs s len =
        let (tabs1, e1, (same1, c1)) =
          add_fields-Counts no_nulls 0 (normal_select nsel r) tabs
            (omega (arith, normal_select-length nsel r)) in
        let (tabs2, e2, (same2, c2)) = add_rows-Counts no_nulls nsel rows tabs1 s (same1 ∙ len) in
        (
          tabs2,
          bind-ok (unwrap (add_fields fs u no_nulls 0 (normal_select nsel r) tabs)) _
                (ap (λ o. unwrap o s) e1)
              ∙ e2,
          (
            same2 ∙ same1,
            λ i v.
                let zero_more : 0 + i ≡ i = omega arith in
                omega (
                  arith,
                  c1 i v,
                  c2 i v,
                  rw zero_more at (counted_from-at no_nulls v 0 (normal_select nsel r) i),
                ),
          ),
        )

    count_at-new : (n i : ℕ) (v : Bytes) → count_at count_of (replicate n fs.new) i v ≡ 0
    count_at-new zero i v = refl
    count_at-new (suc n) zero v = laws.counts_none v
    count_at-new (suc n) (suc i) v = count_at-new n i v

    -- On data that reads without errors, counting never panics, and gives a table for each column of
    -- the normal selection; the table of a column counts a value as often as there are records whose
    -- field in that column is that value once the white space around it is taken off, an empty field
    -- counting as the empty value or, with `--no-nulls`, not at all.
    pub ftables-tally :
        {S : Type 0} (no_nulls : Bool) (sel : List ℕ) (rows : List ByteRecord) (s : S)
        → (tabs : List F) × (ftables fs u no_nulls sel (all_ok rows) s ≡ (ok tabs, s))
          × (length tabs ≡ normal_len (normal sel))
          × ((i : ℕ) (v : Bytes)
              → count_at count_of tabs i v ≡ tally no_nulls (normal sel) i v rows)
    unfolding ftables
    ftables-tally no_nulls sel rows s =
        let n = normal_len (normal sel) in
        let (tabs, e, (same, c)) =
          add_rows-Counts no_nulls (normal sel) rows (replicate n fs.new) s
            (length-replicate n fs.new) in
        (tabs, e, same ∙ length-replicate n fs.new, λ i v. omega (arith, c i v, count_at-new n i v))

    pub sequential_ftables-tally :
        {S : Type 0} (a : Args) (rdr : Reader) (rows : List ByteRecord) (names : ByteRecord)
        (sel : List ℕ) (s : S)
        → rdr.records ≡ all_ok rows
        → sel_headers a.rconfig rdr s ≡ (ok (names, sel), s)
        → (tabs : List F) × (sequential_ftables fs u a rdr s ≡ (ok (names, tabs), s))
          × ((i : ℕ) (v : Bytes)
              → count_at count_of tabs i v ≡ tally a.flag_no_nulls (normal sel) i v rows)
    unfolding sequential_ftables
    sequential_ftables-tally a rdr rows names sel s r h =
        let (tabs, run, same, c) = ftables-tally a.flag_no_nulls sel rows s in
        (
          tabs,
          bind-ok (sel_headers a.rconfig rdr) _ h
              ∙ bind-ok (ftables fs u a.flag_no_nulls sel rdr.records) _
                  (ap (λ rs. ftables fs u a.flag_no_nulls sel rs s) r ∙ run),
          c,
        )

-- ===== src/Cmd/Join/Full.antt =====
-- The full outer join: the rows of the first input with their matches, and the rows of the second
-- one that none of them matched.
use mathlib.Core.List.{append_assoc}
use xsv.Prelude.{
  ℕ, suc, ◌+◌, ◌≡◌, refl, sym, ap, ◌∙◌, Bool, true, false, ◌||◌, List, [], ◌∷◌, ◌++◌, append-nil,
  length, length-append, none, replicate, set, map, All, arith, if◌then◌else◌, Bool-cases, inl, inr,
}
use xsv.Prelude.Dict.{nat_eq, list_eq, lookup}
use xsv.Prelude.Results.{ok}
use xsv.Error.{Bytes, ByteRecord}
use xsv.Csv.{Sink, write_record, unwrap}
use xsv.Csv.Laws.{Accepts, all_ok, write_record-Accepts, bind-ok}
use xsv.Unicode.{Unicode}
use xsv.Cmd.Join.{
  IoState, write_hits, full_row, full_rows, full_outer_join, rest_rows, mark, get_padding, fetch,
}
use xsv.Cmd.Join.Values.{Seekable, ValueIndex, get_row_key, value_index, row_index}
use xsv.Cmd.Join.Readable.{IsReadable}
use xsv.Cmd.Join.Hits.{
  Keyed, is_hit, hits, numbers, found, matches, records, records-hits, rows_of, HasKeys, built,
  lookup-built, Fetches, fetch-at, hits-Fetches, value_index-built, write_hits-records,
}
use xsv.Cmd.Join.Laws.{IsJoinable, outer_pairs, or_padded, padding, get_padding-padding}

-- Some row of the first input matches a row of the second one with the key `j`.
abbrev pub is_matched : Bool → List Keyed → List Bytes → Bool
is_matched nulls [] j = false
is_matched nulls ((k, r) ∷ rows1) j = is_hit nulls k j || is_matched nulls rows1 j

-- The rows of the second input that no row of the first one matches.
abbrev pub unmatched : Bool → List Keyed → List Keyed → List ByteRecord
unmatched nulls rows1 [] = []
unmatched nulls rows1 ((j, r) ∷ rows2) =
    if is_matched nulls rows1 j
    then unmatched nulls rows1 rows2
    else r ∷ unmatched nulls rows1 rows2

-- Marks: `f` says for each row whether it has been written.
abbrev marks : (List Bytes → Bool) → List Keyed → List Bool
marks f = map (λ x. f x.0)

set-append :
    (before written : List Bool) (b c : Bool)
    → set (before ++ b ∷ written) (length before) c ≡ before ++ c ∷ written
set-append [] written b c = refl
set-append (x ∷ before) written b c = ap (◌∷◌ x) (set-append before written b c)

mark-hits :
    (nulls : Bool) (k : List Bytes) (f : List Bytes → Bool) (before : List Bool) (rows : List Keyed)
    → mark (numbers (hits nulls k (length before) rows)) (before ++ marks f rows)
      ≡ before ++ marks (λ j. is_hit nulls k j || f j) rows
mark-hits nulls k f before [] = refl
mark-hits nulls k f before ((j, r) ∷ rows) =
    let more : (b : Bool)
        → mark (numbers (hits nulls k (suc (length before)) rows)) (before ++ b ∷ marks f rows)
          ≡ before ++ b ∷ marks (λ i. is_hit nulls k i || f i) rows =
      λ b.
        let one : length (before ++ b ∷ []) ≡ suc (length before) =
          omega (arith, length-append before (b ∷ [])) in
        rw
          (
            one,
            append_assoc before (b ∷ []) (marks f rows),
            append_assoc before (b ∷ []) (marks (λ i. is_hit nulls k i || f i) rows),
          )
          at (mark-hits nulls k f (before ++ b ∷ []) rows) in
    elim (Bool-cases (is_hit nulls k j)) [
      | inl hit ↦ rw hit (
          ap (mark (numbers (hits nulls k (suc (length before)) rows)))
            (set-append before (marks f rows) (f j) true)
          ∙ more true)
      | inr miss ↦ rw miss (more (f j))
    ]

-- The rows whose mark is not set.
abbrev left_out : (List Bytes → Bool) → List Keyed → List ByteRecord
left_out f [] = []
left_out f ((j, r) ∷ rows) = if f j then left_out f rows else r ∷ left_out f rows

module _ (w : Sink) (acc : Accepts w) (rdr : Seekable) (headers pad1 : ByteRecord) where
  rest_rows-left_out :
      (f : List Bytes → Bool) (all before rows : List Keyed) (out : List ByteRecord)
      → all ≡ before ++ rows
      → IsReadable rdr headers (rows_of all)
      → rest_rows w pad1 (row_index rdr (length all)) (length before) (marks f rows) out
        ≡ (ok tt, out ++ map (◌++◌ pad1) (left_out f rows))
  unfolding rest_rows
  rest_rows-left_out f all before [] out e h = ap (λ rs. (ok tt, rs)) (sym (append-nil out))
  rest_rows-left_out f all before ((j, r) ∷ rows) out e h =
      let again : all ≡ (before ++ (j, r) ∷ []) ++ rows =
        e ∙ sym (append_assoc before ((j, r) ∷ []) rows) in
      let one_more : length (before ++ (j, r) ∷ []) ≡ length before + 1 =
        omega (arith, length-append before ((j, r) ∷ [])) in
      let rest : (rs : List ByteRecord)
          → rest_rows w pad1 (row_index rdr (length all)) (length before + 1) (marks f rows) rs
            ≡ (ok tt, rs ++ map (◌++◌ pad1) (left_out f rows)) =
        λ rs. rw one_more at (rest_rows-left_out f all (before ++ (j, r) ∷ []) rows rs again h) in
      let idx = row_index rdr (length all) in
      elim (Bool-cases (f j)) [
        | inl written ↦ rw written (rest out)
        | inr skipped ↦ rw skipped (
            bind-ok (fetch idx (length before)) _
              (rw (← e) at (fetch-at rdr headers before rows j r (rw e at h)) out)
            ∙ bind-ok (write_record w (pad1 ++ r)) _ (write_record-Accepts w acc (pad1 ++ r) out)
            ∙ rest (out ++ (pad1 ++ r) ∷ [])
            ∙ ap (λ rs. (ok tt, rs))
                (append_assoc out ((pad1 ++ r) ∷ []) (map (◌++◌ pad1) (left_out f rows))))
      ]

-- The marks after the first loop.
abbrev marked : Bool → List Keyed → (List Bytes → Bool) → List Bytes → Bool
marked nulls [] f = f
marked nulls ((k, r) ∷ rows1) f = marked nulls rows1 (λ j. is_hit nulls k j || f j)

marked-is_matched :
    (nulls : Bool) (rows1 : List Keyed) (f : List Bytes → Bool) (j : List Bytes)
    → marked nulls rows1 f j ≡ (is_matched nulls rows1 j || f j)
marked-is_matched nulls [] f j = refl
marked-is_matched nulls ((k, r) ∷ rows1) f j =
    ground (arith, marked-is_matched nulls rows1 (λ i. is_hit nulls k i || f i) j)

left_out-unmatched :
    (nulls : Bool) (rows1 rows2 : List Keyed)
    → left_out (marked nulls rows1 (λ j. false)) rows2 ≡ unmatched nulls rows1 rows2
left_out-unmatched nulls rows1 [] = refl
left_out-unmatched nulls rows1 ((j, r) ∷ rows2) =
    let m = marked-is_matched nulls rows1 (λ i. false) j in
    elim (Bool-cases (is_matched nulls rows1 j)) [
      | inl matched ↦ rw (m, matched) (left_out-unmatched nulls rows1 rows2)
      | inr missed ↦ rw (m, missed) (ap (◌∷◌ r) (left_out-unmatched nulls rows1 rows2))
    ]

replicate-marks : (rows : List Keyed) → replicate (length rows) false ≡ marks (λ j. false) rows
replicate-marks [] = refl
replicate-marks (x ∷ rows) = ap (◌∷◌ false) (replicate-marks rows)

module _ (u : Unicode) (w : Sink) (acc : Accepts w) where
  full_row-marks :
      (pad : ByteRecord) (validx : ValueIndex) (r : ByteRecord) (hs : List (ℕ × ByteRecord))
      (written : List Bool) (out : List ByteRecord)
      → All (Fetches validx.idx) hs
      → full_row w pad validx r (found none (numbers hs)) written out
        ≡ (ok (mark (numbers hs) written), out ++ or_padded false r pad (records hs))
  unfolding full_row
  full_row-marks pad validx r [] written out h =
      bind-ok (write_record w (r ++ pad)) _ (write_record-Accepts w acc (r ++ pad) out)
  full_row-marks pad validx r (x ∷ hs) written out h =
      bind-ok (write_hits w validx.idx (λ s. r ++ s) (numbers (x ∷ hs))) _
        (write_hits-records w acc validx.idx (λ s. r ++ s) (x ∷ hs) out h)

  module _ (st : IoState) (headers1 headers2 : ByteRecord) (rows2 : List Keyed)
      (reads : IsReadable st.rdr2 headers2 (rows_of rows2)) (pad2 : ByteRecord) where
    full_rows-outer_pairs :
        (rows1 : List Keyed) (f : List Bytes → Bool) (out : List ByteRecord)
        → HasKeys u st.casei st.sel1 rows1
        → full_rows u w st pad2
            (built st.nulls st.rdr2 rows2)
            (marks f rows2)
            (all_ok (rows_of rows1))
            out
          ≡ (
            ok (marks (marked st.nulls rows1 f) rows2),
            out ++ outer_pairs false pad2 st.nulls rows1 rows2,
          )
    unfolding full_rows
    full_rows-outer_pairs [] f out h = ap (λ rs. (ok (marks f rows2), rs)) (sym (append-nil out))
    full_rows-outer_pairs ((k, r) ∷ rows1) f out (h, hs) =
        let hit = hits st.nulls k 0 rows2 in
        let validx = built st.nulls st.rdr2 rows2 in
        bind-ok (unwrap (get_row_key u st.casei st.sel1 r)) _ (ap (λ o. unwrap o out) h)
        ∙ bind-ok (full_row w pad2 validx r (lookup k validx.values) (marks f rows2)) _ (
            ap (λ o. full_row w pad2 validx r o (marks f rows2) out)
              (lookup-built st.nulls st.rdr2 k rows2)
            ∙ full_row-marks pad2 validx r hit (marks f rows2) out
                (hits-Fetches st.rdr2 headers2 st.nulls k rows2 [] rows2 refl reads)
            ∙ ap (λ ms. (ok (mark (numbers hit) (marks f rows2)), out ++ or_padded false r pad2 ms))
                (records-hits st.nulls k 0 rows2)
            ∙ ap (λ ws. (ok ws, out ++ or_padded false r pad2 (matches st.nulls k rows2)))
                (mark-hits st.nulls k f [] rows2))
        ∙ full_rows-outer_pairs rows1 (λ j. is_hit st.nulls k j || f j)
            (out ++ or_padded false r pad2 (matches st.nulls k rows2)) hs
        ∙ ap (λ rs. (ok (marks (marked st.nulls ((k, r) ∷ rows1) f) rows2), rs))
            (append_assoc out (or_padded false r pad2 (matches st.nulls k rows2))
              (outer_pairs false pad2 st.nulls rows1 rows2))

  -- On inputs that read without errors and in which every row has its key, and into a writer that
  -- takes every record, a full outer join writes what the left outer join writes and then, in order,
  -- the rows of the second input that no row of the first one matches, each behind as many empty
  -- fields as the first input has headers.
  pub full_outer_join-outer_pairs :
      (st : IoState) (headers1 headers2 : ByteRecord) (rows1 rows2 : List Keyed)
      (out : List ByteRecord)
      → IsJoinable u st headers1 headers2 rows1 rows2
      → full_outer_join u w st out ≡ (
        ok tt,
        (out ++ outer_pairs false (padding headers2) st.nulls rows1 rows2)
            ++ map (◌++◌ (padding headers1)) (unmatched st.nulls rows1 rows2),
      )
  unfolding full_outer_join
  full_outer_join-outer_pairs st headers1 headers2 rows1 rows2 out j =
      let validx = built st.nulls st.rdr2 rows2 in
      bind-ok (get_padding st) _ (
        get_padding-padding u w acc st headers1 headers2 out j.reads1.headers_are
          j.reads2.headers_are)
      ∙ bind-ok (value_index u st.casei st.sel2 st.nulls st.rdr2) _ (
          value_index-built st.rdr2 headers2 u st.casei st.sel2 st.nulls rows2 out j.reads2 j.keys2)
      ∙ bind-ok
          (full_rows u w st (padding headers2) validx (replicate (length rows2) false)
            st.rdr1.rdr.records)
          _
          (ap
              (λ rs.
                full_rows u w st (padding headers2) validx (replicate (length rows2) false) rs out)
              j.reads1.records_are
            ∙ ap (λ ws. full_rows u w st (padding headers2) validx ws (all_ok (rows_of rows1)) out)
                (replicate-marks rows2)
            ∙ full_rows-outer_pairs st headers1 headers2 rows2 j.reads2 (padding headers2) rows1
                (λ i. false) out j.keys1)
      ∙ rest_rows-left_out w acc st.rdr2 headers2 (padding headers1)
          (marked st.nulls rows1 (λ i. false)) rows2 [] rows2
          (out ++ outer_pairs false (padding headers2) st.nulls rows1 rows2) refl j.reads2
      ∙ ap
          (λ ls. (
            ok tt,
            (out ++ outer_pairs false (padding headers2) st.nulls rows1 rows2)
                ++ map (◌++◌ (padding headers1)) ls,
          ))
          (left_out-unmatched st.nulls rows1 rows2)

-- ===== src/Cmd/Join/Laws.antt =====
-- The joins against nested loops over the two inputs.
use mathlib.Core.List.{append_assoc}
use xsv.Prelude.{
  ℕ, ◌≡◌, refl, sym, ap, ◌∙◌, Bool, true, false, List, [], ◌∷◌, ◌++◌, append-nil, none, length,
  replicate, map, All, if◌then◌else◌,
}
use xsv.Prelude.Dict.{nat_eq, list_eq, lookup}
use xsv.Prelude.Results.{ok}
use xsv.Error.{ByteRecord}
use xsv.Csv.{Sink, write_record, try_csv, unwrap}
use xsv.Csv.Laws.{Accepts, all_ok, write_record-Accepts, bind-ok}
use xsv.Unicode.{Unicode}
use xsv.Cmd.Join.{
  IoState, inner_row, inner_rows, inner_join, beside, outer_row, outer_rows, outer_from, outer_join,
  swap, get_padding, skip_headers, write_beside, cross_rows, cross_join,
}
use xsv.Cmd.Join.Values.{Seekable, ValueIndex, get_row_key, value_index}
use xsv.Cmd.Join.Readable.{IsReadable}
use xsv.Cmd.Join.Hits.{
  Keyed, hits, numbers, found, matches, records, records-hits, rows_of, HasKeys, built,
  lookup-built, Fetches, hits-Fetches, value_index-built, write_hits-records,
}

-- The rows of the first input, each beside every row of the second one with its key.
abbrev pub inner_pairs : Bool → List Keyed → List Keyed → List ByteRecord
inner_pairs nulls [] rows2 = []
inner_pairs nulls ((k, r) ∷ rows1) rows2 =
    map (◌++◌ r) (matches nulls k rows2) ++ inner_pairs nulls rows1 rows2

abbrev pub or_padded : Bool → ByteRecord → ByteRecord → List ByteRecord → List ByteRecord
or_padded right r pad [] = beside right r pad ∷ []
or_padded right r pad (m ∷ ms) = map (beside right r) (m ∷ ms)

-- The same, but a row that no row has the key of is there once, beside the padding.
abbrev pub outer_pairs : Bool → ByteRecord → Bool → List Keyed → List Keyed → List ByteRecord
outer_pairs right pad nulls [] rows2 = []
outer_pairs right pad nulls ((k, r) ∷ rows1) rows2 =
    or_padded right r pad (matches nulls k rows2) ++ outer_pairs right pad nulls rows1 rows2

-- Every row of the first input beside every row of the second one.
abbrev pub all_pairs : List ByteRecord → List ByteRecord → List ByteRecord
all_pairs [] rows2 = []
all_pairs (r ∷ rows1) rows2 = map (◌++◌ r) rows2 ++ all_pairs rows1 rows2

-- Both inputs read without errors, and every row has its key.
pub record IsJoinable (u : Unicode) (st : IoState) (headers1 headers2 : ByteRecord)
    (rows1 rows2 : List Keyed) : Type 0 where
  pub reads1 : IsReadable st.rdr1 headers1 (rows_of rows1)
  pub reads2 : IsReadable st.rdr2 headers2 (rows_of rows2)
  pub keys1 : HasKeys u st.casei st.sel1 rows1
  pub keys2 : HasKeys u st.casei st.sel2 rows2

abbrev pub padding : ByteRecord → ByteRecord
padding headers = replicate (length headers) []

module _ (u : Unicode) (w : Sink) (acc : Accepts w) where
  inner_row-map :
      (validx : ValueIndex) (r : ByteRecord) (hs : List (ℕ × ByteRecord)) (out : List ByteRecord)
      → All (Fetches validx.idx) hs
      → inner_row w validx r (found none (numbers hs)) out
        ≡ (ok tt, out ++ map (◌++◌ r) (records hs))
  unfolding inner_row
  inner_row-map validx r [] out h = ap (λ rs. (ok tt, rs)) (sym (append-nil out))
  inner_row-map validx r (x ∷ hs) out h =
      write_hits-records w acc validx.idx (λ s. r ++ s) (x ∷ hs) out h

  outer_row-or_padded :
      (right : Bool) (pad : ByteRecord) (validx : ValueIndex) (r : ByteRecord)
      (hs : List (ℕ × ByteRecord)) (out : List ByteRecord)
      → All (Fetches validx.idx) hs
      → outer_row w right pad validx r (found none (numbers hs)) out
        ≡ (ok tt, out ++ or_padded right r pad (records hs))
  unfolding outer_row
  outer_row-or_padded right pad validx r [] out h =
      write_record-Accepts w acc (beside right r pad) out
  outer_row-or_padded right pad validx r (x ∷ hs) out h =
      write_hits-records w acc validx.idx (beside right r) (x ∷ hs) out h

  module _ (st : IoState) (headers1 headers2 : ByteRecord) (rows2 : List Keyed)
      (reads : IsReadable st.rdr2 headers2 (rows_of rows2)) where
    inner_rows-inner_pairs :
        (rows1 : List Keyed) (out : List ByteRecord)
        → HasKeys u st.casei st.sel1 rows1
        → inner_rows u w st (built st.nulls st.rdr2 rows2) (all_ok (rows_of rows1)) out
          ≡ (ok tt, out ++ inner_pairs st.nulls rows1 rows2)
    unfolding inner_rows
    inner_rows-inner_pairs [] out h = ap (λ rs. (ok tt, rs)) (sym (append-nil out))
    inner_rows-inner_pairs ((k, r) ∷ rows1) out (h, hs) =
        let hit = hits st.nulls k 0 rows2 in
        bind-ok (unwrap (get_row_key u st.casei st.sel1 r)) _ (ap (λ o. unwrap o out) h)
        ∙ bind-ok
            (inner_row w (built st.nulls st.rdr2 rows2) r
              (lookup k (built st.nulls st.rdr2 rows2).values))
            _
            (ap (λ o. inner_row w (built st.nulls st.rdr2 rows2) r o out)
                (lookup-built st.nulls st.rdr2 k rows2)
              ∙ inner_row-map (built st.nulls st.rdr2 rows2) r hit out
                  (hits-Fetches st.rdr2 headers2 st.nulls k rows2 [] rows2 refl reads)
              ∙ ap (λ ms. (ok tt, out ++ map (◌++◌ r) ms)) (records-hits st.nulls k 0 rows2))
        ∙ inner_rows-inner_pairs rows1 (out ++ map (◌++◌ r) (matches st.nulls k rows2)) hs
        ∙ ap (λ rs. (ok tt, rs))
            (append_assoc out (map (◌++◌ r) (matches st.nulls k rows2))
              (inner_pairs st.nulls rows1 rows2))

    outer_rows-outer_pairs :
        (right : Bool) (pad : ByteRecord) (rows1 : List Keyed) (out : List ByteRecord)
        → HasKeys u st.casei st.sel1 rows1
        → outer_rows u w right st pad (built st.nulls st.rdr2 rows2) (all_ok (rows_of rows1)) out
          ≡ (ok tt, out ++ outer_pairs right pad st.nulls rows1 rows2)
    unfolding outer_rows
    outer_rows-outer_pairs right pad [] out h = ap (λ rs. (ok tt, rs)) (sym (append-nil out))
    outer_rows-outer_pairs right pad ((k, r) ∷ rows1) out (h, hs) =
        let hit = hits st.nulls k 0 rows2 in
        bind-ok (unwrap (get_row_key u st.casei st.sel1 r)) _ (ap (λ o. unwrap o out) h)
        ∙ bind-ok
            (outer_row w right pad (built st.nulls st.rdr2 rows2) r
              (lookup k (built st.nulls st.rdr2 rows2).values))
            _
            (ap (λ o. outer_row w right pad (built st.nulls st.rdr2 rows2) r o out)
                (lookup-built st.nulls st.rdr2 k rows2)
              ∙ outer_row-or_padded right pad (built st.nulls st.rdr2 rows2) r hit out
                  (hits-Fetches st.rdr2 headers2 st.nulls k rows2 [] rows2 refl reads)
              ∙ ap (λ ms. (ok tt, out ++ or_padded right r pad ms))
                  (records-hits st.nulls k 0 rows2))
        ∙ outer_rows-outer_pairs right pad rows1
            (out ++ or_padded right r pad (matches st.nulls k rows2)) hs
        ∙ ap (λ rs. (ok tt, rs))
            (append_assoc out (or_padded right r pad (matches st.nulls k rows2))
              (outer_pairs right pad st.nulls rows1 rows2))

  -- On inputs that read without errors and in which every row has its key, and into a writer that
  -- takes every record, an inner join writes, for every row of the first input in order, that row
  -- beside each row of the second input with the same key in order; a row of the second input with an
  -- empty value in its key counts only with `--nulls`.
  pub inner_join-inner_pairs :
      (st : IoState) (headers1 headers2 : ByteRecord) (rows1 rows2 : List Keyed)
      (out : List ByteRecord)
      → IsJoinable u st headers1 headers2 rows1 rows2
      → inner_join u w st out ≡ (ok tt, out ++ inner_pairs st.nulls rows1 rows2)
  unfolding inner_join
  inner_join-inner_pairs st headers1 headers2 rows1 rows2 out j =
      bind-ok (value_index u st.casei st.sel2 st.nulls st.rdr2) _
        (value_index-built st.rdr2 headers2 u st.casei st.sel2 st.nulls rows2 out j.reads2 j.keys2)
      ∙ ap (λ rs. inner_rows u w st (built st.nulls st.rdr2 rows2) rs out) j.reads1.records_are
      ∙ inner_rows-inner_pairs st headers1 headers2 rows2 j.reads2 rows1 out j.keys1

  pub get_padding-padding :
      (st : IoState) (headers1 headers2 : ByteRecord) (out : List ByteRecord)
      → st.rdr1.rdr.headers ≡ ok headers1
      → st.rdr2.rdr.headers ≡ ok headers2
      → get_padding st out ≡ (ok (padding headers1, padding headers2), out)
  unfolding get_padding
  get_padding-padding st headers1 headers2 out h k =
      bind-ok (try_csv st.rdr1.rdr.headers) _ (ap (λ r. try_csv r out) h)
      ∙ bind-ok (try_csv st.rdr2.rdr.headers) _ (ap (λ r. try_csv r out) k)

  outer_from-outer_pairs :
      (right : Bool) (st : IoState) (headers1 headers2 : ByteRecord) (rows1 rows2 : List Keyed)
      (out : List ByteRecord)
      → IsJoinable u st headers1 headers2 rows1 rows2
      → outer_from u w right st out
        ≡ (ok tt, out ++ outer_pairs right (padding headers2) st.nulls rows1 rows2)
  unfolding outer_from
  outer_from-outer_pairs right st headers1 headers2 rows1 rows2 out j =
      bind-ok (get_padding st) _
        (get_padding-padding st headers1 headers2 out j.reads1.headers_are j.reads2.headers_are)
      ∙ bind-ok (value_index u st.casei st.sel2 st.nulls st.rdr2) _ (
          value_index-built st.rdr2 headers2 u st.casei st.sel2 st.nulls rows2 out j.reads2 j.keys2)
      ∙ ap (λ rs. outer_rows u w right st (padding headers2) (built st.nulls st.rdr2 rows2) rs out)
          j.reads1.records_are
      ∙ outer_rows-outer_pairs st headers1 headers2 rows2 j.reads2 right (padding headers2) rows1
          out j.keys1

  -- On inputs that read without errors and in which every row has its key, and into a writer that
  -- takes every record, a left or right outer join writes the rows of the outer input in order:
  -- each beside every row of the other input with its key or, if there is none, once beside empty
  -- fields, as many as the other input has headers. A row of the other input with an empty value in
  -- its key counts only with `--nulls`. The fields of the first input stand first, also in a right
  -- join.
  pub outer_join-outer_pairs :
      (right : Bool) (st : IoState) (headers1 headers2 : ByteRecord) (rows1 rows2 : List Keyed)
      (out : List ByteRecord)
      → IsJoinable u st headers1 headers2 rows1 rows2
      → outer_join u w right st out ≡ (
        ok tt,
        out
            ++ (if right
                then outer_pairs true (padding headers1) st.nulls rows2 rows1
                else outer_pairs false (padding headers2) st.nulls rows1 rows2),
      )
  unfolding outer_join
  outer_join-outer_pairs false st headers1 headers2 rows1 rows2 out j =
      outer_from-outer_pairs false st headers1 headers2 rows1 rows2 out j
  outer_join-outer_pairs true st headers1 headers2 rows1 rows2 out j =
      outer_from-outer_pairs true (swap st) headers2 headers1 rows2 rows1 out
        (record { reads1 = j.reads2; reads2 = j.reads1; keys1 = j.keys2; keys2 = j.keys1 })

write_beside-map :
    (w : Sink) (acc : Accepts w) (row1 : ByteRecord) (rows2 out : List ByteRecord)
    → write_beside w row1 (all_ok rows2) out ≡ (ok tt, out ++ map (◌++◌ row1) rows2)
unfolding write_beside
write_beside-map w acc row1 [] out = ap (λ rs. (ok tt, rs)) (sym (append-nil out))
write_beside-map w acc row1 (r ∷ rows2) out =
    bind-ok (write_record w (row1 ++ r)) _ (write_record-Accepts w acc (row1 ++ r) out)
    ∙ write_beside-map w acc row1 rows2 (out ++ (row1 ++ r) ∷ [])
    ∙ ap (λ rs. (ok tt, rs)) (append_assoc out ((row1 ++ r) ∷ []) (map (◌++◌ row1) rows2))

skip_headers-all_ok :
    (has : Bool) (headers : ByteRecord) (rows : List ByteRecord)
    → skip_headers has (all_ok (if has then headers ∷ rows else rows)) ≡ ok (all_ok rows)
unfolding skip_headers
skip_headers-all_ok true headers rows = refl
skip_headers-all_ok false headers rows = refl

cross_rows-all_pairs :
    (w : Sink) (acc : Accepts w) (rdr2 : Seekable) (headers : ByteRecord)
    (rows1 rows2 out : List ByteRecord)
    → IsReadable rdr2 headers rows2
    → cross_rows w rdr2 (all_ok rows1) out ≡ (ok tt, out ++ all_pairs rows1 rows2)
unfolding cross_rows
cross_rows-all_pairs w acc rdr2 headers [] rows2 out h =
    ap (λ rs. (ok tt, rs)) (sym (append-nil out))
cross_rows-all_pairs w acc rdr2 headers (r ∷ rows1) rows2 out h =
    bind-ok (try_csv (rdr2.seek_to 0)) _ (ap (λ c. try_csv c out) h.from_start)
    ∙ bind-ok (try_csv (skip_headers rdr2.rdr.has_headers _)) _
        (ap (λ c. try_csv c out) (skip_headers-all_ok rdr2.rdr.has_headers headers rows2))
    ∙ bind-ok (write_beside w r (all_ok rows2)) _ (write_beside-map w acc r rows2 out)
    ∙ cross_rows-all_pairs w acc rdr2 headers rows1 rows2 (out ++ map (◌++◌ r) rows2) h
    ∙ ap (λ rs. (ok tt, rs)) (append_assoc out (map (◌++◌ r) rows2) (all_pairs rows1 rows2))

-- On inputs that read without errors, and into a writer that takes every record, a cross join writes
-- every row of the first input, in order, beside every row of the second one, in order; the second
-- input's headers are left out each time it is read again.
pub cross_join-all_pairs :
    (w : Sink) (acc : Accepts w) (st : IoState) (headers1 headers2 : ByteRecord)
    (rows1 rows2 out : List ByteRecord)
    → IsReadable st.rdr1 headers1 rows1
    → IsReadable st.rdr2 headers2 rows2
    → cross_join w st out ≡ (ok tt, out ++ all_pairs rows1 rows2)
unfolding cross_join
cross_join-all_pairs w acc st headers1 headers2 rows1 rows2 out h k =
    ap (λ rs. cross_rows w st.rdr2 rs out) h.records_are
    ∙ cross_rows-all_pairs w acc st.rdr2 headers2 rows1 rows2 out k

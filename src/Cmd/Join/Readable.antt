-- ===== src/Cmd/Join/Readable.antt =====
-- The rows of an indexed input, found again by their numbers.
use xsv.Prelude.{
  ℕ, zero, suc, ◌≡◌, ◌<◌, refl, sym, ap, ◌∙◌, false, List, [], ◌∷◌, some, length, get_elem?,
  get_elem?-some-lt, take, take_all, drop, leb, if◌then◌else◌, arith, Bool-cases, inl, inr,
}
use xsv.Prelude.Results.{ok}
use xsv.Error.{ByteRecord}
use xsv.Csv.{try_csv, try_cli}
use xsv.Csv.Laws.{all_ok, length-all_ok, drop-all_ok, bind-ok}
use xsv.Index.{seek, Describes}
use xsv.Index.Laws.{seek-drop}
use xsv.Cmd.Join.{fetch, read_first}
use xsv.Cmd.Join.Values.{Seekable, input_rows, position_at, row_index}

-- The input reads without errors, and moving its reader to the position of a row yields the rows from
-- that row on; moving it to the beginning of the file yields everything, the headers included.
pub record IsReadable (rdr : Seekable) (headers : ByteRecord) (rows : List ByteRecord)
    : Type 0 where
  pub headers_are : rdr.rdr.headers ≡ ok headers
  pub records_are : rdr.rdr.records ≡ all_ok rows
  pub from_start :
      rdr.seek_to 0 ≡ ok (all_ok (if rdr.rdr.has_headers then headers ∷ rows else rows))
  pub one_each : length rdr.positions ≡ length rows
  pub lands :
      (i : ℕ)
      → i < length rows
      → (p : ℕ) × (get_elem? rdr.positions i ≡ some p) × (rdr.seek_to p ≡ ok (all_ok (drop i rows)))

read_first-drop :
    (rows : List ByteRecord) (i : ℕ) (r : ByteRecord)
    → get_elem? rows i ≡ some r
    → read_first (all_ok (drop i rows)) ≡ ok r
unfolding read_first
read_first-drop [] i r e = cc
read_first-drop (x ∷ rows) zero r e = ground (arith, e)
read_first-drop (x ∷ rows) (suc i) r e = read_first-drop rows i r e

module _ (rdr : Seekable) (headers : ByteRecord) (rows : List ByteRecord)
    (h : IsReadable rdr headers rows) where
  pub input_rows-all_ok : input_rows rdr ≡ ok (all_ok rows)
  unfolding input_rows
  input_rows-all_ok = elim (Bool-cases rdr.rdr.has_headers) [
    | inl has ↦ rw (has, h.headers_are) (ap ok h.records_are)
    | inr plain ↦ rw plain (ground (arith, h.from_start, plain))
  ]

  abbrev all_rows : List ByteRecord
  all_rows = if rdr.rdr.has_headers then headers ∷ rows else rows

  row_at :
      (i : ℕ)
      → i < length rows
      → (p : ℕ) × (position_at (get_elem? rdr.positions i) ≡ ok p)
        × (rdr.seek_to p ≡ ok (drop i (all_ok rows)))
  unfolding position_at
  row_at i l = let (p, e, to) = h.lands i l in (p, rw e refl, to ∙ ap ok (sym (drop-all_ok i rows)))

  first_or_row :
      rdr.seek_to 0 ≡ ok (all_ok (headers ∷ rows))
      → (i : ℕ) → i < suc (length (all_ok rows))
      → (p : ℕ) × (position_at (get_elem? (0 ∷ rdr.positions) i) ≡ ok p)
        × (rdr.seek_to p ≡ ok (drop i (all_ok (headers ∷ rows))))
  first_or_row start zero l = (0, unfold position_at in refl, start)
  first_or_row start (suc i) l = row_at i (omega (arith, length-all_ok rows))

  row_index-Describes : Describes (row_index rdr (length rows)) (all_ok all_rows)
  unfolding row_index position_at
  row_index-Describes =
      let every : take (length rows) rdr.positions ≡ rdr.positions =
        take_all (length rows) rdr.positions (omega (arith, h.one_each)) in
      rw every (elim (Bool-cases rdr.rdr.has_headers) [
        | inl has ↦ rw has (record {
          len_is = omega (arith, length-all_ok rows);
          lands = first_or_row (rw has at h.from_start);
          records_are = h.records_are;
        })
        | inr plain ↦ rw plain (record {
          len_is = sym (length-all_ok rows);
          lands = λ i l. row_at i (omega (arith, length-all_ok rows));
          records_are = h.records_are;
        })
      ])

  pub fetch-row :
      (i : ℕ) (r : ByteRecord) (out : List ByteRecord)
      → get_elem? rows i ≡ some r
      → fetch (row_index rdr (length rows)) i out ≡ (ok r, out)
  unfolding fetch row_index
  fetch-row i r out e =
      let inside : leb (length rdr.rdr.records) i ≡ false =
        ground (arith, ap length h.records_are, length-all_ok rows, get_elem?-some-lt rows i e) in
      bind-ok (try_cli (seek (row_index rdr (length rows)) i)) _ (
        ap (λ c. try_cli c out)
          (rw inside at
              (seek-drop (row_index rdr (length rows)) (all_ok all_rows) row_index-Describes i)
            ∙ ap (λ rs. ok (drop i rs)) h.records_are
            ∙ ap ok (drop-all_ok i rows)))
      ∙ ap (λ c. try_csv c out) (read_first-drop rows i r e)

-- ===== src/Index/Laws.antt =====
-- Random access agrees with reading from the start.
use xsv.Prelude.{
  ℕ, ◌+◌, ◌≡◌, ◌<◌, sym, ap, ◌∙◌, ◌⊎◌, true, false, leb, length, drop, drop-drop, length-drop,
  if◌then◌else◌, Bool-cases, inl, inr, arith,
}
use xsv.Prelude.Results.{ok, err}
use xsv.Error.{CliResult, io, invalid_record_index}
use xsv.Csv.{Rows}
use xsv.Index.{Indexed, count, seek, move_to, Describes}

module _ (idx : Indexed) (all : Rows) (d : Describes idx all) where
  -- `count` is the number of records that reading from the start yields, headers not counted.
  pub count-length : count idx ≡ length idx.rdr.records
  unfolding count
  count-length = elim (Bool-cases idx.rdr.has_headers) [
    | inl headers ↦ ground (arith, d.len_is, d.records_are, length-drop 1 all)
    | inr plain ↦ ground (arith, d.len_is, d.records_are)
  ]

  lands_at : (i : ℕ) → i < length all → move_to idx (idx.get i) ≡ ok (drop i all)
  lands_at i h = let (p, g, s) = d.lands i h in rw (g, s)

  move_to-drop :
      (i : ℕ)
      → i < length idx.rdr.records
      → move_to idx (idx.get (if idx.rdr.has_headers then i + 1 else i))
        ≡ ok (drop i idx.rdr.records)
  move_to-drop i h = elim (Bool-cases idx.rdr.has_headers) [
    | inl headers ↦
        let e : idx.rdr.records ≡ drop 1 all = ground (arith, d.records_are) in
        let one : 1 + i ≡ i + 1 = omega arith in
        rw (headers, e)
          (lands_at (i + 1) (omega (arith, length-drop 1 all, rw e at h))
            ∙ ap ok (ap (λ k. drop k all) (sym one) ∙ sym (drop-drop i 1 all)))
    | inr plain ↦
        let e : idx.rdr.records ≡ all = ground (arith, d.records_are) in
        rw (plain, e) (lands_at i (rw e at h))
  ]

  -- Seeking to a record of the data yields the records from it on; a record number past the end is
  -- an error that names the number and the count.
  pub seek-drop :
      (i : ℕ)
      → seek idx i ≡ (
          if leb (length idx.rdr.records) i
          then err (io (invalid_record_index i (length idx.rdr.records)))
          else ok (drop i idx.rdr.records))
  unfolding seek
  seek-drop i = rw count-length (split (Bool-cases (leb (length idx.rdr.records) i)))
    where
      split :
          (leb (length idx.rdr.records) i ≡ true) ⊎ (leb (length idx.rdr.records) i ≡ false)
          → ◌≡◌ {A = CliResult Rows}
              (if leb (length idx.rdr.records) i
                then err (io (invalid_record_index i (length idx.rdr.records)))
                else move_to idx (idx.get (if idx.rdr.has_headers then i + 1 else i)))
              (if leb (length idx.rdr.records) i
                then err (io (invalid_record_index i (length idx.rdr.records)))
                else ok (drop i idx.rdr.records))
      split (inl past) = rw past
      split (inr within) = rw within (move_to-drop i (ground arith))

-- ===== src/Cmd/Sample/Access.antt =====
-- `sample_random_access`: the shuffled record numbers, and the records behind them.
use mathlib.Core.List.{Perm}
use mathlib.Core.List.Perm
use xsv.Prelude.{
  ℕ, zero, suc, ◌≡◌, ◌<◌, refl, sym, ap, ◌∙◌, min, List, [], ◌∷◌, ◌++◌, length, map, map-append,
  take, drop, length-map, length-take, take-append-drop, leb, false, arith, All, All-take,
}
use xsv.Prelude.Results.{ok}
use xsv.Error.{ByteRecord}
use xsv.Csv.{Rows}
use xsv.Csv.Laws.{all_ok, length-all_ok, drop-all_ok}
use xsv.Index.{Indexed, count, seek, Describes}
use xsv.Index.Laws.{seek-drop, count-length}
use xsv.Select.Resolve.{ascending}
use xsv.Select.Resolve.Shuffled.{shuffled-All, shuffled-length}
use xsv.Cmd.Sample.{next_row, seek_each, sample_random_access}
use xsv.Cmd.Sample.Reservoir.{Chosen}

abbrev pub pick : List ByteRecord → ℕ → ByteRecord
pick [] i = []
pick (r ∷ rows) zero = r
pick (r ∷ rows) (suc i) = pick rows i

drop-pick :
    (rows : List ByteRecord) (i : ℕ)
    → i < length rows
    → drop i rows ≡ pick rows i ∷ drop (suc i) rows
drop-pick [] i h = absurd (omega arith)
drop-pick (r ∷ rows) zero h = refl
drop-pick (r ∷ rows) (suc i) h = drop-pick rows i (omega arith)

pick-shift :
    (r : ByteRecord) (rows : List ByteRecord) (lo n : ℕ)
    → map (pick (r ∷ rows)) (ascending (suc lo) n) ≡ map (pick rows) (ascending lo n)
unfolding ascending
pick-shift r rows lo zero = refl
pick-shift r rows lo (suc n) = ap (◌∷◌ (pick rows lo)) (pick-shift r rows (suc lo) n)

pick-ascending : (rows : List ByteRecord) → map (pick rows) (ascending 0 (length rows)) ≡ rows
unfolding ascending
pick-ascending [] = refl
pick-ascending (r ∷ rows) = ap (◌∷◌ r) (pick-shift r rows 0 (length rows) ∙ pick-ascending rows)

module _ (idx : Indexed) (all : Rows) (rows : List ByteRecord) (d : Describes idx all)
    (reads : idx.rdr.records ≡ all_ok rows) where
  seek-pick :
      (i : ℕ) → i < length rows → seek idx i ≡ ok (ok (pick rows i) ∷ all_ok (drop (suc i) rows))
  seek-pick i h =
      let inside : leb (length idx.rdr.records) i ≡ false =
        ground (arith, reads, length-all_ok rows) in
      seek-drop idx all d i ∙ rw (inside, reads, drop-all_ok i rows, drop-pick rows i h)

  seek_each-pick :
      {S : Type 0} (is : List ℕ) (s : S)
      → All (λ i. i < length rows) is
      → seek_each idx is s ≡ (ok (map (pick rows) is), s)
  unfolding seek_each next_row
  seek_each-pick [] s h = refl
  seek_each-pick (i ∷ is) s (h, hs) = rw (seek-pick i h, seek_each-pick is s hs)

  -- Random access finds as many records as are asked for, or all there are.
  pub sample_random_access-Chosen :
      {S : Type 0} (shuffle : List ℕ → List ℕ) (size : ℕ) (s : S)
      → ((is : List ℕ) → Perm (shuffle is) is)
      → (sampled : List ByteRecord) × (sample_random_access shuffle idx size s ≡ (ok sampled, s))
        × Chosen (min size (length rows)) rows sampled
  unfolding sample_random_access
  sample_random_access-Chosen shuffle size s permutes =
      let n = length rows in
      let is = shuffle (ascending 0 n) in
      let p : Perm is (ascending 0 n) = permutes (ascending 0 n) in
      let counted : count idx ≡ n = count-length idx all d ∙ ap length reads ∙ length-all_ok rows in
      let whole : map (pick rows) (take size is) ++ map (pick rows) (drop size is)
          ≡ map (pick rows) is =
        sym (map-append (pick rows) (take size is) (drop size is))
        ∙ ap (map (pick rows)) (take-append-drop size is) in
      (
        map (pick rows) (take size is),
        rw counted
            (seek_each-pick (take size is) s (All-take (λ i. i < n) size is (shuffled-All n is p))),
        (
          length-map (pick rows) (take size is)
              ∙ length-take size is
              ∙ ap (min size) (shuffled-length n is p),
          map (pick rows) (drop size is),
          rw whole (rw (pick-ascending rows) at (Perm.map (pick rows) p)),
        ),
      )

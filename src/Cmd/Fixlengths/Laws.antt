-- ===== src/Cmd/Fixlengths/Laws.antt =====
-- The written records have one length, and only empty fields come and go.
use xsv.Prelude.{
  take_all, ℕ, zero, suc, ◌+◌, ◌-◌, ◌≡◌, ◌≤◌, refl, sym, ap, ◌∙◌, max, min, false, List, [], ◌∷◌,
  ◌++◌, append_assoc, append-nil, none, length, length-append, length-take, take, drop, leb,
  replicate, All, map, arith, Bool-cases, inl, inr,
}
use xsv.Prelude.Results.{ok}
use xsv.Error.{ByteRecord}
use xsv.Csv.{Reader, Sink, write_record, try_cli}
use xsv.Csv.Laws.{Accepts, all_ok, write_record-Accepts, flush-Accepts, bind-ok}
use xsv.Config.{is_std}
use xsv.Cmd.Fixlengths.{Args, count_fields, longest, pad, resize, write_fixed, length_of, run}
use xsv.Cmd.Fixlengths.Counted.{Empty, Holds, every_counted, counted-Holds}

pad-replicate : (n : ℕ) (r : ByteRecord) → pad n r ≡ r ++ replicate n []
unfolding pad
pad-replicate zero r = sym (append-nil r)
pad-replicate (suc n) r = pad-replicate n (r ++ [] ∷ []) ∙ append_assoc r ([] ∷ []) (replicate n [])

length-pad : (n : ℕ) (r : ByteRecord) → length (pad n r) ≡ length r + n
unfolding pad
length-pad zero r = omega arith
length-pad (suc n) r = omega (arith, length-pad n (r ++ [] ∷ []), length-append r ([] ∷ []))

length-resize : (len : ℕ) (r : ByteRecord) → length (resize len r) ≡ len
unfolding resize
length-resize len r = elim (Bool-cases (leb (length r) len)) [
  | inl short ↦ rw short (length-pad (len - length r) r ∙ filled (ground arith))
  | inr long ↦ rw long (length-take len r ∙ cut (ground arith))
]
  where
    cut : len ≤ length r → min len (length r) ≡ len
    cut h = omega arith

    filled : length r ≤ len → length r + (len - length r) ≡ len
    filled h = omega arith

resize-take :
    (len : ℕ) (r : ByteRecord) → resize len r ≡ take len r ++ replicate (len - length r) []
unfolding resize
resize-take len r = elim (Bool-cases (leb (length r) len)) [
  | inl short ↦ rw (short, take_all len r (ground arith)) (pad-replicate (len - length r) r)
  | inr long ↦ let none_left : len - length r ≡ 0 = ground arith in rw (long, none_left, append-nil)
]

-- `len` is the least length that is at least `least` and holds every record.
abbrev pub IsLongest : ℕ → List ByteRecord → ℕ → Type 0
IsLongest least rows len =
    (least ≤ len) × All (Holds len) rows × ((m : ℕ) → least ≤ m → All (Holds m) rows → len ≤ m)

abbrev IsLargest : ℕ → List ByteRecord → ℕ → Type 0
IsLargest least rows len =
    (least ≤ len)
    × All (λ r. count_fields 0 0 r ≤ len) rows
    × ((m : ℕ) → least ≤ m → All (λ r. count_fields 0 0 r ≤ m) rows → len ≤ m)

longest-IsLargest :
    (least : ℕ) (rows : List ByteRecord)
    → (len : ℕ) × (longest least (all_ok rows) ≡ ok len) × IsLargest least rows len
unfolding longest
longest-IsLargest least [] = (least, refl, (omega arith, tt, λ m h k. h))
longest-IsLargest least (r ∷ rows) =
    let (len, e, (above, all, tight)) = longest-IsLargest (max least (count_fields 0 0 r)) rows in
    (len, e, (omega arith, (omega arith, all), λ m h k. tight m (omega (arith, k.0)) k.1))

every_held :
    (len : ℕ) (rows : List ByteRecord)
    → All (λ r. count_fields 0 0 r ≤ len) rows
    → All (Holds len) rows
every_held len [] h = tt
every_held len (r ∷ rows) (h, hs) = (counted-Holds len r h, every_held len rows hs)

longest-IsLongest :
    (least : ℕ) (rows : List ByteRecord)
    → (len : ℕ) × (longest least (all_ok rows) ≡ ok len) × IsLongest least rows len
longest-IsLongest least rows =
    let (len, e, (above, all, tight)) = longest-IsLargest least rows in
    (len, e, (above, every_held len rows all, λ m h k. tight m h (every_counted m rows k)))

module _ (w : Sink) (acc : Accepts w) where
  write_fixed-Accepts :
      (len : ℕ) (rows out : List ByteRecord)
      → write_fixed w len (all_ok rows) out ≡ (ok tt, out ++ map (resize len) rows)
  unfolding write_fixed
  write_fixed-Accepts len [] out = rw append-nil
  write_fixed-Accepts len (r ∷ rows) out =
      bind-ok (write_record w (resize len r)) _ (write_record-Accepts w acc (resize len r) out)
      ∙ write_fixed-Accepts len rows (out ++ resize len r ∷ [])
      ∙ ap (λ rs. (ok tt, rs)) (append_assoc out (resize len r ∷ []) (map (resize len) rows))

  run-Accepts :
      (a : Args) (rdr : Reader) (rows out : List ByteRecord) (len : ℕ)
      → rdr.records ≡ all_ok rows
      → length_of a a.flag_length (all_ok rows) ≡ ok len
      → run a rdr w out ≡ (ok tt, out ++ map (resize len) rows)
  unfolding run
  run-Accepts a rdr rows out len e l =
      bind-ok (try_cli (length_of a a.flag_length rdr.records)) _
        (ap (λ rs. try_cli (length_of a a.flag_length rs) out) e ∙ ap (λ r. try_cli r out) l)
      ∙ bind-ok (write_fixed w len rdr.records) _
          (ap (λ rs. write_fixed w len rs out) e ∙ write_fixed-Accepts len rows out)
      ∙ flush-Accepts w acc (out ++ map (resize len) rows)

  resized :
      (len : ℕ) (rows : List ByteRecord)
      → All (Holds len) rows
      → All
          (λ r.
            (resize len r ≡ take len r ++ replicate (len - length r) [])
            × (length (resize len r) ≡ len)
            × All Empty (drop len r))
          rows
  resized len [] h = tt
  resized len (r ∷ rows) (h, hs) =
      ((resize-take len r, length-resize len r, h.1), resized len rows hs)

  -- Without `flag_length`, on a file that reads without errors and into a writer that takes every record:
  -- there is a length, the least one behind which no record has a field that is not empty, and at
  -- least 1 if a record has a field; and every record is written, in order, cut to that length and padded with
  -- empty fields; all the records written have that length, and only empty fields are cut.
  pub run-IsLongest :
      (a : Args) (rdr : Reader) (rows out : List ByteRecord)
      → a.flag_length ≡ none
      → is_std a.config ≡ false
      → rdr.records ≡ all_ok rows
      → (len : ℕ) × IsLongest 0 rows len
        × (run a rdr w out ≡ (ok tt, out ++ map (resize len) rows))
        × All
            (λ r.
              (resize len r ≡ take len r ++ replicate (len - length r) [])
              × (length (resize len r) ≡ len)
              × All Empty (drop len r))
            rows
  unfolding length_of
  run-IsLongest a rdr rows out f s e =
      let (len, l, spec) = longest-IsLongest 0 rows in
      (len, spec, run-Accepts a rdr rows out len e (rw (f, s, l)), resized len rows spec.1)

-- ===== src/Cmd/Sample/Reservoir.antt =====
-- `sample_reservoir`: every record is either in the reservoir or left out, once.
use mathlib.Core.List.{Perm, perm_middle}
use mathlib.Core.List.Perm
use native.Mathlib.Decide.{dec_le}
use xsv.Prelude.{
  drop_all, ℕ, zero, suc, ◌≡◌, ◌≤◌, ◌<◌, refl, ◌∙◌, min, inl, inr, Bool-cases, List, [], ◌∷◌, ◌++◌,
  append-nil, append_assoc, some, length, take, drop, set, get_elem?, get_elem?-lt, length-set,
  length-take, take-append-drop, ltb, arith,
}
use xsv.Prelude.Results.{ok}
use xsv.Error.{ByteRecord}
use xsv.Csv.{Reader}
use xsv.Csv.Laws.{all_ok}
use xsv.Cmd.Sample.{put, fill, replace, sample_reservoir}

-- A write trades the old entry for the new one.
set-Perm :
    (xs : List ByteRecord) (i : ℕ) (old new : ByteRecord)
    → get_elem? xs i ≡ some old
    → Perm (old ∷ set xs i new) (new ∷ xs)
set-Perm [] i old new e = absurd (ground arith)
set-Perm (x ∷ xs) zero old new e = let same : x ≡ old = cc in rw same (Perm.swap new old xs)
set-Perm (x ∷ xs) (suc i) old new e =
    Perm.trans (Perm.swap x old _)
      (Perm.trans (Perm.cons x (set-Perm xs i old new e)) (Perm.swap new x xs))

fill-all_ok :
    {S : Type 0} (n : ℕ) (reservoir rows : List ByteRecord) (s : S)
    → fill n reservoir (all_ok rows) s ≡ (ok (reservoir ++ take n rows, all_ok (drop n rows)), s)
unfolding fill
fill-all_ok zero reservoir rows s = rw append-nil
fill-all_ok (suc n) reservoir [] s = rw append-nil
fill-all_ok (suc n) reservoir (r ∷ rows) s =
    fill-all_ok n (reservoir ++ r ∷ []) rows s ∙ rw (append_assoc reservoir (r ∷ []) (take n rows))

-- What `replace` leaves in the reservoir, with the records that it leaves out.
abbrev Kept : {S : Type 0} → (ℕ → ℕ) → ℕ → ℕ → List ByteRecord → List ByteRecord → S → Type 0
Kept random size i reservoir rows s =
    (kept left_out : List ByteRecord) × (replace random size i reservoir (all_ok rows) s
      ≡ (ok kept, s))
    × (length kept ≡ length reservoir)
    × Perm (kept ++ left_out) (reservoir ++ rows)

put-set :
    (i : ℕ) (row : ByteRecord) (reservoir : List ByteRecord)
    → i < length reservoir
    → put i row reservoir ≡ some (set reservoir i row)
unfolding put
put-set i row reservoir h = ground arith

module _ {S : Type 0} (random : ℕ → ℕ) (size : ℕ) where
  replace-Kept :
      (i : ℕ) (reservoir rows : List ByteRecord) (s : S)
      → size ≤ length reservoir
      → Kept random size i reservoir rows s
  unfolding replace
  replace-Kept i reservoir [] s h = (reservoir, [], refl, refl, Perm.refl _)
  replace-Kept i reservoir (r ∷ rows) s h = elim (Bool-cases (ltb (random i) size)) [
    | inl chosen ↦
        let inside : random i < length reservoir = ground arith in
        let (old, at) = get_elem?-lt reservoir (random i) inside in
        let reservoir' = set reservoir (random i) r in
        let (kept, left_out, e, len, perm) =
          replace-Kept (suc i) reservoir' rows s (rw (length-set reservoir (random i) r) h) in
        (
          kept,
          old ∷ left_out,
          rw (chosen, put-set (random i) r reservoir inside, replace) e,
          len ∙ length-set reservoir (random i) r,
          Perm.trans (perm_middle kept left_out) (
              Perm.trans (Perm.cons old perm) (
                Perm.trans (Perm.append_right rows (set-Perm reservoir (random i) old r at))
                  (Perm.symm (perm_middle reservoir rows)))),
        )
    | inr passed ↦
        let (kept, left_out, e, len, perm) = replace-Kept (suc i) reservoir rows s h in
        (
          kept,
          r ∷ left_out,
          rw (passed, replace) e,
          len,
          Perm.trans (perm_middle kept left_out)
              (Perm.trans (Perm.cons r perm) (Perm.symm (perm_middle reservoir rows))),
        )
  ]

-- `sampled` are `n` of the records, each no more often than it stands there.
abbrev pub Chosen : ℕ → List ByteRecord → List ByteRecord → Type 0
Chosen n rows sampled =
    (length sampled ≡ n) × (left_out : List ByteRecord) × Perm (sampled ++ left_out) rows

module _ {S : Type 0} (random capacity : ℕ → ℕ) (size : ℕ) where
  module _ (rows : List ByteRecord) (s : S) (enough : size ≤ capacity size) where
    after_fill :
        Kept random size
          (length (take (capacity size) rows))
          (take (capacity size) rows)
          (drop (capacity size) rows)
          s
    unfolding replace
    after_fill = elim (dec_le (capacity size) (length rows)) [
      | yes long ↦
          replace-Kept random size _ _ (drop (capacity size) rows) s
            (omega (arith, length-take (capacity size) rows))
      | no short ↦ (
        take (capacity size) rows,
        [],
        rw (drop_all (capacity size) rows (omega arith)),
        refl,
        rw (drop_all (capacity size) rows (omega arith)) (Perm.refl _),
      )
    ]

    -- The reservoir ends with as many records as its capacity, or with all there are.
    pub sample_reservoir-Chosen :
        (rdr : Reader)
        → rdr.records ≡ all_ok rows
        → (sampled : List ByteRecord) × (sample_reservoir random capacity size rdr s
            ≡ (ok sampled, s))
          × Chosen (min (capacity size) (length rows)) rows sampled
    unfolding sample_reservoir
    sample_reservoir-Chosen rdr e =
        let (sampled, left_out, ran, len, perm) = after_fill in
        (
          sampled,
          rw (e, fill-all_ok (capacity size) [] rows s) ran,
          (
            len ∙ length-take (capacity size) rows,
            left_out,
            rw (take-append-drop (capacity size) rows) at perm,
          ),
        )

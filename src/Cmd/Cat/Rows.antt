-- ===== src/Cmd/Cat/Rows.antt =====
-- One input below the other.
use xsv.Prelude.{
  ℕ, suc, ◌≡◌, ap, ◌∙◌, Bool, false, List, [], ◌∷◌, ◌++◌, append_assoc, append-nil, map, ◌==◌,
  arith,
}
use xsv.Prelude.Results.{ok}
use xsv.Error.{ByteRecord}
use xsv.Csv.{Reader, Sink, write_rows}
use xsv.Csv.Laws.{Accepts, all_ok, write_rows-Accepts, flush-Accepts, bind-ok}
use xsv.Config.{write_headers}
use xsv.Cmd.Cat.{rows_from, cat_rows}

-- An input whose records all read without an error.
abbrev pub readable : Reader × List ByteRecord → Reader
readable i = record (i.0) { records = all_ok i.1 }

abbrev pub concat_rows : List (Reader × List ByteRecord) → List ByteRecord
concat_rows [] = []
concat_rows (i ∷ is) = i.1 ++ concat_rows is

module _ (no_headers : Bool) (w : Sink) (acc : Accepts w) where
  rows_from-later :
      (i : ℕ) (is : List (Reader × List ByteRecord)) (out : List ByteRecord)
      → rows_from no_headers w (suc i) (map readable is) out ≡ (ok tt, out ++ concat_rows is)
  unfolding rows_from
  rows_from-later i [] out = rw append-nil
  rows_from-later i (x ∷ is) out =
      let later : (suc i == 0) ≡ false = ground arith in
      rw later (
        bind-ok (write_rows w (all_ok x.1)) _ (write_rows-Accepts w acc x.1 out)
        ∙ rows_from-later (suc i) is (out ++ x.1)
        ∙ ap (λ rs. (ok tt, rs)) (append_assoc out x.1 (concat_rows is)))

  rows_from-first :
      (x : Reader × List ByteRecord) (is : List (Reader × List ByteRecord))
      (out heads : List ByteRecord)
      → write_headers no_headers (readable x) w out ≡ (ok tt, out ++ heads)
      → rows_from no_headers w 0 (map readable (x ∷ is)) out
        ≡ (ok tt, (out ++ heads) ++ concat_rows (x ∷ is))
  unfolding rows_from
  rows_from-first x is out heads h =
      bind-ok (write_headers no_headers (readable x) w) _ h
      ∙ bind-ok (write_rows w (all_ok x.1)) _ (write_rows-Accepts w acc x.1 (out ++ heads))
      ∙ rows_from-later 0 is ((out ++ heads) ++ x.1)
      ∙ ap (λ rs. (ok tt, rs)) (append_assoc (out ++ heads) x.1 (concat_rows is))

  -- On inputs that read without errors, and into a writer that takes every record, `cat rows` writes
  -- the headers of the first input alone, and then the records of all the inputs in order.
  pub cat_rows-concat_rows :
      (x : Reader × List ByteRecord) (is : List (Reader × List ByteRecord))
      (out heads : List ByteRecord)
      → write_headers no_headers (readable x) w out ≡ (ok tt, out ++ heads)
      → cat_rows no_headers w (map readable (x ∷ is)) out
        ≡ (ok tt, (out ++ heads) ++ concat_rows (x ∷ is))
  unfolding cat_rows
  cat_rows-concat_rows x is out heads h =
      bind-ok (rows_from no_headers w 0 (map readable (x ∷ is))) _
        (rows_from-first x is out heads h)
      ∙ flush-Accepts w acc ((out ++ heads) ++ concat_rows (x ∷ is))

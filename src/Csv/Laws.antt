-- ===== src/Csv/Laws.antt =====
-- Running a command on data that reads without an error, into a writer that takes every record.
use mathlib.Core.List.{append_assoc}
use xsv.Prelude.{
  ℕ, zero, suc, ◌≡◌, refl, ◌∙◌, List, [], ◌∷◌, ◌++◌, append-nil, map, length, take, drop, none, ap,
}
use xsv.Prelude.Results.{ok, err}
use xsv.Error.{ByteRecord}
use xsv.Csv.{Rows, Run, Stop, after, ◌>>=◌, Sink, write_record, flush, write_rows}

-- The writer takes every record, and its flush succeeds.
pub record Accepts (w : Sink) : Type 0 where
  pub takes : (out : List ByteRecord) (r : ByteRecord) → w.refuses out r ≡ none
  pub flushes : (out : List ByteRecord) → w.flush_fails out ≡ none

abbrev pub all_ok : List ByteRecord → Rows
all_ok = map ok

pub take-all_ok : (n : ℕ) (rows : List ByteRecord) → take n (all_ok rows) ≡ all_ok (take n rows)
take-all_ok zero rows = refl
take-all_ok (suc n) [] = refl
take-all_ok (suc n) (r ∷ rows) = ap (◌∷◌ (ok r)) (take-all_ok n rows)

pub drop-all_ok : (n : ℕ) (rows : List ByteRecord) → drop n (all_ok rows) ≡ all_ok (drop n rows)
drop-all_ok zero rows = refl
drop-all_ok (suc n) [] = refl
drop-all_ok (suc n) (r ∷ rows) = drop-all_ok n rows

-- A step of a command that ends with a value.
pub bind-ok :
    {S A B : Type 0} (m : Run S A) (f : A → Run S B) {s s' : S} {a : A}
    → m s ≡ (ok a, s')
    → (m >>= f) s ≡ f a s'
bind-ok m f e = ap (λ r. after r f (λ e s. (err e, s))) e

-- A step of a command that stops it.
pub bind-err :
    {S A B : Type 0} (m : Run S A) (f : A → Run S B) {s s' : S} {e : Stop}
    → m s ≡ (err e, s')
    → (m >>= f) s ≡ (err e, s')
bind-err m f e = ap (λ r. after r f (λ x s. (err x, s))) e

module _ (w : Sink) (a : Accepts w) where
  pub write_record-Accepts :
      (r : ByteRecord) (out : List ByteRecord) → write_record w r out ≡ (ok tt, out ++ r ∷ [])
  unfolding write_record
  write_record-Accepts r out = rw (a.takes out r)

  pub flush-Accepts : (out : List ByteRecord) → flush w out ≡ (ok tt, out)
  unfolding flush
  flush-Accepts out = rw (a.flushes out)

  pub write_rows-Accepts :
      (rows out : List ByteRecord) → write_rows w (all_ok rows) out ≡ (ok tt, out ++ rows)
  unfolding write_rows
  write_rows-Accepts [] out = rw append-nil
  write_rows-Accepts (r ∷ rows) out = rw (write_record-Accepts r out) (
      write_rows-Accepts rows (out ++ r ∷ [])
      ∙ ap (λ o. (ok tt, o)) (append_assoc out (r ∷ []) rows))

abbrev pub open_sink : Sink
open_sink = record { refuses = λ out r. none; flush_fails = λ out. none }

pub open_sink-Accepts : Accepts open_sink
open_sink-Accepts = record { takes = λ out r. refl; flushes = λ out. refl }

pub length-all_ok : (rows : List ByteRecord) → length (all_ok rows) ≡ length rows
length-all_ok [] = refl
length-all_ok (r ∷ rows) = ap suc (length-all_ok rows)

-- ===== src/Csv/Plain.antt =====
-- Output that is not CSV: bytes written to standard output, or to a `TabWriter` in front of it. What
-- such a writer refuses is data, as for the writers of records.
use xsv.Prelude.{◌≡◌, refl, ap, ◌∙◌, [], ◌++◌, append-nil, append_assoc, Option, none, some}
use xsv.Prelude.Results.{Result, ok, err}
use xsv.Error.{Bytes, IoError, io}
use xsv.Csv.{Stop, failed, Run, pure, ◌>>◌}

pub record Plain : Type 0 where
  pub refuses : Bytes → Bytes → Option IoError
  pub flush_fails : Bytes → Option IoError

-- `?` on a result of the io crate.
abbrev pub try_io : {S A : Type 0} → Result IoError A → Run S A
try_io (ok a) s = (ok a, s)
try_io (err e) s = (err (failed (io e)), s)

ended : Bytes → Bytes → Option IoError → Result Stop (Unit {0}) × Bytes
ended out more none = (ok tt, out ++ more)
ended out more (some e) = (err (failed (io e)), out)

-- `w.write_all(bytes)?`.
unfoldable pub write_all : Plain → Bytes → Run Bytes (Unit {0})
unfolding ended
write_all w bytes out = ended out bytes (w.refuses out bytes)

-- `w.flush()?`.
unfoldable pub flush_all : Plain → Run Bytes (Unit {0})
unfolding ended
flush_all w out = ended out [] (w.flush_fails out)

-- A writer that takes everything.
pub record Takes (w : Plain) : Type 0 where
  pub takes : (out bytes : Bytes) → w.refuses out bytes ≡ none
  pub flushes : (out : Bytes) → w.flush_fails out ≡ none

module _ (w : Plain) (t : Takes w) where
  pub write_all-Takes : (bytes out : Bytes) → write_all w bytes out ≡ (ok tt, out ++ bytes)
  unfolding write_all
  write_all-Takes bytes out = rw (t.takes out bytes)

  pub flush_all-Takes : (out : Bytes) → flush_all w out ≡ (ok tt, out)
  unfolding flush_all
  flush_all-Takes out = rw (t.flushes out, append-nil)

-- A step that succeeds and adds these bytes to the output.
abbrev pub Prints : Run Bytes (Unit {0}) → Bytes → Type 0
Prints m bytes = (out : Bytes) → m out ≡ (ok tt, out ++ bytes)

pub Prints-nothing : Prints (pure tt) []
Prints-nothing out = rw (append-nil out) refl

pub Prints-then :
    (m k : Run Bytes (Unit {0})) {x y : Bytes} → Prints m x → Prints k y → Prints (m >> k) (x ++ y)
Prints-then m k {x} {y} hm hk out =
    rw (hm out) (hk (out ++ x) ∙ ap (λ o. (ok tt, o)) (append_assoc out x y))

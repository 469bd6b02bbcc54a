-- ===== src/Csv.antt =====
-- What the commands see of the csv and csv-index crates, which are not part of the repository: what
-- a reader answers and what a writer refuses are data, given to the definitions that use them.
-- Also a command's effects: it changes a state (for most commands the records written so far) and
-- ends with a result, with an error, or in a panic.
pub mod Laws
pub mod Plain
use xsv.Prelude.{ℕ, Bool, List, [], ◌∷◌, ◌++◌, Option, none, some}
use xsv.Prelude.Results.{Result, ok, err}
use xsv.Error.{ByteRecord, CsvError, IoError, CliError, CliResult, io, other, from_csv, Message}

-- The items of an iterator over records.
abbrev pub Rows : Type 0
Rows = List (Result CsvError ByteRecord)

-- A reader: whether it takes the first record for headers, what `byte_headers` returns, and what
-- `byte_records` (or repeated `read_byte_record`) yields from the start up to the end of the data.
pub record Reader : Type 0 where
  pub has_headers : Bool
  pub headers : Result CsvError ByteRecord
  pub records : Rows

-- A writer: the error, if any, of writing a record behind those already written, and of the flush.
pub record Sink : Type 0 where
  pub refuses : List ByteRecord → ByteRecord → Option CsvError
  pub flush_fails : List ByteRecord → Option IoError

pub data Stop : Type 0 where
  failed : CliError → Stop
  panicked : Stop

abbrev pub Run : Type 0 → Type 0 → Type 0
Run S A = S → Result Stop A × S

abbrev pub after {ℓ} :
    {S A : Type 0} {B : Type ℓ} → Result Stop A × S → (A → S → B) → (Stop → S → B) → B
after (ok a, s) f g = f a s
after (err e, s) f g = g e s

infixl 5 ◌>>=◌ ◌>>◌
abbrev pub ◌>>=◌ : {S A B : Type 0} → Run S A → (A → Run S B) → Run S B
◌>>=◌ m f s = after (m s) f (λ e s'. (err e, s'))

abbrev pub ◌>>◌ : {S B : Type 0} → Run S (Unit {0}) → Run S B → Run S B
m >> k = m >>= λ _. k

abbrev pub pure : {S A : Type 0} → A → Run S A
pure a s = (ok a, s)

-- `?` on a result.
abbrev pub try_cli : {S A : Type 0} → CliResult A → Run S A
try_cli (ok a) s = (ok a, s)
try_cli (err e) s = (err (failed e), s)

abbrev pub try_csv : {S A : Type 0} → Result CsvError A → Run S A
try_csv (ok a) s = (ok a, s)
try_csv (err e) s = (err (failed (from_csv e)), s)

abbrev pub try_text : {S A : Type 0} → Result Message A → Run S A
try_text (ok a) s = (ok a, s)
try_text (err m) s = (err (failed (other m)), s)

-- A value that the source takes out of an option, panicking where there is none.
abbrev pub unwrap : {S A : Type 0} → Option A → Run S A
unwrap (some a) s = (ok a, s)
unwrap none s = (err panicked, s)

abbrev pub Output : Type 0 → Type 0
Output = Run (List ByteRecord)

accepted : List ByteRecord → ByteRecord → Option CsvError → Result Stop (Unit {0}) × List ByteRecord
accepted out r none = (ok tt, out ++ r ∷ [])
accepted out r (some e) = (err (failed (from_csv e)), out)

-- `wtr.write_record(r)?`.
unfoldable pub write_record : Sink → ByteRecord → Output (Unit {0})
unfolding accepted
write_record w r out = accepted out r (w.refuses out r)

flushed : List ByteRecord → Option IoError → Result Stop (Unit {0}) × List ByteRecord
flushed out none = (ok tt, out)
flushed out (some e) = (err (failed (io e)), out)

-- `wtr.flush()?`.
unfoldable pub flush : Sink → Output (Unit {0})
unfolding flushed
flush w out = flushed out (w.flush_fails out)

-- `for r in rows { wtr.write_byte_record(&r?)?; }`.
unfoldable pub write_rows : Sink → Rows → Output (Unit {0})
write_rows w [] = pure tt
write_rows w (r ∷ rs) = do row ← try_csv r; write_record w row; write_rows w rs

-- ===== src/Cmd/Flatten.antt =====
-- src/cmd/flatten.rs: every field on a line of its own, behind the name of its column.
pub mod Laws
use xsv.Prelude.{ℕ, ◌+◌, Bool, true, false, not, ◌&&◌, List, [], ◌∷◌, ◌++◌, Option, if◌then◌else◌}
use xsv.Prelude.Bytes.{as_bytes, is_empty}
use xsv.Error.{Bytes, Text, ByteRecord}
use xsv.Csv.{Rows, Run, ◌>>=◌, ◌>>◌, pure, try_csv}
use xsv.Csv.Plain.{Plain, try_io, write_all, flush_all}
use xsv.Config.{Config}
use xsv.Config.Files.{Platform, reader}
use xsv.Select.Syntax.{decimal}
use xsv.Unicode.{Unicode}
use xsv.Util.Condense.{condense}

-- The configuration stands for the flags that it is made of.
pub record Args : Type 0 where
  pub rconfig : Config
  pub flag_condense : Option ℕ
  pub flag_separator : Text

-- `w` is the `TabWriter`.
module _ (u : Unicode) (w : Plain) where
  -- The loop over the fields of a record, from column `i` on, as far as there are both headers and
  -- fields.
  unfoldable pub write_fields : Args → ℕ → ByteRecord → ByteRecord → Run Bytes (Unit {0})
  write_fields a i [] fields = pure tt
  write_fields a i (header ∷ headers) [] = pure tt
  write_fields a i (header ∷ headers) (field ∷ fields) = do
    write_all w (if a.rconfig.no_headers then decimal i else header)
    write_all w (b'\t' ∷ [])
    write_all w (condense u field a.flag_condense)
    write_all w (b'\n' ∷ [])
    write_fields a (i + 1) headers fields

  unfoldable pub write_records : Args → ByteRecord → Bool → Rows → Run Bytes (Unit {0})
  write_records a headers first [] = pure tt
  write_records a headers first (r ∷ rows) = do
    if not first && not (is_empty a.flag_separator)
        then write_all w (as_bytes a.flag_separator ++ b'\n' ∷ [])
        else pure tt
    fields ← try_csv r
    write_fields a 0 headers fields
    write_records a headers false rows

  unfoldable pub run : Platform → Args → Run Bytes (Unit {0})
  run p a = do
    rdr ← try_io (reader p a.rconfig)
    headers ← try_csv rdr.headers
    write_records a headers true rdr.records
    flush_all w

-- ===== src/Cmd/Headers.antt =====
-- src/cmd/headers.rs: the names of the columns of one or more inputs.
pub mod Laws
use xsv.Prelude.{
  ℕ, ◌+◌, Bool, true, false, not, ◌||◌, ◌&&◌, List, [], ◌∷◌, ◌++◌, Option, length, ◌==◌,
  if◌then◌else◌,
}
use xsv.Prelude.Bytes.{bytes_eq}
use xsv.Prelude.Results.{Result}
use xsv.Error.{Bytes, Text, ByteRecord}
use xsv.Csv.{Run, ◌>>=◌, ◌>>◌, pure, try_csv, try_text}
use xsv.Csv.Plain.{Plain, try_io, write_all, flush_all}
use xsv.Config.{Config}
use xsv.Config.Files.{Platform, reader}
use xsv.Select.Syntax.{decimal}
use xsv.Util.Inputs.{many_configs}

pub record Args : Type 0 where
  pub arg_input : List Text
  pub flag_just_names : Bool
  pub flag_intersect : Bool
  pub flag_delimiter : Option ℕ

-- `headers.iter().any(|h| h == header)`.
unfoldable pub listed : Bytes → List Bytes → Bool
listed header [] = false
listed header (h ∷ headers) = if bytes_eq h header then true else listed header headers

-- The loop over the fields of one header record.
unfoldable pub push_headers : Bool → List Bytes → ByteRecord → List Bytes
push_headers intersect headers [] = headers
push_headers intersect headers (header ∷ fields) =
    push_headers intersect
      (if not intersect || not (listed header headers) then headers ++ header ∷ [] else headers)
      fields

unfoldable pub push_inputs :
    {S : Type 0} → Platform → Bool → List Bytes → List Config → Run S (List Bytes)
push_inputs p intersect headers [] = pure headers
push_inputs p intersect headers (conf ∷ configs) = do
  rdr ← try_io (reader p conf)
  fields ← try_csv rdr.headers
  push_inputs p intersect (push_headers intersect headers fields) configs

-- The loop that prints, from header `i` on.
unfoldable pub print_headers : Plain → Bool → ℕ → List Bytes → Run Bytes (Unit {0})
print_headers w numbered i [] = pure tt
print_headers w numbered i (header ∷ headers) = do
  if numbered then write_all w (decimal (i + 1) ++ b'\t' ∷ []) else pure tt
  write_all w header
  write_all w (b'\n' ∷ [])
  print_headers w numbered (i + 1) headers

-- `plain` is standard output, `tabbed` a `TabWriter` in front of it.
unfoldable pub run : (Text → Bool) → Bool → Platform → Plain → Plain → Args → Run Bytes (Unit {0})
run is_tsv toggle p plain tabbed a = do
  configs ← try_text (many_configs is_tsv toggle a.arg_input a.flag_delimiter true)
  headers ← push_inputs p a.flag_intersect [] configs
  print_headers (if a.flag_just_names then plain else tabbed)
      (length configs == 1 && not a.flag_just_names) 0 headers
  flush_all (if a.flag_just_names then plain else tabbed)

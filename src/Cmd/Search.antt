-- ===== src/Cmd/Search.antt =====
-- src/cmd/search.rs: the records in which a selected field matches. `is_match` is the regular
-- expression, which the regex crate builds and matches.
pub mod Laws
use xsv.Prelude.{
  ℕ, Bool, true, false, not, List, [], ◌∷◌, Option, none, some, get_elem?, if◌then◌else◌,
}
use xsv.Prelude.Results.{ok, err}
use xsv.Error.{Bytes, ByteRecord}
use xsv.Csv.{
  Rows, Reader, Sink, Output, ◌>>=◌, ◌>>◌, pure, try_csv, try_text, unwrap, write_record, flush,
}
use xsv.Config.{Config, config_selection}

pub record Args : Type 0 where
  pub rconfig : Config
  pub flag_invert_match : Bool

module _ (is_match : Bytes → Bool) where
  -- `sel.select(&record).any(..)`, which stops at the first match; selecting a field that the record
  -- does not have panics.
  unfoldable pub any_match : List ℕ → ByteRecord → Option Bool
  any_match [] r = some false
  any_match (i ∷ is) r = elim (get_elem? r i) [
    | none ↦ none
    | some f ↦ elim (is_match f) [ true ↦ some true | false ↦ any_match is r ]
  ]

  unfoldable pub search_rows : Bool → Sink → List ℕ → Rows → Output (Unit {0})
  search_rows invert w sel [] = pure tt
  search_rows invert w sel (row ∷ rows) = do
    r ← try_csv row
    m ← unwrap (any_match sel r)
    if (if invert then not m else m) then write_record w r else pure tt
    search_rows invert w sel rows

  unfoldable pub run : Args → Reader → Sink → Output (Unit {0})
  run a rdr w = do
    headers ← try_csv rdr.headers
    sel ← try_text (config_selection a.rconfig headers)
    if not a.rconfig.no_headers then write_record w headers else pure tt
    search_rows a.flag_invert_match w sel rdr.records
    flush w

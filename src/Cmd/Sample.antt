-- ===== src/Cmd/Sample.antt =====
-- src/cmd/sample.rs: a random choice of the records. The random numbers are parameters: the number
-- drawn at each record, and how the indices are shuffled; also the capacity that a vector gets when
-- it asks for one.
pub mod Access
pub mod Laws
pub mod Reservoir
use xsv.Prelude.{
  ℕ, zero, suc, ◌+◌, ◌/◌, Bool, List, [], ◌∷◌, ◌++◌, Option, none, some, length, take, set, ltb,
  leb, if◌then◌else◌,
}
use xsv.Error.{ByteRecord}
use xsv.Csv.{
  Rows, Reader, Sink, Run, Output, ◌>>=◌, ◌>>◌, pure, try_csv, try_cli, unwrap, write_record, flush,
}
use xsv.Config.{Config, write_headers}
use xsv.Index.{Indexed, count, seek}
use xsv.Select.Resolve.{ascending}

pub record Args : Type 0 where
  pub rconfig : Config
  pub arg_sample_size : ℕ

-- `reservoir[random] = row`, a panic out of range.
unfoldable pub put : ℕ → ByteRecord → List ByteRecord → Option (List ByteRecord)
put i row reservoir = if ltb i (length reservoir) then some (set reservoir i row) else none

-- The first loop, with the records that it leaves.
unfoldable pub fill : {S : Type 0} → ℕ → List ByteRecord → Rows → Run S (List ByteRecord × Rows)
fill zero reservoir rows = pure (reservoir, rows)
fill (suc n) reservoir [] = pure (reservoir, [])
fill (suc n) reservoir (r ∷ rows) = do row ← try_csv r; fill n (reservoir ++ row ∷ []) rows

-- The second loop, from record `i` on. A record that is not chosen is not looked at, so an error in
-- it does not show.
unfoldable pub replace :
    {S : Type 0} → (ℕ → ℕ) → ℕ → ℕ → List ByteRecord → Rows → Run S (List ByteRecord)
replace random size i reservoir [] = pure reservoir
replace random size i reservoir (r ∷ rows) = do
  reservoir' ←
      (if ltb (random i) size
        then (do row ← try_csv r; unwrap (put (random i) row reservoir))
        else pure reservoir)
  replace random size (suc i) reservoir' rows

unfoldable pub sample_reservoir :
    {S : Type 0} → (ℕ → ℕ) → (ℕ → ℕ) → ℕ → Reader → Run S (List ByteRecord)
sample_reservoir random capacity size rdr = do
  (reservoir, rest) ← fill (capacity size) [] rdr.records
  replace random size (length reservoir) reservoir rest

unfoldable pub next_row : {A : Type 0} → List A → Option A
next_row [] = none
next_row (r ∷ rows) = some r

unfoldable pub seek_each : {S : Type 0} → Indexed → List ℕ → Run S (List ByteRecord)
seek_each idx [] = pure []
seek_each idx (i ∷ is) = do
  rows ← try_cli (seek idx i)
  first ← unwrap (next_row rows)
  row ← try_csv first
  sampled ← seek_each idx is
  pure (row ∷ sampled)

unfoldable pub sample_random_access :
    {S : Type 0} → (List ℕ → List ℕ) → Indexed → ℕ → Run S (List ByteRecord)
sample_random_access shuffle idx size =
    seek_each idx (take size (shuffle (ascending 0 (count idx))))

unfoldable pub do_random_access : ℕ → ℕ → Bool
do_random_access size total = leb size (total / 10)

unfoldable pub write_sampled : Sink → List ByteRecord → Output (Unit {0})
write_sampled w [] = pure tt
write_sampled w (row ∷ sampled) = do write_record w row; write_sampled w sampled

module _ (random : ℕ → ℕ) (capacity : ℕ → ℕ) (shuffle : List ℕ → List ℕ) where
  unfoldable pub from_reader : Args → Reader → Sink → Output (List ByteRecord)
  from_reader a rdr w = do
    write_headers a.rconfig.no_headers rdr w
    sample_reservoir random capacity a.arg_sample_size rdr

  -- The match on the index, if there is one, of the input.
  unfoldable pub sampled : Args → Reader → Option Indexed → Sink → Output (List ByteRecord)
  sampled a rdr none w = from_reader a rdr w
  sampled a rdr (some idx) w =
      if do_random_access a.arg_sample_size (count idx)
      then (do
        write_headers a.rconfig.no_headers idx.rdr w
        sample_random_access shuffle idx a.arg_sample_size)
      else from_reader a rdr w

  unfoldable pub run : Args → Reader → Option Indexed → Sink → Output (Unit {0})
  run a rdr idx w = do rows ← sampled a rdr idx w; write_sampled w rows; flush w

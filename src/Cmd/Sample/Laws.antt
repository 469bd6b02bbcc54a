-- ===== src/Cmd/Sample/Laws.antt =====
-- What `sample` writes, whichever way it reads its input.
use mathlib.Core.List.{Perm}
use xsv.Prelude.{
  ℕ, ◌≡◌, ◌≤◌, ap, ◌∙◌, min, inl, inr, Bool-cases, List, [], ◌∷◌, ◌++◌, append-nil, append_assoc,
  Option, none, some, length, arith,
}
use xsv.Prelude.Results.{ok}
use xsv.Error.{ByteRecord}
use xsv.Csv.{Rows, Reader, Sink, Output}
use xsv.Csv.Laws.{Accepts, all_ok, write_record-Accepts, flush-Accepts}
use xsv.Config.{write_headers}
use xsv.Index.{IndexOf, Indexed, count}
use xsv.Cmd.Sample.{Args, write_sampled, do_random_access, sampled, from_reader, run}
use xsv.Cmd.Sample.Access.{sample_random_access-Chosen}
use xsv.Cmd.Sample.Reservoir.{Chosen, sample_reservoir-Chosen}

write_sampled-Accepts :
    (w : Sink) (acc : Accepts w) (records out : List ByteRecord)
    → write_sampled w records out ≡ (ok tt, out ++ records)
unfolding write_sampled
write_sampled-Accepts w acc [] out = rw append-nil
write_sampled-Accepts w acc (r ∷ records) out = rw (write_record-Accepts w acc r out) (
    write_sampled-Accepts w acc records (out ++ r ∷ [])
    ∙ ap (λ o. (ok tt, o)) (append_assoc out (r ∷ []) records))

module _ (random capacity : ℕ → ℕ) (shuffle : List ℕ → List ℕ) where
  module _ (a : Args) (rdr : Reader) (w : Sink) (headers rows out : List ByteRecord)
      (enough : a.arg_sample_size ≤ capacity a.arg_sample_size) (reads : rdr.records ≡ all_ok rows)
      (h : write_headers a.rconfig.no_headers rdr w out ≡ (ok tt, out ++ headers)) where
    -- A run that writes the headers and chooses records: as many as are asked for or all there are,
    -- and no more than a reservoir holds.
    abbrev Samples : Output (List ByteRecord) → Type 0
    Samples m =
        (n : ℕ) × (records : List ByteRecord) × (min a.arg_sample_size (length rows) ≤ n)
        × (n ≤ min (capacity a.arg_sample_size) (length rows))
        × (m out ≡ (ok records, out ++ headers))
        × Chosen n rows records

    from_reader-Samples : Samples (from_reader random capacity shuffle a rdr w)
    unfolding from_reader
    from_reader-Samples =
        let (records, ran, chosen) =
          sample_reservoir-Chosen random capacity a.arg_sample_size rows (out ++ headers) enough rdr
            reads in
        (_, records, omega arith, omega arith, rw h ran, chosen)

    sampled-Samples :
        (idx : Option Indexed) (all : Rows)
        → IndexOf rdr all idx
        → ((is : List ℕ) → Perm (shuffle is) is)
        → Samples (sampled random capacity shuffle a rdr idx w)
    unfolding sampled
    sampled-Samples none all d permutes = from_reader-Samples
    sampled-Samples (some idx) all (d, same) permutes =
        elim (Bool-cases (do_random_access a.arg_sample_size (count idx))) [
          | inl jumps ↦
              let headers_read : write_headers a.rconfig.no_headers idx.rdr w out
                  ≡ (ok tt, out ++ headers) =
                ap (λ r. write_headers a.rconfig.no_headers r w out) same ∙ h in
              let (records, ran, chosen) =
                sample_random_access-Chosen idx all rows d (ap (λ r. r.records) same ∙ reads)
                  shuffle a.arg_sample_size (out ++ headers) permutes in
              (_, records, omega arith, omega arith, rw (jumps, headers_read) ran, chosen)
          | inr reads_all ↦ rw reads_all from_reader-Samples
        ]

  -- From a reader without errors and into a writer that takes every record, `sample` writes the
  -- headers (as `write_headers` does) and then records of the data, each no more often than the data
  -- holds it: at least the number asked for, or all there are, and no more than the capacity that
  -- the reservoir gets, so exactly the number asked for where that capacity is what was asked for.
  -- This holds with an index of the data and without, for all random numbers and every shuffle that
  -- keeps its elements, and for a reservoir whose capacity is at least what was asked for.
  pub run-Chosen :
      (a : Args) (rdr : Reader) (idx : Option Indexed) (w : Sink)
      (headers rows out : List ByteRecord) (all : Rows)
      → Accepts w
      → a.arg_sample_size ≤ capacity a.arg_sample_size
      → ((is : List ℕ) → Perm (shuffle is) is)
      → rdr.records ≡ all_ok rows
      → IndexOf rdr all idx
      → write_headers a.rconfig.no_headers rdr w out ≡ (ok tt, out ++ headers)
      → (n : ℕ) × (records : List ByteRecord) × (min a.arg_sample_size (length rows) ≤ n)
        × (n ≤ min (capacity a.arg_sample_size) (length rows))
        × (run random capacity shuffle a rdr idx w out ≡ (ok tt, (out ++ headers) ++ records))
        × Chosen n rows records
  unfolding run
  run-Chosen a rdr idx w headers rows out all acc enough permutes reads d h =
      let (n, records, few, most, ran, chosen) =
        sampled-Samples a rdr w headers rows out enough reads h idx all d permutes in
      (
        n,
        records,
        few,
        most,
        rw (ran, write_sampled-Accepts w acc records (out ++ headers))
            (flush-Accepts w acc ((out ++ headers) ++ records)),
        chosen,
      )

-- ===== src/Cmd/Partition/Row.antt =====
-- One record goes to its file, or starts a new one.
use xsv.Prelude.{
  ℕ, ◌+◌, ◌*◌, ◌≡◌, ◌≤◌, ◌<◌, refl, sym, ap, ◌∙◌, not, Bool, true, false, List, [], ◌∷◌, ◌++◌,
  append-nil, Option, none, some, Option-cases, inl, inr, length, length-append, if◌then◌else◌,
  arith,
}
use xsv.Prelude.Dict.{nat_eq, list_eq, lookup, insert, mem, mem-append, IsDistinct-append}
use xsv.Prelude.Results.{ok}
use xsv.Error.{Text, IoError, Bytes, ByteRecord}
use xsv.Csv.{Sink, pure, write_record}
use xsv.Csv.Laws.{Accepts, write_record-Accepts}
use xsv.Select.Number.{usize_mod}
use xsv.Util.{FilenameTemplate, filename}
use xsv.Cmd.Partition.Names.{WriterGenerator, unique_value, take_name}
use xsv.Cmd.Partition.Names.Fresh.{unique_value-Names}
use xsv.Cmd.Partition.{OutFile, State, named, opened, new_writer, writer_for, store, partition_row}
use xsv.Cmd.Partition.Contents.{
  with_key, written_in, uniques, IsPartition, heads_of, uniques-insert_old, uniques-insert_new,
  names-insert, contents-insert, with_key_none, content-some, content-none, lookup-name, small,
  step, with_row,
}

module _ (safe : Bytes → Text) (create : Text → Option IoError)
    (opens : (name : Text) → create name ≡ none) (w : Sink) (acc : Accepts w) (no_headers : Bool)
    (headers : ByteRecord) where
  abbrev heads : List ByteRecord
  heads = heads_of no_headers headers

  write_first :
      (b : Bool) (out : List ByteRecord)
      → (if b then write_record w headers else pure tt) out
        ≡ (ok tt, out ++ (if b then headers ∷ [] else []))
  write_first true out = write_record-Accepts w acc headers out
  write_first false out = ap (λ rs. (ok tt, rs)) (sym (append-nil out))

  partition_row-store :
      (key : Bytes) (r : ByteRecord) (s s' : State) (f : OutFile)
      → writer_for safe create w no_headers headers key (lookup key s.writers) s ≡ (ok f, s')
      → partition_row safe create w no_headers headers key r s
        ≡ (ok tt, record s' { writers = insert key (with_row f r) s'.writers })
  unfolding partition_row store
  partition_row-store key r s s' f e = rw (e, write_record-Accepts w acc r f.written)

  new_file :
      (key : Bytes) (s : State) (u : Text) (counter : ℕ)
      → unique_value safe key s.gen ≡ some (take_name u counter s.gen)
      → writer_for safe create w no_headers headers key none s ≡ (
        ok (record { unique = u; name = filename s.gen.template u; written = heads }),
        record s { gen = record (s.gen) { counter = counter; used = u ∷ s.gen.used } },
      )
  unfolding writer_for new_writer named opened
  new_file key s u counter e =
      rw (e, opens (filename s.gen.template u), write_first (not no_headers) [])

  module _ (t : FilenameTemplate) (rows : List (Bytes × ByteRecord)) (key : Bytes) (r : ByteRecord)
      (s : State) (p : IsPartition heads t rows s) where
    old_key :
        (f : OutFile)
        → lookup key s.writers ≡ some f
        → (s' : State) × (partition_row safe create w no_headers headers key r s ≡ (ok tt, s'))
          × IsPartition heads t (rows ++ (key, r) ∷ []) s'
    old_key f found = (
      record s { writers = insert key (with_row f r) s.writers },
      partition_row-store key r s s f (rw found (unfold writer_for in refl)),
      record {
        contents = contents-insert heads rows key r f s.writers held p.contents;
        distinct = rw same p.distinct;
        names =
            names-insert t key (with_row f r) s.writers
              (lookup-name t key f s.writers p.names found) p.names;
        template = p.template;
        in_use = rw same p.in_use;
        few = omega (arith, p.few, length-append rows ((key, r) ∷ []));
        counted = p.counted;
      },
    )
      where
        same : uniques (insert key (with_row f r) s.writers) ≡ uniques s.writers
        same = uniques-insert_old key f (with_row f r) s.writers found refl

        held : f.written ≡ heads ++ with_key key rows
        held = content-some heads rows key f.written (sym (p.contents key) ∙ ap written_in found)

    new_key_named :
        (u : Text) (counter : ℕ)
        → lookup key s.writers ≡ none
        → mem u s.gen.used ≡ false
        → counter ≤ s.gen.counter + length s.gen.used + 1
        → unique_value safe key s.gen ≡ some (take_name u counter s.gen)
        → (s' : State) × (partition_row safe create w no_headers headers key r s ≡ (ok tt, s'))
          × IsPartition heads t (rows ++ (key, r) ∷ []) s'
    new_key_named u counter missing free below taken =
        let f : OutFile = record {
          unique = u;
          name = filename s.gen.template u;
          written = heads;
        } in
        let gen : WriterGenerator = record (s.gen) { counter = counter; used = u ∷ s.gen.used } in
        (
          record { gen = gen; writers = insert key (with_row f r) s.writers },
          partition_row-store key r s (record s { gen = gen }) f
              (rw missing (new_file key s u counter taken)),
          record {
            contents = contents-insert heads rows key r f s.writers empty p.contents;
            distinct = rw same (IsDistinct-append (uniques s.writers) u p.distinct unused);
            names =
                names-insert t key (with_row f r) s.writers (ap (λ t'. filename t' u) p.template)
                  p.names;
            template = p.template;
            in_use = λ v m. added v (rw same at m);
            few = omega (arith, p.few, length-append rows ((key, r) ∷ []));
            counted = omega (arith, p.counted, below, step (length s.gen.used));
          },
        )
      where
        same :
            uniques (
              insert key
                (with_row
                  (record { unique = u; name = filename s.gen.template u; written = heads })
                  r)
                s.writers)
            ≡ uniques s.writers ++ u ∷ []
        same = uniques-insert_new key _ s.writers missing

        unused : mem u (uniques s.writers) ≡ false
        unused = ground (arith, p.in_use u, free)

        added :
            (v : Text) → mem v (uniques s.writers ++ u ∷ []) ≡ true → mem v (u ∷ s.gen.used) ≡ true
        added v m = ground (arith, m, mem-append v (uniques s.writers) (u ∷ []), p.in_use v)

        empty : heads ≡ heads ++ with_key key rows
        empty =
            let unseen =
              content-none heads rows key (sym (p.contents key) ∙ ap written_in missing) in
            rw (with_key_none key rows unseen) (sym (append-nil heads))

    pub partition_row-IsPartition :
        (length rows + 1) * (length rows + 2) < usize_mod
        → (s' : State) × (partition_row safe create w no_headers headers key r s ≡ (ok tt, s'))
          × IsPartition heads t (rows ++ (key, r) ∷ []) s'
    partition_row-IsPartition room = elim (Option-cases (lookup key s.writers)) [
      | inr (f, found) ↦ old_key f found
      | inl missing ↦
          let bound = small (length s.gen.used) (length rows) p.few in
          let (u, counter, free, above, below, taken) =
            unique_value-Names safe key s.gen (omega (arith, p.counted, bound, room)) in
          new_key_named u counter missing free below taken
    ]

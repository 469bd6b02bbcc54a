-- ===== src/Config/Laws.antt =====
-- Which index a command uses, and what a reader is told.
use xsv.Prelude.{
  ℕ, ◌≡◌, ◌≤◌, ◌↔◌, refl, sym, ◌∙◌, ap, Bool-cases, inl, inr, Bool, true, false, not, List, drop,
  Option, none, some, ltb, arith, if◌then◌else◌,
}
use xsv.Prelude.Results.{Result, Result-cases, ok, ◌>>=◌, bind-eq-ok}
use xsv.Error.{Text, ByteRecord, IoError}
use xsv.Csv.{Reader}
use xsv.Csv.Laws.{all_ok, drop-all_ok}
use xsv.Util.{idx_path}
use xsv.Config.{Config, ReaderSettings, from_reader, with_no_headers}
use xsv.Config.Files.{
  File, Platform, io_reader, reader, index_files, passive_index, index_pair, check_modified,
}

-- The index of a `Config` that reads the file `path`.
abbrev pub index_name : Text → Option Text → Text
index_name path none = idx_path path
index_name path (some idx) = idx

some_pair :
    {a a' : Reader} {b b' : File}
    → ◌≡◌ {A = Result IoError (Option (Reader × File))} (ok (some (a, b))) (ok (some (a', b')))
    → (a ≡ a') × (b ≡ b')
some_pair e = (cc, cc)

module _ (p : Platform) (s : ReaderSettings) (r : Reader) (i : File) where
  abbrev pub IsFresh : File → Type 0
  IsFresh data_file =
      (d : ℕ) × (m : ℕ) × (data_file.last_modified ≡ ok d)
      × (i.last_modified ≡ ok m)
      × (d ≤ m)
      × (r ≡ p.csv_reader s data_file)

  check_modified-IsFresh :
      (f j : File) → check_modified p s f j ≡ ok (some (r, i)) → (j ≡ i) × IsFresh f
  unfolding check_modified
  check_modified-IsFresh f j e =
      let (d, of_file, rest) = bind-eq-ok f.last_modified _ e in
      let (m, of_index, rest') = bind-eq-ok j.last_modified _ rest in
      elim (Bool-cases (ltb m d)) [
        | inl late ↦ let refused = rw late at rest' in cc
        | inr fresh ↦
            let same = rw fresh at rest' in
            let (of_data, at) = some_pair same in
            (
              at,
              (
                d,
                m,
                of_file,
                ap (λ k. k.last_modified) (sym at) ∙ of_index,
                ground arith,
                sym of_data,
              ),
            )
      ]

  IsFresh-check_modified : (f : File) → IsFresh f → check_modified p s f i ≡ ok (some (r, i))
  unfolding check_modified
  IsFresh-check_modified f (d, m, of_file, of_index, fresh, same) =
      let kept : ltb m d ≡ false = ground arith in simp (of_file, of_index, kept, same)

  -- The data and the index that are opened for a path and the name of an index.
  abbrev pub UsesIndex : Option Text → Option Text → Type 0
  UsesIndex path idx =
      (name : Text) × (f : File) × (path ≡ some name)
      × (p.open_file name ≡ ok f)
      × (p.open_file (index_name name idx) ≡ ok i)
      × IsFresh f

  index_pair-UsesIndex :
      (path idx : Option Text) → index_pair p s path idx ≡ ok (some (r, i)) → UsesIndex path idx
  unfolding index_pair passive_index
  index_pair-UsesIndex none none e = absurd (ground arith)
  index_pair-UsesIndex none (some idx) e = absurd (ground arith)
  index_pair-UsesIndex (some path) none e = elim (Result-cases (p.open_file (idx_path path))) [
    | inl (j, opened) ↦
        let (f, of_path, checked) = bind-eq-ok (p.open_file path) _ (rw opened at e) in
        let (same, fresh) = check_modified-IsFresh f j checked in
        (path, f, refl, of_path, opened ∙ ap ok same, fresh)
    | inr (x, failed) ↦ let nothing = rw failed at e in absurd (ground arith)
  ]
  index_pair-UsesIndex (some path) (some idx) e =
      let (f, of_path, rest) = bind-eq-ok (p.open_file path) _ e in
      let (j, of_idx, checked) = bind-eq-ok (p.open_file idx) _ rest in
      let (same, fresh) = check_modified-IsFresh f j checked in
      (path, f, refl, of_path, of_idx ∙ ap ok same, fresh)

  opened-index_pair :
      (name : Text) (idx : Option Text) (f : File)
      → p.open_file name ≡ ok f
      → p.open_file (index_name name idx) ≡ ok i
      → IsFresh f
      → index_pair p s (some name) idx ≡ ok (some (r, i))
  unfolding index_pair passive_index
  opened-index_pair name none f of_path of_index fresh =
      rw (of_index, of_path) (IsFresh-check_modified f fresh)
  opened-index_pair name (some idx) f of_path of_index fresh =
      rw (of_path, of_index) (IsFresh-check_modified f fresh)

  UsesIndex-index_pair :
      (path idx : Option Text) → UsesIndex path idx → index_pair p s path idx ≡ ok (some (r, i))
  UsesIndex-index_pair path idx (name, f, at, of_path, of_index, fresh) =
      rw at (opened-index_pair name idx f of_path of_index fresh)

-- A `Config` finds an index exactly when its path is a file that opens, the index file that it names
-- (or that is named after the data) opens too, and the index was not modified before the data; the
-- index then comes with a reader of that data, under the settings of the `Config`.
pub index_files-UsesIndex :
    (p : Platform) (c : Config) (r : Reader) (i : File)
    → (index_files p c ≡ ok (some (r, i))) ↔ UsesIndex p (from_reader c) r i c.path c.idx_path
unfolding index_files
index_files-UsesIndex p c r i = (
  index_pair-UsesIndex p (from_reader c) r i c.path c.idx_path,
  UsesIndex-index_pair p (from_reader c) r i c.path c.idx_path,
)

-- The csv crate: a reader yields the records of its file, without the first one if it takes that for
-- headers.
abbrev pub Yields : Platform → File → ReaderSettings → List ByteRecord → Type 0
Yields p f s rows =
    (p.csv_reader s f).records ≡ (if s.has_headers then drop 1 (all_ok rows) else all_ok rows)

-- Reading the file of a `Config` that yields these records.
pub reader-Yields :
    (p : Platform) (c : Config) (f : File) (rows : List ByteRecord)
    → io_reader p c ≡ ok f
    → Yields p f (from_reader c) rows
    → (rdr : Reader) × (reader p c ≡ ok rdr)
      × (rdr.records ≡ all_ok (if not c.no_headers then drop 1 rows else rows))
unfolding reader from_reader
reader-Yields p c f rows opens yields = (
  p.csv_reader (from_reader c) f,
  ap (λ m. m >>= λ file. ok (p.csv_reader (from_reader c) file)) opens,
  yields ∙ skipped (not c.no_headers),
)
  where
    skipped :
        (b : Bool)
        → (if b then drop 1 (all_ok rows) else all_ok rows)
          ≡ all_ok (if b then drop 1 rows else rows)
    skipped true = drop-all_ok 1 rows
    skipped false = refl

-- A command without the flag --no-headers takes headers exactly where XSV_TOGGLE_HEADERS is set.
pub headers_taken :
    (toggle : Bool) (c : Config) → not (with_no_headers toggle true c).no_headers ≡ toggle
unfolding with_no_headers
headers_taken true c = refl
headers_taken false c = refl

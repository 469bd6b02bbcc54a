-- ===== src/Cmd/Search/Laws.antt =====
-- The records found are those with a matching field.
use xsv.Prelude.{
  ℕ, ◌≡◌, sym, ap, ◌∙◌, Bool, true, false, not, List, [], ◌∷◌, ◌++◌, append_assoc, append-nil, some,
  get_elem?, filter, map, All, if◌then◌else◌, arith,
}
use xsv.Prelude.Results.{ok}
use xsv.Error.{Bytes, ByteRecord}
use xsv.Csv.{Reader, Sink, Output, ◌>>◌, pure, try_csv, try_text, unwrap, write_record}
use xsv.Csv.Laws.{Accepts, all_ok, write_record-Accepts, flush-Accepts, bind-ok}
use xsv.Config.{config_selection}
use xsv.Cmd.Search.{Args, any_match, search_rows, run}

-- One of the fields matches.
abbrev pub has_match : (Bytes → Bool) → List Bytes → Bool
has_match p [] = false
has_match p (f ∷ fs) = if p f then true else has_match p fs

-- `r.0` are the fields that the selection takes from the record `r.1`.
abbrev pub Fits : List ℕ → List Bytes × ByteRecord → Type 0
Fits [] (fields, r) = fields ≡ []
Fits (i ∷ is) ([], r) = ⊥
Fits (i ∷ is) (f ∷ fields, r) = (get_elem? r i ≡ some f) × Fits is (fields, r)

abbrev pub found : (Bytes → Bool) → Bool → List Bytes × ByteRecord → Bool
found p invert r = if invert then not (has_match p r.0) else has_match p r.0

module _ (p : Bytes → Bool) where
  any_match-Fits :
      (sel : List ℕ) (fields : List Bytes) (r : ByteRecord)
      → Fits sel (fields, r)
      → any_match p sel r ≡ some (has_match p fields)
  unfolding any_match
  any_match-Fits [] fields r h = rw h
  any_match-Fits (i ∷ is) [] r h = absurd h
  any_match-Fits (i ∷ is) (f ∷ fields) r (h, hs) = ground (arith, h, any_match-Fits is fields r hs)

  module _ (invert : Bool) (w : Sink) (acc : Accepts w) (sel : List ℕ) where
    write_found :
        (b : Bool) (x : List Bytes × ByteRecord) (rest : Output (Unit {0}))
        (later : List (List Bytes × ByteRecord)) (out : List ByteRecord)
        → ((o : List ByteRecord) → rest o ≡ (ok tt, o ++ map (λ r. r.1) later))
        → ((if b then write_record w x.1 else pure tt) >> rest) out
          ≡ (ok tt, out ++ map (λ r. r.1) (if b then x ∷ later else later))
    write_found true x rest later out h =
        bind-ok (write_record w x.1) _ (write_record-Accepts w acc x.1 out)
        ∙ h (out ++ x.1 ∷ [])
        ∙ ap (λ rs. (ok tt, rs)) (append_assoc out (x.1 ∷ []) (map (λ r. r.1) later))
    write_found false x rest later out h = h out

    search_rows-found :
        (keys : List (List Bytes × ByteRecord)) (out : List ByteRecord)
        → All (Fits sel) keys
        → search_rows p invert w sel (all_ok (map (λ r. r.1) keys)) out
          ≡ (ok tt, out ++ map (λ r. r.1) (filter (found p invert) keys))
    unfolding search_rows
    search_rows-found [] out h = rw append-nil
    search_rows-found ((fields, r) ∷ keys) out (h, hs) =
        bind-ok (unwrap (any_match p sel r)) _
          (ap (λ o. unwrap o out) (any_match-Fits sel fields r h))
        ∙ write_found (found p invert (fields, r)) (fields, r) _ (filter (found p invert) keys) out
            (λ o. search_rows-found keys o hs)

  -- On data that reads without errors and whose records all have the selected fields, and into a
  -- writer that takes every record, the command writes the headers (unless there are none), and then,
  -- in order, the records in which a selected field matches, or with `--invert-match` the others.
  pub run-found :
      (a : Args) (rdr : Reader) (w : Sink) (headers : ByteRecord) (out : List ByteRecord)
      (sel : List ℕ) (keys : List (List Bytes × ByteRecord))
      → Accepts w
      → rdr.headers ≡ ok headers
      → config_selection a.rconfig headers ≡ ok sel
      → rdr.records ≡ all_ok (map (λ r. r.1) keys)
      → All (Fits sel) keys
      → run p a rdr w out ≡ (
        ok tt,
        (out ++ (if not a.rconfig.no_headers then headers ∷ [] else []))
            ++ map (λ r. r.1) (filter (found p a.flag_invert_match) keys),
      )
  unfolding run
  run-found a rdr w headers out sel keys acc h c e fits =
      bind-ok (try_csv rdr.headers) _ (ap (λ r. try_csv r out) h)
      ∙ bind-ok (try_text (config_selection a.rconfig headers)) _ (ap (λ r. try_text r out) c)
      ∙ bind-ok (if not a.rconfig.no_headers then write_record w headers else pure tt) _
          (write_first (not a.rconfig.no_headers))
      ∙ bind-ok (search_rows p a.flag_invert_match w sel rdr.records) _ (
          ap
            (λ rs.
              search_rows p a.flag_invert_match w sel rs
                (out ++ (if not a.rconfig.no_headers then headers ∷ [] else [])))
            e
          ∙ search_rows-found a.flag_invert_match w acc sel keys _ fits)
      ∙ flush-Accepts w acc _
    where
      write_first :
          (b : Bool)
          → (if b then write_record w headers else pure tt) out
            ≡ (ok tt, out ++ (if b then headers ∷ [] else []))
      write_first true = write_record-Accepts w acc headers out
      write_first false = ap (λ rs. (ok tt, rs)) (sym (append-nil out))

-- ===== src/Cmd/Select/Laws.antt =====
-- The command never panics on records as long as the headers.
use xsv.Prelude.{
  ℕ, ◌<◌, ◌≡◌, refl, sym, ap, ◌∙◌, Bool, true, false, not, List, [], ◌∷◌, ◌++◌, append_assoc,
  append-nil, Option, none, some, length, map, All, if◌then◌else◌,
}
use mathlib.Core.Path.{ap₂}
use xsv.Prelude.Results.{Result, ok, err}
use xsv.Error.{Bytes, ByteRecord, Message, no_select_columns}
use xsv.Csv.{Reader, Sink, ◌>>=◌, pure, try_csv, try_text, unwrap, write_record}
use xsv.Csv.Laws.{Accepts, all_ok, write_record-Accepts, flush-Accepts, bind-ok}
use xsv.Config.{Config, config_selection}
use xsv.Select.{SelectColumns}
use xsv.Select.Resolve.{selection}
use xsv.Select.Resolve.Columns.{selection-InBounds}
use xsv.Select.Resolve.Fits.{select-some}
use xsv.Select.Row.{select}
use xsv.Cmd.Select.{select_rows, run}

in_bounds :
    (c : Config) (headers : ByteRecord) (sel : List ℕ)
    → 0 < length headers
    → config_selection c headers ≡ ok sel
    → All (λ i. i < length headers) sel
unfolding config_selection
in_bounds c headers sel pos e = by_columns c.select_columns e
  where
    by_columns :
        (o : Option SelectColumns)
        → ◌≡◌ {A = Result Message (List ℕ)}
            (elim o [
              | none ↦ err no_select_columns
              | some s ↦ selection s headers (not c.no_headers)
            ])
            (ok sel)
        → All (λ i. i < length headers) sel
    by_columns none h = cc
    by_columns (some s) h = selection-InBounds s headers (not c.no_headers) pos h

fit :
    (headers : ByteRecord) (sel : List ℕ) (rows : List ByteRecord)
    → All (λ i. i < length headers) sel
    → All (λ r. length r ≡ length headers) rows
    → All (λ r. All (λ i. i < length r) sel) rows
fit headers sel [] h k = tt
fit headers sel (r ∷ rows) h (k, ks) = (rw k h, fit headers sel rows h ks)

module _ (w : Sink) (acc : Accepts w) (sel : List ℕ) where
  select_rows-map :
      (rows out : List ByteRecord)
      → All (λ r. All (λ i. i < length r) sel) rows
      → (selected : List ByteRecord) × (map (select sel) rows ≡ map some selected)
        × (select_rows w sel (all_ok rows) out ≡ (ok tt, out ++ selected))
  unfolding select_rows
  select_rows-map [] out h = ([], refl, rw append-nil)
  select_rows-map (r ∷ rows) out (h, hs) =
      let (fields, e, at_sel) = select-some sel r h in
      let (selected, m, run') = select_rows-map rows (out ++ fields ∷ []) hs in
      (
        fields ∷ selected,
        ap₂ (◌∷◌) e m,
        bind-ok (unwrap (select sel r)) _ (ap (λ o. unwrap o out) e)
            ∙ bind-ok (write_record w fields) _ (write_record-Accepts w acc fields out)
            ∙ run'
            ∙ ap (λ rs. (ok tt, rs)) (append_assoc out (fields ∷ []) selected),
      )

  write_first :
      (b : Bool) (headers : ByteRecord) (fields : List Bytes) (out : List ByteRecord)
      → select sel headers ≡ some fields
      → (if b then (unwrap (select sel headers) >>= write_record w) else pure tt) out
        ≡ (ok tt, out ++ (if b then fields ∷ [] else []))
  write_first true headers fields out e =
      bind-ok (unwrap (select sel headers)) _ (ap (λ o. unwrap o out) e)
      ∙ write_record-Accepts w acc fields out
  write_first false headers fields out e = ap (λ rs. (ok tt, rs)) (sym (append-nil out))

-- With a selection that resolves against the headers, of which there is at least one, on data that
-- reads without errors and whose records are as long as the headers, and into a writer that takes
-- every record: the command does not panic, and writes the selected headers (unless there are none)
-- and then the selected fields of every record, in order.
pub run-select :
    (c : Config) (rdr : Reader) (w : Sink) (headers : ByteRecord) (sel : List ℕ)
    (rows out : List ByteRecord)
    → Accepts w
    → rdr.headers ≡ ok headers
    → rdr.records ≡ all_ok rows
    → config_selection c headers ≡ ok sel
    → 0 < length headers
    → All (λ r. length r ≡ length headers) rows
    → (fields : List Bytes) × (selected : List ByteRecord) × (select sel headers ≡ some fields)
      × (map (select sel) rows ≡ map some selected)
      × (run c rdr w out
          ≡ (ok tt, (out ++ (if not c.no_headers then fields ∷ [] else [])) ++ selected))
unfolding run
run-select c rdr w headers sel rows out acc h e s pos same =
    let bounds = in_bounds c headers sel pos s in
    let (fields, f, at_sel) = select-some sel headers bounds in
    let (selected, m, run') =
      select_rows-map w acc sel rows (out ++ (if not c.no_headers then fields ∷ [] else []))
        (fit headers sel rows bounds same) in
    (
      fields,
      selected,
      f,
      m,
      bind-ok (try_csv rdr.headers) _ (ap (λ r. try_csv r out) h)
          ∙ bind-ok (try_text (config_selection c headers)) _ (ap (λ r. try_text r out) s)
          ∙ bind-ok
              (if not c.no_headers
                then (unwrap (select sel headers) >>= write_record w)
                else pure tt)
              _ (write_first w acc sel (not c.no_headers) headers fields out f)
          ∙ bind-ok (select_rows w sel rdr.records) _ (
              ap
                (λ rs. select_rows w sel rs (out ++ (if not c.no_headers then fields ∷ [] else [])))
                e
              ∙ run')
          ∙ flush-Accepts w acc _,
    )

-- ===== src/Select/Resolve/Fits.antt =====
-- src/select.rs: `Selection::select` on the records that a selection is resolved for.
use xsv.Prelude.{
  ℕ, ◌<◌, ◌≡◌, refl, sym, Bool, List, [], ◌∷◌, some, get_elem?, get_elem?-lt, length, map, All,
}
use mathlib.Core.Path.{ap₂}
use xsv.Prelude.Results.{ok}
use xsv.Error.{Bytes, ByteRecord}
use xsv.Select.{SelectColumns}
use xsv.Select.Resolve.{selection}
use xsv.Select.Resolve.Columns.{selection-InBounds}
use xsv.Select.Row.{select}

pub select-some :
    (sel : List ℕ) (r : ByteRecord)
    → All (λ i. i < length r) sel
    → (fields : List Bytes) × (select sel r ≡ some fields)
      × (map some fields ≡ map (get_elem? r) sel)
unfolding select
select-some [] r h = ([], refl, refl)
select-some (i ∷ is) r (h, hs) =
    let (f, e) = get_elem?-lt r i h in
    let (fs, es, same) = select-some is r hs in (f ∷ fs, rw (select, e, es), ap₂ (◌∷◌) (sym e) same)

-- On a header with at least one field: a selection that resolves to positions selects, without a panic,
-- from every record that is as long as the header, and what it gives are the fields of the record at
-- these positions, in their order; every position is one of the record.
pub selection-select :
    (c : SelectColumns) (first : ByteRecord) (use_names : Bool) (sel : List ℕ) (r : ByteRecord)
    → 0 < length first
    → selection c first use_names ≡ ok sel
    → length r ≡ length first
    → All (λ i. i < length r) sel
      × ((fields : List Bytes) × (select sel r ≡ some fields)
          × (map some fields ≡ map (get_elem? r) sel))
selection-select c first use_names sel r pos h same =
    let bounds : All (λ i. i < length r) sel =
      rw same (selection-InBounds c first use_names pos h) in
    (bounds, select-some sel r bounds)

-- ===== src/Cmd/Headers/Laws.antt =====
-- Which names are listed.
use xsv.Prelude.{
  ℕ, ◌+◌, ◌≡◌, refl, sym, ap, ◌∙◌, Bool, true, false, not, ◌&&◌, Bool-cases, inl, inr, List, [],
  ◌∷◌, ◌++◌, append-nil, append_assoc, length, ◌==◌, if◌then◌else◌, arith,
}
use xsv.Prelude.Bytes.{bytes_eq_iff}
use xsv.Prelude.Dict.{
  nat_eq, list_eq, list_beq, list_beq_iff, mem, mem-append, IsDistinct, IsDistinct-append,
}
use xsv.Prelude.Results.{ok}
use xsv.Error.{Bytes, Text, ByteRecord}
use xsv.Csv.{Reader, ◌>>◌, pure}
use xsv.Csv.Plain.{
  Plain, Takes, write_all, Prints, Prints-nothing, Prints-then, write_all-Takes, flush_all-Takes,
}
use xsv.Config.{Config}
use xsv.Config.Files.{Platform, reader}
use xsv.Select.Syntax.{decimal}
use xsv.Util.Inputs.{many_configs}
use xsv.Cmd.Headers.{Args, listed, push_headers, push_inputs, print_headers, run}

listed-mem : (h : Bytes) (hs : List Bytes) → listed h hs ≡ mem h hs
unfolding listed
listed-mem h [] = refl
listed-mem h (x ∷ hs) = ground (arith, bytes_eq_iff x h, list_beq_iff h x, listed-mem h hs)

-- The names of all inputs, one input after the other.
abbrev pub all_names : List ByteRecord → List Bytes
all_names [] = []
all_names (fields ∷ inputs) = fields ++ all_names inputs

-- What is listed of these names: with `--intersect` each of them once, without it all of them as they
-- come.
abbrev pub Listing : Bool → List Bytes → List Bytes → Type 0
Listing true names headers = IsDistinct headers × ((h : Bytes) → mem h headers ≡ mem h names)
Listing false names headers = headers ≡ names

push_headers-all :
    (headers : List Bytes) (fields : ByteRecord)
    → push_headers false headers fields ≡ headers ++ fields
unfolding push_headers
push_headers-all headers [] = sym (append-nil headers)
push_headers-all headers (f ∷ fields) =
    push_headers-all (headers ++ f ∷ []) fields ∙ append_assoc headers (f ∷ []) fields

push_headers-IsDistinct :
    (headers : List Bytes) (fields : ByteRecord)
    → IsDistinct headers
    → IsDistinct (push_headers true headers fields)
unfolding push_headers
push_headers-IsDistinct headers [] d = d
push_headers-IsDistinct headers (f ∷ fields) d = elim (Bool-cases (listed f headers)) [
  | inl known ↦ rw known (push_headers-IsDistinct headers fields d)
  | inr unknown ↦ rw unknown (
      push_headers-IsDistinct (headers ++ f ∷ []) fields
        (IsDistinct-append headers f d (sym (listed-mem f headers) ∙ unknown)))
]

known-mem :
    (h f : Bytes) (headers fields : List Bytes)
    → mem f headers ≡ true
    → (if mem h headers then true else mem h fields)
      ≡ (if mem h headers then true else if list_beq h f then true else mem h fields)
known-mem h f headers fields known = elim (Bool-cases (list_beq h f)) [
  | inl same ↦
      let here : mem h headers ≡ true =
        ap (λ x. mem x headers) ((list_beq_iff h f).0 same) ∙ known in
      rw here refl
  | inr other ↦ rw other refl
]

push_headers-mem :
    (h : Bytes) (headers : List Bytes) (fields : ByteRecord)
    → mem h (push_headers true headers fields) ≡ (if mem h headers then true else mem h fields)
unfolding push_headers
push_headers-mem h headers [] = ground arith
push_headers-mem h headers (f ∷ fields) = elim (Bool-cases (listed f headers)) [
  | inl known ↦ rw known (
      push_headers-mem h headers fields
      ∙ known-mem h f headers fields (sym (listed-mem f headers) ∙ known))
  | inr unknown ↦ rw unknown (
      push_headers-mem h (headers ++ f ∷ []) fields ∙ ground (arith, mem-append h headers (f ∷ [])))
]

push_headers-Listing :
    (intersect : Bool) (names headers : List Bytes) (fields : ByteRecord)
    → Listing intersect names headers
    → Listing intersect (names ++ fields) (push_headers intersect headers fields)
push_headers-Listing true names headers fields (d, m) = (
  push_headers-IsDistinct headers fields d,
  λ h. push_headers-mem h headers fields ∙ (rw (m h) refl ∙ sym (mem-append h names fields)),
)
push_headers-Listing false names headers fields e = rw e (push_headers-all names fields)

-- The inputs open, and these are their header records.
abbrev pub HaveHeaders : Platform → List Config → List ByteRecord → Type 0
HaveHeaders p [] [] = Unit
HaveHeaders p (conf ∷ configs) (fields ∷ inputs) =
    (rdr : Reader) × (reader p conf ≡ ok rdr)
    × (rdr.headers ≡ ok fields)
    × HaveHeaders p configs inputs
HaveHeaders p _ _ = ⊥

push_inputs-Listing :
    {S : Type 0} (p : Platform) (intersect : Bool) (names headers : List Bytes)
    (configs : List Config) (inputs : List ByteRecord) (s : S)
    → HaveHeaders p configs inputs
    → Listing intersect names headers
    → (headers' : List Bytes) × (push_inputs p intersect headers configs s ≡ (ok headers', s))
      × Listing intersect (names ++ all_names inputs) headers'
unfolding push_inputs
push_inputs-Listing p intersect names headers [] [] s t l = (headers, refl, rw (append-nil names) l)
push_inputs-Listing p intersect names headers [] (fields ∷ inputs) s t l = absurd t
push_inputs-Listing p intersect names headers (conf ∷ configs) [] s t l = absurd t
push_inputs-Listing p intersect names headers (conf ∷ configs) (fields ∷ inputs) s
      (rdr, opens, has, t) l =
    let (headers', ran, l') =
      push_inputs-Listing p intersect (names ++ fields) (push_headers intersect headers fields)
        configs inputs s t (push_headers-Listing intersect names headers fields l) in
    (headers', rw (opens, has) ran, rw⁻¹ (append_assoc names fields (all_names inputs)) l')

-- What is printed from header `i` on: each name on its own line, behind its number from 1 on and a
-- tab where the names are numbered.
abbrev pub lines : Bool → ℕ → List Bytes → Bytes
lines numbered i [] = []
lines numbered i (h ∷ headers) =
    (if numbered then decimal (i + 1) ++ b'\t' ∷ [] else [])
    ++ (h ++ b'\n' ∷ lines numbered (i + 1) headers)

print_headers-lines :
    (w : Plain) (t : Takes w) (numbered : Bool) (i : ℕ) (headers : List Bytes)
    → Prints (print_headers w numbered i headers) (lines numbered i headers)
unfolding print_headers
print_headers-lines w t numbered i [] = Prints-nothing
print_headers-lines w t numbered i (h ∷ headers) =
    let ending : Prints (write_all w (b'\n' ∷ []) >> print_headers w numbered (i + 1) headers)
        (b'\n' ∷ lines numbered (i + 1) headers) =
      Prints-then _ _ (write_all-Takes w t (b'\n' ∷ []))
        (print_headers-lines w t numbered (i + 1) headers) in
    Prints-then _ _ (numbers numbered) (Prints-then _ _ (write_all-Takes w t h) ending)
  where
    numbers :
        (b : Bool)
        → Prints
            (if b then write_all w (decimal (i + 1) ++ b'\t' ∷ []) else pure tt)
            (if b then decimal (i + 1) ++ b'\t' ∷ [] else [])
    numbers true = write_all-Takes w t (decimal (i + 1) ++ b'\t' ∷ [])
    numbers false = Prints-nothing

-- Where all inputs open and have headers, and the output takes everything, `headers` prints one line
-- for each name: without `--intersect` all names of all inputs as they come, with it every name that
-- any of the inputs has, exactly once. The lines are numbered from 1 on if there is one input and
-- the numbers are wanted.
pub run-Listing :
    (is_tsv : Text → Bool) (toggle : Bool) (p : Platform) (plain tabbed : Plain) (a : Args)
    (configs : List Config) (inputs : List ByteRecord) (out : Bytes)
    → Takes plain
    → Takes tabbed
    → many_configs is_tsv toggle a.arg_input a.flag_delimiter true ≡ ok configs
    → HaveHeaders p configs inputs
    → (headers : List Bytes) × (run is_tsv toggle p plain tabbed a out
        ≡ (ok tt, out ++ lines (length configs == 1 && not a.flag_just_names) 0 headers))
      × Listing a.flag_intersect (all_names inputs) headers
unfolding run
run-Listing is_tsv toggle p plain tabbed a configs inputs out tp tt' e have =
    let (headers, ran, listing) =
      push_inputs-Listing p a.flag_intersect [] [] configs inputs out have
        (nothing a.flag_intersect) in
    let numbered = length configs == 1 && not a.flag_just_names in
    let w = if a.flag_just_names then plain else tabbed in
    let t : Takes w = either a.flag_just_names in
    (
      headers,
      rw (e, ran, print_headers-lines w t numbered 0 headers out)
          (flush_all-Takes w t (out ++ lines numbered 0 headers)),
      listing,
    )
  where
    nothing : (b : Bool) → Listing b [] []
    nothing true = (tt, λ h. refl)
    nothing false = refl

    either : (b : Bool) → Takes (if b then plain else tabbed)
    either true = tp
    either false = tt'

-- ===== src/Cmd/Partition/Contents.antt =====
-- The contents of the files against the records seen so far.
use mathlib.Core.List.{append_assoc}
use native.Mathlib.Nat.{mul-le-mul}
use xsv.Prelude.{
  ℕ, ◌+◌, ◌*◌, ◌≡◌, ◌≤◌, refl, ap, not, Bool, true, false, List, [], ◌∷◌, ◌++◌, append-nil, Option,
  none, some, inl, inr, Bool-cases, length, All, if◌then◌else◌, arith,
}
use xsv.Prelude.Dict.{
  nat_eq, list_eq, list_beq, list_beq_iff, lookup, insert, lookup-insert, mem, IsDistinct,
}
use xsv.Error.{Text, Bytes, ByteRecord}
use xsv.Util.{FilenameTemplate, filename}
use xsv.Cmd.Partition.{OutFile, State}

-- The records with the key `k`, in order.
abbrev pub with_key : Bytes → List (Bytes × ByteRecord) → List ByteRecord
with_key k [] = []
with_key k ((j, r) ∷ rs) = if list_beq k j then r ∷ with_key k rs else with_key k rs

with_key-append :
    (k : Bytes) (xs ys : List (Bytes × ByteRecord))
    → with_key k (xs ++ ys) ≡ with_key k xs ++ with_key k ys
with_key-append k [] ys = refl
with_key-append k (x ∷ xs) ys = ground (arith, with_key-append k xs ys)

abbrev pub occurs : Bytes → List (Bytes × ByteRecord) → Bool
occurs k [] = false
occurs k ((j, r) ∷ rs) = if list_beq k j then true else occurs k rs

occurs-append :
    (k : Bytes) (xs ys : List (Bytes × ByteRecord))
    → occurs k (xs ++ ys) ≡ (if occurs k xs then true else occurs k ys)
occurs-append k [] ys = refl
occurs-append k (x ∷ xs) ys = ground (arith, occurs-append k xs ys)

pub with_key_none :
    (k : Bytes) (rows : List (Bytes × ByteRecord)) → occurs k rows ≡ false → with_key k rows ≡ []
with_key_none k [] h = refl
with_key_none k (x ∷ rows) h = ground (arith, with_key_none k rows)

-- What a partition promises: a key that occurs has a file with the headers and its records.
abbrev pub content : List ByteRecord → List (Bytes × ByteRecord) → Bytes → Option (List ByteRecord)
content heads rows k = if occurs k rows then some (heads ++ with_key k rows) else none

abbrev pub written_in : Option OutFile → Option (List ByteRecord)
written_in none = none
written_in (some f) = some f.written

abbrev pub uniques : List (Bytes × OutFile) → List Text
uniques [] = []
uniques ((k, f) ∷ d) = f.unique ∷ uniques d

pub content-append :
    (heads : List ByteRecord) (rows : List (Bytes × ByteRecord)) (key k : Bytes) (r : ByteRecord)
    → content heads (rows ++ (key, r) ∷ []) k ≡ (
        if list_beq k key
        then some ((heads ++ with_key key rows) ++ r ∷ [])
        else content heads rows k)
content-append heads rows key k r = elim (Bool-cases (list_beq k key)) [
  | inl same ↦
      let e : k ≡ key = (list_beq_iff k key).0 same in
      rw
        (
          same,
          occurs-append k rows ((key, r) ∷ []),
          with_key-append k rows ((key, r) ∷ []),
          same,
          append_assoc,
          e,
        )
        (always (occurs key rows) _)
  | inr other ↦
      rw
        (
          other,
          occurs-append k rows ((key, r) ∷ []),
          with_key-append k rows ((key, r) ∷ []),
          other,
          append-nil,
        )
        (or_false (occurs k rows) _)
]
  where
    always :
        (b : Bool) (o : List ByteRecord)
        → (if (if b then true else true) then some o else none) ≡ some o
    always true o = refl
    always false o = refl

    or_false :
        (b : Bool) (o : List ByteRecord)
        → (if (if b then true else false) then some o else none) ≡ (if b then some o else none)
    or_false true o = refl
    or_false false o = refl

-- The files written so far, and the generator, against the records seen so far.
pub record IsPartition (heads : List ByteRecord) (t : FilenameTemplate)
    (rows : List (Bytes × ByteRecord)) (s : State) : Type 0 where
  pub contents : (k : Bytes) → written_in (lookup k s.writers) ≡ content heads rows k
  pub distinct : IsDistinct (uniques s.writers)
  pub names : All (λ e. e.1.name ≡ filename t e.1.unique) s.writers
  pub template : s.gen.template ≡ t
  pub in_use : (u : Text) → mem u (uniques s.writers) ≡ true → mem u s.gen.used ≡ true
  pub few : length s.gen.used ≤ length rows
  pub counted : s.gen.counter ≤ (length s.gen.used + 1) * (length s.gen.used + 1)

pub uniques-insert_old :
    (key : Bytes) (f g : OutFile) (d : List (Bytes × OutFile))
    → lookup key d ≡ some f
    → g.unique ≡ f.unique
    → uniques (insert key g d) ≡ uniques d
uniques-insert_old key f g [] h e = cc
uniques-insert_old key f g ((k, f') ∷ d) h e = elim (Bool-cases (list_beq key k)) [
  | inl same ↦ rw same (ap (λ u. u ∷ uniques d) (ground (arith, same, h, e)))
  | inr other ↦ rw other (ap (◌∷◌ f'.unique) (uniques-insert_old key f g d (rw other at h) e))
]

pub uniques-insert_new :
    (key : Bytes) (g : OutFile) (d : List (Bytes × OutFile))
    → lookup key d ≡ none
    → uniques (insert key g d) ≡ uniques d ++ g.unique ∷ []
uniques-insert_new key g [] h = refl
uniques-insert_new key g ((k, f) ∷ d) h = elim (Bool-cases (list_beq key k)) [
  | inl same ↦ absurd (ground (arith, same, h))
  | inr other ↦ rw other (ap (◌∷◌ f.unique) (uniques-insert_new key g d (rw other at h)))
]

pub names-insert :
    (t : FilenameTemplate) (key : Bytes) (g : OutFile) (d : List (Bytes × OutFile))
    → g.name ≡ filename t g.unique
    → All (λ e. e.1.name ≡ filename t e.1.unique) d
    → All (λ e. e.1.name ≡ filename t e.1.unique) (insert key g d)
names-insert t key g [] h k = (h, tt)
names-insert t key g ((j, f) ∷ d) h (k, ks) = elim (Bool-cases (list_beq key j)) [
  | inl same ↦ rw same (h, ks)
  | inr other ↦ rw other (k, names-insert t key g d h ks)
]

abbrev pub with_row : OutFile → ByteRecord → OutFile
with_row f r = record f { written = f.written ++ r ∷ [] }

-- The new contents, once a file with the right contents has got its record.
pub contents-insert :
    (heads : List ByteRecord) (rows : List (Bytes × ByteRecord)) (key : Bytes) (r : ByteRecord)
    (f : OutFile) (d : List (Bytes × OutFile))
    → f.written ≡ heads ++ with_key key rows
    → ((k : Bytes) → written_in (lookup k d) ≡ content heads rows k)
    → (k : Bytes)
    → written_in (lookup k (insert key (with_row f r) d)) ≡ content heads (rows ++ (key, r) ∷ []) k
contents-insert heads rows key r f d e h k =
    rw (lookup-insert k key (with_row f r) d, content-append heads rows key k r)
      (elim (Bool-cases (list_beq k key)) [
        | inl same ↦ rw (same, e) refl
        | inr other ↦ rw other (h k)
      ])

pub content-some :
    (heads : List ByteRecord) (rows : List (Bytes × ByteRecord)) (k : Bytes) (out : List ByteRecord)
    → content heads rows k ≡ some out
    → out ≡ heads ++ with_key k rows
content-some heads rows k out h = ground (arith, h)

pub content-none :
    (heads : List ByteRecord) (rows : List (Bytes × ByteRecord)) (k : Bytes)
    → content heads rows k ≡ none
    → occurs k rows ≡ false
content-none heads rows k h = ground (arith, h)

pub lookup-name :
    (t : FilenameTemplate) (key : Bytes) (f : OutFile) (d : List (Bytes × OutFile))
    → All (λ e. e.1.name ≡ filename t e.1.unique) d
    → lookup key d ≡ some f
    → f.name ≡ filename t f.unique
lookup-name t key f [] h e = cc
lookup-name t key f ((k, g) ∷ d) (h, hs) e = ground (arith, e, h, lookup-name t key f d hs)

-- How far the counter is behind the number of the names.
pub small : (k n : ℕ) → k ≤ n → (k + 1) * (k + 1) + k + 1 ≤ (n + 1) * (n + 2)
small k n h =
    let plus : k + 1 ≤ n + 1 = omega arith in
    let plus' : k + 2 ≤ n + 2 = omega arith in
    let product : (k + 1) * (k + 2) ≤ (n + 1) * (n + 2) = mul-le-mul plus plus' in grind arith

pub step : (k : ℕ) → (k + 1) * (k + 1) + k + 1 ≤ (k + 1 + 1) * (k + 1 + 1)
step k = grind arith

-- What a new file starts with.
abbrev pub heads_of : Bool → ByteRecord → List ByteRecord
heads_of no_headers headers = if not no_headers then headers ∷ [] else []

-- ===== src/Cmd/Partition/Names/Fresh.antt =====
-- The names are new, and there always is one.
use mathlib.Core.List.{append_cancel_left}
use xsv.Prelude.{
  ℕ, zero, suc, ◌+◌, ◌≡◌, ◌≢◌, ◌≤◌, ◌<◌, refl, sym, ap, ◌∙◌, true, false, List, [], ◌∷◌, Option,
  some, length, ◌==◌, if◌then◌else◌, Bool-cases, inl, inr, arith,
}
use xsv.Prelude.Dict.{Eq, nat_eq, list_eq, mem}
use xsv.Error.{Text, Bytes}
use xsv.Select.Number.{usize_mod, usize_from_str}
use xsv.Select.Syntax.{decimal}
use xsv.Select.Parser.Digits.{usize_from_str-decimal}
use xsv.Util.{usize_max}
use xsv.Cmd.Partition.Names.{
  WriterGenerator, candidate, take_name, probe, unique_base, unique_value, base_of,
}

module _ {ℓ} {A : Type ℓ} ⦃e : Eq A⦄ where
  remove : A → List A → List A
  remove a [] = []
  remove a (x ∷ xs) = if e.beq a x then xs else x ∷ remove a xs

  length-remove : (a : A) (xs : List A) → mem a xs ≡ true → length (remove a xs) + 1 ≡ length xs
  unfolding remove
  length-remove a [] h = cc
  length-remove a (x ∷ xs) h = ground (arith, length-remove a xs)

  mem-remove_ne : (a b : A) (xs : List A) → b ≢ a → mem b (remove a xs) ≡ mem b xs
  unfolding remove
  mem-remove_ne a b [] h = refl
  mem-remove_ne a b (x ∷ xs) h =
      ground (arith, mem-remove_ne a b xs h, e.beq_iff a x, e.beq_iff b x, e.beq_iff a b)

  -- One of the `n` values from `f k` on is not in a list that is shorter than `n`, if they differ.
  fresh_among :
      (f : ℕ → A) (bound : ℕ)
      → ((i j : ℕ) → i < bound → j < bound → f i ≡ f j → i ≡ j)
      → (n k : ℕ) (xs : List A) → length xs < n
      → k + n ≤ bound
      → (i : ℕ) × (i < n) × (mem (f (k + i)) xs ≡ false)
  fresh_among f bound inj zero k xs h l = absurd (omega arith)
  fresh_among f bound inj (suc n) k xs h l = elim (Bool-cases (mem (f k) xs)) [
    | inl taken ↦
        let (i, less, m) =
          fresh_among f bound inj n (suc k) (remove (f k) xs)
            (omega (arith, length-remove (f k) xs taken)) (omega arith) in
        let shift : k + suc i ≡ suc k + i = omega arith in
        let other : f (suc k + i) ≢ f k =
          λ p. absurd (omega (arith, inj (suc k + i) k (omega arith) (omega arith) p)) in
        (suc i, omega arith, rw shift (sym (mem-remove_ne (f k) (f (suc k + i)) xs other) ∙ m))
    | inr new ↦ let same : k + 0 ≡ k = omega arith in (0, omega arith, rw same new)
  ]

tail : Text → Text
tail [] = []
tail (c ∷ cs) = cs

some_injective : {i j : ℕ} → ◌≡◌ {A = Option ℕ} (some i) (some j) → i ≡ j
some_injective h = cc

candidate_injective :
    (base : Text) (i j : ℕ)
    → i < usize_mod
    → j < usize_mod
    → candidate base i ≡ candidate base j
    → i ≡ j
unfolding candidate tail
candidate_injective base i j h k e =
    let tails = append_cancel_left base _ _ e in
    let same : decimal i ≡ decimal j = ap tail tails in
    some_injective
      (sym (usize_from_str-decimal i h) ∙ ap usize_from_str same ∙ usize_from_str-decimal j k)

-- The value that the loop returns: the first candidate that is free.
probe-fresh :
    (base : Text) (gen : WriterGenerator) (fuel n i : ℕ)
    → i < fuel
    → n + i < usize_max
    → mem (candidate base (n + i)) gen.used ≡ false
    → (m : ℕ) × (n ≤ m)
      × (m ≤ n + i)
      × (mem (candidate base m) gen.used ≡ false)
      × (probe fuel base n gen ≡ some (take_name (candidate base m) (m + 1) gen))
unfolding probe
probe-fresh base gen zero n i h l m = absurd (omega arith)
probe-fresh base gen (suc fuel) n zero h l m =
    let bounded : (n == usize_max) ≡ false = ground arith in
    let same : n + 0 ≡ n = omega arith in
    let free : mem (candidate base n) gen.used ≡ false = rw same at m in
    (n, omega arith, omega arith, free, rw (bounded, free) refl)
probe-fresh base gen (suc fuel) n (suc i) h l m =
    let bounded : (n == usize_max) ≡ false = ground arith in
    let shift : n + suc i ≡ n + 1 + i = omega arith in
    elim (Bool-cases (mem (candidate base n) gen.used)) [
      | inr free ↦ (n, omega arith, omega arith, free, rw (bounded, free) refl)
      | inl taken ↦
          let (k, above, below, free, found) =
            probe-fresh base gen fuel (n + 1) i (omega arith) (omega arith) (rw shift at m) in
          (k, omega arith, omega arith, free, rw (bounded, taken) found)
    ]

probe-some :
    (base : Text) (gen : WriterGenerator)
    → gen.counter + length gen.used + 1 < usize_mod
    → (m : ℕ) × (gen.counter ≤ m)
      × (m ≤ gen.counter + length gen.used)
      × (mem (candidate base m) gen.used ≡ false)
      × (probe (suc (length gen.used)) base gen.counter gen
          ≡ some (take_name (candidate base m) (m + 1) gen))
probe-some base gen h =
    let (i, less, free) =
      fresh_among (candidate base) usize_mod (candidate_injective base) (suc (length gen.used))
        gen.counter gen.used (omega arith) (omega arith) in
    let (m, above, below, free_m, found) =
      probe-fresh base gen (suc (length gen.used)) gen.counter i less (omega arith) free in
    (m, above, omega arith, free_m, found)

-- What a request for a name comes to: a name that is not in use, and a generator in which it is.
abbrev pub Names : WriterGenerator → Option (Text × WriterGenerator) → Type 0
Names gen r =
    (name : Text) × (counter : ℕ) × (mem name gen.used ≡ false)
    × (gen.counter ≤ counter)
    × (counter ≤ gen.counter + length gen.used + 1)
    × (r ≡ some (take_name name counter gen))

unique_base-Names :
    (base : Text) (gen : WriterGenerator)
    → gen.counter + length gen.used + 1 < usize_mod
    → Names gen (unique_base base gen)
unfolding unique_base
unique_base-Names base gen h = elim (Bool-cases (mem base gen.used)) [
  | inr free ↦ (base, gen.counter, free, omega arith, omega arith, rw free refl)
  | inl taken ↦
      let (m, above, below, free, found) = probe-some base gen h in
      (candidate base m, m + 1, free, omega arith, omega arith, rw taken found)
]

-- Whatever the regex leaves of the key, and however many names are in use: as long as the counter is
-- far enough from 2^64, the generator neither loops for ever nor panics, and the name that it returns
-- is not in use; afterwards it is, and the counter has grown by the number of used names and one at
-- the most.
pub unique_value-Names :
    (safe : Bytes → Text) (key : Bytes) (gen : WriterGenerator)
    → gen.counter + length gen.used + 1 < usize_mod
    → Names gen (unique_value safe key gen)
unfolding unique_value
unique_value-Names safe key gen h = unique_base-Names (base_of (safe key)) gen h

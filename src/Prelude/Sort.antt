-- ===== src/Prelude/Sort.antt =====
-- `slice::sort_by`: the stable sort of the standard library. Insertion of each element in front of
-- those that do not compare less gives the one stable result that a total preorder allows.
use Prim.Native.Nat.{Ordering}
use mathlib.Core.List.{Perm}
use mathlib.Core.List.Perm
use xsv.Prelude.{
  ◌≡◌, refl, ap, ◌∙◌, Bool, true, false, List, [], ◌∷◌, All, filter, Bool-cases, inl, inr,
  if◌then◌else◌, arith,
}

abbrev pub is_gt : Ordering → Bool
is_gt Ordering.gt = true
is_gt _ = false

abbrev pub is_eq : Ordering → Bool
is_eq Ordering.eq = true
is_eq _ = false

module _ {ℓ} {A : Type ℓ} (cmp : A → A → Ordering) where
  unfoldable pub insert_by : A → List A → List A
  insert_by x [] = x ∷ []
  insert_by x (y ∷ ys) =
      let later = y ∷ insert_by x ys in if is_gt (cmp x y) then later else x ∷ y ∷ ys

  unfoldable pub sort_by : List A → List A
  unfolding insert_by
  sort_by [] = []
  sort_by (x ∷ xs) = insert_by x (sort_by xs)

  insert_by-perm : (x : A) (xs : List A) → Perm (insert_by x xs) (x ∷ xs)
  unfolding insert_by
  insert_by-perm x [] = Perm.refl (x ∷ [])
  insert_by-perm x (y ∷ ys) = elim (Bool-cases (is_gt (cmp x y))) [
    | inl gt ↦ rw gt (Perm.trans (Perm.cons y (insert_by-perm x ys)) (Perm.swap x y ys))
    | inr le ↦ rw le (Perm.refl (x ∷ y ∷ ys))
  ]

  insert_by-All : (P : A → Type 0) (x : A) (xs : List A) → P x → All P xs → All P (insert_by x xs)
  unfolding insert_by
  insert_by-All P x [] h k = (h, tt)
  insert_by-All P x (y ∷ ys) h (k, ks) = elim (Bool-cases (is_gt (cmp x y))) [
    | inl gt ↦ rw gt (k, insert_by-All P x ys h ks)
    | inr le ↦ rw le (h, (k, ks))
  ]

  pub sort_by-All : (P : A → Type 0) (xs : List A) → All P xs → All P (sort_by xs)
  unfolding sort_by
  sort_by-All P [] h = tt
  sort_by-All P (x ∷ xs) (h, hs) = insert_by-All P x (sort_by xs) h (sort_by-All P xs hs)

  pub sort_by-perm : (xs : List A) → Perm (sort_by xs) xs
  unfolding sort_by
  sort_by-perm [] = Perm.refl []
  sort_by-perm (x ∷ xs) = Perm.trans (insert_by-perm x (sort_by xs)) (Perm.cons x (sort_by-perm xs))

  -- Elements that do not compare greater than one another keep their order.
  insert_by-stable :
      (q : A → Bool)
      → ((x y : A) → q x ≡ true → q y ≡ true → is_gt (cmp x y) ≡ false)
      → (x : A) (xs : List A) → filter q (insert_by x xs) ≡ filter q (x ∷ xs)
  unfolding insert_by
  insert_by-stable q alike x [] = refl
  insert_by-stable q alike x (y ∷ ys) = ground (arith, alike x y, insert_by-stable q alike x ys)

  pub sort_by-stable :
      (q : A → Bool)
      → ((x y : A) → q x ≡ true → q y ≡ true → is_gt (cmp x y) ≡ false)
      → (xs : List A) → filter q (sort_by xs) ≡ filter q xs
  unfolding sort_by
  sort_by-stable q alike [] = refl
  sort_by-stable q alike (x ∷ xs) =
      insert_by-stable q alike x (sort_by xs) ∙ skip (sort_by xs) xs (sort_by-stable q alike xs)
    where
      skip : (ys zs : List A) → filter q ys ≡ filter q zs → filter q (x ∷ ys) ≡ filter q (x ∷ zs)
      skip ys zs e = elim (Bool-cases (q x)) [
        | inl keep ↦ rw keep (ap (◌∷◌ x) e)
        | inr out ↦ rw out e
      ]

  -- `x` does not compare greater than `y`.
  abbrev pub Before : A → A → Type 0
  Before x y = is_gt (cmp x y) ≡ false

  abbrev pub IsSorted : List A → Type 0
  IsSorted [] = Unit
  IsSorted (x ∷ xs) = All (Before x) xs × IsSorted xs

  -- What a comparison must satisfy for a sort by it to be specified.
  pub record IsPreorder : Type ℓ where
    pub total : (x y : A) → is_gt (cmp x y) ≡ true → Before y x
    pub trans : (x y z : A) → Before x y → Before y z → Before x z

module _ {ℓ} {A : Type ℓ} (cmp : A → A → Ordering) (p : IsPreorder cmp) where
  All-Before :
      (x y : A) (ys : List A) → Before cmp x y → All (Before cmp y) ys → All (Before cmp x) ys
  All-Before x y [] h k = tt
  All-Before x y (z ∷ zs) h (k, ks) = (p.trans x y z h k, All-Before x y zs h ks)

  insert_by-IsSorted : (x : A) (xs : List A) → IsSorted cmp xs → IsSorted cmp (insert_by cmp x xs)
  unfolding insert_by
  insert_by-IsSorted x [] s = (tt, tt)
  insert_by-IsSorted x (y ∷ ys) (b, s) = elim (Bool-cases (is_gt (cmp x y))) [
    | inl gt ↦
        rw gt (insert_by-All cmp (Before cmp y) x ys (p.total x y gt) b, insert_by-IsSorted x ys s)
    | inr le ↦ rw le ((le, All-Before x y ys le b), (b, s))
  ]

  pub sort_by-IsSorted : (xs : List A) → IsSorted cmp (sort_by cmp xs)
  unfolding sort_by
  sort_by-IsSorted [] = tt
  sort_by-IsSorted (x ∷ xs) = insert_by-IsSorted x (sort_by cmp xs) (sort_by-IsSorted xs)

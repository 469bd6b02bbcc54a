-- ===== src/Cmd/Sort/Compare/Laws.antt =====
-- The comparisons are linear orders.
use Prim.Native.Nat.{Ordering, compare}
use xsv.Prelude.{◌≡◌, refl, ap, false, List, [], ◌∷◌, arith}
use xsv.Prelude.Sort.{is_gt, IsPreorder}
use xsv.Cmd.Sort.Compare.{iter_cmp, Int64, pos, negsuc, compare_int}

abbrev pub flip : Ordering → Ordering
flip Ordering.lt = Ordering.gt
flip Ordering.eq = Ordering.eq
flip Ordering.gt = Ordering.lt

-- A comparison that is a linear order: equal elements are the same.
pub record IsLinear {A : Type 0} (cmp : A → A → Ordering) : Type 0 where
  pub cmp_refl : (x : A) → cmp x x ≡ Ordering.eq
  pub cmp_eq : (x y : A) → cmp x y ≡ Ordering.eq → x ≡ y
  pub cmp_flip : (x y : A) → cmp y x ≡ flip (cmp x y)
  pub lt_trans : (x y z : A) → cmp x y ≡ Ordering.lt → cmp y z ≡ Ordering.lt → cmp x z ≡ Ordering.lt

pub compare-IsLinear : IsLinear compare
compare-IsLinear = record {
  cmp_refl = λ x. ground arith;
  cmp_eq = λ x y h. ground arith;
  cmp_flip = λ x y. ground arith;
  lt_trans = λ x y z h k. ground arith;
}

compare_int-flip : (x y : Int64) → compare_int y x ≡ flip (compare_int x y)
unfolding compare_int
compare_int-flip (pos a) (pos b) = ground arith
compare_int-flip (pos a) (negsuc b) = refl
compare_int-flip (negsuc a) (pos b) = refl
compare_int-flip (negsuc a) (negsuc b) = ground arith

compare_int_refl : (x : Int64) → compare_int x x ≡ Ordering.eq
unfolding compare_int
compare_int_refl (pos a) = ground arith
compare_int_refl (negsuc a) = ground arith

compare_int-eq : (x y : Int64) → compare_int x y ≡ Ordering.eq → x ≡ y
unfolding compare_int
compare_int-eq (pos a) (pos b) h = ap pos (ground arith)
compare_int-eq (negsuc a) (negsuc b) h = ap negsuc (ground arith)
compare_int-eq (pos a) (negsuc b) h = cc
compare_int-eq (negsuc a) (pos b) h = cc

compare_int_trans :
    (x y z : Int64)
    → compare_int x y ≡ Ordering.lt
    → compare_int y z ≡ Ordering.lt
    → compare_int x z ≡ Ordering.lt
unfolding compare_int
compare_int_trans (pos a) (pos b) (pos c) h k = ground arith
compare_int_trans (negsuc a) (negsuc b) (negsuc c) h k = ground arith
compare_int_trans (negsuc a) y (pos c) h k = refl
compare_int_trans (pos a) (negsuc b) z h k = cc
compare_int_trans x (pos b) (negsuc c) h k = cc

pub compare_int-IsLinear : IsLinear compare_int
compare_int-IsLinear = record {
  cmp_refl = compare_int_refl;
  cmp_eq = compare_int-eq;
  cmp_flip = compare_int-flip;
  lt_trans = compare_int_trans;
}

module _ {A : Type 0} (cmp : A → A → Ordering) (l : IsLinear cmp) where
  iter_cmp_refl : (a : List A) → iter_cmp cmp a a ≡ Ordering.eq
  unfolding iter_cmp
  iter_cmp_refl [] = refl
  iter_cmp_refl (x ∷ a) = rw (iter_cmp, l.cmp_refl x) (iter_cmp_refl a)

  iter_cmp-flip : (a b : List A) → iter_cmp cmp b a ≡ flip (iter_cmp cmp a b)
  unfolding iter_cmp
  iter_cmp-flip [] [] = refl
  iter_cmp-flip [] (y ∷ b) = refl
  iter_cmp-flip (x ∷ a) [] = refl
  iter_cmp-flip (x ∷ a) (y ∷ b) = ground (arith, l.cmp_flip x y, iter_cmp-flip a b)

  iter_cmp-eq : (a b : List A) → iter_cmp cmp a b ≡ Ordering.eq → a ≡ b
  unfolding iter_cmp
  iter_cmp-eq [] [] h = refl
  iter_cmp-eq [] (y ∷ b) h = cc
  iter_cmp-eq (x ∷ a) [] h = cc
  iter_cmp-eq (x ∷ a) (y ∷ b) h = ground (arith, l.cmp_eq x y, iter_cmp-eq a b)

  iter_cmp_trans :
      (a b c : List A)
      → iter_cmp cmp a b ≡ Ordering.lt
      → iter_cmp cmp b c ≡ Ordering.lt
      → iter_cmp cmp a c ≡ Ordering.lt
  unfolding iter_cmp
  iter_cmp_trans [] [] [] h k = h
  iter_cmp_trans [] (y ∷ b) [] h k = cc
  iter_cmp_trans [] b (z ∷ c) h k = refl
  iter_cmp_trans (x ∷ a) [] c h k = cc
  iter_cmp_trans (x ∷ a) (y ∷ b) [] h k = cc
  iter_cmp_trans (x ∷ a) (y ∷ b) (z ∷ c) h k =
      ground
        (arith, l.cmp_eq x y, l.cmp_eq y z, l.lt_trans x y z, l.cmp_refl x, iter_cmp_trans a b c)

  pub iter_cmp-IsLinear : IsLinear (iter_cmp cmp)
  iter_cmp-IsLinear = record {
    cmp_refl = iter_cmp_refl;
    cmp_eq = iter_cmp-eq;
    cmp_flip = iter_cmp-flip;
    lt_trans = iter_cmp_trans;
  }

  not_gt_trans :
      (x y z : A) → is_gt (cmp x y) ≡ false → is_gt (cmp y z) ≡ false → is_gt (cmp x z) ≡ false
  not_gt_trans x y z h k = ground (arith, l.cmp_eq x y, l.cmp_eq y z, l.lt_trans x y z)

  -- Comparing by a key.
  pub key-IsPreorder : {B : Type 0} (key : B → A) → IsPreorder (λ x y. cmp (key x) (key y))
  key-IsPreorder key = record {
    total = λ x y h. ground (arith, l.cmp_flip (key x) (key y));
    trans = λ x y z h k. not_gt_trans (key x) (key y) (key z) h k;
  }

  pub reverse-IsPreorder : {B : Type 0} (key : B → A) → IsPreorder (λ x y. cmp (key y) (key x))
  reverse-IsPreorder key = record {
    total = λ x y h. ground (arith, l.cmp_flip (key x) (key y));
    trans = λ x y z h k. not_gt_trans (key z) (key y) (key x) k h;
  }

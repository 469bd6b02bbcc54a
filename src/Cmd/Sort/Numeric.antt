-- ===== src/Cmd/Sort/Numeric.antt =====
-- Comparing fields that are integers.
use xsv.Prelude.{◌≡◌, refl, true, List, [], ◌∷◌, some, map, All}
use xsv.Error.{Bytes}
use xsv.Cmd.Sort.Compare.{
  Numerals, Int64, parse_int, int, number, next_num, iter_cmp, iter_cmp_num, compare_num,
  compare_int,
}

-- A field with the value that `parse_int` reads.
abbrev pub IsInteger : Numerals → Bytes × Int64 → Type 0
IsInteger n x = (n.is_utf8 x.0 ≡ true) × (parse_int x.0 ≡ some x.1)

module _ (n : Numerals) where
  number-int : (x : Bytes × Int64) → IsInteger n x → number n x.0 ≡ some (int x.1)
  unfolding number
  number-int x (h, k) = rw (h, k)

  -- On fields that are integers, `--numeric` compares the sequences of their values, the first
  -- difference deciding, and a sequence that ends first comes first.
  pub iter_cmp_num-iter_cmp :
      (a b : List (Bytes × Int64))
      → All (IsInteger n) a
      → All (IsInteger n) b
      → iter_cmp_num n (map (λ x. x.0) a) (map (λ x. x.0) b)
        ≡ iter_cmp compare_int (map (λ x. x.1) a) (map (λ x. x.1) b)
  unfolding iter_cmp_num iter_cmp next_num compare_num
  iter_cmp_num-iter_cmp [] [] h k = refl
  iter_cmp_num-iter_cmp [] (y ∷ b) h (k, ks) = rw (number-int y k)
  iter_cmp_num-iter_cmp (x ∷ a) [] (h, hs) k = rw (number-int x h)
  iter_cmp_num-iter_cmp (x ∷ a) (y ∷ b) (h, hs) (k, ks) =
      rw (number-int x h, number-int y k, iter_cmp_num-iter_cmp a b hs ks)

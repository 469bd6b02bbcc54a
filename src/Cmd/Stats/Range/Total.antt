-- ===== src/Cmd/Stats/Range/Total.antt =====
-- src/cmd/stats.rs: adding a sample to the extremes never panics.
use xsv.Prelude.{◌≡◌, refl, ap, [], ◌∷◌, some}
use xsv.Error.{Bytes}
use xsv.Cmd.Sort.Compare.{Int64}
use xsv.Cmd.Stats.{
  Floats, FieldType, unknown, null, unicode, float, integer, from_sample, merge, float_from_bytes,
}
use xsv.Cmd.Stats.Sums.{ReadsIntegers, from_sample-null, is_integer, is_number, reads_float}
use xsv.Cmd.Stats.Range.{
  Extremes, TypedMinMax, read_int, keep_number, keep_float, keep_integer, minmax_add,
}
use xsv.Cmd.Stats.Range.Reading.{read_int-some}

module _ (n : Floats) (m : Extremes n) where
  keep_number-some :
      (s : TypedMinMax n m) (t : FieldType) (x : Bytes)
      → (t ≡ integer → (i : Int64) × (read_int n x ≡ some i))
      → (t ≡ float → (f : n.Float64) × (float_from_bytes n x ≡ some f))
      → (s' : TypedMinMax n m) × (keep_number n m s t x ≡ some s')
  unfolding keep_number keep_integer keep_float
  keep_number-some s null x i f = (s, refl)
  keep_number-some s unicode x i f = (s, refl)
  keep_number-some s unknown x i f = (s, refl)
  keep_number-some s integer x i f = let (v, e) = i refl in (_, ap (keep_integer n m s) e)
  keep_number-some s float x i f = let (v, e) = f refl in (_, ap (keep_float n m s) e)

  pub minmax_add-some :
      ReadsIntegers n
      → (s : TypedMinMax n m) (t : FieldType) (x : Bytes)
      → (s' : TypedMinMax n m) × (minmax_add n m s (merge t (from_sample n x)) x ≡ some s')
  unfolding minmax_add
  minmax_add-some reads s t [] = (_, refl)
  minmax_add-some reads s t (c ∷ cs) =
      let u = from_sample n (c ∷ cs) in
      let ne = from_sample-null n c cs in
      keep_number-some _ (merge t u) (c ∷ cs) (λ e. read_int-some n c cs (is_integer n t u ne e))
        (λ e. reads_float n reads c cs (is_number n t u ne e))

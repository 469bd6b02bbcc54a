-- ===== src/Util/Condense.antt =====
-- src/util.rs: `condense`, which shortens a field.
use xsv.Prelude.{
  ℕ, ◌≡◌, refl, sym, ◌∙◌, ap, Bool-cases, Option, none, some, [], ◌∷◌, ◌++◌, ◌⊎◌, inl, inr, length,
  take, drop, append_assoc, ◌≤◌, take-append-drop, length-take, ◌<◌, leb, arith, if◌then◌else◌,
}
use xsv.Prelude.Bytes.{as_bytes, encode_char}
use xsv.Error.{Bytes, Text}
use xsv.Unicode.{Unicode}

abbrev pub dots : Bytes
dots = b'.' ∷ b'.' ∷ b'.' ∷ []

-- The two ways to shorten a field: by characters, or by bytes where it is not UTF-8.
unfoldable pub condense_to : Bytes → ℕ → Option Text → Bytes
condense_to val n (some s) = if leb (length s) n then val else as_bytes (take n s ++ dots)
condense_to val n none = if leb (length val) n then val else take n val ++ dots

unfoldable pub condense : Unicode → Bytes → Option ℕ → Bytes
condense u val none = val
condense u val (some n) = condense_to val n (u.from_utf8 val)

as_bytes-append : (s t : Text) → as_bytes (s ++ t) ≡ as_bytes s ++ as_bytes t
unfolding as_bytes
as_bytes-append [] t = refl
as_bytes-append (c ∷ s) t =
    ap (λ r. encode_char c ++ r) (as_bytes-append s t)
    ∙ sym (append_assoc (encode_char c) (as_bytes s) (as_bytes t))

dots_ascii : as_bytes dots ≡ dots
unfolding as_bytes encode_char
dots_ascii = refl

-- The length of a field as `condense` counts it.
abbrev pub measure : Bytes → Option Text → ℕ
measure val (some s) = length s
measure val none = length val

-- `pre` is the start of a field, cut behind `n` characters (or bytes), with something left.
abbrev pub CutAt : ℕ → Bytes → Option Text → Bytes → Type 0
CutAt n val (some s) pre =
    (t : Text) × (rest : Text) × (s ≡ t ++ rest) × (length t ≡ n) × (pre ≡ as_bytes t)
CutAt n val none pre = (rest : Bytes) × (val ≡ pre ++ rest) × (length pre ≡ n)

module _ (u : Unicode) (val : Bytes) (n : ℕ) where
  cut_to :
      (d : Option Text)
      → ((measure val d ≤ n) × (condense_to val n d ≡ val))
        ⊎ ((n < measure val d)
            × (pre : Bytes) × (condense_to val n d ≡ pre ++ dots)
            × CutAt n val d pre)
  unfolding condense_to
  cut_to (some s) = elim (Bool-cases (leb (length s) n)) [
    | inl short ↦ inl (ground arith, rw short refl)
    | inr long ↦ inr (
      ground arith,
      as_bytes (take n s),
      rw long (as_bytes-append (take n s) dots ∙ ap (λ r. as_bytes (take n s) ++ r) dots_ascii),
      (take n s, drop n s, sym (take-append-drop n s), ground (arith, length-take n s), refl),
    )
  ]
  cut_to none = elim (Bool-cases (leb (length val) n)) [
    | inl short ↦ inl (ground arith, rw short refl)
    | inr long ↦ inr (
      ground arith,
      take n val,
      rw long refl,
      (drop n val, sym (take-append-drop n val), ground (arith, length-take n val)),
    )
  ]

  -- A field that has at most `n` characters (or bytes, if it is not UTF-8) is left as it is; a longer
  -- one is cut behind its first `n`, never inside a character, and three dots follow.
  pub condense-CutAt :
      ((measure val (u.from_utf8 val) ≤ n) × (condense u val (some n) ≡ val))
      ⊎ ((n < measure val (u.from_utf8 val))
          × (pre : Bytes) × (condense u val (some n) ≡ pre ++ dots)
          × CutAt n val (u.from_utf8 val) pre)
  unfolding condense
  condense-CutAt = cut_to (u.from_utf8 val)

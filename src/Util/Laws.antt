-- ===== src/Util/Laws.antt =====
-- What ranges and chunks promise their callers.
use xsv.Prelude.{
  ℕ, zero, suc, ==→eq, ltb→ge, ◌+◌, ◌-◌, ◌*◌, ◌/◌, ◌%◌, ◌<◌, ◌≤◌, ◌≡◌, refl, none, some, ◌==◌, ltb,
  Bool-cases, inl, inr, arith,
}
use native.Mathlib.Nat.{div-add-mod', mod-lt, mul-le-mul_right, zero-mod, zero-div}
use xsv.Prelude.Results.{ok}
use xsv.Select.Number.{usize_mod}
use xsv.Util.{wrapping_add, wrapping_sub, range, chunk_size, num_of_chunks}

-- With `--len`, and with `--index`, the number of records between the two ends of the range is the
-- length asked for (one for `--index`), even where the end wraps around 2^64.
pub range-len :
    (s l : ℕ)
    → s < usize_mod
    → l < usize_mod
    → (e : ℕ) × (range (some s) none (some l) none ≡ ok (s, e)) × (wrapping_sub e s ≡ l)
unfolding range
range-len s l h k = (wrapping_add s l, refl, omega arith)

pub chunk_size-pos : (nitems njobs : ℕ) → 0 < nitems → 0 < njobs → 0 < chunk_size nitems njobs
unfolding chunk_size
chunk_size-pos nitems njobs h k = elim (Bool-cases (ltb nitems njobs)) [
  | inl few ↦ rw few h
  | inr many ↦
      rw many
        (quotient (nitems / njobs) (div-add-mod' nitems njobs) (mod-lt nitems k) (ltb→ge _ _ many))
]
  where
    quotient :
        (q : ℕ)
        → q * njobs + nitems % njobs ≡ nitems
        → nitems % njobs < njobs
        → njobs ≤ nitems
        → 0 < q
    quotient zero e r n = absurd (omega arith)
    quotient (suc q) e r n = omega arith

-- A quotient, rounded up.
exact_chunks : (q c n : ℕ) → q * c + 0 ≡ n → 0 < n → 0 < c → (n ≤ q * c) × ((q - 1) * c < n)
exact_chunks zero c n e h k = absurd (omega arith)
exact_chunks (suc q) c n e h k =
    let same : suc q - 1 ≡ q = omega arith in rw same (omega arith, omega arith)

partial_chunks :
    (q c r n : ℕ) → q * c + r ≡ n → 0 < r → r < c → (n ≤ (q + 1) * c) × ((q + 1 - 1) * c < n)
partial_chunks q c r n e h k =
    let same : q + 1 - 1 ≡ q = omega arith in rw same (grind arith, omega arith)

-- The chunks cover the items, and the last one starts before their end.
pub num_of_chunks_bounds :
    (n c : ℕ) → 0 < n → 0 < c → (n ≤ num_of_chunks n c * c) × ((num_of_chunks n c - 1) * c < n)
unfolding num_of_chunks
num_of_chunks_bounds n c h k = elim (Bool-cases (c == 0)) [
  | inl none_left ↦ absurd (ground arith)
  | inr some_left ↦ elim (Bool-cases (n % c == 0)) [
    | inl exact ↦
        let e : n % c ≡ 0 = ==→eq (n % c) 0 exact in
        rw (some_left, exact) (exact_chunks (n / c) c n (rw e at (div-add-mod' n c)) h k)
    | inr more ↦
        rw (some_left, more)
          (partial_chunks (n / c) c (n % c) n (div-add-mod' n c) (ground arith) (mod-lt n k))
  ]
]

pub num_of_chunks-zero : (c : ℕ) → num_of_chunks 0 c ≡ 0
unfolding num_of_chunks
num_of_chunks-zero zero = refl
num_of_chunks-zero (suc c) = ground (arith, zero-mod (suc c), zero-div (suc c))

starts_before : (c m j n : ℕ) → (m - 1) * c < n → j < m → j * c < n
starts_before c m j n b l =
    let before : j ≤ m - 1 = omega arith in omega (arith, mul-le-mul_right c before)

-- Every chunk starts at an item.
pub chunk_start-lt : (n c j : ℕ) → 0 < c → j < num_of_chunks n c → j * c < n
chunk_start-lt zero c j pos l = absurd (omega (arith, l, num_of_chunks-zero c))
chunk_start-lt (suc n) c j pos l =
    starts_before c (num_of_chunks (suc n) c) j (suc n)
      (num_of_chunks_bounds (suc n) c (omega arith) pos).1 l

-- The chunks of a parallel command cover all the items and none of them is empty: each has a
-- positive size, together they reach the last item, and the last one starts before it.
pub num_of_chunks-chunk_size :
    (nitems njobs : ℕ)
    → 0 < nitems
    → 0 < njobs
    → (0 < chunk_size nitems njobs)
      × (nitems ≤ num_of_chunks nitems (chunk_size nitems njobs) * chunk_size nitems njobs)
      × ((num_of_chunks nitems (chunk_size nitems njobs) - 1) * chunk_size nitems njobs < nitems)
num_of_chunks-chunk_size nitems njobs h k =
    let pos = chunk_size-pos nitems njobs h k in
    let bounds = num_of_chunks_bounds nitems (chunk_size nitems njobs) h pos in
    (pos, bounds.0, bounds.1)

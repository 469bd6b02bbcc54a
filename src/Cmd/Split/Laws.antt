-- ===== src/Cmd/Split/Laws.antt =====
-- The files of a sequential split: the records of the data in order, `flag_size` to a file.
use mathlib.Core.List.{append_assoc}
use native.Mathlib.Nat.{
  mul-add-mod_self_right, mod-eq_of_lt, mod_self, div_self, div-eq_of_lt, add-mod_right,
  add-div_right,
}
use xsv.Prelude.{
  ℕ, suc, ◌+◌, ◌*◌, ◌%◌, ◌≡◌, ◌<◌, ◌≤◌, refl, sym, ap, ◌∙◌, ◌⊎◌, not, Bool, true, false, List, [],
  ◌∷◌, ◌++◌, length, length-append, take, take_all, take-nil, drop-nil, max, take-append,
  drop-append, drop, drop-drop, append-nil, ◌==◌, ==→eq, ==→ne, if◌then◌else◌, Bool-cases, inl, inr,
  arith,
}
use xsv.Prelude.Results.{Result, ok}
use xsv.Error.{ByteRecord}
use xsv.Csv.{Rows, Sink, Stop, pure, write_record, flush}
use xsv.Csv.Laws.{Accepts, all_ok, write_record-Accepts, flush-Accepts}
use xsv.Util.{num_of_chunks}
use xsv.Cmd.Split.{
  Args, Chunk, Files, split_rows, is_boundary, new_writer, write_headers, in_current, workers,
}

abbrev pub header_rows : Args → ByteRecord → List ByteRecord
header_rows a headers = if a.no_headers then [] else headers ∷ []

-- File number `k`: it is named by its first record and holds the headers and its share of records.
abbrev pub expected : Args → ByteRecord → List ByteRecord → ℕ → Chunk
expected a headers rows k = record {
  start = k * a.flag_size;
  written = header_rows a headers ++ take a.flag_size (drop (k * a.flag_size) rows);
}

-- A record number falls on a boundary when the open file is full.
is_boundary-full :
    (a : Args) (q l : ℕ)
    → 0 < a.flag_size
    → l ≤ a.flag_size
    → 0 < l
    → is_boundary a (q * a.flag_size + l) ≡ (l == a.flag_size)
unfolding is_boundary
is_boundary-full a q l h k m = elim (Bool-cases (l == a.flag_size)) [
  | inl full ↦
      let e : l ≡ a.flag_size = ==→eq l a.flag_size full in
      let z : (q * a.flag_size + l) % a.flag_size ≡ 0 =
        mul-add-mod_self_right q a.flag_size l
        ∙ ap (λ t. t % a.flag_size) e
        ∙ mod_self a.flag_size in
      ground (arith, z)
  | inr room ↦
      let z : (q * a.flag_size + l) % a.flag_size ≡ l =
        mul-add-mod_self_right q a.flag_size l ∙ mod-eq_of_lt (ground arith) in
      ground (arith, z)
]

-- A full file more is a chunk more.
num_of_chunks-add : (n c : ℕ) → 0 < c → num_of_chunks (n + c) c ≡ suc (num_of_chunks n c)
unfolding num_of_chunks
num_of_chunks-add n c h = ground (arith, add-div_right n h, add-mod_right n c)

num_of_chunks_last : (n c : ℕ) → 0 < n → n ≤ c → num_of_chunks n c ≡ 1
unfolding num_of_chunks
num_of_chunks_last n c h k = elim (Bool-cases (n == c)) [
  | inl full ↦
      let e : n ≡ c = ==→eq n c full in
      let pos_c : 0 < c = omega arith in rw e (ground (arith, mod_self c, div_self {n = c} pos_c))
  | inr part ↦
      let small : n < c = ground arith in ground (arith, mod-eq_of_lt small, div-eq_of_lt small)
]

abbrev pub open_chunk : Args → ByteRecord → ℕ → List ByteRecord → Chunk
open_chunk a headers q held = record {
  start = q * a.flag_size;
  written = header_rows a headers ++ held;
}

abbrev pub files : List Chunk → Chunk → Files
files closed current = record { closed = closed; current = current }

module _ (a : Args) (w : Sink) (headers : ByteRecord) (acc : Accepts w) where
  pub write_headers-Accepts :
      (out : List ByteRecord)
      → write_headers a w headers out ≡ (ok tt, out ++ header_rows a headers)
  unfolding write_headers
  write_headers-Accepts out = go a.no_headers
    where
      go :
          (b : Bool)
          → (if not b then write_record w headers else pure tt) out
            ≡ (ok tt, out ++ (if b then [] else headers ∷ []))
      go true = rw append-nil
      go false = write_record-Accepts w acc headers out

  in_current-write :
      (r : ByteRecord) (q : ℕ) (held : List ByteRecord) (closed : List Chunk)
      → in_current (write_record w r) (files closed (open_chunk a headers q held))
        ≡ (ok tt, files closed (open_chunk a headers q (held ++ r ∷ [])))
  in_current-write r q held closed =
      rw (write_record-Accepts w acc r (header_rows a headers ++ held), append_assoc)

  new_writer-open :
      (q : ℕ) (current : Chunk) (closed : List Chunk)
      → new_writer a w headers (q * a.flag_size) (files closed current)
        ≡ (ok tt, files (closed ++ current ∷ []) (open_chunk a headers q []))
  unfolding new_writer
  new_writer-open q current closed = rw (write_headers-Accepts [], append-nil)

  in_current-flush :
      (q : ℕ) (held : List ByteRecord) (closed : List Chunk)
      → in_current (flush w) (files closed (open_chunk a headers q held))
        ≡ (ok tt, files closed (open_chunk a headers q held))
  in_current-flush q held closed = rw (flush-Accepts w acc (header_rows a headers ++ held))

  module _ (rows : List ByteRecord) (pos : 0 < a.flag_size) where
    -- The files that the loop still has to leave, `n` records being left from file `q` on.
    abbrev pub Leaves : List Chunk → ℕ → ℕ → Result Stop (Unit {0}) × Files → Type 0
    Leaves closed q n r =
        (fs : Files) × (r ≡ (ok tt, fs))
        × (fs.closed ++ fs.current ∷ []
            ≡ closed ++ workers (expected a headers rows) q (num_of_chunks n a.flag_size))

    expected-open :
        (q : ℕ) (held rs : List ByteRecord)
        → take a.flag_size (held ++ rs) ≡ held
        → drop (q * a.flag_size) rows ≡ held ++ rs
        → expected a headers rows q ≡ open_chunk a headers q held
    expected-open q held rs t e = ap (λ xs. open_chunk a headers q xs) (ap (take a.flag_size) e ∙ t)

    split_rows-end :
        (q : ℕ) (held : List ByteRecord) (closed : List Chunk) (i : ℕ)
        → 0 < length held
        → length held ≤ a.flag_size
        → drop (q * a.flag_size) rows ≡ held
        → Leaves closed q
            (length held)
            (split_rows a w headers i [] (files closed (open_chunk a headers q held)))
    unfolding split_rows
    split_rows-end q held closed i p k e = (
      files closed (open_chunk a headers q held),
      in_current-flush q held closed,
      rw (num_of_chunks_last (length held) a.flag_size p k) (
          unfold workers in
          rw (
            expected-open q held [] (rw append-nil (take_all a.flag_size held k))
              (rw append-nil e))),
    )

    split_rows-room :
        (r : ByteRecord) (rs : Rows) (held : List ByteRecord) (closed : List Chunk) (q i : ℕ)
        → is_boundary a i ≡ false
        → split_rows a w headers i (ok r ∷ rs) (files closed (open_chunk a headers q held))
          ≡ split_rows a w headers
              (suc i)
              rs
              (files closed (open_chunk a headers q (held ++ r ∷ [])))
    unfolding split_rows
    split_rows-room r rs held closed q i b = rw (b, in_current-write r q held closed)

    split_rows-full :
        (r : ByteRecord) (rs : Rows) (held : List ByteRecord) (closed : List Chunk) (q i : ℕ)
        → is_boundary a i ≡ true
        → i ≡ suc q * a.flag_size
        → split_rows a w headers i (ok r ∷ rs) (files closed (open_chunk a headers q held))
          ≡ split_rows a w headers (suc i) rs (
              files
                (closed ++ open_chunk a headers q held ∷ [])
                (open_chunk a headers (suc q) (r ∷ [])))
    unfolding split_rows
    split_rows-full r rs held closed q i b e = rw (
      b,
      in_current-flush q held closed,
      e,
      new_writer-open (suc q) (open_chunk a headers q held) closed,
      in_current-write r (suc q) [] (closed ++ open_chunk a headers q held ∷ []),
    )

    -- A full file, and those behind it.
    Leaves-cons :
        (closed : List Chunk) (q n m : ℕ) (c : Chunk) (r : Result Stop (Unit {0}) × Files)
        → expected a headers rows q ≡ c
        → m ≡ n + a.flag_size
        → Leaves (closed ++ c ∷ []) (suc q) n r
        → Leaves closed q m r
    Leaves-cons closed q n m c r e k (fs, p, l) = (
      fs,
      p,
      rw (k, num_of_chunks-add n a.flag_size pos)
          (unfold workers in rw e (l ∙ append_assoc closed (c ∷ []) _)),
    )

    next_file :
        (q : ℕ) (held xs : List ByteRecord)
        → length held ≡ a.flag_size
        → drop (q * a.flag_size) rows ≡ held ++ xs
        → drop (suc q * a.flag_size) rows ≡ xs
    next_file q held xs f e =
        let k : suc q * a.flag_size ≡ q * a.flag_size + a.flag_size = omega arith in
        rw (k, ← drop-drop a.flag_size (q * a.flag_size) rows, e, ← f) (drop-append held xs)

    split_rows-files :
        (rs held : List ByteRecord) (closed : List Chunk) (q i : ℕ)
        → 0 < length held
        → length held ≤ a.flag_size
        → drop (q * a.flag_size) rows ≡ held ++ rs
        → i ≡ q * a.flag_size + length held
        → Leaves closed q
            (length (held ++ rs))
            (split_rows a w headers i (all_ok rs) (files closed (open_chunk a headers q held)))
    split_rows-files [] held closed q i p k e j =
        rw append-nil (split_rows-end q held closed i p k (rw append-nil at e))
    split_rows-files (r ∷ rs) held closed q i p k e j =
        split (Bool-cases (length held == a.flag_size))
          (λ h.
            split_rows-files rs (held ++ r ∷ []) closed q (suc i)
              (omega (arith, length-append held (r ∷ [])))
              (omega (arith, length-append held (r ∷ []), ==→ne (length held) a.flag_size h))
              (e ∙ sym (append_assoc held (r ∷ []) rs))
              (omega (arith, length-append held (r ∷ []))))
          (λ h.
            split_rows-files rs (r ∷ []) (closed ++ open_chunk a headers q held ∷ []) (suc q)
              (suc i) (omega arith) (omega arith) (next_file q held (r ∷ rs) (==→eq _ _ h) e)
              (omega (arith, ==→eq (length held) a.flag_size h)))
      where
        boundary : is_boundary a i ≡ (length held == a.flag_size)
        boundary = rw j (is_boundary-full a q (length held) pos k p)

        split :
            ((length held == a.flag_size) ≡ true) ⊎ ((length held == a.flag_size) ≡ false)
            → ((length held == a.flag_size) ≡ false
                → Leaves closed q (length ((held ++ r ∷ []) ++ rs)) (
                    split_rows a w headers
                      (suc i)
                      (all_ok rs)
                      (files closed (open_chunk a headers q (held ++ r ∷ [])))))
            → ((length held == a.flag_size) ≡ true
                → Leaves (closed ++ open_chunk a headers q held ∷ []) (suc q) (length (r ∷ rs)) (
                    split_rows a w headers (suc i) (all_ok rs) (
                      files
                        (closed ++ open_chunk a headers q held ∷ [])
                        (open_chunk a headers (suc q) (r ∷ [])))))
            → Leaves closed q (length (held ++ r ∷ rs)) (
                split_rows a w headers i
                  (ok r ∷ all_ok rs)
                  (files closed (open_chunk a headers q held)))
        split (inl full) room next =
            rw
              (split_rows-full r (all_ok rs) held closed q i (boundary ∙ full)
                (omega (arith, ==→eq (length held) a.flag_size full)))
              (Leaves-cons closed q (length (r ∷ rs)) (length (held ++ r ∷ rs))
                (open_chunk a headers q held) _
                (expected-open q held (r ∷ rs)
                  (rw (← ==→eq (length held) a.flag_size full) (take-append held (r ∷ rs))) e)
                (omega (arith, length-append held (r ∷ rs), ==→eq (length held) a.flag_size full))
                (next full))
        split (inr part) room next =
            rw (split_rows-room r (all_ok rs) held closed q i (boundary ∙ part))
              (rw append_assoc at (room part))

    -- The first round: the open file is the first one, and has no record yet.
    pub split_rows-start :
        (rs : List ByteRecord)
        → rows ≡ rs
        → Leaves [] 0
            (max 1 (length rs))
            (split_rows a w headers 0 (all_ok rs) (files [] (open_chunk a headers 0 [])))
    split_rows-start [] e = (
      files [] (open_chunk a headers 0 []),
      unfold split_rows in in_current-flush 0 [] [],
      rw (num_of_chunks_last 1 a.flag_size (omega arith) pos) (
          unfold workers in
          rw (expected-open 0 [] [] (take-nil a.flag_size) (rw e (drop-nil (0 * a.flag_size))))),
    )
    split_rows-start (r ∷ rs) e =
        let zero_start : 0 * a.flag_size ≡ 0 = omega arith in
        let at_least_one : max 1 (suc (length rs)) ≡ suc (length rs) = omega arith in
        rw (at_least_one, split_rows-room r (all_ok rs) [] [] 0 0 (unfold is_boundary in refl))
          (split_rows-files rs (r ∷ []) [] 0 1 (omega arith) pos (rw zero_start e) (omega arith))

-- ===== src/Cmd/Frequency/Counting.antt =====
-- What the tables of the stats crate count, and what is selected of a record.
use xsv.Prelude.{
  ℕ, zero, suc, ◌+◌, ◌≡◌, ◌≤◌, refl, ap, ◌∙◌, Bool, true, false, List, [], ◌∷◌, some, length,
  get_elem?, set, drop, All, leb, min, ◌==◌, if◌then◌else◌, arith,
}
use xsv.Prelude.Bytes.{bytes_eq}
use xsv.Prelude.Results.{ok}
use xsv.Prelude.Sums.{sum_of}
use xsv.Error.{Bytes, ByteRecord}
use xsv.Csv.{Reader, try_csv, try_text, unwrap}
use xsv.Config.{config_selection}
use xsv.Csv.Laws.{bind-ok}
use xsv.Select.Row.{select, is_set, normal_select, normal_select_from, normal_len}
use xsv.Cmd.Frequency.{Frequencies, Args, sel_headers}

normal_len-drop :
    (s : List Bool) (i : ℕ)
    → normal_len (drop i s) ≡ (if is_set s i then 1 else 0) + normal_len (drop (suc i) s)
unfolding normal_len
normal_len-drop [] zero = refl
normal_len-drop [] (suc i) = refl
normal_len-drop (b ∷ bs) zero = refl
normal_len-drop (b ∷ bs) (suc i) = normal_len-drop bs i

normal_select-length_from :
    (s : List Bool) (i : ℕ) (row : ByteRecord)
    → length (normal_select_from i s row) ≤ normal_len (drop i s)
unfolding normal_select_from
normal_select-length_from s i [] = omega arith
normal_select-length_from s i (f ∷ fields) =
    ground (arith, normal_select-length_from s (suc i) fields, normal_len-drop s i)

pub normal_select-length :
    (s : List Bool) (row : ByteRecord) → length (normal_select s row) ≤ normal_len s
unfolding normal_select
normal_select-length s row = normal_select-length_from s 0 row

abbrev pub IsOrdered : Bool → List (Bytes × ℕ) → Type 0
IsOrdered asc [] = Unit
IsOrdered asc (x ∷ xs) =
    All (λ y. (if asc then leb x.1 y.1 else leb y.1 x.1) ≡ true) xs × IsOrdered asc xs

-- Each value that occurs is listed once, and no other, with how often it occurs: the least frequent
-- first or the most frequent.
abbrev pub IsListing : Bool → (Bytes → ℕ) → List (Bytes × ℕ) → Type 0
IsListing asc times xs =
    All (λ x. x.1 ≡ times x.0) xs
    × ((v : Bytes) → sum_of (λ x. if bytes_eq x.0 v then 1 else 0) xs ≡ min 1 (times v))
    × IsOrdered asc xs

module _ {F : Type 0} (count_of : F → Bytes → ℕ) where
  -- How often the table of column `i` counts a value.
  abbrev pub count_at : List F → ℕ → Bytes → ℕ
  count_at [] i v = 0
  count_at (t ∷ tabs) zero v = count_of t v
  count_at (t ∷ tabs) (suc i) v = count_at tabs i v

  pub count_at-set :
      (tabs : List F) (i j : ℕ) (t t' : F) (v : Bytes) (n : ℕ)
      → get_elem? tabs i ≡ some t
      → count_of t' v ≡ count_of t v + n
      → count_at (set tabs i t') j v ≡ count_at tabs j v + (if i == j then n else 0)
  count_at-set [] i j t t' v n e c = absurd (ground (arith, e))
  count_at-set (s ∷ tabs) zero zero t t' v n e c = ground (arith, e, c)
  count_at-set (s ∷ tabs) zero (suc j) t t' v n e c = ground arith
  count_at-set (s ∷ tabs) (suc i) zero t t' v n e c = ground arith
  count_at-set (s ∷ tabs) (suc i) (suc j) t t' v n e c =
      count_at-set tabs i j t t' v n e c ∙ ground arith

  -- What the stats crate documents of its two listings: they list what a table counts, the most and the
  -- least frequent value first.
  pub record IsListed (fs : Frequencies F) : Type 0 where
    pub most_listed : (t : F) → IsListing false (count_of t) (fs.most_frequent t)
    pub least_listed : (t : F) → IsListing true (count_of t) (fs.least_frequent t)

  -- What the stats crate documents: a new table is empty, adding a value counts it once more, and
  -- merging vectors of the same length adds their counts up.
  pub record IsCounting (fs : Frequencies F) : Type 0 where
    pub counts_none : (v : Bytes) → count_of fs.new v ≡ 0
    pub counts_added :
        (a v : Bytes) (t : F)
        → count_of (fs.add a t) v ≡ count_of t v + (if bytes_eq a v then 1 else 0)
    pub merges :
        (t : List F) (ts : List (List F))
        → All (λ s. length s ≡ length t) ts
        → (m : List F) × (fs.merge_all (t ∷ ts) ≡ some m)
          × (length m ≡ length t)
          × ((i : ℕ) (v : Bytes) → count_at m i v ≡ sum_of (λ s. count_at s i v) (t ∷ ts))

pub sel_headers-select :
    {S : Type 0} (a : Args) (rdr : Reader) (headers names : ByteRecord) (sel : List ℕ) (s : S)
    → rdr.headers ≡ ok headers
    → config_selection a.rconfig headers ≡ ok sel
    → select sel headers ≡ some names
    → sel_headers a.rconfig rdr s ≡ (ok (names, sel), s)
unfolding sel_headers
sel_headers-select a rdr headers names sel s h k j =
    bind-ok (try_csv rdr.headers) _ (ap (λ r. try_csv r s) h)
    ∙ bind-ok (try_text (config_selection a.rconfig headers)) _ (ap (λ r. try_text r s) k)
    ∙ bind-ok (unwrap (select sel headers)) _ (ap (λ o. unwrap o s) j)

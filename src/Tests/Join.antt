-- ===== src/Tests/Join.antt =====
-- Runs and witnesses for src/cmd/join.rs.
use xsv.Prelude.{
  ℕ, zero, suc, ◌≡◌, ◌<◌, refl, true, false, List, [], ◌∷◌, some, get_elem?, drop, ◌==◌, arith,
  if◌then◌else◌,
}
use xsv.Prelude.Results.{ok}
use xsv.Prelude.Bytes.{as_bytes, encode_char}
use xsv.Prelude.Dict.{nat_eq, list_eq, list_beq}
use xsv.Prelude.Literal.{codes}
use xsv.Error.{ByteRecord}
use xsv.Csv.Laws.{all_ok}
use xsv.Unicode.{Unicode, trim, trim_start, trim_end, in_front}
use xsv.Select.Row.{select}
use xsv.Cmd.Join.{IoState, inner_join, outer_join, full_outer_join, cross_join}
use xsv.Cmd.Join.Values.{Seekable, get_row_key, transform, normalized}
use xsv.Cmd.Join.Readable.{IsReadable}
use xsv.Cmd.Join.Hits.{Keyed, HasKeys, rows_of}
use xsv.Cmd.Join.Laws.{
  IsJoinable, all_pairs, inner_join-inner_pairs, outer_join-outer_pairs, cross_join-all_pairs,
}
use xsv.Cmd.Join.Full.{full_outer_join-outer_pairs}
use xsv.Tests.Data.{sink, sink-Accepts}

-- Bytes as characters, a space as the only white space, and no capitals.
abbrev pub ascii : Unicode
ascii = record { from_utf8 = λ b. some b; is_whitespace = λ c. c == b' '; to_lower = λ c. c }

abbrev pub cities : ByteRecord
cities = codes "name" ∷ codes "city" ∷ []

abbrev numbers : ByteRecord
numbers = codes "n" ∷ codes "id" ∷ codes "zip" ∷ []

abbrev pub city_rows : List Keyed
city_rows =
    (codes "b" ∷ [], codes "b" ∷ codes "x" ∷ [])
    ∷ (codes "a" ∷ [], codes "a " ∷ codes "y" ∷ [])
    ∷ (codes "c" ∷ [], codes "c" ∷ codes "z" ∷ [])
    ∷ []

abbrev number_rows : List Keyed
number_rows =
    (codes "a" ∷ [], codes "1" ∷ codes " a" ∷ codes "p" ∷ [])
    ∷ ([] ∷ [], codes "2" ∷ [] ∷ codes "q" ∷ [])
    ∷ (codes "b" ∷ [], codes "3" ∷ codes "b" ∷ codes "r" ∷ [])
    ∷ []

-- A file with its headers in the first ten bytes, and three records from bytes 10, 14 and 18 on.
abbrev landing : ℕ → ℕ
landing p = if p == 10 then 1 else if p == 14 then 2 else if p == 18 then 3 else 0

abbrev pub file : ByteRecord → List ByteRecord → Seekable
file headers rows = record {
  rdr = record { has_headers = true; headers = ok headers; records = all_ok rows };
  positions = 10 ∷ 14 ∷ 18 ∷ [];
  seek_to = λ p. ok (drop (landing p) (all_ok (headers ∷ rows)));
}

file-lands :
    (headers r s t : ByteRecord) (i : ℕ)
    → i < 3
    → (p : ℕ) × (get_elem? (10 ∷ 14 ∷ 18 ∷ []) i ≡ some p)
      × ((file headers (r ∷ s ∷ t ∷ [])).seek_to p ≡ ok (all_ok (drop i (r ∷ s ∷ t ∷ []))))
file-lands headers r s t zero l = (10, refl, refl)
file-lands headers r s t (suc zero) l = (14, refl, refl)
file-lands headers r s t (suc (suc zero)) l = (18, refl, refl)
file-lands headers r s t (suc (suc (suc i))) l = absurd (omega (arith, l))

abbrev file-IsReadable :
    (headers r s t : ByteRecord)
    → IsReadable (file headers (r ∷ s ∷ t ∷ [])) headers (r ∷ s ∷ t ∷ [])
file-IsReadable headers r s t = record {
  headers_are = refl;
  records_are = refl;
  from_start = refl;
  one_each = refl;
  lands = file-lands headers r s t;
}

abbrev state : IoState
state = record {
  rdr1 = file cities (rows_of city_rows);
  sel1 = 0 ∷ [];
  rdr2 = file numbers (rows_of number_rows);
  sel2 = 1 ∷ [];
  no_headers = false;
  casei = false;
  nulls = false;
}

cities-HasKeys : HasKeys ascii false (0 ∷ []) city_rows
unfolding get_row_key select transform normalized trim trim_start trim_end in_front as_bytes
    encode_char
cities-HasKeys = (refl, (refl, (refl, tt)))

numbers-HasKeys : HasKeys ascii false (1 ∷ []) number_rows
unfolding get_row_key select transform normalized trim trim_start trim_end in_front as_bytes
    encode_char
numbers-HasKeys = (refl, (refl, (refl, tt)))

abbrev state-IsJoinable : IsJoinable ascii state cities numbers city_rows number_rows
state-IsJoinable = record {
  reads1 = file-IsReadable cities _ _ _;
  reads2 = file-IsReadable numbers _ _ _;
  keys1 = cities-HasKeys;
  keys2 = numbers-HasKeys;
}

inner_join-inner_pairs_example : inner_join ascii sink state [] ≡ (
  ok tt,
  (codes "b" ∷ codes "x" ∷ codes "3" ∷ codes "b" ∷ codes "r" ∷ [])
      ∷ (codes "a " ∷ codes "y" ∷ codes "1" ∷ codes " a" ∷ codes "p" ∷ [])
      ∷ [],
)
unfolding list_beq
inner_join-inner_pairs_example =
    inner_join-inner_pairs ascii sink sink-Accepts state cities numbers city_rows number_rows []
      state-IsJoinable

outer_join-outer_pairs_example : outer_join ascii sink true state [] ≡ (
  ok tt,
  (codes "a " ∷ codes "y" ∷ codes "1" ∷ codes " a" ∷ codes "p" ∷ [])
      ∷ ([] ∷ [] ∷ codes "2" ∷ [] ∷ codes "q" ∷ [])
      ∷ (codes "b" ∷ codes "x" ∷ codes "3" ∷ codes "b" ∷ codes "r" ∷ [])
      ∷ [],
)
unfolding list_beq
outer_join-outer_pairs_example =
    outer_join-outer_pairs ascii sink sink-Accepts true state cities numbers city_rows number_rows
      [] state-IsJoinable

full_outer_join-outer_pairs_example : full_outer_join ascii sink state [] ≡ (
  ok tt,
  (codes "b" ∷ codes "x" ∷ codes "3" ∷ codes "b" ∷ codes "r" ∷ [])
      ∷ (codes "a " ∷ codes "y" ∷ codes "1" ∷ codes " a" ∷ codes "p" ∷ [])
      ∷ (codes "c" ∷ codes "z" ∷ [] ∷ [] ∷ [] ∷ [])
      ∷ ([] ∷ [] ∷ codes "2" ∷ [] ∷ codes "q" ∷ [])
      ∷ [],
)
unfolding list_beq
full_outer_join-outer_pairs_example =
    full_outer_join-outer_pairs ascii sink sink-Accepts state cities numbers city_rows number_rows
      [] state-IsJoinable

cross_join-all_pairs_example :
    cross_join sink state [] ≡ (ok tt, all_pairs (rows_of city_rows) (rows_of number_rows))
cross_join-all_pairs_example =
    cross_join-all_pairs sink sink-Accepts state cities numbers (rows_of city_rows)
      (rows_of number_rows) [] (file-IsReadable cities _ _ _) (file-IsReadable numbers _ _ _)

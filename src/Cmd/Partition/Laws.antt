-- ===== src/Cmd/Partition/Laws.antt =====
-- Every file holds the records with its key, and no two files have one name.
use mathlib.Core.List.{append_assoc, append_cancel_left, append_cancel_right}
use native.Mathlib.Nat.{mul-le-mul}
use xsv.Prelude.{
  ℕ, suc, ◌+◌, ◌*◌, ◌≡◌, ◌≤◌, ◌<◌, refl, ap, ◌∙◌, Bool, List, [], ◌∷◌, ◌++◌, append-nil, Option,
  none, some, length, length-append, get_elem?, All, arith,
}
use xsv.Prelude.Dict.{nat_eq, list_eq, list_beq, list_beq_iff, mem, IsDistinct}
use xsv.Prelude.Results.{ok}
use xsv.Error.{Text, IoError, Bytes, ByteRecord}
use xsv.Csv.{Reader, Sink, try_csv, try_cli, unwrap}
use xsv.Csv.Laws.{Accepts, all_ok, bind-ok}
use xsv.Select.Number.{usize_mod}
use xsv.Util.{FilenameTemplate, filename}
use xsv.Cmd.Partition.Names.{new_generator}
use xsv.Cmd.Partition.{
  Args, OutFile, State, key_column, key_of, partition_row, partition_rows, sequential_partition,
}
use xsv.Cmd.Partition.Contents.{uniques, IsPartition, heads_of}
use xsv.Cmd.Partition.Row.{partition_row-IsPartition}

-- Each record with its key, from each record with the field that the key is cut from.
abbrev pub keys_of : Option ℕ → List (Bytes × ByteRecord) → List (Bytes × ByteRecord)
keys_of prefix [] = []
keys_of prefix ((c, r) ∷ xs) = (key_of prefix c, r) ∷ keys_of prefix xs

abbrev pub rows_of : List (Bytes × ByteRecord) → List ByteRecord
rows_of [] = []
rows_of ((c, r) ∷ xs) = r ∷ rows_of xs

abbrev pub no_writers : FilenameTemplate → State
no_writers t = record { gen = new_generator t; writers = [] }

no_writers-IsPartition :
    (heads : List ByteRecord) (t : FilenameTemplate) → IsPartition heads t [] (no_writers t)
unfolding new_generator
no_writers-IsPartition heads t = record {
  contents = λ k. refl;
  distinct = tt;
  names = tt;
  template = refl;
  in_use = λ u m. m;
  few = omega arith;
  counted = omega arith;
}

length-keys_of :
    (prefix : Option ℕ) (xs : List (Bytes × ByteRecord)) → length (keys_of prefix xs) ≡ length xs
length-keys_of prefix [] = refl
length-keys_of prefix (x ∷ xs) = ap suc (length-keys_of prefix xs)

length_room :
    (xs ys : List (Bytes × ByteRecord)) (x : Bytes × ByteRecord)
    → length (xs ++ x ∷ ys) * (length (xs ++ x ∷ ys) + 1) < usize_mod
    → (length xs + 1) * (length xs + 2) < usize_mod
length_room xs ys x h =
    let more : length xs + 1 ≤ length (xs ++ x ∷ ys) = omega (arith, length-append xs (x ∷ ys)) in
    let more' : length xs + 2 ≤ length (xs ++ x ∷ ys) + 1 = omega arith in
    omega (arith, mul-le-mul more more')

abbrev pub file_names : List (Bytes × OutFile) → List Text
file_names [] = []
file_names ((k, f) ∷ d) = f.name ∷ file_names d

filename-beq :
    (t : FilenameTemplate) (u v : Text) → list_beq (filename t u) (filename t v) ≡ list_beq u v
unfolding filename
filename-beq t u v = ground (
  arith,
  list_beq_iff u v,
  list_beq_iff (t.prefix ++ (u ++ t.suffix)) (t.prefix ++ (v ++ t.suffix)),
  λ (e : t.prefix ++ (u ++ t.suffix) ≡ t.prefix ++ (v ++ t.suffix)).
      append_cancel_right u v t.suffix (append_cancel_left t.prefix _ _ e),
)

mem-file_names :
    (t : FilenameTemplate) (u : Text) (d : List (Bytes × OutFile))
    → All (λ e. e.1.name ≡ filename t e.1.unique) d
    → mem (filename t u) (file_names d) ≡ mem u (uniques d)
mem-file_names t u [] h = refl
mem-file_names t u ((k, f) ∷ d) (h, hs) = rw (h, filename-beq t u f.unique, mem-file_names t u d hs)

file_names-IsDistinct :
    (t : FilenameTemplate) (d : List (Bytes × OutFile))
    → All (λ e. e.1.name ≡ filename t e.1.unique) d
    → IsDistinct (uniques d)
    → IsDistinct (file_names d)
file_names-IsDistinct t [] h k = tt
file_names-IsDistinct t ((j, f) ∷ d) (h, hs) (n, k) = (
  ap (λ u. mem u (file_names d)) h ∙ mem-file_names t f.unique d hs ∙ n,
  file_names-IsDistinct t d hs k,
)

module _ (safe : Bytes → Text) (create : Text → Option IoError)
    (opens : (name : Text) → create name ≡ none) (w : Sink) (acc : Accepts w)
    (t : FilenameTemplate) where
  partition_rows-IsPartition :
      (prefix : Option ℕ) (no_headers : Bool) (headers : ByteRecord) (key_col : ℕ)
      (xs seen : List (Bytes × ByteRecord)) (s : State)
      → All (λ x. get_elem? x.1 key_col ≡ some x.0) xs
      → (length (seen ++ keys_of prefix xs)) * (length (seen ++ keys_of prefix xs) + 1) < usize_mod
      → IsPartition (heads_of no_headers headers) t seen s
      → (s' : State) × (partition_rows safe create w prefix no_headers headers key_col
            (all_ok (rows_of xs))
            s
          ≡ (ok tt, s'))
        × IsPartition (heads_of no_headers headers) t (seen ++ keys_of prefix xs) s'
  unfolding partition_rows
  partition_rows-IsPartition prefix no_headers headers key_col [] seen s fits room p =
      (s, refl, rw append-nil p)
  partition_rows-IsPartition prefix no_headers headers key_col ((c, r) ∷ xs) seen s (fit, fits) room
        p =
      let key = key_of prefix c in
      let more = length_room seen (keys_of prefix xs) (key, r) room in
      let (s', run, p') =
        partition_row-IsPartition safe create opens w acc no_headers headers t seen key r s p
          more in
      let again : (seen ++ (key, r) ∷ []) ++ keys_of prefix xs
          ≡ seen ++ (key, r) ∷ keys_of prefix xs =
        append_assoc seen ((key, r) ∷ []) (keys_of prefix xs) in
      let (s'', rest, p'') =
        partition_rows-IsPartition prefix no_headers headers key_col xs (seen ++ (key, r) ∷ []) s'
          fits (rw again room) p' in
      (
        s'',
        bind-ok (unwrap (get_elem? r key_col)) _ (ap (λ o. unwrap o s) fit)
            ∙ bind-ok (partition_row safe create w no_headers headers key r) _ run
            ∙ rest,
        rw again at p'',
      )

  -- With a column that resolves, on data that reads without errors and whose records all have the
  -- column, and into files that open and take every record: if their number is so small that it times
  -- its successor is below 2^64, the command ends without a panic; then a key has a file exactly when
  -- a record has the key, the file holds the headers (unless there are none) and, in order, the
  -- records with the key, and no two files have the same name.
  pub sequential_partition-IsPartition :
      (a : Args) (rdr : Reader) (headers : ByteRecord) (key_col : ℕ)
      (xs : List (Bytes × ByteRecord))
      → rdr.headers ≡ ok headers
      → key_column a.rconfig headers ≡ ok key_col
      → rdr.records ≡ all_ok (rows_of xs)
      → All (λ x. get_elem? x.1 key_col ≡ some x.0) xs
      → length xs * (length xs + 1) < usize_mod
      → (s : State) × (sequential_partition safe create w a rdr (no_writers t) ≡ (ok tt, s))
        × IsPartition (heads_of a.rconfig.no_headers headers) t (keys_of a.flag_prefix_length xs) s
        × IsDistinct (file_names s.writers)
  unfolding sequential_partition
  sequential_partition-IsPartition a rdr headers key_col xs h k e fits room =
      let (s, run, p) =
        partition_rows-IsPartition a.flag_prefix_length a.rconfig.no_headers headers key_col xs []
          (no_writers t) fits (rw length-keys_of room) (no_writers-IsPartition _ t) in
      (
        s,
        bind-ok (try_csv rdr.headers) _ (ap (λ r. try_csv r (no_writers t)) h)
            ∙ bind-ok (try_cli (key_column a.rconfig headers)) _
                (ap (λ r. try_cli r (no_writers t)) k)
            ∙ ap
                (λ rs.
                  partition_rows safe create w a.flag_prefix_length a.rconfig.no_headers headers
                    key_col rs (no_writers t))
                e
            ∙ run,
        p,
        file_names-IsDistinct t s.writers p.names p.distinct,
      )

-- ===== src/Util.antt =====
-- src/util.rs: ranges of records, chunks of work, file names and shortened fields.
-- A `usize` is 64 bits wide, and its arithmetic wraps as in a release build.
pub mod Condense
pub mod Directories
pub mod Inputs
pub mod Laws
use Prim.Native.Nat.{compare}
use xsv.Prelude.{
  ℕ, ◌+◌, ◌-◌, ◌/◌, ◌%◌, ◌^◌, Bool, true, false, List, [], ◌∷◌, ◌++◌, Option, none, some, ltb, leb,
  ◌==◌, if◌then◌else◌, length,
}
use xsv.Prelude.Results.{Result, ok, err}
use xsv.Error.{Text, Message, index_with_range, end_with_len, end_before_start, many_stdin}
use xsv.Select.Number.{usize_mod}

-- `a + b` and `a - b` on `usize`.
abbrev pub wrapping_add : ℕ → ℕ → ℕ
wrapping_add a b = (a + b) % usize_mod

abbrev pub wrapping_sub : ℕ → ℕ → ℕ
wrapping_sub a b = (a + usize_mod - b) % usize_mod

abbrev pub usize_max : ℕ
usize_max = usize_mod - 1

abbrev pub unwrap_or : Option ℕ → ℕ → ℕ
unwrap_or none d = d
unwrap_or (some n) d = n

unfoldable pub range : Option ℕ → Option ℕ → Option ℕ → Option ℕ → Result Message (ℕ × ℕ)
range none none none (some i) = ok (i, wrapping_add i 1)
range start end len (some i) = err index_with_range
range start (some e) (some l) none = err end_with_len
range start none none none = ok (unwrap_or start 0, usize_max)
range start (some e) none none =
    if ltb e (unwrap_or start 0)
    then err (end_before_start e (unwrap_or start 0))
    else ok (unwrap_or start 0, e)
range start none (some l) none = ok (unwrap_or start 0, wrapping_add (unwrap_or start 0) l)

unfoldable pub chunk_size : ℕ → ℕ → ℕ
chunk_size nitems njobs = if ltb nitems njobs then nitems else nitems / njobs

unfoldable pub num_of_chunks : ℕ → ℕ → ℕ
num_of_chunks nitems chunk =
    if chunk == 0
    then nitems
    else if nitems % chunk == 0
    then nitems / chunk
    else nitems / chunk + 1

unfoldable pub idx_path : Text → Text
idx_path csv_path = csv_path ++ (b'.' ∷ b'i' ∷ b'd' ∷ b'x' ∷ [])

-- `FilenameTemplate`.
pub record FilenameTemplate : Type 0 where
  pub prefix : Text
  pub suffix : Text

unfoldable pub filename : FilenameTemplate → Text → Text
filename t unique_value = t.prefix ++ (unique_value ++ t.suffix)

-- `raw.split("{}")`: the pieces between the matches, from the left and without overlaps; `piece` is
-- the one being read.
unfoldable pub split_braces : Text → Text → List Text
split_braces piece [] = piece ∷ []
split_braces piece (c ∷ []) = (piece ++ c ∷ []) ∷ []
split_braces piece (c ∷ d ∷ cs) =
    let cut = piece ∷ split_braces [] cs in
    let more = split_braces (piece ++ c ∷ []) (d ∷ cs) in
    elim (c == b'{') [ true ↦ elim (d == b'}') [ true ↦ cut | false ↦ more ] | false ↦ more ]

template_of : List Text → Option FilenameTemplate
template_of (prefix ∷ suffix ∷ []) = some (record { prefix = prefix; suffix = suffix })
template_of _ = none

-- `decode`: exactly two pieces.
unfoldable pub decode_template : Text → Option FilenameTemplate
unfolding split_braces template_of
decode_template raw = template_of (split_braces [] raw)

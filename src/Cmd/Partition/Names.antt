-- ===== src/Cmd/Partition/Names.antt =====
-- src/cmd/partition.rs: `WriterGenerator`, which names the output files. `safe` is what is left of a
-- key by `String::from_utf8_lossy` and by deleting what the regex crate matches with `\W`.
pub mod Fresh
use xsv.Prelude.{
  ℕ, zero, suc, ◌+◌, List, [], ◌∷◌, ◌++◌, Option, none, some, length, ◌==◌, Bool, true, false,
  if◌then◌else◌,
}
use xsv.Prelude.Dict.{nat_eq, list_eq, mem}
use xsv.Error.{Text, Bytes}
use xsv.Select.Syntax.{decimal}
use xsv.Util.{FilenameTemplate, usize_max}

pub record WriterGenerator : Type 0 where
  pub template : FilenameTemplate
  pub counter : ℕ
  pub used : List Text

unfoldable pub new_generator : FilenameTemplate → WriterGenerator
new_generator template = record { template = template; counter = 1; used = [] }

-- `format!("{}_{}", &base, self.counter)`.
unfoldable pub candidate : Text → ℕ → Text
candidate base n = base ++ b'_' ∷ decimal n

unfoldable pub base_of : Text → Text
base_of [] = b'e' ∷ b'm' ∷ b'p' ∷ b't' ∷ b'y' ∷ []
base_of (c ∷ cs) = c ∷ cs

abbrev pub take_name : Text → ℕ → WriterGenerator → Text × WriterGenerator
take_name name counter gen = (name, record gen { counter = counter; used = name ∷ gen.used })

-- The loop, from `counter` on. There is no result where the source panics, or out of fuel.
unfoldable pub probe : ℕ → Text → ℕ → WriterGenerator → Option (Text × WriterGenerator)
probe zero base counter gen = none
probe (suc fuel) base counter gen =
    let rest = probe fuel base (counter + 1) gen in
    if counter == usize_max
    then none
    else if mem (candidate base counter) gen.used
    then rest
    else some (take_name (candidate base counter) (counter + 1) gen)

unfoldable pub unique_base : Text → WriterGenerator → Option (Text × WriterGenerator)
unfolding probe
unique_base base gen =
    let tried = probe (suc (length gen.used)) base gen.counter gen in
    if mem base gen.used then tried else some (take_name base gen.counter gen)

-- `unique_value`, with the generator that it leaves.
unfoldable pub unique_value :
    (Bytes → Text) → Bytes → WriterGenerator → Option (Text × WriterGenerator)
unfolding unique_base base_of
unique_value safe key gen = unique_base (base_of (safe key)) gen

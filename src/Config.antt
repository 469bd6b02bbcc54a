-- ===== src/Config.antt =====
-- src/config.rs: the settings of a reader or writer, and the header row that a command repeats.
-- The csv crate builds readers and writers from these settings.
pub mod Files
pub mod Laws
use xsv.Prelude.{
  ℕ, ◌*◌, ◌^◌, Bool, true, false, not, List, [], ◌∷◌, Option, none, some, length, ltb, ◌==◌,
  if◌then◌else◌,
}
use xsv.Prelude.Results.{Result, ok, err}
use xsv.Prelude.Bytes.{bytes_eq, as_bytes}
use xsv.Error.{Text, ByteRecord, Message, no_select_columns}
use xsv.Select.{SelectColumns}
use xsv.Select.Resolve.{selection}
use xsv.Csv.{Reader, Sink, Output, ◌>>=◌, pure, try_csv, write_record}

pub data Terminator : Type 0 where
  crlf : Terminator
  any : ℕ → Terminator

pub data QuoteStyle : Type 0 where
  always necessary : QuoteStyle

pub record Config : Type 0 where
  pub path : Option Text
  pub idx_path : Option Text
  pub select_columns : Option SelectColumns
  pub delimiter : ℕ
  pub no_headers : Bool
  pub flexible : Bool
  pub terminator : Terminator
  pub quote : ℕ
  pub quote_style : QuoteStyle
  pub double_quote : Bool
  pub escape : ℕ
  pub quoting : Bool

default : Option Text → ℕ → Config
default path delim = record {
  path = path;
  idx_path = none;
  select_columns = none;
  delimiter = delim;
  no_headers = false;
  flexible = false;
  terminator = any b'\n';
  quote = b'"';
  quote_style = necessary;
  double_quote = true;
  escape = b'\\';
  quoting = true;
}

-- `Config::new`; `is_tsv` says of a path whether its extension is `tsv`, as `Path::extension` tells.
module _ (is_tsv : Text → Bool) where
  unfoldable pub new_config : Option Text → Config
  unfolding default
  new_config none = default none b','
  new_config (some s) =
      if bytes_eq s (b'-' ∷ [])
      then default none b','
      else default (some s) (if is_tsv s then b'\t' else b',')

-- The builder methods that take a value of their own.
unfoldable pub with_delimiter : Option ℕ → Config → Config
with_delimiter none c = c
with_delimiter (some d) c = record c { delimiter = d }

-- `toggle` says that the environment variable XSV_TOGGLE_HEADERS is 1.
unfoldable pub with_no_headers : Bool → Bool → Config → Config
with_no_headers toggle set c = record c { no_headers = if toggle then not set else set }

unfoldable pub with_flexible : Bool → Config → Config
with_flexible set c = record c { flexible = set }

unfoldable pub with_crlf : Bool → Config → Config
with_crlf set c = record c { terminator = if set then crlf else any b'\n' }

unfoldable pub with_terminator : Terminator → Config → Config
with_terminator term c = record c { terminator = term }

unfoldable pub with_quote : ℕ → Config → Config
with_quote q c = record c { quote = q }

unfoldable pub with_quote_style : QuoteStyle → Config → Config
with_quote_style style c = record c { quote_style = style }

unfoldable pub with_double_quote : Bool → Config → Config
with_double_quote set c = record c { double_quote = set }

unfoldable pub with_escape : ℕ → Config → Config
with_escape e c = record c { escape = e }

unfoldable pub with_quoting : Bool → Config → Config
with_quoting set c = record c { quoting = set }

unfoldable pub with_select : SelectColumns → Config → Config
with_select sel c = record c { select_columns = some sel }

unfoldable pub is_std : Config → Bool
is_std c = elim c.path [ none ↦ true | some p ↦ false ]

unfoldable pub config_selection : Config → ByteRecord → Result Message (List ℕ)
config_selection c first = elim c.select_columns [
  | none ↦ err no_select_columns
  | some sel ↦ selection sel first (not c.no_headers)
]

write_nonempty : Sink → ByteRecord → Output (Unit {0})
write_nonempty w [] = pure tt
write_nonempty w (f ∷ fs) = write_record w (f ∷ fs)

-- `Config::write_headers`: nothing is written where the headers are empty.
unfoldable pub write_headers : Bool → Reader → Sink → Output (Unit {0})
unfolding write_nonempty
write_headers no_headers rdr w =
    if not no_headers then (do r ← try_csv rdr.headers; write_nonempty w r) else pure tt

-- What `from_reader` and `from_writer` hand to the csv crate.
pub record ReaderSettings : Type 0 where
  pub flexible : Bool
  pub delimiter : ℕ
  pub has_headers : Bool
  pub quote : ℕ
  pub quoting : Bool

pub record WriterSettings : Type 0 where
  pub flexible : Bool
  pub delimiter : ℕ
  pub terminator : Terminator
  pub quote : ℕ
  pub quote_style : QuoteStyle
  pub double_quote : Bool
  pub escape : ℕ
  pub buffer_capacity : ℕ

unfoldable pub from_reader : Config → ReaderSettings
from_reader c = record {
  flexible = c.flexible;
  delimiter = c.delimiter;
  has_headers = not c.no_headers;
  quote = c.quote;
  quoting = c.quoting;
}

unfoldable pub from_writer : Config → WriterSettings
from_writer c = record {
  flexible = c.flexible;
  delimiter = c.delimiter;
  terminator = c.terminator;
  quote = c.quote;
  quote_style = c.quote_style;
  double_quote = c.double_quote;
  escape = c.escape;
  buffer_capacity = 32 * 2 ^ 10;
}

-- `Delimiter::decode`: the bytes of the argument are counted, so a character that is not ASCII is
-- refused by the first test.
unfoldable pub decode_delimiter : Text → Result Text ℕ
decode_delimiter s =
    if bytes_eq s (b'\\' ∷ b't' ∷ [])
    then ok b'\t'
    else if length (as_bytes s) == 1
    then of_char s
    else err s
  where
    of_char : Text → Result Text ℕ
    of_char [] = err s
    of_char (c ∷ cs) = if ltb c 0x80 then ok c else err s

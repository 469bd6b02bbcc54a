-- ===== src/Lib.antt =====
-- xsv: a command line program that cuts, orders, joins and counts CSV data.
--
-- The program is a set of commands (src/cmd/*.rs) over a few shared parts: the notation for columns
-- (src/select.rs), the settings of readers and writers (src/config.rs), random access by an index
-- (src/index.rs), and ranges, chunks and names (src/util.rs). A command reads its settings, resolves
-- the columns against the header record, runs a loop over the records and writes records. Several
-- commands have a second body that uses an index, seeks, or runs a worker for each chunk of the
-- data.
--
--   Prelude, Prelude/*   numbers, lists, byte strings, results, the stable sort of the Rust library
--   Error                src/main.rs: CliError and its conversions; messages as data
--   Select, Select/*     src/select.rs: SelectorParser (Select/Parser), OneSelector::index,
--                        Selector::indices and SelectColumns::selection (Select/Resolve), Selection and
--                        NormalSelection (Select/Row)
--   Csv                  the readers and writers of the csv crate, as data, and the effects of a command
--   Unicode              str::trim over what the standard library knows of Unicode
--   Util, Util/*         src/util.rs: range, chunk_size, num_of_chunks, FilenameTemplate, condense
--                        (Util/Condense), many_configs (Util/Inputs), the directories of output files
--                        (Util/Directories)
--   Index                src/index.rs: Indexed::count and Indexed::seek
--   Config               src/config.rs: Config::new, its builder methods, selection, write_headers, and the
--                        settings that the csv crate is handed
--   Config/Files         src/config.rs: the files of a Config, and the index beside the data
--   Main                 src/main.rs: the commands, and how the program ends
--   Cmd/*                src/cmd/*.rs: one file for each command, with its theorems below it
--   Cmd/Stats/*          src/cmd/stats.rs in layers: types and sums (Cmd/Stats), extremes (Range), all the
--                        statistics of a column and its record (Column), the sequential command
--                        (Command), and the command with the chunks of an index (Parallel)
--   Tests/*              runs of the definitions, and the theorems at concrete inputs
--
-- A file that ends in Laws, or that is named for what it shows, holds proofs only. Definitions carry
-- the names of the source's functions. A field is a list of bytes, a text is a list of code points,
-- a record is a list of fields. A `usize` is a natural number below 2^64, and where the source adds
-- or subtracts, the wrapping of a release build is written out.
--
-- What is outside the repository is data or a parameter: what a csv reader yields record by
-- record, errors included (Csv.Reader), which record a writer refuses (Csv.Sink), what a writer of
-- plain bytes refuses (Csv.Plain), which files open and when they were modified, and what the csv
-- crate makes of them under given settings (Config.Files.Platform), what the index file answers
-- (Index.Indexed), where a reader lands that is moved to a byte position
-- (Cmd.Join.Values.Seekable). Index.Describes is what an index made from the same data answers,
-- and Cmd.Join.Readable.IsReadable that a file's positions are those of its records. A HashMap is
-- an association list without repeated keys (Prelude.Dict), since no command reads its order. The
-- stats crate is a parameter, with what it documents as hypotheses: Frequencies (Cmd.Frequency,
-- IsCounting and IsListed in Cmd/Frequency/Counting), MinMax (Cmd/Stats/Range, IsMinMax in
-- Cmd/Stats/Range/Agree), the other summaries (Cmd/Stats/Column) and how they merge
-- (Cmd/Stats/Parallel, IsMerging in Cmd/Stats/Parallel/Rectangular). The order in which the
-- workers of `frequency` and `stats` send is a parameter, any permutation of the chunks; a worker
-- that panics sends nothing. The random numbers of `sample`, the shuffle and the capacity of its
-- vector are parameters. A TabWriter, which aligns columns, is a writer like another. Most
-- commands are modelled from the reader, the index and the writer that they open; slice, fmt,
-- input, table, headers, flatten and index also open them, through Config.Files, and join through
-- two functions that open an input and the output. A command is a function on the records written
-- so far (Csv.Output); it ends with a result, an error, or a panic.
--
-- The loop of the selector parser runs on fuel, one unit for each character of its text, and each
-- round consumes a character. The loop of `cat columns` runs on fuel, one unit for each record of
-- the inputs and one more, and each round but the last takes a record. The loop of `partition` that
-- looks for an unused file name runs on fuel, one unit for each name in use and one more, since
-- among so many candidates one is unused. The other loops follow a list or a count. A 64-bit float
-- is a type given with what the standard library answers for it.
--
-- Not modelled: parsing the command line and running a command by its name (docopt and the table in
-- Command::run), the csv parser and writer themselves, the alignment of a TabWriter, the texts of
-- messages, and the threads in which stats makes the texts of its columns.
pub mod Prelude
pub mod Error
pub mod Select
pub mod Csv
pub mod Unicode
pub mod Util
pub mod Index
pub mod Config
pub mod Cmd
pub mod Main
mod Tests

-- ===== src/Tests.antt =====
-- Runs of the definitions, and the theorems at concrete inputs.
mod Cat
mod Data
mod Directories
mod Files
mod Fixlengths
mod Frequency
mod Join
mod JoinCmd
mod Main
mod Partition
mod Plain
mod Range
mod Sample
mod Search
mod Select
mod SelectCmd
mod Slice
mod Sort
mod Split
mod Stats
mod StatsCmd
mod Util

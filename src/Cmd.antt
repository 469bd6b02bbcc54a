-- ===== src/Cmd.antt =====
-- src/cmd: a module for each command.
pub mod Cat
pub mod Count
pub mod Fixlengths
pub mod Flatten
pub mod Fmt
pub mod Frequency
pub mod Headers
pub mod Index
pub mod Input
pub mod Join
pub mod Partition
pub mod Sample
pub mod Search
pub mod Select
pub mod Slice
pub mod Sort
pub mod Split
pub mod Stats
pub mod Table

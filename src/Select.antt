-- ===== src/Select.antt =====
-- src/select.rs: the data of a column selection.
pub mod Number
pub mod Parser
pub mod Row
pub mod Resolve
pub mod Syntax
use xsv.Prelude.{ℕ, Bool, List}
use xsv.Error.{Text}

pub data OneSelector : Type 0 where
  start end : OneSelector
  index : ℕ → OneSelector
  indexed_name : Text → ℕ → OneSelector

pub data Selector : Type 0 where
  one : OneSelector → Selector
  range : OneSelector → OneSelector → Selector

pub record SelectColumns : Type 0 where
  pub selectors : List Selector
  pub invert : Bool

-- ===== src/Common/Float.antt =====
-- What of Rust's `f64` the code calls, as a parameter: `F` stands for the type.
use karet_worker.Common.Int.{ℤ}
use karet_worker.Common.Text.{Text}
use mathlib.Core.Bool.{Bool}
use mathlib.Core.Option.{Option}

pub record Floats (F : Type 0) : Type 0 where
  pub lt : F → F → Bool
  -- `{:?}` of an `Option<f64>`
  pub debug : Option F → Text
  -- `as i64`, which saturates
  pub as_i64 : F → ℤ
  pub parse : Text → Option F

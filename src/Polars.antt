-- ===== src/Polars.antt =====
-- The part of the Polars library that the pipeline calls, as a parameter: expressions, data frames,
-- lazy frames and columns with the operations on them. An error is its message. `F` stands for `f64`.
use karet_worker.Common.{ℕ, Bool, Option, List}
use karet_worker.Common.Int.{ℤ}
use karet_worker.Common.Result.{Result}
use karet_worker.Common.Text.{Text}

pub data DataType : Type 0 where
  int64 float64 string date datetime_ms : DataType

-- The values of cells which the code tells apart; the others by how they are shown.
pub data AnyValue : Type 0 where
  int8 int16 int32 int64 : ℤ → AnyValue
  uint8 uint16 uint32 uint64 : ℕ → AnyValue
  boolean : Bool → AnyValue
  date : ℤ → AnyValue
  string string_owned : Text → AnyValue
  other : Text → AnyValue

pub record Polars (F : Type 0) : Type 1 where
  pub Expr : Type 0
  pub col : Text → Expr
  pub lit_str : Text → Expr
  pub lit_f64 : F → Expr
  pub lit_bool : Bool → Expr
  pub lit_i64 : ℤ → Expr
  pub lit_null : Expr
  pub thousand : F
  pub plus : Expr → Expr → Expr
  pub minus : Expr → Expr → Expr
  pub times : Expr → Expr → Expr
  pub over : Expr → Expr → Expr
  pub eq : Expr → Expr → Expr
  pub neq : Expr → Expr → Expr
  pub gt : Expr → Expr → Expr
  pub lt : Expr → Expr → Expr
  pub gt_eq : Expr → Expr → Expr
  pub lt_eq : Expr → Expr → Expr
  pub and : Expr → Expr → Expr
  pub or : Expr → Expr → Expr
  pub negate : Expr → Expr
  pub contains_literal : Expr → Expr → Expr
  pub to_uppercase : Expr → Expr
  pub to_lowercase : Expr → Expr
  pub strip_chars : Expr → Expr → Expr
  pub slice : Expr → Expr → Expr → Expr
  pub concat_str : List Expr → Text → Bool → Expr
  pub when_then_otherwise : Expr → Expr → Expr → Expr
  pub coalesce : List Expr → Expr
  pub cast : Expr → DataType → Expr
  pub year : Expr → Expr
  pub month : Expr → Expr
  pub day : Expr → Expr
  -- The format, and whether a text that does not fit is an error.
  pub to_date : Expr → Text → Bool → Expr
  -- A function on each string of a column.
  pub map_strings : Expr → (Text → Option Text) → Expr
  pub alias : Expr → Text → Expr
  pub Column : Type 0
  pub str_column : Text → List (Option Text) → Column
  pub i64_column : Text → List (Option ℤ) → Column
  pub f64_column : Text → List (Option F) → Column
  pub bool_column : Text → List (Option Bool) → Column
  pub null_count : Column → ℕ
  pub get : Column → ℕ → Result AnyValue Text
  -- `cast(Float64)` and `.f64()`.
  pub cast_f64 : Column → Result Column Text
  pub f64s : Column → Result (List (Option F)) Text
  pub Frame : Type 0
  pub new_frame : ℕ → List Column → Result Frame Text
  pub read_csv : Text → Result Frame Text
  pub column_names : Frame → List Text
  pub select_names : Frame → List Text → Result Frame Text
  pub column : Frame → Text → Result Column Text
  pub height : Frame → ℕ
  -- `unique_stable` with the first row kept, and `partition_by_stable` with the keys included.
  pub unique_first : Frame → List Text → Result Frame Text
  pub partition_by_stable : Frame → List Text → Result (List Frame) Text
  pub drop_many : Frame → List Text → Frame
  pub write_parquet : Frame → Result Text Text
  pub LazyFrame : Type 0
  pub lazy : Frame → LazyFrame
  pub select : LazyFrame → List Expr → LazyFrame
  pub filter : LazyFrame → Expr → LazyFrame
  pub collect : LazyFrame → Result Frame Text
  pub concat : List LazyFrame → Result LazyFrame Text

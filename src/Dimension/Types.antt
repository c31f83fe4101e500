-- ===== src/Dimension/Types.antt =====
-- The dimensions of a pipeline's configuration in src/config.rs, and the errors of src/dimension.rs.
use karet_worker.Common.{ℕ, Bool, Option, List, ◌++◌}
use karet_worker.Common.Int.{ℤ}
use karet_worker.Common.Text.{Text, bytes, to_string}

pub data MatchMode : Type 0 where
  exact : MatchMode
  keyword_substring : MatchMode

pub data OnMiss : Type 0 where
  null : OnMiss
  passthrough : OnMiss
  literal : Text → OnMiss

pub record InlineDimensionRow : Type 0 where
  pub patterns : List Text
  pub values : List Text
  pub priority : ℤ

pub data DimensionRows : Type 0 where
  inline : List Text → List InlineDimensionRow → DimensionRows
  file : Text → Text → List Text → Option Text → DimensionRows

pub record Dimension : Type 0 where
  pub id : Text
  pub name : Option Text
  pub match_mode : MatchMode
  pub case_insensitive : Option Bool
  pub on_miss : OnMiss
  pub rows : DimensionRows

abbrev columns_of : DimensionRows → List Text
columns_of (inline values rows) = values
columns_of (file path_prefix key values priority_column) = values

unfoldable pub value_columns : Dimension → List Text
value_columns dim = columns_of dim.rows

pub data DimensionError : Type 0 where
  duplicate_key : Text → Text → DimensionError
  too_many_rows : Text → ℕ → ℕ → DimensionError
  missing_column : Text → Text → DimensionError
  file_read : Text → Text → DimensionError

-- What of Unicode the code calls: case folding, the check of UTF-8 (a message where it fails),
-- and the removal of white space at both ends or at the start.
pub record Unicode : Type 0 where
  pub to_lowercase : Text → Text
  pub utf8_error : Text → Option Text
  pub trim : Text → Text
  pub trim_start : Text → Text

-- The `#[error]` texts.
unfoldable pub display_dimension : DimensionError → Text
display_dimension (duplicate_key id key) =
    bytes "dimension `" ++ (id ++ (bytes "` has duplicate key `" ++ (key ++ bytes "`")))
display_dimension (too_many_rows id rows max) =
    bytes "dimension `"
    ++ (id
        ++ (bytes "` exceeds the "
            ++ (to_string max ++ (bytes "-row cap (" ++ (to_string rows ++ bytes " rows)")))))
display_dimension (missing_column id column) =
    bytes "dimension `" ++ (id ++ (bytes "` file is missing column `" ++ (column ++ bytes "`")))
display_dimension (file_read id message) =
    bytes "dimension `" ++ (id ++ (bytes "` file could not be read: " ++ message))

-- ===== src/Error.antt =====
-- src/error.rs: the errors of the pipeline and their texts.
use karet_worker.Common.{List, ◌++◌}
use karet_worker.Common.Text.{Text, bytes}

pub data EvalError : Type 0 where
  unknown_dimension : Text → EvalError
  unknown_dimension_value : Text → Text → EvalError
  polars : Text → EvalError

pub data PipelineError : Type 0 where
  json_read : Text → Text → PipelineError
  unknown_source_container : Text → PipelineError
  missing_columns : Text → List Text → PipelineError
  eval : Text → EvalError → PipelineError
  polars_error : Text → Text → PipelineError
  no_files_succeeded : PipelineError
  partition : Text → PipelineError
  partition_upload_failed : Text → Text → PipelineError

-- The `#[error]` texts.
unfoldable pub display_eval : EvalError → Text
display_eval (unknown_dimension id) = bytes "unknown dimension `" ++ (id ++ bytes "`")
display_eval (unknown_dimension_value id value) =
    bytes "dimension `" ++ (id ++ (bytes "` has no value column `" ++ (value ++ bytes "`")))
display_eval (polars e) = bytes "polars error: " ++ e

-- `debug` is `{:?}` of a list of strings.
unfoldable pub display : (List Text → Text) → PipelineError → Text
display debug (json_read key message) =
    bytes "JSON read failed for `" ++ (key ++ (bytes "`: " ++ message))
display debug (unknown_source_container key) =
    bytes "unknown source container for key `" ++ (key ++ bytes "`")
display debug (missing_columns key missing) =
    bytes "CSV `" ++ (key ++ (bytes "` missing required columns: " ++ debug missing))
display debug (eval key source) =
    bytes "evaluator error for key `" ++ (key ++ (bytes "`: " ++ display_eval source))
display debug (polars_error key source) =
    bytes "polars error for key `" ++ (key ++ (bytes "`: " ++ source))
display debug no_files_succeeded = bytes "no files succeeded during ingestion"
display debug (partition message) = bytes "partitioning failed: " ++ message
display debug (partition_upload_failed key message) =
    bytes "partition upload failed for key `" ++ (key ++ (bytes "`: " ++ message))

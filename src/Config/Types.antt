-- ===== src/Config/Types.antt =====
-- The types of a configuration in src/config.rs. `F` stands for `f64`.
use karet_worker.Common.{ℕ, Bool, Option, List, [], ◌∷◌, ◌++◌}
use karet_worker.Common.Dict.{Dict}
use karet_worker.Common.Text.{Text, bytes}
use karet_worker.Ast.{AstNode}
use karet_worker.Dimension.Types.{Dimension}

pub record ColumnAssertions (F : Type 0) : Type 0 where
  pub not_null : Option Bool
  pub min : Option F
  pub max : Option F

pub record ColumnSchema (F : Type 0) : Type 0 where
  pub name : Text
  pub path : Option Text
  pub type_name : Text
  pub nullable : Option Bool
  pub assertions : Option (ColumnAssertions F)

pub data SourceFormat : Type 0 where
  csv ndjson : SourceFormat

unfoldable pub extensions : SourceFormat → List Text
extensions csv = bytes ".csv" ∷ []
extensions ndjson = bytes ".json" ∷ bytes ".jsonl" ∷ bytes ".ndjson" ∷ []

pub record SourceContainer (F : Type 0) : Type 0 where
  pub id : Text
  pub name : Text
  pub path_prefix : Text
  pub format : SourceFormat
  pub schema : List (ColumnSchema F)
  pub record_filter : Option (AstNode F)

pub record MappingColumn (F : Type 0) : Type 0 where
  pub name : Text
  pub expr : AstNode F

pub record Mapping (F : Type 0) : Type 0 where
  pub id : Text
  pub name : Text
  pub source_container_id : Text
  pub analytic_table_id : Text
  pub columns : List (MappingColumn F)
  pub predicate : Option (AstNode F)

pub record AnalyticTable (F : Type 0) : Type 0 where
  pub id : Text
  pub name : Text
  pub schema : List (ColumnSchema F)
  pub partition_keys : List Text
  pub dedup_keys : List Text

pub record PipelineConfig (F : Type 0) : Type 0 where
  pub version : ℕ
  pub source_containers : List (SourceContainer F)
  pub dimensions : List Dimension
  pub mappings : List (Mapping F)
  pub analytic_tables : List (AnalyticTable F)
  pub layout : Dict Text (F × F)

pub data ConfigError : Type 0 where
  duplicate_id : Text → Text → Text → ConfigError
  dangling_reference : Text → Text → Text → ConfigError
  schema_error : Text → Text → ConfigError
  missing_field : Text → Text → ConfigError

-- The `#[error]` texts.
unfoldable pub display_config : ConfigError → Text
display_config (duplicate_id path kind id) =
    bytes "duplicate " ++ (kind ++ (bytes " id `" ++ (id ++ (bytes "` at " ++ path))))
display_config (dangling_reference path kind target) =
    bytes "dangling " ++ (kind ++ (bytes " reference to `" ++ (target ++ (bytes "` at " ++ path))))
display_config (schema_error path message) =
    bytes "schema error at " ++ (path ++ (bytes ": " ++ message))
display_config (missing_field path field) =
    bytes "missing field `" ++ (field ++ (bytes "` at " ++ path))

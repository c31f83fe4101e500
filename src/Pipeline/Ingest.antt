-- ===== src/Pipeline/Ingest.antt =====
-- Reading source files, in src/pipeline.rs: from bytes to the frame that a mapping makes of them.
use karet_worker.Common.{
  not, Option, none, some, List, [], ◌∷◌, map, ◌==◌, text_eq, any, find, retain,
}
use karet_worker.Common.Result.{Result, ok, err, ◌>>=◌, map_err}
use karet_worker.Common.Text.{Text, bytes, starts_with}
use karet_worker.Ast.{AstNode}
use karet_worker.Config.Types.{
  ColumnSchema, SourceContainer, SourceFormat, csv, ndjson, MappingColumn, Mapping, PipelineConfig,
}
use karet_worker.Error.{
  PipelineError, json_read, unknown_source_container, missing_columns, eval, polars_error,
  no_files_succeeded,
}
use karet_worker.Evaluator.{Registry, compile}
use karet_worker.JsonSource.{read_json_source}
use karet_worker.Pipeline.{Libraries}

abbrev validated : List Text → Result (Unit {0}) (List Text)
validated [] = ok tt
validated (name ∷ missing) = err (name ∷ missing)

module _ {F : Type 0} where
  -- The columns of the schema that are not among the headers, in the order of the schema.
  unfoldable pub validate_csv_headers :
      List Text → List (ColumnSchema F) → Result (Unit {0}) (List Text)
  validate_csv_headers headers schema = validated (
      map (λ c. c.name)
        (retain (λ (c : ColumnSchema F). not (any (λ h. h == c.name) headers)) schema))

  abbrev ok_or_unknown :
      Text → Option (SourceContainer F) → Result (SourceContainer F) PipelineError
  ok_or_unknown key (some sc) = ok sc
  ok_or_unknown key none = err (unknown_source_container key)

  unfoldable pub resolve_source_container :
      Text → PipelineConfig F → Result (SourceContainer F) PipelineError
  resolve_source_container key cfg =
      ok_or_unknown key (find (λ sc. starts_with key sc.path_prefix) cfg.source_containers)

module _ {F : Type 0} (x : Libraries F) where
  abbrev Frame : Type 0
  Frame = x.polars.Frame

  abbrev LazyFrame : Type 0
  LazyFrame = x.polars.LazyFrame

  abbrev Expr : Type 0
  Expr = x.polars.Expr

  unfoldable pub project_schema_columns : Frame → List (ColumnSchema F) → Result Frame Text
  project_schema_columns df schema = x.polars.select_names df (map (λ c. c.name) schema)

  unfoldable pub read_source : Text → Text → Result Frame PipelineError
  read_source key body = map_err (polars_error key) (x.polars.read_csv body)

  abbrev compile_at : Text → Registry → AstNode F → Result Expr PipelineError
  compile_at key matchers e = map_err (eval key) (compile x.polars x.unicode matchers e)

  -- The branch for CSV: the headers are checked before the columns are selected.
  unfoldable pub read_csv_columns : Text → Text → SourceContainer F → Result Frame PipelineError
  read_csv_columns key body sc = do
    df ← read_source key body
    headers ←
        map_err (missing_columns key) (validate_csv_headers (x.polars.column_names df) sc.schema)
    map_err (polars_error key) (project_schema_columns df sc.schema)

  -- The branch for JSON, with the filter on records.
  unfoldable pub read_json_columns :
      Text → Text → SourceContainer F → Registry → Result Frame PipelineError
  read_json_columns key body sc matchers = do
    read ← map_err (json_read key) (read_json_source x.floats x.json x.polars x.unicode body sc)
    elim sc.record_filter [
      | none ↦ ok read.0
      | some filter ↦ do
        expr ← compile_at key matchers filter
        map_err (polars_error key) (x.polars.collect (x.polars.filter (x.polars.lazy read.0) expr))
    ]

  unfoldable pub read_columns :
      Text → Text → SourceContainer F → SourceFormat → Registry → Result Frame PipelineError
  read_columns key body sc csv matchers = read_csv_columns key body sc
  read_columns key body sc ndjson matchers = read_json_columns key body sc matchers

  unfoldable pub compile_columns :
      Text → Registry → List (MappingColumn F) → Result (List Expr) PipelineError
  compile_columns key matchers [] = ok []
  compile_columns key matchers (column ∷ columns) = do
    expr ← compile_at key matchers column.expr
    exprs ← compile_columns key matchers columns
    ok (x.polars.alias expr column.name ∷ exprs)

  -- The filter on output columns.
  abbrev filtered :
      Text → Registry → LazyFrame → Option (AstNode F) → Result LazyFrame PipelineError
  filtered key matchers frame none = ok frame
  filtered key matchers frame (some predicate) = do
    expr ← compile_at key matchers predicate
    ok (x.polars.filter frame expr)

  unfoldable pub ingest_file :
      Text → Text → PipelineConfig F → Mapping F → Registry → Result Frame PipelineError
  ingest_file key body cfg mapping matchers = do
    sc ← resolve_source_container key cfg
    projected ← read_columns key body sc sc.format matchers
    exprs ← compile_columns key matchers mapping.columns
    frame ←
        filtered key matchers (x.polars.select (x.polars.lazy projected) exprs) mapping.predicate
    map_err (polars_error key) (x.polars.collect frame)

  -- A file that fails is passed over.
  unfoldable pub ingest_each :
      List (Text × Text) → PipelineConfig F → Mapping F → Registry → List LazyFrame
  ingest_each [] cfg mapping matchers = []
  ingest_each ((key, body) ∷ files) cfg mapping matchers =
      let frames = ingest_each files cfg mapping matchers in
      elim (ingest_file key body cfg mapping matchers) [
        | ok df ↦ x.polars.lazy df ∷ frames
        | err _ ↦ frames
      ]

  abbrev concat_all : List LazyFrame → Result LazyFrame PipelineError
  concat_all [] = err no_files_succeeded
  concat_all (f ∷ frames) = map_err (polars_error (bytes "<multi>")) (x.polars.concat (f ∷ frames))

  unfoldable pub ingest_many :
      List (Text × Text) → PipelineConfig F → Mapping F → Registry → Result LazyFrame PipelineError
  ingest_many files cfg mapping matchers = concat_all (ingest_each files cfg mapping matchers)

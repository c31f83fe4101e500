-- ===== src/Job/Work.antt =====
-- The work of one mapping, in src/job.rs: what `execute_job` runs on the blocking pool.
use karet_worker.Common.{ℕ, Option, none, some, List, [], ◌∷◌, ◌++◌, map, ◌==◌, text_eq, find}
use karet_worker.Common.Result.{Result, ok, err, ◌>>=◌, map_err}
use karet_worker.Common.Text.{Text, bytes, join}
use karet_worker.Assertions.{AssertionViolation, validate_assertions}
use karet_worker.Config.Types.{Mapping, AnalyticTable, PipelineConfig}
use karet_worker.Error.{PipelineError}
use karet_worker.Evaluator.{Registry}
use karet_worker.Pipeline.{Libraries}
use karet_worker.Pipeline.Ingest.{ingest_many}
use karet_worker.Pipeline.Partitions.{PartitionOutput, dedup_rows, produce_partitions}
use karet_worker.Assertions
use karet_worker.Error

-- `{what} {mapping_id}: {e}`
unfoldable pub failed : Text → Text → Text → Text
failed what mapping_id e = what ++ (bytes " " ++ (mapping_id ++ (bytes ": " ++ e)))

module _ {F : Type 0} (x : Libraries F) where
  abbrev shown : {A : Type 0} → Text → Text → Result A PipelineError → Result A Text
  shown what mapping_id r = map_err (λ e. failed what mapping_id (Error.display x.debug e)) r

  abbrev found_table : Text → Option (AnalyticTable F) → Result (AnalyticTable F) Text
  found_table table_id none = err (bytes "table " ++ (table_id ++ bytes " not found"))
  found_table table_id (some table) = ok table

  -- Violations fail the mapping.
  abbrev asserted : Text → List AssertionViolation → Result (Unit {0}) Text
  asserted mapping_id [] = ok tt
  asserted mapping_id (v ∷ vs) = err (
      join (bytes "; ")
        (map (λ v. failed (bytes "assertion") mapping_id (Assertions.display v)) (v ∷ vs)))

  unfoldable pub map_files :
      PipelineConfig F
      → Mapping F
      → Registry
      → List (Text × Text)
      → Result (List PartitionOutput × ℕ) Text
  map_files cfg mapping matchers files = do
    lf ← shown (bytes "ingest") mapping.id (ingest_many x files cfg mapping matchers)
    df ← map_err (failed (bytes "collect") mapping.id) (x.polars.collect lf)
    table ←
        found_table mapping.analytic_table_id
          (find (λ t. t.id == mapping.analytic_table_id) cfg.analytic_tables)
    passed ← asserted mapping.id (validate_assertions x.floats x.polars df table)
    deduped ← shown (bytes "dedup") mapping.id (dedup_rows x df table)
    parts ← shown (bytes "partition") mapping.id (produce_partitions x deduped.0 mapping table)
    ok (parts, deduped.1)

  abbrev found_mapping : Option (Mapping F) → Result (Mapping F) Text
  found_mapping none = err (bytes "mapping exists; cloned from same config")
  found_mapping (some mapping) = ok mapping

  -- The task finds its mapping by the id. The outer error is a panic.
  unfoldable pub mapping_task :
      PipelineConfig F
      → Text
      → Registry
      → List (Text × Text)
      → Result (Result (List PartitionOutput × ℕ) Text) Text
  mapping_task cfg mapping_id matchers files = do
    mapping ← found_mapping (find (λ m. m.id == mapping_id) cfg.mappings)
    ok (map_files cfg mapping matchers files)

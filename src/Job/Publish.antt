-- ===== src/Job/Publish.antt =====
-- The end of `execute_job` of src/job.rs: publishing each table that got new output.
use karet_worker.Common.{ℕ, true, false, none, List, [], ◌∷◌, ◌++◌, text_eq}
use karet_worker.Common.Int.{ℤ}
use karet_worker.Common.Result.{Result, ok, err}
use karet_worker.Common.Text.{Text, bytes}
use karet_worker.Config.Types.{PipelineConfig}
use karet_worker.Job.Outcome.{ingesting, JobOutcome}
use karet_worker.Job.World.{Run, ◌>>=◌, ◌>>◌, pure, on_warehouse, update}
use karet_worker.Job.Sources.{TablePublish, Publishes}
use karet_worker.Job.Mappings.{Totals}
use karet_worker.Manifest.Files.{TableManifest}
use karet_worker.Manifest.Bucket.{Codec, publish}
use karet_worker.Manifest.Vacuum.{vacuum}

abbrev pub manifest_of_publish : Text → TablePublish → TableManifest
manifest_of_publish created_at p = record {
  version = p.version;
  created_at = created_at;
  job_id = none;
  files = p.files;
}

abbrev pub clock_of : Run Text
clock_of w = (w.clock, w)

module _ (c : Codec) where
  -- A table with new output is published and then vacuumed; a failing vacuum is only logged.
  unfoldable pub publish_table : Text → TablePublish → List Text → Run (List Text)
  publish_table table_id p errors = elim p.touched [
    | false ↦ pure errors
    | true ↦ do
      now ← clock_of
      published ← on_warehouse (publish c p.prefix (manifest_of_publish now p))
      elim published [
        | err e ↦ pure (errors ++ ((bytes "publish " ++ (table_id ++ (bytes ": " ++ e))) ∷ []))
        | ok _ ↦ do vacuumed ← on_warehouse (vacuum c p.prefix p.version); pure errors
      ]
  ]

  unfoldable pub publish_all : Publishes → List Text → Run (List Text)
  publish_all [] errors = pure errors
  publish_all ((table_id, p) ∷ publishes) errors = do
    errors' ← publish_table table_id p errors
    publish_all publishes errors'

-- What the run is given besides the libraries: the codec of manifests, the text of a number, the
-- parser of configs, and the order in which the map of the tables is walked at the end.
pub record Settings (F : Type 0) : Type 0 where
  pub codec : Codec
  pub version_text : ℤ → Text
  pub parse : Text → Result (PipelineConfig F) Text
  pub order : Publishes → Publishes

abbrev pub outcome_of : ℕ → Totals → List Text → JobOutcome
outcome_of files_processed t errors = record {
  partitions_written = t.partitions;
  files_processed = files_processed;
  rows_deduped = t.deduped;
  errors = errors;
}

module _ {F : Type 0} (s : Settings F) where
  unfoldable pub finish_run : ℕ → ℕ → Totals → Run JobOutcome
  finish_run files_processed mappings_total t = do
    errors ← publish_all s.codec (s.order t.publishes) t.errors
    update (ingesting mappings_total mappings_total t.partitions)
    pure (outcome_of files_processed t errors)

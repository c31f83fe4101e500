-- ===== src/Job/Mappings.antt =====
-- The loop over the mappings in `execute_job` of src/job.rs, and the upload of their partitions.
pub mod Keeps
pub mod Upload
pub mod Contained
use karet_worker.Common.{
  ℕ, suc, ◌+◌, Bool, true, false, Option, none, some, List, [], ◌∷◌, ◌++◌, map, ◌==◌, text_eq,
  length, find, retain,
}
use karet_worker.Common.Dict.{Dict, lookup, insert}
use karet_worker.Common.Result.{Result, ok, err}
use karet_worker.Common.Text.{Text, bytes, split_once, starts_with}
use karet_worker.Config.Types.{SourceContainer, Mapping, PipelineConfig}
use karet_worker.Evaluator.{Registry}
use karet_worker.Job.Outcome.{ingesting, JobError, cancelled}
use karet_worker.Job.World.{Run, ◌>>=◌, ◌>>◌, pure, on_warehouse, is_cancelled, join_task, update}
use karet_worker.Job.Work.{failed, mapping_task}
use karet_worker.Job.Sources.{TablePublish, Publishes}
use karet_worker.Manifest.Files.{ManifestFile, version_prefix, apply_mapping_writes}
use karet_worker.Manifest.Bucket.{put_object}
use karet_worker.Pipeline.{Libraries}
use karet_worker.Pipeline.Partitions.{PartitionOutput}

-- What has been done so far.
pub record Totals : Type 0 where
  pub publishes : Publishes
  pub partitions : ℕ
  pub deduped : ℕ
  pub errors : List Text

abbrev pub with_error : Text → Totals → Totals
with_error e t = record t { errors = t.errors ++ (e ∷ []) }

abbrev pub written_file : Text → Text → PartitionOutput → ManifestFile
written_file relative mapping_id p = record {
  key = relative;
  mapping_id = mapping_id;
  bytes = length p.bytes;
}

abbrev pub file_first :
    ManifestFile → Result (List ManifestFile) Text → Result (List ManifestFile) Text
file_first f (ok files) = ok (f ∷ files)
file_first f (err e) = err e

module _ (prefix : Text) (version : ℕ) (mapping_id : Text) where
  -- Behind a put: the remaining uploads `more`.
  unfoldable pub after_put :
      Text
      → ManifestFile
      → Run (Result (List ManifestFile) Text)
      → Result (Unit {0}) Text
      → Run (Result (List ManifestFile) Text)
  after_put key f more (err e) =
      pure (err (bytes "S3 PutObject failed for " ++ (key ++ (bytes ": " ++ e))))
  after_put key f more (ok _) = do files ← more; pure (file_first f files)

  abbrev pub full_key : Text → Text → Text
  full_key table_id rest = prefix ++ (table_id ++ (bytes "/" ++ (version_prefix version ++ rest)))

  -- The version stands behind the table in the key of the object.
  unfoldable pub put_partition :
      PartitionOutput
      → Run (Result (List ManifestFile) Text)
      → Option (Text × Text)
      → Run (Result (List ManifestFile) Text)
  put_partition p more none =
      pure (err (bytes "partition key " ++ (p.key ++ bytes " has no table segment")))
  put_partition p more (some (table_id, rest)) = do
    sent ← on_warehouse (put_object (full_key table_id rest) p.bytes)
    after_put (full_key table_id rest) (written_file (version_prefix version ++ rest) mapping_id p)
        more sent

  unfoldable pub upload_partitions_async :
      List PartitionOutput → Run (Result (List ManifestFile) Text)
  upload_partitions_async [] = pure (ok [])
  upload_partitions_async (p ∷ partitions) =
      put_partition p (upload_partitions_async partitions) (split_once p.key b'/')

module _ {F : Type 0} (x : Libraries F) (prefix : Text) (cfg : PipelineConfig F)
    (matchers : Registry) where
  abbrev pub publish_written : Text → Text → TablePublish → List ManifestFile → Totals → Totals
  publish_written table_id mapping_id publish written t = record t {
    publishes =
        insert table_id
          (record publish {
            files = apply_mapping_writes publish.files mapping_id written;
            touched = true;
          })
          t.publishes;
    partitions = t.partitions + length written;
  }

  abbrev pub after_upload :
      Mapping F → TablePublish → Totals → Result (List ManifestFile) Text → Totals
  after_upload mapping publish t (ok written) =
      publish_written mapping.analytic_table_id mapping.id publish written t
  after_upload mapping publish t (err e) = with_error (failed (bytes "upload") mapping.id e) t

  abbrev pub undeclared : Mapping F → Totals → Totals
  undeclared mapping t =
      with_error
        (failed (bytes "mapping") mapping.id
          (bytes "table " ++ (mapping.analytic_table_id ++ bytes " not declared")))
        t

  unfoldable pub upload_mapping : Mapping F → List PartitionOutput → Totals → Run Totals
  upload_mapping mapping partitions t = elim (lookup mapping.analytic_table_id t.publishes) [
    | none ↦ pure (undeclared mapping t)
    | some publish ↦ do
      sent ← upload_partitions_async prefix publish.version mapping.id partitions
      pure (after_upload mapping publish t sent)
  ]

  unfoldable pub settle_task :
      Mapping F → Result (Result (List PartitionOutput × ℕ) Text) Text → Totals → Run Totals
  settle_task mapping (err join_err) t =
      pure
        (with_error (bytes "mapping " ++ (mapping.id ++ (bytes " task panicked: " ++ join_err))) t)
  settle_task mapping (ok (err msg)) t = pure (with_error msg t)
  settle_task mapping (ok (ok (partitions, dropped))) t =
      upload_mapping mapping partitions (record t { deduped = t.deduped + dropped })

  -- A mapping of an unknown source, or without files, is passed over.
  unfoldable pub run_mapping : List (Text × Text) → Mapping F → Totals → Run Totals
  run_mapping all_files mapping t =
      elim (find (λ s. s.id == mapping.source_container_id) cfg.source_containers) [
        | none ↦ pure t
        | some sc ↦ elim (retain (λ (f : Text × Text). starts_with f.0 sc.path_prefix) all_files) [
          | [] ↦ pure t
          | f ∷ files ↦ do
            result ← join_task (mapping_task x cfg mapping.id matchers (f ∷ files))
            settle_task mapping result t
        ]
      ]

  -- The flag is read before each mapping.
  unfoldable pub run_mappings :
      ℕ → ℕ → List (Text × Text) → List (Mapping F) → Totals → Run (Result Totals JobError)
  run_mappings total i all_files [] t = pure (ok t)
  run_mappings total i all_files (mapping ∷ mappings) t = do
    stop ← is_cancelled
    elim stop [
      | true ↦ pure (err cancelled)
      | false ↦ do
        update (ingesting i total t.partitions)
        t' ← run_mapping all_files mapping t
        run_mappings total (suc i) all_files mappings t'
    ]

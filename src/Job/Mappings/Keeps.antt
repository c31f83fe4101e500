-- ===== src/Job/Mappings/Keeps.antt =====
-- Running the mappings in src/job.rs: the objects that the uploads leave alone.
use karet_worker.Common.{
  ℕ, suc, ◌+◌, ◌≡◌, refl, Bool, true, false, Option, none, some, List, [], ◌∷◌, ◌++◌, ◌==◌, nat_eq,
  text_eq, find, retain, arith, Option-cases, inl, inr, Bool-cases,
}
use karet_worker.Common.Dict.{lookup}
use karet_worker.Common.Result.{Result, ok, err}
use karet_worker.Common.Text.{Text, bytes, split_once, starts_with}
use karet_worker.Config.Types.{SourceContainer, Mapping, PipelineConfig}
use karet_worker.Evaluator.{Registry}
use karet_worker.Job.Outcome.{ingesting, JobError, cancelled}
use karet_worker.Job.World.{Run, ◌>>=◌, ◌>>◌, pure, join_task, update}
use karet_worker.Job.Work.{mapping_task}
use karet_worker.Job.Sources.{TablePublish}
use karet_worker.Job.Keeps.{
  RunKeeps, >>-RunKeeps, pure-RunKeeps, >>=-RunKeeps, on_warehouse-RunKeeps, is_cancelled-RunKeeps,
  join_task-RunKeeps, update-RunKeeps,
}
use karet_worker.Job.Mappings.{
  Totals, written_file, file_first, after_put, put_partition, upload_partitions_async, undeclared,
  after_upload, upload_mapping, settle_task, run_mapping, run_mappings,
}
use karet_worker.Manifest.Files.{ManifestFile, version_prefix}
use karet_worker.Manifest.Bucket.Keeps.{put_object-Keeps}
use karet_worker.Pipeline.{Libraries}
use karet_worker.Pipeline.Partitions.{PartitionOutput}
use karet_worker.Pipeline.Segment.Laws.{no_slash}

no_slash-split_once : (s : Text) {a b : Text} → split_once s b'/' ≡ some (a, b) → no_slash a ≡ true
unfolding split_once
no_slash-split_once [] e = absurd (ground (arith, e))
no_slash-split_once (c ∷ s) {a} {b} e = elim (Bool-cases (c == b'/')) [
  | inl slash ↦ ground (arith, slash, e)
  | inr other ↦ elim (Option-cases (split_once s b'/')) [
    | inl missing ↦ absurd (ground (arith, other, missing, e))
    | inr ((a', b'), found) ↦ ground (arith, other, found, e, no_slash-split_once s found)
  ]
]

module _ {K : Text → Type 0} (prefix : Text)
    (free : (table_id rest : Text) (version : ℕ)
      → no_slash table_id ≡ true
      → ¬ K (prefix ++ (table_id ++ (bytes "/" ++ (version_prefix version ++ rest))))) where
  after_put-RunKeeps :
      (version : ℕ) (mapping_id key : Text) (f : ManifestFile)
      (more : Run (Result (List ManifestFile) Text)) (sent : Result (Unit {0}) Text)
      → RunKeeps K more
      → RunKeeps K (after_put prefix version mapping_id key f more sent)
  unfolding after_put
  after_put-RunKeeps version mapping_id key f more (err e) h = pure-RunKeeps _
  after_put-RunKeeps version mapping_id key f more (ok _) h =
      >>=-RunKeeps _ _ h (λ files. pure-RunKeeps (file_first f files))

  put_partition-RunKeeps :
      (version : ℕ) (mapping_id : Text) (p : PartitionOutput)
      (more : Run (Result (List ManifestFile) Text)) (o : Option (Text × Text))
      → split_once p.key b'/' ≡ o
      → RunKeeps K more
      → RunKeeps K (put_partition prefix version mapping_id p more o)
  unfolding put_partition
  put_partition-RunKeeps version mapping_id p more none e h = pure-RunKeeps _
  put_partition-RunKeeps version mapping_id p more (some (table_id, rest)) e h =
      >>=-RunKeeps _ _
        (on_warehouse-RunKeeps _
          (put_object-Keeps _ p.bytes (free table_id rest version (no_slash-split_once p.key e))))
        (λ sent.
          after_put-RunKeeps version mapping_id
            (prefix ++ (table_id ++ (bytes "/" ++ (version_prefix version ++ rest))))
            (written_file (version_prefix version ++ rest) mapping_id p) more sent h)

  upload-RunKeeps :
      (version : ℕ) (mapping_id : Text) (ps : List PartitionOutput)
      → RunKeeps K (upload_partitions_async prefix version mapping_id ps)
  unfolding upload_partitions_async
  upload-RunKeeps version mapping_id [] = pure-RunKeeps _
  upload-RunKeeps version mapping_id (p ∷ ps) =
      put_partition-RunKeeps version mapping_id p _ (split_once p.key b'/') refl
        (upload-RunKeeps version mapping_id ps)

  module _ {F : Type 0} (x : Libraries F) (cfg : PipelineConfig F) (matchers : Registry) where
    upload_mapping-RunKeeps :
        (mapping : Mapping F) (partitions : List PartitionOutput) (t : Totals)
        → RunKeeps K (upload_mapping x prefix cfg matchers mapping partitions t)
    unfolding upload_mapping
    upload_mapping-RunKeeps mapping partitions t =
        by_table (lookup mapping.analytic_table_id t.publishes)
      where
        by_table :
            (o : Option TablePublish)
            → RunKeeps K (elim o as (λ _. Run Totals) [
              | none ↦ pure (undeclared x prefix cfg matchers mapping t)
              | some publish ↦
                  upload_partitions_async prefix publish.version mapping.id partitions
                  >>= (λ sent. pure (after_upload x prefix cfg matchers mapping publish t sent))
            ])
        by_table none = pure-RunKeeps _
        by_table (some publish) =
            >>=-RunKeeps _ _ (upload-RunKeeps publish.version mapping.id partitions)
              λ sent. pure-RunKeeps (after_upload x prefix cfg matchers mapping publish t sent)

    settle_task-RunKeeps :
        (mapping : Mapping F) (r : Result (Result (List PartitionOutput × ℕ) Text) Text)
        (t : Totals)
        → RunKeeps K (settle_task x prefix cfg matchers mapping r t)
    unfolding settle_task
    settle_task-RunKeeps mapping (err e) t = pure-RunKeeps _
    settle_task-RunKeeps mapping (ok (err e)) t = pure-RunKeeps _
    settle_task-RunKeeps mapping (ok (ok (partitions, dropped))) t =
        upload_mapping-RunKeeps mapping partitions (record t { deduped = t.deduped + dropped })

    run_mapping-RunKeeps :
        (all_files : List (Text × Text)) (mapping : Mapping F) (t : Totals)
        → RunKeeps K (run_mapping x prefix cfg matchers all_files mapping t)
    unfolding run_mapping
    run_mapping-RunKeeps all_files mapping t =
        by_source (find (λ s. s.id == mapping.source_container_id) cfg.source_containers)
      where
        by_files :
            (files : List (Text × Text))
            → RunKeeps K (elim files as (λ _. Run Totals) [
              | [] ↦ pure t
              | f ∷ fs ↦
                  join_task (mapping_task x cfg mapping.id matchers (f ∷ fs))
                  >>= (λ result. settle_task x prefix cfg matchers mapping result t)
            ])
        by_files [] = pure-RunKeeps t
        by_files (f ∷ fs) =
            >>=-RunKeeps _ _ (join_task-RunKeeps _)
              (λ result. settle_task-RunKeeps mapping result t)

        by_source :
            (o : Option (SourceContainer F))
            → RunKeeps K (elim o as (λ _. Run Totals) [
              | none ↦ pure t
              | some sc ↦
                  elim (retain (λ (f : Text × Text). starts_with f.0 sc.path_prefix) all_files) [
                    | [] ↦ pure t
                    | f ∷ fs ↦
                        join_task (mapping_task x cfg mapping.id matchers (f ∷ fs))
                        >>= (λ result. settle_task x prefix cfg matchers mapping result t)
                  ]
            ])
        by_source none = pure-RunKeeps t
        by_source (some sc) = by_files _

    pub run_mappings-RunKeeps :
        (total i : ℕ) (all_files : List (Text × Text)) (mappings : List (Mapping F)) (t : Totals)
        → RunKeeps K (run_mappings x prefix cfg matchers total i all_files mappings t)
    unfolding run_mappings
    run_mappings-RunKeeps total i all_files [] t = pure-RunKeeps _
    run_mappings-RunKeeps total i all_files (mapping ∷ mappings) t =
        >>=-RunKeeps _ _ is_cancelled-RunKeeps
          (rest (run_mappings-RunKeeps total (suc i) all_files mappings))
      where
        rest :
            ((t' : Totals)
              → RunKeeps K (run_mappings x prefix cfg matchers total (suc i) all_files mappings t'))
            → (stop : Bool)
            → RunKeeps K (elim stop as (λ _. Run (Result Totals JobError)) [
              | true ↦ pure (err cancelled)
              | false ↦
                  update (ingesting i total t.partitions)
                  >> (run_mapping x prefix cfg matchers all_files mapping t >>= (λ t'.
                      run_mappings x prefix cfg matchers total (suc i) all_files mappings t'))
            ])
        rest ih true = pure-RunKeeps _
        rest ih false =
            >>-RunKeeps _ _ (update-RunKeeps _)
              (>>=-RunKeeps _ _ (run_mapping-RunKeeps all_files mapping t) ih)

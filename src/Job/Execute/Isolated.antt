-- ===== src/Job/Execute/Isolated.antt =====
-- Where in the warehouse `execute_job` of src/job.rs writes.
use mathlib.Core.List.{append_assoc}
use mathlib.Core.Path.{subst}
use karet_worker.Common.{
  ℕ, suc, ◌+◌, ◌≡◌, refl, ap, ◌∙◌, Bool, true, false, Option, none, some, List, [], ◌∷◌, ◌++◌, ◌==◌,
  length, All, arith, text_eq, find, retain, inl, inr, Bool-cases,
}
use karet_worker.Common.Dict.{Dict, lookup, insert}
use karet_worker.Common.Int.{ℤ}
use karet_worker.Common.Result.{Result, ok, err}
use karet_worker.Common.Text.{Text, bytes, starts_with}
use karet_worker.Config.Types.{SourceContainer, AnalyticTable, Mapping, PipelineConfig}
use karet_worker.Evaluator.{Registry}
use karet_worker.Job.Outcome.{JobError, downloading, ingesting, cancelled}
use karet_worker.Job.World.{JobWorld, Run, ◌>>=◌, ◌>>◌, pure, on_warehouse, join_task, update}
use karet_worker.Job.Work.{mapping_task}
use karet_worker.Job.Keeps.{
  RunKeeps, pure-RunKeeps, >>=-RunKeeps, >>-RunKeeps, on_warehouse-RunKeeps, lift-RunKeeps,
  bind-RunKeeps, update-RunKeeps,
}
use karet_worker.Job.Ends.{
  RunGives, TaskEnds, pure-RunGives, fail-TaskEnds, >>=-RunGives, run-TaskEnds, then-TaskEnds,
  bind-TaskEnds, bind-RunKeeps_ends,
}
use karet_worker.Job.Sources.{TablePublish, Publishes, next_publish, read_publishes}
use karet_worker.Job.Sources.Keeps.{
  load_config-RunKeeps, read_publishes-RunKeeps, list_candidates-RunKeeps, download_all-RunKeeps,
  build_registry-RunKeeps,
}
use karet_worker.Job.Mappings.{
  Totals, upload_partitions_async, undeclared, after_upload, upload_mapping, settle_task,
  run_mapping, run_mappings,
}
use karet_worker.Job.Mappings.Keeps.{run_mappings-RunKeeps}
use karet_worker.Job.Publish.{
  Settings, clock_of, outcome_of, manifest_of_publish, publish_table, publish_all, finish_run,
}
use karet_worker.Job.Execute.{nothing_done, execute_job}
use karet_worker.Manifest.Files.{ManifestFile}
use karet_worker.Manifest.Bucket.{Codec, publish}
use karet_worker.Manifest.Vacuum.{vacuum}
use karet_worker.Manifest.Bucket.Keeps.{publish-Keeps}
use karet_worker.Manifest.Vacuum.Safe.{starts_with_append}
use karet_worker.Manifest.Vacuum.Keeps.{vacuum-Keeps}
use karet_worker.Pipeline.{Libraries}
use karet_worker.Pipeline.Partitions.{PartitionOutput}

module _ {V : Type 0} (P : V → Type 0) where
  abbrev pub Entries : Dict Text V → Type 0
  Entries d = All (λ (e : Text × V). P e.1) d

  Entries-insert : (k : Text) (v : V) (d : Dict Text V) → P v → Entries d → Entries (insert k v d)
  unfolding insert
  Entries-insert k v [] h all = (h, tt)
  Entries-insert k v ((j, w) ∷ d) h all = elim (Bool-cases (k == j)) [
    | inl same ↦ rw same (h, all.1)
    | inr other ↦ rw other (all.0, Entries-insert k v d h all.1)
  ]

  Entries-lookup : (k : Text) (d : Dict Text V) {v : V} → Entries d → lookup k d ≡ some v → P v
  unfolding lookup
  Entries-lookup k [] all e = absurd (ground (arith, e))
  Entries-lookup k ((j, w) ∷ d) {v} all e = elim (Bool-cases (k == j)) [
    | inl same ↦ let it : w ≡ v = ground (arith, same, e) in rw (← it) all.0
    | inr other ↦ Entries-lookup k d all.1 (ground (arith, other, e))
  ]

-- The prefix of a table lies below that of the pipeline.
abbrev Below : Text → TablePublish → Type 0
Below prefix p = (t : Text) × (p.prefix ≡ prefix ++ t)

read_publishes-Below :
    {F : Type 0} (c : Codec) (prefix : Text) (clean_run : Bool) (tables : List (AnalyticTable F))
    (publishes : Publishes)
    → Entries (Below prefix) publishes
    → TaskEnds (Entries (Below prefix)) (read_publishes c prefix clean_run tables publishes)
unfolding read_publishes
read_publishes-Below c prefix clean_run [] publishes h = record {
  at = λ w a e. let same : publishes ≡ a = ground (arith, e) in rw (← same) h;
}
read_publishes-Below c prefix clean_run (table ∷ tables) publishes h = bind-TaskEnds _ _ λ current.
    read_publishes-Below c prefix clean_run tables
      (next_publish prefix clean_run table.id current publishes)
      (Entries-insert (Below prefix) table.id _ publishes (table.id ++ bytes "/", refl) h)

module _ {F : Type 0} (x : Libraries F) (prefix : Text) (cfg : PipelineConfig F)
    (matchers : Registry) where
  abbrev AllBelow : Totals → Type 0
  AllBelow t = Entries (Below prefix) t.publishes

  upload_mapping-AllBelow :
      (mapping : Mapping F) (partitions : List PartitionOutput) (t : Totals)
      → AllBelow t
      → RunGives AllBelow (upload_mapping x prefix cfg matchers mapping partitions t)
  unfolding upload_mapping
  upload_mapping-AllBelow mapping partitions t h =
      by_table (lookup mapping.analytic_table_id t.publishes) refl
    where
      after :
          (p : TablePublish) (sent : Result (List ManifestFile) Text)
          → Below prefix p
          → AllBelow (after_upload x prefix cfg matchers mapping p t sent)
      after p (ok written) (s, e) =
          Entries-insert (Below prefix) mapping.analytic_table_id _ t.publishes (s, e) h
      after p (err e) below = h

      by_table :
          (o : Option TablePublish)
          → lookup mapping.analytic_table_id t.publishes ≡ o
          → RunGives AllBelow (elim o as (λ _. Run Totals) [
            | none ↦ pure (undeclared x prefix cfg matchers mapping t)
            | some publish ↦
                upload_partitions_async prefix publish.version mapping.id partitions
                >>= (λ sent. pure (after_upload x prefix cfg matchers mapping publish t sent))
          ])
      by_table none e = pure-RunGives _ h
      by_table (some p) e = >>=-RunGives _ _ λ sent.
          pure-RunGives (after_upload x prefix cfg matchers mapping p t sent)
            (after p sent (Entries-lookup (Below prefix) mapping.analytic_table_id t.publishes h e))

  settle_task-AllBelow :
      (mapping : Mapping F) (r : Result (Result (List PartitionOutput × ℕ) Text) Text) (t : Totals)
      → AllBelow t
      → RunGives AllBelow (settle_task x prefix cfg matchers mapping r t)
  unfolding settle_task
  settle_task-AllBelow mapping (err e) t h = pure-RunGives _ h
  settle_task-AllBelow mapping (ok (err e)) t h = pure-RunGives _ h
  settle_task-AllBelow mapping (ok (ok (partitions, dropped))) t h =
      upload_mapping-AllBelow mapping partitions (record t { deduped = t.deduped + dropped }) h

  run_mapping-AllBelow :
      (all_files : List (Text × Text)) (mapping : Mapping F) (t : Totals)
      → AllBelow t
      → RunGives AllBelow (run_mapping x prefix cfg matchers all_files mapping t)
  unfolding run_mapping
  run_mapping-AllBelow all_files mapping t h =
      by_source (find (λ s. s.id == mapping.source_container_id) cfg.source_containers)
    where
      by_files :
          (files : List (Text × Text))
          → RunGives AllBelow (elim files as (λ _. Run Totals) [
            | [] ↦ pure t
            | f ∷ fs ↦
                join_task (mapping_task x cfg mapping.id matchers (f ∷ fs))
                >>= (λ result. settle_task x prefix cfg matchers mapping result t)
          ])
      by_files [] = pure-RunGives t h
      by_files (f ∷ fs) = >>=-RunGives _ _ (λ result. settle_task-AllBelow mapping result t h)

      by_source :
          (o : Option (SourceContainer F))
          → RunGives AllBelow (elim o as (λ _. Run Totals) [
            | none ↦ pure t
            | some sc ↦
                elim (retain (λ (f : Text × Text). starts_with f.0 sc.path_prefix) all_files) [
                  | [] ↦ pure t
                  | f ∷ fs ↦
                      join_task (mapping_task x cfg mapping.id matchers (f ∷ fs))
                      >>= (λ result. settle_task x prefix cfg matchers mapping result t)
                ]
          ])
      by_source none = pure-RunGives t h
      by_source (some sc) = by_files _

  run_mappings-AllBelow :
      (total i : ℕ) (all_files : List (Text × Text)) (mappings : List (Mapping F)) (t : Totals)
      → AllBelow t
      → TaskEnds AllBelow (run_mappings x prefix cfg matchers total i all_files mappings t)
  unfolding run_mappings
  run_mappings-AllBelow total i all_files [] t h = record {
    at = λ w a e. let same : t ≡ a = ground (arith, e) in rw (← same) h;
  }
  run_mappings-AllBelow total i all_files (mapping ∷ mappings) t h =
      run-TaskEnds {P = λ _. Unit {0}} _ _ (record { at = λ w. tt })
        (rest (run_mappings-AllBelow total (suc i) all_files mappings))
    where
      rest :
          ((t' : Totals)
            → AllBelow t'
            → TaskEnds AllBelow
                (run_mappings x prefix cfg matchers total (suc i) all_files mappings t'))
          → (stop : Bool) → Unit {0}
          → TaskEnds AllBelow (elim stop as (λ _. Run (Result Totals JobError)) [
            | true ↦ pure (err cancelled)
            | false ↦
                update (ingesting i total t.partitions)
                >> (run_mapping x prefix cfg matchers all_files mapping t >>= (λ t'.
                    run_mappings x prefix cfg matchers total (suc i) all_files mappings t'))
          ])
      rest ih true _ = fail-TaskEnds cancelled
      rest ih false _ = then-TaskEnds (update (ingesting i total t.partitions)) _ (
          run-TaskEnds (run_mapping x prefix cfg matchers all_files mapping t)
            (λ t'. run_mappings x prefix cfg matchers total (suc i) all_files mappings t')
            (run_mapping-AllBelow all_files mapping t h) ih)

-- Publishing and vacuuming a table stay below its prefix.
module _ (K : Text → Type 0) (prefix : Text) (free : (k : Text) → ¬ K (prefix ++ k))
    (c : Codec) where
  free-Below : (p : TablePublish) → Below prefix p → (k : Text) → ¬ K (p.prefix ++ k)
  free-Below p (t, e) k h = free (t ++ k) (subst K (ap (λ s. s ++ k) e ∙ append_assoc prefix t k) h)

  publish_table-RunKeeps :
      (table_id : Text) (p : TablePublish) (errors : List Text)
      → Below prefix p
      → RunKeeps K (publish_table c table_id p errors)
  unfolding publish_table
  publish_table-RunKeeps table_id p errors below = by_flag p.touched
    where
      published :
          (created_at : Text) (r : Result (Unit {0}) Text)
          → RunKeeps K (elim r as (λ _. Run (List Text)) [
            | err e ↦ pure (errors ++ ((bytes "publish " ++ (table_id ++ (bytes ": " ++ e))) ∷ []))
            | ok _ ↦ on_warehouse (vacuum c p.prefix p.version) >>= (λ vacuumed. pure errors)
          ])
      published created_at (err e) = pure-RunKeeps _
      published created_at (ok _) =
          >>=-RunKeeps _ _
            (on_warehouse-RunKeeps _ (vacuum-Keeps c p.prefix (free-Below p below) p.version))
            (λ vacuumed. pure-RunKeeps errors)

      by_flag :
          (touched : Bool)
          → RunKeeps K (elim touched as (λ _. Run (List Text)) [
            | false ↦ pure errors
            | true ↦ clock_of >>= (λ now.
                on_warehouse (publish c p.prefix (manifest_of_publish now p)) >>= (λ published.
                  elim published [
                    | err e ↦
                        pure
                          (errors ++ ((bytes "publish " ++ (table_id ++ (bytes ": " ++ e))) ∷ []))
                    | ok _ ↦
                        on_warehouse (vacuum c p.prefix p.version) >>= (λ vacuumed. pure errors)
                  ]))
          ])
      by_flag false = pure-RunKeeps errors
      by_flag true =
          >>=-RunKeeps clock_of _ (record { at = λ w k h. refl })
            λ now.
              >>=-RunKeeps _ _
                (on_warehouse-RunKeeps _
                  (publish-Keeps c p.prefix (manifest_of_publish now p) (free-Below p below)))
                (published now)

  publish_all-RunKeeps :
      (publishes : Publishes) (errors : List Text)
      → Entries (Below prefix) publishes
      → RunKeeps K (publish_all c publishes errors)
  unfolding publish_all
  publish_all-RunKeeps [] errors all = pure-RunKeeps errors
  publish_all-RunKeeps ((table_id, p) ∷ publishes) errors (below, all) =
      >>=-RunKeeps _ _ (publish_table-RunKeeps table_id p errors below)
        (λ errors'. publish_all-RunKeeps publishes errors' all)

module _ {F : Type 0} (x : Libraries F) (s : Settings F) (prefix pipeline : Text)
    (config_version_id : Option ℤ) (clean_run : Bool) where
  finish_run-RunKeeps :
      (K : Text → Type 0) (free : (k : Text) → ¬ K (prefix ++ k)) (files total : ℕ) (t : Totals)
      → Entries (Below prefix) (s.order t.publishes)
      → RunKeeps K (finish_run s files total t)
  unfolding finish_run
  finish_run-RunKeeps K free files total t below =
      >>=-RunKeeps _ _
        (publish_all-RunKeeps K prefix free s.codec (s.order t.publishes) t.errors below)
        λ errors.
          >>-RunKeeps _ _ (update-RunKeeps (ingesting total total t.partitions))
            (pure-RunKeeps (outcome_of files t errors))

  execute_job-RunKeeps :
      (K : Text → Type 0)
      → ((k : Text) → ¬ K (prefix ++ k))
      → ((publishes : Publishes)
          → Entries (Below prefix) publishes
          → Entries (Below prefix) (s.order publishes))
      → RunKeeps K (execute_job x s prefix pipeline config_version_id clean_run)
  unfolding execute_job
  execute_job-RunKeeps K free picks =
      bind-RunKeeps _ _ (load_config-RunKeeps s.version_text s.parse pipeline config_version_id)
        λ cfg.
          bind-RunKeeps_ends _ _
            (read_publishes-RunKeeps s.codec prefix clean_run cfg.analytic_tables [])
            (read_publishes-Below s.codec prefix clean_run cfg.analytic_tables [] tt)
            λ publishes below.
              bind-RunKeeps _ _ (lift-RunKeeps _ (update-RunKeeps (downloading 0 0))) λ _.
                bind-RunKeeps _ _ (list_candidates-RunKeeps cfg.source_containers []) λ candidates.
                  bind-RunKeeps _ _ (download_all-RunKeeps candidates) λ all_files.
                    bind-RunKeeps _ _ (build_registry-RunKeeps x.unicode cfg.dimensions) λ matchers.
                      bind-RunKeeps_ends _ _
                        (run_mappings-RunKeeps prefix (λ t rest version clean. free _) x cfg
                          matchers (length cfg.mappings) 0 all_files cfg.mappings
                          (nothing_done publishes))
                        (run_mappings-AllBelow x prefix cfg matchers (length cfg.mappings) 0
                          all_files cfg.mappings (nothing_done publishes) below)
                        λ totals all_below. lift-RunKeeps _ (
                          finish_run-RunKeeps K free (length all_files) (length cfg.mappings) totals
                            (picks totals.publishes all_below))

  -- Whatever requests fail and however the run ends, it neither writes nor deletes an object of the
  -- warehouse whose key does not begin with the prefix of the pipeline. Condition: the walk over the
  -- tables at the end meets only tables of the map.
  pub execute_job_isolated :
      (k : Text) (w : JobWorld)
      → ((P : TablePublish → Type 0) (publishes : Publishes)
          → Entries P publishes
          → Entries P (s.order publishes))
      → starts_with k prefix ≡ false
      → lookup k (execute_job x s prefix pipeline config_version_id clean_run w).1.warehouse.objects
        ≡ lookup k w.warehouse.objects
  execute_job_isolated k w picks outside =
      (execute_job-RunKeeps (λ j. starts_with j prefix ≡ false) inside (picks (Below prefix))).at w
        k outside
    where
      inside : (j : Text) → ¬ (starts_with (prefix ++ j) prefix ≡ false)
      inside j h = ground (arith, h, starts_with_append prefix j)

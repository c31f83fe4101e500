-- ===== src/Job/Mappings/Contained.antt =====
-- The loop over the mappings in src/job.rs where the run is not cancelled.
use karet_worker.Common.{
  ℕ, suc, ◌≡◌, refl, ap, ◌∙◌, Bool, true, false, not, Option, none, some, List, [], ◌∷◌, ◌==◌,
  text_eq, all, find, retain, arith,
}
use karet_worker.Common.Dict.{lookup}
use karet_worker.Common.Result.{Result, ok, err}
use karet_worker.Common.Text.{Text, split_once, starts_with}
use karet_worker.Config.Types.{SourceContainer, Mapping, PipelineConfig}
use karet_worker.Evaluator.{Registry}
use karet_worker.Job.Outcome.{JobError, cancelled, ingesting}
use karet_worker.Job.World.{
  JobWorld, Run, ◌>>=◌, ◌>>◌, pure, on_warehouse, is_cancelled, flag, join_task, joined, update,
}
use karet_worker.Job.Work.{mapping_task}
use karet_worker.Job.Sources.{TablePublish}
use karet_worker.Job.Mappings.{
  Totals, undeclared, after_upload, after_put, put_partition, upload_partitions_async,
  upload_mapping, settle_task, run_mapping, run_mappings,
}
use karet_worker.Manifest.Files.{ManifestFile}
use karet_worker.Pipeline.{Libraries}
use karet_worker.Pipeline.Partitions.{PartitionOutput}

-- A run that does not read the cancel flag.
record Flagless {A : Type 0} (m : Run A) : Type 0 where
  at : (w : JobWorld) → (m w).1.cancel ≡ w.cancel

pure-Flagless : {A : Type 0} (a : A) → Flagless (pure a)
pure-Flagless a = record { at = λ w. refl }

>>=-Flagless :
    {A B : Type 0} (m : Run A) (f : A → Run B)
    → Flagless m
    → ((a : A) → Flagless (f a))
    → Flagless (m >>= f)
>>=-Flagless m f km kf = record { at = λ w. (kf (m w).0).at (m w).1 ∙ km.at w }

module _ (prefix : Text) (version : ℕ) (mapping_id : Text) where
  after_put-Flagless :
      (key : Text) (f : ManifestFile) (more : Run (Result (List ManifestFile) Text))
      (sent : Result (Unit {0}) Text)
      → Flagless more
      → Flagless (after_put prefix version mapping_id key f more sent)
  unfolding after_put
  after_put-Flagless key f more (err e) h = pure-Flagless _
  after_put-Flagless key f more (ok _) h = record { at = λ w. h.at w }

  put_partition-Flagless :
      (p : PartitionOutput) (more : Run (Result (List ManifestFile) Text))
      (o : Option (Text × Text))
      → Flagless more
      → Flagless (put_partition prefix version mapping_id p more o)
  unfolding put_partition on_warehouse
  put_partition-Flagless p more none h = pure-Flagless _
  put_partition-Flagless p more (some (table_id, rest)) h = record {
    at = λ w. (after_put-Flagless _ _ more _ h).at _;
  }

  upload-Flagless :
      (ps : List PartitionOutput) → Flagless (upload_partitions_async prefix version mapping_id ps)
  unfolding upload_partitions_async
  upload-Flagless [] = pure-Flagless _
  upload-Flagless (p ∷ ps) = put_partition-Flagless p _ (split_once p.key b'/') (upload-Flagless ps)

join_task-Flagless : {A : Type 0} (r : Result A Text) → Flagless (join_task r)
unfolding join_task
join_task-Flagless {A} r = record { at = λ w. by_panic w.panics w }
  where
    by_panic :
        (ps : List (Option Text)) (w : JobWorld) → (joined {A = A} ps r w).1.cancel ≡ w.cancel
    by_panic [] w = refl
    by_panic (none ∷ ps) w = refl
    by_panic (some e ∷ ps) w = refl

module _ {F : Type 0} (x : Libraries F) (prefix : Text) (cfg : PipelineConfig F)
    (matchers : Registry) where
  upload_mapping-Flagless :
      (mapping : Mapping F) (partitions : List PartitionOutput) (t : Totals)
      → Flagless (upload_mapping x prefix cfg matchers mapping partitions t)
  unfolding upload_mapping
  upload_mapping-Flagless mapping partitions t =
      by_table (lookup mapping.analytic_table_id t.publishes)
    where
      by_table :
          (o : Option TablePublish)
          → Flagless (elim o as (λ _. Run Totals) [
            | none ↦ pure (undeclared x prefix cfg matchers mapping t)
            | some publish ↦
                upload_partitions_async prefix publish.version mapping.id partitions
                >>= (λ sent. pure (after_upload x prefix cfg matchers mapping publish t sent))
          ])
      by_table none = pure-Flagless _
      by_table (some publish) =
          >>=-Flagless _ _ (upload-Flagless prefix publish.version mapping.id partitions)
            λ sent. pure-Flagless (after_upload x prefix cfg matchers mapping publish t sent)

  settle_task-Flagless :
      (mapping : Mapping F) (r : Result (Result (List PartitionOutput × ℕ) Text) Text) (t : Totals)
      → Flagless (settle_task x prefix cfg matchers mapping r t)
  unfolding settle_task
  settle_task-Flagless mapping (err e) t = pure-Flagless _
  settle_task-Flagless mapping (ok (err e)) t = pure-Flagless _
  settle_task-Flagless mapping (ok (ok (partitions, dropped))) t =
      upload_mapping-Flagless mapping partitions _

  run_mapping-Flagless :
      (all_files : List (Text × Text)) (mapping : Mapping F) (t : Totals)
      → Flagless (run_mapping x prefix cfg matchers all_files mapping t)
  unfolding run_mapping
  run_mapping-Flagless all_files mapping t =
      by_source (find (λ s. s.id == mapping.source_container_id) cfg.source_containers)
    where
      by_files :
          (files : List (Text × Text))
          → Flagless (elim files as (λ _. Run Totals) [
            | [] ↦ pure t
            | f ∷ fs ↦
                join_task (mapping_task x cfg mapping.id matchers (f ∷ fs))
                >>= (λ result. settle_task x prefix cfg matchers mapping result t)
          ])
      by_files [] = pure-Flagless t
      by_files (f ∷ fs) =
          >>=-Flagless _ _ (join_task-Flagless _) (λ result. settle_task-Flagless mapping result t)

      by_source :
          (o : Option (SourceContainer F))
          → Flagless (elim o as (λ _. Run Totals) [
            | none ↦ pure t
            | some sc ↦
                elim (retain (λ (f : Text × Text). starts_with f.0 sc.path_prefix) all_files) [
                  | [] ↦ pure t
                  | f ∷ fs ↦
                      join_task (mapping_task x cfg mapping.id matchers (f ∷ fs))
                      >>= (λ result. settle_task x prefix cfg matchers mapping result t)
                ]
          ])
      by_source none = pure-Flagless t
      by_source (some sc) = by_files _

  is_cancelled_never :
      (w : JobWorld)
      → all not w.cancel ≡ true
      → ((is_cancelled w).0 ≡ false) × (all not (is_cancelled w).1.cancel ≡ true)
  unfolding is_cancelled
  is_cancelled_never w h = by_flag w.cancel h
    where
      by_flag :
          (bs : List Bool)
          → all not bs ≡ true
          → ((flag bs w).0 ≡ false) × (all not (flag bs w).1.cancel ≡ true)
      by_flag [] g = (refl, h)
      by_flag (b ∷ bs) g = (ground (arith, g), ground (arith, g))

  -- The reference: each mapping runs on the totals and in the world that those before it have left.
  -- The flag is read, and does not matter.
  unfoldable pub run_each : ℕ → ℕ → List (Text × Text) → List (Mapping F) → Totals → Run Totals
  run_each total i all_files [] t = pure t
  run_each total i all_files (mapping ∷ mappings) t =
      is_cancelled
      >> (update (ingesting i total t.partitions)
          >> (run_mapping x prefix cfg matchers all_files mapping t
              >>= (λ t'. run_each total (suc i) all_files mappings t')))

  abbrev answered : Totals × JobWorld → Result Totals JobError × JobWorld
  answered (t, w) = (ok t, w)

  mapping_step :
      (total i : ℕ) (all_files : List (Text × Text)) (mapping : Mapping F) (t : Totals)
      (rest : Totals → Run (Result Totals JobError)) (each : Totals → Run Totals) (w : JobWorld)
      → ((t' : Totals) (w' : JobWorld)
          → all not w'.cancel ≡ true
          → rest t' w' ≡ answered (each t' w'))
      → all not w.cancel ≡ true
      → (stop : Bool) → stop ≡ false
      → (elim stop as (λ _. Run (Result Totals JobError)) [
        | true ↦ pure (err cancelled)
        | false ↦
            update (ingesting i total t.partitions)
            >> (run_mapping x prefix cfg matchers all_files mapping t >>= rest)
      ])
          w
        ≡ answered (
            (update (ingesting i total t.partitions)
                >> (run_mapping x prefix cfg matchers all_files mapping t >>= each))
              w)
  unfolding update
  mapping_step total i all_files mapping t rest each w on_rest calm true e = ground (arith, e)
  mapping_step total i all_files mapping t rest each w on_rest calm false _ =
      let w' = (update (ingesting i total t.partitions) w).1 in
      on_rest (run_mapping x prefix cfg matchers all_files mapping t w').0
        (run_mapping x prefix cfg matchers all_files mapping t w').1
        (ap (all not) ((run_mapping-Flagless all_files mapping t).at w') ∙ calm)

  -- Where the run is never cancelled, the loop over the mappings runs every one of them, in order,
  -- each on the totals and in the world that those before it have left, and ends with the totals and
  -- the world after the last, whatever requests fail and whatever mappings fail or have their task
  -- panic.
  pub run_mappings_contained :
      (total i : ℕ) (all_files : List (Text × Text)) (mappings : List (Mapping F)) (t : Totals)
      (w : JobWorld)
      → all not w.cancel ≡ true
      → let (t', w') = run_each total i all_files mappings t w in
        run_mappings x prefix cfg matchers total i all_files mappings t w ≡ (ok t', w')
  unfolding run_mappings run_each
  run_mappings_contained total i all_files [] t w h = refl
  run_mappings_contained total i all_files (mapping ∷ mappings) t w h =
      let (stop, calm) = is_cancelled_never w h in
      mapping_step total i all_files mapping t
        (run_mappings x prefix cfg matchers total (suc i) all_files mappings)
        (run_each total (suc i) all_files mappings) (is_cancelled w).1
        (run_mappings_contained total (suc i) all_files mappings) calm (is_cancelled w).0 stop

-- ===== src/Job/Execute/Failed.antt =====
-- `execute_job` of src/job.rs where it ends in an error: what readers see of the tables.
use mathlib.Core.List.{append_cancel_left, append_assoc}
use karet_worker.Common.{
  ℕ, ◌≡◌, refl, sym, ap, ◌∙◌, Bool, true, false, Option, none, some, [], ◌∷◌, ◌++◌, length, arith,
  text_eq, nat_eq, ℕ_discrete,
}
use karet_worker.Common.Dict.{lookup}
use karet_worker.Common.Int.{ℤ}
use karet_worker.Common.Result.{Result, ok, err}
use karet_worker.Common.Text.{Text, bytes, starts_with}
use karet_worker.Job.Outcome.{JobError, downloading}
use karet_worker.Job.World.{JobWorld, Run}
use karet_worker.Job.Task
use karet_worker.Job.Task.{Task, continue}
use karet_worker.Job.Keeps.{RunKeeps, lift-RunKeeps, update-RunKeeps}
use karet_worker.Job.Sources.{table_prefix}
use karet_worker.Job.Sources.Keeps.{
  load_config-RunKeeps, read_publishes-RunKeeps, list_candidates-RunKeeps, download_all-RunKeeps,
  build_registry-RunKeeps,
}
use karet_worker.Job.Mappings.Keeps.{run_mappings-RunKeeps}
use karet_worker.Job.Publish.{Settings, finish_run}
use karet_worker.Job.Execute.{nothing_done, execute_job}
use karet_worker.Manifest.Files.{current_key, manifest_key, version_prefix}
use karet_worker.Manifest.Bucket.{Objects, Codec}
use karet_worker.Manifest.Bucket.Publish.{seen, at_body, at_pointer}
use karet_worker.Pipeline.{Libraries}
use karet_worker.Pipeline.Segment.Laws.{no_slash}
use karet_worker.Pipeline.Partitions.Paths.{first_piece}

-- A task that leaves the objects alone where it fails.
record FailKeeps {A : Type 0} (K : Text → Type 0) (m : Task A) : Type 0 where
  at :
      (w : JobWorld) (k : Text) (e : JobError)
      → (m w).0 ≡ err e
      → K k
      → lookup k (m w).1.warehouse.objects ≡ lookup k w.warehouse.objects

module _ {K : Text → Type 0} where
  FailKeeps-lift : {A : Type 0} (m : Run A) → FailKeeps K (Task.lift m)
  FailKeeps-lift m = record { at = λ w k e failed h. absurd (ground (arith, failed)) }

  FailKeeps-bind :
      {A B : Type 0} (m : Task A) (f : A → Task B)
      → RunKeeps K m
      → ((a : A) → FailKeeps K (f a))
      → FailKeeps K (Task.◌>>=◌ m f)
  FailKeeps-bind {A} {B} m f km kf = record {
    at = λ w k e failed h. after (m w) k e failed h ∙ km.at w k h;
  }
    where
      after :
          (r : Result A JobError × JobWorld) (k : Text) (e : JobError)
          → (continue {A = A} {B = B} f r).0 ≡ err e
          → K k
          → lookup k (continue {A = A} {B = B} f r).1.warehouse.objects
            ≡ lookup k r.1.warehouse.objects
      after (ok a, w) k e failed h = (kf a).at w k e failed h
      after (err e', w) k e failed h = refl

versioned_apart :
    (t table_id rest rel : Text) (version : ℕ)
    → no_slash t ≡ true
    → no_slash table_id ≡ true
    → t ++ (bytes "/" ++ (version_prefix version ++ rest)) ≡ table_id ++ (bytes "/" ++ rel)
    → starts_with rel (bytes "v") ≡ false
    → ⊥
unfolding version_prefix bytes starts_with
versioned_apart t table_id rest rel version clean plain same outside =
    let below = (first_piece t table_id _ _ clean plain same).1 in
    ground (arith, outside, ap (λ r. starts_with r (b'v' ∷ [])) below)

key_below :
    (prefix table_id rel : Text)
    → table_prefix prefix table_id ++ rel ≡ prefix ++ (table_id ++ (bytes "/" ++ rel))
key_below prefix table_id rel = simp append_assoc

current_key_outside : starts_with current_key (bytes "v") ≡ false
unfolding bytes starts_with nat_eq ℕ_discrete
current_key_outside = refl

manifest_key_outside : (v : ℕ) → starts_with (manifest_key v) (bytes "v") ≡ false
unfolding manifest_key bytes starts_with nat_eq ℕ_discrete
manifest_key_outside v = refl

-- What a reader sees hangs on the objects outside the version directories.
module _ (c : Codec) (tp : Text) (o o' : Objects)
    (same : (rel : Text)
      → starts_with rel (bytes "v") ≡ false
      → lookup (tp ++ rel) o' ≡ lookup (tp ++ rel) o) where
  at_pointer_same : (p : Option ℕ) → at_pointer c tp o' p ≡ at_pointer c tp o p
  at_pointer_same none = refl
  at_pointer_same (some v) = rw (same (manifest_key v) (manifest_key_outside v)) refl

  at_body_same : (b : Option Text) → at_body c tp o' b ≡ at_body c tp o b
  at_body_same none = refl
  at_body_same (some t) = at_pointer_same (c.pointer_from_json t)

  seen_same : seen c tp o' ≡ seen c tp o
  unfolding seen
  seen_same =
      ap (at_body c tp o') (same current_key current_key_outside)
      ∙ at_body_same (lookup (tp ++ current_key) o)

module _ {F : Type 0} (x : Libraries F) (s : Settings F) (prefix pipeline : Text)
    (config_version_id : Option ℤ) (clean_run : Bool) where
  execute_job-FailKeeps :
      {K : Text → Type 0}
      → ((table_id rest : Text) (version : ℕ)
          → no_slash table_id ≡ true
          → ¬ K (prefix ++ (table_id ++ (bytes "/" ++ (version_prefix version ++ rest)))))
      → FailKeeps K (execute_job x s prefix pipeline config_version_id clean_run)
  unfolding execute_job
  execute_job-FailKeeps free =
      FailKeeps-bind _ _ (load_config-RunKeeps s.version_text s.parse pipeline config_version_id)
        λ cfg.
          FailKeeps-bind _ _
            (read_publishes-RunKeeps s.codec prefix clean_run cfg.analytic_tables [])
            λ publishes.
              FailKeeps-bind _ _ (lift-RunKeeps _ (update-RunKeeps (downloading 0 0))) λ _.
                FailKeeps-bind _ _ (list_candidates-RunKeeps cfg.source_containers []) λ candidates.
                  FailKeeps-bind _ _ (download_all-RunKeeps candidates) λ all_files.
                    FailKeeps-bind _ _ (build_registry-RunKeeps x.unicode cfg.dimensions)
                      λ matchers.
                        FailKeeps-bind _ _
                          (run_mappings-RunKeeps prefix free x cfg matchers (length cfg.mappings) 0
                            all_files cfg.mappings (nothing_done publishes))
                          λ totals.
                            FailKeeps-lift
                              (finish_run s (length all_files) (length cfg.mappings) totals)

  -- An object that lies in no version directory of a table.
  unversioned_kept :
      (table_id rel : Text) (w : JobWorld) (e : JobError)
      → no_slash table_id ≡ true
      → starts_with rel (bytes "v") ≡ false
      → (execute_job x s prefix pipeline config_version_id clean_run w).0 ≡ err e
      → lookup
          (prefix ++ (table_id ++ (bytes "/" ++ rel)))
          (execute_job x s prefix pipeline config_version_id clean_run w).1.warehouse.objects
        ≡ lookup (prefix ++ (table_id ++ (bytes "/" ++ rel))) w.warehouse.objects
  unversioned_kept table_id rel w e plain outside failed =
      (execute_job-FailKeeps {K = λ k. k ≡ prefix ++ (table_id ++ (bytes "/" ++ rel))} apart).at w _
        e failed refl
    where
      apart :
          (t rest : Text) (version : ℕ)
          → no_slash t ≡ true
          → ¬ (
              prefix ++ (t ++ (bytes "/" ++ (version_prefix version ++ rest)))
              ≡ prefix ++ (table_id ++ (bytes "/" ++ rel)))
      apart t rest version clean same =
          versioned_apart t table_id rest rel version clean plain
            (append_cancel_left prefix _ _ same) outside

  -- A run that ends in an error, cancelled or not, leaves the version pointer of every table and all
  -- its manifests as they are, whatever requests fail: a reader is led to the same list of files. What
  -- the files hold is not part of it. Condition: no slash in the id of the table.
  pub failed_run-seen :
      (table_id : Text) (w : JobWorld) (e : JobError)
      → no_slash table_id ≡ true
      → (execute_job x s prefix pipeline config_version_id clean_run w).0 ≡ err e
      → let tp = table_prefix prefix table_id in
        let o = w.warehouse.objects in
        let o' =
          (execute_job x s prefix pipeline config_version_id clean_run w).1.warehouse.objects in
        (lookup (tp ++ current_key) o' ≡ lookup (tp ++ current_key) o)
        × ((v : ℕ) → lookup (tp ++ manifest_key v) o' ≡ lookup (tp ++ manifest_key v) o)
        × (seen s.codec tp o' ≡ seen s.codec tp o)
  failed_run-seen table_id w e plain failed = (
    same current_key current_key_outside,
    λ v. same (manifest_key v) (manifest_key_outside v),
    seen_same s.codec (table_prefix prefix table_id) w.warehouse.objects _ same,
  )
    where
      same :
          (rel : Text)
          → starts_with rel (bytes "v") ≡ false
          → lookup
              (table_prefix prefix table_id ++ rel)
              (execute_job x s prefix pipeline config_version_id clean_run w).1.warehouse.objects
            ≡ lookup (table_prefix prefix table_id ++ rel) w.warehouse.objects
      same rel outside =
          ap
            (λ k.
              lookup k
                (execute_job x s prefix pipeline config_version_id clean_run w).1.warehouse.objects)
            (key_below prefix table_id rel)
          ∙ unversioned_kept table_id rel w e plain outside failed
          ∙ ap (λ k. lookup k w.warehouse.objects) (sym (key_below prefix table_id rel))

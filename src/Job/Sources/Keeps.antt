-- ===== src/Job/Sources/Keeps.antt =====
-- Gathering the inputs of a run, in src/job.rs, leaves the warehouse alone.
use karet_worker.Common.{
  ℕ, suc, Bool, true, false, Option, none, some, List, [], ◌∷◌, ◌++◌, length, retain, text_eq,
}
use karet_worker.Common.Dict.{insert}
use karet_worker.Common.Int.{ℤ}
use karet_worker.Common.Result.{Result, ok, err}
use karet_worker.Common.Text.{Text, bytes, ends_with}
use karet_worker.Config.Types.{
  SourceContainer, AnalyticTable, PipelineConfig, ConfigError, extensions,
}
use karet_worker.Config.Validate.{validate}
use karet_worker.Dimension.Types.{Dimension, DimensionError, DimensionRows, inline, file, Unicode}
use karet_worker.Dimension.Matcher.{new_matcher, build_inline_registry}
use karet_worker.Dimension.Csv.{rows_from_csv}
use karet_worker.Db.{current_version_for, config_for_version}
use karet_worker.Evaluator.{Registry}
use karet_worker.Job.Outcome.{downloading, JobError, dimension}
use karet_worker.Job.Task
use karet_worker.Job.Task.{Task, done, fail, lift_or}
use karet_worker.Job.World.{on_lake}
use karet_worker.Job.Keeps.{
  RunKeeps, on_warehouse-RunKeeps, on_lake-RunKeeps, select-RunKeeps, is_cancelled-RunKeeps,
  update-RunKeeps, done-RunKeeps, fail-RunKeeps, lift-RunKeeps, lift_or-RunKeeps, bind-RunKeeps,
}
use karet_worker.Job.Sources.{
  Publishes, some_or, resolve_version, read_config, valid_or, parsed_or, load_config, next_publish,
  read_publishes, new_keys, listed, downloaded, list_candidates, unless_cancelled, download_from,
  some_files, download_all, dimension_error, read_dimension_files, load_dimensions, build_registry,
}
use karet_worker.Manifest.Bucket.{Codec, list_keys, get_bytes}
use karet_worker.Manifest.Bucket.Keeps.{read_current-Keeps}

module _ {K : Text → Type 0} where
  some_or-RunKeeps : {A : Type 0} (e : JobError) (o : Option A) → RunKeeps K (some_or e o)
  some_or-RunKeeps e none = fail-RunKeeps e
  some_or-RunKeeps e (some a) = done-RunKeeps a

  module _ (version_text : ℤ → Text) where
    resolve_version-RunKeeps :
        (pipeline : Text) (v : Option ℤ) → RunKeeps K (resolve_version version_text pipeline v)
    unfolding resolve_version
    resolve_version-RunKeeps pipeline (some id) = done-RunKeeps id
    resolve_version-RunKeeps pipeline none =
        bind-RunKeeps _ _ (lift_or-RunKeeps _ _ (select-RunKeeps (current_version_for pipeline)))
          (some_or-RunKeeps _)

    read_config-RunKeeps : (v : ℤ) → RunKeeps K (read_config version_text v)
    unfolding read_config
    read_config-RunKeeps v =
        bind-RunKeeps _ _ (lift_or-RunKeeps _ _ (select-RunKeeps (config_for_version v)))
          (some_or-RunKeeps _)

    valid_or-RunKeeps :
        {A : Type 0} (a : A) (r : Result (Unit {0}) (List ConfigError)) → RunKeeps K (valid_or a r)
    valid_or-RunKeeps a (ok _) = done-RunKeeps a
    valid_or-RunKeeps a (err errs) = fail-RunKeeps _

    parsed_or-RunKeeps : {A : Type 0} (r : Result A Text) → RunKeeps K (parsed_or r)
    parsed_or-RunKeeps (ok cfg) = done-RunKeeps cfg
    parsed_or-RunKeeps (err e) = fail-RunKeeps _

    pub load_config-RunKeeps :
        {F : Type 0} (parse : Text → Result (PipelineConfig F) Text) (pipeline : Text)
        (v : Option ℤ)
        → RunKeeps K (load_config version_text parse pipeline v)
    unfolding load_config
    load_config-RunKeeps parse pipeline v =
        bind-RunKeeps _ _ (resolve_version-RunKeeps pipeline v) λ id.
          bind-RunKeeps _ _ (read_config-RunKeeps id) λ json.
            bind-RunKeeps _ _ (parsed_or-RunKeeps (parse json))
              λ cfg. valid_or-RunKeeps cfg (validate cfg)

  pub read_publishes-RunKeeps :
      {F : Type 0} (c : Codec) (prefix : Text) (clean_run : Bool) (tables : List (AnalyticTable F))
      (publishes : Publishes)
      → RunKeeps K (read_publishes c prefix clean_run tables publishes)
  unfolding read_publishes
  read_publishes-RunKeeps c prefix clean_run [] publishes = done-RunKeeps publishes
  read_publishes-RunKeeps c prefix clean_run (table ∷ tables) publishes =
      bind-RunKeeps _ _ (lift_or-RunKeeps _ _ (on_warehouse-RunKeeps _ (read_current-Keeps c _)))
        (λ current.
          read_publishes-RunKeeps c prefix clean_run tables
            (next_publish prefix clean_run table.id current publishes))

  pub list_candidates-RunKeeps :
      {F : Type 0} (sources : List (SourceContainer F)) (seen : List Text)
      → RunKeeps K (list_candidates sources seen)
  unfolding list_candidates
  list_candidates-RunKeeps [] seen = done-RunKeeps seen
  list_candidates-RunKeeps (sc ∷ sources) seen =
      bind-RunKeeps _ _ (lift-RunKeeps _ (on_lake-RunKeeps (list_keys sc.path_prefix))) (λ found.
        list_candidates-RunKeeps sources
          (seen ++ new_keys (extensions sc.format) seen (listed found)))

  unless_cancelled-RunKeeps :
      {A : Type 0} (k : Task A) (stop : Bool) → RunKeeps K k → RunKeeps K (unless_cancelled k stop)
  unfolding unless_cancelled
  unless_cancelled-RunKeeps k true h = fail-RunKeeps _
  unless_cancelled-RunKeeps k false h = h

  download_from-RunKeeps :
      (total i : ℕ) (keys : List Text) (files : List (Text × Text))
      → RunKeeps K (download_from total i keys files)
  unfolding download_from
  download_from-RunKeeps total i [] files = done-RunKeeps files
  download_from-RunKeeps total i (key ∷ keys) files =
      bind-RunKeeps _ _ (lift-RunKeeps _ is_cancelled-RunKeeps) λ stop.
        bind-RunKeeps _ _ (unless_cancelled-RunKeeps (done tt) stop (done-RunKeeps tt)) λ _.
          bind-RunKeeps _ _ (lift-RunKeeps _ (on_lake-RunKeeps (get_bytes key))) λ body.
            bind-RunKeeps _ _ (lift-RunKeeps _ (update-RunKeeps (downloading (suc i) total)))
              λ _. download_from-RunKeeps total (suc i) keys (downloaded key body files)

  pub download_all-RunKeeps : (keys : List Text) → RunKeeps K (download_all keys)
  unfolding download_all some_files
  download_all-RunKeeps keys =
      bind-RunKeeps _ _ (download_from-RunKeeps (length keys) 0 keys []) files
    where
      files : (fs : List (Text × Text)) → RunKeeps K (some_files fs)
      files [] = fail-RunKeeps _
      files (f ∷ fs) = done-RunKeeps _

  dimension_error-RunKeeps :
      {A : Type 0} (r : Result A DimensionError) → RunKeeps K (dimension_error r)
  dimension_error-RunKeeps (ok a) = done-RunKeeps a
  dimension_error-RunKeeps (err e) = fail-RunKeeps _

  module _ (u : Unicode) where
    read_dimension_files-RunKeeps :
        (dim : Dimension) (key : Text) (values : List Text) (priority : Option Text)
        (keys : List Text)
        → RunKeeps K (read_dimension_files u dim key values priority keys)
    unfolding read_dimension_files
    read_dimension_files-RunKeeps dim key values priority [] = done-RunKeeps []
    read_dimension_files-RunKeeps dim key values priority (k ∷ keys) =
        bind-RunKeeps _ _ (lift_or-RunKeeps _ _ (on_lake-RunKeeps (get_bytes k))) λ body.
          bind-RunKeeps _ _
            (dimension_error-RunKeeps (rows_from_csv u dim key values priority body))
            λ rows.
              bind-RunKeeps _ _ (read_dimension_files-RunKeeps dim key values priority keys)
                λ rest. done-RunKeeps (rows ++ rest)

    load_dimensions-RunKeeps :
        (dims : List Dimension) (matchers : Registry) → RunKeeps K (load_dimensions u dims matchers)
    unfolding load_dimensions
    load_dimensions-RunKeeps [] matchers = done-RunKeeps matchers
    load_dimensions-RunKeeps (dim ∷ dims) matchers =
        by_rows (load_dimensions-RunKeeps dims) dim.rows
      where
        by_rows :
            ((ms : Registry) → RunKeeps K (load_dimensions u dims ms))
            → (rows : DimensionRows)
            → RunKeeps K (elim rows as (λ _. Task Registry) [
              | inline values rows ↦ load_dimensions u dims matchers
              | file path_prefix key values priority_column ↦
                  Task.◌>>=◌
                    (lift_or
                      (λ e. dimension (bytes "listing " ++ (path_prefix ++ (bytes ": " ++ e))))
                      (on_lake (list_keys path_prefix)))
                    (λ keys.
                      Task.◌>>=◌
                        (read_dimension_files u dim key values priority_column
                          (retain (λ k. ends_with k (bytes ".csv")) keys))
                        (λ rows.
                          Task.◌>>=◌
                            (dimension_error (new_matcher u dim rows))
                            (λ matcher. load_dimensions u dims (insert dim.id matcher matchers))))
            ])
        by_rows ih (inline values rows) = ih matchers
        by_rows ih (file path_prefix key values priority) =
            bind-RunKeeps _ _ (lift_or-RunKeeps _ _ (on_lake-RunKeeps (list_keys path_prefix)))
              λ keys.
                bind-RunKeeps _ _
                  (read_dimension_files-RunKeeps dim key values priority
                    (retain (λ k. ends_with k (bytes ".csv")) keys))
                  λ rows.
                    bind-RunKeeps _ _ (dimension_error-RunKeeps (new_matcher u dim rows))
                      λ matcher. ih (insert dim.id matcher matchers)

    pub build_registry-RunKeeps : (dims : List Dimension) → RunKeeps K (build_registry u dims)
    unfolding build_registry
    build_registry-RunKeeps dims =
        bind-RunKeeps _ _ (dimension_error-RunKeeps (build_inline_registry u dims))
          (load_dimensions-RunKeeps dims)

-- ===== src/Job/Sources.antt =====
-- What `execute_job` of src/job.rs gathers before the mappings run: the config, the published
-- versions of the tables, the source files and the dimensions.
pub mod Keeps
pub mod Unread
use karet_worker.Common.{
  ℕ, suc, ◌+◌, Bool, true, false, ◌&&◌, not, Option, none, some, List, [], ◌∷◌, ◌++◌, map, ◌==◌,
  text_eq, length, any, contains, retain, if◌then◌else◌,
}
use karet_worker.Common.Dict.{Dict, insert}
use karet_worker.Common.Int.{ℤ}
use karet_worker.Common.Result.{Result, ok, err, map_err}
use karet_worker.Common.Text.{Text, bytes, join, ends_with}
use karet_worker.Db.{current_version_for, config_for_version}
use karet_worker.Config.Types.{
  SourceContainer, extensions, AnalyticTable, PipelineConfig, ConfigError, display_config,
}
use karet_worker.Config.Validate.{validate}
use karet_worker.Dimension.Types.{
  Dimension, DimensionError, inline, file, Unicode, display_dimension,
}
use karet_worker.Dimension.Matcher.{
  MatcherRow, DimensionMatcher, new_matcher, build_inline_registry,
}
use karet_worker.Dimension.Csv.{rows_from_csv}
use karet_worker.Evaluator.{Registry}
use karet_worker.Job.Outcome.{
  Progress, downloading, JobError, config_read, config_parse, config_invalid, no_files, dimension,
  cancelled,
}
use karet_worker.Job.World.{Run, on_lake, on_warehouse, select, is_cancelled, update}
use karet_worker.Job.Task.{Task, ◌>>=◌, ◌>>◌, done, fail, lift, lift_or}
use karet_worker.Manifest.Files.{ManifestFile, TableManifest}
use karet_worker.Manifest.Bucket.{Codec, read_current, list_keys, get_bytes}

-- The version that a run publishes of a table.
pub record TablePublish : Type 0 where
  pub prefix : Text
  pub version : ℕ
  pub files : List ManifestFile
  pub touched : Bool

abbrev pub Publishes : Type 0
Publishes = Dict Text TablePublish

abbrev pub some_or : {A : Type 0} → JobError → Option A → Task A
some_or e none = fail e
some_or e (some a) = done a

-- A text for the number of a version.
module _ (version_text : ℤ → Text) where
  unfoldable pub resolve_version : Text → Option ℤ → Task ℤ
  resolve_version pipeline (some id) = done id
  resolve_version pipeline none = do
    found ←
        lift_or (λ e. config_read (bytes "resolving live config version: " ++ e))
          (select (current_version_for pipeline))
    some_or (config_read (bytes "pipeline " ++ (pipeline ++ bytes " has no published config")))
        found

  unfoldable pub read_config : ℤ → Task Text
  read_config version_id = do
    found ←
        lift_or
          (λ e.
            config_read
              (bytes "reading config version " ++ (version_text version_id ++ (bytes ": " ++ e))))
          (select (config_for_version version_id))
    some_or
        (config_read (bytes "config version " ++ (version_text version_id ++ bytes " not found")))
        found

abbrev pub valid_or : {A : Type 0} → A → Result (Unit {0}) (List ConfigError) → Task A
valid_or cfg (ok _) = done cfg
valid_or cfg (err errs) = fail (config_invalid (join (bytes "; ") (map display_config errs)))

abbrev pub parsed_or : {A : Type 0} → Result A Text → Task A
parsed_or (ok cfg) = done cfg
parsed_or (err e) = fail (config_parse e)

abbrev pub table_prefix : Text → Text → Text
table_prefix prefix table_id = prefix ++ (table_id ++ bytes "/")

abbrev pub next_publish : Text → Bool → Text → TableManifest → Publishes → Publishes
next_publish prefix clean_run table_id current publishes =
    insert table_id
      (record {
        prefix = table_prefix prefix table_id;
        version = current.version + 1;
        files = if clean_run then [] else current.files;
        touched = false;
      })
      publishes

-- `filter` with `seen.insert`: the keys that are new, each once.
unfoldable pub new_keys : List Text → List Text → List Text → List Text
new_keys exts seen [] = []
new_keys exts seen (k ∷ ks) =
    let rest = new_keys exts (k ∷ seen) ks in
    let others = new_keys exts seen ks in
    if any (λ e. ends_with k e) exts && not (contains seen k) then k ∷ rest else others

abbrev pub listed : Result (List Text) Text → List Text
listed (ok keys) = keys
listed (err e) = []

module _ {F : Type 0} where
  -- `from_value` of serde_json is the parameter `parse`.
  unfoldable pub load_config :
      (ℤ → Text)
      → (Text → Result (PipelineConfig F) Text)
      → Text
      → Option ℤ
      → Task (PipelineConfig F)
  load_config version_text parse pipeline config_version_id = do
    version_id ← resolve_version version_text pipeline config_version_id
    config_json ← read_config version_text version_id
    cfg ← parsed_or (parse config_json)
    valid_or cfg (validate cfg)

  -- The version after the current one of each table; a clean run starts without files.
  unfoldable pub read_publishes :
      Codec → Text → Bool → List (AnalyticTable F) → Publishes → Task Publishes
  read_publishes c prefix clean_run [] publishes = done publishes
  read_publishes c prefix clean_run (table ∷ tables) publishes = do
    current ← lift_or config_read (on_warehouse (read_current c (table_prefix prefix table.id)))
    read_publishes c prefix clean_run tables
        (next_publish prefix clean_run table.id current publishes)

  -- A source that cannot be listed is passed over. `seen` are the candidates so far.
  unfoldable pub list_candidates : List (SourceContainer F) → List Text → Task (List Text)
  list_candidates [] seen = done seen
  list_candidates (sc ∷ sources) seen = do
    found ← lift (on_lake (list_keys sc.path_prefix))
    list_candidates sources (seen ++ new_keys (extensions sc.format) seen (listed found))

unfoldable pub unless_cancelled : {A : Type 0} → Task A → Bool → Task A
unless_cancelled k true = fail cancelled
unless_cancelled k false = k

abbrev pub downloaded : Text → Result Text Text → List (Text × Text) → List (Text × Text)
downloaded key (ok body) files = files ++ ((key, body) ∷ [])
downloaded key (err e) files = files

-- The loop over the candidates, `i` of `total` done: the flag is read before each download.
unfoldable pub download_from : ℕ → ℕ → List Text → List (Text × Text) → Task (List (Text × Text))
unfolding unless_cancelled
download_from total i [] files = done files
download_from total i (key ∷ keys) files = do
  stop ← lift is_cancelled
  unless_cancelled (done tt) stop
  body ← lift (on_lake (get_bytes key))
  lift (update (downloading (suc i) total))
  download_from total (suc i) keys (downloaded key body files)

unfoldable pub some_files : List (Text × Text) → Task (List (Text × Text))
some_files [] = fail no_files
some_files (f ∷ files) = done (f ∷ files)

unfoldable pub download_all : List Text → Task (List (Text × Text))
download_all keys = do files ← download_from (length keys) 0 keys []; some_files files

abbrev pub dimension_error : {A : Type 0} → Result A DimensionError → Task A
dimension_error (ok a) = done a
dimension_error (err e) = fail (dimension (display_dimension e))

module _ (u : Unicode) where
  unfoldable pub read_dimension_files :
      Dimension → Text → List Text → Option Text → List Text → Task (List MatcherRow)
  read_dimension_files dim key values priority_column [] = done []
  read_dimension_files dim key values priority_column (object_key ∷ keys) = do
    body ←
        lift_or (λ e. dimension (bytes "reading " ++ (object_key ++ (bytes ": " ++ e))))
          (on_lake (get_bytes object_key))
    rows ← dimension_error (rows_from_csv u dim key values priority_column body)
    rest ← read_dimension_files dim key values priority_column keys
    done (rows ++ rest)

  -- The dimensions in files, into the registry of the inline ones.
  unfoldable pub load_dimensions : List Dimension → Registry → Task Registry
  load_dimensions [] matchers = done matchers
  load_dimensions (dim ∷ dims) matchers = elim dim.rows [
    | inline values rows ↦ load_dimensions dims matchers
    | file path_prefix key values priority_column ↦ do
      keys ←
          lift_or (λ e. dimension (bytes "listing " ++ (path_prefix ++ (bytes ": " ++ e))))
            (on_lake (list_keys path_prefix))
      rows ←
          read_dimension_files dim key values priority_column
            (retain (λ k. ends_with k (bytes ".csv")) keys)
      matcher ← dimension_error (new_matcher u dim rows)
      load_dimensions dims (insert dim.id matcher matchers)
  ]

  unfoldable pub build_registry : List Dimension → Task Registry
  build_registry dims = do
    inline_matchers ← dimension_error (build_inline_registry u dims)
    load_dimensions dims inline_matchers

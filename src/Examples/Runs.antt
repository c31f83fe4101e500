-- ===== src/Examples/Runs.antt =====
-- Runs of a pipeline.
use karet_worker.Common.{
  ℕ, ◌++◌, ◌≡◌, refl, true, false, none, some, [], ◌∷◌, nat_eq, text_eq, ℕ_discrete, All,
}
use karet_worker.Common.Dict.{lookup, insert}
use karet_worker.Common.Int.{pos, int_eq}
use karet_worker.Common.Result.{ok, err}
use karet_worker.Common.Text.{bytes, starts_with, ends_with, split_once, to_string}
use karet_worker.Db.{current_version_for, config_for_version}
use karet_worker.Config.Types.{extensions}
use karet_worker.Job.Outcome.{cancelled}
use karet_worker.Job.World.{JobWorld, on_lake, on_warehouse, select, is_cancelled, update}
use karet_worker.Job.Sources.Unread.{refusing, unread_pointer-overwrites}
use karet_worker.Job.Sources.{
  TablePublish, table_prefix, new_keys, load_config, resolve_version, read_config, read_publishes,
  list_candidates, download_all, download_from, unless_cancelled,
}
use karet_worker.Job.Mappings.{
  Totals, run_mappings, written_file, upload_partitions_async, put_partition, after_put,
}
use karet_worker.Job.Mappings.Upload.{Stored, produced-Stored}
use karet_worker.Job.Mappings.Contained.{run_each, run_mappings_contained}
use karet_worker.Job.Publish.{Settings}
use karet_worker.Job.Execute.{execute_job}
use karet_worker.Job.Execute.Failed.{failed_run-seen}
use karet_worker.Job.Execute.Isolated.{execute_job_isolated}
use karet_worker.Manifest.Files.{current_key, manifest_key, ManifestFile, empty, version_prefix}
use karet_worker.Manifest.Bucket.{
  Objects, Codec, deliver, request, get_bytes, put_object, list_keys, read_current, read_version,
  works,
}
use karet_worker.Manifest.Bucket.Publish.{seen}
use karet_worker.Pipeline.Partitions.{
  PartitionOutput, produce_partitions, unpartitioned_key, write_parquet_bytes,
}
use karet_worker.Pipeline.Segment.Laws.{no_slash}
use karet_worker.Examples.Libraries.{libraries}
use karet_worker.Examples.Ingest.{table, mapping, config, config_valid}

abbrev codec : Codec
codec = record {
  pointer_to_json = λ v. bytes "p";
  pointer_from_json = λ t. some 1;
  manifest_to_json = λ m. bytes "m";
  manifest_from_json = λ t. some empty;
}

abbrev settings : Settings Unit
settings = record {
  codec = codec;
  version_text = λ v. bytes "7";
  parse = λ t. ok config;
  order = λ publishes. publishes;
}

-- One source file, and the flag is set before it is downloaded.
abbrev stopped : JobWorld
stopped = record {
  lake = record { objects = (bytes "s/x.csv", bytes "code") ∷ []; faults = [] };
  warehouse = record { objects = (bytes "acme/other", bytes "o") ∷ []; faults = [] };
  db = record {
    jobs = [];
    config_versions = (pos 7, bytes "{}") ∷ [];
    pipelines_current = (bytes "p", pos 7) ∷ [];
  };
  db_faults = works ∷ [];
  cancel = true ∷ [];
  panics = [];
  progress = [];
  clock = bytes "now";
}

run_cancelled :
    (execute_job libraries settings (bytes "acme/p/") (bytes "p") none false stopped).0
    ≡ err cancelled
unfolding execute_job load_config resolve_version read_config current_version_for config_for_version
    select read_publishes list_candidates new_keys download_all download_from unless_cancelled
    is_cancelled update on_lake on_warehouse read_current read_version get_bytes list_keys request
    deliver extensions starts_with ends_with lookup insert int_eq bytes text_eq nat_eq ℕ_discrete
run_cancelled = rw (config_valid) refl

table_plain : no_slash (bytes "t") ≡ true
unfolding bytes nat_eq ℕ_discrete
table_plain = refl

failed_run-seen_example :
    let tp = table_prefix (bytes "acme/p/") (bytes "t") in
    let o = stopped.warehouse.objects in
    let o' =
      (execute_job libraries settings
        (bytes "acme/p/")
        (bytes "p")
        none
        false
        stopped).1.warehouse.objects in
    (lookup (tp ++ current_key) o' ≡ lookup (tp ++ current_key) o)
    × ((v : ℕ) → lookup (tp ++ manifest_key v) o' ≡ lookup (tp ++ manifest_key v) o)
    × (seen codec tp o' ≡ seen codec tp o)
failed_run-seen_example =
    failed_run-seen libraries settings (bytes "acme/p/") (bytes "p") none false (bytes "t") stopped
      cancelled table_plain run_cancelled

foreign : starts_with (bytes "acme/other") (bytes "acme/p/") ≡ false
unfolding starts_with bytes nat_eq ℕ_discrete
foreign = refl

execute_job_isolated_example :
    lookup
      (bytes "acme/other")
      (execute_job libraries settings
        (bytes "acme/p/")
        (bytes "p")
        none
        false
        stopped).1.warehouse.objects
    ≡ lookup (bytes "acme/other") stopped.warehouse.objects
execute_job_isolated_example =
    execute_job_isolated libraries settings (bytes "acme/p/") (bytes "p") none false
      (bytes "acme/other") stopped (λ P publishes h. h) foreign

abbrev whole : PartitionOutput
whole = record { key = unpartitioned_key (bytes "t") (bytes "m"); bytes = bytes "rows" }

produced : produce_partitions libraries (bytes "rows") mapping table ≡ ok (whole ∷ [])
unfolding produce_partitions write_parquet_bytes
produced = refl

abbrev file : ManifestFile
file = record { key = bytes "v2/m.parquet"; mapping_id = bytes "m"; bytes = 4 }

uploaded :
    (upload_partitions_async (bytes "acme/p/") 2 (bytes "m") (whole ∷ []) stopped).0
    ≡ ok (file ∷ [])
unfolding upload_partitions_async put_partition after_put on_warehouse put_object request deliver
    split_once unpartitioned_key version_prefix to_string insert bytes text_eq nat_eq ℕ_discrete
uploaded = refl

produced-Stored_example :
    All
      (Stored
        (bytes "acme/p/")
        2
        (bytes "t")
        (whole ∷ [])
        (upload_partitions_async (bytes "acme/p/") 2 (bytes "m") (whole ∷ []) stopped).1)
      (file ∷ [])
produced-Stored_example =
    produced-Stored libraries mapping table (bytes "rows") (bytes "acme/p/") 2 stopped table_plain
      produced uploaded

-- The task of the mapping panics.
abbrev panicking : JobWorld
panicking = record stopped { cancel = false ∷ []; panics = some (bytes "index out of bounds") ∷ [] }

abbrev nothing_yet : Totals
nothing_yet = record { publishes = []; partitions = 0; deduped = 0; errors = [] }

run_mappings_contained_example :
    let (t', w') =
      run_each libraries
        (bytes "acme/p/")
        config
        []
        1
        0
        ((bytes "s/x.csv", bytes "code") ∷ [])
        (mapping ∷ [])
        nothing_yet
        panicking in
    run_mappings libraries
      (bytes "acme/p/")
      config
      []
      1
      0
      ((bytes "s/x.csv", bytes "code") ∷ [])
      (mapping ∷ [])
      nothing_yet
      panicking
    ≡ (ok t', w')
run_mappings_contained_example =
    run_mappings_contained libraries (bytes "acme/p/") config [] 1 0
      ((bytes "s/x.csv", bytes "code") ∷ []) (mapping ∷ []) nothing_yet panicking refl

whole_key : split_once whole.key b'/' ≡ some (bytes "t", bytes "m.parquet")
unfolding split_once unpartitioned_key bytes nat_eq ℕ_discrete
whole_key = refl

-- A table at version 1, with one file.
abbrev published : Objects
published =
    (bytes "acme/p/t/_current.json", bytes "p")
    ∷ (bytes "acme/p/t/v1/m.parquet", bytes "old rows")
    ∷ []

unread_pointer-overwrites_example :
    let (publishes, w₁) =
      read_publishes codec
        (bytes "acme/p/")
        false
        (table ∷ [])
        []
        (refusing published (bytes "timeout") stopped) in
    let (sent, w₂) = upload_partitions_async (bytes "acme/p/") 1 (bytes "m") (whole ∷ []) w₁ in
    ((publish : TablePublish) × (publishes ≡ ok ((bytes "t", publish) ∷ []))
      × (publish.version ≡ 1)
      × (publish.files ≡ []))
    × (sent ≡ ok (written_file (version_prefix 1 ++ bytes "m.parquet") (bytes "m") whole ∷ []))
    × (lookup
          (bytes "acme/p/" ++ (bytes "t" ++ (bytes "/" ++ (version_prefix 1 ++ bytes "m.parquet"))))
          w₂.warehouse.objects
        ≡ some (bytes "rows"))
unread_pointer-overwrites_example =
    unread_pointer-overwrites codec (bytes "acme/p/") false table published (bytes "timeout")
      stopped whole (bytes "m.parquet") (bytes "m") whole_key

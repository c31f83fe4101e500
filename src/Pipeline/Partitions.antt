-- ===== src/Pipeline/Partitions.antt =====
-- Deduplicating a frame, splitting it into partitions and uploading them, in src/pipeline.rs.
pub mod Paths
use karet_worker.Common.{
  ℕ, ◌-◌, Bool, true, false, Option, none, some, List, [], ◌∷◌, ◌++◌, ltb, is_empty, if◌then◌else◌,
}
use karet_worker.Common.Result.{Result, ok, err, ◌>>=◌, map_err}
use karet_worker.Common.Text.{Text, bytes, to_string, join}
use karet_worker.Config.Types.{Mapping, AnalyticTable}
use karet_worker.Error.{PipelineError, partition, polars_error, partition_upload_failed}
use karet_worker.Pipeline.{Libraries}
use karet_worker.Pipeline.Segment.{segment_value}

pub record PartitionOutput : Type 0 where
  pub key : Text
  pub bytes : Text

unfoldable pub unpartitioned_key : Text → Text → Text
unpartitioned_key table_id mapping_id = table_id ++ (bytes "/" ++ (mapping_id ++ bytes ".parquet"))

-- `{key}={value}` of each partition key, and the path of a partition.
unfoldable pub segment : Text → Text → Text
segment key value = key ++ (bytes "=" ++ value)

unfoldable pub partition_key : Text → List Text → Text → Text
partition_key table_id segments mapping_id =
    table_id
    ++ (bytes "/" ++ (join (bytes "/") segments ++ (bytes "/" ++ (mapping_id ++ bytes ".parquet"))))

abbrev no_nulls : Text → ℕ → Result (Unit {0}) PipelineError
no_nulls key nulls =
    if ltb 0 nulls
    then err (
        partition (
          bytes "partition key `"
          ++ (key
              ++ (bytes "` has "
                  ++ (to_string nulls
                      ++ bytes
                          " null value(s); rows cannot be assigned to a partition (coalesce in the expression to supply a default)")))))
    else ok tt

module _ {F : Type 0} (x : Libraries F) where
  abbrev Frame : Type 0
  Frame = x.polars.Frame

  unfoldable pub dedup_rows : Frame → AnalyticTable F → Result (Frame × ℕ) PipelineError
  dedup_rows df table =
      if is_empty table.dedup_keys
      then ok (df, 0)
      else (map_err (polars_error (bytes "<dedup>")) (x.polars.unique_first df table.dedup_keys)
          >>= λ deduped. ok (deduped, x.polars.height df - x.polars.height deduped))

  abbrev pub polars_failed : {A : Type 0} → Result A Text → Result A PipelineError
  polars_failed r = map_err (polars_error (bytes "<partition>")) r

  unfoldable pub check_nulls : Frame → List Text → Result (Unit {0}) PipelineError
  check_nulls df [] = ok tt
  check_nulls df (key ∷ keys) = do
    column ← polars_failed (x.polars.column df key)
    not_null ← no_nulls key (x.polars.null_count column)
    check_nulls df keys

  -- The segments of a group, from its first row.
  unfoldable pub group_segments : Frame → List Text → Result (List Text) PipelineError
  group_segments group [] = ok []
  group_segments group (key ∷ keys) = do
    av ← polars_failed (x.polars.column group key >>= λ c. x.polars.get c 0)
    value ← segment_value x.iso_date av
    rest ← group_segments group keys
    ok (segment key value ∷ rest)

  unfoldable pub write_parquet_bytes : Frame → Result Text Text
  write_parquet_bytes df = x.polars.write_parquet df

  unfoldable pub group_outputs :
      Mapping F → AnalyticTable F → List Frame → Result (List PartitionOutput) PipelineError
  group_outputs mapping table [] = ok []
  group_outputs mapping table (group ∷ groups) = do
    segments ← group_segments group table.partition_keys
    body ← polars_failed (write_parquet_bytes (x.polars.drop_many group table.partition_keys))
    rest ← group_outputs mapping table groups
    ok (record { key = partition_key table.id segments mapping.id; bytes = body } ∷ rest)

  unfoldable pub produce_partitions :
      Frame → Mapping F → AnalyticTable F → Result (List PartitionOutput) PipelineError
  produce_partitions df mapping table =
      if is_empty table.partition_keys
      then (polars_failed (write_parquet_bytes df) >>= λ body.
          ok (record { key = unpartitioned_key table.id mapping.id; bytes = body } ∷ []))
      else (check_nulls df table.partition_keys >>= λ _.
          polars_failed (x.polars.partition_by_stable df table.partition_keys) >>= λ groups.
          group_outputs mapping table groups)

-- The uploader is an object with a state of its own, `S`.
module _ {S : Type 0} (put : Text → Text → S → Result (Unit {0}) Text × S) where
  abbrev key_first :
      Text → Result (List Text) PipelineError × S → Result (List Text) PipelineError × S
  key_first key (ok keys, s) = (ok (key ∷ keys), s)
  key_first key (err e, s) = (err e, s)

  -- In order, up to the first failure.
  unfoldable pub upload_partitions : List PartitionOutput → S → Result (List Text) PipelineError × S
  upload_partitions [] s = (ok [], s)
  upload_partitions (p ∷ partitions) s =
      let (sent, s') = put p.key p.bytes s in
      elim sent [
        | ok _ ↦ key_first p.key (upload_partitions partitions s')
        | err message ↦ (err (partition_upload_failed p.key message), s')
      ]

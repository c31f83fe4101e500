-- ===== src/Job/Sources/Unread.antt =====
-- `execute_job` of src/job.rs where the version pointer of a published table cannot be read.
use karet_worker.Common.{
  ◌≡◌, refl, Bool, true, false, some, [], ◌∷◌, ◌++◌, nat_eq, text_eq, arith, if◌then◌else◌,
}
use karet_worker.Common.Dict.{lookup, insert, lookup-insert}
use karet_worker.Common.Result.{ok}
use karet_worker.Common.Text.{Text, bytes, split_once}
use karet_worker.Config.Types.{AnalyticTable}
use karet_worker.Job.World.{JobWorld, on_warehouse}
use karet_worker.Job.Sources.{TablePublish, next_publish, read_publishes}
use karet_worker.Job.Mappings.{put_partition, after_put, upload_partitions_async, written_file}
use karet_worker.Manifest.Files.{version_prefix, empty}
use karet_worker.Manifest.Bucket.{
  Objects, Codec, refused, request, deliver, get_bytes, put_object, read_current,
}
use karet_worker.Pipeline.Partitions.{PartitionOutput}

-- The next request to the warehouse is refused, and no other.
abbrev pub refusing : Objects → Text → JobWorld → JobWorld
refusing o e w = record w { warehouse = record { objects = o; faults = refused e ∷ [] } }

module _ {F : Type 0} (c : Codec) (prefix : Text) (clean_run : Bool) (table : AnalyticTable F)
    (o : Objects) (e : Text) (w : JobWorld) where
  unread_publishes : read_publishes c prefix clean_run (table ∷ []) [] (refusing o e w) ≡ (
    ok (next_publish prefix clean_run table.id empty []),
    record w { warehouse = record { objects = o; faults = [] } },
  )
  unfolding read_publishes read_current on_warehouse get_bytes request deliver
  unread_publishes = refl

  no_files : (clean : Bool) → (if clean then [] else empty.files) ≡ []
  unfolding empty
  no_files true = refl
  no_files false = refl

  -- A run that cannot read the version pointer of its table takes the table for one that was never
  -- published, whatever the bucket holds of it: the version that it writes is 1, no file is carried
  -- over, and the object of a partition replaces the one that version 1 has under that key. Condition:
  -- the read of the pointer is refused, the requests after it are answered, and the partition's key
  -- begins with the table.
  pub unread_pointer-overwrites :
      (p : PartitionOutput) (rest mapping_id : Text)
      → split_once p.key b'/' ≡ some (table.id, rest)
      → let (publishes, w₁) = read_publishes c prefix clean_run (table ∷ []) [] (refusing o e w) in
        let (sent, w₂) = upload_partitions_async prefix 1 mapping_id (p ∷ []) w₁ in
        ((publish : TablePublish) × (publishes ≡ ok ((table.id, publish) ∷ []))
          × (publish.version ≡ 1)
          × (publish.files ≡ []))
        × (sent ≡ ok (written_file (version_prefix 1 ++ rest) mapping_id p ∷ []))
        × (lookup
              (prefix ++ (table.id ++ (bytes "/" ++ (version_prefix 1 ++ rest))))
              w₂.warehouse.objects
            ≡ some p.bytes)
  unfolding upload_partitions_async on_warehouse put_object request deliver insert empty
  unread_pointer-overwrites p rest mapping_id found =
      rw (unread_publishes, found)
        (unfold put_partition after_put in
          (
            (_, refl, refl, no_files clean_run),
            refl,
            ground (
              arith,
              lookup-insert (prefix ++ (table.id ++ (bytes "/" ++ (version_prefix 1 ++ rest))))
                  (prefix ++ (table.id ++ (bytes "/" ++ (version_prefix 1 ++ rest)))) p.bytes o,
            ),
          ))

-- ===== src/Job/Mappings/Upload.antt =====
-- `upload_partitions_async` of src/job.rs: the objects behind the files that it reports.
use mathlib.Core.List.{append_cancel_left}
use mathlib.Core.Path.{subst}
use karet_worker.Common.{
  ℕ, ◌≡◌, refl, sym, ap, ◌∙◌, ◌⊎◌, inl, inr, ◌==◌, ==_iff, Bool-cases, true, Option, none, some,
  List, [], ◌∷◌, ◌++◌, nat_eq, text_eq, All, arith,
}
use karet_worker.Common.Dict.{lookup, insert, lookup-insert}
use karet_worker.Common.Result.{Result, ok, err, Result-cases}
use karet_worker.Common.Text.{Text, bytes, split_once}
use karet_worker.Job.World.{JobWorld, Run, on_warehouse}
use karet_worker.Job.Mappings.{full_key, after_put, put_partition, upload_partitions_async}
use karet_worker.Manifest.Files.{ManifestFile, version_prefix}
use karet_worker.Manifest.Bucket.{
  Objects, Bucket, Fault, works, refused, reply_lost, deliver, request, put_object,
}
use karet_worker.Manifest.Bucket.Requests.{deliver_objects}
use karet_worker.Config.Types.{Mapping, AnalyticTable}
use karet_worker.Pipeline.{Libraries}
use karet_worker.Pipeline.Partitions.{PartitionOutput, produce_partitions}
use karet_worker.Pipeline.Partitions.Paths.{Below, produce_partitions-Below, split_once_slash}
use karet_worker.Pipeline.Segment.Laws.{no_slash}

-- Objects whose contents are known: an object is there, and its body is one that `Q` allows.
module _ (Q : Text → Text → Type 0) where
  abbrev Holds : Text → Objects → Type 0
  Holds k o = (body : Text) × (lookup k o ≡ some body) × Q k body

  Holds-insert :
      (key body k : Text) (o : Objects) → Q key body → Holds k o → Holds k (insert key body o)
  Holds-insert key body k o q (old, there, allowed) = elim (Bool-cases (k == key)) [
    | inl same ↦ (
      body,
      ground (arith, same, lookup-insert k key body o),
      subst (λ t. Q t body) (sym ((==_iff k key).0 same)) q,
    )
    | inr other ↦ (old, ground (arith, other, there, lookup-insert k key body o), allowed)
  ]

  Holds-put_object :
      (key body k : Text) (b : Bucket)
      → Q key body
      → Holds k b.objects
      → Holds k (put_object key body b).1.objects
  unfolding put_object request
  Holds-put_object key body k b q h =
      elim (deliver_objects (λ o. (ok (tt {0}), insert key body o)) b b.faults) [
        | inl e ↦ subst (Holds k) (sym e) h
        | inr e ↦ subst (Holds k) (sym e) (Holds-insert key body k b.objects q h)
      ]

  put_object_answered :
      (key body : Text) (b : Bucket) {a : Unit {0}}
      → Q key body
      → (put_object key body b).0 ≡ ok a
      → Holds key (put_object key body b).1.objects
  unfolding put_object request deliver
  put_object_answered key body b {a} q e = by_fault b.faults e
    where
      there : Holds key (insert key body b.objects)
      there = (body, ground (arith, lookup-insert key key body b.objects), q)

      by_fault :
          (fs : List Fault)
          → (deliver fs (λ o. (ok (tt {0}), insert key body o)) b).0 ≡ ok a
          → Holds key (deliver fs (λ o. (ok (tt {0}), insert key body o)) b).1.objects
      by_fault [] h = there
      by_fault (works ∷ fs) h = there
      by_fault (refused x ∷ fs) h = absurd (ground (arith, h))
      by_fault (reply_lost x ∷ fs) h = absurd (ground (arith, h))

  module _ (prefix : Text) (version : ℕ) (mapping_id table_id : Text) where
    -- What is put of a partition is allowed under its key.
    abbrev Allowed : PartitionOutput → Type 0
    Allowed p =
        (t rest : Text)
        → split_once p.key b'/' ≡ some (t, rest)
        → Q (full_key prefix version mapping_id t rest) p.bytes

    abbrev OfTable : PartitionOutput → Type 0
    OfTable p = (rest : Text) × (split_once p.key b'/' ≡ some (table_id, rest))

    -- The object of a file of the table.
    abbrev Backed : JobWorld → ManifestFile → Type 0
    Backed w f = Holds (prefix ++ (table_id ++ (bytes "/" ++ f.key))) w.warehouse.objects

    Holds-after_put :
        (key k : Text) (f : ManifestFile) (more : Run (Result (List ManifestFile) Text))
        (sent : Result (Unit {0}) Text) (w : JobWorld)
        → ((v : JobWorld) → Holds k v.warehouse.objects → Holds k (more v).1.warehouse.objects)
        → Holds k w.warehouse.objects
        → Holds k (after_put prefix version mapping_id key f more sent w).1.warehouse.objects
    unfolding after_put
    Holds-after_put key k f more (err e) w stays h = h
    Holds-after_put key k f more (ok _) w stays h = stays w h

    Holds-upload :
        (k : Text) (ps : List PartitionOutput) (w : JobWorld)
        → All Allowed ps
        → Holds k w.warehouse.objects
        → Holds k (upload_partitions_async prefix version mapping_id ps w).1.warehouse.objects
    unfolding upload_partitions_async
    Holds-upload k [] w all h = h
    Holds-upload k (p ∷ ps) w (allowed, all) h =
        at_key (split_once p.key b'/') refl (λ v. Holds-upload k ps v all)
      where
        at_key :
            (o : Option (Text × Text))
            → split_once p.key b'/' ≡ o
            → ((v : JobWorld)
                → Holds k v.warehouse.objects
                → Holds k
                    (upload_partitions_async prefix version mapping_id ps v).1.warehouse.objects)
            → Holds k
                (put_partition prefix version mapping_id p
                  (upload_partitions_async prefix version mapping_id ps)
                  o
                  w).1.warehouse.objects
        at_key none e stays = unfold put_partition in h
        at_key (some (t, rest)) e stays =
            unfold put_partition on_warehouse in
            Holds-after_put _ k _ _ _ _ stays
              (Holds-put_object _ p.bytes k w.warehouse (allowed t rest e) h)

    -- The result behind a put that was answered.
    behind_answer :
        (f : ManifestFile) (key : Text) (more : Run (Result (List ManifestFile) Text))
        (sent : Result (Unit {0}) Text) (w : JobWorld) {files : List ManifestFile}
        → ((fs : List ManifestFile) → (more w).0 ≡ ok fs → All (Backed (more w).1) fs)
        → ((a : Unit {0}) → sent ≡ ok a → Backed (more w).1 f)
        → (after_put prefix version mapping_id key f more sent w).0 ≡ ok files
        → All (Backed (after_put prefix version mapping_id key f more sent w).1) files
    unfolding after_put
    behind_answer f key more (err e) w ih here h = absurd (ground (arith, h))
    behind_answer f key more (ok a) w {files} ih here h = elim (Result-cases (more w).0) [
      | inl (fs, done) ↦
          let same : f ∷ fs ≡ files = ground (arith, done, h) in
          rw (← same) (here a refl, ih fs done)
      | inr (e, failed) ↦ absurd (ground (arith, failed, h))
    ]

    upload-Backed :
        (ps : List PartitionOutput) (w : JobWorld) {files : List ManifestFile}
        → All OfTable ps
        → All Allowed ps
        → (upload_partitions_async prefix version mapping_id ps w).0 ≡ ok files
        → All (Backed (upload_partitions_async prefix version mapping_id ps w).1) files
    unfolding upload_partitions_async
    upload-Backed [] w {files} all some_allowed e =
        let same : [] ≡ files = ground (arith, e) in rw (← same) tt
    upload-Backed (p ∷ ps) w {files} ((rest, found), all) (allowed, others) e =
        rw (found) (at_table (λ v fs. upload-Backed ps v {files = fs} all others) (rw (found) at e))
      where
        at_table :
            ((v : JobWorld) (fs : List ManifestFile)
              → (upload_partitions_async prefix version mapping_id ps v).0 ≡ ok fs
              → All (Backed (upload_partitions_async prefix version mapping_id ps v).1) fs)
            → (put_partition prefix version mapping_id p
                (upload_partitions_async prefix version mapping_id ps)
                (some (table_id, rest))
                w).0
              ≡ ok files
            → All
                (Backed
                  (put_partition prefix version mapping_id p
                    (upload_partitions_async prefix version mapping_id ps)
                    (some (table_id, rest))
                    w).1)
                files
        at_table ih h =
            unfold put_partition on_warehouse in
            behind_answer _ _ _ _ _ (ih _)
              (λ a answered.
                Holds-upload _ ps _ others (
                  put_object_answered _ p.bytes w.warehouse (allowed table_id rest found) answered))
              h

abbrev pub Among : PartitionOutput → List PartitionOutput → Type 0
Among p [] = ⊥
Among p (q ∷ ps) = (p ≡ q) ⊎ Among p ps

-- The object of a file of the table stands below the version, and holds the bytes of a partition that
-- has its key.
abbrev pub Stored : Text → ℕ → Text → List PartitionOutput → JobWorld → ManifestFile → Type 0
Stored prefix version table_id partitions w f =
    (p : PartitionOutput) × (rest : Text) × Among p partitions
    × (p.key ≡ table_id ++ (bytes "/" ++ rest))
    × (f.key ≡ version_prefix version ++ rest)
    × (lookup (prefix ++ (table_id ++ (bytes "/" ++ f.key))) w.warehouse.objects ≡ some p.bytes)

module _ (prefix : Text) (version : ℕ) (mapping_id table_id : Text)
    (partitions : List PartitionOutput) where
  abbrev Source : Text → Text → Type 0
  Source k body =
      (p : PartitionOutput) × (rest : Text) × Among p partitions
      × (p.key ≡ table_id ++ (bytes "/" ++ rest))
      × (k ≡ prefix ++ (table_id ++ (bytes "/" ++ (version_prefix version ++ rest))))
      × (body ≡ p.bytes)

  stored_from :
      (w : JobWorld) (f : ManifestFile)
      → Backed Source prefix version mapping_id table_id w f
      → Stored prefix version table_id partitions w f
  stored_from w f (body, there, (p, rest, among, named, placed, same)) = (
    p,
    rest,
    among,
    named,
    append_cancel_left (bytes "/") _ _
        (append_cancel_left table_id _ _ (append_cancel_left prefix _ _ placed)),
    there ∙ ap some same,
  )

  each_stored :
      (w : JobWorld) (files : List ManifestFile)
      → All (Backed Source prefix version mapping_id table_id w) files
      → All (Stored prefix version table_id partitions w) files
  each_stored w [] all = tt
  each_stored w (f ∷ files) (kept, all) = (stored_from w f kept, each_stored w files all)

-- Each file that an upload reports of what a mapping produced for a table has a key below the version,
-- and its object, below the table, holds the bytes of the partition with that key, or of one of them
-- where several have it, whatever requests fail. Condition: no slash in the id of the table.
pub produced-Stored :
    {F : Type 0} (x : Libraries F) (mapping : Mapping F) (table : AnalyticTable F)
    (df : x.polars.Frame) (prefix : Text) (version : ℕ) (w : JobWorld)
    {partitions : List PartitionOutput} {files : List ManifestFile}
    → no_slash table.id ≡ true
    → produce_partitions x df mapping table ≡ ok partitions
    → (upload_partitions_async prefix version mapping.id partitions w).0 ≡ ok files
    → All
        (Stored prefix version table.id partitions
          (upload_partitions_async prefix version mapping.id partitions w).1)
        files
produced-Stored x mapping table df prefix version w {partitions} {files} plain produced sent =
    let below = produce_partitions-Below x mapping table df produced in
    each_stored prefix version mapping.id table.id partitions
      (upload_partitions_async prefix version mapping.id partitions w).1 files
      (upload-Backed (Source prefix version mapping.id table.id partitions) prefix version
        mapping.id table.id partitions w (of_table partitions below)
        (allowed partitions (λ p among. among) below) sent)
  where
    found_at :
        (p : PartitionOutput) (rest : Text)
        → p.key ≡ table.id ++ (bytes "/" ++ rest)
        → split_once p.key b'/' ≡ some (table.id, rest)
    found_at p rest e =
        ap (λ k. split_once k b'/') e ∙ unfold bytes in split_once_slash table.id rest plain

    of_table :
        (ps : List PartitionOutput)
        → All (Below x mapping table) ps
        → All
            (OfTable
              (Source prefix version mapping.id table.id partitions)
              prefix
              version
              mapping.id
              table.id)
            ps
    of_table [] all = tt
    of_table (p ∷ ps) ((rest, e), all) = ((rest, found_at p rest e), of_table ps all)

    allowed :
        (ps : List PartitionOutput)
        → ((p : PartitionOutput) → Among p ps → Among p partitions)
        → All (Below x mapping table) ps
        → All
            (Allowed
              (Source prefix version mapping.id table.id partitions)
              prefix
              version
              mapping.id
              table.id)
            ps
    allowed [] inside all = tt
    allowed (p ∷ ps) inside ((rest, e), all) = (
      λ t rest' found.
          let same : (t ≡ table.id) × (rest' ≡ rest) = ground (arith, found, found_at p rest e) in
          (
            p,
            rest,
            inside p (inl refl),
            e,
            ap (λ s. prefix ++ (s ++ (bytes "/" ++ (version_prefix version ++ rest')))) same.0
                ∙ ap (λ s. prefix ++ (table.id ++ (bytes "/" ++ (version_prefix version ++ s))))
                    same.1,
            refl,
          ),
      allowed ps (λ q among. inside q (inr among)) all,
    )

-- ===== src/Manifest/Vacuum.antt =====
-- `vacuum` of src/manifest.rs: deleting what no retained manifest refers to.
pub mod Safe
pub mod Keeps
use karet_worker.Common.{
  ℕ, suc, ◌&&◌, not, Option, none, some, List, [], ◌∷◌, ◌++◌, map, text_eq, nat_eq, leb, retain,
  contains,
}
use karet_worker.Common.Result.{Result, ok, err}
use karet_worker.Common.Text.{Text, bytes, strip_prefix, strip_suffix, parse_u64, to_string}
use karet_worker.Manifest.Files.{
  TableManifest, manifest_prefix, manifest_key, retained_versions, unreferenced_keys,
}
use karet_worker.Manifest.Versions.{versions_to_drop}
use karet_worker.Manifest.Bucket.{Proc, pure, ◌>>=◌, list_keys, delete_object, Codec, read_version}

-- `filter_map`
unfoldable pub filter_map : {A B : Type 0} → (A → Option B) → List A → List B
filter_map f [] = []
filter_map f (x ∷ xs) = let rest = filter_map f xs in elim (f x) [ none ↦ rest | some y ↦ y ∷ rest ]

abbrev and_then : {A B : Type 0} → Option A → (A → Option B) → Option B
and_then none f = none
and_then (some a) f = f a

-- The version whose manifest a key holds.
unfoldable pub version_of_key : Text → Option ℕ
version_of_key k =
    and_then (strip_prefix k manifest_prefix)
      (λ v. and_then (strip_suffix v (bytes ".json")) parse_u64)

unfoldable pub versions_in : List Text → List ℕ
versions_in relative = filter_map version_of_key relative

unfoldable pub doomed_versions : ℕ → List ℕ → List ℕ
doomed_versions current versions = versions_to_drop versions current retained_versions

unfoldable pub kept_versions : ℕ → List ℕ → List ℕ
kept_versions current versions =
    retain (λ v. not (contains (doomed_versions current versions) v) && leb v current) versions

-- The keys below the prefix of the table, without it.
unfoldable pub relative_keys : Text → List Text → List Text
relative_keys table_prefix all = filter_map (λ k. strip_prefix k table_prefix) all

abbrev pub and_first :
    TableManifest → Result (List TableManifest) Text → Result (List TableManifest) Text
and_first m (ok ms) = ok (m ∷ ms)
and_first m (err e) = err e

-- An unreadable manifest ends the vacuum before anything is deleted.
abbrev pub unreadable : ℕ → Text → Text
unreadable v e = bytes "vacuum aborted, manifest " ++ (to_string v ++ (bytes " unreadable: " ++ e))

module _ (c : Codec) (table_prefix : Text) where
  unfoldable pub read_all : List ℕ → Proc (Result (List TableManifest) Text)
  read_all [] = pure (ok [])
  read_all (v ∷ vs) = do
    read ← read_version c table_prefix v
    elim read [
      | err e ↦ pure (err (unreadable v e))
      | ok m ↦ do rest ← read_all vs; pure (and_first m rest)
    ]

  -- A delete that fails is logged and passed over.
  unfoldable pub delete_all : List Text → Proc ℕ
  delete_all [] = pure 0
  delete_all (key ∷ keys) = do
    gone ← delete_object (table_prefix ++ key)
    deleted ← delete_all keys
    pure (elim gone [ ok _ ↦ suc deleted | err _ ↦ deleted ])

  unfoldable pub vacuum_listed : ℕ → List Text → Proc (Result ℕ Text)
  vacuum_listed current relative = do
    read ← read_all (kept_versions current (versions_in relative))
    elim read [
      | err e ↦ pure (err e)
      | ok retained ↦ do
        deleted ← delete_all (
            unreferenced_keys retained relative
            ++ map manifest_key (doomed_versions current (versions_in relative)))
        pure (ok deleted)
    ]

  unfoldable pub vacuum : ℕ → Proc (Result ℕ Text)
  vacuum current = do
    listed ← list_keys table_prefix
    elim listed [
      | ok all ↦ vacuum_listed current (relative_keys table_prefix all)
      | err e ↦ pure (err e)
    ]

-- ===== src/Manifest/Files.antt =====
-- The file lists of src/manifest.rs and the pure functions on them.
pub mod Writes
use karet_worker.Common.{
  ℕ, ◌+◌, Bool, ◌&&◌, not, Option, none, List, [], ◌∷◌, ◌++◌, ◌==◌, text_eq, retain, any,
  if◌then◌else◌,
}
use karet_worker.Common.Text.{Text, bytes, to_string, starts_with, text_le}

abbrev pub current_key : Text
current_key = bytes "_current.json"

abbrev pub manifest_prefix : Text
manifest_prefix = bytes "_manifests/"

abbrev pub retained_versions : ℕ
retained_versions = 10

pub record ManifestFile : Type 0 where
  pub key : Text
  pub mapping_id : Text
  pub bytes : ℕ

pub record TableManifest : Type 0 where
  pub version : ℕ
  pub created_at : Text
  pub job_id : Option Text
  pub files : List ManifestFile

unfoldable pub empty : TableManifest
empty = record { version = 0; created_at = []; job_id = none; files = [] }

abbrev sum_bytes : List ManifestFile → ℕ
sum_bytes [] = 0
sum_bytes (f ∷ fs) = f.bytes + sum_bytes fs

-- The sum of `u64`s; a lake's bytes are far below the limit.
unfoldable pub total_bytes : TableManifest → ℕ
total_bytes m = sum_bytes m.files

unfoldable pub version_prefix : ℕ → Text
version_prefix version = bytes "v" ++ (to_string version ++ bytes "/")

unfoldable pub manifest_key : ℕ → Text
manifest_key version = manifest_prefix ++ (to_string version ++ bytes ".json")

-- `sort_by` is stable: insertion behind the keys that are not greater.
unfoldable pub insert_by_key : ManifestFile → List ManifestFile → List ManifestFile
insert_by_key f [] = f ∷ []
insert_by_key f (g ∷ fs) =
    let rest = insert_by_key f fs in if text_le f.key g.key then f ∷ g ∷ fs else g ∷ rest

unfoldable pub sort_by_key : List ManifestFile → List ManifestFile
sort_by_key [] = []
sort_by_key (f ∷ fs) = insert_by_key f (sort_by_key fs)

unfoldable pub apply_mapping_writes :
    List ManifestFile → Text → List ManifestFile → List ManifestFile
apply_mapping_writes previous mapping_id files =
    sort_by_key (retain (λ f. not (f.mapping_id == mapping_id)) previous ++ files)

-- `referenced.contains(k)`, over the files of all retained manifests.
unfoldable pub referenced : List TableManifest → Text → Bool
referenced retained k = any (λ m. any (λ f. f.key == k) m.files) retained

unfoldable pub unreferenced_keys : List TableManifest → List Text → List Text
unreferenced_keys retained present =
    retain
      (λ k.
        not (starts_with k manifest_prefix)
        && (not (k == current_key) && not (referenced retained k)))
      present

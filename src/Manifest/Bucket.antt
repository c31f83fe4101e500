-- ===== src/Manifest/Bucket.antt =====
-- Reading, publishing and vacuuming a table version in src/manifest.rs, over the objects of a
-- bucket. A request to the store may fail, before or after it is carried out.
pub mod Publish
pub mod Requests
pub mod Keeps
use karet_worker.Common.{
  ◌≡◌, ℕ, suc, ◌+◌, Bool, true, false, ◌&&◌, not, Option, none, some, List, [], ◌∷◌, ◌++◌, map,
  ◌==◌, text_eq, nat_eq, leb, retain, contains, if◌then◌else◌,
}
use karet_worker.Common.Dict.{Dict, lookup, insert, erase}
use karet_worker.Common.Result.{Result, ok, err}
use karet_worker.Common.Text.{Text, bytes, starts_with, strip_prefix, to_string}
use karet_worker.Manifest.Files.{
  TableManifest, empty, current_key, manifest_prefix, manifest_key, retained_versions,
  unreferenced_keys,
}
use karet_worker.Manifest.Versions.{versions_to_drop}

abbrev pub Objects : Type 0
Objects = Dict Text Text

pub data Fault : Type 0 where
  works : Fault
  refused : Text → Fault
  reply_lost : Text → Fault

pub record Bucket : Type 0 where
  pub objects : Objects
  pub faults : List Fault

abbrev pub Proc {ℓ} : Type ℓ → Type ℓ
Proc A = Bucket → A × Bucket

infixl 5 ◌>>=◌
abbrev pub ◌>>=◌ {ℓ κ} : {A : Type ℓ} {B : Type κ} → Proc A → (A → Proc B) → Proc B
◌>>=◌ m f b = let (a, b') = m b in f a b'

abbrev pub pure {ℓ} : {A : Type ℓ} → A → Proc A
pure a b = (a, b)

unfoldable pub deliver :
    {A : Type 0}
    → List Fault
    → (Objects → Result A Text × Objects)
    → Bucket
    → Result A Text × Bucket
deliver [] f b = let (a, o) = f b.objects in (a, record { objects = o; faults = [] })
deliver (works ∷ fs) f b = let (a, o) = f b.objects in (a, record { objects = o; faults = fs })
deliver (refused e ∷ fs) f b = (err e, record { objects = b.objects; faults = fs })
deliver (reply_lost e ∷ fs) f b =
    let (a, o) = f b.objects in (err e, record { objects = o; faults = fs })

unfoldable pub request : {A : Type 0} → (Objects → Result A Text × Objects) → Proc (Result A Text)
request f b = deliver b.faults f b

-- `s3::get_bytes`: an absent key is an error of the store.
abbrev pub found : Text → Option Text → Result Text Text
found key none = err (bytes "S3 GetObject failed for " ++ key)
found key (some body) = ok body

unfoldable pub get_bytes : Text → Proc (Result Text Text)
get_bytes key = request (λ o. (found key (lookup key o), o))

unfoldable pub put_object : Text → Text → Proc (Result (Unit {0}) Text)
put_object key body = request (λ o. (ok tt, insert key body o))

unfoldable pub delete_object : Text → Proc (Result (Unit {0}) Text)
delete_object key = request (λ o. (ok tt, erase key o))

abbrev pub keys : Objects → List Text
keys [] = []
keys ((k, v) ∷ o) = k ∷ keys o

-- `s3::list_keys`, all pages.
unfoldable pub list_keys : Text → Proc (Result (List Text) Text)
list_keys prefix = request (λ o. (ok (retain (λ k. starts_with k prefix) (keys o)), o))

-- serde_json on the two kinds of objects.
pub record Codec : Type 0 where
  pub pointer_to_json : ℕ → Text
  pub pointer_from_json : Text → Option ℕ
  pub manifest_to_json : TableManifest → Text
  pub manifest_from_json : Text → Option TableManifest

-- A manifest and its version are parsed back from what is printed of them.
pub record IsFaithful (c : Codec) (m : TableManifest) : Type 0 where
  pub pointer : c.pointer_from_json (c.pointer_to_json m.version) ≡ some m.version
  pub manifest : c.manifest_from_json (c.manifest_to_json m) ≡ some m

module _ (c : Codec) (prefix : Text) where
  abbrev parsed_manifest : Text → Option TableManifest → Result TableManifest Text
  parsed_manifest key none = err (key ++ bytes " is not a manifest")
  parsed_manifest key (some m) = ok m

  abbrev pub manifest_of : Text → Result Text Text → Result TableManifest Text
  manifest_of key (err e) = err e
  manifest_of key (ok body) = parsed_manifest key (c.manifest_from_json body)

  unfoldable pub read_version : ℕ → Proc (Result TableManifest Text)
  read_version version = do
    body ← get_bytes (prefix ++ manifest_key version)
    pure (manifest_of (prefix ++ manifest_key version) body)

  -- Any failure to read the pointer counts as an unpublished table.
  unfoldable pub read_current : Proc (Result TableManifest Text)
  read_current = do
    body ← get_bytes (prefix ++ current_key)
    elim body [
      | err _ ↦ pure (ok empty)
      | ok text ↦ elim (c.pointer_from_json text) [
        | none ↦ pure (err (prefix ++ (current_key ++ bytes " is not a version pointer")))
        | some version ↦ read_version version
      ]
    ]

  -- The manifest first, then the pointer.
  unfoldable pub publish : TableManifest → Proc (Result (Unit {0}) Text)
  publish m = do
    written ← put_object (prefix ++ manifest_key m.version) (c.manifest_to_json m)
    elim written [
      | err e ↦ pure (err e)
      | ok _ ↦ put_object (prefix ++ current_key) (c.pointer_to_json m.version)
    ]

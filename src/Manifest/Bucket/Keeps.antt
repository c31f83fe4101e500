-- ===== src/Manifest/Bucket/Keeps.antt =====
-- Which objects of a bucket the procedures of src/manifest.rs leave alone.
use mathlib.Core.Path.{subst}
use karet_worker.Common.{
  ℕ, ◌≡◌, ◌≢◌, refl, ap, ◌∙◌, inl, inr, Option, none, some, ◌++◌, arith, text_eq,
}
use karet_worker.Common.Dict.{lookup, insert, erase, lookup-insert_other, lookup-erase}
use karet_worker.Common.Result.{Result, ok, err}
use karet_worker.Common.Text.{Text, bytes}
use karet_worker.Manifest.Files.{TableManifest, empty, current_key, manifest_key}
use karet_worker.Manifest.Bucket.{
  Objects, Bucket, Proc, ◌>>=◌, pure, request, get_bytes, put_object, delete_object, list_keys,
  Codec, manifest_of, read_version, read_current, publish,
}
use karet_worker.Manifest.Bucket.Requests.{deliver_objects, read_objects}

-- `K` tells the objects.
pub record Keeps {A : Type 0} (K : Text → Type 0) (m : Proc A) : Type 0 where
  pub at : (b : Bucket) (k : Text) → K k → lookup k (m b).1.objects ≡ lookup k b.objects

module _ {K : Text → Type 0} where
  pub pure-Keeps : {A : Type 0} (a : A) → Keeps K (pure a)
  pure-Keeps a = record { at = λ b k h. refl }

  pub >>=-Keeps :
      {A B : Type 0} (m : Proc A) (f : A → Proc B)
      → Keeps K m
      → ((a : A) → Keeps K (f a))
      → Keeps K (m >>= f)
  >>=-Keeps m f km kf = record { at = λ b k h. (kf (m b).0).at (m b).1 k h ∙ km.at b k h }

  read-Keeps : {A : Type 0} (f : Objects → Result A Text) → Keeps K (request (λ o. (f o, o)))
  read-Keeps f = record { at = λ b k h. ap (lookup k) (read_objects f b) }

  pub get_bytes-Keeps : (key : Text) → Keeps K (get_bytes key)
  unfolding get_bytes
  get_bytes-Keeps key = read-Keeps _

  pub list_keys-Keeps : (prefix : Text) → Keeps K (list_keys prefix)
  unfolding list_keys
  list_keys-Keeps prefix = read-Keeps _

  pub put_object-Keeps : (key body : Text) → ¬ K key → Keeps K (put_object key body)
  unfolding put_object request
  put_object-Keeps key body free = record {
    at = λ b k h. elim (deliver_objects (λ o. (ok (tt {0}), insert key body o)) b b.faults) [
      | inl e ↦ ap (lookup k) e
      | inr e ↦
          ap (lookup k) e ∙ lookup-insert_other k key body b.objects (λ same. free (subst K same h))
    ];
  }

  pub delete_object-Keeps : (key : Text) → ¬ K key → Keeps K (delete_object key)
  unfolding delete_object request
  delete_object-Keeps key free = record { at = λ b k h. kept b k (λ same. free (subst K same h)) }
    where
      kept :
          (b : Bucket) (k : Text)
          → k ≢ key
          → lookup k (delete_object key b).1.objects ≡ lookup k b.objects
      kept b k other = elim (deliver_objects (λ o. (ok (tt {0}), erase key o)) b b.faults) [
        | inl e ↦ ap (lookup k) e
        | inr e ↦ ap (lookup k) e ∙ ground (arith, other, lookup-erase k key b.objects)
      ]

  module _ (c : Codec) (prefix : Text) where
    pub read_version-Keeps : (v : ℕ) → Keeps K (read_version c prefix v)
    unfolding read_version
    read_version-Keeps v =
        >>=-Keeps _ _ (get_bytes-Keeps _)
          (λ body. pure-Keeps (manifest_of c prefix (prefix ++ manifest_key v) body))

    pub read_current-Keeps : Keeps K (read_current c prefix)
    unfolding read_current
    read_current-Keeps = >>=-Keeps _ _ (get_bytes-Keeps _) found
      where
        pointed :
            (p : Option ℕ)
            → Keeps K (elim p as (λ _. Proc (Result TableManifest Text)) [
              | none ↦ pure (err (prefix ++ (current_key ++ bytes " is not a version pointer")))
              | some version ↦ read_version c prefix version
            ])
        pointed none = pure-Keeps _
        pointed (some version) = read_version-Keeps version

        found :
            (body : Result Text Text)
            → Keeps K (elim body as (λ _. Proc (Result TableManifest Text)) [
              | err _ ↦ pure (ok empty)
              | ok text ↦ elim (c.pointer_from_json text) [
                | none ↦ pure (err (prefix ++ (current_key ++ bytes " is not a version pointer")))
                | some version ↦ read_version c prefix version
              ]
            ])
        found (err e) = pure-Keeps _
        found (ok text) = pointed (c.pointer_from_json text)

    -- Publishing writes the pointer and a manifest.
    pub publish-Keeps :
        (m : TableManifest) → ((key : Text) → ¬ K (prefix ++ key)) → Keeps K (publish c prefix m)
    unfolding publish
    publish-Keeps m free = >>=-Keeps _ _ (put_object-Keeps _ _ (free (manifest_key m.version))) rest
      where
        rest :
            (written : Result (Unit {0}) Text)
            → Keeps K (elim written as (λ _. Proc (Result (Unit {0}) Text)) [
              | err e ↦ pure (err e)
              | ok _ ↦ put_object (prefix ++ current_key) (c.pointer_to_json m.version)
            ])
        rest (err e) = pure-Keeps _
        rest (ok _) = put_object-Keeps _ _ (free current_key)

-- ===== src/Manifest/Bucket/Publish.antt =====
-- `publish` of src/manifest.rs and what readers of the table see.
use mathlib.Core.List.{append_cancel_left, append_cancel_right}
use karet_worker.Common.{
  ℕ, ◌≡◌, ◌≢◌, refl, sym, ap, ◌⊎◌, inl, inr, Option, none, some, List, [], ◌∷◌, ◌++◌, arith,
  text_eq, Option-cases,
}
use karet_worker.Common.Dict.{lookup, insert, lookup-insert, lookup-insert_other}
use karet_worker.Common.Result.{Result, ok, err}
use karet_worker.Common.Text.{Text, bytes}
use karet_worker.Common.Text.Decimal.{to_string_inj}
use karet_worker.Manifest.Files.{TableManifest, empty, current_key, manifest_prefix, manifest_key}
use karet_worker.Manifest.Bucket.{
  Objects, Fault, works, refused, reply_lost, Bucket, deliver, request, found, get_bytes,
  put_object, Codec, IsFaithful, manifest_of, read_version, read_current, publish,
}

-- What a reader sees of the table in a bucket that answers.
module _ (c : Codec) (prefix : Text) where
  abbrev pub at_version : Objects → ℕ → Result TableManifest Text
  at_version o v =
      manifest_of c prefix (prefix ++ manifest_key v)
        (found (prefix ++ manifest_key v) (lookup (prefix ++ manifest_key v) o))

  abbrev pub at_pointer : Objects → Option ℕ → Result TableManifest Text
  at_pointer o none = err (prefix ++ (current_key ++ bytes " is not a version pointer"))
  at_pointer o (some v) = at_version o v

  abbrev pub at_body : Objects → Option Text → Result TableManifest Text
  at_body o none = ok empty
  at_body o (some t) = at_pointer o (c.pointer_from_json t)

  unfoldable pub seen : Objects → Result TableManifest Text
  seen o = at_body o (lookup (prefix ++ current_key) o)

  -- The program's reader sees just that.
  read_current-seen :
      (o : Objects) → (read_current c prefix (record { objects = o; faults = [] })).0 ≡ seen o
  unfolding seen read_current read_version get_bytes request deliver
  read_current-seen o = ground arith

-- A manifest and the pointer are different objects, and so are the manifests of two versions.
manifest_key-ne-current : (v : ℕ) → manifest_key v ≢ current_key
unfolding manifest_key bytes
manifest_key-ne-current v e = ground arith

manifest_key_inj : (u v : ℕ) → manifest_key u ≡ manifest_key v → u ≡ v
unfolding manifest_key
manifest_key_inj u v e =
    to_string_inj u v (append_cancel_right _ _ _ (append_cancel_left manifest_prefix _ _ e))

module _ (c : Codec) (prefix : Text) where
  key-ne-pointer : (v : ℕ) → prefix ++ manifest_key v ≢ prefix ++ current_key
  key-ne-pointer v e = manifest_key-ne-current v (append_cancel_left prefix _ _ e)

  key_inj : (u v : ℕ) → prefix ++ manifest_key u ≡ prefix ++ manifest_key v → u ≡ v
  key_inj u v e = manifest_key_inj u v (append_cancel_left prefix _ _ e)

  -- Writing a manifest leaves the pointer.
  at_pointer_key :
      (v : ℕ) (body : Text) (o : Objects)
      → lookup (prefix ++ current_key) (insert (prefix ++ manifest_key v) body o)
        ≡ lookup (prefix ++ current_key) o
  at_pointer_key v body o =
      lookup-insert_other (prefix ++ current_key) (prefix ++ manifest_key v) body o
        (λ e. key-ne-pointer v (sym e))

  -- Nor does it touch another version.
  at_version_other :
      (u v : ℕ) (body : Text) (o : Objects)
      → u ≢ v
      → at_version c prefix (insert (prefix ++ manifest_key v) body o) u ≡ at_version c prefix o u
  at_version_other u v body o ne = rw (
      lookup-insert_other (prefix ++ manifest_key u) (prefix ++ manifest_key v) body o
        (λ e. ne (key_inj u v e)))

  -- Nor what a pointer to another version shows.
  at_pointer_other :
      (p : Option ℕ) (v : ℕ) (body : Text) (o : Objects)
      → p ≢ some v
      → at_pointer c prefix (insert (prefix ++ manifest_key v) body o) p ≡ at_pointer c prefix o p
  at_pointer_other none v body o ne = refl
  at_pointer_other (some u) v body o ne = at_version_other u v body o (λ e. ne (ap some e))

  -- The manifest alone changes nothing for a reader.
  seen_manifest_only :
      (m : TableManifest) (o : Objects)
      → ((t : Text)
          → lookup (prefix ++ current_key) o ≡ some t
          → c.pointer_from_json t ≢ some m.version)
      → seen c prefix (insert (prefix ++ manifest_key m.version) (c.manifest_to_json m) o)
        ≡ seen c prefix o
  unfolding seen
  seen_manifest_only m o fresh = elim (Option-cases (lookup (prefix ++ current_key) o)) [
    | inl e ↦ rw (seen, at_pointer_key m.version (c.manifest_to_json m) o, e)
    | inr (t, e) ↦ rw (
      seen,
      at_pointer_key m.version (c.manifest_to_json m) o,
      e,
      at_pointer_other (c.pointer_from_json t) m.version (c.manifest_to_json m) o (fresh t e),
    )
  ]

  -- With the pointer behind it, a reader sees the manifest.
  seen_published :
      (m : TableManifest) (o : Objects)
      → IsFaithful c m
      → seen c prefix (
          insert
            (prefix ++ current_key)
            (c.pointer_to_json m.version)
            (insert (prefix ++ manifest_key m.version) (c.manifest_to_json m) o))
        ≡ ok m
  unfolding seen
  seen_published m o faithful = ground (
    arith,
    key-ne-pointer m.version,
    faithful.pointer,
    faithful.manifest,
    lookup-insert (prefix ++ current_key) (prefix ++ current_key) (c.pointer_to_json m.version)
        (insert (prefix ++ manifest_key m.version) (c.manifest_to_json m) o),
    lookup-insert (prefix ++ manifest_key m.version) (prefix ++ current_key)
        (c.pointer_to_json m.version)
        (insert (prefix ++ manifest_key m.version) (c.manifest_to_json m) o),
    lookup-insert (prefix ++ manifest_key m.version) (prefix ++ manifest_key m.version)
        (c.manifest_to_json m) o,
  )

  -- The same by what happens to the two requests.
  published_after :
      (m : TableManifest) (o : Objects) (faults : List Fault)
      → IsFaithful c m
      → ((t : Text)
          → lookup (prefix ++ current_key) o ≡ some t
          → c.pointer_from_json t ≢ some m.version)
      → let (result, b') = publish c prefix m (record { objects = o; faults = faults }) in
        ((seen c prefix b'.objects ≡ seen c prefix o) ⊎ (seen c prefix b'.objects ≡ ok m))
        × (result ≡ ok tt → seen c prefix b'.objects ≡ ok m)
  unfolding publish put_object request deliver
  published_after m o [] faithful fresh =
      (inr (seen_published m o faithful), λ _. seen_published m o faithful)
  published_after m o (works ∷ []) faithful fresh =
      (inr (seen_published m o faithful), λ _. seen_published m o faithful)
  published_after m o (works ∷ works ∷ fs) faithful fresh =
      (inr (seen_published m o faithful), λ _. seen_published m o faithful)
  published_after m o (works ∷ refused x ∷ fs) faithful fresh =
      (inl (seen_manifest_only m o fresh), λ e. ground arith)
  published_after m o (works ∷ reply_lost x ∷ fs) faithful fresh =
      (inr (seen_published m o faithful), λ e. ground arith)
  published_after m o (refused x ∷ fs) faithful fresh = (inl refl, λ e. ground arith)
  published_after m o (reply_lost x ∷ fs) faithful fresh =
      (inl (seen_manifest_only m o fresh), λ e. ground arith)

  -- Publishing a version is atomic for readers, whatever requests fail: a reader that follows the
  -- pointer then sees exactly what it saw before, or the whole new manifest; and the new one if
  -- `publish` succeeded. Conditions: what is printed parses back, and the pointer does not name the
  -- version that is published.
  pub publish_atomic :
      (m : TableManifest) (b : Bucket)
      → IsFaithful c m
      → ((t : Text)
          → lookup (prefix ++ current_key) b.objects ≡ some t
          → c.pointer_from_json t ≢ some m.version)
      → let (result, b') = publish c prefix m b in
        ((seen c prefix b'.objects ≡ seen c prefix b.objects) ⊎ (seen c prefix b'.objects ≡ ok m))
        × (result ≡ ok tt → seen c prefix b'.objects ≡ ok m)
  publish_atomic m b faithful fresh = published_after m b.objects b.faults faithful fresh

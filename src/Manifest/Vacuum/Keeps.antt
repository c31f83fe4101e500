-- ===== src/Manifest/Vacuum/Keeps.antt =====
-- Which objects `vacuum` of src/manifest.rs leaves alone.
use karet_worker.Common.{ℕ, suc, List, [], ◌∷◌, ◌++◌, map}
use karet_worker.Common.Result.{Result, ok, err}
use karet_worker.Common.Text.{Text}
use karet_worker.Manifest.Files.{TableManifest, manifest_key, unreferenced_keys}
use karet_worker.Manifest.Bucket.{Proc, ◌>>=◌, pure, Codec}
use karet_worker.Manifest.Bucket.Keeps.{
  Keeps, pure-Keeps, >>=-Keeps, list_keys-Keeps, delete_object-Keeps, read_version-Keeps,
}
use karet_worker.Manifest.Vacuum.{
  and_first, unreadable, read_all, delete_all, doomed_versions, versions_in, vacuum_listed,
  relative_keys, vacuum,
}

module _ {K : Text → Type 0} (c : Codec) (table_prefix : Text) where
  read_all-Keeps : (vs : List ℕ) → Keeps K (read_all c table_prefix vs)
  unfolding read_all
  read_all-Keeps [] = pure-Keeps _
  read_all-Keeps (v ∷ vs) =
      >>=-Keeps _ _ (read_version-Keeps c table_prefix v) (rest (read_all-Keeps vs))
    where
      rest :
          Keeps K (read_all c table_prefix vs)
          → (read : Result TableManifest Text)
          → Keeps K (elim read as (λ _. Proc (Result (List TableManifest) Text)) [
            | err e ↦ pure (err (unreadable v e))
            | ok m ↦ read_all c table_prefix vs >>= (λ others. pure (and_first m others))
          ])
      rest ih (err e) = pure-Keeps _
      rest ih (ok m) = >>=-Keeps _ _ ih (λ others. pure-Keeps (and_first m others))

  module _ (free : (key : Text) → ¬ K (table_prefix ++ key)) where
    delete_all-Keeps : (ks : List Text) → Keeps K (delete_all c table_prefix ks)
    unfolding delete_all
    delete_all-Keeps [] = pure-Keeps _
    delete_all-Keeps (k ∷ ks) = >>=-Keeps _ _ (delete_object-Keeps _ (free k)) λ gone.
        >>=-Keeps _ _ (delete_all-Keeps ks)
          λ deleted. pure-Keeps (elim gone as (λ _. ℕ) [ ok _ ↦ suc deleted | err _ ↦ deleted ])

    vacuum_listed-Keeps :
        (current : ℕ) (relative : List Text)
        → Keeps K (vacuum_listed c table_prefix current relative)
    unfolding vacuum_listed
    vacuum_listed-Keeps current relative = >>=-Keeps _ _ (read_all-Keeps _) rest
      where
        rest :
            (read : Result (List TableManifest) Text)
            → Keeps K (elim read as (λ _. Proc (Result ℕ Text)) [
              | err e ↦ pure (err e)
              | ok retained ↦
                  delete_all c table_prefix (
                    unreferenced_keys retained relative
                    ++ map manifest_key (doomed_versions current (versions_in relative)))
                  >>= (λ deleted. pure (ok deleted))
            ])
        rest (err e) = pure-Keeps _
        rest (ok retained) = >>=-Keeps _ _ (delete_all-Keeps _) (λ deleted. pure-Keeps (ok deleted))

    -- All that a vacuum deletes lies below the prefix of its table.
    pub vacuum-Keeps : (current : ℕ) → Keeps K (vacuum c table_prefix current)
    unfolding vacuum
    vacuum-Keeps current = >>=-Keeps _ _ (list_keys-Keeps _) rest
      where
        rest :
            (listed : Result (List Text) Text)
            → Keeps K (elim listed as (λ _. Proc (Result ℕ Text)) [
              | ok all ↦ vacuum_listed c table_prefix current (relative_keys table_prefix all)
              | err e ↦ pure (err e)
            ])
        rest (ok all) = vacuum_listed-Keeps current _
        rest (err e) = pure-Keeps _

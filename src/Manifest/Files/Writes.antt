-- ===== src/Manifest/Files/Writes.antt =====
-- What `apply_mapping_writes` of src/manifest.rs makes of a file list.
use karet_worker.Common.{
  ◌≡◌, refl, ◌∙◌, ap, Bool, ◌&&◌, ◌||◌, not, List, [], ◌∷◌, ◌++◌, arith, ◌==◌, text_eq, any,
  any-append, any-retain, retain,
}
use karet_worker.Common.Text.{Text}
use karet_worker.Manifest.Files.{ManifestFile, insert_by_key, sort_by_key, apply_mapping_writes}

any-insert_by_key :
    (q : ManifestFile → Bool) (f : ManifestFile) (fs : List ManifestFile)
    → any q (insert_by_key f fs) ≡ (q f || any q fs)
unfolding insert_by_key
any-insert_by_key q f [] = refl
any-insert_by_key q f (g ∷ fs) = ground (arith, any-insert_by_key q f fs)

any-sort_by_key :
    (q : ManifestFile → Bool) (fs : List ManifestFile) → any q (sort_by_key fs) ≡ any q fs
unfolding sort_by_key
any-sort_by_key q [] = refl
any-sort_by_key q (f ∷ fs) =
    any-insert_by_key q f (sort_by_key fs) ∙ ap (λ b. q f || b) (any-sort_by_key q fs)

-- A mapping's write replaces its own files and no others: a file of any description is in the new
-- list exactly when the previous list has it for another mapping, or it is among the files written.
pub any-apply_mapping_writes :
    (q : ManifestFile → Bool) (previous : List ManifestFile) (mapping_id : Text)
    (files : List ManifestFile)
    → any q (apply_mapping_writes previous mapping_id files)
      ≡ (any (λ f. not (f.mapping_id == mapping_id) && q f) previous || any q files)
unfolding apply_mapping_writes
any-apply_mapping_writes q previous mapping_id files =
    any-sort_by_key q (retain (λ f. not (f.mapping_id == mapping_id)) previous ++ files)
    ∙ (any-append q (retain (λ f. not (f.mapping_id == mapping_id)) previous) files
        ∙ ap (λ b. b || any q files)
            (any-retain q (λ f. not (f.mapping_id == mapping_id)) previous))

-- ===== src/Manifest/Vacuum/Safe.antt =====
-- `vacuum` of src/manifest.rs and the files of a version.
use mathlib.Core.List.{append_cancel_left}
use karet_worker.Common.{
  ℕ, ◌≡◌, ◌≢◌, refl, sym, ap, ◌∙◌, Bool, true, false, List, [], ◌∷◌, ◌++◌, map, arith, ◌==◌, ==_iff,
  nat_eq, text_eq, any, retain, contains, Bool-cases, inl, inr, any-append,
}
use karet_worker.Common.Dict.{lookup, erase, lookup-erase}
use karet_worker.Common.Result.{Result, ok, err}
use karet_worker.Common.Text.{Text, bytes, starts_with, to_string}
use karet_worker.Manifest.Files.{
  TableManifest, manifest_prefix, manifest_key, referenced, unreferenced_keys,
}
use karet_worker.Manifest.Bucket.{
  Objects, Bucket, Fault, works, refused, reply_lost, deliver, request, found, get_bytes,
  delete_object, keys, list_keys, Codec, manifest_of, read_version, Proc, pure, ◌>>=◌,
}
use karet_worker.Manifest.Bucket.Publish.{at_version}
use karet_worker.Manifest.Bucket.Requests.{deliver_objects, read_objects, deliver_answer}
use karet_worker.Manifest.Vacuum.{
  versions_in, doomed_versions, kept_versions, read_all, and_first, unreadable, delete_all,
  relative_keys, vacuum_listed, vacuum,
}

pub starts_with_append : (p s : Text) → starts_with (p ++ s) p ≡ true
unfolding starts_with
starts_with_append [] s = refl
starts_with_append (c ∷ p) s = ground (arith, starts_with_append p s)

-- A key outside the manifests is no manifest.
not_a_manifest :
    (k : Text) (vs : List ℕ)
    → starts_with k manifest_prefix ≡ false
    → contains (map manifest_key vs) k ≡ false
not_a_manifest k [] n = refl
not_a_manifest k (v ∷ vs) n = ground (arith, n, not_a_manifest k vs n, other)
  where
    other : k ≢ manifest_key v
    other e =
        unfold manifest_key in
        ground (arith, n, e, starts_with_append manifest_prefix (to_string v ++ bytes ".json"))

-- What the test rejects is not in the filtered list.
contains-retain :
    (q : Text → Bool) (k : Text) (ks : List Text) → q k ≡ false → contains (retain q ks) k ≡ false
contains-retain q k [] n = refl
contains-retain q k (j ∷ ks) n = elim (Bool-cases (k == j)) [
  | inl e ↦ ground (arith, e, contains-retain q k ks n, ap q ((==_iff k j).0 e), n)
  | inr e ↦ ground (arith, e, contains-retain q k ks n)
]

referenced_stays :
    (retained : List TableManifest) (present : List Text) (k : Text)
    → referenced retained k ≡ true
    → contains (unreferenced_keys retained present) k ≡ false
unfolding unreferenced_keys
referenced_stays retained present k r = contains-retain _ k present (ground (arith, r))

module _ (c : Codec) (prefix : Text) where
  delete_object-other :
      (key j : Text) (b : Bucket)
      → j ≢ key
      → lookup j (delete_object key b).1.objects ≡ lookup j b.objects
  unfolding delete_object request
  delete_object-other key j b ne =
      elim (deliver_objects (λ o. (ok (tt {0}), erase key o)) b b.faults) [
        | inl e ↦ rw (e) refl
        | inr e ↦ rw (e) (ground (arith, ne, lookup-erase j key b.objects))
      ]

  delete_all-other :
      (k : Text) (ks : List Text) (b : Bucket)
      → contains ks k ≡ false
      → lookup (prefix ++ k) (delete_all c prefix ks b).1.objects ≡ lookup (prefix ++ k) b.objects
  unfolding delete_all
  delete_all-other k [] b n = refl
  delete_all-other k (key ∷ ks) b n =
      delete_all-other k ks (delete_object (prefix ++ key) b).1 (ground (arith, n))
      ∙ delete_object-other (prefix ++ key) (prefix ++ k) b
          (λ e. apart (append_cancel_left prefix k key e))
    where
      apart : k ≢ key
      apart e = ground (arith, n, e)

  read_version_objects : (v : ℕ) (b : Bucket) → (read_version c prefix v b).1.objects ≡ b.objects
  unfolding read_version get_bytes
  read_version_objects v b =
      read_objects (λ o. found (prefix ++ manifest_key v) (lookup (prefix ++ manifest_key v) o)) b

  -- A version that is read is the one that a reader sees.
  read_version_answer :
      (v : ℕ) (b : Bucket) (m : TableManifest)
      → (read_version c prefix v b).0 ≡ ok m
      → at_version c prefix b.objects v ≡ ok m
  unfolding read_version get_bytes request deliver
  read_version_answer v b m e = by_fault b.faults e
    where
      by_fault :
          (fs : List Fault)
          → manifest_of c prefix
              (prefix ++ manifest_key v)
              (deliver fs
                (λ o. (found (prefix ++ manifest_key v) (lookup (prefix ++ manifest_key v) o), o))
                b).0
            ≡ ok m
          → at_version c prefix b.objects v ≡ ok m
      by_fault [] h = h
      by_fault (works ∷ fs) h = h
      by_fault (refused x ∷ fs) h = ground (arith, h)
      by_fault (reply_lost x ∷ fs) h = ground (arith, h)

  -- What follows the first manifest of a list.
  go_on : ℕ → List ℕ → Result TableManifest Text → Proc (Result (List TableManifest) Text)
  go_on v vs read = elim read [
    | err e ↦ pure (err (unreadable v e))
    | ok m ↦ read_all c prefix vs >>= (λ rest. pure (and_first m rest))
  ]

  read_all_objects : (vs : List ℕ) (b : Bucket) → (read_all c prefix vs b).1.objects ≡ b.objects
  unfolding read_all go_on
  read_all_objects [] b = refl
  read_all_objects (v ∷ vs) b =
      rest (read_all_objects vs) (read_version c prefix v b).0 (read_version c prefix v b).1
      ∙ read_version_objects v b
    where
      rest :
          ((b' : Bucket) → (read_all c prefix vs b').1.objects ≡ b'.objects)
          → (read : Result TableManifest Text) (b' : Bucket)
          → (go_on v vs read b').1.objects ≡ b'.objects
      rest ih (ok m) b' = ih b'
      rest ih (err e) b' = refl

  -- Every file of a version that was to be read is among the referenced ones.
  read_all-referenced :
      (vs : List ℕ) (b : Bucket) (ms : List TableManifest) (u : ℕ) (m : TableManifest) (k : Text)
      → (read_all c prefix vs b).0 ≡ ok ms
      → contains vs u ≡ true
      → at_version c prefix b.objects u ≡ ok m
      → any (λ f. f.key == k) m.files ≡ true
      → referenced ms k ≡ true
  unfolding read_all go_on referenced
  read_all-referenced [] b ms u m k e h r f = ground (arith, h)
  read_all-referenced (v ∷ vs) b ms u m k e h r f =
      first
        (λ ms' g i.
          read_all-referenced vs (read_version c prefix v b).1 ms' u m k g i
            (ap (λ o. at_version c prefix o u) (read_version_objects v b) ∙ r) f)
        (read_version c prefix v b).0 refl e
    where
      -- The file is in the first manifest, or in a later one.
      found_in :
          (m₁ : TableManifest)
          → (read_version c prefix v b).0 ≡ ok m₁
          → (rest : Result (List TableManifest) Text)
          → ((ms' : List TableManifest)
              → rest ≡ ok ms'
              → contains vs u ≡ true
              → referenced ms' k ≡ true)
          → and_first m₁ rest ≡ ok ms
          → referenced ms k ≡ true
      found_in m₁ q (err x) ih j = ground (arith, j)
      found_in m₁ q (ok ms') ih j = elim (Bool-cases (u == v)) [
        | inl same ↦
            let here : ok m₁ ≡ ok m =
              sym (read_version_answer v b m₁ q)
              ∙ (sym (ap (λ n. at_version c prefix b.objects n) ((==_iff u v).0 same)) ∙ r) in
            ground (arith, j, here, f)
        | inr other ↦ ground (arith, j, ih ms' refl (ground (arith, h, other)))
      ]

      first :
          ((ms' : List TableManifest)
            → (read_all c prefix vs (read_version c prefix v b).1).0 ≡ ok ms'
            → contains vs u ≡ true
            → referenced ms' k ≡ true)
          → (read : Result TableManifest Text) → (read_version c prefix v b).0 ≡ read
          → (go_on v vs read (read_version c prefix v b).1).0 ≡ ok ms
          → referenced ms k ≡ true
      first ih (err x) q j = ground (arith, j)
      first ih (ok m₁) q j =
          found_in m₁ q (read_all c prefix vs (read_version c prefix v b).1).0 ih j

  -- What is deleted is no file of the version.
  spared :
      (current u : ℕ) (relative : List Text) (b : Bucket) (ms : List TableManifest)
      (m : TableManifest) (k : Text)
      → (read_all c prefix (kept_versions current (versions_in relative)) b).0 ≡ ok ms
      → contains (kept_versions current (versions_in relative)) u ≡ true
      → at_version c prefix b.objects u ≡ ok m
      → any (λ f. f.key == k) m.files ≡ true
      → starts_with k manifest_prefix ≡ false
      → contains
          (unreferenced_keys ms relative
            ++ map manifest_key (doomed_versions current (versions_in relative)))
          k
        ≡ false
  spared current u relative b ms m k e h r f n =
      let unref : contains (unreferenced_keys ms relative) k ≡ false =
        referenced_stays ms relative k
          (read_all-referenced (kept_versions current (versions_in relative)) b ms u m k e h r f) in
      any-append (λ j. k == j) (unreferenced_keys ms relative)
        (map manifest_key (doomed_versions current (versions_in relative)))
      ∙ rw (unref, not_a_manifest k (doomed_versions current (versions_in relative)) n) refl

  after_read : ℕ → List Text → Result (List TableManifest) Text → Proc (Result ℕ Text)
  after_read current relative read = elim read [
    | err e ↦ pure (err e)
    | ok retained ↦
        delete_all c prefix (
          unreferenced_keys retained relative
          ++ map manifest_key (doomed_versions current (versions_in relative)))
        >>= (λ deleted. pure (ok deleted))
  ]

  listed_keeps_files :
      (current u : ℕ) (relative : List Text) (m : TableManifest) (k : Text) (b : Bucket)
      → contains (kept_versions current (versions_in relative)) u ≡ true
      → at_version c prefix b.objects u ≡ ok m
      → any (λ f. f.key == k) m.files ≡ true
      → starts_with k manifest_prefix ≡ false
      → lookup (prefix ++ k) (vacuum_listed c prefix current relative b).1.objects
        ≡ lookup (prefix ++ k) b.objects
  unfolding vacuum_listed after_read
  listed_keeps_files current u relative m k b h r f n =
      by_result (read_all c prefix (kept_versions current (versions_in relative)) b).0 refl
      ∙ ap (lookup (prefix ++ k))
          (read_all_objects (kept_versions current (versions_in relative)) b)
    where
      by_result :
          (read : Result (List TableManifest) Text)
          → (read_all c prefix (kept_versions current (versions_in relative)) b).0 ≡ read
          → lookup
              (prefix ++ k)
              (after_read current relative read
                (read_all c prefix (kept_versions current (versions_in relative)) b).1).1.objects
            ≡ lookup
                (prefix ++ k)
                (read_all c prefix (kept_versions current (versions_in relative)) b).1.objects
      by_result (ok ms) e =
          delete_all-other k
            (unreferenced_keys ms relative
              ++ map manifest_key (doomed_versions current (versions_in relative)))
            (read_all c prefix (kept_versions current (versions_in relative)) b).1
            (spared current u relative b ms m k e h r f n)
      by_result (err x) e = refl

  after_list : ℕ → Result (List Text) Text → Proc (Result ℕ Text)
  after_list current listed = elim listed [
    | ok all ↦ vacuum_listed c prefix current (relative_keys prefix all)
    | err e ↦ pure (err e)
  ]

  abbrev listing : Objects → List Text
  listing o = retain (λ j. starts_with j prefix) (keys o)

  -- Whatever requests fail, vacuuming keeps every file of a version that stays readable: of one that
  -- is listed, not above the current version, not dropped by the retention, and whose manifest can be
  -- read. Condition: the file's key is not below the directory of the manifests.
  pub vacuum_keeps_files :
      (current u : ℕ) (m : TableManifest) (k : Text) (b : Bucket)
      → let relative = relative_keys prefix (retain (λ j. starts_with j prefix) (keys b.objects)) in
        contains (kept_versions current (versions_in relative)) u ≡ true
        → at_version c prefix b.objects u ≡ ok m
        → any (λ f. f.key == k) m.files ≡ true
        → starts_with k manifest_prefix ≡ false
        → lookup (prefix ++ k) (vacuum c prefix current b).1.objects
          ≡ lookup (prefix ++ k) b.objects
  unfolding vacuum list_keys request after_list
  vacuum_keeps_files current u m k b h r f n =
      by_list (deliver b.faults (λ o. (ok (listing o), o)) b).0 refl
      ∙ ap (lookup (prefix ++ k)) kept
    where
      kept : (deliver b.faults (λ o. (ok (listing o), o)) b).1.objects ≡ b.objects
      kept = elim (deliver_objects (λ o. (ok (listing o), o)) b b.faults) [ inl e ↦ e | inr e ↦ e ]

      by_list :
          (listed : Result (List Text) Text)
          → (deliver b.faults (λ o. (ok (listing o), o)) b).0 ≡ listed
          → lookup
              (prefix ++ k)
              (after_list current listed
                (deliver b.faults (λ o. (ok (listing o), o)) b).1).1.objects
            ≡ lookup (prefix ++ k) (deliver b.faults (λ o. (ok (listing o), o)) b).1.objects
      by_list (ok all) e =
          let same : listing b.objects ≡ all =
            ground (arith, deliver_answer (λ o. ok (listing o)) b all b.faults e) in
          listed_keeps_files current u (relative_keys prefix all) m k
            (deliver b.faults (λ o. (ok (listing o), o)) b).1
            (ap (λ l. contains (kept_versions current (versions_in (relative_keys prefix l))) u)
                (sym same)
              ∙ h)
            (ap (λ o. at_version c prefix o u) kept ∙ r) f n
      by_list (err x) e = refl

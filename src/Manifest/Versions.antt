-- ===== src/Manifest/Versions.antt =====
-- `versions_to_drop` of src/manifest.rs.
use karet_worker.Common.{ℕ, zero, suc, ◌-◌, List, [], ◌∷◌, leb, retain, length, if◌then◌else◌}

-- `sort_unstable`
unfoldable pub insert_version : ℕ → List ℕ → List ℕ
insert_version v [] = v ∷ []
insert_version v (u ∷ us) =
    let rest = insert_version v us in if leb v u then v ∷ u ∷ us else u ∷ rest

unfoldable pub sort_versions : List ℕ → List ℕ
sort_versions [] = []
sort_versions (v ∷ vs) = insert_version v (sort_versions vs)

-- `[..n]`
unfoldable pub take : ℕ → List ℕ → List ℕ
take zero vs = []
take (suc n) [] = []
take (suc n) (v ∷ vs) = v ∷ take n vs

-- `saturating_sub` is the subtraction of ℕ.
unfoldable pub versions_to_drop : List ℕ → ℕ → ℕ → List ℕ
versions_to_drop versions current retained =
    let sorted = retain (λ v. leb v current) (sort_versions versions) in
    take (length sorted - retained) sorted

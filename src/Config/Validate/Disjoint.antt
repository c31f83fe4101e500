-- ===== src/Config/Validate/Disjoint.antt =====
-- `validate` of src/config.rs and the prefixes of the sources.
use karet_worker.Common.{
  ℕ, ◌≡◌, refl, Bool, true, false, ◌⊎◌, inl, inr, some, [], ◌∷◌, nat_eq, arith, get_elem?, is_empty,
}
use karet_worker.Common.Result.{ok}
use karet_worker.Common.Text.{Text, starts_with}
use karet_worker.Config.Types.{SourceContainer, PipelineConfig}
use karet_worker.Config.Check.{flat_map_from}
use karet_worker.Config.Validate.Parts.{flat_map_0_empty, valid_sources}
use karet_worker.Config.Validate.{shape_errors, nested, nesting_error, nesting_errors, validate}

-- Two prefixes of one text: one of them is a prefix of the other.
starts_with_comparable :
    (s p q : Text)
    → starts_with s p ≡ true
    → starts_with s q ≡ true
    → (starts_with p q ≡ true) ⊎ (starts_with q p ≡ true)
unfolding starts_with
starts_with_comparable s [] q hp hq = inr refl
starts_with_comparable s (c ∷ p) [] hp hq = inl refl
starts_with_comparable [] (c ∷ p) (d ∷ q) hp hq = ground (arith, hp)
starts_with_comparable (b ∷ s) (c ∷ p) (d ∷ q) hp hq =
    ground (arith, hp, hq, starts_with_comparable s p q)

module _ {F : Type 0} where
  not_nested :
      (cfg : PipelineConfig F) (i j : ℕ) {a b : SourceContainer F}
      → validate cfg ≡ ok tt
      → get_elem? cfg.source_containers i ≡ some a
      → get_elem? cfg.source_containers j ≡ some b
      → nested i a j b ≡ false
  unfolding nesting_errors nesting_error
  not_nested cfg i j {a} {b} e ha hb = no_error (nested i a j b) refl (
      flat_map_0_empty (nesting_error i a) j cfg.source_containers
        (flat_map_0_empty (λ i a. flat_map_from (nesting_error i a) 0 cfg.source_containers) i
          cfg.source_containers (valid_sources cfg e).1 ha)
        hb)
    where
      no_error :
          (v : Bool) → nested i a j b ≡ v → nesting_error i a j b ≡ [] → nested i a j b ≡ false
      no_error v f n = ground (arith, f, n)

  not_empty :
      (cfg : PipelineConfig F) (i : ℕ) {a : SourceContainer F}
      → validate cfg ≡ ok tt
      → get_elem? cfg.source_containers i ≡ some a
      → is_empty a.path_prefix ≡ false
  unfolding shape_errors
  not_empty cfg i {a} e ha =
      let none_here : shape_errors i a.path_prefix ≡ [] =
        flat_map_0_empty (λ i sc. shape_errors i sc.path_prefix) i cfg.source_containers
          (valid_sources cfg e).0 ha in
      ground (arith, none_here)

  -- In a configuration that `validate` accepts, two sources whose prefixes a key starts with are the
  -- same source: so ingest resolves the source of a file in one way only.
  pub validate_disjoint :
      (cfg : PipelineConfig F) (i j : ℕ) {a b : SourceContainer F} (key : Text)
      → validate cfg ≡ ok tt
      → get_elem? cfg.source_containers i ≡ some a
      → get_elem? cfg.source_containers j ≡ some b
      → starts_with key a.path_prefix ≡ true
      → starts_with key b.path_prefix ≡ true
      → i ≡ j
  unfolding nested
  validate_disjoint cfg i j {a} {b} key e ha hb ka kb = ground (
    arith,
    not_nested cfg i j e ha hb,
    not_nested cfg j i e hb ha,
    not_empty cfg i e ha,
    not_empty cfg j e hb,
    starts_with_comparable key a.path_prefix b.path_prefix ka kb,
  )

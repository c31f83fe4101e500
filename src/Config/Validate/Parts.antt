-- ===== src/Config/Validate/Parts.antt =====
-- The parts of `validate` of src/config.rs: no errors in all, none in each loop.
use karet_worker.Common.{
  ℕ, zero, suc, ◌+◌, ◌≡◌, refl, sym, ap, ◌∙◌, some, List, [], ◌∷◌, ◌++◌, arith, get_elem?,
}
use karet_worker.Common.Result.{Result, ok, err}
use karet_worker.Config.Types.{PipelineConfig, ConfigError}
use karet_worker.Config.Check.{flat_map_from, mapping_errors, table_errors}
use karet_worker.Config.Validate.{
  shape_errors, nesting_errors, identity_errors, all_errors, validate,
}

pub append_empty : {A : Type 0} (xs ys : List A) → xs ++ ys ≡ [] → (xs ≡ []) × (ys ≡ [])
append_empty [] ys e = (refl, e)
append_empty (x ∷ xs) ys e = ground (arith, e)

flat_map_from_empty :
    {A B : Type 0} (f : ℕ → A → List B) (k i : ℕ) (xs : List A) {x : A}
    → flat_map_from f k xs ≡ []
    → get_elem? xs i ≡ some x
    → f (k + i) x ≡ []
unfolding flat_map_from
flat_map_from_empty f k i [] e h = ground (arith, h)
flat_map_from_empty f k zero (y ∷ xs) {x} e h =
    let same : y ≡ x = ground (arith, h) in
    let here : f k y ≡ [] = (append_empty (f k y) (flat_map_from f (suc k) xs) e).0 in
    let at : k + 0 ≡ k = omega arith in rw (at, sym same) here
flat_map_from_empty f k (suc i) (y ∷ xs) e h =
    let at : k + suc i ≡ suc k + i = omega arith in
    rw (at)
      (flat_map_from_empty f (suc k) i xs (append_empty (f k y) (flat_map_from f (suc k) xs) e).1 h)

pub flat_map_0_empty :
    {A B : Type 0} (f : ℕ → A → List B) (i : ℕ) (xs : List A) {x : A}
    → flat_map_from f 0 xs ≡ []
    → get_elem? xs i ≡ some x
    → f i x ≡ []
flat_map_0_empty f i xs {x} e h =
    let at : 0 + i ≡ i = omega arith in sym (ap (λ n. f n x) at) ∙ flat_map_from_empty f 0 i xs e h

no_errors :
    (es : List ConfigError)
    → (elim es as (λ _. Result (Unit {0}) (List ConfigError)) [
      | [] ↦ ok tt
      | x ∷ xs ↦ err (x ∷ xs)
    ])
      ≡ ok tt
    → es ≡ []
no_errors [] e = refl
no_errors (x ∷ xs) e = ground (arith, e)

module _ {F : Type 0} (cfg : PipelineConfig F) (e : validate cfg ≡ ok tt) where
  behind_ids :
      flat_map_from
          (mapping_errors cfg.source_containers cfg.dimensions cfg.analytic_tables)
          0
          cfg.mappings
        ++ (flat_map_from table_errors 0 cfg.analytic_tables
            ++ (flat_map_from (λ i sc. shape_errors i sc.path_prefix) 0 cfg.source_containers
                ++ nesting_errors cfg.source_containers))
      ≡ []
  unfolding validate all_errors
  behind_ids = (append_empty (identity_errors cfg) _ (no_errors (all_errors cfg) e)).1

  pub valid_mappings :
      flat_map_from
        (mapping_errors cfg.source_containers cfg.dimensions cfg.analytic_tables)
        0
        cfg.mappings
      ≡ []
  valid_mappings =
      (append_empty
        (flat_map_from (mapping_errors cfg.source_containers cfg.dimensions cfg.analytic_tables) 0
          cfg.mappings)
        _ behind_ids).0

  pub valid_sources :
      (flat_map_from (λ i sc. shape_errors i sc.path_prefix) 0 cfg.source_containers ≡ [])
      × (nesting_errors cfg.source_containers ≡ [])
  valid_sources =
      let behind_mappings =
        (append_empty
          (flat_map_from (mapping_errors cfg.source_containers cfg.dimensions cfg.analytic_tables) 0
            cfg.mappings)
          _ behind_ids).1 in
      let behind_tables =
        (append_empty (flat_map_from table_errors 0 cfg.analytic_tables) _ behind_mappings).1 in
      append_empty (flat_map_from (λ i sc. shape_errors i sc.path_prefix) 0 cfg.source_containers)
        (nesting_errors cfg.source_containers) behind_tables

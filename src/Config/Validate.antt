-- ===== src/Config/Validate.antt =====
-- `validate` of src/config.rs, which collects every error.
pub mod Disjoint
pub mod Parts
use karet_worker.Common.{
  ℕ, suc, ◌+◌, Bool, true, false, ◌&&◌, ◌||◌, not, Option, none, some, List, [], ◌∷◌, ◌++◌, map,
  ◌==◌, nat_eq, text_eq, is_empty, any, if◌then◌else◌,
}
use karet_worker.Common.Result.{Result, ok, err}
use karet_worker.Common.Text.{Text, bytes, to_string, starts_with, ends_with_byte, split}
use karet_worker.Config.Types.{
  SourceContainer, PipelineConfig, ConfigError, schema_error, missing_field,
}
use karet_worker.Config.Check.{
  check_unique_and_required_ids, flat_map_from, mapping_errors, table_errors,
}

abbrev prefix_path : ℕ → Text
prefix_path i = bytes "/source_containers/" ++ (to_string i ++ bytes "/path_prefix")

-- The shape of one prefix.
unfoldable pub malformed : Text → Bool
malformed p =
    starts_with p (bytes "/")
    || (not (ends_with_byte p b'/') || any (λ seg. seg == bytes "..") (split p b'/'))

unfoldable pub shape_errors : ℕ → Text → List ConfigError
shape_errors i p =
    if is_empty p
    then missing_field (prefix_path i) (bytes "path_prefix") ∷ []
    else if malformed p
    then schema_error (prefix_path i) (
        bytes "path_prefix `"
        ++ (p ++ bytes "` must be a relative key prefix ending in `/` without `..` segments"))
      ∷ []
    else []

module _ {F : Type 0} where
  -- Is the prefix of `b` at `j` nested under that of `a` at `i`?
  unfoldable pub nested : ℕ → SourceContainer F → ℕ → SourceContainer F → Bool
  nested i a j b =
      not (i == j) && (not (is_empty a.path_prefix) && starts_with b.path_prefix a.path_prefix)

  unfoldable pub nesting_error : ℕ → SourceContainer F → ℕ → SourceContainer F → List ConfigError
  nesting_error i a j b =
      if nested i a j b
      then schema_error (prefix_path j) (
          bytes "prefix `"
          ++ (b.path_prefix
              ++ (bytes "` is nested under `"
                  ++ (a.path_prefix
                      ++ (bytes "` (source `"
                          ++ (a.id ++ bytes "`); source prefixes must not overlap"))))))
        ∷ []
      else []

  unfoldable pub nesting_errors : List (SourceContainer F) → List ConfigError
  nesting_errors sources =
      flat_map_from (λ i a. flat_map_from (nesting_error i a) 0 sources) 0 sources

  -- The ids and names of all collections.
  unfoldable pub identity_errors : PipelineConfig F → List ConfigError
  identity_errors cfg =
      check_unique_and_required_ids (bytes "source_containers") (bytes "source_container")
        (map (λ s. (s.id, some s.name)) cfg.source_containers)
      ++ (check_unique_and_required_ids (bytes "dimensions") (bytes "lookup_mapping")
            (map (λ d. (d.id, none)) cfg.dimensions)
          ++ (check_unique_and_required_ids (bytes "mappings") (bytes "mapping")
                (map (λ m. (m.id, none)) cfg.mappings)
              ++ check_unique_and_required_ids (bytes "analytic_tables") (bytes "analytic_table")
                  (map (λ t. (t.id, some t.name)) cfg.analytic_tables)))

  unfoldable pub all_errors : PipelineConfig F → List ConfigError
  all_errors cfg =
      identity_errors cfg
      ++ (flat_map_from (mapping_errors cfg.source_containers cfg.dimensions cfg.analytic_tables) 0
            cfg.mappings
          ++ (flat_map_from table_errors 0 cfg.analytic_tables
              ++ (flat_map_from (λ i sc. shape_errors i sc.path_prefix) 0 cfg.source_containers
                  ++ nesting_errors cfg.source_containers)))

  unfoldable pub validate : PipelineConfig F → Result (Unit {0}) (List ConfigError)
  validate cfg = elim (all_errors cfg) [ [] ↦ ok tt | e ∷ es ↦ err (e ∷ es) ]

-- ===== src/Evaluator/Valid.antt =====
-- `compile` of src/evaluator.rs on the columns of a configuration that src/config.rs accepts.
use karet_worker.Common.{
  ℕ, suc, ◌≡◌, refl, ap, ◌∙◌, inl, inr, true, Option, none, some, List, [], ◌∷◌, ◌==◌, text_eq, any,
  get_elem?, arith, Bool-cases, Option-cases,
}
use karet_worker.Common.Dict.{lookup}
use karet_worker.Common.Result.{ok}
use karet_worker.Common.Text.{Text, bytes}
use karet_worker.Ast.{AstNode, walk_ast}
use karet_worker.Config.Types.{Mapping, MappingColumn, PipelineConfig}
use karet_worker.Config.Check.{flat_map, column_path, resolve_dimension, dim_errors, mapping_errors}
use karet_worker.Config.Validate.{validate}
use karet_worker.Config.Validate.Parts.{append_empty, flat_map_0_empty, valid_mappings}
use karet_worker.Dimension.Types.{Dimension, Unicode, value_columns}
use karet_worker.Dimension.Matcher.{DimensionMatcher, position, value_index}
use karet_worker.Polars.{Polars}
use karet_worker.Evaluator.{Registry, resolve_reference, compile}
use karet_worker.Evaluator.Errors.{error_of, node_error, first_error, compile-first_error}

-- The registry has a matcher with the value columns of each dimension that an id resolves to.
abbrev pub Covers : List Dimension → Registry → Type 0
Covers dimensions ctx =
    (id : Text) (d : Dimension)
    → resolve_dimension id dimensions ≡ some d
    → (m : DimensionMatcher) × (lookup id ctx ≡ some m) × (m.value_columns ≡ value_columns d)

position_found :
    (name : Text) (cs : List Text)
    → any (λ c. c == name) cs ≡ true
    → (i : ℕ) × (position name cs ≡ some i)
unfolding position
position_found name [] h = absurd (ground (arith, h))
position_found name (c ∷ cs) h = elim (Bool-cases (c == name)) [
  | inl same ↦ (0, ground (arith, same))
  | inr other ↦
      let rest : any (λ c. c == name) cs ≡ true = ground (arith, h, other) in
      let (i, found) = position_found name cs rest in (suc i, ground (arith, other, found))
]

resolved :
    (ctx : Registry) (id : Text) (value : Option Text) {m : DimensionMatcher} {i : ℕ}
    → lookup id ctx ≡ some m
    → value_index m value ≡ some i
    → error_of (resolve_reference ctx id value) ≡ none
unfolding resolve_reference
resolved ctx id value known index = ground (arith, known, index)

module _ {F : Type 0} (dimensions : List Dimension) (ctx : Registry)
    (covers : Covers dimensions ctx) where
  no_dim_error :
      (path id : Text) (value : Option Text) (input : AstNode F)
      → dim_errors dimensions path (AstNode.dim_ref id value input) ≡ []
      → error_of (resolve_reference ctx id value) ≡ none
  unfolding dim_errors value_index
  no_dim_error path id value input e = elim (Option-cases (resolve_dimension id dimensions)) [
    | inl missing ↦ absurd (ground (arith, e, missing))
    | inr (d, found) ↦ at d found value e (covers id d found)
  ]
    where
      at :
          (d : Dimension)
          → resolve_dimension id dimensions ≡ some d
          → (v : Option Text) → dim_errors {F = F} dimensions path (AstNode.dim_ref id v input) ≡ []
          → (m : DimensionMatcher) × (lookup id ctx ≡ some m) × (m.value_columns ≡ value_columns d)
          → error_of (resolve_reference ctx id v) ≡ none
      at d found none e' (m, known, same) = resolved ctx id none known refl
      at d found (some v) e' (m, known, same) =
          let listed : any (λ c. c == v) (value_columns d) ≡ true = ground (arith, e', found) in
          let (i, place) = position_found v (value_columns d) listed in
          resolved ctx id (some v) known (ap (position v) same ∙ place)

  no_node_error :
      (path : Text) (n : AstNode F) → dim_errors dimensions path n ≡ [] → node_error ctx n ≡ none
  no_node_error path (AstNode.dim_ref id value input) e = no_dim_error path id value input e
  no_node_error path n e = refl

  no_first_error :
      (path : Text) (ns : List (AstNode F))
      → flat_map (dim_errors dimensions path) ns ≡ []
      → first_error ctx ns ≡ none
  unfolding flat_map first_error
  no_first_error path [] e = refl
  no_first_error path (n ∷ ns) e =
      let (here, behind) = append_empty (dim_errors dimensions path n) _ e in
      rw (no_node_error path n here) (no_first_error path ns behind)

module _ {F : Type 0} (p : Polars F) (u : Unicode) where
  -- No column of a mapping of an accepted configuration fails to compile over a registry with a
  -- matcher, of the declared value columns, for each dimension.
  pub valid-compile :
      (cfg : PipelineConfig F) (ctx : Registry) (i j : ℕ) {m : Mapping F} {c : MappingColumn F}
      → validate cfg ≡ ok tt
      → Covers cfg.dimensions ctx
      → get_elem? cfg.mappings i ≡ some m
      → get_elem? m.columns j ≡ some c
      → error_of (compile p u ctx c.expr) ≡ none
  unfolding mapping_errors
  valid-compile cfg ctx i j {m} {c} e covers hm hc =
      let here : mapping_errors cfg.source_containers cfg.dimensions cfg.analytic_tables i m ≡ [] =
        flat_map_0_empty (mapping_errors cfg.source_containers cfg.dimensions cfg.analytic_tables) i
          cfg.mappings (valid_mappings cfg e) hm in
      let dims = (append_empty _ _ (append_empty _ _ (append_empty _ _ here).1).1).0 in
      let column =
        flat_map_0_empty
          (λ j (c : MappingColumn F).
            flat_map (dim_errors cfg.dimensions (column_path i j (bytes "/expr")))
              (walk_ast c.expr))
          j m.columns dims hc in
      compile-first_error p u ctx c.expr
      ∙ no_first_error cfg.dimensions ctx covers (column_path i j (bytes "/expr")) (walk_ast c.expr)
          column

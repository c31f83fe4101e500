-- ===== src/Config/Check.antt =====
-- The checks that `validate` of src/config.rs makes of one item: each gives its errors in order.
use karet_worker.Common.{
  ℕ, suc, Bool, ◌&&◌, ◌||◌, not, Option, none, some, List, [], ◌∷◌, ◌++◌, ◌==◌, nat_eq, text_eq,
  ltb, length, is_empty, any, find, contains, if◌then◌else◌,
}
use karet_worker.Common.Dict.{Dict, lookup, insert}
use karet_worker.Common.Text.{Text, bytes, to_string}
use karet_worker.Ast.{AstNode, col, dim_ref, walk_ast}
use karet_worker.Dimension.Types.{Dimension, value_columns}
use karet_worker.Config.Types.{
  ColumnSchema, SourceContainer, Mapping, AnalyticTable, ConfigError, duplicate_id,
  dangling_reference, schema_error, missing_field,
}

abbrev or_nothing : Bool → ConfigError → List ConfigError
or_nothing b e = if b then e ∷ [] else []

-- `check_unique_and_required_ids`: `ids` are seen already, `i` is the index.
abbrev item_path : Text → ℕ → Text → Text
item_path collection i field =
    bytes "/" ++ (collection ++ (bytes "/" ++ (to_string i ++ (bytes "/" ++ field))))

abbrev id_errors : Text → Text → ℕ → List Text → Text → List ConfigError
id_errors collection kind i seen id =
    if is_empty id
    then missing_field (item_path collection i (bytes "id")) (bytes "id") ∷ []
    else or_nothing (contains seen id) (duplicate_id (item_path collection i (bytes "id")) kind id)

abbrev name_errors : Text → ℕ → Option Text → List ConfigError
name_errors collection i none = []
name_errors collection i (some name) =
    or_nothing (is_empty name)
      (missing_field (item_path collection i (bytes "name")) (bytes "name"))

unfoldable pub check_ids_from :
    Text → Text → ℕ → List Text → List (Text × Option Text) → List ConfigError
check_ids_from collection kind i seen [] = []
check_ids_from collection kind i seen ((id, name) ∷ items) =
    id_errors collection kind i seen id
    ++ (name_errors collection i name
        ++ check_ids_from collection kind (suc i) (if is_empty id then seen else id ∷ seen) items)

unfoldable pub check_unique_and_required_ids :
    Text → Text → List (Text × Option Text) → List ConfigError
check_unique_and_required_ids collection kind items = check_ids_from collection kind 0 [] items

-- `flat_map`
unfoldable pub flat_map : {A B : Type 0} → (A → List B) → List A → List B
flat_map f [] = []
flat_map f (x ∷ xs) = f x ++ flat_map f xs

unfoldable pub flat_map_from : {A B : Type 0} → (ℕ → A → List B) → ℕ → List A → List B
flat_map_from f i [] = []
flat_map_from f i (x ∷ xs) = f i x ++ flat_map_from f (suc i) xs

unfoldable pub resolve_dimension : Text → List Dimension → Option Dimension
resolve_dimension id dimensions = find (λ d. d.id == id) dimensions

abbrev pub mapping_path : ℕ → Text → Text
mapping_path i rest = bytes "/mappings/" ++ (to_string i ++ rest)

abbrev pub column_path : ℕ → ℕ → Text → Text
column_path i j rest = mapping_path i (bytes "/columns/" ++ (to_string j ++ rest))

abbrev qualified : Text → Text → Text
qualified a b = a ++ (bytes "." ++ b)

abbrev value_errors : Text → Text → Option Text → Option Dimension → List ConfigError
value_errors path dim_id value none = dangling_reference path (bytes "dimension") dim_id ∷ []
value_errors path dim_id none (some dim) = []
value_errors path dim_id (some v) (some dim) =
    or_nothing (not (any (λ c. c == v) (value_columns dim)))
      (dangling_reference path (bytes "dimension_value") (qualified dim_id v))

abbrev reference_errors : Text → Text → Text → Bool → List ConfigError
reference_errors path kind target known =
    or_nothing (not (is_empty target) && not known) (dangling_reference path kind target)

module _ {F : Type 0} where
  -- A reference to a dimension in the expression of a column.
  unfoldable pub dim_errors : List Dimension → Text → AstNode F → List ConfigError
  dim_errors dimensions path (dim_ref dim_id value input) =
      value_errors path dim_id value (resolve_dimension dim_id dimensions)
  dim_errors dimensions path node = []

  -- A node of the row filter: its columns are the mapping's own.
  unfoldable pub where_errors : List Dimension → Text → Mapping F → AstNode F → List ConfigError
  where_errors dimensions path mapping (dim_ref dim_id value input) =
      elim (resolve_dimension dim_id dimensions) [
        | none ↦ dangling_reference path (bytes "dimension") dim_id ∷ []
        | some _ ↦ []
      ]
  where_errors dimensions path mapping (col name) =
      or_nothing (not (any (λ c. c.name == name) mapping.columns))
        (dangling_reference path (bytes "mapping_column") (qualified mapping.id name))
  where_errors dimensions path mapping node = []

  -- A column of the source in the expression of a column.
  unfoldable pub source_column_errors : SourceContainer F → Text → AstNode F → List ConfigError
  source_column_errors src path (col name) =
      or_nothing (not (any (λ c. c.name == name) src.schema))
        (dangling_reference path (bytes "source_column") (qualified src.id name))
  source_column_errors src path node = []

  abbrev predicate_errors : List Dimension → ℕ → Mapping F → Option (AstNode F) → List ConfigError
  predicate_errors dimensions i mapping none = []
  predicate_errors dimensions i mapping (some predicate) =
      flat_map (where_errors dimensions (mapping_path i (bytes "/where")) mapping)
        (walk_ast predicate)

  abbrev output_errors : ℕ → Mapping F → Option (AnalyticTable F) → List ConfigError
  output_errors i mapping none = []
  output_errors i mapping (some table) =
      flat_map_from
        (λ j c. or_nothing (not (any (λ s. s.name == c.name) table.schema)) (
          dangling_reference (column_path i j (bytes "/name")) (bytes "analytic_table_column")
            (qualified table.id c.name)))
        0 mapping.columns

  abbrev source_errors : ℕ → Mapping F → Option (SourceContainer F) → List ConfigError
  source_errors i mapping none = []
  source_errors i mapping (some src) =
      flat_map_from
        (λ j c.
          flat_map (source_column_errors src (column_path i j (bytes "/expr"))) (walk_ast c.expr))
        0 mapping.columns

  -- All checks of one mapping.
  unfoldable pub mapping_errors :
      List (SourceContainer F)
      → List Dimension
      → List (AnalyticTable F)
      → ℕ
      → Mapping F
      → List ConfigError
  mapping_errors sources dimensions tables i mapping =
      reference_errors (mapping_path i (bytes "/source_container_id")) (bytes "source_container")
        mapping.source_container_id (any (λ s. s.id == mapping.source_container_id) sources)
      ++ (reference_errors (mapping_path i (bytes "/analytic_table_id")) (bytes "analytic_table")
            mapping.analytic_table_id (any (λ t. t.id == mapping.analytic_table_id) tables)
          ++ (flat_map_from
                (λ j c.
                  flat_map (dim_errors dimensions (column_path i j (bytes "/expr")))
                    (walk_ast c.expr))
                0 mapping.columns
              ++ (predicate_errors dimensions i mapping mapping.predicate
                  ++ (output_errors i mapping (find (λ t. t.id == mapping.analytic_table_id) tables)
                      ++ source_errors i mapping
                          (find (λ s. s.id == mapping.source_container_id) sources)))))

abbrev table_path : ℕ → Text → Text
table_path i field = bytes "/analytic_tables/" ++ (to_string i ++ (bytes "/" ++ field))

-- Of two columns of one name the later counts.
unfoldable pub schema_types : {F : Type 0} → List (ColumnSchema F) → Dict Text Text → Dict Text Text
schema_types [] types = types
schema_types (c ∷ cs) types = schema_types cs (insert c.name c.type_name types)

abbrev partition_key_errors : Text → Text → Option Text → List ConfigError
partition_key_errors path key none = dangling_reference path (bytes "schema_column") key ∷ []
partition_key_errors path key (some type_name) =
    or_nothing (type_name == bytes "float64" || type_name == bytes "number") (
      schema_error path (
        bytes "partition key `"
        ++ (key ++ bytes "` is float-capable; floats make unstable path segments")))

unfoldable pub partition_errors : Text → Dict Text Text → List Text → List Text → List ConfigError
partition_errors path types seen [] = []
partition_errors path types seen (key ∷ keys) =
    if contains seen key
    then schema_error path (bytes "duplicate partition key `" ++ (key ++ bytes "`"))
      ∷ partition_errors path types seen keys
    else partition_key_errors path key (lookup key types)
      ++ partition_errors path types (key ∷ seen) keys

abbrev dedup_key_errors : Text → Text → Option Text → List ConfigError
dedup_key_errors path key none = dangling_reference path (bytes "schema_column") key ∷ []
dedup_key_errors path key (some _) = []

unfoldable pub dedup_errors : Text → Dict Text Text → List Text → List Text → List ConfigError
dedup_errors path types seen [] = []
dedup_errors path types seen (key ∷ keys) =
    if contains seen key
    then schema_error path (bytes "duplicate dedup key `" ++ (key ++ bytes "`"))
      ∷ dedup_errors path types seen keys
    else dedup_key_errors path key (lookup key types) ++ dedup_errors path types (key ∷ seen) keys

-- All checks of one table.
unfoldable pub table_errors : {F : Type 0} → ℕ → AnalyticTable F → List ConfigError
table_errors i table =
    let types = schema_types table.schema [] in
    or_nothing (ltb 2 (length table.partition_keys)) (
      schema_error (table_path i (bytes "partition_keys")) (
        to_string (length table.partition_keys)
        ++ bytes " partition keys; at most 2 are supported"))
    ++ (partition_errors (table_path i (bytes "partition_keys")) types [] table.partition_keys
        ++ dedup_errors (table_path i (bytes "dedup_keys")) types [] table.dedup_keys)

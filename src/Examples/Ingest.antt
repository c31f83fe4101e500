-- ===== src/Examples/Ingest.antt =====
-- Expressions, assertions, JSON records and partitions.
use karet_worker.Common.{
  ◌≡◌, refl, true, false, none, some, List, [], ◌∷◌, ◌==◌, nat_eq, text_eq, ℕ_discrete, arith, all,
  is_empty, Bool-cases, inl, inr,
}
use karet_worker.Common.Dict.{lookup, insert}
use karet_worker.Common.Int.{ℤ, pos, negsuc}
use karet_worker.Common.Result.{ok}
use karet_worker.Common.Text.{Text, bytes, split, starts_with, ends_with_byte}
use karet_worker.Assertions.{validate_assertions}
use karet_worker.Assertions.Exact.{meets, is_empty-validate_assertions}
use karet_worker.Ast.{AstNode, walk_ast, walk_args}
use karet_worker.Config.Types.{
  ColumnSchema, AnalyticTable, SourceContainer, csv, Mapping, MappingColumn, PipelineConfig,
}
use karet_worker.Config.Check.{
  check_unique_and_required_ids, check_ids_from, flat_map, flat_map_from, resolve_dimension,
  dim_errors, mapping_errors, table_errors, source_column_errors, partition_errors, dedup_errors,
  schema_types,
}
use karet_worker.Config.Validate.{
  malformed, shape_errors, nested, nesting_error, nesting_errors, identity_errors, all_errors,
  validate,
}
use karet_worker.Dimension.Types.{Dimension, exact, null, inline, value_columns}
use karet_worker.Dimension.Matcher.{DimensionMatcher}
use karet_worker.Evaluator.{Registry, compile}
use karet_worker.Evaluator.Errors.{error_of, first_error, compile-first_error}
use karet_worker.Evaluator.Valid.{Covers, valid-compile}
use karet_worker.Http.Decode.{urldecode}
use karet_worker.JsonSource.{Step, key, index, Json, Builder, i64, compile_path}
use karet_worker.JsonSource.Paths.{printable, print_path, compile_path-print_path}
use karet_worker.Pipeline.Partitions.{group_segments, segment}
use karet_worker.Pipeline.Partitions.Paths.{partition_key_inj}
use karet_worker.Pipeline.Segment.{encode_segment, segment_value}
use karet_worker.Pipeline.Segment.Laws.{no_slash, urldecode-encode_segment}
use karet_worker.Examples.Libraries.{polars, floats, unicode, libraries}

-- A column that looks the country of a code up.
abbrev country : AstNode Unit
country = AstNode.dim_ref (bytes "countries") (some (bytes "name")) (AstNode.col (bytes "code"))

abbrev unknown : AstNode Unit
unknown = AstNode.add country (AstNode.dim_ref (bytes "regions") none country)

abbrev countries : DimensionMatcher
countries = record {
  rows = [];
  value_columns = bytes "name" ∷ [];
  match_mode = exact;
  case_insensitive = false;
  on_miss = null;
  exact_index = [];
}

abbrev registry : Registry
registry = (bytes "countries", countries) ∷ []

compile-first_error_example :
    error_of (compile polars unicode registry unknown) ≡ first_error registry (walk_ast unknown)
compile-first_error_example = compile-first_error polars unicode registry unknown

abbrev dimension : Dimension
dimension = record {
  id = bytes "countries";
  name = none;
  match_mode = exact;
  case_insensitive = none;
  on_miss = null;
  rows = inline (bytes "name" ∷ []) [];
}

abbrev column : Text → ColumnSchema Unit
column name = record {
  name = name;
  path = none;
  type_name = bytes "string";
  nullable = none;
  assertions = none;
}

abbrev source : SourceContainer Unit
source = record {
  id = bytes "s";
  name = bytes "s";
  path_prefix = bytes "s/";
  format = csv;
  schema = column (bytes "code") ∷ [];
  record_filter = none;
}

abbrev pub table : AnalyticTable Unit
table = record {
  id = bytes "t";
  name = bytes "t";
  schema = column (bytes "country") ∷ [];
  partition_keys = [];
  dedup_keys = [];
}

abbrev mapped : MappingColumn Unit
mapped = record { name = bytes "country"; expr = country }

abbrev pub mapping : Mapping Unit
mapping = record {
  id = bytes "m";
  name = bytes "m";
  source_container_id = bytes "s";
  analytic_table_id = bytes "t";
  columns = mapped ∷ [];
  predicate = none;
}

abbrev pub config : PipelineConfig Unit
config = record {
  version = 1;
  source_containers = source ∷ [];
  dimensions = dimension ∷ [];
  mappings = mapping ∷ [];
  analytic_tables = table ∷ [];
  layout = [];
}

pub config_valid : validate config ≡ ok tt
unfolding validate all_errors identity_errors check_unique_and_required_ids check_ids_from flat_map
    flat_map_from mapping_errors dim_errors source_column_errors resolve_dimension value_columns
    walk_ast walk_args table_errors schema_types partition_errors dedup_errors shape_errors
    malformed nesting_errors nesting_error nested starts_with ends_with_byte split bytes text_eq
    nat_eq ℕ_discrete lookup insert
config_valid = refl

registry-Covers : Covers (dimension ∷ []) registry
unfolding resolve_dimension lookup value_columns
registry-Covers id d e = elim (Bool-cases (bytes "countries" == id)) [
  | inl same ↦ (countries, ground (arith, same), ground (arith, same, e))
  | inr other ↦ absurd (ground (arith, other, e))
]

valid-compile_example : error_of (compile polars unicode registry country) ≡ none
valid-compile_example =
    valid-compile polars unicode config registry 0 0 {m = mapping} {c = mapped} config_valid
      registry-Covers refl refl

is_empty-validate_assertions_example :
    is_empty (validate_assertions floats polars (bytes "country") table)
    ≡ all (meets floats polars (bytes "country")) table.schema
is_empty-validate_assertions_example =
    is_empty-validate_assertions floats polars (bytes "country") table

-- `headers.via[2]`
abbrev steps : List Step
steps = key (bytes "via") ∷ index 2 ∷ []

steps-printable : all printable (key (bytes "headers") ∷ steps) ≡ true
unfolding bytes nat_eq ℕ_discrete
steps-printable = refl

compile_path-print_path_example :
    compile_path (print_path (key (bytes "headers") ∷ steps)) ≡ ok (key (bytes "headers") ∷ steps)
compile_path-print_path_example =
    compile_path-print_path (key (bytes "headers")) steps steps-printable

-- The parser's numbers are integers.
abbrev int_json : Json Unit
int_json = record {
  Number = ℤ;
  number_to_string = λ n. bytes "0";
  as_i64 = λ n. some n;
  as_f64 = λ n. some tt;
  from_str = λ t. none;
}

abbrev amounts : Builder Unit
amounts = i64 (some (pos 7) ∷ none ∷ some (negsuc 0) ∷ [])

-- A group for each of two values.
group :
    (v : Text)
    → group_segments libraries v (bytes "c" ∷ []) ≡ ok (segment (bytes "c") (encode_segment v) ∷ [])
unfolding group_segments segment_value
group v = refl

key_plain : all no_slash (bytes "c" ∷ []) ≡ true
unfolding bytes nat_eq ℕ_discrete
key_plain = refl

partition_key_inj_example :
    segment (bytes "c") (encode_segment (bytes "a/b")) ∷ []
    ≡ segment (bytes "c") (encode_segment (bytes "a/b")) ∷ []
partition_key_inj_example =
    partition_key_inj libraries (λ days t e. absurd (ground (arith, e))) (bytes "t") (bytes "m")
      (bytes "c" ∷ []) (bytes "a/b") (bytes "a/b") key_plain (group (bytes "a/b"))
      (group (bytes "a/b")) refl

urldecode-encode_segment_example :
    urldecode (λ t. t) (encode_segment (bytes "Food & Drink/Bar")) ≡ bytes "Food & Drink/Bar"
unfolding bytes
urldecode-encode_segment_example =
    urldecode-encode_segment (λ t. t) (bytes "Food & Drink/Bar") (omega arith)

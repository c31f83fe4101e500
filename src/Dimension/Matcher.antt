-- ===== src/Dimension/Matcher.antt =====
-- `DimensionMatcher` of src/dimension.rs.
pub mod Best
pub mod Exact
use karet_worker.Common.{
  ℕ, suc, ◌+◌, Bool, true, false, ◌&&◌, Option, none, some, List, [], ◌∷◌, map, ◌==◌, text_eq, ltb,
  leb, length, get_elem?, any, if◌then◌else◌,
}
use karet_worker.Common.Dict.{Dict, lookup, insert}
use karet_worker.Common.Int.{ℤ, leb_ℤ}
use karet_worker.Common.Result.{Result, ok, err}
use karet_worker.Common.Text.{Text, contains_text}
use karet_worker.Dimension.Types.{
  MatchMode, exact, keyword_substring, OnMiss, null, passthrough, literal, InlineDimensionRow,
  inline, file, Dimension, value_columns, DimensionError, duplicate_key, too_many_rows, Unicode,
}

abbrev pub max_dimension_rows : ℕ
max_dimension_rows = 1000000

pub record MatcherRow : Type 0 where
  pub keys : List Text
  pub cells : List (Option Text)
  pub weight : ℤ

pub record CompiledRow : Type 0 where
  pub patterns : List Text
  pub values : List (Option Text)
  pub priority : ℤ

pub record DimensionMatcher : Type 0 where
  pub rows : List CompiledRow
  pub value_columns : List Text
  pub match_mode : MatchMode
  pub case_insensitive : Bool
  pub on_miss : OnMiss
  pub exact_index : Dict Text ℕ

abbrev unwrap_or_false : Option Bool → Bool
unwrap_or_false none = false
unwrap_or_false (some b) = b

-- The inner loop over the patterns of row `i`: a key twice is an error.
unfoldable pub index_patterns :
    Text → ℕ → List Text → Dict Text ℕ → Result (Dict Text ℕ) DimensionError
index_patterns id i [] index = ok index
index_patterns id i (pattern ∷ patterns) index = elim (lookup pattern index) [
  | some _ ↦ err (duplicate_key id pattern)
  | none ↦ index_patterns id i patterns (insert pattern i index)
]

unfoldable pub index_rows :
    Text → ℕ → List CompiledRow → Dict Text ℕ → Result (Dict Text ℕ) DimensionError
index_rows id i [] index = ok index
index_rows id i (row ∷ rows) index = elim (index_patterns id i row.patterns index) [
  | ok index' ↦ index_rows id (suc i) rows index'
  | err e ↦ err e
]

unfoldable pub build_index :
    Dimension → MatchMode → List CompiledRow → Result (Dict Text ℕ) DimensionError
build_index dim exact rows = index_rows dim.id 0 rows []
build_index dim keyword_substring rows = ok []

-- The last match among equals never wins: only a greater priority replaces the row in hand.
unfoldable pub better : Option CompiledRow → CompiledRow → Option CompiledRow
better none row = some row
better (some current) row = if leb_ℤ row.priority current.priority then some current else some row

unfoldable pub row_matches : Text → CompiledRow → Bool
row_matches folded row = any (λ p. contains_text folded p) row.patterns

unfoldable pub scan : Text → List CompiledRow → Option CompiledRow → Option CompiledRow
scan folded [] best = best
scan folded (row ∷ rows) best =
    if row_matches folded row then scan folded rows (better best row) else scan folded rows best

unfoldable pub row_at : List CompiledRow → Option ℕ → Option CompiledRow
row_at rows none = none
row_at rows (some i) = get_elem? rows i

-- The row that a folded input hits.
unfoldable pub hit : DimensionMatcher → MatchMode → Text → Option CompiledRow
hit m exact folded = row_at m.rows (lookup folded m.exact_index)
hit m keyword_substring folded = scan folded m.rows none

abbrev flatten : Option (Option Text) → Option Text
flatten none = none
flatten (some v) = v

abbrev pub missed : OnMiss → Text → Option Text
missed null input = none
missed passthrough input = some input
missed (literal l) input = some l

abbrev pub answer : DimensionMatcher → Text → ℕ → Option CompiledRow → Option Text
answer m input value_index (some row) = flatten (get_elem? row.values value_index)
answer m input value_index none = missed m.on_miss input

unfoldable pub position : Text → List Text → Option ℕ
position name [] = none
position name (c ∷ cs) =
    let rest = position name cs in
    if c == name then some 0 else elim rest [ none ↦ none | some i ↦ some (suc i) ]

unfoldable pub value_index : DimensionMatcher → Option Text → Option ℕ
value_index m none = some 0
value_index m (some n) = position n m.value_columns

module _ (u : Unicode) where
  unfoldable pub fold : Bool → Text → Text
  fold case_insensitive s = if case_insensitive then u.to_lowercase s else s

  unfoldable pub compile_row : Bool → MatcherRow → CompiledRow
  compile_row case_insensitive row = record {
    patterns = map (fold case_insensitive) row.keys;
    values = row.cells;
    priority = row.weight;
  }

  unfoldable pub new_matcher : Dimension → List MatcherRow → Result DimensionMatcher DimensionError
  new_matcher dim rows =
      let case_insensitive = unwrap_or_false dim.case_insensitive in
      let compiled = map (compile_row case_insensitive) rows in
      if ltb max_dimension_rows (length rows)
      then err (too_many_rows dim.id (length rows) max_dimension_rows)
      else elim (build_index dim dim.match_mode compiled) [
        | err e ↦ err e
        | ok exact_index ↦ ok (record {
          rows = compiled;
          value_columns = value_columns dim;
          match_mode = dim.match_mode;
          case_insensitive = case_insensitive;
          on_miss = dim.on_miss;
          exact_index = exact_index;
        })
      ]

  unfoldable pub lookup_value : DimensionMatcher → Text → ℕ → Option Text
  lookup_value m input index =
      answer m input index (hit m m.match_mode (fold m.case_insensitive input))

  -- Compiling the inline dimensions of a configuration; those in files are skipped.
  unfoldable pub inline_row : InlineDimensionRow → MatcherRow
  inline_row r = record { keys = r.patterns; cells = map some r.values; weight = r.priority }

  unfoldable pub build_from :
      List Dimension
      → Dict Text DimensionMatcher
      → Result (Dict Text DimensionMatcher) DimensionError
  build_from [] registry = ok registry
  build_from (dim ∷ dims) registry = elim dim.rows [
    | inline values rows ↦ elim (new_matcher dim (map inline_row rows)) [
      | ok m ↦ build_from dims (insert dim.id m registry)
      | err e ↦ err e
    ]
    | file path_prefix key values priority_column ↦ build_from dims registry
  ]

  unfoldable pub build_inline_registry :
      List Dimension → Result (Dict Text DimensionMatcher) DimensionError
  build_inline_registry dims = build_from dims []

-- ===== src/Dimension/Matcher/Exact.antt =====
-- The index of an exact dimension in src/dimension.rs.
use karet_worker.Common.{
  ℕ, suc, ◌≡◌, refl, ◌∙◌, Option, none, some, List, [], ◌∷◌, arith, text_eq, find, contains,
  Option-cases, inl, inr, if◌then◌else◌,
}
use karet_worker.Common.Dict.{Dict, lookup, insert, lookup-insert}
use karet_worker.Common.Result.{Result, ok, err}
use karet_worker.Common.Text.{Text}
use karet_worker.Dimension.Types.{DimensionError, exact, Dimension, Unicode}
use karet_worker.Dimension.Matcher.{
  CompiledRow, DimensionMatcher, MatcherRow, index_patterns, index_rows, build_index, row_at, hit,
  new_matcher,
}

-- Where the first row that has a key stands, counted from `i`.
place : Text → ℕ → List CompiledRow → Option ℕ
place k i [] = none
place k i (row ∷ rows) =
    let rest = place k (suc i) rows in if contains row.patterns k then some i else rest

-- What an earlier index says comes first.
or_else : Option ℕ → Option ℕ → Option ℕ
or_else none o = o
or_else (some i) o = some i

place-suc :
    (k : Text) (i : ℕ) (rows : List CompiledRow)
    → place k (suc i) rows
      ≡ (elim (place k i rows) as (λ _. Option ℕ) [ none ↦ none | some j ↦ some (suc j) ])
unfolding place
place-suc k i [] = refl
place-suc k i (row ∷ rows) = ground (arith, place-suc k (suc i) rows)

row_at-place :
    (k : Text) (rows : List CompiledRow)
    → row_at rows (place k 0 rows) ≡ find (λ row. contains row.patterns k) rows
unfolding place row_at
row_at-place k [] = refl
row_at-place k (row ∷ rows) = ground (arith, row_at-place k rows, place-suc k 0 rows)

lookup-index_patterns :
    (id : Text) (i : ℕ) (k : Text) (patterns : List Text) (index index' : Dict Text ℕ)
    → index_patterns id i patterns index ≡ ok index'
    → lookup k index' ≡ or_else (lookup k index) (if contains patterns k then some i else none)
unfolding index_patterns or_else
lookup-index_patterns id i k [] index index' e = ground (arith, e)
lookup-index_patterns id i k (p ∷ patterns) index index' e = elim (Option-cases (lookup p index)) [
  | inl f ↦ ground (
    arith,
    e,
    f,
    lookup-insert k p i index,
    lookup-index_patterns id i k patterns (insert p i index) index' (ground (arith, e, f)),
  )
  | inr (j, f) ↦ ground (arith, e, f)
]

lookup-index_rows :
    (id : Text) (i : ℕ) (k : Text) (rows : List CompiledRow) (index index' : Dict Text ℕ)
    → index_rows id i rows index ≡ ok index'
    → lookup k index' ≡ or_else (lookup k index) (place k i rows)
unfolding index_rows place or_else
lookup-index_rows id i k [] index index' e = ground (arith, e)
lookup-index_rows id i k (row ∷ rows) index index' e =
    step (λ middle h. lookup-index_rows id (suc i) k rows middle index' h)
      (index_patterns id i row.patterns index) refl
  where
    step :
        ((middle : Dict Text ℕ)
          → index_rows id (suc i) rows middle ≡ ok index'
          → lookup k index' ≡ or_else (lookup k middle) (place k (suc i) rows))
        → (r : Result (Dict Text ℕ) DimensionError) → index_patterns id i row.patterns index ≡ r
        → lookup k index' ≡ or_else (lookup k index) (place k i (row ∷ rows))
    step later (ok middle) f = ground (
      arith,
      lookup-index_patterns id i k row.patterns index middle f,
      later middle (ground (arith, e, f)),
    )
    step later (err x) f = ground (arith, e, f)

-- What a matcher that was built holds.
new_matcher_ok :
    (u : Unicode) (dim : Dimension) (rows : List MatcherRow) (m : DimensionMatcher)
    → new_matcher u dim rows ≡ ok m
    → (m.match_mode ≡ dim.match_mode) × (build_index dim dim.match_mode m.rows ≡ ok m.exact_index)
unfolding new_matcher
new_matcher_ok u dim rows m e = ground (arith, e)

-- A matcher that was built for an exact dimension answers from its index what a scan of its rows for
-- the first one with the key answers.
pub hit_exact :
    (u : Unicode) (dim : Dimension) (rows : List MatcherRow) (m : DimensionMatcher) (folded : Text)
    → dim.match_mode ≡ exact
    → new_matcher u dim rows ≡ ok m
    → hit m m.match_mode folded ≡ find (λ row. contains row.patterns folded) m.rows
unfolding build_index hit
hit_exact u dim rows m folded mode e =
    let (same, built) = new_matcher_ok u dim rows m e in
    let built' : index_rows dim.id 0 m.rows [] ≡ ok m.exact_index = ground (arith, built, mode) in
    let found : lookup folded m.exact_index ≡ place folded 0 m.rows =
      unfold lookup or_else in lookup-index_rows dim.id 0 folded m.rows [] m.exact_index built' in
    rw (same ∙ mode, found) (row_at-place folded m.rows)

-- ===== src/Dimension/Matcher/Best.antt =====
-- The keyword scan in `DimensionMatcher::lookup` of src/dimension.rs.
use karet_worker.Common.{
  ◌≡◌, refl, ap, true, false, Option, none, some, List, [], ◌∷◌, ◌++◌, arith, Bool-cases, All, ◌⊎◌,
  inl, inr,
}
use karet_worker.Common.Int.{◌≤ℤ◌, leb_ℤ}
use karet_worker.Common.Text.{Text}
use karet_worker.Dimension.Matcher.{CompiledRow, better, row_matches, scan}

-- A row that does not match, or whose priority the best row reaches.
abbrev pub Yields : Text → CompiledRow → CompiledRow → Type 0
Yields folded best row = row_matches folded row ≡ true → row.priority ≤ℤ best.priority

-- A row that does not match, or has a smaller priority.
abbrev pub Falls : Text → CompiledRow → CompiledRow → Type 0
Falls folded best row = row_matches folded row ≡ true → ¬ (best.priority ≤ℤ row.priority)

-- The best row, between the rows before it and those behind it.
abbrev pub IsFirstBest : Text → List CompiledRow → CompiledRow → Type 0
IsFirstBest folded rows best =
    (row_matches folded best ≡ true)
    × ((before : List CompiledRow) × ((after : List CompiledRow) × ((rows
              ≡ before ++ (best ∷ after))
            × (All (Falls folded best) before × All (Yields folded best) after))))

abbrev pub IsScan : Text → List CompiledRow → Option CompiledRow → Type 0
IsScan folded rows none = All (λ row. row_matches folded row ≡ false) rows
IsScan folded rows (some best) = IsFirstBest folded rows best

prepend :
    (folded : Text) (row : CompiledRow) (rows : List CompiledRow) (best : CompiledRow)
    → IsFirstBest folded rows best
    → Falls folded best row
    → IsFirstBest folded (row ∷ rows) best
prepend folded row rows best (m, (before, (after, (e, (falls, yields))))) f =
    (m, (row ∷ before, (after, (ap (λ t. row ∷ t) e, ((f, falls), yields)))))

-- What becomes of a row in hand: it stays, or a later row beats it.
Stays : Text → List CompiledRow → CompiledRow → Type 0
Stays folded rows best = (scan folded rows (some best) ≡ some best) × All (Yields folded best) rows

Beaten : Text → List CompiledRow → CompiledRow → Type 0
Beaten folded rows best =
    (row : CompiledRow) × ((scan folded rows (some best) ≡ some row)
      × ((¬ (row.priority ≤ℤ best.priority)) × IsFirstBest folded rows row))

scan_some :
    (folded : Text) (rows : List CompiledRow) (best : CompiledRow)
    → Stays folded rows best ⊎ Beaten folded rows best
unfolding Stays Beaten scan better
scan_some folded [] best = inl (refl, tt)
scan_some folded (row ∷ rows) best = elim (Bool-cases (row_matches folded row)) [
  | inl m ↦ elim (Bool-cases (leb_ℤ row.priority best.priority)) [
    | inl le ↦ elim (scan_some folded rows best) [
      | inl (e, ys) ↦ inl (ground (arith, e, m, le), (λ _. ground (arith, le), ys))
      | inr (r, (e, (gt, b))) ↦ inr (
        r,
        (
          ground (arith, e, m, le),
          (gt, prepend folded row rows r b (λ _ h. ground (arith, le, gt, h))),
        ),
      )
    ]
    | inr gt ↦ elim (scan_some folded rows row) [
      | inl (e, ys) ↦ inr (
        row,
        (
          ground (arith, e, m, gt),
          (λ h. ground (arith, gt, h), (m, ([], (rows, (refl, (tt, ys)))))),
        ),
      )
      | inr (r, (e, (gt', b))) ↦ inr (
        r,
        (
          ground (arith, e, m, gt),
          (λ h. ground (arith, gt, gt', h), prepend folded row rows r b (λ _ h. gt' h)),
        ),
      )
    ]
  ]
  | inr n ↦ elim (scan_some folded rows best) [
    | inl (e, ys) ↦ inl (ground (arith, e, n), (λ m. ground (arith, m, n), ys))
    | inr (r, (e, (gt, b))) ↦
        inr
          (r, (ground (arith, e, n), (gt, prepend folded row rows r b (λ m. ground (arith, m, n)))))
  ]
]

-- The keyword match finds a row exactly when one matches, and then the row that comes first among
-- the matching rows with the greatest priority.
pub scan-none-IsScan :
    (folded : Text) (rows : List CompiledRow) → IsScan folded rows (scan folded rows none)
unfolding Stays Beaten scan better
scan-none-IsScan folded [] = tt
scan-none-IsScan folded (row ∷ rows) = elim (Bool-cases (row_matches folded row)) [
  | inl m ↦ elim (scan_some folded rows row) [
    | inl (e, ys) ↦ found (some row) (ground (arith, e, m)) (m, ([], (rows, (refl, (tt, ys)))))
    | inr (r, (e, (gt, b))) ↦
        found (some r) (ground (arith, e, m)) (prepend folded row rows r b (λ _ h. gt h))
  ]
  | inr n ↦ not_here n (scan folded rows none) refl (scan-none-IsScan folded rows)
]
  where
    found :
        (o : Option CompiledRow)
        → scan folded (row ∷ rows) none ≡ o
        → IsScan folded (row ∷ rows) o
        → IsScan folded (row ∷ rows) (scan folded (row ∷ rows) none)
    found o e b = rw (e) b

    not_here :
        row_matches folded row ≡ false
        → (o : Option CompiledRow) → scan folded rows none ≡ o
        → IsScan folded rows o
        → IsScan folded (row ∷ rows) (scan folded (row ∷ rows) none)
    not_here n none e s = found none (ground (arith, n, e)) (n, s)
    not_here n (some r) e s =
        found (some r) (ground (arith, n, e))
          (prepend folded row rows r s (λ m. ground (arith, m, n)))

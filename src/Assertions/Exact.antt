-- ===== src/Assertions/Exact.antt =====
-- What `validate_assertions` of src/assertions.rs reports, against the meaning of the assertions.
use karet_worker.Common.{
  ◌≡◌, refl, ◌∙◌, inl, inr, Bool, true, false, not, ◌&&◌, ◌||◌, Option, none, some, List, [], ◌∷◌,
  ◌++◌, ltb, all, is_empty, arith, Bool-cases,
}
use karet_worker.Common.Float.{Floats}
use karet_worker.Common.Result.{Result, ok, err}
use karet_worker.Common.Text.{Text, bytes}
use karet_worker.Config.Types.{ColumnAssertions, ColumnSchema, AnalyticTable}
use karet_worker.Config.Check.{flat_map}
use karet_worker.Polars.{Polars}
use karet_worker.Assertions.{
  AssertionViolation, is_some_true, is_some, cast_failed, violation, below_min, above_max,
  count_outside, null_violations, outside_violations, range_violations, check_column,
  column_violations, validate_assertions,
}

is_empty-append : {A : Type 0} (xs ys : List A) → is_empty (xs ++ ys) ≡ (is_empty xs && is_empty ys)
is_empty-append [] ys = refl
is_empty-append (x ∷ xs) ys = refl

is_empty-flat_map :
    {A B : Type 0} (f : A → List B) (g : A → Bool) (h : (a : A) → is_empty (f a) ≡ g a)
    (xs : List A)
    → is_empty (flat_map f xs) ≡ all g xs
unfolding flat_map
is_empty-flat_map f g h [] = refl
is_empty-flat_map f g h (x ∷ xs) =
    is_empty-append (f x) (flat_map f xs) ∙ rw (h x, is_empty-flat_map f g h xs) refl

module _ {F : Type 0} (floats : Floats F) where
  -- A value is not below the minimum and not above the maximum; a null is in any range.
  abbrev pub in_range : ColumnAssertions F → Option F → Bool
  in_range a none = true
  in_range a (some v) = not (below_min floats a.min v) && not (above_max floats a.max v)

  count_outside_zero :
      (a : ColumnAssertions F) (vs : List (Option F))
      → not (
          ltb 0 (count_outside floats a.min a.max vs).0
          || ltb 0 (count_outside floats a.min a.max vs).1)
        ≡ all (in_range a) vs
  unfolding count_outside
  count_outside_zero a [] = refl
  count_outside_zero a (none ∷ vs) = count_outside_zero a vs
  count_outside_zero a (some v ∷ vs) = ground (arith, count_outside_zero a vs)

  module _ (p : Polars F) where
    open p use {Column, Frame}

    abbrev pub within : ColumnAssertions F → Result (List (Option F)) Text → Bool
    within a (err e) = false
    within a (ok vs) = all (in_range a) vs

    abbrev pub range_met : ColumnAssertions F → Result Column Text → Bool
    range_met a (err e) = false
    range_met a (ok casted) = within a (p.f64s casted)

    abbrev pub column_met : ColumnAssertions F → Result Column Text → Bool
    column_met a (err e) = false
    column_met a (ok series) =
        (not (is_some_true a.not_null) || not (ltb 0 (p.null_count series)))
        && (not (is_some a.min || is_some a.max) || range_met a (p.cast_f64 series))

    abbrev assertion_met : Frame → Text → Option (ColumnAssertions F) → Bool
    assertion_met df name none = true
    assertion_met df name (some a) = column_met a (p.column df name)

    -- The declared assertions hold of a column: it is present, has no nulls if it may have none, and
    -- with a minimum or a maximum it reads as numbers that are all in the range.
    abbrev pub meets : Frame → ColumnSchema F → Bool
    meets df col = assertion_met df col.name col.assertions

    is_empty-null_violations :
        (name : Text) (series : Column) (a : ColumnAssertions F)
        → is_empty (null_violations floats p name series a)
          ≡ (not (is_some_true a.not_null) || not (ltb 0 (p.null_count series)))
    unfolding null_violations
    is_empty-null_violations name series a = ground arith

    is_empty-range_violations :
        (name : Text) (series : Column) (a : ColumnAssertions F)
        → is_empty (range_violations floats p name series a)
          ≡ (not (is_some a.min || is_some a.max) || range_met a (p.cast_f64 series))
    unfolding range_violations outside_violations
    is_empty-range_violations name series a = elim (Bool-cases (is_some a.min || is_some a.max)) [
      | inl asked ↦ rw asked (at (p.cast_f64 series))
      | inr not_asked ↦ rw not_asked refl
    ]
      where
        counted :
            (r : Result (List (Option F)) Text)
            → is_empty (elim r as (λ _. List AssertionViolation) [
              | err e ↦ cast_failed floats p name e
              | ok vs ↦ outside_violations floats p name a (count_outside floats a.min a.max vs)
            ])
              ≡ within a r
        counted (err e) = refl
        counted (ok vs) = ground (arith, count_outside_zero a vs)

        at :
            (r : Result Column Text)
            → is_empty (elim r as (λ _. List AssertionViolation) [
              | err e ↦ cast_failed floats p name e
              | ok casted ↦ elim (p.f64s casted) [
                | err e ↦ cast_failed floats p name e
                | ok vs ↦ outside_violations floats p name a (count_outside floats a.min a.max vs)
              ]
            ])
              ≡ range_met a r
        at (err e) = refl
        at (ok casted) = counted (p.f64s casted)

    is_empty-column_violations :
        (df : Frame) (col : ColumnSchema F)
        → is_empty (column_violations floats p df col) ≡ meets df col
    unfolding column_violations check_column
    is_empty-column_violations df col = at col.assertions
      where
        checked :
            (a : ColumnAssertions F) (r : Result Column Text)
            → is_empty (elim r as (λ _. List AssertionViolation) [
              | err _ ↦
                  violation floats p col.name
                    (bytes "missing_column")
                    (bytes "column not present in produced DataFrame")
                  ∷ []
              | ok series ↦ check_column floats p col.name series a
            ])
              ≡ column_met a r
        checked a (err e) = refl
        checked a (ok series) =
            is_empty-append (null_violations floats p col.name series a) _
            ∙ rw
                (
                  is_empty-null_violations col.name series a,
                  is_empty-range_violations col.name series a,
                )
                refl

        at :
            (o : Option (ColumnAssertions F))
            → is_empty (elim o as (λ _. List AssertionViolation) [
              | none ↦ []
              | some a ↦ elim (p.column df col.name) [
                | err _ ↦
                    violation floats p col.name
                      (bytes "missing_column")
                      (bytes "column not present in produced DataFrame")
                    ∷ []
                | ok series ↦ check_column floats p col.name series a
              ]
            ])
              ≡ assertion_met df col.name o
        at none = refl
        at (some a) = checked a (p.column df col.name)

    -- No violation is reported exactly when the declared assertions of every column hold.
    pub is_empty-validate_assertions :
        (df : Frame) (table : AnalyticTable F)
        → is_empty (validate_assertions floats p df table) ≡ all (meets df) table.schema
    unfolding validate_assertions
    is_empty-validate_assertions df table =
        is_empty-flat_map (column_violations floats p df) (meets df) (is_empty-column_violations df)
          table.schema

-- ===== src/Assertions.antt =====
-- src/assertions.rs: the checks on the columns of an analytic table.
pub mod Exact
use karet_worker.Common.{
  ℕ, zero, suc, ◌+◌, Bool, true, false, ◌||◌, Option, none, some, List, [], ◌∷◌, ◌++◌, ltb,
  if◌then◌else◌,
}
use karet_worker.Common.Float.{Floats}
use karet_worker.Common.Result.{Result, ok, err}
use karet_worker.Common.Text.{Text, bytes, to_string}
use karet_worker.Config.Types.{ColumnAssertions, ColumnSchema, AnalyticTable}
use karet_worker.Config.Check.{flat_map}
use karet_worker.Polars.{Polars}

pub record AssertionViolation : Type 0 where
  pub column : Text
  pub kind : Text
  pub message : Text

unfoldable pub display : AssertionViolation → Text
display v = bytes "column `" ++ (v.column ++ (bytes "` " ++ (v.kind ++ (bytes ": " ++ v.message))))

abbrev pub is_some_true : Option Bool → Bool
is_some_true none = false
is_some_true (some b) = b

abbrev pub is_some {ℓ} : {A : Type ℓ} → Option A → Bool
is_some none = false
is_some (some a) = true

module _ {F : Type 0} (floats : Floats F) where
  abbrev pub below_min : Option F → F → Bool
  below_min none v = false
  below_min (some lo) v = floats.lt v lo

  abbrev pub above_max : Option F → F → Bool
  above_max none v = false
  above_max (some hi) v = floats.lt hi v

  -- The loop: a value below the minimum is not compared with the maximum.
  unfoldable pub count_outside : Option F → Option F → List (Option F) → ℕ × ℕ
  count_outside lo hi [] = (0, 0)
  count_outside lo hi (none ∷ vs) = count_outside lo hi vs
  count_outside lo hi (some v ∷ vs) =
      let (below, above) = count_outside lo hi vs in
      if below_min lo v
      then (suc below, above)
      else if above_max hi v
      then (below, suc above)
      else (below, above)

  module _ (p : Polars F) where
    open p use {Column, Frame}

    abbrev pub violation : Text → Text → Text → AssertionViolation
    violation name kind message = record { column = name; kind = kind; message = message }

    unfoldable pub null_violations : Text → Column → ColumnAssertions F → List AssertionViolation
    null_violations name series a =
        if is_some_true a.not_null
        then (if ltb 0 (p.null_count series)
            then violation name (bytes "not_null")
                (to_string (p.null_count series) ++ bytes " null value(s) found")
              ∷ []
            else [])
        else []

    unfoldable pub counts_message : ColumnAssertions F → ℕ × ℕ → Text
    counts_message a (below, above) =
        to_string below
        ++ (bytes " below min, "
            ++ (to_string above
                ++ (bytes " above max (min="
                    ++ (floats.debug a.min
                        ++ (bytes ", max=" ++ (floats.debug a.max ++ bytes ")"))))))

    unfoldable pub outside_violations : Text → ColumnAssertions F → ℕ × ℕ → List AssertionViolation
    outside_violations name a (below, above) =
        if ltb 0 below || ltb 0 above
        then violation name (bytes "range") (counts_message a (below, above)) ∷ []
        else []

    abbrev pub cast_failed : Text → Text → List AssertionViolation
    cast_failed name e = violation name (bytes "range") (bytes "cast to float64 failed: " ++ e) ∷ []

    unfoldable pub range_violations : Text → Column → ColumnAssertions F → List AssertionViolation
    range_violations name series a =
        if is_some a.min || is_some a.max
        then elim (p.cast_f64 series) [
          | err e ↦ cast_failed name e
          | ok casted ↦ elim (p.f64s casted) [
            | err e ↦ cast_failed name e
            | ok vs ↦ outside_violations name a (count_outside a.min a.max vs)
          ]
        ]
        else []

    unfoldable pub check_column : Text → Column → ColumnAssertions F → List AssertionViolation
    check_column name series a = null_violations name series a ++ range_violations name series a

    unfoldable pub column_violations : Frame → ColumnSchema F → List AssertionViolation
    column_violations df col = elim col.assertions [
      | none ↦ []
      | some a ↦ elim (p.column df col.name) [
        | err _ ↦
            violation col.name (bytes "missing_column")
              (bytes "column not present in produced DataFrame")
            ∷ []
        | ok series ↦ check_column col.name series a
      ]
    ]

    unfoldable pub validate_assertions : Frame → AnalyticTable F → List AssertionViolation
    validate_assertions df table = flat_map (column_violations df) table.schema

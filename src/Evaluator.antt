-- ===== src/Evaluator.antt =====
-- src/evaluator.rs: compiling an expression to one of Polars.
pub mod Errors
pub mod Valid
use karet_worker.Common.{
  ℕ, Bool, true, false, Option, none, some, List, [], ◌∷◌, ◌==◌, text_eq, if◌then◌else◌,
}
use karet_worker.Common.Dict.{Dict, lookup}
use karet_worker.Common.Int.{ℤ}
use karet_worker.Common.Result.{Result, ok, err, ◌>>=◌}
use karet_worker.Common.Text.{Text, bytes}
use karet_worker.Ast.{AstNode, Args, CastType}
use karet_worker.Dimension.Types.{Unicode}
use karet_worker.Dimension.Matcher.{DimensionMatcher, value_index, lookup_value}
use karet_worker.Error.{EvalError, unknown_dimension, unknown_dimension_value}
use karet_worker.Polars.{Polars, DataType}

abbrev pub Registry : Type 0
Registry = Dict Text DimensionMatcher

abbrev unwrap_or_default : Option Text → Text
unwrap_or_default none = []
unwrap_or_default (some t) = t

abbrev pub found_dimension : Text → Option DimensionMatcher → Result DimensionMatcher EvalError
found_dimension id none = err (unknown_dimension id)
found_dimension id (some m) = ok m

-- The matcher and the index of the value column that a reference names.
unfoldable pub resolve_reference :
    Registry → Text → Option Text → Result (DimensionMatcher × ℕ) EvalError
resolve_reference dimensions dim_id value = do
  matcher ← found_dimension dim_id (lookup dim_id dimensions)
  elim (value_index matcher value) [
    | none ↦ err (unknown_dimension_value dim_id (unwrap_or_default value))
    | some i ↦ ok (matcher, i)
  ]

unfoldable pub data_type : CastType → DataType
data_type CastType.int64 = DataType.int64
data_type CastType.float64 = DataType.float64
data_type CastType.string = DataType.string
data_type CastType.date = DataType.date

module _ {F : Type 0} (p : Polars F) (u : Unicode) where
  open p use {Expr}

  -- Seconds by default, or milliseconds.
  unfoldable pub millis : Option Text → Expr → Expr
  millis none e = p.times e (p.lit_f64 p.thousand)
  millis (some unit) e = if unit == bytes "ms" then e else p.times e (p.lit_f64 p.thousand)

  unfoldable pub slice_length : Option ℤ → Expr
  slice_length none = p.lit_null
  slice_length (some l) = p.lit_i64 l

  abbrev pub both :
      Result Expr EvalError → Result Expr EvalError → (Expr → Expr → Expr) → Result Expr EvalError
  both l r f = l >>= λ a. r >>= λ b. ok (f a b)

  abbrev pub one : Result Expr EvalError → (Expr → Expr) → Result Expr EvalError
  one l f = l >>= λ a. ok (f a)

  unfoldable mutual
    pub compile : Registry → AstNode F → Result Expr EvalError
    compile ctx (AstNode.col name) = ok (p.col name)
    compile ctx (AstNode.str value) = ok (p.lit_str value)
    compile ctx (AstNode.num value) = ok (p.lit_f64 value)
    compile ctx (AstNode.bool value) = ok (p.lit_bool value)
    compile ctx AstNode.null = ok p.lit_null
    compile ctx (AstNode.add l r) = both (compile ctx l) (compile ctx r) p.plus
    compile ctx (AstNode.sub l r) = both (compile ctx l) (compile ctx r) p.minus
    compile ctx (AstNode.mul l r) = both (compile ctx l) (compile ctx r) p.times
    compile ctx (AstNode.div l r) = both (compile ctx l) (compile ctx r) p.over
    compile ctx (AstNode.eq l r) = both (compile ctx l) (compile ctx r) p.eq
    compile ctx (AstNode.ne l r) = both (compile ctx l) (compile ctx r) p.neq
    compile ctx (AstNode.gt l r) = both (compile ctx l) (compile ctx r) p.gt
    compile ctx (AstNode.lt l r) = both (compile ctx l) (compile ctx r) p.lt
    compile ctx (AstNode.ge l r) = both (compile ctx l) (compile ctx r) p.gt_eq
    compile ctx (AstNode.le l r) = both (compile ctx l) (compile ctx r) p.lt_eq
    compile ctx (AstNode.contains l r) = both (compile ctx l) (compile ctx r) p.contains_literal
    compile ctx (AstNode.from_unix input unit) = one (compile ctx input) λ e.
        p.cast (p.cast (p.cast (millis unit e) DataType.int64) DataType.datetime_ms) DataType.date
    compile ctx (AstNode.and l r) = both (compile ctx l) (compile ctx r) p.and
    compile ctx (AstNode.or l r) = both (compile ctx l) (compile ctx r) p.or
    compile ctx (AstNode.not input) = one (compile ctx input) p.negate
    compile ctx (AstNode.upper input) = one (compile ctx input) p.to_uppercase
    compile ctx (AstNode.lower input) = one (compile ctx input) p.to_lowercase
    compile ctx (AstNode.trim input) = one (compile ctx input) λ e. p.strip_chars e p.lit_null
    compile ctx (AstNode.substring input start length) =
        one (compile ctx input) λ e. p.slice e (p.lit_i64 start) (slice_length length)
    compile ctx (AstNode.concat sep args) =
        compile_args ctx args >>= λ es. ok (p.concat_str es sep true)
    compile ctx (AstNode.if_else c t e) =
        compile ctx c >>= λ c'. both (compile ctx t) (compile ctx e) (p.when_then_otherwise c')
    compile ctx (AstNode.coalesce Args.no_args) = ok p.lit_null
    compile ctx (AstNode.coalesce (Args.arg node args)) =
        compile_args ctx (Args.arg node args) >>= λ es. ok (p.coalesce es)
    compile ctx (AstNode.cast input to) = one (compile ctx input) λ e. p.cast e (data_type to)
    compile ctx (AstNode.year input) = one (compile ctx input) λ e. p.cast (p.year e) DataType.int64
    compile ctx (AstNode.month input) =
        one (compile ctx input) λ e. p.cast (p.month e) DataType.int64
    compile ctx (AstNode.day input) = one (compile ctx input) λ e. p.cast (p.day e) DataType.int64
    compile ctx (AstNode.parse_date input format) =
        one (compile ctx input) λ e. p.to_date e format false
    compile ctx (AstNode.dim_ref dim_id value input) = resolve_reference ctx dim_id value >>= λ r.
        one (compile ctx input) λ e. p.map_strings e (λ s. lookup_value u r.0 s r.1)

    -- The arguments in order, up to the first that fails.
    pub compile_args : Registry → Args F → Result (List Expr) EvalError
    compile_args ctx Args.no_args = ok []
    compile_args ctx (Args.arg node args) =
        compile ctx node >>= λ e. compile_args ctx args >>= λ es. ok (e ∷ es)

-- ===== src/Evaluator/Errors.antt =====
-- The errors of `compile` in src/evaluator.rs.
use karet_worker.Common.{◌≡◌, refl, sym, ◌∙◌, Option, none, some, List, [], ◌∷◌, ◌++◌, arith}
use karet_worker.Common.Result.{Result, ok, err, ◌>>=◌}
use karet_worker.Ast.{AstNode, Args, walk_ast, walk_args}
use karet_worker.Dimension.Types.{Unicode}
use karet_worker.Error.{EvalError}
use karet_worker.Polars.{Polars}
use karet_worker.Evaluator.{Registry, resolve_reference, compile, compile_args}

abbrev pub error_of {ℓ κ} : {A : Type ℓ} {E : Type κ} → Result A E → Option E
error_of (ok a) = none
error_of (err e) = some e

abbrev pub or_else {ℓ} : {E : Type ℓ} → Option E → Option E → Option E
or_else none f = f
or_else (some e) f = some e

-- Only a reference to a dimension can fail by itself.
abbrev pub node_error : {F : Type 0} → Registry → AstNode F → Option EvalError
node_error ctx (AstNode.dim_ref dim_id value input) = error_of (resolve_reference ctx dim_id value)
node_error ctx node = none

unfoldable pub first_error : {F : Type 0} → Registry → List (AstNode F) → Option EvalError
first_error ctx [] = none
first_error ctx (node ∷ nodes) = or_else (node_error ctx node) (first_error ctx nodes)

first_error-append :
    {F : Type 0} (ctx : Registry) (xs ys : List (AstNode F))
    → first_error ctx (xs ++ ys) ≡ or_else (first_error ctx xs) (first_error ctx ys)
unfolding first_error
first_error-append ctx [] ys = refl
first_error-append ctx (x ∷ xs) ys = ground (arith, first_error-append ctx xs ys)

error_of->>= :
    {A B E : Type 0} (m : Result A E) (f : A → B) → error_of (m >>= λ a. ok (f a)) ≡ error_of m
error_of->>= (ok a) f = refl
error_of->>= (err e) f = refl

error_of_both :
    {A B C E : Type 0} (l : Result A E) (r : Result B E) (f : A → B → C)
    → error_of (l >>= λ a. r >>= λ b. ok (f a b)) ≡ or_else (error_of l) (error_of r)
error_of_both (ok a) (ok b) f = refl
error_of_both (ok a) (err e) f = refl
error_of_both (err e) r f = refl

error_of_three :
    {A B C D E : Type 0} (l : Result A E) (m : Result B E) (r : Result C E) (f : A → B → C → D)
    → error_of (l >>= λ a. m >>= λ b. r >>= λ c. ok (f a b c))
      ≡ or_else (error_of l) (or_else (error_of m) (error_of r))
error_of_three (ok a) m r f = error_of_both m r (f a)
error_of_three (err e) m r f = refl

module _ {F : Type 0} (p : Polars F) (u : Unicode) where
  mutual
    unfolding compile compile_args walk_ast walk_args first_error

    error_of-compile :
        (ctx : Registry) (n : AstNode F)
        → error_of (compile p u ctx n) ≡ first_error ctx (walk_ast n)
    error_of-compile ctx (AstNode.col name) = refl
    error_of-compile ctx (AstNode.str value) = refl
    error_of-compile ctx (AstNode.num value) = refl
    error_of-compile ctx (AstNode.bool value) = refl
    error_of-compile ctx AstNode.null = refl
    error_of-compile ctx (AstNode.add l r) =
        error_of_both (compile p u ctx l) (compile p u ctx r) _
        ∙ rw (error_of-compile ctx l, error_of-compile ctx r)
            (sym (first_error-append ctx (walk_ast l) (walk_ast r)))
    error_of-compile ctx (AstNode.sub l r) =
        error_of_both (compile p u ctx l) (compile p u ctx r) _
        ∙ rw (error_of-compile ctx l, error_of-compile ctx r)
            (sym (first_error-append ctx (walk_ast l) (walk_ast r)))
    error_of-compile ctx (AstNode.mul l r) =
        error_of_both (compile p u ctx l) (compile p u ctx r) _
        ∙ rw (error_of-compile ctx l, error_of-compile ctx r)
            (sym (first_error-append ctx (walk_ast l) (walk_ast r)))
    error_of-compile ctx (AstNode.div l r) =
        error_of_both (compile p u ctx l) (compile p u ctx r) _
        ∙ rw (error_of-compile ctx l, error_of-compile ctx r)
            (sym (first_error-append ctx (walk_ast l) (walk_ast r)))
    error_of-compile ctx (AstNode.eq l r) =
        error_of_both (compile p u ctx l) (compile p u ctx r) _
        ∙ rw (error_of-compile ctx l, error_of-compile ctx r)
            (sym (first_error-append ctx (walk_ast l) (walk_ast r)))
    error_of-compile ctx (AstNode.ne l r) =
        error_of_both (compile p u ctx l) (compile p u ctx r) _
        ∙ rw (error_of-compile ctx l, error_of-compile ctx r)
            (sym (first_error-append ctx (walk_ast l) (walk_ast r)))
    error_of-compile ctx (AstNode.gt l r) =
        error_of_both (compile p u ctx l) (compile p u ctx r) _
        ∙ rw (error_of-compile ctx l, error_of-compile ctx r)
            (sym (first_error-append ctx (walk_ast l) (walk_ast r)))
    error_of-compile ctx (AstNode.lt l r) =
        error_of_both (compile p u ctx l) (compile p u ctx r) _
        ∙ rw (error_of-compile ctx l, error_of-compile ctx r)
            (sym (first_error-append ctx (walk_ast l) (walk_ast r)))
    error_of-compile ctx (AstNode.ge l r) =
        error_of_both (compile p u ctx l) (compile p u ctx r) _
        ∙ rw (error_of-compile ctx l, error_of-compile ctx r)
            (sym (first_error-append ctx (walk_ast l) (walk_ast r)))
    error_of-compile ctx (AstNode.le l r) =
        error_of_both (compile p u ctx l) (compile p u ctx r) _
        ∙ rw (error_of-compile ctx l, error_of-compile ctx r)
            (sym (first_error-append ctx (walk_ast l) (walk_ast r)))
    error_of-compile ctx (AstNode.contains l r) =
        error_of_both (compile p u ctx l) (compile p u ctx r) _
        ∙ rw (error_of-compile ctx l, error_of-compile ctx r)
            (sym (first_error-append ctx (walk_ast l) (walk_ast r)))
    error_of-compile ctx (AstNode.and l r) =
        error_of_both (compile p u ctx l) (compile p u ctx r) _
        ∙ rw (error_of-compile ctx l, error_of-compile ctx r)
            (sym (first_error-append ctx (walk_ast l) (walk_ast r)))
    error_of-compile ctx (AstNode.or l r) =
        error_of_both (compile p u ctx l) (compile p u ctx r) _
        ∙ rw (error_of-compile ctx l, error_of-compile ctx r)
            (sym (first_error-append ctx (walk_ast l) (walk_ast r)))
    error_of-compile ctx (AstNode.upper input) =
        error_of->>= (compile p u ctx input) _ ∙ error_of-compile ctx input
    error_of-compile ctx (AstNode.lower input) =
        error_of->>= (compile p u ctx input) _ ∙ error_of-compile ctx input
    error_of-compile ctx (AstNode.trim input) =
        error_of->>= (compile p u ctx input) _ ∙ error_of-compile ctx input
    error_of-compile ctx (AstNode.not input) =
        error_of->>= (compile p u ctx input) _ ∙ error_of-compile ctx input
    error_of-compile ctx (AstNode.year input) =
        error_of->>= (compile p u ctx input) _ ∙ error_of-compile ctx input
    error_of-compile ctx (AstNode.month input) =
        error_of->>= (compile p u ctx input) _ ∙ error_of-compile ctx input
    error_of-compile ctx (AstNode.day input) =
        error_of->>= (compile p u ctx input) _ ∙ error_of-compile ctx input
    error_of-compile ctx (AstNode.from_unix input unit) =
        error_of->>= (compile p u ctx input) _ ∙ error_of-compile ctx input
    error_of-compile ctx (AstNode.substring input start length) =
        error_of->>= (compile p u ctx input) _ ∙ error_of-compile ctx input
    error_of-compile ctx (AstNode.cast input to) =
        error_of->>= (compile p u ctx input) _ ∙ error_of-compile ctx input
    error_of-compile ctx (AstNode.parse_date input format) =
        error_of->>= (compile p u ctx input) _ ∙ error_of-compile ctx input
    error_of-compile ctx (AstNode.concat sep args) =
        error_of->>= (compile_args p u ctx args) _ ∙ error_of-compile_args ctx args
    error_of-compile ctx (AstNode.coalesce Args.no_args) = refl
    error_of-compile ctx (AstNode.coalesce (Args.arg node args)) =
        error_of->>= (compile_args p u ctx (Args.arg node args)) p.coalesce
        ∙ error_of-compile_args ctx (Args.arg node args)
    error_of-compile ctx (AstNode.if_else c t e) =
        error_of_three (compile p u ctx c) (compile p u ctx t) (compile p u ctx e) _
        ∙ rw
            (
              error_of-compile ctx c,
              error_of-compile ctx t,
              error_of-compile ctx e,
              first_error-append ctx (walk_ast c) (walk_ast t ++ walk_ast e),
              first_error-append ctx (walk_ast t) (walk_ast e),
            )
            refl
    error_of-compile ctx (AstNode.dim_ref dim_id value input) =
        error_of_both (resolve_reference ctx dim_id value) (compile p u ctx input) _
        ∙ rw (error_of-compile ctx input) refl

    error_of-compile_args :
        (ctx : Registry) (args : Args F)
        → error_of (compile_args p u ctx args) ≡ first_error ctx (walk_args args)
    error_of-compile_args ctx Args.no_args = refl
    error_of-compile_args ctx (Args.arg node args) =
        error_of_both (compile p u ctx node) (compile_args p u ctx args) _
        ∙ rw (error_of-compile ctx node, error_of-compile_args ctx args)
            (sym (first_error-append ctx (walk_ast node) (walk_args args)))

  -- Compiling fails exactly where a reference to a dimension does not resolve, and then with the
  -- error of the first such reference in the order in which the validation walks the expression.
  pub compile-first_error :
      (ctx : Registry) (n : AstNode F) → error_of (compile p u ctx n) ≡ first_error ctx (walk_ast n)
  compile-first_error ctx n = error_of-compile ctx n

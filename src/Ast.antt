-- ===== src/Ast.antt =====
-- src/ast.rs: the expressions of mapping columns. `F` stands for `f64`.
use karet_worker.Common.{Bool, Option, List, [], ◌∷◌, ◌++◌}
use karet_worker.Common.Int.{ℤ}
use karet_worker.Common.Text.{Text}

pub data CastType : Type 0 where
  int64 float64 string date : CastType

mutual
  pub data AstNode (F : Type 0) : Type 0 where
    col : Text → AstNode F
    str : Text → AstNode F
    num : F → AstNode F
    bool : Bool → AstNode F
    null : AstNode F
    add sub mul div : AstNode F → AstNode F → AstNode F
    concat : Text → Args F → AstNode F
    upper lower trim : AstNode F → AstNode F
    substring : AstNode F → ℤ → Option ℤ → AstNode F
    eq ne gt lt ge le : AstNode F → AstNode F → AstNode F
    contains : AstNode F → AstNode F → AstNode F
    from_unix : AstNode F → Option Text → AstNode F
    and or : AstNode F → AstNode F → AstNode F
    not : AstNode F → AstNode F
    if_else : AstNode F → AstNode F → AstNode F → AstNode F
    coalesce : Args F → AstNode F
    parse_date : AstNode F → Text → AstNode F
    dim_ref : Text → Option Text → AstNode F → AstNode F
    year month day : AstNode F → AstNode F
    cast : AstNode F → CastType → AstNode F

  pub data Args (F : Type 0) : Type 0 where
    no_args : Args F
    arg : AstNode F → Args F → Args F

-- `walk_ast` of src/config.rs: the nodes in the order in which they are visited.
unfoldable mutual
  pub walk_ast : {F : Type 0} → AstNode F → List (AstNode F)
  walk_ast (col name) = col name ∷ []
  walk_ast (str value) = str value ∷ []
  walk_ast (num value) = num value ∷ []
  walk_ast (bool value) = bool value ∷ []
  walk_ast null = null ∷ []
  walk_ast (add l r) = add l r ∷ (walk_ast l ++ walk_ast r)
  walk_ast (sub l r) = sub l r ∷ (walk_ast l ++ walk_ast r)
  walk_ast (mul l r) = mul l r ∷ (walk_ast l ++ walk_ast r)
  walk_ast (div l r) = div l r ∷ (walk_ast l ++ walk_ast r)
  walk_ast (concat sep args) = concat sep args ∷ walk_args args
  walk_ast (upper input) = upper input ∷ walk_ast input
  walk_ast (lower input) = lower input ∷ walk_ast input
  walk_ast (trim input) = trim input ∷ walk_ast input
  walk_ast (substring input start length) = substring input start length ∷ walk_ast input
  walk_ast (eq l r) = eq l r ∷ (walk_ast l ++ walk_ast r)
  walk_ast (ne l r) = ne l r ∷ (walk_ast l ++ walk_ast r)
  walk_ast (gt l r) = gt l r ∷ (walk_ast l ++ walk_ast r)
  walk_ast (lt l r) = lt l r ∷ (walk_ast l ++ walk_ast r)
  walk_ast (ge l r) = ge l r ∷ (walk_ast l ++ walk_ast r)
  walk_ast (le l r) = le l r ∷ (walk_ast l ++ walk_ast r)
  walk_ast (contains input pattern_node) =
      contains input pattern_node ∷ (walk_ast input ++ walk_ast pattern_node)
  walk_ast (from_unix input unit) = from_unix input unit ∷ walk_ast input
  walk_ast (and l r) = and l r ∷ (walk_ast l ++ walk_ast r)
  walk_ast (or l r) = or l r ∷ (walk_ast l ++ walk_ast r)
  walk_ast (not input) = not input ∷ walk_ast input
  walk_ast (if_else c t e) = if_else c t e ∷ (walk_ast c ++ (walk_ast t ++ walk_ast e))
  walk_ast (coalesce args) = coalesce args ∷ walk_args args
  walk_ast (parse_date input format) = parse_date input format ∷ walk_ast input
  walk_ast (dim_ref dim_id value input) = dim_ref dim_id value input ∷ walk_ast input
  walk_ast (year input) = year input ∷ walk_ast input
  walk_ast (month input) = month input ∷ walk_ast input
  walk_ast (day input) = day input ∷ walk_ast input
  walk_ast (cast input to) = cast input to ∷ walk_ast input

  pub walk_args : {F : Type 0} → Args F → List (AstNode F)
  walk_args no_args = []
  walk_args (arg node args) = walk_ast node ++ walk_args args

-- ===== src/Codegen/Check.antt =====
-- When src/Parser/Codegen.h reports no error: a check on the tree, apart from the code generator. A
-- variable that is no parameter needs a declaration in front, in its own block or in one around it, and a
-- call needs a function of that name so far, with as many parameters. What stands in its block behind a
-- `return`, or behind a block that returns, is not looked at, and neither are a call that stands as a
-- statement and the condition of a `do` whose body returns.
pub mod Leads
pub mod Views
pub mod Outcomes
pub mod Expressions
pub mod Operators
pub mod Calls
pub mod Statements
pub mod Blocks
pub mod Loops
pub mod Accept
pub mod Functions
mod Tests
use pudl.Prelude.{
  ℕ, suc, ◌==◌, ◌&&◌, ◌||◌, Bool, true, false, List, [], ◌∷◌, Bytes, bytes_eq, length, Option, none,
  some, if◌then◌else◌,
}
use pudl.Prelude.Map.{Map, lookup, update}
use pudl.Ast.{Var, Expr, Args, Stmt, Stmts, FunctionDef, Root, vector, dummy}

-- The names that each scope declares, the innermost scope first.
abbrev pub Names : Type 0
Names = List (List Bytes)

unfoldable pub has_name : Bytes → List Bytes → Bool
has_name name [] = false
has_name name (n ∷ ns) = bytes_eq n name || has_name name ns

unfoldable pub is_visible : Bytes → Names → Bool
is_visible name [] = false
is_visible name (ns ∷ names) = has_name name ns || is_visible name names

abbrev pub declare_name : Bytes → Names → Names
declare_name name [] = []
declare_name name (ns ∷ names) = (name ∷ ns) ∷ names

abbrev pub has_arity : ℕ → Option ℕ → Bool
has_arity given none = false
has_arity given (some n) = given == n

abbrev pub number_of_args : Args → ℕ
number_of_args Args.no_args = 0
number_of_args (Args.arg e args) = suc (number_of_args args)

unfoldable mutual
  pub returns : Stmt → Bool
  returns (Stmt.ret e) = true
  returns (Stmt.block b) = any_returns b
  returns _ = false

  pub any_returns : Stmts → Bool
  any_returns Stmts.no_stmts = false
  any_returns (Stmts.stmt x b) = returns x || any_returns b

unfoldable mutual
  -- The names behind a statement.
  pub names_after : Stmt → Names → Names
  names_after (Stmt.assignment v e) names =
      if is_visible v.name names then names else declare_name v.name names
  names_after (Stmt.if_then e x) names = names_after x names
  names_after (Stmt.if_else e x y) names = names_after y (names_after x names)
  names_after (Stmt.while_stmt e x) names = names_after x names
  names_after (Stmt.do_while x e) names = names_after x names
  names_after _ names = names

  pub names_behind : Stmts → Names → Names
  names_behind Stmts.no_stmts names = names
  names_behind (Stmts.stmt x b) names =
      let later = names_behind b (names_after x names) in
      if returns x then names_after x names else later

module _ (arities : Map ℕ) where
  unfoldable mutual
    pub check_expr : Names → Expr → Bool
    check_expr names (Expr.var v) = is_visible v.name names
    check_expr names (Expr.boolean b) = true
    check_expr names (Expr.integer_lit n) = true
    check_expr names (Expr.float_lit x) = true
    check_expr names (Expr.binary ty op lhs rhs) = check_expr names lhs && check_expr names rhs
    check_expr names (Expr.unary op e) = check_expr names e
    check_expr names (Expr.funcall name args ty) =
        has_arity (number_of_args args) (lookup name arities) && check_args names args

    pub check_args : Names → Args → Bool
    check_args names Args.no_args = true
    check_args names (Args.arg e args) = check_expr names e && check_args names args

  unfoldable mutual
    pub check_stmt : Names → Stmt → Bool
    check_stmt names (Stmt.io_print e) = check_expr names e
    check_stmt names (Stmt.ret e) = check_expr names e
    check_stmt names (Stmt.wrapper e) = true
    check_stmt names (Stmt.assignment v e) = check_expr names e
    check_stmt names (Stmt.block b) = check_stmts ([] ∷ names) b
    check_stmt names (Stmt.if_then e x) = check_expr names e && check_stmt names x
    check_stmt names (Stmt.if_else e x y) =
        check_expr names e && (check_stmt names x && check_stmt (names_after x names) y)
    check_stmt names (Stmt.while_stmt e x) = check_expr names e && check_stmt names x
    check_stmt names (Stmt.do_while x e) =
        check_stmt names x && (returns x || check_expr (names_after x names) e)

    pub check_stmts : Names → Stmts → Bool
    check_stmts names Stmts.no_stmts = true
    check_stmts names (Stmts.stmt x b) =
        check_stmt names x && (returns x || check_stmts (names_after x names) b)

unfoldable pub declare_params : List Var → Names → Names
declare_params [] names = names
declare_params (p ∷ params) names = declare_params params (declare_name p.name names)

-- A function may call itself and the functions in front of it.
unfoldable pub check_functions : Map ℕ → List FunctionDef → Bool
check_functions arities [] = true
check_functions arities (d ∷ defs) =
    let known = update d.name (length d.args) arities in
    check_stmt known (declare_params d.args ([] ∷ [])) d.body && check_functions known defs

abbrev pub check_root : Root → Bool
check_root (vector defs) = check_functions [] defs
check_root dummy = true

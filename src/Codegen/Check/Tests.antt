-- ===== src/Codegen/Check/Tests.antt =====
-- The check on small trees.
use pudl.Prelude.{Bool, ◌≡◌, refl, true, false, [], ◌∷◌, codes, bytes_eq}
use pudl.Prelude.Map.{lookup, update}
use pudl.Ast.{
  TType, Var, Stmt, Stmts, FunctionDef, Root, vector, integer_lit, var, funcall, no_args, arg, ret,
  io_print, assignment, block, stmt, no_stmts,
}
use pudl.Parser.Tests.{fact}
use pudl.Codegen.Check.{
  has_name, is_visible, returns, any_returns, names_after, names_behind, check_expr, check_stmt,
  check_functions, check_root, declare_params,
}

abbrev x : Var
x = record { name = codes "x"; type = TType.integer }

abbrev with_body : Stmts → FunctionDef
with_body b = record { name = codes "f"; args = []; type = TType.integer; body = block b }

-- `{ int x = 1 }`
abbrev local_x : Stmt
local_x = block (stmt (assignment x (integer_lit 1)) no_stmts)

unfoldable run_check : Root → Bool
unfolding has_name is_visible returns any_returns names_after names_behind check_expr check_stmt
    check_functions declare_params lookup update bytes_eq
run_check r = check_root r

run_check-fact : run_check (vector (fact ∷ [])) ≡ true
unfolding run_check
run_check-fact = refl

-- A variable is used behind its block.
run_check-behind_block :
    run_check (vector (with_body (stmt local_x (stmt (ret (var x)) no_stmts)) ∷ [])) ≡ false
unfolding run_check
run_check-behind_block = refl

-- A variable is assigned behind its block, which declares another one.
run_check-assigned_behind :
    run_check (
      vector (
        with_body (stmt local_x (stmt (assignment x (integer_lit 2)) (stmt (ret (var x)) no_stmts)))
        ∷ []))
    ≡ true
unfolding run_check
run_check-assigned_behind = refl

-- A variable is used behind the `return` of its block.
run_check-behind_return :
    run_check
      (vector (with_body (stmt (ret (integer_lit 1)) (stmt (io_print (var x)) no_stmts)) ∷ []))
    ≡ true
unfolding run_check
run_check-behind_return = refl

-- A call with an argument too many.
run_check-arguments :
    run_check (
      vector (
        with_body
          (stmt (ret (funcall (codes "f") (arg (integer_lit 1) no_args) TType.integer)) no_stmts)
        ∷ []))
    ≡ false
unfolding run_check
run_check-arguments = refl

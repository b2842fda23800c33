-- ===== src/Codegen/Visitor.antt =====
-- src/Parser/Codegen.h as a visitor.
use mathlib.Core.Path.{fun_ext}
use pudl.Prelude.{suc, ◌≡◌, refl, ap, Bool, List, [], ◌∷◌, map, length, Option, none, some}
use pudl.Ast.{Var, Expr, Args, Stmt, Stmts, FunctionDef, Root, vector, dummy}
use pudl.Ast.Visitor.{
  AstVisitor, accept_expr, accept_args, accept_stmt, accept_stmts, accept_function_def, accept,
}
use pudl.Codegen.Calls.{Call, Value}
use pudl.Codegen.State.{G, run, ◌>>◌, push_operand}
use pudl.Codegen.Rules.{Unit0}
use pudl.Codegen.Expression.{
  visit_var, visit_binary, visit_unary, visit_call, count_args, visit_arg, visit_expr, visit_args,
}
use pudl.Codegen.Statement.{
  visit_assignment, visit_print, visit_return, visit_block, visit_rest, visit_if, visit_while,
  visit_do_while, visit_stmt, visit_stmts, visit_function_def, visit_function, visit_functions,
  visit_root,
}

-- The loop over the arguments of a call, and the loop over the nodes of the root.
unfoldable pub visit_each : List (G Unit0) → List Var → G (Option (List Value))
visit_each [] params s = some (some [], s)
visit_each (m ∷ ms) [] s = none
visit_each (m ∷ ms) (p ∷ params) s = visit_arg m p.type (visit_each ms params) s

unfoldable pub visit_nodes : List (G Unit0) → G Unit0
visit_nodes [] s = some (tt, s)
visit_nodes (m ∷ ms) s = run s do m; visit_nodes ms

module _ (terminated : List Call → Bool) where
  -- The loop over the statements of a block.
  unfoldable pub visit_statements : List (G Unit0) → G Unit0
  visit_statements [] s = some (tt, s)
  visit_statements (m ∷ ms) s = run s do m; visit_rest terminated (visit_statements ms)

  abbrev pub generator : AstVisitor (G Unit0)
  generator = record {
    visit_vector = visit_nodes;
    visit_dummy = λ s. some (tt, s);
    visit_var = visit_var;
    visit_funcall = λ name args ty. visit_call name (length args) (visit_each args);
    visit_boolean = λ b. push_operand (Value.constant_bool b);
    visit_integer = λ n. push_operand (Value.constant_int n);
    visit_float = λ x. push_operand (Value.constant_float x);
    visit_binary = visit_binary;
    visit_unary = visit_unary;
    visit_assignment = λ v ty l r. visit_assignment v ty r;
    visit_function_def = λ d args body. visit_function_def terminated d body;
    visit_block = λ ms. visit_block (visit_statements ms);
    visit_if = visit_if terminated;
    visit_while = visit_while terminated;
    visit_do_while = visit_do_while terminated;
    visit_wrapper = λ e s. some (tt, s);
    visit_io_print = visit_print;
    visit_return = visit_return;
  }

  count-accept_args : (args : Args) → length (accept_args generator args) ≡ count_args args
  unfolding accept_args
  count-accept_args Args.no_args = refl
  count-accept_args (Args.arg e args) = ap suc (count-accept_args args)

  mutual
    unfolding accept_expr accept_args visit_expr visit_args visit_each

    accept-visit_expr : (e : Expr) → accept_expr generator e ≡ visit_expr e
    accept-visit_expr (Expr.var v) = fun_ext (λ s. refl)
    accept-visit_expr (Expr.boolean b) = fun_ext (λ s. refl)
    accept-visit_expr (Expr.integer_lit n) = fun_ext (λ s. refl)
    accept-visit_expr (Expr.float_lit x) = fun_ext (λ s. refl)
    accept-visit_expr (Expr.binary ty op l r) =
        fun_ext (λ s. rw (accept-visit_expr l, accept-visit_expr r) refl)
    accept-visit_expr (Expr.unary op e) = fun_ext (λ s. rw (accept-visit_expr e) refl)
    accept-visit_expr (Expr.funcall name args ty) =
        fun_ext (λ s. rw (count-accept_args args, fun_ext (accept-visit_args args)) refl)

    accept-visit_args :
        (args : Args) (params : List Var)
        → visit_each (accept_args generator args) params ≡ visit_args args params
    accept-visit_args Args.no_args params = fun_ext (λ s. refl)
    accept-visit_args (Args.arg e args) [] = fun_ext (λ s. refl)
    accept-visit_args (Args.arg e args) (p ∷ params) =
        fun_ext (λ s. rw (accept-visit_expr e, accept-visit_args args params) refl)

  mutual
    unfolding accept_stmt accept_stmts visit_stmt visit_stmts visit_statements

    accept-visit_stmt : (x : Stmt) → accept_stmt generator x ≡ visit_stmt terminated x
    accept-visit_stmt (Stmt.io_print e) = fun_ext (λ s. rw (accept-visit_expr e) refl)
    accept-visit_stmt (Stmt.ret e) = fun_ext (λ s. rw (accept-visit_expr e) refl)
    accept-visit_stmt (Stmt.wrapper e) = fun_ext (λ s. refl)
    accept-visit_stmt (Stmt.assignment v e) = fun_ext (λ s. rw (accept-visit_expr e) refl)
    accept-visit_stmt (Stmt.block b) = fun_ext (λ s. rw (accept-visit_stmts b) refl)
    accept-visit_stmt (Stmt.if_then e x) =
        fun_ext (λ s. rw (accept-visit_expr e, accept-visit_stmt x) refl)
    accept-visit_stmt (Stmt.if_else e x y) =
        fun_ext (λ s. rw (accept-visit_expr e, accept-visit_stmt x, accept-visit_stmt y) refl)
    accept-visit_stmt (Stmt.while_stmt e x) =
        fun_ext (λ s. rw (accept-visit_expr e, accept-visit_stmt x) refl)
    accept-visit_stmt (Stmt.do_while x e) =
        fun_ext (λ s. rw (accept-visit_expr e, accept-visit_stmt x) refl)

    accept-visit_stmts :
        (b : Stmts) → visit_statements (accept_stmts generator b) ≡ visit_stmts terminated b
    accept-visit_stmts Stmts.no_stmts = fun_ext (λ s. refl)
    accept-visit_stmts (Stmts.stmt x b) =
        fun_ext (λ s. rw (accept-visit_stmt x, accept-visit_stmts b) refl)

  accept-visit_functions :
      (defs : List FunctionDef)
      → visit_nodes (map (accept_function_def generator) defs) ≡ visit_functions terminated defs
  unfolding visit_nodes visit_functions visit_function
  accept-visit_functions [] = fun_ext (λ s. refl)
  accept-visit_functions (d ∷ defs) =
      fun_ext (λ s. rw (accept-visit_stmt d.body, accept-visit_functions defs) refl)

  -- `root->accept(codegen)` is the code generator: `accept` with its methods as the visitor, each of
  -- which decides when and whether its children are visited, does what `visit_root` does.
  pub accept-visit_root : (r : Root) → accept generator r ≡ visit_root terminated r
  unfolding visit_root
  accept-visit_root (vector defs) = fun_ext (λ s. rw (accept-visit_functions defs) refl)
  accept-visit_root dummy = fun_ext (λ s. refl)

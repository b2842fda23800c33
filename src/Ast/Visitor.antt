-- ===== src/Ast/Visitor.antt =====
-- src/Parser/AST/ASTVisitor.h, and the `accept` methods of src/Parser/AST/AST.cpp. A visitor gets what it
-- reads of a node, and for each child what its `accept` does, which it may use or not.
use pudl.Prelude.{ℕ, Bool, List, [], ◌∷◌, map, Bytes, Option, none, some}
use pudl.Ast.{
  TType, OperatorKind, Var, Expr, Args, Stmt, Stmts, FunctionDef, Root, vector, dummy, type_of,
}

pub record AstVisitor (R : Type 0) : Type 0 where
  pub visit_vector : List R → R
  pub visit_dummy : R
  pub visit_var : Var → R
  pub visit_funcall : Bytes → List R → TType → R
  pub visit_boolean : Bool → R
  pub visit_integer : ℕ → R
  pub visit_float : ℕ → R
  pub visit_binary : OperatorKind → TType → TType → R → R → R
  pub visit_unary : OperatorKind → TType → R → R
  pub visit_assignment : Var → TType → R → R → R
  pub visit_function_def : FunctionDef → List R → R → R
  pub visit_block : List R → R
  pub visit_if : R → R → Option R → R
  pub visit_while : R → R → R
  pub visit_do_while : R → R → R
  pub visit_wrapper : R → R
  pub visit_io_print : TType → R → R
  pub visit_return : R → R

module _ {R : Type 0} (v : AstVisitor R) where
  unfoldable mutual
    -- `accept` of the expressions.
    pub accept_expr : Expr → R
    accept_expr (Expr.var x) = v.visit_var x
    accept_expr (Expr.funcall name args ty) = v.visit_funcall name (accept_args args) ty
    accept_expr (Expr.boolean b) = v.visit_boolean b
    accept_expr (Expr.integer_lit n) = v.visit_integer n
    accept_expr (Expr.float_lit x) = v.visit_float x
    accept_expr (Expr.binary ty op l r) =
        v.visit_binary op (type_of l) (type_of r) (accept_expr l) (accept_expr r)
    accept_expr (Expr.unary op e) = v.visit_unary op (type_of e) (accept_expr e)

    pub accept_args : Args → List R
    accept_args Args.no_args = []
    accept_args (Args.arg e args) = accept_expr e ∷ accept_args args

  unfoldable mutual
    -- `accept` of the statements.
    pub accept_stmt : Stmt → R
    accept_stmt (Stmt.io_print e) = v.visit_io_print (type_of e) (accept_expr e)
    accept_stmt (Stmt.ret e) = v.visit_return (accept_expr e)
    accept_stmt (Stmt.wrapper e) = v.visit_wrapper (accept_expr e)
    accept_stmt (Stmt.assignment x e) =
        v.visit_assignment x (type_of e) (v.visit_var x) (accept_expr e)
    accept_stmt (Stmt.block b) = v.visit_block (accept_stmts b)
    accept_stmt (Stmt.if_then e x) = v.visit_if (accept_expr e) (accept_stmt x) none
    accept_stmt (Stmt.if_else e x y) =
        v.visit_if (accept_expr e) (accept_stmt x) (some (accept_stmt y))
    accept_stmt (Stmt.while_stmt e x) = v.visit_while (accept_expr e) (accept_stmt x)
    accept_stmt (Stmt.do_while x e) = v.visit_do_while (accept_stmt x) (accept_expr e)

    pub accept_stmts : Stmts → List R
    accept_stmts Stmts.no_stmts = []
    accept_stmts (Stmts.stmt x b) = accept_stmt x ∷ accept_stmts b

  abbrev pub accept_function_def : FunctionDef → R
  accept_function_def d =
      v.visit_function_def d (map (λ x. v.visit_var x) d.args) (accept_stmt d.body)

  -- `accept` of the root.
  abbrev pub accept : Root → R
  accept (vector defs) = v.visit_vector (map accept_function_def defs)
  accept dummy = v.visit_dummy

-- ===== src/Printer/Visitor.antt =====
-- src/Parser/Printer.h as a visitor.
use pudl.Prelude.{ℕ, ◌≡◌, refl, List, [], ◌∷◌, ◌++◌, map, Bytes, codes, Option, none, some}
use pudl.Ast.{Var, Expr, Args, Stmt, Stmts, FunctionDef, Root, vector, dummy}
use pudl.Ast.Operator.{show_operator}
use pudl.Ast.Visitor.{
  AstVisitor, accept_expr, accept_args, accept_stmt, accept_stmts, accept_function_def, accept,
}
use pudl.Printer.{
  parens, print_var, print_vars, print_bool, print_callable, print_expr, print_args, print_stmt,
  print_stmts, print_functions, print_root,
}

-- The loops over children.
abbrev pub concat : List Bytes → Bytes
concat [] = []
concat (w ∷ ws) = w ++ concat ws

abbrev pub concat_statements : List Bytes → Bytes
concat_statements [] = []
concat_statements (w ∷ ws) = w ++ (codes ";" ++ concat_statements ws)

abbrev false_branch : Option Bytes → Bytes
false_branch none = codes " "
false_branch (some w) = codes " Else " ++ (w ++ codes " ")

module _ (show_int show_float : ℕ → Bytes) where
  abbrev pub printer : AstVisitor Bytes
  printer = record {
    visit_vector = concat;
    visit_dummy = codes " [dummy]";
    visit_var = print_var;
    visit_funcall = λ name args ty. print_callable (codes "Call ") name (concat args) ty [];
    visit_boolean = print_bool;
    visit_integer = λ n. codes " [" ++ (show_int n ++ codes "I]");
    visit_float = λ x. codes " [" ++ (show_float x ++ codes "F]");
    visit_binary = λ op lt rt l r. parens (show_operator op ++ (codes " " ++ (l ++ r)));
    visit_unary = λ op ty e. parens (show_operator op ++ (codes " " ++ e));
    visit_assignment = λ v ty l r. parens (codes "Assign " ++ (l ++ r));
    visit_function_def =
        λ d args body. print_callable (codes "Func ") d.name (concat args) d.type body;
    visit_block = λ ws. codes " {" ++ (concat_statements ws ++ codes " }");
    visit_if = λ c x y. parens (codes "If " ++ (c ++ (x ++ false_branch y)));
    visit_while = λ c x. parens (codes "While " ++ (c ++ (x ++ codes " ")));
    visit_do_while = λ x c. parens (codes "Do " ++ (x ++ (codes " While " ++ (c ++ codes " "))));
    visit_wrapper = λ e. e;
    visit_io_print = λ ty e. parens (codes "Print " ++ e);
    visit_return = λ e. parens (codes "Ret " ++ e);
  }

  mutual
    unfolding accept_expr accept_args print_expr print_args

    accept-print_expr : (e : Expr) → accept_expr printer e ≡ print_expr show_int show_float e
    accept-print_expr (Expr.var v) = refl
    accept-print_expr (Expr.integer_lit n) = refl
    accept-print_expr (Expr.boolean b) = refl
    accept-print_expr (Expr.float_lit x) = refl
    accept-print_expr (Expr.binary ty op l r) = rw (accept-print_expr l, accept-print_expr r) refl
    accept-print_expr (Expr.unary op e) = rw (accept-print_expr e) refl
    accept-print_expr (Expr.funcall name args ty) = rw (accept-print_args args) refl

    accept-print_args :
        (args : Args) → concat (accept_args printer args) ≡ print_args show_int show_float args
    accept-print_args Args.no_args = refl
    accept-print_args (Args.arg e args) = rw (accept-print_expr e, accept-print_args args) refl

  mutual
    unfolding accept_stmt accept_stmts print_stmt print_stmts

    accept-print_stmt : (x : Stmt) → accept_stmt printer x ≡ print_stmt show_int show_float x
    accept-print_stmt (Stmt.io_print e) = rw (accept-print_expr e) refl
    accept-print_stmt (Stmt.ret e) = rw (accept-print_expr e) refl
    accept-print_stmt (Stmt.wrapper e) = accept-print_expr e
    accept-print_stmt (Stmt.assignment v e) = rw (accept-print_expr e) refl
    accept-print_stmt (Stmt.block b) = rw (accept-print_stmts b) refl
    accept-print_stmt (Stmt.if_then e x) = rw (accept-print_expr e, accept-print_stmt x) refl
    accept-print_stmt (Stmt.if_else e x y) =
        rw (accept-print_expr e, accept-print_stmt x, accept-print_stmt y) refl
    accept-print_stmt (Stmt.while_stmt e x) = rw (accept-print_expr e, accept-print_stmt x) refl
    accept-print_stmt (Stmt.do_while x e) = rw (accept-print_expr e, accept-print_stmt x) refl

    accept-print_stmts :
        (b : Stmts) → concat_statements (accept_stmts printer b) ≡ print_stmts show_int show_float b
    accept-print_stmts Stmts.no_stmts = refl
    accept-print_stmts (Stmts.stmt x b) = rw (accept-print_stmt x, accept-print_stmts b) refl

  vars-print : (vs : List Var) → concat (map print_var vs) ≡ print_vars vs
  vars-print [] = refl
  vars-print (v ∷ vs) = rw (vars-print vs) refl

  functions-print :
      (defs : List FunctionDef)
      → concat (map (accept_function_def printer) defs) ≡ print_functions show_int show_float defs
  functions-print [] = refl
  functions-print (d ∷ defs) =
      rw (vars-print d.args, accept-print_stmt d.body, functions-print defs) refl

  -- `accept` with the printer, whose methods write what they write of a node around what the children
  -- write, gives the printed tree.
  pub accept-print_root : (r : Root) → accept printer r ≡ print_root show_int show_float r
  accept-print_root (vector defs) = functions-print defs
  accept-print_root dummy = refl

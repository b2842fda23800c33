-- ===== src/Printer/Nested.antt =====
-- The printed tree is nested: its parentheses match.
use pudl.Prelude.{ℕ, refl, true, false, List, [], ◌∷◌, ◌++◌, Bytes, codes, all, All}
use pudl.Ast.{Var, Expr, Args, Stmt, Stmts, FunctionDef, Root, vector, dummy}
use pudl.Ast.Operator.{show_operator}
use pudl.Printer.{
  print_var, print_vars, print_expr, print_args, print_stmt, print_stmts, print_function,
  print_functions, print_root,
}
use pudl.Printer.Brackets.{
  Nested, IsPlain, plain-Nested, append-Nested, parens-Nested, PlainVar, operator-Nested,
  ends-Nested, begins-Nested, print_var-Nested, callable-Nested,
}

unfoldable mutual
  -- All names of a tree are without parentheses.
  pub PlainExpr : Expr → Type 0
  PlainExpr (Expr.var v) = PlainVar v
  PlainExpr (Expr.binary ty op l r) = PlainExpr l × PlainExpr r
  PlainExpr (Expr.unary op e) = PlainExpr e
  PlainExpr (Expr.funcall name args ty) = IsPlain name × PlainArgs args
  PlainExpr _ = Unit

  pub PlainArgs : Args → Type 0
  PlainArgs Args.no_args = Unit
  PlainArgs (Args.arg e args) = PlainExpr e × PlainArgs args

unfoldable mutual
  pub PlainStmt : Stmt → Type 0
  PlainStmt (Stmt.assignment v e) = PlainVar v × PlainExpr e
  PlainStmt (Stmt.block b) = PlainStmts b
  PlainStmt (Stmt.if_then e x) = PlainExpr e × PlainStmt x
  PlainStmt (Stmt.if_else e x y) = PlainExpr e × (PlainStmt x × PlainStmt y)
  PlainStmt (Stmt.while_stmt e x) = PlainExpr e × PlainStmt x
  PlainStmt (Stmt.do_while x e) = PlainExpr e × PlainStmt x
  PlainStmt (Stmt.wrapper e) = PlainExpr e
  PlainStmt (Stmt.io_print e) = PlainExpr e
  PlainStmt (Stmt.ret e) = PlainExpr e

  pub PlainStmts : Stmts → Type 0
  PlainStmts Stmts.no_stmts = Unit
  PlainStmts (Stmts.stmt x b) = PlainStmt x × PlainStmts b

abbrev pub PlainFunction : FunctionDef → Type 0
PlainFunction d = IsPlain d.name × All PlainVar d.args × PlainStmt d.body

abbrev pub PlainRoot : Root → Type 0
PlainRoot (vector defs) = All PlainFunction defs
PlainRoot dummy = Unit

module _ (show_int show_float : ℕ → Bytes) (plain_int : (n : ℕ) → IsPlain (show_int n))
    (plain_float : (x : ℕ) → IsPlain (show_float x)) where
  literal-Nested : (w u : Bytes) → IsPlain w → IsPlain u → Nested (codes " [" ++ (w ++ u))
  unfolding all
  literal-Nested w u p q =
      begins-Nested (codes " [") (w ++ u) refl (begins-Nested w u p (plain-Nested u q))

  mutual
    unfolding print_expr print_args PlainExpr PlainArgs all

    expr-Nested : (e : Expr) → PlainExpr e → Nested (print_expr show_int show_float e)
    expr-Nested (Expr.var v) p d u = print_var-Nested v p d u
    expr-Nested (Expr.integer_lit n) p d u =
        literal-Nested (show_int n) (codes "I]") (plain_int n) refl d u
    expr-Nested (Expr.boolean true) p d u = plain-Nested (codes " [True]") refl d u
    expr-Nested (Expr.boolean false) p d u = plain-Nested (codes "[False]") refl d u
    expr-Nested (Expr.float_lit x) p d u =
        literal-Nested (show_float x) (codes "F]") (plain_float x) refl d u
    expr-Nested (Expr.binary ty op l r) p d u =
        let w = print_expr show_int show_float l ++ print_expr show_int show_float r in
        parens-Nested (show_operator op ++ (codes " " ++ w))
          (operator-Nested op w (
            append-Nested (print_expr show_int show_float l) (print_expr show_int show_float r)
              (expr-Nested l p.0) (expr-Nested r p.1)))
          d u
    expr-Nested (Expr.unary op e) p d u =
        let w = print_expr show_int show_float e in
        parens-Nested (show_operator op ++ (codes " " ++ w))
          (operator-Nested op w (expr-Nested e p)) d u
    expr-Nested (Expr.funcall name args ty) p d u =
        callable-Nested (codes "Call ") name (print_args show_int show_float args) ty [] refl p.0
          (args-Nested args p.1) (plain-Nested [] refl) d u

    args-Nested : (args : Args) → PlainArgs args → Nested (print_args show_int show_float args)
    args-Nested Args.no_args p d u = refl
    args-Nested (Args.arg e args) p d u =
        append-Nested (print_expr show_int show_float e) (print_args show_int show_float args)
          (expr-Nested e p.0) (args-Nested args p.1) d u

  -- Two parts of a statement, and a plain end.
  two-Nested : (u w z : Bytes) → Nested u → Nested w → IsPlain z → Nested (u ++ (w ++ z))
  two-Nested u w z hu hw p = append-Nested u (w ++ z) hu (ends-Nested w z hw p)

  mutual
    unfolding print_stmt print_stmts PlainStmt PlainStmts all

    stmt-Nested : (x : Stmt) → PlainStmt x → Nested (print_stmt show_int show_float x)
    stmt-Nested (Stmt.assignment v e) p d u =
        let w = print_expr show_int show_float e in
        parens-Nested (codes "Assign " ++ (print_var v ++ w))
          (begins-Nested (codes "Assign ") (print_var v ++ w) refl
            (append-Nested (print_var v) w (print_var-Nested v p.0) (expr-Nested e p.1)))
          d u
    stmt-Nested (Stmt.block b) p d u =
        let w = print_stmts show_int show_float b in
        begins-Nested (codes " {") (w ++ codes " }") refl
          (ends-Nested w (codes " }") (stmts-Nested b p) refl) d u
    stmt-Nested (Stmt.if_then e x) p d u =
        let c = print_expr show_int show_float e in
        let t = print_stmt show_int show_float x in
        parens-Nested (codes "If " ++ (c ++ (t ++ codes " ")))
          (begins-Nested (codes "If ") (c ++ (t ++ codes " ")) refl
            (two-Nested c t (codes " ") (expr-Nested e p.0) (stmt-Nested x p.1) refl))
          d u
    stmt-Nested (Stmt.if_else e x y) p d u =
        let c = print_expr show_int show_float e in
        let t = print_stmt show_int show_float x in
        let f = print_stmt show_int show_float y in
        let rest = codes " Else " ++ (f ++ codes " ") in
        parens-Nested (codes "If " ++ (c ++ (t ++ rest)))
          (begins-Nested (codes "If ") (c ++ (t ++ rest)) refl (
            append-Nested c (t ++ rest) (expr-Nested e p.0) (
              append-Nested t rest (stmt-Nested x p.1.0) (
                begins-Nested (codes " Else ") (f ++ codes " ") refl
                  (ends-Nested f (codes " ") (stmt-Nested y p.1.1) refl)))))
          d u
    stmt-Nested (Stmt.while_stmt e x) p d u =
        let c = print_expr show_int show_float e in
        let t = print_stmt show_int show_float x in
        parens-Nested (codes "While " ++ (c ++ (t ++ codes " ")))
          (begins-Nested (codes "While ") (c ++ (t ++ codes " ")) refl
            (two-Nested c t (codes " ") (expr-Nested e p.0) (stmt-Nested x p.1) refl))
          d u
    stmt-Nested (Stmt.do_while x e) p d u =
        let c = print_expr show_int show_float e in
        let t = print_stmt show_int show_float x in
        let rest = codes " While " ++ (c ++ codes " ") in
        parens-Nested (codes "Do " ++ (t ++ rest))
          (begins-Nested (codes "Do ") (t ++ rest) refl (
            append-Nested t rest (stmt-Nested x p.1) (
              begins-Nested (codes " While ") (c ++ codes " ") refl
                (ends-Nested c (codes " ") (expr-Nested e p.0) refl))))
          d u
    stmt-Nested (Stmt.wrapper e) p d u = expr-Nested e p d u
    stmt-Nested (Stmt.io_print e) p d u =
        let w = print_expr show_int show_float e in
        parens-Nested (codes "Print " ++ w)
          (begins-Nested (codes "Print ") w refl (expr-Nested e p)) d u
    stmt-Nested (Stmt.ret e) p d u =
        let w = print_expr show_int show_float e in
        parens-Nested (codes "Ret " ++ w) (begins-Nested (codes "Ret ") w refl (expr-Nested e p)) d
          u

    stmts-Nested : (b : Stmts) → PlainStmts b → Nested (print_stmts show_int show_float b)
    stmts-Nested Stmts.no_stmts p d u = refl
    stmts-Nested (Stmts.stmt x b) p d u =
        let w = print_stmts show_int show_float b in
        append-Nested (print_stmt show_int show_float x) (codes ";" ++ w) (stmt-Nested x p.0)
          (begins-Nested (codes ";") w refl (stmts-Nested b p.1)) d u

  vars-Nested : (vs : List Var) → All PlainVar vs → Nested (print_vars vs)
  vars-Nested [] p d u = refl
  vars-Nested (v ∷ vs) p d u =
      append-Nested (print_var v) (print_vars vs) (print_var-Nested v p.0) (vars-Nested vs p.1) d u

  function-Nested :
      (f : FunctionDef) → PlainFunction f → Nested (print_function show_int show_float f)
  unfolding all
  function-Nested f p =
      callable-Nested (codes "Func ") f.name (print_vars f.args) f.type
        (print_stmt show_int show_float f.body) refl p.0 (vars-Nested f.args p.1)
        (stmt-Nested f.body p.2)

  functions-Nested :
      (defs : List FunctionDef)
      → All PlainFunction defs
      → Nested (print_functions show_int show_float defs)
  functions-Nested [] p d u = refl
  functions-Nested (f ∷ defs) p d u =
      append-Nested (print_function show_int show_float f)
        (print_functions show_int show_float defs) (function-Nested f p.0)
        (functions-Nested defs p.1) d u

  -- If no name of the tree and no printed number has a parenthesis in it, then the parentheses of the
  -- printed tree match: read from any depth on, the text never closes more than it opened, and ends at
  -- the depth at which it began.
  pub print_root-Nested : (r : Root) → PlainRoot r → Nested (print_root show_int show_float r)
  unfolding all
  print_root-Nested (vector defs) p d u = functions-Nested defs p d u
  print_root-Nested dummy p d u = plain-Nested (codes " [dummy]") refl d u

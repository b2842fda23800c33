-- ===== src/Printer.antt =====
-- src/Parser/Printer.h: the text that each visitor writes.
pub mod Brackets
pub mod Nested
pub mod Visitor
mod Witnesses
use pudl.Prelude.{ℕ, Bool, true, false, List, [], ◌∷◌, ◌++◌, Bytes, codes, Option}
use pudl.Ast.{
  TType, OperatorKind, Var, Expr, Args, Stmt, Stmts, FunctionDef, Root, vector, dummy, type_of,
}
use pudl.Ast.Operator.{show_operator}

-- `show`
abbrev pub show : TType → Bytes
show TType.undefined = codes "undef"
show TType.bool = codes "bool"
show TType.integer = codes "int"
show TType.float = codes "float"

abbrev pub parens : Bytes → Bytes
parens w = codes " (" ++ (w ++ codes ")")

abbrev pub print_var : Var → Bytes
print_var v = codes " [" ++ (show v.type ++ (codes " " ++ (v.name ++ codes "]")))

abbrev pub print_vars : List Var → Bytes
print_vars [] = []
print_vars (v ∷ vs) = print_var v ++ print_vars vs

abbrev pub print_bool : Bool → Bytes
print_bool true = codes " [True]"
print_bool false = codes "[False]"

-- A call and a function: the name, the arguments, the type, and the body.
abbrev pub print_callable : Bytes → Bytes → Bytes → TType → Bytes → Bytes
print_callable what name args ty body = parens (
    what
    ++ (name
        ++ (codes " :" ++ (parens (args ++ codes " ") ++ (codes " -> " ++ (show ty ++ body))))))

-- A number of an integer literal, and of a float, as `std::cout` writes them.
module _ (show_int show_float : ℕ → Bytes) where
  unfoldable mutual
    pub print_expr : Expr → Bytes
    print_expr (Expr.var v) = print_var v
    print_expr (Expr.integer_lit n) = codes " [" ++ (show_int n ++ codes "I]")
    print_expr (Expr.boolean b) = print_bool b
    print_expr (Expr.float_lit x) = codes " [" ++ (show_float x ++ codes "F]")
    print_expr (Expr.binary ty op l r) =
        parens (show_operator op ++ (codes " " ++ (print_expr l ++ print_expr r)))
    print_expr (Expr.unary op e) = parens (show_operator op ++ (codes " " ++ print_expr e))
    print_expr (Expr.funcall name args ty) =
        print_callable (codes "Call ") name (print_args args) ty []

    pub print_args : Args → Bytes
    print_args Args.no_args = []
    print_args (Args.arg e args) = print_expr e ++ print_args args

  unfoldable mutual
    pub print_stmt : Stmt → Bytes
    print_stmt (Stmt.assignment v e) = parens (codes "Assign " ++ (print_var v ++ print_expr e))
    print_stmt (Stmt.block b) = codes " {" ++ (print_stmts b ++ codes " }")
    print_stmt (Stmt.if_then e x) =
        parens (codes "If " ++ (print_expr e ++ (print_stmt x ++ codes " ")))
    print_stmt (Stmt.if_else e x y) = parens (
        codes "If "
        ++ (print_expr e ++ (print_stmt x ++ (codes " Else " ++ (print_stmt y ++ codes " ")))))
    print_stmt (Stmt.while_stmt e x) =
        parens (codes "While " ++ (print_expr e ++ (print_stmt x ++ codes " ")))
    print_stmt (Stmt.do_while x e) =
        parens (codes "Do " ++ (print_stmt x ++ (codes " While " ++ (print_expr e ++ codes " "))))
    print_stmt (Stmt.wrapper e) = print_expr e
    print_stmt (Stmt.io_print e) = parens (codes "Print " ++ print_expr e)
    print_stmt (Stmt.ret e) = parens (codes "Ret " ++ print_expr e)

    pub print_stmts : Stmts → Bytes
    print_stmts Stmts.no_stmts = []
    print_stmts (Stmts.stmt x b) = print_stmt x ++ (codes ";" ++ print_stmts b)

  abbrev pub print_function : FunctionDef → Bytes
  print_function d =
      print_callable (codes "Func ") d.name (print_vars d.args) d.type (print_stmt d.body)

  abbrev pub print_functions : List FunctionDef → Bytes
  print_functions [] = []
  print_functions (d ∷ defs) = print_function d ++ print_functions defs

  abbrev pub print_root : Root → Bytes
  print_root (vector defs) = print_functions defs
  print_root dummy = codes " [dummy]"

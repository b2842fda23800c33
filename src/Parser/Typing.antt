-- ===== src/Parser/Typing.antt =====
-- The typing rules of LANGUAGE.md that the methods of src/Parser/Parser.cpp check while they build
-- the tree, as derivations over the tree.
use pudl.Prelude.{ℕ, ◌≡◌, ◌≢◌, Bool, true, false, Bytes, Option, some}
use pudl.Prelude.Map.{Map, lookup, Extends}
use pudl.Ast.{TType, OperatorKind, Var, Expr, Args, Stmt, Stmts, binary, unary, type_of, is_bool}
use pudl.Parser.State.{Header, State}
use pudl.Parser.Expression.{arithmetic_type, int_max}
use Prim.Native.Nat.{◌≤◌}

-- The variables of a function and the functions of the file.
pub record Context : Type 0 where
  pub scope : Map (Option Var)
  pub funcs : Map (Option Header)

abbrev pub context : State → Context
context s = record { scope = s.scope; funcs = s.funcs }

abbrev pub is_arithmetic : OperatorKind → Bool
is_arithmetic OperatorKind.add = true
is_arithmetic OperatorKind.sub = true
is_arithmetic OperatorKind.mul = true
is_arithmetic OperatorKind.div = true
is_arithmetic _ = false

abbrev pub is_relation : OperatorKind → Bool
is_relation OperatorKind.gt = true
is_relation OperatorKind.lt = true
is_relation OperatorKind.ge = true
is_relation OperatorKind.le = true
is_relation _ = false

abbrev pub is_equality : OperatorKind → Bool
is_equality OperatorKind.eq = true
is_equality OperatorKind.ne = true
is_equality _ = false

abbrev pub is_logical : OperatorKind → Bool
is_logical OperatorKind.and_op = true
is_logical OperatorKind.or_op = true
is_logical _ = false

abbrev pub is_sign : OperatorKind → Bool
is_sign OperatorKind.pos = true
is_sign OperatorKind.neg = true
is_sign _ = false

-- A numeric or Boolean type, as the parser tells them apart: all that is not BOOL is a number.
abbrev pub IsBool : Expr → Type 0
IsBool e = is_bool (type_of e) ≡ true

abbrev pub IsNumber : Expr → Type 0
IsNumber e = is_bool (type_of e) ≡ false

-- An equality may compare any two expressions: `cmpeq` makes no check.
mutual
  pub data Typed (c : Context) : Expr → Type 0 where
    var :
        (v : Var)
        → lookup v.name c.scope ≡ some (some v)
        → v.type ≢ TType.undefined
        → Typed c (Expr.var v)
    funcall :
        (name : Bytes) (args : Args) (h : Header)
        → lookup name c.funcs ≡ some (some h)
        → h.type ≢ TType.undefined
        → TypedArgs c args
        → Typed c (Expr.funcall name args h.type)
    boolean : (b : Bool) → Typed c (Expr.boolean b)
    integer_lit : (n : ℕ) → n ≤ int_max → Typed c (Expr.integer_lit n)
    float_lit : (x : ℕ) → Typed c (Expr.float_lit x)
    logical :
        (op : OperatorKind) (lhs rhs : Expr)
        → is_logical op ≡ true
        → IsBool lhs
        → IsBool rhs
        → Typed c lhs
        → Typed c rhs
        → Typed c (binary TType.bool op lhs rhs)
    equality :
        (op : OperatorKind) (lhs rhs : Expr)
        → is_equality op ≡ true
        → Typed c lhs
        → Typed c rhs
        → Typed c (binary TType.bool op lhs rhs)
    relational :
        (op : OperatorKind) (lhs rhs : Expr)
        → is_relation op ≡ true
        → IsNumber lhs
        → IsNumber rhs
        → Typed c lhs
        → Typed c rhs
        → Typed c (binary TType.bool op lhs rhs)
    arithmetic :
        (op : OperatorKind) (lhs rhs : Expr)
        → is_arithmetic op ≡ true
        → IsNumber lhs
        → IsNumber rhs
        → Typed c lhs
        → Typed c rhs
        → Typed c (binary (arithmetic_type (type_of lhs) (type_of rhs)) op lhs rhs)
    negation : (e : Expr) → IsBool e → Typed c e → Typed c (unary OperatorKind.not_op e)
    signed :
        (op : OperatorKind) (e : Expr)
        → is_sign op ≡ true
        → IsNumber e
        → Typed c e
        → Typed c (unary op e)

  pub data TypedArgs (c : Context) : Args → Type 0 where
    no_args : TypedArgs c Args.no_args
    arg : (e : Expr) (args : Args) → Typed c e → TypedArgs c args → TypedArgs c (Args.arg e args)

-- The right-hand side is Boolean exactly when the variable is.
abbrev pub Assignable : Var → Expr → Type 0
Assignable v e = is_bool v.type ≡ is_bool (type_of e)

mutual
  pub data TypedStmt (c : Context) : Stmt → Type 0 where
    io_print : (e : Expr) → Typed c e → TypedStmt c (Stmt.io_print e)
    ret : (e : Expr) → Typed c e → TypedStmt c (Stmt.ret e)
    wrapper : (e : Expr) → Typed c e → TypedStmt c (Stmt.wrapper e)
    assignment :
        (v : Var) (e : Expr)
        → lookup v.name c.scope ≡ some (some v)
        → v.type ≢ TType.undefined
        → Assignable v e
        → Typed c e
        → TypedStmt c (Stmt.assignment v e)
    block : (b : Stmts) → TypedStmts c b → TypedStmt c (Stmt.block b)
    if_then :
        (e : Expr) (t : Stmt)
        → IsBool e
        → Typed c e
        → TypedStmt c t
        → TypedStmt c (Stmt.if_then e t)
    if_else :
        (e : Expr) (t f : Stmt)
        → IsBool e
        → Typed c e
        → TypedStmt c t
        → TypedStmt c f
        → TypedStmt c (Stmt.if_else e t f)
    while_stmt :
        (e : Expr) (b : Stmt)
        → IsBool e
        → Typed c e
        → TypedStmt c b
        → TypedStmt c (Stmt.while_stmt e b)
    do_while :
        (b : Stmt) (e : Expr)
        → IsBool e
        → Typed c e
        → TypedStmt c b
        → TypedStmt c (Stmt.do_while b e)

  pub data TypedStmts (c : Context) : Stmts → Type 0 where
    no_stmts : TypedStmts c Stmts.no_stmts
    stmt : (s : Stmt) (b : Stmts) → TypedStmt c s → TypedStmts c b → TypedStmts c (Stmts.stmt s b)

-- More declarations keep what is typed.
abbrev pub Grows : Context → Context → Type 0
Grows c d = Extends c.scope d.scope × Extends c.funcs d.funcs

mutual
  pub Typed-Grows : {c d : Context} {e : Expr} → Grows c d → Typed c e → Typed d e
  Typed-Grows g (Typed.var v h u) = Typed.var v (g.0 v.name v h) u
  Typed-Grows g (Typed.funcall name args h k u t) =
      Typed.funcall name args h (g.1 name h k) u (TypedArgs-Grows g t)
  Typed-Grows g (Typed.boolean b) = Typed.boolean b
  Typed-Grows g (Typed.integer_lit n h) = Typed.integer_lit n h
  Typed-Grows g (Typed.float_lit x) = Typed.float_lit x
  Typed-Grows g (Typed.logical op l r o hl hr tl tr) =
      Typed.logical op l r o hl hr (Typed-Grows g tl) (Typed-Grows g tr)
  Typed-Grows g (Typed.equality op l r o tl tr) =
      Typed.equality op l r o (Typed-Grows g tl) (Typed-Grows g tr)
  Typed-Grows g (Typed.relational op l r o hl hr tl tr) =
      Typed.relational op l r o hl hr (Typed-Grows g tl) (Typed-Grows g tr)
  Typed-Grows g (Typed.arithmetic op l r o hl hr tl tr) =
      Typed.arithmetic op l r o hl hr (Typed-Grows g tl) (Typed-Grows g tr)
  Typed-Grows g (Typed.negation e h t) = Typed.negation e h (Typed-Grows g t)
  Typed-Grows g (Typed.signed op e o h t) = Typed.signed op e o h (Typed-Grows g t)

  pub TypedArgs-Grows : {c d : Context} {a : Args} → Grows c d → TypedArgs c a → TypedArgs d a
  TypedArgs-Grows g TypedArgs.no_args = TypedArgs.no_args
  TypedArgs-Grows g (TypedArgs.arg e a t ts) =
      TypedArgs.arg e a (Typed-Grows g t) (TypedArgs-Grows g ts)

mutual
  pub TypedStmt-Grows : {c d : Context} {s : Stmt} → Grows c d → TypedStmt c s → TypedStmt d s
  TypedStmt-Grows g (TypedStmt.io_print e t) = TypedStmt.io_print e (Typed-Grows g t)
  TypedStmt-Grows g (TypedStmt.ret e t) = TypedStmt.ret e (Typed-Grows g t)
  TypedStmt-Grows g (TypedStmt.wrapper e t) = TypedStmt.wrapper e (Typed-Grows g t)
  TypedStmt-Grows g (TypedStmt.assignment v e h u a t) =
      TypedStmt.assignment v e (g.0 v.name v h) u a (Typed-Grows g t)
  TypedStmt-Grows g (TypedStmt.block b t) = TypedStmt.block b (TypedStmts-Grows g t)
  TypedStmt-Grows g (TypedStmt.if_then e t b te tt') =
      TypedStmt.if_then e t b (Typed-Grows g te) (TypedStmt-Grows g tt')
  TypedStmt-Grows g (TypedStmt.if_else e t f b te tt' tf) =
      TypedStmt.if_else e t f b (Typed-Grows g te) (TypedStmt-Grows g tt') (TypedStmt-Grows g tf)
  TypedStmt-Grows g (TypedStmt.while_stmt e b h te tb) =
      TypedStmt.while_stmt e b h (Typed-Grows g te) (TypedStmt-Grows g tb)
  TypedStmt-Grows g (TypedStmt.do_while b e h te tb) =
      TypedStmt.do_while b e h (Typed-Grows g te) (TypedStmt-Grows g tb)

  pub TypedStmts-Grows : {c d : Context} {b : Stmts} → Grows c d → TypedStmts c b → TypedStmts d b
  TypedStmts-Grows g TypedStmts.no_stmts = TypedStmts.no_stmts
  TypedStmts-Grows g (TypedStmts.stmt s b t ts) =
      TypedStmts.stmt s b (TypedStmt-Grows g t) (TypedStmts-Grows g ts)

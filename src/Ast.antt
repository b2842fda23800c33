-- ===== src/Ast.antt =====
-- src/Compiler/Type.h, src/Parser/AST/AST.h and the operator functions of src/Parser/AST/AST.cpp:
-- the types of the language and the nodes of the tree. A node here is a value: the arena's
-- pointers are not modelled, since no node is changed after its statement is built. A
-- FunctionDefNode is complete when `functionDef` returns it; what the parser keeps of it before
-- that is `Parser.State.Header`.
pub mod Operator
pub mod Visitor
mod Witnesses
use pudl.Prelude.{ℕ, Bool, true, false, List, Bytes}

-- `enum class TType`
pub data TType : Type 0 where
  undefined bool integer float : TType

pub TType-discrete : Discrete TType
TType-discrete = hlevel

-- `enum class OperatorKind`
pub data OperatorKind : Type 0 where
  add sub mul div : OperatorKind
  eq ne gt lt ge le : OperatorKind
  and_op or_op : OperatorKind
  pos neg not_op : OperatorKind

-- `VarNode`
pub record Var : Type 0 where
  pub name : Bytes
  pub type : TType

-- The subclasses of `ExpressionNode`, and the vector of arguments of a FuncallNode.
-- The value of an IntegerNode is an `int` that `stoi` read off digits, so it has no sign; a
-- FloatNode holds the bit pattern of its `float`.
mutual
  pub data Expr : Type 0 where
    var : Var → Expr
    funcall : Bytes → Args → TType → Expr
    boolean : Bool → Expr
    integer_lit : ℕ → Expr
    float_lit : ℕ → Expr
    binary : TType → OperatorKind → Expr → Expr → Expr
    unary : OperatorKind → Expr → Expr

  pub data Args : Type 0 where
    no_args : Args
    arg : Expr → Args → Args

-- `getType()` of an expression, as its constructor sets it.
unfoldable pub type_of : Expr → TType
type_of (var v) = v.type
type_of (funcall name args ty) = ty
type_of (boolean b) = TType.bool
type_of (integer_lit n) = TType.integer
type_of (float_lit x) = TType.float
type_of (binary ty op lhs rhs) = ty
type_of (unary op e) = type_of e

-- The subclasses of `StatementNode`, and the vector of statements of a BlockStatementNode. An
-- IfStatementNode with no false branch is `if_then`.
mutual
  pub data Stmt : Type 0 where
    io_print : Expr → Stmt
    ret : Expr → Stmt
    wrapper : Expr → Stmt
    assignment : Var → Expr → Stmt
    block : Stmts → Stmt
    if_then : Expr → Stmt → Stmt
    if_else : Expr → Stmt → Stmt → Stmt
    while_stmt : Expr → Stmt → Stmt
    do_while : Stmt → Expr → Stmt

  pub data Stmts : Type 0 where
    no_stmts : Stmts
    stmt : Stmt → Stmts → Stmts

-- `FunctionDefNode`
pub record FunctionDef : Type 0 where
  pub name : Bytes
  pub args : List Var
  pub body : Stmt
  pub type : TType

-- What `parse` returns: the VectorNode of the definitions, or a DummyNode.
pub data Root : Type 0 where
  vector : List FunctionDef → Root
  dummy : Root

-- Tests on types, such as `getType() == TType::BOOL`.
abbrev pub is_bool : TType → Bool
is_bool TType.bool = true
is_bool _ = false

abbrev pub is_float : TType → Bool
is_float TType.float = true
is_float _ = false

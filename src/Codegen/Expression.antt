-- ===== src/Codegen/Expression.antt =====
-- The visitors of src/Parser/Codegen.h for expressions.
pub mod Safe
pub mod ShortCircuit
pub mod Accept
pub mod Meaning
use pudl.Prelude.{
  ℕ, suc, ◌==◌, ◌||◌, Bool, true, false, List, [], ◌∷◌, Bytes, codes, length, Option, none, some,
  if◌then◌else◌,
}
use pudl.Ast.{TType, OperatorKind, Var, Expr, Args, FunctionDef, type_of, is_float}
use pudl.Codegen.Calls.{
  Call, LlvmType, Opcode, UnaryOpcode, Value, create_alloca, create_load, create_store,
  create_binary, create_unary, create_call, create_br, create_cond_br, create_block, insert_into,
  set_insert_point,
}
use pudl.Codegen.State.{
  Codegen, G, pure, crash, run, ◌>>=◌, ◌>>◌, if_success, gen_error, no_variable, unknown,
  undefined_function, wrong_arguments, emit, emit_value, push_operand, pop_operand, llvm_type,
  cast_value, find_local, funcs_entry, ast_funcs_entry, current_function,
}

abbrev pub load_from : Option Value → Var → G (Unit {0})
load_from none v = gen_error (no_variable v.name)
load_from (some slot) v = do
  value ← emit_value (create_load (llvm_type v.type) slot v.name)
  push_operand value

-- `visit(VarNode &)`
unfoldable pub visit_var : Var → G (Unit {0})
visit_var v s = run s do slot ← find_local v.name; load_from slot v

-- The instruction of an arithmetic operator, on floats or on integers.
abbrev pub arithmetic_opcode : Bool → OperatorKind → Option Opcode
arithmetic_opcode true OperatorKind.add = some Opcode.f_add
arithmetic_opcode true OperatorKind.sub = some Opcode.f_sub
arithmetic_opcode true OperatorKind.mul = some Opcode.f_mul
arithmetic_opcode true OperatorKind.div = some Opcode.f_div
arithmetic_opcode false OperatorKind.add = some Opcode.i_add
arithmetic_opcode false OperatorKind.sub = some Opcode.i_sub
arithmetic_opcode false OperatorKind.mul = some Opcode.i_mul
arithmetic_opcode false OperatorKind.div = some Opcode.u_div
arithmetic_opcode _ _ = none

-- The comparison of a relational operator.
abbrev pub relation_opcode : Bool → OperatorKind → Option Opcode
relation_opcode true OperatorKind.eq = some Opcode.fcmp_oeq
relation_opcode true OperatorKind.ne = some Opcode.fcmp_one
relation_opcode true OperatorKind.gt = some Opcode.fcmp_ogt
relation_opcode true OperatorKind.lt = some Opcode.fcmp_olt
relation_opcode true OperatorKind.ge = some Opcode.fcmp_oge
relation_opcode true OperatorKind.le = some Opcode.fcmp_ole
relation_opcode false OperatorKind.eq = some Opcode.icmp_eq
relation_opcode false OperatorKind.ne = some Opcode.icmp_ne
relation_opcode false OperatorKind.gt = some Opcode.icmp_sgt
relation_opcode false OperatorKind.lt = some Opcode.icmp_slt
relation_opcode false OperatorKind.ge = some Opcode.icmp_sge
relation_opcode false OperatorKind.le = some Opcode.icmp_sle
relation_opcode _ _ = none

-- What `biarithmetic` and `birel` return: the instruction, or NULL.
abbrev pub create_op : Option Opcode → Value → Value → G (Option Value)
create_op none lhs rhs = pure none
create_op (some op) lhs rhs = do v ← emit_value (create_binary op lhs rhs); pure (some v)

-- `biarithmetic` and `birel`, which differ in their instructions only. `lhs` and `rhs` visit the operands.
unfoldable pub two_operands :
    (Bool → OperatorKind → Option Opcode)
    → OperatorKind
    → TType
    → TType
    → G (Unit {0})
    → G (Unit {0})
    → G (Option Value)
two_operands opcode op lhs_type rhs_type lhs rhs s = run s do
  lhs
  if_success none do
    rhs
    if_success none do
      r ← pop_operand
      l ← pop_operand
      if is_float lhs_type || is_float rhs_type
          then (do
            l' ← cast_value l TType.float
            r' ← cast_value r TType.float
            create_op (opcode true op) l' r')
          else create_op (opcode false op) l r

abbrev pub is_and : OperatorKind → Bool
is_and OperatorKind.and_op = true
is_and _ = false

-- The order of the two targets: on `&&` the right-hand side is run where the left one is true.
abbrev pub short_circuit_branch : Bool → Value → ℕ → ℕ → Call
short_circuit_branch true cond rhs_bb merge_bb = create_cond_br cond rhs_bb merge_bb
short_circuit_branch false cond rhs_bb merge_bb = create_cond_br cond merge_bb rhs_bb

-- The right-hand side of a short circuit, in its own block, and the block behind it.
abbrev pub right_side : Option ℕ → Value → ℕ → ℕ → G (Unit {0}) → G (Option Value)
right_side func slot rhs_bb merge_bb rhs = do
  _ ← emit (set_insert_point rhs_bb)
  rhs
  if_success none do
    rhs_value ← pop_operand
    _ ← emit (create_store rhs_value slot)
    _ ← emit (create_br merge_bb)
    _ ← emit (insert_into merge_bb func)
    _ ← emit (set_insert_point merge_bb)
    v ← emit_value (create_load LlvmType.int1 slot (codes "shortCircuitValue"))
    pure (some v)

-- `bilogShortCircuit`
unfoldable pub short_circuit : OperatorKind → G (Unit {0}) → G (Unit {0}) → G (Option Value)
short_circuit op lhs rhs s = run s do
  func ← current_function
  lhs
  if_success none do
    lhs_value ← pop_operand
    slot ← emit_value (create_alloca LlvmType.int1 (codes "shortCircuitResult"))
    _ ← emit (create_store lhs_value slot)
    rhs_bb ← emit (create_block (codes "ShortCircuitRhs") func)
    merge_bb ← emit (create_block (codes "ShortCircuitMerge") none)
    _ ← emit (short_circuit_branch (is_and op) lhs_value rhs_bb merge_bb)
    right_side func slot rhs_bb merge_bb rhs

-- `if (res == NULL) { if (isSuccess) { error("unknown error"); } return; } operands.push(res);`
unfoldable pub push_result : Option Value → G (Unit {0})
push_result none s = run s (if s.is_success then gen_error unknown else pure tt)
push_result (some v) s = push_operand v s

-- The three groups of operators of `visit(BinaryNode &)`; the other operators generate nothing.
pub data OperatorGroup : Type 0 where
  arithmetic_group relation_group logical_group no_group : OperatorGroup

abbrev pub group_of : OperatorKind → OperatorGroup
group_of OperatorKind.add = OperatorGroup.arithmetic_group
group_of OperatorKind.sub = OperatorGroup.arithmetic_group
group_of OperatorKind.mul = OperatorGroup.arithmetic_group
group_of OperatorKind.div = OperatorGroup.arithmetic_group
group_of OperatorKind.eq = OperatorGroup.relation_group
group_of OperatorKind.ne = OperatorGroup.relation_group
group_of OperatorKind.gt = OperatorGroup.relation_group
group_of OperatorKind.lt = OperatorGroup.relation_group
group_of OperatorKind.ge = OperatorGroup.relation_group
group_of OperatorKind.le = OperatorGroup.relation_group
group_of OperatorKind.and_op = OperatorGroup.logical_group
group_of OperatorKind.or_op = OperatorGroup.logical_group
group_of _ = OperatorGroup.no_group

abbrev pub visit_group :
    OperatorGroup → OperatorKind → TType → TType → G (Unit {0}) → G (Unit {0}) → G (Unit {0})
visit_group OperatorGroup.arithmetic_group op lhs_type rhs_type lhs rhs =
    two_operands arithmetic_opcode op lhs_type rhs_type lhs rhs >>= push_result
visit_group OperatorGroup.relation_group op lhs_type rhs_type lhs rhs =
    two_operands relation_opcode op lhs_type rhs_type lhs rhs >>= push_result
visit_group OperatorGroup.logical_group op lhs_type rhs_type lhs rhs =
    short_circuit op lhs rhs >>= push_result
visit_group OperatorGroup.no_group op lhs_type rhs_type lhs rhs = pure tt

-- `visit(BinaryNode &)`
unfoldable pub visit_binary :
    OperatorKind → TType → TType → G (Unit {0}) → G (Unit {0}) → G (Unit {0})
visit_binary op lhs_type rhs_type lhs rhs = visit_group (group_of op) op lhs_type rhs_type lhs rhs

abbrev pub negate : TType → Value → G (Option Value)
negate TType.float v = do r ← emit_value (create_unary UnaryOpcode.f_neg v); pure (some r)
negate TType.integer v = do r ← emit_value (create_unary UnaryOpcode.neg v); pure (some r)
negate _ v = pure none

-- `unarithmetic`
unfoldable pub unary_arithmetic : TType → G (Unit {0}) → G (Option Value)
unary_arithmetic ty operand s = run s do operand; if_success none do v ← pop_operand; negate ty v

-- `unlog`
unfoldable pub unary_not : G (Unit {0}) → G (Option Value)
unary_not operand s = run s do
  operand
  if_success none
      do v ← pop_operand; r ← emit_value (create_unary UnaryOpcode.not_op v); pure (some r)

-- `visit(UnaryNode &)`
unfoldable pub visit_unary : OperatorKind → TType → G (Unit {0}) → G (Unit {0})
visit_unary OperatorKind.neg ty operand = unary_arithmetic ty operand >>= push_result
visit_unary OperatorKind.not_op ty operand = unary_not operand >>= push_result
visit_unary OperatorKind.pos ty operand = operand
visit_unary _ ty operand = pure tt

-- `args.size()`
abbrev pub count_args : Args → ℕ
count_args Args.no_args = 0
count_args (Args.arg e args) = suc (count_args args)

-- `CreateCall`, unless the loop over the arguments returned.
abbrev pub create_call_of : ℕ → Option (List Value) → G (Unit {0})
create_call_of f none = pure tt
create_call_of f (some vs) = do v ← emit_value (create_call f vs); push_operand v

abbrev pub call_checked :
    Bytes → ℕ → (List Var → G (Option (List Value))) → Option ℕ → Option FunctionDef → G (Unit {0})
call_checked name given visit_all none ast = gen_error (undefined_function name)
call_checked name given visit_all (some f) none = crash
call_checked name given visit_all (some f) (some d) =
    if given == length d.args
    then visit_all d.args >>= create_call_of f
    else gen_error (wrong_arguments (length d.args) given)

-- `visit(FuncallNode &)`, where `visit_all` is the loop over the arguments.
unfoldable pub visit_call : Bytes → ℕ → (List Var → G (Option (List Value))) → G (Unit {0})
visit_call name given visit_all s = run s do
  func ← funcs_entry name
  ast ← ast_funcs_entry name
  call_checked name given visit_all func ast

abbrev pub prepend : Value → Option (List Value) → G (Option (List Value))
prepend v none = pure none
prepend v (some vs) = pure (some (v ∷ vs))

-- One round of the loop over the arguments: nothing where it returns.
unfoldable pub visit_arg : G (Unit {0}) → TType → G (Option (List Value)) → G (Option (List Value))
visit_arg visit_it ty visit_others s = run s do
  visit_it
  if_success none do v ← pop_operand; c ← cast_value v ty; others ← visit_others; prepend c others

unfoldable mutual
  -- `accept` of an expression.
  pub visit_expr : Expr → G (Unit {0})
  visit_expr (Expr.var v) s = visit_var v s
  visit_expr (Expr.boolean b) s = push_operand (Value.constant_bool b) s
  visit_expr (Expr.integer_lit n) s = push_operand (Value.constant_int n) s
  visit_expr (Expr.float_lit x) s = push_operand (Value.constant_float x) s
  visit_expr (Expr.binary ty op lhs rhs) s =
      visit_binary op (type_of lhs) (type_of rhs) (visit_expr lhs) (visit_expr rhs) s
  visit_expr (Expr.unary op e) s = visit_unary op (type_of e) (visit_expr e) s
  visit_expr (Expr.funcall name args ty) s = visit_call name (count_args args) (visit_args args) s

  -- The loop over the arguments; `astArgs[idx]` is the head of the list.
  pub visit_args : Args → List Var → G (Option (List Value))
  visit_args Args.no_args params s = some (some [], s)
  visit_args (Args.arg e args) [] s = none
  visit_args (Args.arg e args) (p ∷ params) s =
      visit_arg (visit_expr e) p.type (visit_args args params) s

-- ===== src/Codegen/Statement.antt =====
-- The visitors of src/Parser/Codegen.h for statements, function definitions and the root. `terminated`
-- stands for LLVM's answer to `GetInsertBlock()->getTerminator() != nullptr` after the calls so far.
pub mod Safe
pub mod Blocks
pub mod DoWhile
pub mod Accept
pub mod Scopes
pub mod Functions
use pudl.Prelude.{
  ℕ, suc, Bool, true, false, not, List, [], ◌∷◌, map, Bytes, codes, length, Option, none, some,
  if◌then◌else◌,
}
use pudl.Prelude.Map.{update}
use pudl.Ast.{TType, Var, Expr, Stmt, Stmts, FunctionDef, Root, vector, dummy, type_of}
use pudl.Codegen.Calls.{
  Call, Format, Value, create_alloca, create_store, create_gep, create_fpext, create_zext,
  create_printf, create_ret, create_br, create_cond_br, create_unreachable, create_function,
  create_block, insert_into, set_insert_point, set_name, run_passes,
}
use pudl.Codegen.ScopeStack.{clear}
use pudl.Codegen.State.{
  Codegen, G, pure, run, ◌>>=◌, ◌>>◌, if_success, emit, emit_value, top_operand, drop_operand,
  pop_operand, llvm_type, cast_value, push_scope, pop_scope, declare_local, find_local,
  current_definition, current_function,
}
use pudl.Codegen.Expression.{visit_expr}

abbrev pub same_type : TType → TType → Bool
same_type TType.undefined TType.undefined = true
same_type TType.bool TType.bool = true
same_type TType.integer TType.integer = true
same_type TType.float TType.float = true
same_type _ _ = false

-- `if (variable->getType() != rhs->getType()) { rhs = cast(rhs, ...); }`
unfoldable pub cast_unless_same : TType → TType → Value → G Value
cast_unless_same to from v s = if same_type to from then some (v, s) else cast_value v to s

-- A new variable gets its slot in front of its value, and its name behind it.
abbrev pub store_new : Var → TType → G (Unit {0})
store_new v from = do
  slot ← emit_value (create_alloca (llvm_type v.type) v.name)
  rhs ← top_operand
  value ← cast_unless_same v.type from rhs
  _ ← emit (create_store value slot)
  drop_operand
  declare_local v.name slot

abbrev pub store_old : Var → TType → Value → G (Unit {0})
store_old v from slot = do
  rhs ← top_operand
  value ← cast_unless_same v.type from rhs
  _ ← emit (create_store value slot)
  drop_operand

abbrev pub store_to : Option Value → Var → TType → G (Unit {0})
store_to none v from = store_new v from
store_to (some slot) v from = store_old v from slot

-- `visit(AssignmentNode &)`
unfoldable pub visit_assignment : Var → TType → G (Unit {0}) → G (Unit {0})
visit_assignment v from rhs s =
    run s do slot ← find_local v.name; rhs; if_success tt (store_to slot v from)

abbrev pub print_value : TType → Value → G (Unit {0})
print_value TType.float v = do
  format ← emit_value (create_gep Format.format_float)
  wide ← emit_value (create_fpext v)
  drop_operand
  _ ← emit (create_printf (format ∷ wide ∷ []))
  pure tt
print_value TType.bool v = do
  format ← emit_value (create_gep Format.format_int)
  wide ← emit_value (create_zext v)
  drop_operand
  _ ← emit (create_printf (format ∷ wide ∷ []))
  pure tt
print_value _ v = do
  format ← emit_value (create_gep Format.format_int)
  drop_operand
  _ ← emit (create_printf (format ∷ v ∷ []))
  pure tt

-- `visit(IoPrintNode &)`
unfoldable pub visit_print : TType → G (Unit {0}) → G (Unit {0})
visit_print ty e s = run s do e; if_success tt do v ← top_operand; print_value ty v

-- `visit(ReturnNode &)`
unfoldable pub visit_return : G (Unit {0}) → G (Unit {0})
visit_return e s = run s do
  e
  if_success tt do
    v ← pop_operand
    d ← current_definition
    c ← cast_value v d.type
    _ ← emit (create_ret c)
    pure tt

abbrev pub branch_to : ℕ → G (Unit {0})
branch_to bb = do _ ← emit (create_br bb); pure tt

-- `bb->insertInto(func); builder.SetInsertPoint(bb);`
abbrev pub begin_attached : ℕ → Option ℕ → G (Unit {0})
begin_attached bb func = do _ ← emit (insert_into bb func); _ ← emit (set_insert_point bb); pure tt

-- The false branch, if there is one, and what follows it.
abbrev pub visit_optional : Option (G (Unit {0})) → G (Unit {0}) → G (Unit {0})
visit_optional none k = k
visit_optional (some m) k = do m; if_success tt k

-- The condition of a `do` loop whose body did not return, with what follows.
abbrev pub test_again : G (Unit {0}) → ℕ → ℕ → Option ℕ → G (Unit {0})
test_again cond loop_bb after_bb func = do
  cond
  if_success tt
      do c ← pop_operand; _ ← emit (create_cond_br c loop_bb after_bb); begin_attached after_bb func

-- `visit(BlockStatementNode &)`, around its loop.
unfoldable pub visit_block : G (Unit {0}) → G (Unit {0})
visit_block statements s = run s do push_scope; statements; pop_scope

-- The loop over the parameters, from the index `i` on.
unfoldable pub store_params : ℕ → ℕ → List Var → G (Unit {0})
store_params func i [] s = some (tt, s)
store_params func i (p ∷ params) s = run s do
  _ ← emit (set_name func i p.name)
  slot ← emit_value (create_alloca (llvm_type p.type) p.name)
  _ ← emit (create_store (Value.argument func i) slot)
  declare_local p.name slot
  store_params func (suc i) params

-- `scopeStack.clear(); scopeStack.push();`
unfoldable pub reset_scopes : G (Unit {0})
reset_scopes s = run (record s { scopes = clear s.scopes }) push_scope

-- `funcs[...] = func; astFuncs[...] = &aNode; currentFunc = &aNode;`
unfoldable pub register : FunctionDef → ℕ → G (Unit {0})
register d func s = some (
  tt,
  record s {
    funcs = update d.name (some func) s.funcs;
    ast_funcs = update d.name (some d) s.ast_funcs;
    current_func = some d;
  },
)

module _ (terminated : List Call → Bool) where
  -- `if (builder.GetInsertBlock()->getTerminator() == nullptr) { ... }`
  unfoldable pub unless_terminated : G (Unit {0}) → G (Unit {0})
  unless_terminated k s = if terminated s.calls then some (tt, s) else k s

  -- The end of a branch: a jump to `target`, unless the branch returned, and the block behind it.
  abbrev pub leave : ℕ → ℕ → Option ℕ → G (Unit {0})
  leave target bb func = do unless_terminated (branch_to target); begin_attached bb func

  -- The rest of `visit(BlockStatementNode &)` behind a statement.
  unfoldable pub visit_rest : G (Unit {0}) → G (Unit {0})
  visit_rest others s = if s.is_success then unless_terminated others s else some (tt, s)

  -- The two branches of an `if`, from the conditional jump on.
  abbrev pub branches : Option ℕ → ℕ → ℕ → ℕ → G (Unit {0}) → Option (G (Unit {0})) → G (Unit {0})
  branches func then_bb else_bb merge_bb true_branch false_branch = do
    _ ← emit (set_insert_point then_bb)
    true_branch
    if_success tt
        do leave merge_bb else_bb func; visit_optional false_branch (leave merge_bb merge_bb func)

  -- `visit(IfStatementNode &)`
  unfoldable pub visit_if : G (Unit {0}) → G (Unit {0}) → Option (G (Unit {0})) → G (Unit {0})
  visit_if cond true_branch false_branch s = run s do
    func ← current_function
    cond
    if_success tt do
      c ← pop_operand
      then_bb ← emit (create_block (codes "Then") func)
      else_bb ← emit (create_block (codes "Else") none)
      merge_bb ← emit (create_block (codes "Merge") none)
      _ ← emit (create_cond_br c then_bb else_bb)
      branches func then_bb else_bb merge_bb true_branch false_branch

  -- The condition and the body of a `while` loop, from the jump to the condition on.
  abbrev pub loop_blocks : Option ℕ → ℕ → ℕ → ℕ → G (Unit {0}) → G (Unit {0}) → G (Unit {0})
  loop_blocks func loop_bb then_bb after_bb cond body = do
    _ ← emit (set_insert_point loop_bb)
    cond
    if_success tt do
      c ← pop_operand
      _ ← emit (create_cond_br c then_bb after_bb)
      _ ← emit (set_insert_point then_bb)
      body
      if_success tt (leave loop_bb after_bb func)

  -- `visit(WhileStatementNode &)`
  unfoldable pub visit_while : G (Unit {0}) → G (Unit {0}) → G (Unit {0})
  visit_while cond body s = run s do
    func ← current_function
    loop_bb ← emit (create_block (codes "Loop") func)
    then_bb ← emit (create_block (codes "Then") func)
    after_bb ← emit (create_block (codes "After") none)
    _ ← emit (create_br loop_bb)
    loop_blocks func loop_bb then_bb after_bb cond body

  unfoldable pub test_unless_terminated : G (Unit {0}) → G (Unit {0}) → G (Unit {0})
  test_unless_terminated returned test s = if terminated s.calls then returned s else test s

  -- The body and the condition of a `do` loop, from the jump to the body on.
  abbrev pub do_blocks : Option ℕ → ℕ → ℕ → G (Unit {0}) → G (Unit {0}) → G (Unit {0})
  do_blocks func loop_bb after_bb body cond = do
    _ ← emit (set_insert_point loop_bb)
    body
    if_success tt (
        test_unless_terminated (begin_attached after_bb func)
          (test_again cond loop_bb after_bb func))

  -- `visit(DoWhileStatementNode &)`
  unfoldable pub visit_do_while : G (Unit {0}) → G (Unit {0}) → G (Unit {0})
  visit_do_while body cond s = run s do
    func ← current_function
    loop_bb ← emit (create_block (codes "Loop") func)
    after_bb ← emit (create_block (codes "After") none)
    _ ← emit (create_br loop_bb)
    do_blocks func loop_bb after_bb body cond

  unfoldable mutual
    -- `accept` of a statement.
    pub visit_stmt : Stmt → G (Unit {0})
    visit_stmt (Stmt.io_print e) s = visit_print (type_of e) (visit_expr e) s
    visit_stmt (Stmt.ret e) s = visit_return (visit_expr e) s
    visit_stmt (Stmt.wrapper e) s = some (tt, s)
    visit_stmt (Stmt.assignment v e) s = visit_assignment v (type_of e) (visit_expr e) s
    visit_stmt (Stmt.block b) s = visit_block (visit_stmts b) s
    visit_stmt (Stmt.if_then e x) s = visit_if (visit_expr e) (visit_stmt x) none s
    visit_stmt (Stmt.if_else e x y) s =
        visit_if (visit_expr e) (visit_stmt x) (some (visit_stmt y)) s
    visit_stmt (Stmt.while_stmt e x) s = visit_while (visit_expr e) (visit_stmt x) s
    visit_stmt (Stmt.do_while x e) s = visit_do_while (visit_stmt x) (visit_expr e) s

    -- The loop of `visit(BlockStatementNode &)`.
    pub visit_stmts : Stmts → G (Unit {0})
    visit_stmts Stmts.no_stmts s = some (tt, s)
    visit_stmts (Stmts.stmt x b) s = run s do visit_stmt x; visit_rest (visit_stmts b)

  -- The end of `visit(FunctionDefNode &)`, from its test of `isSuccess` on.
  unfoldable pub finish_function : ℕ → G (Unit {0})
  finish_function func s = run s do
    if_success tt do
      unless_terminated (do _ ← emit create_unreachable; pure tt)
      _ ← emit (run_passes func)
      pure tt

  -- `visit(FunctionDefNode &)`, where `body` visits the body.
  unfoldable pub visit_function_def : FunctionDef → G (Unit {0}) → G (Unit {0})
  visit_function_def d body s = run s do
    reset_scopes
    func ←
        emit
          (create_function d.name (map (λ (p : Var). llvm_type p.type) d.args) (llvm_type d.type))
    register d func
    bb ← emit (create_block (codes "entry") (some func))
    _ ← emit (set_insert_point bb)
    store_params func 0 d.args
    body
    finish_function func

  -- `accept` of a function definition.
  unfoldable pub visit_function : FunctionDef → G (Unit {0})
  visit_function d s = visit_function_def d (visit_stmt d.body) s

  -- `visit(VectorNode &)`
  unfoldable pub visit_functions : List FunctionDef → G (Unit {0})
  visit_functions [] s = some (tt, s)
  visit_functions (d ∷ defs) s = run s do visit_function d; visit_functions defs

  -- `accept` of the root.
  unfoldable pub visit_root : Root → G (Unit {0})
  visit_root (vector defs) s = visit_functions defs s
  visit_root dummy s = some (tt, s)

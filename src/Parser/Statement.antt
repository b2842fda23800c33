-- ===== src/Parser/Statement.antt =====
-- The statement methods of src/Parser/Parser.cpp, from `statement` to `declaration`, on fuel as in
-- `Expression`.
pub mod Parts
pub mod Sound
use pudl.Prelude.{ℕ, zero, suc, Bytes, codes, ◌&&◌, not, if◌then◌else◌, Option, none, some}
use pudl.Prelude.Map.{lookup}
use pudl.Token.{TokenType, Token}
use pudl.Ast.{
  TType, Var, Expr, Stmt, Stmts, io_print, ret, wrapper, assignment, block, if_then, if_else,
  while_stmt, do_while, no_stmts, stmt, type_of, is_bool,
}
use pudl.Parser.State.{
  M, out_of_fuel, pure, fail, run, ◌>>=◌, ◌>>◌, current, get, next, rewind, reject, or_error, is,
  is_expected, require, with_semicolon, scope_at, scope_insert, from_string, unexpected_end,
  expression_after, expected_condition, undeclared, redeclared, expected_boolean, expected_number,
}
use pudl.Parser.Expression.{expression, funcall}

-- The two checks of a declared type against the type of the right-hand side.
unfoldable pub check_types : Token → TType → TType → M (Unit {0})
check_types t lhs rhs =
    if is_bool lhs && not (is_bool rhs)
    then reject t.line expected_boolean
    else if not (is_bool lhs) && is_bool rhs
    then reject t.line expected_number
    else pure tt

-- `if (cond->getType() != TType::BOOL) { error(...); return NULL; }`
unfoldable pub condition : Token → Expr → M (Unit {0})
condition t e = if is_bool (type_of e) then pure tt else reject t.line expected_condition

module _ (stof : Bytes → Option ℕ) where
  -- `ret` and `ioPrint`
  unfoldable pub parse_ret : ℕ → M Stmt
  parse_ret f s = run s do
    t ← current
    e ← or_error (expression stof f) t.line (expression_after (codes "return"))
    pure (ret e)

  unfoldable pub parse_print : ℕ → M Stmt
  parse_print f s = run s do
    t ← current
    e ← or_error (expression stof f) t.line (expression_after (codes "print"))
    pure (io_print e)

  -- `_funcall`
  unfoldable pub call_stmt : ℕ → M Stmt
  call_stmt f s = run s do e ← funcall stof f; pure (wrapper e)

  -- From the `=` on, in `assignment` and `declaration`.
  unfoldable pub initializer : ℕ → Token → TType → M Expr
  initializer f t ty s = run s do
    op ← next
    require op TokenType.assign
    rhs ← or_error (expression stof f) op.line (expression_after (codes "="))
    check_types t ty (type_of rhs)
    pure rhs

  unfoldable pub assign_to : ℕ → Token → Option Var → M Stmt
  assign_to f t none = reject t.line (undeclared t.lexeme)
  assign_to f t (some lhs) = do rhs ← initializer f t lhs.type; pure (assignment lhs rhs)

  -- `assignment`
  unfoldable pub parse_assignment : ℕ → M Stmt
  parse_assignment f s = run s do t ← current; lhs ← scope_at t.lexeme; assign_to f t lhs

  -- `declaration` behind its name, with what `scope.find(name)` found.
  unfoldable pub declare : ℕ → Token → Var → Option (Option Var) → M Stmt
  declare f t lhs (some _) = reject t.line (redeclared lhs.name)
  declare f t lhs none = do
    rhs ← initializer f t lhs.type
    scope_insert lhs
    pure (assignment lhs rhs)

  -- `declaration`
  unfoldable pub declaration : ℕ → M Stmt
  declaration f s = run s do
    t ← current
    name ← next
    require name TokenType.symbol
    found ← get (λ s'. lookup name.lexeme s'.scope)
    declare f t (record { name = name.lexeme; type = from_string t.lexeme }) found

  -- The SYMBOL case of `statement`.
  unfoldable pub symbol_stmt : ℕ → M Stmt
  symbol_stmt f s = run s do
    tmp ← current
    ahead ← next
    rewind ahead tmp
    if is ahead TokenType.pl
        then with_semicolon (call_stmt f)
        else with_semicolon (parse_assignment f)

  unfoldable mutual
    pub statement : ℕ → M Stmt
    statement zero s = out_of_fuel
    statement (suc f) s = run s do
      t ← current
      elim t.type [
        | TokenType.eof_token ↦ reject t.line unexpected_end
        | TokenType.bl ↦ block_statement f
        | TokenType.if_kw ↦ if_statement f
        | TokenType.while_kw ↦ while_statement f
        | TokenType.do_kw ↦ do_while_statement f
        | TokenType.type_name ↦ with_semicolon (declaration f)
        | TokenType.symbol ↦ symbol_stmt f
        | TokenType.io_print ↦ with_semicolon (parse_print f)
        | TokenType.return_kw ↦ with_semicolon (parse_ret f)
        | _ ↦ fail
      ]

    pub if_statement : ℕ → M Stmt
    if_statement zero s = out_of_fuel
    if_statement (suc f) s = run s do
      t ← current
      cond ← expression stof f
      condition t cond
      true_branch ← statement f
      behind ← current
      if is behind TokenType.else_kw
          then (do
            _ ← next
            false_branch ← statement f
            pure (if_else cond true_branch false_branch))
          else pure (if_then cond true_branch)

    pub while_statement : ℕ → M Stmt
    while_statement zero s = out_of_fuel
    while_statement (suc f) s = run s do
      t ← current
      cond ← expression stof f
      condition t cond
      body ← statement f
      pure (while_stmt cond body)

    pub do_while_statement : ℕ → M Stmt
    do_while_statement zero s = out_of_fuel
    do_while_statement (suc f) s = run s do
      _ ← next
      body ← statement f
      t ← current
      require t TokenType.while_kw
      cond ← expression stof f
      condition t cond
      pure (do_while body cond)

    pub block_statement : ℕ → M Stmt
    block_statement zero s = out_of_fuel
    block_statement (suc f) s =
        run s do _ ← next; statements ← block_loop f; pure (block statements)

    -- The loop of `blockStatement`, and the `next()` over the closing brace.
    pub block_loop : ℕ → M Stmts
    block_loop zero s = out_of_fuel
    block_loop (suc f) s = run s do
      t ← current
      if is t TokenType.br
          then (do _ ← next; pure no_stmts)
          else if is t TokenType.eof_token
          then (do _ ← is_expected t TokenType.br; fail)
          else (do node ← statement f; rest ← block_loop f; pure (stmt node rest))

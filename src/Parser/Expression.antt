-- ===== src/Parser/Expression.antt =====
-- The expression methods of src/Parser/Parser.cpp, from `expression` to `flt`. The methods call one
-- another through the grammar, so each call takes a unit of fuel; `stof` is the C++ library's
-- conversion, whose result is the bit pattern of the float, or nothing where it throws.
pub mod Level
pub mod Leaves
pub mod Sound
use pudl.Prelude.{
  ℕ, zero, suc, ◌+◌, ◌-◌, ◌*◌, not, ◌&&◌, ◌||◌, [], ◌∷◌, Bytes, codes, bytes_eq, if◌then◌else◌, leb,
  Option, none, some,
}
use pudl.Token.{TokenType, Token}
use pudl.Ast.{
  TType, Var, Expr, Args, var, boolean, integer_lit, float_lit, binary, unary, no_args, arg,
  type_of, is_bool, is_float,
}
use pudl.Ast.Operator.{binary_operator_from_lexeme, unary_operator_from_lexeme}
use pudl.Lexer.{is_digit}
use pudl.Parser.State.{
  Message, out_of_fuel, M, pure, fail, run, ◌>>=◌, ◌>>◌, attempt, returned, current, next, rewind,
  error, reject, or_error, is, is_expected, scope_at, funcs_at, unexpected_end, expression_after,
  expected_boolean, expected_number, not_initialized, undefined_function, expected_expression,
  integer_range, float_range,
}

-- The digits at the front of a text as a number, with `n` in front of them.
unfoldable pub decimal : ℕ → Bytes → ℕ
decimal n [] = n
decimal n (c ∷ w) = let rest = decimal (10 * n + (c - b'0')) w in if is_digit c then rest else n

abbrev pub int_max : ℕ
int_max = 2147483647

-- `std::stoi`, on a text that begins with a digit: it throws where the value is no int.
unfoldable pub stoi : Bytes → Option ℕ
stoi w = let n = decimal 0 w in if leb n int_max then some n else none

-- `boolean`, `intgr` and `flt`
unfoldable pub parse_boolean : M Expr
parse_boolean s = run s do t ← current; _ ← next; pure (boolean (bytes_eq t.lexeme (codes "True")))

abbrev pub literal : Option Expr → Token → (Bytes → Message) → M Expr
literal (some e) t msg = pure e
literal none t msg = reject t.line (msg t.lexeme)

abbrev pub integer_node : Option ℕ → Option Expr
integer_node none = none
integer_node (some n) = some (integer_lit n)

abbrev pub float_node : Option ℕ → Option Expr
float_node none = none
float_node (some x) = some (float_lit x)

unfoldable pub parse_integer : M Expr
parse_integer s =
    run s do t ← current; _ ← next; literal (integer_node (stoi t.lexeme)) t integer_range

-- The node of a name that `scope` holds, or an error and a node with no type.
unfoldable pub var_node : Token → Option Var → M Expr
var_node t (some v) = pure (var v)
var_node t none = do
  error t.line (not_initialized t.lexeme)
  pure (var (record { name = t.lexeme; type = TType.undefined }))

-- `var`
unfoldable pub parse_var : M Expr
parse_var s = run s do t ← current; _ ← next; v ← scope_at t.lexeme; var_node t v

-- The result of `lor` and `land`.
unfoldable pub logical : Token → Expr → Expr → M Expr
logical t lhs rhs =
    if not (is_bool (type_of lhs)) || not (is_bool (type_of rhs))
    then reject t.line expected_boolean
    else pure (binary TType.bool (binary_operator_from_lexeme t.lexeme) lhs rhs)

-- The result of `cmpeq`, which compares no types.
unfoldable pub equality : Token → Expr → Expr → M Expr
equality t lhs rhs = pure (binary TType.bool (binary_operator_from_lexeme t.lexeme) lhs rhs)

-- The result of `cmp`.
unfoldable pub relational : Token → Expr → Expr → M Expr
relational t lhs rhs =
    if is_bool (type_of lhs) || is_bool (type_of rhs)
    then reject t.line expected_number
    else pure (binary TType.bool (binary_operator_from_lexeme t.lexeme) lhs rhs)

abbrev pub arithmetic_type : TType → TType → TType
arithmetic_type l r = if is_float l || is_float r then TType.float else TType.integer

-- The result of `additive` and `multiplicative`.
unfoldable pub arithmetic : Token → Expr → Expr → M Expr
arithmetic t lhs rhs =
    if is_bool (type_of lhs) || is_bool (type_of rhs)
    then reject t.line expected_number
    else pure (
        binary (arithmetic_type (type_of lhs) (type_of rhs)) (binary_operator_from_lexeme t.lexeme)
          lhs rhs)

-- The result of `unary` after an operator.
unfoldable pub signed : Token → Expr → M Expr
signed t e =
    if is t TokenType.not_op && not (is_bool (type_of e))
    then reject t.line expected_boolean
    else if is t TokenType.add && is_bool (type_of e)
    then reject t.line expected_number
    else pure (unary (unary_operator_from_lexeme t.lexeme) e)

-- The body that the six methods for binary operators share: an operand, and behind an operator of
-- the sort `sort` the method again.
unfoldable pub level : M Expr → TokenType → M Expr → (Token → Expr → Expr → M Expr) → M Expr
level operand sort again build s = run s do
  lhs ← operand
  t ← current
  if is t sort
      then (do _ ← next; rhs ← or_error again t.line (expression_after t.lexeme); build t lhs rhs)
      else pure lhs

module _ (stof : Bytes → Option ℕ) where
  unfoldable pub parse_float : M Expr
  parse_float s = run s do t ← current; _ ← next; literal (float_node (stof t.lexeme)) t float_range

  unfoldable pub constant : M Expr
  constant s = run s do
    t ← current
    if is t TokenType.bool
        then parse_boolean
        else if is t TokenType.integer
        then parse_integer
        else if is t TokenType.float
        then parse_float
        else fail

  unfoldable mutual
    pub expression : ℕ → M Expr
    expression zero s = out_of_fuel
    expression (suc f) s = run s do
      t ← current
      first ← next
      if is first TokenType.eof_token then reject t.line unexpected_end else lor f

    pub lor : ℕ → M Expr
    lor zero s = out_of_fuel
    lor (suc f) s = level (land f) TokenType.lor (lor f) logical s

    pub land : ℕ → M Expr
    land zero s = out_of_fuel
    land (suc f) s = level (cmpeq f) TokenType.land (land f) logical s

    pub cmpeq : ℕ → M Expr
    cmpeq zero s = out_of_fuel
    cmpeq (suc f) s = level (cmp f) TokenType.cmp_eq (cmpeq f) equality s

    pub cmp : ℕ → M Expr
    cmp zero s = out_of_fuel
    cmp (suc f) s = level (additive f) TokenType.cmp (cmp f) relational s

    pub additive : ℕ → M Expr
    additive zero s = out_of_fuel
    additive (suc f) s = level (multiplicative f) TokenType.add (additive f) arithmetic s

    pub multiplicative : ℕ → M Expr
    multiplicative zero s = out_of_fuel
    multiplicative (suc f) s = level (unary_expr f) TokenType.mul (multiplicative f) arithmetic s

    pub unary_expr : ℕ → M Expr
    unary_expr zero s = out_of_fuel
    unary_expr (suc f) s = run s do
      t ← current
      if is t TokenType.add || is t TokenType.not_op
          then (do
            _ ← next
            e ← or_error (unary_expr f) t.line (expression_after t.lexeme)
            signed t e)
          else factor f

    pub factor : ℕ → M Expr
    factor zero s = out_of_fuel
    factor (suc f) s = run s do
      t ← current
      if is t TokenType.pl
          then (do
            _ ← next
            e ← attempt (lor f)
            closing ← current
            ok ← is_expected closing TokenType.pr
            if ok then (do _ ← next; returned e) else fail)
          else if is t TokenType.symbol
          then (do
            lookup ← next
            rewind lookup t
            if is lookup TokenType.pl then funcall f else parse_var)
          else constant

    pub funcall : ℕ → M Expr
    funcall zero s = out_of_fuel
    funcall (suc f) s = run s do
      t ← current
      func ← funcs_at t.lexeme
      elim func [
        | none ↦ reject t.line (undefined_function t.lexeme)
        | some h ↦ do args ← funcall_args f; _ ← next; pure (Expr.funcall t.lexeme args h.type)
      ]

    pub funcall_args : ℕ → M Args
    funcall_args zero s = out_of_fuel
    funcall_args (suc f) s = run s do
      tmp ← current
      after_paren ← next
      peek ← next
      rewind peek after_paren
      if is peek TokenType.pr then (do _ ← next; pure no_args) else args_loop f tmp.line

    -- The `while (1)` of `funcallArgs`, with the line of its errors.
    pub args_loop : ℕ → ℕ → M Args
    args_loop zero line s = out_of_fuel
    args_loop (suc f) line s = run s do
      t ← current
      if is t TokenType.pr then pure no_args else (do
        node ← attempt (expression f)
        elim node [
          | none ↦ do error line expected_expression; pure no_args
          | some e ↦ do
            behind ← current
            if is behind TokenType.comma
                then (do rest ← args_loop f line; pure (arg e rest))
                else (do _ ← is_expected behind TokenType.pr; pure (arg e no_args))
        ])

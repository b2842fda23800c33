-- ===== src/Parser/Tests.antt =====
-- Runs of `parse` on small files.
use pudl.Prelude.{ℕ, ◌≡◌, refl, true, false, [], ◌∷◌, Bytes, codes, Option, none, some, bytes_eq}
use pudl.Prelude.Map.{lookup, insert, subscript}
use pudl.Token.{TokenType, bare, no_token}
use pudl.Lexer.Tests.{run}
use pudl.Ast.{
  TType, Var, OperatorKind, FunctionDef, Root, vector, var, integer_lit, binary, funcall, no_args,
  arg, ret, if_then, block, stmt, no_stmts, type_of,
}
use pudl.Ast.Operator.{binary_operator_from_lexeme, unary_operator_from_lexeme}
use pudl.Parser.State.{
  State, Outcome, error_at, unexpected_token, value, caught, next, rewind, error, rejected,
  is_expected, require, semicolon, scope_at, funcs_at, scope_insert, funcs_insert, from_string,
}
use pudl.Parser.Expression.{
  decimal, stoi, parse_boolean, parse_integer, var_node, parse_var, logical, equality, relational,
  arithmetic, signed, level, parse_float, constant, expression,
}
use pudl.Parser.Statement.{
  check_types, condition, parse_ret, parse_print, call_stmt, initializer, assign_to,
  parse_assignment, declare, declaration, symbol_stmt, statement,
}
use pudl.Parser.Program.{
  function_args, declare_args, scope_clear, warn_type, optional_args, function_def, parse_loop,
  parse,
}

-- No float literal stands in these files.
unfoldable pub no_floats : Bytes → Option ℕ
no_floats w = none

-- `parse`, open down to the characters.
unfoldable pub run_parse : Bytes → Outcome Root
unfolding run no_floats lookup insert subscript bytes_eq type_of binary_operator_from_lexeme
    unary_operator_from_lexeme caught next rewind error rejected is_expected require semicolon
    scope_at funcs_at scope_insert funcs_insert from_string decimal stoi parse_boolean parse_integer
    var_node parse_var logical equality relational arithmetic signed level parse_float constant
    expression check_types condition parse_ret parse_print call_stmt initializer assign_to
    parse_assignment declare declaration symbol_stmt statement function_args declare_args
    scope_clear warn_type optional_args function_def parse_loop parse
run_parse file = parse no_floats file

abbrev pub n : Var
n = record { name = codes "n"; type = TType.integer }

abbrev pub fact : FunctionDef
fact = record {
  name = codes "fact";
  args = n ∷ [];
  body = block (
      stmt
        (if_then (binary TType.bool OperatorKind.le (var n) (integer_lit 1)) (ret (integer_lit 1)))
        (stmt
          (ret (
            binary TType.integer OperatorKind.mul (var n) (
              funcall (codes "fact")
                (arg (binary TType.integer OperatorKind.sub (var n) (integer_lit 1)) no_args)
                TType.integer)))
          no_stmts));
  type = TType.integer;
}

abbrev pub fact_source : Bytes
fact_source = codes "func fact( int n ) : int { if n <= 1 return 1 return n * fact( n - 1 ) }"

abbrev pub fact_state : State
fact_state = record {
  lexer = record { file = []; line = 1; col = 73; saved = no_token };
  current = bare TokenType.eof_token 1 73;
  is_success = true;
  is_error = false;
  scope = (codes "n", some n) ∷ [];
  funcs =
      (codes "fact", some (record { name = codes "fact"; args = n ∷ []; type = TType.integer }))
      ∷ [];
  log = [];
}

pub run_parse-fact : run_parse fact_source ≡ value (vector (fact ∷ [])) fact_state
unfolding run_parse
run_parse-fact = refl

pub run_parse_lem : (file : Bytes) → parse no_floats file ≡ run_parse file
unfolding run_parse
run_parse_lem file = refl

-- The state behind a file that holds the word `x` only.
abbrev pub refused_state : State
refused_state = record {
  lexer = record { file = []; line = 1; col = 2; saved = no_token };
  current = bare TokenType.eof_token 1 2;
  is_success = false;
  is_error = true;
  scope = [];
  funcs = [];
  log = error_at 1 (unexpected_token (codes "x")) ∷ [];
}

pub run_parse-refused : run_parse (codes "x") ≡ value (vector []) refused_state
unfolding run_parse
run_parse-refused = refl

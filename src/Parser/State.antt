-- ===== src/Parser/State.antt =====
-- src/Parser/Parser.h and the helpers at the head of src/Parser/Parser.cpp: the state of a Parser,
-- its diagnostics, and a monad for methods that may return NULL. Debug output (`info`, `infoln`,
-- `lexinfo`) is left out; what the parser prints otherwise is the list `log`, latest first.
use pudl.Prelude.{
  ℕ, Bool, true, false, List, [], ◌∷◌, Bytes, codes, bytes_eq, if◌then◌else◌, Option, none, some,
}
use pudl.Prelude.Map.{Map, insert, subscript}
use pudl.Token.{TokenType, Token, no_token, type_eq}
use pudl.Ast.{TType, Var}
use pudl.Lexer.{Lexer, new_lexer, lex, unlex}

-- What is known of a FunctionDefNode before its body is parsed.
pub record Header : Type 0 where
  pub name : Bytes
  pub args : List Var
  pub type : TType

-- The texts that are passed to `error`.
pub data Message : Type 0 where
  unexpected_token : Bytes → Message
  unexpected_end : Message
  expression_after : Bytes → Message
  expected_condition : Message
  undeclared : Bytes → Message
  redeclared : Bytes → Message
  expected_boolean expected_number : Message
  not_initialized : Bytes → Message
  undefined_function : Bytes → Message
  expected_expression : Message
  integer_range float_range : Bytes → Message

-- A line on stdout: from `error`, from `is`, or the warning of `functionDef`.
pub data Diagnostic : Type 0 where
  error_at : ℕ → Message → Diagnostic
  expected : TokenType → ℕ → ℕ → TokenType → Diagnostic
  undefined_type : Diagnostic

pub record State : Type 0 where
  pub lexer : Lexer
  pub current : Token
  pub is_success : Bool
  pub is_error : Bool
  pub scope : Map (Option Var)
  pub funcs : Map (Option Header)
  pub log : List Diagnostic

-- `Parser()` with the lexer that `parse` makes.
abbrev pub initial : Bytes → State
initial file = record {
  lexer = new_lexer file;
  current = no_token;
  is_success = true;
  is_error = false;
  scope = [];
  funcs = [];
  log = [];
}

-- A method returns a value or NULL and changes the state; the third case has no counterpart.
pub data Outcome {ℓ} (A : Type ℓ) : Type ℓ where
  value : A → State → Outcome A
  null : State → Outcome A
  out_of_fuel : Outcome A

abbrev pub M {ℓ} : Type ℓ → Type ℓ
M A = State → Outcome A

abbrev pub pure {ℓ} : {A : Type ℓ} → A → M A
pure a s = value a s

-- `return NULL;`
abbrev pub fail {ℓ} : {A : Type ℓ} → M A
fail s = null s

abbrev pub run {ℓ} : {A : Type ℓ} → State → M A → Outcome A
run s m = m s

module _ {ℓ κ} {A : Type ℓ} {B : Type κ} where
  abbrev pub bind : Outcome A → (A → M B) → Outcome B
  bind (value a s) f = f a s
  bind (null s) f = null s
  bind out_of_fuel f = out_of_fuel

  infixl 5 ◌>>=◌ ◌>>◌
  abbrev pub ◌>>=◌ : M A → (A → M B) → M B
  ◌>>=◌ m f s = bind (m s) f

  abbrev pub ◌>>◌ : M A → M B → M B
  m >> k = m >>= λ _. k

-- A call whose NULL the caller looks at.
unfoldable pub caught {ℓ} : {A : Type ℓ} → Outcome A → Outcome (Option A)
caught (value a s) = value (some a) s
caught (null s) = value none s
caught out_of_fuel = out_of_fuel

abbrev pub attempt {ℓ} : {A : Type ℓ} → M A → M (Option A)
attempt m s = caught (m s)

abbrev pub returned {ℓ} : {A : Type ℓ} → Option A → M A
returned (some a) = pure a
returned none = fail

abbrev pub get {ℓ} : {A : Type ℓ} → (State → A) → M A
get f s = value (f s) s

-- the member `current`
abbrev pub current : M Token
current = get (λ s. s.current)

-- `next()`
unfoldable pub next : M Token
next s = let (t, l) = lex s.lexer in value t (record s { lexer = l; current = t })

-- `unlex(lookup); current = tmp;`
unfoldable pub rewind : Token → Token → M (Unit {0})
rewind lookup tmp s = value tt (record s { lexer = unlex lookup s.lexer; current = tmp })

abbrev pub reported : ℕ → Message → State → State
reported line msg s = record s {
  is_success = false;
  is_error = true;
  log = Diagnostic.error_at line msg ∷ s.log;
}

-- `error(line, msg)`
unfoldable pub error : ℕ → Message → M (Unit {0})
error line msg s = value tt (reported line msg s)

-- `error(line, msg); return NULL;`
abbrev pub reject {ℓ} : {A : Type ℓ} → ℕ → Message → M A
reject line msg s = null (reported line msg s)

-- `if (x == NULL) { error(line, msg); return NULL; }`, for the result `x` of a call.
unfoldable pub rejected {ℓ} : {A : Type ℓ} → Outcome A → ℕ → Message → Outcome A
rejected (value a s) line msg = value a s
rejected (null s) line msg = null (reported line msg s)
rejected out_of_fuel line msg = out_of_fuel

abbrev pub or_error {ℓ} : {A : Type ℓ} → M A → ℕ → Message → M A
or_error m line msg s = rejected (m s) line msg

-- `is(token, type, true)`
abbrev pub is : Token → TokenType → Bool
is t ty = type_eq t.type ty

-- `is(token, type)`
unfoldable pub is_expected : Token → TokenType → M Bool
is_expected t ty s =
    if is t ty
    then value true s
    else value false (record s { log = Diagnostic.expected ty t.line t.col t.type ∷ s.log })

-- `if (!is(token, type)) { return NULL; }`
unfoldable pub require : Token → TokenType → M (Unit {0})
unfolding is_expected
require t ty = do ok ← is_expected t ty; if ok then pure tt else fail

-- `if (is(current, SEMICOLON, true)) { next(); }`
unfoldable pub semicolon : M (Unit {0})
semicolon s =
    run s do t ← current; if is t TokenType.semicolon then (do _ ← next; pure tt) else pure tt

-- The same behind a call, whatever it returned.
abbrev pub with_semicolon {ℓ} : {A : Type ℓ} → M A → M A
with_semicolon m s = run s do node ← attempt m; semicolon; returned node

-- `scope[name]` and `funcs[name]`
unfoldable pub scope_at : Bytes → M (Option Var)
scope_at name s = let (p, m) = subscript name s.scope in value p (record s { scope = m })

unfoldable pub funcs_at : Bytes → M (Option Header)
funcs_at name s = let (p, m) = subscript name s.funcs in value p (record s { funcs = m })

-- `scope.insert(...)` and `funcs.insert(...)`
unfoldable pub scope_insert : Var → M (Unit {0})
scope_insert v s = value tt (record s { scope = insert v.name (some v) s.scope })

unfoldable pub funcs_insert : Header → M (Unit {0})
funcs_insert h s = value tt (record s { funcs = insert h.name (some h) s.funcs })

-- `Parser::fromString`
unfoldable pub from_string : Bytes → TType
from_string w =
    if bytes_eq w (codes "int")
    then TType.integer
    else if bytes_eq w (codes "float")
    then TType.float
    else if bytes_eq w (codes "bool")
    then TType.bool
    else TType.undefined

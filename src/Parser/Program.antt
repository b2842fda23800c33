-- ===== src/Parser/Program.antt =====
-- The top of src/Parser/Parser.cpp: `parse`, `functionDef` and `functionArgs`.
pub mod Definition
pub mod Sound
use pudl.Prelude.{
  ℕ, zero, suc, ◌+◌, ◌*◌, List, [], ◌∷◌, Bytes, if◌then◌else◌, length, Option, none, some,
}
use pudl.Token.{TokenType, Token}
use pudl.Ast.{TType, Var, FunctionDef, Root, vector, dummy}
use pudl.Parser.State.{
  M, Outcome, value, out_of_fuel, pure, run, ◌>>=◌, ◌>>◌, attempt, current, next, error, is,
  is_expected, require, scope_insert, funcs_insert, from_string, initial, unexpected_token,
  undefined_type,
}
use pudl.Parser.Statement.{statement}

-- `functionArgs`: each iteration takes a unit of fuel.
unfoldable pub function_args : ℕ → M (List Var)
function_args zero s = out_of_fuel
function_args (suc f) s = run s do
  ty ← current
  if is ty TokenType.pr then (do _ ← next; pure []) else (do
    typed ← is_expected ty TokenType.type_name
    if typed
        then (do
          name ← next
          named ← is_expected name TokenType.symbol
          if named
              then (do
                behind ← next
                let arg : Var = record { name = name.lexeme; type = from_string ty.lexeme }
                if is behind TokenType.comma
                    then (do _ ← next; rest ← function_args f; pure (arg ∷ rest))
                    else (do
                      closed ← is_expected behind TokenType.pr
                      if closed then (do _ ← next; pure (arg ∷ [])) else pure (arg ∷ [])))
              else pure [])
        else pure [])

-- The loop of `functionDef` over its arguments.
unfoldable pub declare_args : List Var → M (Unit {0})
declare_args [] s = value tt s
declare_args (v ∷ vs) s = run s do scope_insert v; declare_args vs

-- `scope.clear()`
unfoldable pub scope_clear : M (Unit {0})
scope_clear s = value tt (record s { scope = [] })

-- The warning on a type that `fromString` does not know.
unfoldable pub warn_type : TType → M (Unit {0})
warn_type TType.undefined s = value tt (record s { log = undefined_type ∷ s.log })
warn_type _ s = value tt s

-- `if (is(t, PL, true)) { ... }`
unfoldable pub optional_args : ℕ → Token → M (List Var)
optional_args f t s = run s do
  if is t TokenType.pl
      then (do _ ← next; args ← function_args f; declare_args args; pure args)
      else pure []

module _ (stof : Bytes → Option ℕ) where
  unfoldable pub function_def : ℕ → M FunctionDef
  function_def f s = run s do
    scope_clear
    name ← next
    require name TokenType.symbol
    behind ← next
    args ← optional_args f behind
    colon ← current
    require colon TokenType.colon
    ty ← next
    require ty TokenType.type_name
    warn_type (from_string ty.lexeme)
    _ ← next
    funcs_insert (record { name = name.lexeme; args = args; type = from_string ty.lexeme })
    body ← statement stof f
    pure (record { name = name.lexeme; args = args; body = body; type = from_string ty.lexeme })

  -- A definition in front of the others.
  abbrev insert_def : FunctionDef → Root → Root
  insert_def def (vector defs) = vector (def ∷ defs)
  insert_def def dummy = dummy

  -- The `while (1)` of `parse`.
  unfoldable pub parse_loop : ℕ → M Root
  parse_loop zero s = out_of_fuel
  parse_loop (suc f) s = run s do
    t ← current
    elim t.type [
      | TokenType.error_token ↦ pure dummy
      | TokenType.eof_token ↦ pure (vector [])
      | TokenType.func ↦ do
        def ← attempt (function_def f)
        elim def [ none ↦ pure dummy | some d ↦ do root ← parse_loop f; pure (insert_def d root) ]
      | _ ↦ do error t.line (unexpected_token t.lexeme); _ ← next; parse_loop f
    ]

  -- The fuel that `parse` hands out.
  abbrev pub parse_fuel : Bytes → ℕ
  parse_fuel file = 16 * length file + 32

  -- `Parser::parse`, of a parser in its initial state.
  unfoldable pub parse : Bytes → Outcome Root
  parse file = run (initial file) do _ ← next; parse_loop (parse_fuel file)

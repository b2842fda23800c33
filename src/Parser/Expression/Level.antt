-- ===== src/Parser/Expression/Level.antt =====
-- The operators and the literals: what `level`, the builders and the methods that read one token
-- return.
use pudl.Prelude.{ℕ, ◌<◌, ◌≡◌, subst, inl, inr, Bool, true, false, not, ◌||◌, arith}
use pudl.Token.{TokenType, Token, type_eq, type_eq→eq}
use pudl.Ast.{Expr, type_of, is_bool}
use pudl.Ast.Operator.{binary_operator_from_lexeme}
use pudl.Lexer.Progress.{pending}
use pudl.Lexer.Lexemes.{Lexeme}
use pudl.Parser.State.{State, M, is, expected_boolean, expected_number, expression_after}
use pudl.Parser.Typing.{
  context, Typed, is_arithmetic, is_relation, is_equality, is_logical, Typed-Grows,
}
use pudl.Parser.Ensures.{
  size, IsValid, Step, Step-refl, Returns, Returns-value, Returns-bind, Returns-if,
  Returns-rejected, Returns-reject, Returns-next,
}
use pudl.Parser.Expression.{logical, equality, relational, arithmetic, level}

-- An expression was consumed, and it is typed unless an error was reported.
abbrev pub Parsed : ℕ → Expr → State → Type 0
Parsed n e s = (size s < n) × (s.is_error ≡ false → Typed (context s) e)

-- A typed expression stays typed.
pub later :
    {b : Bool} {s t : State} (e : Expr)
    → Step b s t
    → (s.is_error ≡ false → Typed (context s) e)
    → t.is_error ≡ false
    → Typed (context t) e
later e st h clean = Typed-Grows st.grows (h (st.clean clean))

-- A token whose type is not EOF counts.
pub pending_of_is :
    (t : Token) (ty : TokenType)
    → is t ty ≡ true
    → type_eq ty TokenType.eof_token ≡ false
    → pending t ≡ 1
pending_of_is t ty h k = ground (arith, type_eq→eq t.type ty)

-- What a builder makes of two typed operands and a lexed operator of its sort.
abbrev pub Builds : TokenType → (Token → Expr → Expr → M Expr) → Type 0
Builds sort build =
    (t : Token) (lhs rhs : Expr) (s : State) (n : ℕ)
    → IsValid s
    → Lexeme sort t.lexeme
    → Parsed n lhs s
    → Parsed n rhs s
    → Returns true s (Parsed n) (build t lhs rhs s)

pub level-Returns :
    (operand : M Expr) (sort : TokenType) (again : M Expr) (build : Token → Expr → Expr → M Expr)
    (s : State)
    → type_eq sort TokenType.eof_token ≡ false
    → Builds sort build
    → Returns true s (Parsed (size s)) (operand s)
    → ((t : State) → IsValid t → size t < size s → Returns true t (Parsed (size t)) (again t))
    → Returns true s (Parsed (size s)) (level operand sort again build s)
unfolding level
level-Returns operand sort again build s real builds first rest = Returns-bind first λ lhs t st h.
    let op = t.current in
    Returns-if (is op sort) _ _
      (λ e. Returns-bind (Returns-next st.valid) λ _ u su adv.
        let shorter : size u < size t = omega (arith, adv.consumed, pending_of_is op sort e real) in
        Returns-bind
          (Returns-rejected op.line (expression_after op.lexeme)
            (rest u su.valid (omega (arith, h.0))))
          λ rhs w sw r.
            builds op lhs rhs w (size s) sw.valid
              (subst (λ ty. Lexeme ty op.lexeme) (type_eq→eq op.type sort e) st.valid.current)
              (omega (arith, sw.size_le, h.0), later lhs sw (later lhs su h.1))
              (omega (arith, r.0, h.0), r.1))
      (λ _. Returns-value lhs (Step-refl st.valid) h)

module _ (t : Token) (lhs rhs : Expr) (s : State) (n : ℕ) (v : IsValid s) where
  logical-Returns :
      is_logical (binary_operator_from_lexeme t.lexeme) ≡ true
      → Parsed n lhs s
      → Parsed n rhs s
      → Returns true s (Parsed n) (logical t lhs rhs s)
  unfolding logical
  logical-Returns op l r =
      Returns-if (not (is_bool (type_of lhs)) || not (is_bool (type_of rhs))) _ _
        (λ _. Returns-reject t.line expected_boolean v)
        (λ e.
          Returns-value _ (Step-refl v)
            (l.0, λ c. Typed.logical _ lhs rhs op (ground arith) (ground arith) (l.1 c) (r.1 c)))

  equality-Returns :
      is_equality (binary_operator_from_lexeme t.lexeme) ≡ true
      → Parsed n lhs s
      → Parsed n rhs s
      → Returns true s (Parsed n) (equality t lhs rhs s)
  unfolding equality
  equality-Returns op l r =
      Returns-value _ (Step-refl v) (l.0, λ c. Typed.equality _ lhs rhs op (l.1 c) (r.1 c))

  relational-Returns :
      is_relation (binary_operator_from_lexeme t.lexeme) ≡ true
      → Parsed n lhs s
      → Parsed n rhs s
      → Returns true s (Parsed n) (relational t lhs rhs s)
  unfolding relational
  relational-Returns op l r =
      Returns-if (is_bool (type_of lhs) || is_bool (type_of rhs)) _ _
        (λ _. Returns-reject t.line expected_number v)
        (λ e.
          Returns-value _ (Step-refl v)
            (l.0, λ c. Typed.relational _ lhs rhs op (ground arith) (ground arith) (l.1 c) (r.1 c)))

  arithmetic-Returns :
      is_arithmetic (binary_operator_from_lexeme t.lexeme) ≡ true
      → Parsed n lhs s
      → Parsed n rhs s
      → Returns true s (Parsed n) (arithmetic t lhs rhs s)
  unfolding arithmetic
  arithmetic-Returns op l r =
      Returns-if (is_bool (type_of lhs) || is_bool (type_of rhs)) _ _
        (λ _. Returns-reject t.line expected_number v)
        (λ e.
          Returns-value _ (Step-refl v)
            (l.0, λ c. Typed.arithmetic _ lhs rhs op (ground arith) (ground arith) (l.1 c) (r.1 c)))

pub lor-Builds : Builds TokenType.lor logical
unfolding binary_operator_from_lexeme
lor-Builds t lhs rhs s n v w = logical-Returns t lhs rhs s n v (rw w)

pub land-Builds : Builds TokenType.land logical
unfolding binary_operator_from_lexeme
land-Builds t lhs rhs s n v w = logical-Returns t lhs rhs s n v (rw w)

pub equality-Builds : Builds TokenType.cmp_eq equality
unfolding binary_operator_from_lexeme
equality-Builds t lhs rhs s n v (inl w) = equality-Returns t lhs rhs s n v (rw w)
equality-Builds t lhs rhs s n v (inr w) = equality-Returns t lhs rhs s n v (rw w)

pub relational-Builds : Builds TokenType.cmp relational
unfolding binary_operator_from_lexeme
relational-Builds t lhs rhs s n v (inl (inl w)) = relational-Returns t lhs rhs s n v (rw w)
relational-Builds t lhs rhs s n v (inl (inr w)) = relational-Returns t lhs rhs s n v (rw w)
relational-Builds t lhs rhs s n v (inr (inl w)) = relational-Returns t lhs rhs s n v (rw w)
relational-Builds t lhs rhs s n v (inr (inr w)) = relational-Returns t lhs rhs s n v (rw w)

pub arithmetic-Builds_add : Builds TokenType.add arithmetic
unfolding binary_operator_from_lexeme
arithmetic-Builds_add t lhs rhs s n v (inl w) = arithmetic-Returns t lhs rhs s n v (rw w)
arithmetic-Builds_add t lhs rhs s n v (inr w) = arithmetic-Returns t lhs rhs s n v (rw w)

pub arithmetic-Builds_mul : Builds TokenType.mul arithmetic
unfolding binary_operator_from_lexeme
arithmetic-Builds_mul t lhs rhs s n v (inl w) = arithmetic-Returns t lhs rhs s n v (rw w)
arithmetic-Builds_mul t lhs rhs s n v (inr w) = arithmetic-Returns t lhs rhs s n v (rw w)

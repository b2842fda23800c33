-- ===== src/Parser/Expression/Leaves.antt =====
-- Unary operators, variables and literals.
use pudl.Prelude.{
  ℕ, ◌≤◌, ◌<◌, ◌≡◌, refl, sym, subst, inl, inr, true, false, not, ◌&&◌, ◌||◌, Bytes, Option, none,
  some, Bool-cases, Option-cases, arith,
}
use pudl.Prelude.Map.{lookup}
use pudl.Token.{TokenType, Token, type_eq→eq}
use pudl.Ast.{OperatorKind, Expr, integer_lit, float_lit, unary, type_of, is_bool}
use pudl.Ast.Operator.{unary_operator_from_lexeme}
use pudl.Lexer.Progress.{pending}
use pudl.Lexer.Lexemes.{IsLexed, Lexeme}
use pudl.Parser.State.{
  State, Message, is, error, expected_boolean, expected_number, not_initialized, integer_range,
  float_range,
}
use pudl.Parser.Typing.{Context, context, Typed}
use pudl.Parser.Ensures.{
  size, IsValid, Step-refl, Returns, Returns-value, Returns-bind, Returns-if, Returns-reject,
  Returns-next, Returns-scope_at, fails,
}
use pudl.Parser.Expression.{
  int_max, stoi, parse_boolean, literal, integer_node, float_node, parse_integer, var_node,
  parse_var, signed, parse_float, constant,
}
use pudl.Parser.Expression.Level.{Parsed, pending_of_is}

signed-Typed :
    (t : Token) (e : Expr) (c : Context)
    → IsLexed t
    → (is t TokenType.add || is t TokenType.not_op) ≡ true
    → (is t TokenType.not_op && not (is_bool (type_of e))) ≡ false
    → (is t TokenType.add && is_bool (type_of e)) ≡ false
    → Typed c e
    → Typed c (unary (unary_operator_from_lexeme t.lexeme) e)
unfolding unary_operator_from_lexeme
signed-Typed t e c l some_op e1 e2 h = elim (Bool-cases (is t TokenType.not_op)) [
  | inl q ↦
      let w = subst (λ ty. Lexeme ty t.lexeme) (type_eq→eq t.type TokenType.not_op q) l in
      let b : is_bool (type_of e) ≡ true = ground arith in rw w (Typed.negation e b h)
  | inr q ↦
      let a : is t TokenType.add ≡ true = ground arith in
      let b : is_bool (type_of e) ≡ false = ground arith in
      sign_cases (subst (λ ty. Lexeme ty t.lexeme) (type_eq→eq t.type TokenType.add a) l) b
]
  where
    sign_cases :
        Lexeme TokenType.add t.lexeme
        → is_bool (type_of e) ≡ false
        → Typed c (unary (unary_operator_from_lexeme t.lexeme) e)
    sign_cases (inl w) b = rw w (Typed.signed OperatorKind.pos e refl b h)
    sign_cases (inr w) b = rw w (Typed.signed OperatorKind.neg e refl b h)

-- What `unary` builds behind its operator.
pub signed-Returns :
    (t : Token) (e : Expr) (s : State) (n : ℕ)
    → IsValid s
    → IsLexed t
    → (is t TokenType.add || is t TokenType.not_op) ≡ true
    → Parsed n e s
    → Returns true s (Parsed n) (signed t e s)
unfolding signed
signed-Returns t e s n v l some_op p =
    Returns-if (is t TokenType.not_op && not (is_bool (type_of e))) _ _
      (λ _. Returns-reject t.line expected_boolean v)
      (λ e1.
        Returns-if (is t TokenType.add && is_bool (type_of e)) _ _
          (λ _. Returns-reject t.line expected_number v)
          (λ e2.
            Returns-value _ (Step-refl v)
              (p.0, λ c. signed-Typed t e (context s) l some_op e1 e2 (p.1 c))))

pub parse_var-Returns :
    (s : State) → IsValid s → pending s.current ≡ 1 → Returns true s (Parsed (size s)) (parse_var s)
unfolding parse_var var_node error
parse_var-Returns s v one =
    let t = s.current in
    Returns-bind (Returns-next v) λ _ u su adv.
      let lt : size u < size s = omega (arith, adv.consumed) in
      Returns-scope_at su.valid t.lexeme (var_node t)
        (λ x found named typed. Returns-value _ (Step-refl su.valid) (
          lt,
          λ c. Typed.var x (subst (λ k. lookup k u.scope ≡ some (some x)) (sym named) found) typed,
        ))
        (λ w err.
          let st = err t.line (not_initialized t.lexeme) in
          Returns-value _ st (omega (arith, st.size_le), λ c. cc))

-- A literal of one token, whose node is typed in every context.
literal-Returns :
    (o : Option Expr) (t : Token) (msg : Bytes → Message) (s : State) (n : ℕ)
    → IsValid s
    → size s < n
    → ((e : Expr) (c : Context) → o ≡ some e → Typed c e)
    → Returns true s (Parsed n) (literal o t msg s)
literal-Returns (some e) t msg s n v lt h =
    Returns-value e (Step-refl v) (lt, λ _. h e (context s) refl)
literal-Returns none t msg s n v lt h = Returns-reject t.line (msg t.lexeme) v

stoi_le : (w : Bytes) (n : ℕ) → stoi w ≡ some n → n ≤ int_max
unfolding stoi
stoi_le w n h = ground arith

integer_node-Typed :
    (w : Bytes) (e : Expr) (c : Context) → integer_node (stoi w) ≡ some e → Typed c e
integer_node-Typed w e c h = elim (Option-cases (stoi w)) [
  | inl q ↦ let r : none ≡ some e = rw q at h in absurd (cc)
  | inr (n, q) ↦
      let r : integer_lit n ≡ e = cc (rw q at h) in
      subst (Typed c) r (Typed.integer_lit n (stoi_le w n q))
]

float_node-Typed : (o : Option ℕ) (e : Expr) (c : Context) → float_node o ≡ some e → Typed c e
float_node-Typed none e c h = cc
float_node-Typed (some x) e c h =
    let q : float_lit x ≡ e = cc in subst (Typed c) q (Typed.float_lit x)

module _ (s : State) (v : IsValid s) (one : pending s.current ≡ 1) where
  parse_boolean-Returns : Returns true s (Parsed (size s)) (parse_boolean s)
  unfolding parse_boolean
  parse_boolean-Returns = Returns-bind (Returns-next v) λ _ u su adv.
      Returns-value _ (Step-refl su.valid) (omega (arith, adv.consumed), λ _. Typed.boolean _)

  parse_integer-Returns : Returns true s (Parsed (size s)) (parse_integer s)
  unfolding parse_integer
  parse_integer-Returns = Returns-bind (Returns-next v) λ _ u su adv.
      literal-Returns (integer_node (stoi s.current.lexeme)) s.current integer_range u (size s)
        su.valid (omega (arith, adv.consumed)) (integer_node-Typed s.current.lexeme)

  module _ (stof : Bytes → Option ℕ) where
    parse_float-Returns : Returns true s (Parsed (size s)) (parse_float stof s)
    unfolding parse_float
    parse_float-Returns = Returns-bind (Returns-next v) λ _ u su adv.
        literal-Returns (float_node (stof s.current.lexeme)) s.current float_range u (size s)
          su.valid (omega (arith, adv.consumed)) (float_node-Typed (stof s.current.lexeme))

-- A literal, or NULL where no literal stands.
pub constant-Returns :
    (stof : Bytes → Option ℕ) (s : State)
    → IsValid s
    → Returns true s (Parsed (size s)) (constant stof s)
unfolding constant
constant-Returns stof s v =
    let t = s.current in
    Returns-if (is t TokenType.bool) _ _
      (λ e. parse_boolean-Returns s v (pending_of_is t TokenType.bool e refl))
      (λ _.
        Returns-if (is t TokenType.integer) _ _
          (λ e. parse_integer-Returns s v (pending_of_is t TokenType.integer e refl))
          (λ _.
            Returns-if (is t TokenType.float) _ _
              (λ e. parse_float-Returns s v (pending_of_is t TokenType.float e refl) stof)
              (λ _. fails (Step-refl v))))

-- ===== src/Parser/Expression/Sound.antt =====
-- One induction on the fuel: with enough of it every expression method returns, consumes what it
-- returns, and returns a typed tree unless an error was reported. The bounds on the fuel count
-- sixteen units for each unit of `size`, and one for each call that consumes nothing.
use pudl.Prelude.{
  ℕ, zero, suc, ◌+◌, ◌*◌, ◌<◌, ◌≡◌, refl, ap, ◌∙◌, true, false, ◌||◌, Bytes, Option, none, some,
  arith, if◌then◌else◌,
}
use pudl.Token.{TokenType, Token, type_eq→eq}
use pudl.Ast.{Expr, Args, no_args, arg}
use pudl.Lexer.Progress.{pending}
use pudl.Parser.State.{
  State, pure, next, ◌>>=◌, is, returned, error, expression_after, unexpected_end,
  undefined_function, expected_expression,
}
use pudl.Parser.Typing.{context, Typed, TypedArgs, TypedArgs-Grows}
use pudl.Parser.Ensures.{
  size, IsValid, Step, Step-refl, Step-reported, Returns, Returns-value, Returns-weaken,
  Returns-bind, Returns-if, Returns-caught, Returns-rejected, Returns-reject, Returns-next,
  Returns-is_expected, Returns-funcs_at, Returns-peek, Step-trans, fails,
}
use pudl.Parser.Expression.{
  logical, equality, relational, arithmetic, expression, lor, land, cmpeq, cmp, additive,
  multiplicative, unary_expr, parse_var, factor, funcall, funcall_args, args_loop,
}
use pudl.Parser.Expression.Level.{
  Parsed, later, pending_of_is, level-Returns, lor-Builds, land-Builds, equality-Builds,
  relational-Builds, arithmetic-Builds_add, arithmetic-Builds_mul,
}
use pudl.Parser.Expression.Leaves.{signed-Returns, parse_var-Returns, constant-Returns}

abbrev ParsedOption : ℕ → Option Expr → State → Type 0
ParsedOption n none s = Unit
ParsedOption n (some e) s = Parsed n e s

returned-Returns :
    (n : ℕ) (o : Option Expr) (s t : State)
    → Step true s t
    → ParsedOption n o s
    → Returns true t (Parsed n) (returned o t)
returned-Returns n none s t st h = fails (Step-refl st.valid)
returned-Returns n (some e) s t st h =
    Returns-value e (Step-refl st.valid) (omega (arith, h.0, st.size_le), later e st h.1)

pending_of_sign : (t : Token) → (is t TokenType.add || is t TokenType.not_op) ≡ true → pending t ≡ 1
pending_of_sign t h =
    ground (arith, type_eq→eq t.type TokenType.add, type_eq→eq t.type TokenType.not_op)

-- Arguments are typed unless an error was reported.
abbrev CleanArgs : Args → State → Type 0
CleanArgs a s = s.is_error ≡ false → TypedArgs (context s) a

module _ (stof : Bytes → Option ℕ) where
  mutual
    unfolding expression error

    pub expression-Returns :
        (f : ℕ) (s : State)
        → IsValid s
        → 16 * size s + 11 < f
        → Returns true s (Parsed (size s)) (expression stof f s)
    expression-Returns zero s v h = absurd (omega arith)
    expression-Returns (suc f) s v h = Returns-bind (Returns-next v) λ first u su adv.
        Returns-if (is first TokenType.eof_token) _ _
          (λ _. Returns-reject s.current.line unexpected_end su.valid)
          (λ _.
            Returns-weaken (Step-refl su.valid) (λ e w _ p. (omega (arith, p.0, su.size_le), p.1))
              (lor-Returns f u su.valid (omega (arith, su.size_le))))

    lor-Returns :
        (f : ℕ) (s : State)
        → IsValid s
        → 16 * size s + 10 < f
        → Returns true s (Parsed (size s)) (lor stof f s)
    lor-Returns zero s v h = absurd (omega arith)
    lor-Returns (suc f) s v h =
        level-Returns (land stof f) TokenType.lor (lor stof f) logical s refl lor-Builds
          (land-Returns f s v (omega arith)) (λ t vt lt. lor-Returns f t vt (omega arith))

    land-Returns :
        (f : ℕ) (s : State)
        → IsValid s
        → 16 * size s + 9 < f
        → Returns true s (Parsed (size s)) (land stof f s)
    land-Returns zero s v h = absurd (omega arith)
    land-Returns (suc f) s v h =
        level-Returns (cmpeq stof f) TokenType.land (land stof f) logical s refl land-Builds
          (cmpeq-Returns f s v (omega arith)) (λ t vt lt. land-Returns f t vt (omega arith))

    cmpeq-Returns :
        (f : ℕ) (s : State)
        → IsValid s
        → 16 * size s + 8 < f
        → Returns true s (Parsed (size s)) (cmpeq stof f s)
    cmpeq-Returns zero s v h = absurd (omega arith)
    cmpeq-Returns (suc f) s v h =
        level-Returns (cmp stof f) TokenType.cmp_eq (cmpeq stof f) equality s refl equality-Builds
          (cmp-Returns f s v (omega arith)) (λ t vt lt. cmpeq-Returns f t vt (omega arith))

    cmp-Returns :
        (f : ℕ) (s : State)
        → IsValid s
        → 16 * size s + 7 < f
        → Returns true s (Parsed (size s)) (cmp stof f s)
    cmp-Returns zero s v h = absurd (omega arith)
    cmp-Returns (suc f) s v h =
        level-Returns (additive stof f) TokenType.cmp (cmp stof f) relational s refl
          relational-Builds (additive-Returns f s v (omega arith))
          (λ t vt lt. cmp-Returns f t vt (omega arith))

    additive-Returns :
        (f : ℕ) (s : State)
        → IsValid s
        → 16 * size s + 6 < f
        → Returns true s (Parsed (size s)) (additive stof f s)
    additive-Returns zero s v h = absurd (omega arith)
    additive-Returns (suc f) s v h =
        level-Returns (multiplicative stof f) TokenType.add (additive stof f) arithmetic s refl
          arithmetic-Builds_add (multiplicative-Returns f s v (omega arith))
          (λ t vt lt. additive-Returns f t vt (omega arith))

    multiplicative-Returns :
        (f : ℕ) (s : State)
        → IsValid s
        → 16 * size s + 5 < f
        → Returns true s (Parsed (size s)) (multiplicative stof f s)
    multiplicative-Returns zero s v h = absurd (omega arith)
    multiplicative-Returns (suc f) s v h =
        level-Returns (unary_expr stof f) TokenType.mul (multiplicative stof f) arithmetic s refl
          arithmetic-Builds_mul (unary_expr-Returns f s v (omega arith))
          (λ t vt lt. multiplicative-Returns f t vt (omega arith))

    unary_expr-Returns :
        (f : ℕ) (s : State)
        → IsValid s
        → 16 * size s + 4 < f
        → Returns true s (Parsed (size s)) (unary_expr stof f s)
    unary_expr-Returns zero s v h = absurd (omega arith)
    unary_expr-Returns (suc f) s v h =
        let t = s.current in
        Returns-if (is t TokenType.add || is t TokenType.not_op) _ _
          (λ e. Returns-bind (Returns-next v) λ _ u su adv.
            let lt : size u < size s = omega (arith, adv.consumed, pending_of_sign t e) in
            Returns-bind
              (Returns-rejected t.line (expression_after t.lexeme)
                (unary_expr-Returns f u su.valid (omega arith)))
              λ x w sw p.
                signed-Returns t x w (size s) sw.valid v.current e (omega (arith, p.0), p.1))
          (λ _. factor-Returns f s v (omega arith))

    factor-Returns :
        (f : ℕ) (s : State)
        → IsValid s
        → 16 * size s + 3 < f
        → Returns true s (Parsed (size s)) (factor stof f s)
    factor-Returns zero s v h = absurd (omega arith)
    factor-Returns (suc f) s v h =
        let t = s.current in
        Returns-if (is t TokenType.pl) _ _
          (λ e. Returns-bind (Returns-next v) λ _ u su adv.
            let lt : size u < size s =
              omega (arith, adv.consumed, pending_of_is t TokenType.pl e refl) in
            Returns-bind
              (Returns-caught (ParsedOption (size s)) (λ x w sw p. (omega (arith, p.0), p.1))
                (λ _ _. tt) (lor-Returns f u su.valid (omega arith)))
              λ o w sw p.
                Returns-bind (Returns-is_expected sw.valid w.current TokenType.pr) λ ok x sx _.
                  Returns-if ok _ _
                    (λ _.
                      Returns-bind (Returns-next sx.valid)
                        λ _ y sy _. returned-Returns (size s) o w y (Step-trans sx sy) p)
                    (λ _. fails (Step-refl sx.valid)))
          (λ _.
            Returns-if (is t TokenType.symbol) _ _
              (λ e.
                Returns-peek t
                  (λ ahead. if is ahead TokenType.pl then funcall stof f else parse_var) v refl
                  λ ahead w sw at.
                    let one : pending w.current ≡ 1 =
                      ap pending at ∙ pending_of_is t TokenType.symbol e refl in
                    Returns-weaken (Step-refl sw.valid)
                      (λ x y _ p. (omega (arith, p.0, sw.size_le), p.1))
                      (Returns-if (is ahead TokenType.pl) (funcall stof f) parse_var
                        (λ _. funcall-Returns f w sw.valid one (omega (arith, sw.size_le)))
                        (λ _. parse_var-Returns w sw.valid one)))
              (λ _. constant-Returns stof s v))

    pub funcall-Returns :
        (f : ℕ) (s : State)
        → IsValid s
        → pending s.current ≡ 1
        → 16 * size s + 2 < f
        → Returns true s (Parsed (size s)) (funcall stof f s)
    funcall-Returns zero s v one h = absurd (omega arith)
    funcall-Returns (suc f) s v one h = Returns-bind (Returns-funcs_at v s.current.lexeme) (elim [
      | none ↦
          λ u su p. Returns-reject s.current.line (undefined_function s.current.lexeme) su.valid
      | some func ↦ λ u su p.
          Returns-bind
            (funcall_args-Returns f u su.valid (ap pending p.0 ∙ one) (omega (arith, su.size_le)))
            λ args w sw q. Returns-bind (Returns-next sw.valid) λ _ y sy _.
              let found = p.1 func refl in
              Returns-value _ (Step-refl sy.valid) (
                omega (arith, q.0, su.size_le, sy.size_le),
                λ c.
                    let g = Step-trans sw sy in
                    Typed.funcall s.current.lexeme args func (g.grows.1 _ _ found.0) found.1
                      (TypedArgs-Grows sy.grows (q.1 (sy.clean c))),
              )
    ])

    funcall_args-Returns :
        (f : ℕ) (s : State)
        → IsValid s
        → pending s.current ≡ 1
        → 16 * size s + 1 < f
        → Returns true s (λ a t. (size t < size s) × CleanArgs a t) (funcall_args stof f s)
    funcall_args-Returns zero s v one h = absurd (omega arith)
    funcall_args-Returns (suc f) s v one h = Returns-bind (Returns-next v) λ after_paren u su adv.
        let lt : size u < size s = omega (arith, adv.consumed, one) in
        Returns-peek after_paren
          (λ peek.
            if is peek TokenType.pr
            then (next >>= λ _. pure no_args)
            else args_loop stof f s.current.line)
          su.valid adv.is_current
          λ peek w sw _.
            Returns-if (is peek TokenType.pr) _ _
              (λ _. Returns-bind (Returns-next sw.valid) λ _ y sy _.
                Returns-value no_args (Step-refl sy.valid)
                  (omega (arith, sw.size_le, sy.size_le), λ _. TypedArgs.no_args))
              (λ _.
                Returns-weaken (Step-refl sw.valid)
                  (λ a y sy q. (omega (arith, sw.size_le, sy.size_le), q))
                  (args_loop-Returns f s.current.line w sw.valid (omega (arith, sw.size_le))))

    args_loop-Returns :
        (f line : ℕ) (s : State)
        → IsValid s
        → 16 * size s + 12 < f
        → Returns true s CleanArgs (args_loop stof f line s)
    args_loop-Returns zero line s v h = absurd (omega arith)
    args_loop-Returns (suc f) line s v h =
        Returns-if (is s.current TokenType.pr) _ _
          (λ _. Returns-value no_args (Step-refl v) (λ _. TypedArgs.no_args))
          (λ _.
            Returns-bind
              (Returns-caught (ParsedOption (size s)) (λ x w sw p. p) (λ _ _. tt)
                (expression-Returns f s v (omega arith)))
              (elim [
                | none ↦ λ u su _.
                    Returns-value no_args (Step-reported line expected_expression su.valid)
                      (λ c. cc)
                | some e ↦ λ u su p.
                    Returns-if (is u.current TokenType.comma) _ _
                      (λ _.
                        Returns-bind (args_loop-Returns f line u su.valid (omega (arith, p.0)))
                          λ rest w sw q.
                            Returns-value (arg e rest) (Step-refl sw.valid)
                              (λ c. TypedArgs.arg e rest (later e sw p.1 c) (q c)))
                      (λ _.
                        Returns-bind (Returns-is_expected su.valid u.current TokenType.pr)
                          λ _ w sw _.
                            Returns-value (arg e no_args) (Step-refl sw.valid)
                              (λ c. TypedArgs.arg e no_args (later e sw p.1 c) TypedArgs.no_args))
              ]))

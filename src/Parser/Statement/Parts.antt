-- ===== src/Parser/Statement/Parts.antt =====
-- The statement methods that call no other statement.
use pudl.Prelude.{
  ℕ, ◌+◌, ◌*◌, ◌≤◌, ◌<◌, ◌≡◌, ◌≢◌, refl, sym, ap, ◌∙◌, subst, inl, inr, Bool, true, false, not,
  ◌&&◌, codes, bytes_eq, Bytes, Option, none, some, if◌then◌else◌, arith,
}
use pudl.Prelude.Map.{lookup, Extends-insert, lookup-insert_new, lookup-insert_ind}
use pudl.Token.{TokenType, Token}
use pudl.Ast.{TType, Var, Expr, Stmt, io_print, ret, wrapper, assignment, type_of, is_bool}
use pudl.Lexer.Progress.{pending}
use pudl.Lexer.Lexemes.{Lexeme}
use pudl.Parser.State.{
  State, Outcome, M, bind, returned, is, semicolon, with_semicolon, scope_insert, from_string,
  expression_after, expected_boolean, expected_number, expected_condition, undeclared, redeclared,
}
use pudl.Parser.Typing.{context, Typed, TypedStmt, IsBool, TypedStmt-Grows}
use pudl.Parser.Ensures.{
  size, IsValid, Step, Step-refl, Step-trans, Returns, Returns-value, Returns-weaken, Returns-bind,
  Returns-if, Returns-caught, Returns-rejected, Returns-reject, Returns-next, Returns-require,
  Returns-scope_at, Returns-peek, holds, fails,
}
use pudl.Parser.Expression.Level.{later}
use pudl.Parser.Expression.Sound.{expression-Returns, funcall-Returns}
use pudl.Parser.Statement.{
  check_types, condition, parse_ret, parse_print, call_stmt, initializer, assign_to,
  parse_assignment, declare, declaration, symbol_stmt,
}

-- A step of an expression is one of a statement.
Step-loosen : {s t : State} → Step true s t → Step false s t
Step-loosen st = record {
  size_le = st.size_le;
  clean = st.clean;
  valid = st.valid;
  grows = st.grows;
  fresh = λ x. cc;
}

pub loosen {ℓ} :
    {A : Type ℓ} {R : A → State → Type 0} {s : State} {o : Outcome A}
    → Returns true s R o
    → Returns false s R o
loosen (holds h) = holds (Step-loosen h.0, h.1)
loosen (fails h) = fails (Step-loosen h)

-- `Returns-bind` where the rest needs the tight step.
Returns-keep {ℓ κ} :
    {A : Type ℓ} {B : Type κ} {R : A → State → Type 0} {R' : B → State → Type 0} {s : State}
    {o : Outcome A} {k : A → M B}
    → Returns true s R o
    → ((a : A) (t : State) → Step true s t → R a t → Returns false t R' (k a t))
    → Returns false s R' (bind o k)
Returns-keep (holds {a} {s = t} h) k =
    Returns-weaken (Step-loosen h.0) (λ _ _ _ r. r) (k a t h.0 h.1)
Returns-keep (fails h) k = fails (Step-loosen h)

-- A statement was consumed, and it is typed unless an error was reported.
abbrev pub ParsedStmt : ℕ → Stmt → State → Type 0
ParsedStmt n st s = (size s < n) × (s.is_error ≡ false → TypedStmt (context s) st)

pub later_stmt :
    {b : Bool} {s t : State} (st : Stmt)
    → Step b s t
    → (s.is_error ≡ false → TypedStmt (context s) st)
    → t.is_error ≡ false
    → TypedStmt (context t) st
later_stmt st step h clean = TypedStmt-Grows step.grows (h (step.clean clean))

semicolon-Returns : {s : State} → IsValid s → Returns false s (λ _ _. Unit) (semicolon s)
unfolding semicolon
semicolon-Returns {s} v =
    Returns-if (is s.current TokenType.semicolon) _ _
      (λ _. Returns-bind (Returns-next v) λ _ u su _. Returns-value tt (Step-refl su.valid) tt)
      (λ _. Returns-value tt (Step-refl v) tt)

abbrev ParsedOption : ℕ → Option Stmt → State → Type 0
ParsedOption n none s = Unit
ParsedOption n (some st) s = ParsedStmt n st s

returned-Returns :
    (n : ℕ) (o : Option Stmt) (s t : State)
    → Step false s t
    → ParsedOption n o s
    → Returns false t (ParsedStmt n) (returned o t)
returned-Returns n none s t st h = fails (Step-refl st.valid)
returned-Returns n (some x) s t st h =
    Returns-value x (Step-refl st.valid) (omega (arith, h.0, st.size_le), later_stmt x st h.1)

-- A semicolon behind a statement changes nothing of what it returns.
pub with_semicolon-Returns :
    (n : ℕ) (m : M Stmt) (s : State)
    → Returns false s (ParsedStmt n) (m s)
    → Returns false s (ParsedStmt n) (with_semicolon m s)
with_semicolon-Returns n m s h =
    Returns-bind (Returns-caught (ParsedOption n) (λ x t st p. p) (λ _ _. tt) h) λ o t st p.
      Returns-bind (semicolon-Returns st.valid) λ _ u su _. returned-Returns n o t u su p

pub condition-Returns :
    (t : Token) (e : Expr) (s : State)
    → IsValid s
    → Returns false s (λ _ u. (IsBool e) × (size u ≤ size s)) (condition t e s)
unfolding condition
condition-Returns t e s v =
    Returns-if (is_bool (type_of e)) _ _ (λ h. Returns-value tt (Step-refl v) (h, omega arith))
      (λ _. Returns-reject t.line expected_condition v)

check_types-Returns :
    {b : Bool} (t : Token) (l r : TType) (s : State)
    → IsValid s
    → Returns b s (λ _ _. is_bool l ≡ is_bool r) (check_types t l r s)
unfolding check_types
check_types-Returns t l r s v =
    Returns-if (is_bool l && not (is_bool r)) _ _ (λ _. Returns-reject t.line expected_boolean v)
      (λ e1.
        Returns-if (not (is_bool l) && is_bool r) _ _ (λ _. Returns-reject t.line expected_number v)
          (λ e2. Returns-value tt (Step-refl v) (ground arith)))

-- `fromString` knows the three names that are TYPE tokens.
pub from_string_known : (w : Bytes) → Lexeme TokenType.type_name w → from_string w ≢ TType.undefined
unfolding from_string bytes_eq
from_string_known w (inl e) q = let r : TType.integer ≡ TType.undefined = rw e at q in cc
from_string_known w (inr (inl e)) q = let r : TType.float ≡ TType.undefined = rw e at q in cc
from_string_known w (inr (inr e)) q = let r : TType.bool ≡ TType.undefined = rw e at q in cc

module _ (stof : Bytes → Option ℕ) (f : ℕ) (s : State) (v : IsValid s)
    (fuel : 16 * size s + 11 < f) where
  pub parse_ret-Returns : Returns false s (ParsedStmt (size s)) (parse_ret stof f s)
  unfolding parse_ret
  parse_ret-Returns =
      Returns-bind
        (Returns-rejected s.current.line (expression_after (codes "return"))
          (loosen (expression-Returns stof f s v fuel)))
        λ e t st p. Returns-value (ret e) (Step-refl st.valid) (p.0, λ c. TypedStmt.ret e (p.1 c))

  pub parse_print-Returns : Returns false s (ParsedStmt (size s)) (parse_print stof f s)
  unfolding parse_print
  parse_print-Returns =
      Returns-bind
        (Returns-rejected s.current.line (expression_after (codes "print"))
          (loosen (expression-Returns stof f s v fuel)))
        λ e t st p.
          Returns-value (io_print e) (Step-refl st.valid) (p.0, λ c. TypedStmt.io_print e (p.1 c))

  call_stmt-Returns :
      pending s.current ≡ 1 → Returns false s (ParsedStmt (size s)) (call_stmt stof f s)
  unfolding call_stmt
  call_stmt-Returns one =
      Returns-bind (loosen (funcall-Returns stof f s v one (omega arith))) λ e t st p.
        Returns-value (wrapper e) (Step-refl st.valid) (p.0, λ c. TypedStmt.wrapper e (p.1 c))

  -- The initializer is typed, and is Boolean exactly when the variable is.
  initializer-Returns :
      (t : Token) (ty : TType)
      → Returns true s
          (λ e u.
            (size u < size s)
            × (u.is_error ≡ false → Typed (context u) e)
            × (is_bool ty ≡ is_bool (type_of e)))
          (initializer stof f t ty s)
  unfolding initializer
  initializer-Returns t ty = Returns-bind (Returns-next v) λ op u su _.
      Returns-bind (Returns-require su.valid op TokenType.assign) λ _ w sw _.
        Returns-bind
          (Returns-rejected op.line (expression_after (codes "="))
            (expression-Returns stof f w sw.valid (omega (arith, su.size_le, sw.size_le, fuel))))
          λ e x sx p. Returns-bind (check_types-Returns t ty (type_of e) x sx.valid) λ _ y sy q.
            Returns-value e (Step-refl sy.valid)
              (omega (arith, p.0, su.size_le, sw.size_le, sy.size_le), later e sy p.1, q)

-- A declaration that is not there yet is found from now on.
pub scope_insert-Returns :
    (x : Var) (s : State)
    → IsValid s
    → x.type ≢ TType.undefined
    → Returns false s
        (λ _ t.
          (lookup x.name s.scope ≡ none → lookup x.name t.scope ≡ some (some x))
          × (size t ≡ size s)
          × (t.is_error ≡ s.is_error)
          × (t.current ≡ s.current))
        (scope_insert x s)
unfolding scope_insert
scope_insert-Returns x s v typed =
    Returns-value tt
      (record {
        size_le = omega arith;
        clean = λ e. e;
        valid = record {
          current = v.current;
          saved = v.saved;
          scope = λ k y h.
              lookup-insert_ind
                (λ p. (z : Var) → p ≡ some z → (z.name ≡ k) × (z.type ≢ TType.undefined)) x.name k
                (some x) (some y) s.scope
                (λ e z q.
                  let r : x ≡ z = cc in
                  subst (λ z. (z.name ≡ k) × (z.type ≢ TType.undefined)) r (e, typed))
                (λ e z q. v.scope k z (e ∙ ap some q)) h y refl;
          funcs = v.funcs;
        };
        grows = (Extends-insert x.name (some x) s.scope, λ k y h. h);
        fresh = λ e. cc;
      })
      (λ h. lookup-insert_new x.name (some x) s.scope h, refl, refl, refl)

module _ (stof : Bytes → Option ℕ) (f : ℕ) (s : State) (v : IsValid s)
    (fuel : 16 * size s + 11 < f) where
  pub parse_assignment-Returns : Returns false s (ParsedStmt (size s)) (parse_assignment stof f s)
  unfolding parse_assignment assign_to
  parse_assignment-Returns =
      let t = s.current in
      Returns-scope_at v t.lexeme (assign_to stof f t)
        (λ x found named typed.
          Returns-bind (loosen (initializer-Returns stof f s v fuel t x.type)) λ e u su p.
            Returns-value (assignment x e) (Step-refl su.valid) (
              p.0,
              λ c.
                  TypedStmt.assignment x e
                    (su.grows.0 x.name x
                      (subst (λ k. lookup k s.scope ≡ some (some x)) (sym named) found))
                    typed p.2 (p.1 c),
            ))
        (λ u err. fails (err t.line (undeclared t.lexeme)))

  declare-Returns :
      (t : Token) (x : Var) (found : Option (Option Var))
      → lookup x.name s.scope ≡ found
      → x.type ≢ TType.undefined
      → Returns false s (ParsedStmt (size s)) (declare stof f t x found s)
  unfolding declare
  declare-Returns t x (some p) h typed = Returns-reject t.line (redeclared x.name) v
  declare-Returns t x none h typed =
      Returns-keep (initializer-Returns stof f s v fuel t x.type) λ e u su p.
        Returns-bind (scope_insert-Returns x u su.valid typed) λ _ w sw q.
          Returns-value (assignment x e) (Step-refl sw.valid) (
            omega (arith, p.0, q.1),
            λ c.
                let d = sw.clean c in
                TypedStmt.assignment x e (q.0 (su.fresh refl d x.name h)) typed p.2
                  (later e sw p.1 c),
          )

-- The same bound, from one state to a later one.
widen :
    {s t : State} {o : Outcome Stmt}
    → Step false s t
    → Returns false t (ParsedStmt (size t)) o
    → Returns false t (ParsedStmt (size s)) o
widen st h =
    Returns-weaken (Step-refl st.valid) (λ _ _ _ p. (omega (arith, p.0, st.size_le), p.1)) h

module _ (stof : Bytes → Option ℕ) (f : ℕ) (s : State) (v : IsValid s)
    (fuel : 16 * size s + 11 < f) where
  pub declaration-Returns :
      Lexeme TokenType.type_name s.current.lexeme
      → Returns false s (ParsedStmt (size s)) (declaration stof f s)
  unfolding declaration
  declaration-Returns lexed =
      let t = s.current in
      Returns-bind (Returns-next v) λ name u su _.
        Returns-bind (Returns-require su.valid name TokenType.symbol) λ _ w sw _.
          widen (Step-trans su sw) (
            declare-Returns stof f w sw.valid (omega (arith, su.size_le, sw.size_le, fuel)) t
              (record { name = name.lexeme; type = from_string t.lexeme })
              (lookup name.lexeme w.scope) refl (from_string_known t.lexeme lexed))

  pub symbol_stmt-Returns :
      pending s.current ≡ 1 → Returns false s (ParsedStmt (size s)) (symbol_stmt stof f s)
  unfolding symbol_stmt
  symbol_stmt-Returns one =
      let t = s.current in
      Returns-peek t
        (λ ahead.
          if is ahead TokenType.pl
          then with_semicolon (call_stmt stof f)
          else with_semicolon (parse_assignment stof f))
        v refl
        λ ahead w sw at.
          let enough : 16 * size w + 11 < f = omega (arith, sw.size_le, fuel) in
          Returns-if (is ahead TokenType.pl) (with_semicolon (call_stmt stof f))
            (with_semicolon (parse_assignment stof f))
            (λ _. widen sw (
              with_semicolon-Returns (size w) (call_stmt stof f) w
                (call_stmt-Returns stof f w sw.valid enough (ap pending at ∙ one))))
            (λ _. widen sw (
              with_semicolon-Returns (size w) (parse_assignment stof f) w
                (parse_assignment-Returns stof f w sw.valid enough)))

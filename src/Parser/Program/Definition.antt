-- ===== src/Parser/Program/Definition.antt =====
-- `functionDef` and `functionArgs` of src/Parser/Parser.cpp: the fuel is enough, and a definition is
-- typed.
use pudl.Prelude.{
  ℕ, zero, suc, ◌+◌, ◌*◌, ◌<◌, ◌≡◌, ◌≢◌, refl, sym, ap, ◌∙◌, subst, true, false, Bytes, List, [],
  ◌∷◌, All, Option, some, arith,
}
use pudl.Prelude.Map.{Map, Extends-insert, lookup-insert_ind}
use pudl.Token.{TokenType, Token, type_eq→eq}
use pudl.Ast.{TType, Var, FunctionDef, Root, vector, dummy}
use pudl.Lexer.Progress.{pending}
use pudl.Lexer.Lexemes.{IsLexed, Lexeme}
use pudl.Parser.State.{State, Header, run, pure, ◌>>=◌, ◌>>◌, is, next, funcs_insert, from_string}
use pudl.Parser.Typing.{TypedStmt}
use pudl.Parser.Ensures.{
  size, IsValid, Step-refl, Returns, Returns-value, Returns-bind, Returns-if, Returns-next,
  Returns-require, Returns-is_expected,
}
use pudl.Parser.Statement.Parts.{from_string_known, scope_insert-Returns}
use pudl.Parser.Statement.Sound.{statement-Returns}
use pudl.Parser.Statement.{statement}
use pudl.Parser.Program.{
  function_args, declare_args, scope_clear, warn_type, optional_args, function_def,
}

abbrev pub HasType : Var → Type 0
HasType v = v.type ≢ TType.undefined

-- A definition whose body is typed, over one scope for the whole function.
pub record TypedDef (funcs : Map (Option Header)) (d : FunctionDef) : Type 0 where
  pub scope : Map (Option Var)
  pub body : TypedStmt (record { scope = scope; funcs = funcs }) d.body
  pub args : All HasType d.args
  pub type : d.type ≢ TType.undefined

abbrev pub TypedDefs : Map (Option Header) → List FunctionDef → Type 0
TypedDefs funcs = All (TypedDef funcs)

abbrev pub TypedRoot : Map (Option Header) → Root → Type 0
TypedRoot funcs (vector defs) = TypedDefs funcs defs
TypedRoot funcs dummy = Unit

-- What a token that `is` a TYPE says of the type that is read off it.
type_known :
    (t : Token)
    → IsLexed t
    → is t TokenType.type_name ≡ true
    → from_string t.lexeme ≢ TType.undefined
type_known t l e =
    from_string_known t.lexeme
      (subst (λ ty. Lexeme ty t.lexeme) (type_eq→eq t.type TokenType.type_name e) l)

pending_type : (t : Token) → is t TokenType.type_name ≡ true → pending t ≡ 1
pending_type t h = ground (arith, type_eq→eq t.type TokenType.type_name)

abbrev TypedArgs : List Var → State → Type 0
TypedArgs args s = All HasType args

function_args-Returns :
    (f : ℕ) (s : State)
    → IsValid s
    → 16 * size s < f
    → Returns false s TypedArgs (function_args f s)
unfolding function_args
function_args-Returns zero s v h = absurd (omega arith)
function_args-Returns (suc f) s v h =
    let ty = s.current in
    Returns-if (is ty TokenType.pr) _ _
      (λ _. Returns-bind (Returns-next v) λ _ u su _. Returns-value [] (Step-refl su.valid) tt)
      (λ _. Returns-bind (Returns-is_expected v ty TokenType.type_name) λ typed t st a.
        Returns-if typed _ _
          (λ e.
            let is_type = sym a.0 ∙ e in
            let known = type_known ty v.current is_type in
            Returns-bind (Returns-next st.valid) λ name u su adv.
              let lt : size u < size s =
                omega (arith, adv.consumed, st.size_le, ap pending a.1, pending_type ty is_type) in
              Returns-bind (Returns-is_expected su.valid name TokenType.symbol) λ named w sw _.
                Returns-if named _ _
                  (λ _. Returns-bind (Returns-next sw.valid) λ behind x sx _.
                    Returns-if (is behind TokenType.comma) _ _
                      (λ _. Returns-bind (Returns-next sx.valid) λ _ y sy _.
                        Returns-bind
                          (function_args-Returns f y sy.valid
                            (omega (arith, sw.size_le, sx.size_le, sy.size_le)))
                          λ rest z sz more. Returns-value _ (Step-refl sz.valid) (known, more))
                      (λ _.
                        Returns-bind (Returns-is_expected sx.valid behind TokenType.pr)
                          λ closed y sy _.
                            Returns-if closed _ _
                              (λ _.
                                Returns-bind (Returns-next sy.valid)
                                  λ _ z sz _. Returns-value _ (Step-refl sz.valid) (known, tt))
                              (λ _. Returns-value _ (Step-refl sy.valid) (known, tt))))
                  (λ _. Returns-value [] (Step-refl sw.valid) tt))
          (λ _. Returns-value [] (Step-refl st.valid) tt))

declare_args-Returns :
    (args : List Var) (s : State)
    → IsValid s
    → All HasType args
    → Returns false s (λ _ _. Unit) (declare_args args s)
unfolding declare_args
declare_args-Returns [] s v h = Returns-value tt (Step-refl v) tt
declare_args-Returns (x ∷ xs) s v h =
    Returns-bind (scope_insert-Returns x s v h.0) λ _ t st _. declare_args-Returns xs t st.valid h.1

optional_args-Returns :
    (f : ℕ) (t : Token) (s : State)
    → IsValid s
    → 16 * size s < f
    → Returns false s TypedArgs (optional_args f t s)
unfolding optional_args
optional_args-Returns f t s v h =
    Returns-if (is t TokenType.pl) _ _
      (λ _. Returns-bind (Returns-next v) λ _ u su _.
        Returns-bind (function_args-Returns f u su.valid (omega (arith, su.size_le))) λ args w sw a.
          Returns-bind (declare_args-Returns args w sw.valid a)
            λ _ x sx _. Returns-value args (Step-refl sx.valid) a)
      (λ _. Returns-value [] (Step-refl v) tt)

warn_type-Returns :
    (ty : TType) (s : State) → IsValid s → Returns false s (λ _ _. Unit) (warn_type ty s)
unfolding warn_type
warn_type-Returns TType.undefined s v =
    Returns-value tt
      (record {
        size_le = omega arith;
        clean = λ e. e;
        valid = record { current = v.current; saved = v.saved; scope = v.scope; funcs = v.funcs };
        grows = (λ k x h. h, λ k x h. h);
        fresh = λ _ _ k h. h;
      })
      tt
warn_type-Returns _ s v = Returns-value tt (Step-refl v) tt

funcs_insert-Returns :
    (d : Header) (s : State)
    → IsValid s
    → d.type ≢ TType.undefined
    → Returns false s (λ _ _. Unit) (funcs_insert d s)
unfolding funcs_insert
funcs_insert-Returns d s v typed =
    Returns-value tt
      (record {
        size_le = omega arith;
        clean = λ e. e;
        valid = record {
          current = v.current;
          saved = v.saved;
          scope = v.scope;
          funcs = λ k y h.
              lookup-insert_ind (λ p. (z : Header) → p ≡ some z → z.type ≢ TType.undefined) d.name k
                (some d) (some y) s.funcs
                (λ e z q. let r : d ≡ z = cc in subst (λ z. z.type ≢ TType.undefined) r typed)
                (λ e z q. v.funcs k z (e ∙ ap some q)) h y refl;
        };
        grows = (λ k x h. h, Extends-insert d.name (some d) s.funcs);
        fresh = λ _ _ k h. h;
      })
      tt

abbrev pub ParsedDef : ℕ → FunctionDef → State → Type 0
ParsedDef n d s = (size s < n) × (s.is_error ≡ false → TypedDef s.funcs d)

-- The state behind `scope.clear()`.
abbrev pub cleared : State → State
cleared s = record s { scope = [] }

module _ (stof : Bytes → Option ℕ) where
  -- `functionDef` from the token behind its type on.
  definition-Returns :
      (f : ℕ) (name : Token) (args : List Var) (ty : Token) (s : State) (n : ℕ)
      → IsValid s
      → size s < n
      → from_string ty.lexeme ≢ TType.undefined
      → All HasType args
      → 16 * size s + 14 < f
      → Returns false s (ParsedDef n) (
          run s do
            _ ← next
            funcs_insert (record { name = name.lexeme; args = args; type = from_string ty.lexeme })
            body ← statement stof f
            pure (record {
              name = name.lexeme;
              args = args;
              body = body;
              type = from_string ty.lexeme;
            }))
  definition-Returns f name args ty s n v lt known typed_args h =
      Returns-bind (Returns-next v) λ _ t st _.
        Returns-bind (funcs_insert-Returns _ t st.valid known) λ _ u su _.
          Returns-bind (statement-Returns stof f u su.valid (omega (arith, st.size_le, su.size_le)))
            λ body w sw q. Returns-value _ (Step-refl sw.valid) (
              omega (arith, q.0, st.size_le, su.size_le),
              λ c. record { scope = w.scope; body = q.1 c; args = typed_args; type = known },
            )

  pub function_def-Returns :
      (f : ℕ) (s : State)
      → IsValid (cleared s)
      → pending s.current ≡ 1
      → 16 * size s + 14 < f
      → Returns false (cleared s) (ParsedDef (size s)) (function_def stof f s)
  unfolding function_def scope_clear
  function_def-Returns f s v one h = Returns-bind (Returns-next v) λ name t st adv.
      Returns-bind (Returns-require st.valid name TokenType.symbol) λ _ u su _.
        Returns-bind (Returns-next su.valid) λ behind w sw _.
          Returns-bind
            (optional_args-Returns f behind w sw.valid
              (omega (arith, adv.consumed, su.size_le, sw.size_le)))
            λ args x sx typed_args.
              Returns-bind (Returns-require sx.valid x.current TokenType.colon) λ _ y sy _.
                Returns-bind (Returns-next sy.valid) λ ty z sz at.
                  Returns-bind (Returns-require sz.valid ty TokenType.type_name) λ _ a sa is_ty.
                    Returns-bind (warn_type-Returns (from_string ty.lexeme) a sa.valid) λ _ b sb _.
                      let known =
                        type_known ty (subst IsLexed at.is_current sz.valid.current) is_ty.0 in
                      let lt : size b < size s = omega (
                        arith, adv.consumed, one, su.size_le, sw.size_le, sx.size_le, sy.size_le,
                        sz.size_le, sa.size_le, sb.size_le,
                      ) in
                      definition-Returns f name args ty b (size s) sb.valid lt known typed_args
                        (omega arith)

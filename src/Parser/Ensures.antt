-- ===== src/Parser/Ensures.antt =====
-- Postconditions of the parser's methods: what every method keeps, and rules for the monad.
use pudl.Prelude.{
  ℕ, ◌+◌, ◌≤◌, ◌≡◌, ◌≢◌, refl, sym, ap, ◌∙◌, Bool, true, false, Bytes, Option, none, some, if_intro,
  Option-cases, inl, inr, if◌then◌else◌, arith, subst,
}
use pudl.Prelude.Map.{
  Map, lookup, insert, subscript, Extends-insert, subscript-some, lookup-insert_ind, insert_present,
  pointer,
}
use pudl.Token.{TokenType, Token, no_token}
use pudl.Ast.{TType, Var}
use pudl.Lexer.{lex}
use pudl.Lexer.Progress.{pending, unread, lex_progress}
use pudl.Lexer.Lexemes.{IsLexed, lex-IsLexed}
use pudl.Parser.State.{
  State, Header, Message, Outcome, value, null, M, bind, ◌>>=◌, caught, next, rewind, reported,
  rejected, is, is_expected, require, scope_at, funcs_at,
}
use pudl.Parser.Typing.{context, Grows}

-- What the parser may still consume: the token in hand, the saved one and the file.
abbrev pub size : State → ℕ
size s = pending s.current + unread s.lexer

abbrev pub NamedVars : Map (Option Var) → Type 0
NamedVars m =
    (k : Bytes) (v : Var) → lookup k m ≡ some (some v) → (v.name ≡ k) × (v.type ≢ TType.undefined)

abbrev pub NamedFuncs : Map (Option Header) → Type 0
NamedFuncs m = (k : Bytes) (h : Header) → lookup k m ≡ some (some h) → h.type ≢ TType.undefined

-- The tokens in hand come from the lexer, and the declarations have types.
pub record IsValid (s : State) : Type 0 where
  pub current : IsLexed s.current
  pub saved : IsLexed s.lexer.saved
  pub scope : NamedVars s.scope
  pub funcs : NamedFuncs s.funcs

-- What every method keeps: it gives nothing back, forgets no error and no declaration, and leaves
-- a valid state.
-- With `fixed` the scope gets no entry either, as in an expression; but an error may leave a null
-- pointer.
pub record Step (fixed : Bool) (s s' : State) : Type 0 where
  pub size_le : size s' ≤ size s
  pub clean : s'.is_error ≡ false → s.is_error ≡ false
  pub valid : IsValid s'
  pub grows : Grows (context s) (context s')
  pub fresh :
      fixed ≡ true
      → s'.is_error ≡ false
      → (k : Bytes) → lookup k s.scope ≡ none
      → lookup k s'.scope ≡ none

pub Step-refl : {b : Bool} {s : State} → IsValid s → Step b s s
Step-refl v = record {
  size_le = omega arith;
  clean = λ e. e;
  valid = v;
  grows = (λ k x h. h, λ k x h. h);
  fresh = λ _ _ k h. h;
}

pub Step-trans : {b : Bool} {s t u : State} → Step b s t → Step b t u → Step b s u
Step-trans p q = record {
  size_le = omega arith;
  clean = λ e. p.clean (q.clean e);
  valid = q.valid;
  grows = (λ k x h. q.grows.0 k x (p.grows.0 k x h), λ k x h. q.grows.1 k x (p.grows.1 k x h));
  fresh = λ x c k h. q.fresh x c k (p.fresh x (q.clean c) k h);
}

-- An error: the flag is set, so that nothing more is claimed of the tree.
pub Step-reported :
    {b : Bool} {s : State} (line : ℕ) (msg : Message) → IsValid s → Step b s (reported line msg s)
Step-reported line msg v = record {
  size_le = omega arith;
  clean = λ e. cc;
  valid = record { current = v.current; saved = v.saved; scope = v.scope; funcs = v.funcs };
  grows = (λ k x h. h, λ k x h. h);
  fresh = λ _ _ k h. h;
}

-- The outcome is within its fuel, each way with its own postcondition.
pub data Ensures {ℓ} {A : Type ℓ} (P : A → State → Type 0) (Q : State → Type 0)
    : Outcome A → Type ℓ where
  holds : {a : A} {s : State} → P a s → Ensures P Q (value a s)
  fails : {s : State} → Q s → Ensures P Q (null s)

-- From `s`: a step, whatever is returned, and `R` of the value and the state if there is one.
abbrev pub Returns {ℓ} : {A : Type ℓ} → Bool → State → (A → State → Type 0) → Outcome A → Type ℓ
Returns b s R = Ensures (λ a s'. Step b s s' × R a s') (Step b s)

module _ {ℓ} {A : Type ℓ} {b : Bool} where
  pub Returns-value :
      {R : A → State → Type 0} {s s' : State} (a : A)
      → Step b s s'
      → R a s'
      → Returns b s R (value a s')
  Returns-value a st r = holds (st, r)

  pub Returns-weaken :
      {R R' : A → State → Type 0} {s t : State} {o : Outcome A}
      → Step b s t
      → ((a : A) (s' : State) → Step b t s' → R a s' → R' a s')
      → Returns b t R o
      → Returns b s R' o
  Returns-weaken st k (holds {a} {s = s'} h) = holds (Step-trans st h.0, k a s' h.0 h.1)
  Returns-weaken st k (fails h) = fails (Step-trans st h)

  pub Returns-if :
      {R : A → State → Type 0} {s t : State} (test : Bool) (m n : M A)
      → (test ≡ true → Returns b s R (m t))
      → (test ≡ false → Returns b s R (n t))
      → Returns b s R ((if test then m else n) t)
  Returns-if true m n hm hn = hm refl
  Returns-if false m n hm hn = hn refl

  -- A NULL that the caller looks at.
  pub Returns-caught :
      {R : A → State → Type 0} {s : State} {o : Outcome A} (R' : Option A → State → Type 0)
      → ((a : A) (t : State) → Step b s t → R a t → R' (some a) t)
      → ((t : State) → Step b s t → R' none t)
      → Returns b s R o
      → Returns b s R' (caught o)
  unfolding caught
  Returns-caught R' k n (holds {a} {s = t} h) = holds (h.0, k a t h.0 h.1)
  Returns-caught R' k n (fails {s = t} h) = holds (h, n t h)

  pub Returns-rejected :
      {R : A → State → Type 0} {s : State} {o : Outcome A} (line : ℕ) (msg : Message)
      → Returns b s R o
      → Returns b s R (rejected o line msg)
  unfolding rejected
  Returns-rejected line msg (holds h) = holds h
  Returns-rejected line msg (fails h) = fails (Step-trans h (Step-reported line msg h.valid))

  pub Returns-reject :
      {R : A → State → Type 0} {s : State} (line : ℕ) (msg : Message)
      → IsValid s
      → Returns b s R (null (reported line msg s))
  Returns-reject line msg v = fails (Step-reported line msg v)

pub Returns-bind {ℓ κ} :
    {b : Bool} {A : Type ℓ} {B : Type κ} {R : A → State → Type 0} {R' : B → State → Type 0}
    {s : State} {o : Outcome A} {f : A → M B}
    → Returns b s R o
    → ((a : A) (t : State) → Step b s t → R a t → Returns b t R' (f a t))
    → Returns b s R' (bind o f)
Returns-bind (holds {a} {s = t} h) k = Returns-weaken h.0 (λ _ _ _ r. r) (k a t h.0 h.1)
Returns-bind (fails h) k = fails h

-- `next`: the token in hand is given up for the next one, and nothing is saved.
pub record Advanced (s : State) (t : Token) (s' : State) : Type 0 where
  pub is_current : s'.current ≡ t
  pub consumed : size s' + pending s.current ≤ size s
  pub no_saved : s'.lexer.saved ≡ no_token

pub Returns-next : {b : Bool} {s : State} → IsValid s → Returns b s (Advanced s) (next s)
unfolding next
Returns-next {s} v =
    let p = lex_progress s.lexer in
    Returns-value _
      (record {
        size_le = omega (arith, p.0, ap (λ t. pending t) p.1);
        clean = λ e. e;
        valid = record {
          current = lex-IsLexed s.lexer v.saved;
          saved = subst IsLexed (sym p.1) refl;
          scope = v.scope;
          funcs = v.funcs;
        };
        grows = (λ k x h. h, λ k x h. h);
        fresh = λ _ _ k h. h;
      })
      (record {
        is_current = refl;
        consumed = omega (arith, p.0, ap (λ t. pending t) p.1);
        no_saved = p.1;
      })

module _ {b : Bool} {s : State} (v : IsValid s) where
  -- `is` with its message.
  pub Returns-is_expected :
      (t : Token) (ty : TokenType)
      → Returns b s (λ ok s'. (ok ≡ is t ty) × (s'.current ≡ s.current)) (is_expected t ty s)
  unfolding is_expected
  Returns-is_expected t ty =
      if_intro (Returns b s (λ ok s'. (ok ≡ is t ty) × (s'.current ≡ s.current))) (is t ty)
        (λ e. Returns-value true (Step-refl v) (sym e, refl))
        (λ e.
          Returns-value false
            (record {
              size_le = omega arith;
              clean = λ q. q;
              valid = record {
                current = v.current;
                saved = v.saved;
                scope = v.scope;
                funcs = v.funcs;
              };
              grows = (λ k x h. h, λ k x h. h);
              fresh = λ _ _ k h. h;
            })
            (sym e, refl))

  pub Returns-require :
      (t : Token) (ty : TokenType)
      → Returns b s (λ _ s'. (is t ty ≡ true) × (s'.current ≡ s.current)) (require t ty s)
  unfolding require
  Returns-require t ty = Returns-bind (Returns-is_expected t ty) λ ok u st h.
      Returns-if ok _ _ (λ e. Returns-value tt (Step-refl st.valid) (sym h.0 ∙ e, h.1))
        (λ _. fails (Step-refl st.valid))

  -- Reading `scope[name]`: a variable is found and nothing changes, or the entry is null, perhaps a
  -- new one, and what follows reports an error.
  pub Returns-scope_at {ℓ} :
      {B : Type ℓ} {R : B → State → Type 0} (name : Bytes) (k : Option Var → M B)
      → ((x : Var)
          → lookup name s.scope ≡ some (some x)
          → x.name ≡ name
          → x.type ≢ TType.undefined
          → Returns b s R (k (some x) s))
      → ((u : State)
          → ((line : ℕ) (msg : Message) → Step b s (reported line msg u))
          → Returns b s R (k none u))
      → Returns b s R (bind (scope_at name s) k)
  unfolding scope_at subscript
  Returns-scope_at name k found missing = elim (Option-cases (pointer (lookup name s.scope))) [
    | inr (x, e) ↦
        let h = subscript-some name s.scope e in
        let named = v.scope name x h in
        rw (e, insert_present name none (some x) s.scope h) (found x h named.0 named.1)
    | inl e ↦ rw e (
        missing (record s { scope = insert name none s.scope })
          λ line msg. record {
            size_le = omega arith;
            clean = λ q. cc;
            valid = record {
              current = v.current;
              saved = v.saved;
              scope = λ k x h.
                  lookup-insert_ind
                    (λ p. (y : Var) → p ≡ some y → (y.name ≡ k) × (y.type ≢ TType.undefined)) name k
                    none (some x) s.scope (λ _ y q. absurd (cc))
                    (λ q y r. v.scope k y (q ∙ ap some r)) h x refl;
              funcs = v.funcs;
            };
            grows = (Extends-insert name none s.scope, λ k x h. h);
            fresh = λ _ c. absurd (cc);
          })
  ]

  pub Returns-funcs_at :
      (name : Bytes)
      → Returns b s
          (λ p s'.
            (s'.current ≡ s.current)
            × ((x : Header)
                → p ≡ some x
                → (lookup name s'.funcs ≡ some (some x)) × (x.type ≢ TType.undefined)))
          (funcs_at name s)
  unfolding funcs_at subscript
  Returns-funcs_at name =
      Returns-value _
        (record {
          size_le = omega arith;
          clean = λ q. q;
          valid = record {
            current = v.current;
            saved = v.saved;
            scope = v.scope;
            funcs = λ k x h.
                lookup-insert_ind (λ p. (y : Header) → p ≡ some y → y.type ≢ TType.undefined) name k
                  none (some x) s.funcs (λ _ y q. absurd (cc))
                  (λ q y r. v.funcs k y (q ∙ ap some r)) h x refl;
          };
          grows = (λ k x h. h, Extends-insert name none s.funcs);
          fresh = λ _ _ k h. h;
        })
        (
          refl,
          λ x p.
              let found = subscript-some name s.funcs p in
              (Extends-insert name none s.funcs name x found, v.funcs name x found),
        )

-- A look at the token behind the one in hand: the token is saved, and the state steps.
pub Returns-peek {ℓ} :
    {b : Bool} {B : Type ℓ} {R : B → State → Type 0} {s : State} (tmp : Token) (k : Token → M B)
    → IsValid s
    → s.current ≡ tmp
    → ((a : Token) (w : State) → Step b s w → w.current ≡ tmp → Returns b w R (k a w))
    → Returns b s R (bind (next s) (λ a. rewind a tmp >>= λ _. k a))
unfolding next rewind
Returns-peek {b} {s} tmp k v at rest =
    let p = lex_progress s.lexer in
    let a = (lex s.lexer).0 in
    let w : State = record s { lexer = record (lex s.lexer).1 { saved = a }; current = tmp } in
    let st : Step b s w = record {
      size_le = omega (arith, p.0, ap (λ t. pending t) at);
      clean = λ e. e;
      valid = record {
        current = subst IsLexed at v.current;
        saved = lex-IsLexed s.lexer v.saved;
        scope = v.scope;
        funcs = v.funcs;
      };
      grows = (λ k' x h. h, λ k' x h. h);
      fresh = λ _ _ j h. h;
    } in
    Returns-weaken st (λ _ _ _ r. r) (rest a w st refl)

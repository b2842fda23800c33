-- ===== src/Parser/Program/Sound.antt =====
-- The loop of `parse`: its fuel is enough, and the tree it returns is typed unless an error was
-- reported.
use pudl.Prelude.{
  ℕ, zero, suc, ◌+◌, ◌*◌, ◌≤◌, ◌<◌, ◌≡◌, refl, subst, Bool, false, Bytes, [], Option, none, some,
  arith,
}
use pudl.Prelude.Map.{Map, lookup, Extends}
use pudl.Token.{TokenType, Token}
use pudl.Ast.{FunctionDef, Root, vector, dummy}
use pudl.Lexer.Progress.{pending}
use pudl.Parser.State.{
  State, Header, Outcome, value, M, bind, caught, pure, ◌>>=◌, ◌>>◌, attempt, reported, error, next,
  initial, unexpected_token, Message,
}
use pudl.Parser.Typing.{TypedStmt-Grows}
use pudl.Parser.Ensures.{
  size, IsValid, Step, Step-refl, Step-reported, Ensures, holds, fails, Returns, Returns-next,
  Advanced,
}
use pudl.Parser.Program.Definition.{TypedDef, TypedRoot, ParsedDef, cleared, function_def-Returns}
use pudl.Parser.Program.{function_def, insert_def, parse_loop, parse_fuel, parse}

module _ (stof : Bytes → Option ℕ) where
  -- The step from the state before `scope.clear()`, as far as definitions see it.
  pub record TopStep (s t : State) : Type 0 where
    pub size_le : size t ≤ size s
    pub clean : t.is_error ≡ false → s.is_error ≡ false
    pub valid : IsValid t
    pub grows : Extends s.funcs t.funcs

  TopStep-trans : {s t u : State} → TopStep s t → TopStep t u → TopStep s u
  TopStep-trans p q = record {
    size_le = omega (arith, p.size_le, q.size_le);
    clean = λ e. p.clean (q.clean e);
    valid = q.valid;
    grows = λ k x h. q.grows k x (p.grows k x h);
  }

  of_Step : {b : Bool} {s t : State} → Step b s t → TopStep s t
  of_Step st = record {
    size_le = st.size_le;
    clean = st.clean;
    valid = st.valid;
    grows = st.grows.1;
  }

  of_cleared : {s t : State} → Step false (cleared s) t → TopStep s t
  of_cleared st = record {
    size_le = st.size_le;
    clean = st.clean;
    valid = st.valid;
    grows = st.grows.1;
  }

  TypedDef-Grows :
      {m n : Map (Option Header)} (d : FunctionDef) → Extends m n → TypedDef m d → TypedDef n d
  TypedDef-Grows d g t = record {
    scope = t.scope;
    body = TypedStmt-Grows ((λ k x h. h), g) t.body;
    args = t.args;
    type = t.type;
  }

  -- `parse` returns a tree, typed unless an error was reported.
  abbrev pub Parses : State → Outcome Root → Type 0
  Parses s = Ensures (λ r t. TopStep s t × (t.is_error ≡ false → TypedRoot t.funcs r)) (λ _. ⊥)

  Parses-weaken : {s t : State} {o : Outcome Root} → TopStep s t → Parses t o → Parses s o
  Parses-weaken st (holds h) = holds (TopStep-trans st h.0, h.1)
  Parses-weaken st (fails h) = absurd h

  insert-TypedRoot :
      {m : Map (Option Header)} (d : FunctionDef) (r : Root)
      → TypedDef m d
      → TypedRoot m r
      → TypedRoot m (insert_def stof d r)
  insert-TypedRoot d (vector defs) t h = (t, h)
  insert-TypedRoot d dummy t h = tt

  -- The FUNC case of the loop, given that the loop is right behind the definition.
  after_def :
      {s : State} {o : Outcome FunctionDef} (f : ℕ)
      → Returns false (cleared s) (ParsedDef (size s)) o
      → ((t : State) → IsValid t → size t < size s → Parses t (parse_loop stof f t))
      → Parses s (
          bind (caught o) (elim [
            | none ↦ pure dummy
            | some d ↦ do root ← parse_loop stof f; pure (insert_def stof d root)
          ]))
  unfolding caught
  after_def f (fails h) more = holds (of_cleared h, λ _. tt)
  after_def {s} f (holds {a = d} {s = t} h) more =
      with_root (of_cleared h.0) (more t h.0.valid h.1.0)
    where
      with_root :
          {p : Outcome Root}
          → TopStep s t
          → Parses t p
          → Parses s (bind p (λ root. pure (insert_def stof d root)))
      with_root st (holds {a = r} {s = u} g) = holds (
        TopStep-trans st g.0,
        λ c. insert-TypedRoot d r (TypedDef-Grows d g.0.grows (h.1.1 (g.0.clean c))) (g.1 c),
      )
      with_root st (fails g) = absurd g

  pub Parses-next :
      {s : State} (k : Token → State → Outcome Root)
      → IsValid s
      → ((a : Token) (t : State) → Step false s t → Advanced s a t → Parses t (k a t))
      → Parses s (bind (next s) k)
  unfolding next
  Parses-next {s} k v rest = from_value (Returns-next v)
    where
      from_value :
          {a : Token} {t : State} → Returns false s (Advanced s) (value a t) → Parses s (k a t)
      from_value (holds {a} {s = t} h) = Parses-weaken (of_Step h.0) (rest a t h.0 h.1)

  -- A token that begins no definition is reported and skipped.
  skip_token :
      {s : State} (f : ℕ) (line : ℕ) (msg : Message)
      → IsValid s
      → pending s.current ≡ 1
      → ((t : State) → IsValid t → size t < size s → Parses t (parse_loop stof f t))
      → Parses s (bind (next (reported line msg s)) (λ _. parse_loop stof f))
  skip_token {s = s} f line msg v one again =
      let st : Step false s (reported line msg s) = Step-reported line msg v in
      Parses-weaken (of_Step st) (
        Parses-next (λ _. parse_loop stof f) st.valid
          λ _ t sn adv. again t sn.valid (omega (arith, adv.consumed, one)))

  clear-IsValid : {s : State} → IsValid s → IsValid (cleared s)
  unfolding lookup
  clear-IsValid v = record {
    current = v.current;
    saved = v.saved;
    scope = λ k x h. absurd (cc);
    funcs = v.funcs;
  }

  pub parse_loop-Parses :
      (f : ℕ) (s : State) → IsValid s → 16 * size s + 15 < f → Parses s (parse_loop stof f s)
  unfolding parse_loop error
  parse_loop-Parses zero s v h = absurd (omega arith)
  parse_loop-Parses (suc f) s v h =
      let again : (t : State) → IsValid t → size t < size s → Parses t (parse_loop stof f t) =
        λ t w lt. parse_loop-Parses f t w (omega arith) in
      let t = s.current in
      let cases : (ty : TokenType)
          → t.type ≡ ty
          → Parses s (
              (elim ty as (λ _. M Root) [
                | TokenType.error_token ↦ pure dummy
                | TokenType.eof_token ↦ pure (vector [])
                | TokenType.func ↦ do
                  def ← attempt (function_def stof f)
                  elim def [
                    | none ↦ pure dummy
                    | some d ↦ do root ← parse_loop stof f; pure (insert_def stof d root)
                  ]
                | _ ↦ do error t.line (unexpected_token t.lexeme); _ ← next; parse_loop stof f
              ])
                s) =
        elim [
          | TokenType.error_token ↦ λ e. holds (of_Step {b = false} (Step-refl v), λ _. tt)
          | TokenType.eof_token ↦ λ e. holds (of_Step {b = false} (Step-refl v), λ _. tt)
          | TokenType.func ↦ λ e.
              after_def f (function_def-Returns stof f s (clear-IsValid v) (rw e) (omega arith))
                again
          | _ ↦ λ e. skip_token f t.line (unexpected_token t.lexeme) v (rw e) again
        ] in
      cases t.type refl

-- What a run of `parse` leaves.
abbrev Parsed : Root → State → Type 0
Parsed r s = IsValid s × (s.is_error ≡ false → TypedRoot s.funcs r)

initial-IsValid : (file : Bytes) → IsValid (initial file)
unfolding lookup
initial-IsValid file = record {
  current = refl;
  saved = refl;
  scope = λ k x h. absurd (cc);
  funcs = λ k x h. absurd (cc);
}

parse-Parsed : (stof : Bytes → Option ℕ) (file : Bytes) → Ensures Parsed (λ _. ⊥) (parse stof file)
unfolding parse
parse-Parsed stof file = parsed (
    Parses-next stof (λ _. parse_loop stof (parse_fuel stof file)) (initial-IsValid file)
      λ _ t st _.
        parse_loop-Parses stof (parse_fuel stof file) t st.valid (omega (arith, st.size_le)))
  where
    parsed : {s : State} {o : Outcome Root} → Parses stof s o → Ensures Parsed (λ _. ⊥) o
    parsed (holds h) = holds (h.0.valid, h.1)
    parsed (fails h) = fails h

-- For every file, `parse` returns a tree: no loop of the parser or of the lexer runs forever, and the
-- fuel of the model, which is linear in the length of the file, is never used up.
pub parse_total :
    (stof : Bytes → Option ℕ) (file : Bytes)
    → (r : Root) × (s : State) × (parse stof file ≡ value r s)
parse_total stof file = returned (parse-Parsed stof file)
  where
    returned :
        {o : Outcome Root} → Ensures Parsed (λ _. ⊥) o → (r : Root) × (s : State) × (o ≡ value r s)
    returned (holds {a = r} {s} h) = (r, s, refl)
    returned (fails h) = absurd h

-- If `parse` returns a tree and no error was reported, then the tree is well typed: every function has
-- a type and typed arguments, and its body follows the typing rules over one scope and over the
-- functions that the parser knows at the end.
pub parse-TypedRoot :
    (stof : Bytes → Option ℕ) (file : Bytes) (r : Root) (s : State)
    → parse stof file ≡ value r s
    → s.is_error ≡ false
    → TypedRoot s.funcs r
parse-TypedRoot stof file r s e clean =
    (at (subst (Ensures Parsed (λ _. ⊥)) e (parse-Parsed stof file))).1 clean
  where
    at : {r : Root} {s : State} → Ensures Parsed (λ _. ⊥) (value r s) → Parsed r s
    at (holds h) = h

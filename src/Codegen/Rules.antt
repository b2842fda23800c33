-- ===== src/Codegen/Rules.antt =====
-- Rules for the operations of `State`: the operands, the errors, the scopes and the functions.
use pudl.Prelude.{
  ℕ, ◌≡◌, refl, sym, ap, ◌∙◌, subst, Bool, true, false, List, ◌∷◌, Bytes, Option, none, some,
  if_intro,
}
use pudl.Prelude.Map.{lookup, subscript, pointer, subscript-some, lookup-insert_ind, Extends-insert}
use pudl.Ast.{FunctionDef}
use pudl.Codegen.Calls.{Call, Value}
use pudl.Codegen.State.{
  Codegen, G, bind, ◌>>=◌, if_success, gen_error, GenError, push_operand, top_operand, drop_operand,
  pop_operand, pure, top_of, without_top, deref, funcs_entry, ast_funcs_entry, current_definition,
  current_function,
}
use pudl.Codegen.Ensures.{holds, IsInside, Step, Step-refl, Runs, Runs-from, quiet-Step}

abbrev pub Unit0 : Type 0
Unit0 = Unit {0}

abbrev pub with_operands : List Value → Codegen → Codegen
with_operands vs s = record s { operands = vs }

module _ {terminated : List Call → Bool} where
  pub operands-Step :
      {k : ℕ} {s : Codegen} (vs : List Value)
      → IsInside terminated k s
      → Step terminated k s (with_operands vs s)
  operands-Step {s} vs i =
      quiet-Step (with_operands vs s) i refl (λ e. e) refl i.scoped refl i.sound.paired

  pub Runs-value :
      {A : Type 0} {P : A → Codegen → Type 0} {k : ℕ} {s : Codegen} (a : A)
      → IsInside terminated k s
      → P a s
      → Runs terminated k s P (some (a, s))
  Runs-value a i p = holds (Step-refl i, p)

  pub Runs-push :
      {k : ℕ} {s : Codegen} {P : Unit0 → Codegen → Type 0} (v : Value)
      → IsInside terminated k s
      → P tt (with_operands (v ∷ s.operands) s)
      → Runs terminated k s P (push_operand v s)
  unfolding push_operand
  Runs-push {s} v i p = holds (operands-Step (v ∷ s.operands) i, p)

  pub Runs-error :
      {k : ℕ} {s : Codegen} {P : Unit0 → Codegen → Type 0} (e : GenError)
      → IsInside terminated k s
      → ((t : Codegen) → t.is_success ≡ false → P tt t)
      → Runs terminated k s P (gen_error e s)
  unfolding gen_error
  Runs-error {s} e i p =
      holds (quiet-Step _ i refl (λ c. absurd (cc)) refl i.scoped refl i.sound.paired, p _ refl)

  pub Runs-if_success :
      {A : Type 0} {k : ℕ} {s : Codegen} {P : A → Codegen → Type 0} (a : A) (m : G A)
      → IsInside terminated k s
      → (s.is_success ≡ false → P a s)
      → (s.is_success ≡ true → Runs terminated k s P (m s))
      → Runs terminated k s P (if_success a m s)
  unfolding if_success
  Runs-if_success {k} {s} {P} a m i failed go =
      if_intro (Runs terminated k s P) s.is_success go (λ e. Runs-value a i (failed e))

  module _ {B : Type 0} {k : ℕ} {s : Codegen} {Q : B → Codegen → Type 0} where
    -- The outcome of the first part is known.
    pub Runs-known :
        {A : Type 0} {o p : Option (A × Codegen)} (f : A → G B)
        → o ≡ p
        → Runs terminated k s Q (bind p f)
        → Runs terminated k s Q (bind o f)
    Runs-known f e h = subst (λ o. Runs terminated k s Q (bind o f)) (sym e) h

    pub Runs-top :
        (v : Value) (vs : List Value) (f : Value → G B)
        → s.operands ≡ v ∷ vs
        → Runs terminated k s Q (f v s)
        → Runs terminated k s Q (bind (top_operand s) f)
    unfolding top_operand
    Runs-top v vs f e rest = Runs-known f (ap (λ os. top_of os s) e) rest

    pub Runs-drop :
        (v : Value) (vs : List Value) (f : Unit0 → G B)
        → IsInside terminated k s
        → s.operands ≡ v ∷ vs
        → (IsInside terminated k (with_operands vs s)
            → Runs terminated k (with_operands vs s) Q (f tt (with_operands vs s)))
        → Runs terminated k s Q (bind (drop_operand s) f)
    unfolding drop_operand
    Runs-drop v vs f i e rest =
        let st = operands-Step vs i in
        Runs-known f (ap (λ os. without_top os s) e) (Runs-from st (rest st.inside))

    pub Runs-pop :
        (v : Value) (vs : List Value) (f : Value → G B)
        → IsInside terminated k s
        → s.operands ≡ v ∷ vs
        → (IsInside terminated k (with_operands vs s)
            → Runs terminated k (with_operands vs s) Q (f v (with_operands vs s)))
        → Runs terminated k s Q (bind (pop_operand s) f)
    unfolding top_operand drop_operand
    Runs-pop v vs f i e rest =
        let st = operands-Step vs i in
        Runs-known f
          (ap (λ os. bind (top_of os s) (λ v'. drop_operand >>= λ _. pure v')) e
            ∙ ap (λ os. bind (without_top os s) (λ _. pure v)) e)
          (Runs-from st (rest st.inside))

    pub Runs-funcs_entry :
        (name : Bytes) (f : Option ℕ → G B)
        → IsInside terminated k s
        → ((o : Option ℕ) (t : Codegen)
            → ((n : ℕ) → o ≡ some n → (d : FunctionDef) × (lookup name t.ast_funcs ≡ some (some d)))
            → Step terminated k s t
            → t.operands ≡ s.operands
            → t.calls ≡ s.calls
            → t.is_success ≡ s.is_success
            → Runs terminated k t Q (f o t))
        → Runs terminated k s Q (bind (funcs_entry name s) f)
    unfolding funcs_entry subscript
    Runs-funcs_entry name f i rest =
        let o = (subscript name s.funcs).0 in
        let t : Codegen = record s { funcs = (subscript name s.funcs).1 } in
        let st : Step terminated k s t =
          quiet-Step t i refl (λ e. e) refl i.scoped refl
            λ j n h.
              lookup-insert_ind
                (λ p.
                  (n : ℕ) → p ≡ some n → (d : FunctionDef) × (lookup j s.ast_funcs ≡ some (some d)))
                name j none (some n) s.funcs (λ _ n q. absurd (cc))
                (λ q n' r. i.sound.paired j n' (q ∙ ap some r)) h n refl in
        Runs-from st (
          rest o t (λ n e. i.sound.paired name n (subscript-some name s.funcs e)) st refl refl refl)

    pub Runs-ast_funcs_entry :
        (name : Bytes) (f : Option FunctionDef → G B)
        → IsInside terminated k s
        → ((o : Option FunctionDef) (t : Codegen)
            → ((d : FunctionDef) → lookup name s.ast_funcs ≡ some (some d) → o ≡ some d)
            → Step terminated k s t
            → t.operands ≡ s.operands
            → t.calls ≡ s.calls
            → t.is_success ≡ s.is_success
            → Runs terminated k t Q (f o t))
        → Runs terminated k s Q (bind (ast_funcs_entry name s) f)
    unfolding ast_funcs_entry subscript pointer
    Runs-ast_funcs_entry name f i rest =
        let o = (subscript name s.ast_funcs).0 in
        let t : Codegen = record s { ast_funcs = (subscript name s.ast_funcs).1 } in
        let st : Step terminated k s t =
          quiet-Step t i refl (λ e. e) refl i.scoped refl
            λ j n h.
              let d = i.sound.paired j n h in
              (d.0, Extends-insert name none s.ast_funcs j d.0 d.1) in
        Runs-from st (rest o t (λ d e. ap pointer e) st refl refl refl)

    pub Runs-current_function :
        (f : Option ℕ → G B)
        → IsInside terminated k s
        → ((o : Option ℕ) (t : Codegen)
            → Step terminated k s t
            → t.operands ≡ s.operands
            → t.calls ≡ s.calls
            → t.is_success ≡ s.is_success
            → Runs terminated k t Q (f o t))
        → Runs terminated k s Q (bind (current_function s) f)
    unfolding current_function current_definition
    Runs-current_function f i rest =
        Runs-known f (ap (λ c. bind (deref c s) (λ d. funcs_entry d.name)) i.defined.1)
          (Runs-funcs_entry i.defined.0.name f i λ o t _ st. rest o t st)

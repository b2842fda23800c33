-- ===== src/Codegen/Expression/Safe.antt =====
-- The visitors of expressions push one operand and leave the block open, if their parts do.
use pudl.Prelude.{
  ℕ, ◌≡◌, refl, ap, ◌∙◌, ◌||◌, Bool, true, false, List, ◌∷◌, length, Option, none, some,
  if◌then◌else◌,
}
use pudl.Codegen.ScopeStack.{lookup_in}
use pudl.Ast.{TType, OperatorKind, Var, is_float}
use pudl.Ast.Operator.{is_unary}
use pudl.Codegen.Calls.{
  Call, LlvmType, Opcode, UnaryOpcode, Value, create_load, create_binary, create_cast, create_unary,
}
use pudl.Codegen.State.{
  pure, ◌>>=◌, Codegen, G, emit, push_operand, gen_error, no_variable, unknown, find_local,
  cast_value, llvm_type,
}
use pudl.Codegen.Ensures.{TerminatorLaws, holds, IsInside, Runs, Runs-bind, after-Step}
use pudl.Codegen.Rules.{Unit0, Runs-value, Runs-push, Runs-error, Runs-if_success, Runs-pop}
use pudl.Codegen.Visits.{
  Pushed, Kept, Operand, inner-IsInside, Runs-visit, Runs-branch, Runs-instruction,
}
use pudl.Codegen.Expression.{
  visit_unary, load_from, visit_var, create_op, two_operands, push_result, negate, unary_arithmetic,
  unary_not,
}

module _ (terminated : List Call → Bool) (laws : TerminatorLaws terminated) where
  create_op-Runs :
      {k : ℕ} {s : Codegen} (op : Option Opcode) (l r : Value)
      → IsInside terminated k s
      → terminated s.calls ≡ false
      → Runs terminated k s (λ _ t. Kept terminated s t) (create_op op l r s)
  unfolding emit
  create_op-Runs none l r i live = Runs-value none i (λ _. (refl, live))
  create_op-Runs {s} (some op) l r i live =
      let c = create_binary op l r in
      holds (after-Step c i live refl, λ _. (refl, laws.stays c s.calls refl refl ∙ live))

  combine-Runs :
      {k : ℕ} {s : Codegen} (b : Bool) (float_op int_op : Option Opcode) (l r : Value)
      → IsInside terminated k s
      → terminated s.calls ≡ false
      → Runs terminated k s
          (λ _ t. Kept terminated s t)
          ((if b
              then (do
                l' ← cast_value l TType.float
                r' ← cast_value r TType.float
                create_op float_op l' r')
              else create_op int_op l r)
            s)
  unfolding emit
  combine-Runs false float_op int_op l r i live = create_op-Runs int_op l r i live
  combine-Runs true float_op int_op l r i live =
      Runs-instruction laws (create_cast l LlvmType.float) live refl refl i live λ j live'.
        Runs-instruction laws (create_cast r LlvmType.float) live' refl refl j live'
          λ j' live''. create_op-Runs float_op _ _ j' live''

  pub two_operands-Runs :
      {k : ℕ} {s : Codegen} (opcode : Bool → OperatorKind → Option Opcode) (op : OperatorKind)
      (lt rt : TType) {lhs rhs : G Unit0}
      → Operand terminated lhs
      → Operand terminated rhs
      → IsInside terminated k s
      → terminated s.calls ≡ false
      → Runs terminated k s (λ _ t. Kept terminated s t) (two_operands opcode op lt rt lhs rhs s)
  unfolding two_operands
  two_operands-Runs {s} opcode op lt rt hl hr i live =
      Runs-visit _ i (hl s (inner-IsInside i) live) λ _ t st _ p.
        Runs-if_success none _ st.inside (λ e c. absurd (cc))
          λ c.
            let q = p c in
            Runs-visit _ st.inside (hr t (inner-IsInside st.inside) q.2) λ _ u su _ p'.
              Runs-if_success none _ su.inside (λ e c. absurd (cc))
                λ c'.
                  let q' = p' c' in
                  Runs-pop q'.0 (q.0 ∷ s.operands) _ su.inside (q'.1 ∙ ap (λ os. q'.0 ∷ os) q.1)
                    λ j. Runs-pop q.0 s.operands _ j refl λ j'.
                      combine-Runs (is_float lt || is_float rt) (opcode true op) (opcode false op)
                        q.0 q'.0 j' q'.2

  pub push_result-Runs :
      {k : ℕ} {s : Codegen} (vs : List Value) (o : Option Value)
      → IsInside terminated k s
      → (s.is_success ≡ true → (s.operands ≡ vs) × (terminated s.calls ≡ false))
      → Runs terminated k s
          (λ _ t.
            t.is_success ≡ true
            → (v : Value) × (t.operands ≡ v ∷ vs) × (terminated t.calls ≡ false))
          (push_result o s)
  unfolding push_result
  push_result-Runs {s} vs none i h =
      Runs-branch s.is_success (gen_error unknown) (pure tt)
        (λ _. Runs-error unknown i λ t e c. absurd (cc)) (λ e. Runs-value tt i λ c. absurd (cc))
  push_result-Runs vs (some v) i h = Runs-push v i λ c. (v, ap (λ os. v ∷ os) (h c).0, (h c).1)

  load_from-Runs :
      {k : ℕ} {s : Codegen} (o : Option Value) (v : Var)
      → IsInside terminated k s
      → terminated s.calls ≡ false
      → Runs terminated k s (λ _ t. Pushed terminated s t) (load_from o v s)
  unfolding emit
  load_from-Runs none v i live = Runs-error (no_variable v.name) i λ t f c. absurd (cc)
  load_from-Runs {s = s} (some p) v i live =
      Runs-instruction laws (create_load (llvm_type v.type) p v.name) live refl refl i live
        λ j live'. Runs-push (Value.returned (length s.calls)) j λ _. (_, refl, live')

  pub visit_var-Operand : (v : Var) → Operand terminated (visit_var v)
  unfolding visit_var find_local
  visit_var-Operand v s i live = load_from-Runs (lookup_in v.name s.scopes) v i live

  pub constant-Operand : (v : Value) → Operand terminated (push_operand v)
  constant-Operand v s i live = Runs-push v i λ _. (v, refl, live)

  negate-Runs :
      {k : ℕ} {s : Codegen} (ty : TType) (v : Value)
      → IsInside terminated k s
      → terminated s.calls ≡ false
      → Runs terminated k s (λ _ t. Kept terminated s t) (negate ty v s)
  unfolding emit
  negate-Runs TType.float v i live =
      Runs-instruction laws (create_unary UnaryOpcode.f_neg v) live refl refl i live
        λ j live'. Runs-value _ j λ _. (refl, live')
  negate-Runs TType.integer v i live =
      Runs-instruction laws (create_unary UnaryOpcode.neg v) live refl refl i live
        λ j live'. Runs-value _ j λ _. (refl, live')
  negate-Runs TType.bool v i live = Runs-value none i λ _. (refl, live)
  negate-Runs TType.undefined v i live = Runs-value none i λ _. (refl, live)

  module _ {m : G Unit0} (operand : Operand terminated m) where
    unary_arithmetic-Runs :
        {k : ℕ} {s : Codegen} (ty : TType)
        → IsInside terminated k s
        → terminated s.calls ≡ false
        → Runs terminated k s (λ _ t. Kept terminated s t) (unary_arithmetic ty m s)
    unfolding unary_arithmetic
    unary_arithmetic-Runs {s = s} ty i live =
        Runs-visit _ i (operand s (inner-IsInside i) live) λ _ t st _ p.
          Runs-if_success none _ st.inside (λ e c. absurd (cc))
            λ c.
              let q = p c in Runs-pop q.0 s.operands _ st.inside q.1 λ j. negate-Runs ty q.0 j q.2

    unary_not-Runs :
        {k : ℕ} {s : Codegen}
        → IsInside terminated k s
        → terminated s.calls ≡ false
        → Runs terminated k s (λ _ t. Kept terminated s t) (unary_not m s)
    unfolding unary_not emit
    unary_not-Runs {s = s} i live = Runs-visit _ i (operand s (inner-IsInside i) live) λ _ t st _ p.
        Runs-if_success none _ st.inside (λ e c. absurd (cc))
          λ c.
            let q = p c in
            Runs-pop q.0 s.operands _ st.inside q.1 λ j.
              Runs-instruction laws (create_unary UnaryOpcode.not_op q.0) q.2 refl refl j q.2
                λ j' live'. Runs-value _ j' λ _. (refl, live')

    pub visit_unary-Operand :
        (op : OperatorKind) (ty : TType)
        → is_unary op ≡ true
        → Operand terminated (visit_unary op ty m)
    unfolding visit_unary
    visit_unary-Operand OperatorKind.neg ty h s i live =
        Runs-bind push_result (unary_arithmetic-Runs ty i live)
          λ o t st p. push_result-Runs s.operands o st.inside p
    visit_unary-Operand OperatorKind.not_op ty h s i live =
        Runs-bind push_result (unary_not-Runs i live)
          λ o t st p. push_result-Runs s.operands o st.inside p
    visit_unary-Operand OperatorKind.pos ty h s i live = operand s i live
    visit_unary-Operand OperatorKind.add ty h s i live = absurd (cc)
    visit_unary-Operand _ ty h s i live = absurd (cc)

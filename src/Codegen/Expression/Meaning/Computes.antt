-- ===== src/Codegen/Expression/Meaning/Computes.antt =====
-- The visitors of expressions generate code that computes the value of the expression.
use pudl.Prelude.{
  ◌≡◌, refl, sym, ap, ◌∙◌, subst, ◌||◌, Bool, true, false, List, ◌∷◌, length, Option, none, some,
  if◌then◌else◌, if_intro, arith,
}
use pudl.Ast.{TType, OperatorKind, Expr, type_of, is_float}
use pudl.Codegen.Calls.{
  Call, LlvmType, Opcode, UnaryOpcode, Value, create_binary, create_unary, create_cast,
}
use pudl.Codegen.ScopeStack.{Scopes, lookup_in}
use pudl.Codegen.State.{
  emit_value, pop_operand, cast_value, Codegen, G, bind, ◌>>=◌, pure, if_success, emit,
  push_operand, top_operand, drop_operand,
}
use pudl.Codegen.Rules.{Unit0}
use pudl.Codegen.Expression.{
  create_op, OperatorGroup, group_of, arithmetic_opcode, relation_opcode, two_operands, push_result,
  visit_group, visit_binary, unary_arithmetic, unary_not, visit_unary, visit_expr,
}
use pudl.Codegen.Expression.Meaning.{
  Machine, operator_of, on_floats, is_sound, value_in, widened, Means,
}
use pudl.Codegen.Expression.Meaning.Values.{
  IsKnown, Keeps, Keeps-call, Keeps-trans, latest, with_code, Computes, visit_var-Computes,
  create-Computes, computes,
}

-- The instruction of an operator.
abbrev Entry : (Bool → OperatorKind → Option Opcode) → Bool → OperatorKind → Type 0
Entry table f op =
    (o : Opcode) × (table f op ≡ some o) × (on_floats o ≡ f) × (operator_of o ≡ some op)

arithmetic-Entry :
    (f : Bool) (op : OperatorKind) (l r : TType)
    → group_of op ≡ OperatorGroup.arithmetic_group
    → (is_float l || is_float r) ≡ f
    → is_sound op l r ≡ true
    → Entry arithmetic_opcode f op
arithmetic-Entry true OperatorKind.add l r h e ok = (Opcode.f_add, refl, refl, refl)
arithmetic-Entry true OperatorKind.sub l r h e ok = (Opcode.f_sub, refl, refl, refl)
arithmetic-Entry true OperatorKind.mul l r h e ok = (Opcode.f_mul, refl, refl, refl)
arithmetic-Entry true OperatorKind.div l r h e ok = (Opcode.f_div, refl, refl, refl)
arithmetic-Entry false OperatorKind.add l r h e ok = (Opcode.i_add, refl, refl, refl)
arithmetic-Entry false OperatorKind.sub l r h e ok = (Opcode.i_sub, refl, refl, refl)
arithmetic-Entry false OperatorKind.mul l r h e ok = (Opcode.i_mul, refl, refl, refl)
arithmetic-Entry false OperatorKind.div l r h e ok = absurd (ground arith)
arithmetic-Entry _ _ l r h e ok = absurd (cc)

relation-Entry :
    (f : Bool) (op : OperatorKind)
    → group_of op ≡ OperatorGroup.relation_group
    → Entry relation_opcode f op
relation-Entry true OperatorKind.eq h = (Opcode.fcmp_oeq, refl, refl, refl)
relation-Entry true OperatorKind.ne h = (Opcode.fcmp_one, refl, refl, refl)
relation-Entry true OperatorKind.gt h = (Opcode.fcmp_ogt, refl, refl, refl)
relation-Entry true OperatorKind.lt h = (Opcode.fcmp_olt, refl, refl, refl)
relation-Entry true OperatorKind.ge h = (Opcode.fcmp_oge, refl, refl, refl)
relation-Entry true OperatorKind.le h = (Opcode.fcmp_ole, refl, refl, refl)
relation-Entry false OperatorKind.eq h = (Opcode.icmp_eq, refl, refl, refl)
relation-Entry false OperatorKind.ne h = (Opcode.icmp_ne, refl, refl, refl)
relation-Entry false OperatorKind.gt h = (Opcode.icmp_sgt, refl, refl, refl)
relation-Entry false OperatorKind.lt h = (Opcode.icmp_slt, refl, refl, refl)
relation-Entry false OperatorKind.ge h = (Opcode.icmp_sge, refl, refl, refl)
relation-Entry false OperatorKind.le h = (Opcode.icmp_sle, refl, refl, refl)
relation-Entry _ _ h = absurd (cc)

module _ (m : Machine) where
  -- The operands `x` and `y` of an operator are on the stack.
  abbrev combine : (Bool → OperatorKind → Option Opcode) → OperatorKind → Bool → G (Option Value)
  combine table op f = do
    r ← pop_operand
    l ← pop_operand
    if f
        then (do
          l' ← cast_value l TType.float
          r' ← cast_value r TType.float
          create_op (table true op) l' r')
        else create_op (table false op) l r

  module _ (operation : Bool → OperatorKind → m.V → m.V → m.V)
      (documented : (o : Opcode) (op : OperatorKind)
        → operator_of o ≡ some op
        → (x y : m.V) → m.opcode o x y ≡ operation (on_floats o) op x y) where
    combine-Computes :
        {s : Codegen} {a b : m.V} (table : Bool → OperatorKind → Option Opcode) (op : OperatorKind)
        (f : Bool) (o : Opcode) (cs : List Call) (x y : Value)
        → table f op ≡ some o
        → on_floats o ≡ f
        → operator_of o ≡ some op
        → Keeps m s.calls cs
        → IsKnown cs x
        → IsKnown cs y
        → value_in m cs x ≡ a
        → value_in m cs y ≡ b
        → Computes m s
            (operation f op (widened m operation f a) (widened m operation f b))
            (bind (combine table op f (with_code m cs (y ∷ x ∷ s.operands) s)) push_result)
    unfolding top_operand drop_operand push_result push_operand emit
    combine-Computes {s} {a} {b} table op false o cs x y e ef eo k hx hy ex ey =
        subst
          (λ i.
            Computes m s (operation false op a b)
              (bind (create_op i x y (with_code m cs s.operands s)) push_result))
          (sym e)
          (create-Computes m cs (create_binary o x y) k
            (documented o op eo (value_in m cs x) (value_in m cs y) ∙ rw (ef, ex, ey) refl))
    combine-Computes {s} {a} {b} table op true o cs x y e ef eo k hx hy ex ey =
        let c = create_cast x LlvmType.float in
        let d = create_cast y LlvmType.float in
        let cs1 = c ∷ cs in
        let cs2 = d ∷ cs1 in
        let x' = Value.returned (length cs) in
        let y' = Value.returned (length cs1) in
        let k1 = Keeps-call m c cs in
        let k2 = Keeps-call m d cs1 in
        let xv : value_in m cs2 x' ≡ m.cast a LlvmType.float =
          (k2 x' (omega arith)).1 ∙ latest m c cs ∙ ap (λ v. m.cast v LlvmType.float) ex in
        let yv : value_in m cs2 y' ≡ m.cast b LlvmType.float =
          latest m d cs1 ∙ ap (λ v. m.cast v LlvmType.float) ((k1 y hy).1 ∙ ey) in
        subst
          (λ i.
            Computes m s (operation true op (m.cast a LlvmType.float) (m.cast b LlvmType.float))
              (bind (create_op i x' y' (with_code m cs2 s.operands s)) push_result))
          (sym e)
          (create-Computes m cs2 (create_binary o x' y')
            (Keeps-trans m s.calls cs1 cs2 (Keeps-trans m s.calls cs cs1 k k1) k2)
            (documented o op eo (value_in m cs2 x') (value_in m cs2 y') ∙ rw (ef, xv, yv) refl))

    -- The visitor of an operand, in any state with the same variables.
    abbrev Visits : Codegen → m.V → G Unit0 → Type 0
    Visits s a v =
        (cs : List Call) (vs : List Value)
        → Computes m (with_code m cs vs s) a (v (with_code m cs vs s))

    two-Computes :
        {s : Codegen} {a b : m.V} (table : Bool → OperatorKind → Option Opcode) (op : OperatorKind)
        (lt rt : TType) (f : Bool) (l r : G Unit0)
        → s.is_success ≡ true
        → (is_float lt || is_float rt) ≡ f
        → Entry table f op
        → Visits s a l
        → Visits s b r
        → Computes m s
            (operation f op (widened m operation f a) (widened m operation f b))
            (bind (two_operands table op lt rt l r s) push_result)
    unfolding two_operands if_success
    two-Computes {s} {a} {b} table op lt rt f l r success ef entry hl hr =
        subst
          (λ g. Computes m s result (
            bind (bind (l s) (λ _ t. if t.is_success then rest g t else some (none, t)))
              push_result))
          (sym ef) (left (hl s.calls s.operands))
      where
        result : m.V
        result = operation f op (widened m operation f a) (widened m operation f b)

        rest : Bool → G (Option Value)
        rest g t = bind (r t) (λ _ u. if u.is_success then combine table op g u else some (none, u))

        right :
            {o : Option (Unit0 × Codegen)} (cs : List Call) (x : Value)
            → Keeps m s.calls cs
            → IsKnown cs x
            → value_in m cs x ≡ a
            → Computes m (with_code m cs (x ∷ s.operands) s) b o
            → Computes m s result (
                bind
                  (bind o (λ _ u. if u.is_success then combine table op f u else some (none, u)))
                  push_result)
        right cs x k h e (computes ds y q hy ey) =
            if_intro
              (λ (o : Option (Option Value × Codegen)). Computes m s result (bind o push_result))
              s.is_success
              (λ _.
                combine-Computes table op f entry.0 ds x y entry.1 entry.2 entry.3
                  (Keeps-trans m s.calls cs ds k q) ((q x h).0) hy ((q x h).1 ∙ e) ey)
              (λ n. absurd (cc))

        left :
            {o : Option (Unit0 × Codegen)}
            → Computes m s a o
            → Computes m s result (
                bind
                  (bind o (λ _ t. if t.is_success then rest f t else some (none, t)))
                  push_result)
        left (computes cs x k h e) =
            if_intro
              (λ (o : Option (Option Value × Codegen)). Computes m s result (bind o push_result))
              s.is_success (λ _. right cs x k h e (hr cs (x ∷ s.operands))) (λ n. absurd (cc))

    -- An instruction on one operand.
    one-Computes :
        {s : Codegen} {a : m.V} {o : Option (Unit0 × Codegen)} (i : UnaryOpcode)
        → s.is_success ≡ true
        → Computes m s a o
        → Computes m s (m.unary i a) (
            bind
              (bind o (λ _ t.
                if t.is_success
                then (do v ← pop_operand; r ← emit_value (create_unary i v); pure (some r)) t
                else some (none, t)))
              push_result)
    unfolding top_operand drop_operand push_result push_operand emit
    one-Computes {s} {a} i success (computes cs x k h e) =
        if_intro
          (λ (o : Option (Option Value × Codegen)). Computes m s (m.unary i a) (bind o push_result))
          s.is_success (λ _. create-Computes m cs (create_unary i x) k (ap (m.unary i) e))
          (λ n. absurd (cc))

    constant-Computes :
        (s : Codegen) (x : Value)
        → IsKnown s.calls x
        → Computes m s (value_in m s.calls x) (push_operand x s)
    unfolding push_operand
    constant-Computes s x h = computes s.calls x (λ y k. (k, refl)) h refl

    typed_negation :
        {s : Codegen} {a : m.V} (ty ty' : TType) (i : UnaryOpcode) (v : G Unit0)
        → ty' ≡ ty
        → Computes m s (m.unary i a) (visit_unary OperatorKind.neg ty v s)
        → Computes m s (m.unary i a) (visit_unary OperatorKind.neg ty' v s)
    typed_negation {s} {a} ty ty' i v e h =
        subst (λ t. Computes m s (m.unary i a) (visit_unary OperatorKind.neg t v s)) (sym e) h

    grouped :
        {s : Codegen} {a : m.V} (op : OperatorKind) (g : OperatorGroup) (lt rt : TType)
        (l r : G Unit0)
        → group_of op ≡ g
        → Computes m s a (visit_group g op lt rt l r s)
        → Computes m s a (visit_binary op lt rt l r s)
    unfolding visit_binary
    grouped {s} {a} op g lt rt l r e h =
        subst (λ k. Computes m s a (visit_group k op lt rt l r s)) (sym e) h

    means-Computes :
        {scopes : Scopes Value} {e : Expr} {a : m.V}
        → Means m operation scopes e a
        → (s : Codegen) → s.scopes ≡ scopes
        → s.is_success ≡ true
        → Computes m s a (visit_expr e s)
    unfolding visit_expr visit_unary unary_arithmetic unary_not if_success
    means-Computes (Means.var v slot h) s q ok =
        visit_var-Computes m s v slot (ap (λ scopes. lookup_in v.name scopes) q ∙ h)
    means-Computes (Means.boolean b) s q ok = constant-Computes s (Value.constant_bool b) tt
    means-Computes (Means.integer_lit n) s q ok = constant-Computes s (Value.constant_int n) tt
    means-Computes (Means.float_lit x) s q ok = constant-Computes s (Value.constant_float x) tt
    means-Computes (Means.arithmetic {l} {r} ty op f g h k ml mr) s q ok =
        grouped op OperatorGroup.arithmetic_group (type_of l) (type_of r) (visit_expr l)
          (visit_expr r) g
          (two-Computes arithmetic_opcode op (type_of l) (type_of r) f (visit_expr l) (visit_expr r)
            ok h (arithmetic-Entry f op (type_of l) (type_of r) g h k)
            (λ cs vs. means-Computes ml (with_code m cs vs s) q ok)
            (λ cs vs. means-Computes mr (with_code m cs vs s) q ok))
    means-Computes (Means.relation {l} {r} ty op f g h k ml mr) s q ok =
        grouped op OperatorGroup.relation_group (type_of l) (type_of r) (visit_expr l)
          (visit_expr r) g
          (two-Computes relation_opcode op (type_of l) (type_of r) f (visit_expr l) (visit_expr r)
            ok h (relation-Entry f op g) (λ cs vs. means-Computes ml (with_code m cs vs s) q ok)
            (λ cs vs. means-Computes mr (with_code m cs vs s) q ok))
    means-Computes (Means.float_negation {e} h k) s q ok =
        typed_negation TType.float (type_of e) UnaryOpcode.f_neg (visit_expr e) h
          (one-Computes UnaryOpcode.f_neg ok (means-Computes k s q ok))
    means-Computes (Means.integer_negation {e} h k) s q ok =
        typed_negation TType.integer (type_of e) UnaryOpcode.neg (visit_expr e) h
          (one-Computes UnaryOpcode.neg ok (means-Computes k s q ok))
    means-Computes (Means.not_op b k) s q ok =
        one-Computes UnaryOpcode.not_op ok (means-Computes k s q ok)
    means-Computes (Means.plus b k) s q ok = means-Computes k s q ok

    -- For an expression without calls, `&&` and `||`: if each instruction of LLVM but the unsigned
    -- division does what its name says of the operator, the expression has a value in the variables
    -- that are in scope, and no error was met, then its visitor succeeds. It leaves one operand more
    -- on top, which in the calls so far stands for that value; the values of before stand for what
    -- they stood for, and all else but the calls stays as it was. No value is given to a division of
    -- two integers, nor to an operator that mixes numbers and Booleans.
    pub visit_expr-Computes :
        (s : Codegen) (e : Expr) (a : m.V)
        → s.is_success ≡ true
        → Means m operation s.scopes e a
        → Computes m s a (visit_expr e s)
    visit_expr-Computes s e a ok h = means-Computes h s refl ok

-- ===== src/Codegen/Expression/Accept.antt =====
-- `accept` of a typed expression: one operand more, or an error, and never undefined behaviour.
use pudl.Prelude.{
  ℕ, ◌≡◌, refl, ap, ◌∙◌, ◌==◌, ==_iff, Bool, true, false, List, [], ◌∷◌, Bytes, length, Option,
  none, some, arith,
}
use pudl.Ast.{TType, OperatorKind, Var, Expr, Args, FunctionDef, type_of}
use pudl.Ast.Operator.{is_unary}
use pudl.Parser.Typing.{
  Context, Typed, TypedArgs, is_arithmetic, is_relation, is_equality, is_logical, is_sign,
}
use pudl.Codegen.Calls.{Call, Value, create_call, create_cast}
use pudl.Codegen.State.{Codegen, G, ◌>>=◌, emit, undefined_function, wrong_arguments, llvm_type}
use pudl.Codegen.Ensures.{TerminatorLaws, IsInside, Runs, holds, Runs-bind}
use pudl.Codegen.Rules.{
  Unit0, Runs-value, Runs-push, Runs-error, Runs-if_success, Runs-pop, Runs-funcs_entry,
  Runs-ast_funcs_entry,
}
use pudl.Codegen.Visits.{Pushed, Operand, inner-IsInside, Runs-visit, Runs-branch, Runs-instruction}
use pudl.Codegen.Expression.{
  arithmetic_opcode, relation_opcode, OperatorGroup, group_of, visit_group, visit_binary,
  create_call_of, call_checked, visit_call, prepend, visit_arg, count_args, visit_expr, visit_args,
}
use pudl.Codegen.Expression.Safe.{
  two_operands-Runs, push_result-Runs, visit_var-Operand, constant-Operand, visit_unary-Operand,
}
use pudl.Codegen.Expression.ShortCircuit.{short_circuit-Runs}

-- The operators for which `visit(BinaryNode &)` generates something.
abbrev pub is_binary : OperatorGroup → Bool
is_binary OperatorGroup.no_group = false
is_binary _ = true

arithmetic-is_binary :
    (op : OperatorKind) → is_arithmetic op ≡ true → is_binary (group_of op) ≡ true
arithmetic-is_binary OperatorKind.add h = refl
arithmetic-is_binary OperatorKind.sub h = refl
arithmetic-is_binary OperatorKind.mul h = refl
arithmetic-is_binary OperatorKind.div h = refl
arithmetic-is_binary _ h = absurd (cc)

relation-is_binary : (op : OperatorKind) → is_relation op ≡ true → is_binary (group_of op) ≡ true
relation-is_binary OperatorKind.gt h = refl
relation-is_binary OperatorKind.lt h = refl
relation-is_binary OperatorKind.ge h = refl
relation-is_binary OperatorKind.le h = refl
relation-is_binary _ h = absurd (cc)

equality-is_binary : (op : OperatorKind) → is_equality op ≡ true → is_binary (group_of op) ≡ true
equality-is_binary OperatorKind.eq h = refl
equality-is_binary OperatorKind.ne h = refl
equality-is_binary _ h = absurd (cc)

logical-is_binary : (op : OperatorKind) → is_logical op ≡ true → is_binary (group_of op) ≡ true
logical-is_binary OperatorKind.and_op h = refl
logical-is_binary OperatorKind.or_op h = refl
logical-is_binary _ h = absurd (cc)

sign-is_unary : (op : OperatorKind) → is_sign op ≡ true → is_unary op ≡ true
sign-is_unary OperatorKind.pos h = refl
sign-is_unary OperatorKind.neg h = refl
sign-is_unary _ h = absurd (cc)

module _ (terminated : List Call → Bool) (laws : TerminatorLaws terminated) where
  -- All the arguments were visited, and the operands are those of before; or an error was reported.
  abbrev Collected : List Value → Option (List Value) → Codegen → Type 0
  Collected vs o t =
      ((ws : List Value) → o ≡ some ws → (t.operands ≡ vs) × (terminated t.calls ≡ false))
      × (o ≡ none → t.is_success ≡ false)

  abbrev AllArgs : G (Option (List Value)) → Type 0
  AllArgs m =
      (s : Codegen)
      → IsInside terminated (length s.calls) s
      → terminated s.calls ≡ false
      → Runs terminated (length s.calls) s (λ o t. Collected s.operands o t) (m s)

  module _ {lhs rhs : G Unit0} (hl : Operand terminated lhs) (hr : Operand terminated rhs) where
    visit_group-Operand :
        (g : OperatorGroup) (op : OperatorKind) (lt rt : TType)
        → is_binary g ≡ true
        → Operand terminated (visit_group g op lt rt lhs rhs)
    visit_group-Operand OperatorGroup.arithmetic_group op lt rt h s i live =
        Runs-bind _ (two_operands-Runs terminated laws arithmetic_opcode op lt rt hl hr i live)
          λ o t st p. push_result-Runs terminated laws s.operands o st.inside p
    visit_group-Operand OperatorGroup.relation_group op lt rt h s i live =
        Runs-bind _ (two_operands-Runs terminated laws relation_opcode op lt rt hl hr i live)
          λ o t st p. push_result-Runs terminated laws s.operands o st.inside p
    visit_group-Operand OperatorGroup.logical_group op lt rt h s i live =
        Runs-bind _ (short_circuit-Runs terminated laws hr op hl i live)
          λ o t st p. push_result-Runs terminated laws s.operands o st.inside p
    visit_group-Operand OperatorGroup.no_group op lt rt h s i live = absurd (cc)

    visit_binary-Operand :
        (op : OperatorKind) (lt rt : TType)
        → is_binary (group_of op) ≡ true
        → Operand terminated (visit_binary op lt rt lhs rhs)
    unfolding visit_binary
    visit_binary-Operand op lt rt h s i live = visit_group-Operand (group_of op) op lt rt h s i live

  create_call-Runs :
      {k : ℕ} {s : Codegen} (vs : List Value) (f : ℕ) (o : Option (List Value))
      → IsInside terminated k s
      → Collected vs o s
      → Runs terminated k s
          (λ _ t.
            t.is_success ≡ true
            → (v : Value) × (t.operands ≡ v ∷ vs) × (terminated t.calls ≡ false))
          (create_call_of f o s)
  unfolding emit
  create_call-Runs vs f none i h = let e = h.1 refl in Runs-value tt i λ c. absurd (cc)
  create_call-Runs {s = s} vs f (some ws) i h =
      let live = (h.0 ws refl).1 in
      let ops = (h.0 ws refl).0 in
      Runs-instruction laws (create_call f ws) live refl refl i live λ j live'.
        Runs-push (Value.returned (length s.calls)) j
          λ _. (_, ap (λ os. Value.returned (length s.calls) ∷ os) ops, live')

  prepend-Runs :
      {k : ℕ} {s : Codegen} (vs : List Value) (v : Value) (o : Option (List Value))
      → IsInside terminated k s
      → Collected vs o s
      → Runs terminated k s (λ o t. Collected vs o t) (prepend v o s)
  prepend-Runs vs v none i h = Runs-value none i ((λ ws e. absurd (cc)), λ _. h.1 refl)
  prepend-Runs vs v (some ws) i h =
      Runs-value (some (v ∷ ws)) i ((λ _ _. h.0 ws refl), λ e. absurd (cc))

  visit_arg-AllArgs :
      {m : G Unit0} {rest : G (Option (List Value))} (ty : TType)
      → Operand terminated m
      → AllArgs rest
      → AllArgs (visit_arg m ty rest)
  unfolding visit_arg emit
  visit_arg-AllArgs ty hm hrest s i live = Runs-visit _ i (hm s i live) λ _ t st _ p.
      Runs-if_success none _ st.inside (λ e. ((λ ws q. absurd (cc)), λ _. e))
        λ c.
          let q = p c in
          Runs-pop q.0 s.operands _ st.inside q.1 λ i1.
            Runs-instruction laws (create_cast q.0 (llvm_type ty)) q.2 refl refl i1 q.2 λ i2 l2.
              Runs-visit _ i2 (hrest _ (inner-IsInside i2) l2)
                λ o u su _ p'. prepend-Runs s.operands _ o su.inside p'

  call_checked-Runs :
      {k : ℕ} {s : Codegen} (name : Bytes) (given : ℕ) {all : List Var → G (Option (List Value))}
      (func : Option ℕ) (ast : Option FunctionDef)
      → ((params : List Var) → given ≡ length params → AllArgs (all params))
      → ((f : ℕ) → func ≡ some f → (d : FunctionDef) × (ast ≡ some d))
      → IsInside terminated k s
      → terminated s.calls ≡ false
      → Runs terminated k s
          (λ _ t.
            t.is_success ≡ true
            → (v : Value) × (t.operands ≡ v ∷ s.operands) × (terminated t.calls ≡ false))
          (call_checked name given all func ast s)
  call_checked-Runs name given none ast h paired i live =
      Runs-error (undefined_function name) i λ t f c. absurd (cc)
  call_checked-Runs name given (some f) none h paired i live =
      let p = (paired f refl).1 in absurd (cc)
  call_checked-Runs {s = s} name given {all} (some f) (some d) h paired i live =
      Runs-branch (given == length d.args) (all d.args >>= create_call_of f) _
        (λ e.
          Runs-visit _ i (h d.args ((==_iff given (length d.args)).0 e) s (inner-IsInside i) live)
            λ o t st _ p. create_call-Runs s.operands f o st.inside p)
        (λ _. Runs-error (wrong_arguments (length d.args) given) i λ t f c. absurd (cc))

  visit_call-Operand :
      (name : Bytes) (given : ℕ) {all : List Var → G (Option (List Value))}
      → ((params : List Var) → given ≡ length params → AllArgs (all params))
      → Operand terminated (visit_call name given all)
  unfolding visit_call
  visit_call-Operand name given h s i live =
      Runs-funcs_entry name _ i λ func t paired st ops calls _.
        Runs-ast_funcs_entry name _ st.inside λ ast u found su ops' calls' _.
          rebase s (ops' ∙ ops) (
            call_checked-Runs name given func ast h
              (λ f e. let d = paired f e in (d.0, found d.0 d.1)) su.inside
              (ap terminated (calls' ∙ calls) ∙ live))
    where
      rebase :
          {k : ℕ} (s : Codegen) {u : Codegen} {o : Option (Unit0 × Codegen)}
          → u.operands ≡ s.operands
          → Runs terminated k u (λ _ t. Pushed terminated u t) o
          → Runs terminated k u (λ _ t. Pushed terminated s t) o
      rebase s e (holds h) =
          holds (h.0, λ c. ((h.1 c).0, (h.1 c).1 ∙ ap (λ os. (h.1 c).0 ∷ os) e, (h.1 c).2))

  module _ {context : Context} where
    mutual
      unfolding visit_expr visit_args

      typed-Operand : {e : Expr} → Typed context e → Operand terminated (visit_expr e)
      typed-Operand (Typed.var v h u) s i live = visit_var-Operand terminated laws v s i live
      typed-Operand (Typed.funcall name args h e u t) s i live =
          visit_call-Operand name (count_args args) (λ params e. args-AllArgs t params e) s i live
      typed-Operand (Typed.boolean b) s i live =
          constant-Operand terminated laws (Value.constant_bool b) s i live
      typed-Operand (Typed.integer_lit n h) s i live =
          constant-Operand terminated laws (Value.constant_int n) s i live
      typed-Operand (Typed.float_lit x) s i live =
          constant-Operand terminated laws (Value.constant_float x) s i live
      typed-Operand (Typed.logical op l r o hl hr tl tr) s i live =
          visit_binary-Operand (typed-Operand tl) (typed-Operand tr) op (type_of l) (type_of r)
            (logical-is_binary op o) s i live
      typed-Operand (Typed.equality op l r o tl tr) s i live =
          visit_binary-Operand (typed-Operand tl) (typed-Operand tr) op (type_of l) (type_of r)
            (equality-is_binary op o) s i live
      typed-Operand (Typed.relational op l r o hl hr tl tr) s i live =
          visit_binary-Operand (typed-Operand tl) (typed-Operand tr) op (type_of l) (type_of r)
            (relation-is_binary op o) s i live
      typed-Operand (Typed.arithmetic op l r o hl hr tl tr) s i live =
          visit_binary-Operand (typed-Operand tl) (typed-Operand tr) op (type_of l) (type_of r)
            (arithmetic-is_binary op o) s i live
      typed-Operand (Typed.negation e h t) s i live =
          visit_unary-Operand terminated laws (typed-Operand t) OperatorKind.not_op (type_of e) refl
            s i live
      typed-Operand (Typed.signed op e o h t) s i live =
          visit_unary-Operand terminated laws (typed-Operand t) op (type_of e) (sign-is_unary op o)
            s i live

      args-AllArgs :
          {args : Args}
          → TypedArgs context args
          → (params : List Var) → count_args args ≡ length params
          → AllArgs (visit_args args params)
      args-AllArgs TypedArgs.no_args params e s i live =
          Runs-value (some []) i ((λ ws q. (refl, live)), λ q. absurd (cc))
      args-AllArgs (TypedArgs.arg e args t ts) [] h s i live = absurd (omega (arith, h))
      args-AllArgs (TypedArgs.arg e args t ts) (p ∷ params) h s i live =
          visit_arg-AllArgs p.type (typed-Operand t) (args-AllArgs ts params (omega (arith, h))) s i
            live

  -- `accept` of a typed expression.
  pub visit_expr-Operand :
      {context : Context} {e : Expr} → Typed context e → Operand terminated (visit_expr e)
  visit_expr-Operand t = typed-Operand t

-- ===== src/Codegen/Attached/Expressions.antt =====
-- The visitors of expressions write to attached blocks only.
use pudl.Prelude.{
  ℕ, ◌==◌, ◌≡◌, refl, ◌∙◌, ◌||◌, Bool, true, false, List, [], ◌∷◌, Bytes, length, Option, none,
  some, if◌then◌else◌,
}
use pudl.Prelude.Map.{Map}
use pudl.Ast.{TType, OperatorKind, Var, Expr, Args, FunctionDef, type_of, is_float}
use pudl.Codegen.Calls.{Call, Opcode, Value, create_cast, set_insert_point}
use pudl.Codegen.ScopeStack.{lookup_in}
use pudl.Codegen.State.{
  Codegen, G, pure, ◌>>=◌, emit, push_operand, gen_error, unknown, find_local, llvm_type,
  cast_value,
}
use pudl.Codegen.Ensures.{Legal}
use pudl.Codegen.Rules.{Unit0}
use pudl.Codegen.Expression.{
  load_from, visit_var, create_op, two_operands, arithmetic_opcode, relation_opcode, push_result,
  negate, unary_arithmetic, unary_not, visit_unary, right_side, short_circuit, short_circuit_branch,
  is_and, OperatorGroup, group_of, visit_group, visit_binary, create_call_of, call_checked,
  visit_call, prepend, visit_arg, count_args, visit_expr, visit_args,
}
use pudl.Codegen.Check.Leads.{
  same, more, Legal-Grown, Leads, arrives, crashes, Leads-call, Leads-bind, Leads-branch,
  Leads-if_success, Leads-pop,
}
use pudl.Codegen.Check.Views.{Leads-funcs_entry, Leads-ast_funcs_entry}
use pudl.Codegen.Attached.{
  latest, IsAttached, AllAttached, before, insert-IsAttached, create-IsAttached, Inv, Generates,
  Inv-calls, Keeps, Leads-own_function,
}

branch-Inv :
    {f : ℕ} {cs : List Call} {funcs : Map (Option ℕ)} {current : Option FunctionDef} (b : Bool)
    (v : Value) (i j : ℕ)
    → Inv f cs funcs current
    → Inv f (short_circuit_branch b v i j ∷ cs) funcs current
unfolding latest AllAttached
branch-Inv true v i j p = Inv-calls p refl p.attached
branch-Inv false v i j p = Inv-calls p refl p.attached

module _ (terminated : List Call → Bool) where
  result-Keeps : (m : G (Option Value)) → Keeps terminated m → Keeps terminated (m >>= push_result)
  unfolding push_result push_operand gen_error
  result-Keeps m h f s ready = Leads-bind push_result (h f s ready) λ o t g p. pushed o t p
    where
      pushed :
          (o : Option Value) (t : Codegen)
          → (Legal terminated t.calls → Generates f t)
          → Leads terminated t (λ _ u. Generates f u) (push_result o t)
      pushed (some v) t p = arrives same p
      pushed none t p =
          Leads-branch t.is_success (gen_error unknown) (pure tt) (λ e. arrives same p)
            (λ e. arrives same p)

  combine-Keeps :
      (b : Bool) (float_op int_op : Option Opcode) (l r : Value)
      → Keeps terminated (
          if b
          then (do
            l' ← cast_value l TType.float
            r' ← cast_value r TType.float
            create_op float_op l' r')
          else create_op int_op l r)
  unfolding emit latest AllAttached
  combine-Keeps true none int_op l r f s p =
      arrives (more _ (more _ same)) (λ a. Inv-calls (p a.1.1) refl (p a.1.1).attached)
  combine-Keeps true (some o) int_op l r f s p =
      arrives (more _ (more _ (more _ same))) (λ a. Inv-calls (p a.1.1.1) refl (p a.1.1.1).attached)
  combine-Keeps false float_op none l r f s p = arrives same p
  combine-Keeps false float_op (some o) l r f s p =
      arrives (more _ same) (λ a. Inv-calls (p a.1) refl (p a.1).attached)

  two_operands-Keeps :
      {lhs rhs : G Unit0} (opcode : Bool → OperatorKind → Option Opcode) (op : OperatorKind)
      (lt rt : TType)
      → Keeps terminated lhs
      → Keeps terminated rhs
      → Keeps terminated (two_operands opcode op lt rt lhs rhs)
  unfolding two_operands
  two_operands-Keeps opcode op lt rt hl hr f s ready = Leads-bind _ (hl f s ready) λ _ t g p.
      Leads-if_success none _ (λ e l. p l)
        λ c. Leads-bind _ (hr f t p) λ _ u g' p'.
          Leads-if_success none _ (λ e l. p' l)
            λ c'. Leads-pop _ λ r vs. Leads-pop _ λ l vs'.
              combine-Keeps (is_float lt || is_float rt) (opcode true op) (opcode false op) l r f _
                p'

  right_side-Leads :
      {rhs : G Unit0} (f : ℕ) (t : Codegen) (func : Option ℕ) (slot : Value) (r m : ℕ)
      → Keeps terminated rhs
      → (Legal terminated t.calls → func ≡ some f)
      → (Legal terminated t.calls → IsAttached r t.calls)
      → (Legal terminated t.calls → Generates f t)
      → Leads terminated t (λ _ u. Generates f u) (right_side func slot r m rhs t)
  unfolding emit latest AllAttached
  right_side-Leads f t func slot r m hr own attached p = Leads-call (set_insert_point r) (
      Leads-bind _ (hr f _ (λ l. Inv-calls (p l.1) refl (attached l.1, (p l.1).attached)))
        λ _ u g q.
          Leads-if_success none _ (λ e l. q l)
            λ c. Leads-pop _ λ v vs. arrives (more _ (more _ (more _ (more _ (more _ same))))) λ l.
              let l' = l.1.1.1.1.1 in
              Inv-calls (q l') refl (
                insert-IsAttached m func _ (own (Legal-Grown terminated g l').1) (q l').is_latest,
                (q l').attached,
              ))

  short_circuit-Keeps :
      {lhs rhs : G Unit0} (op : OperatorKind)
      → Keeps terminated lhs
      → Keeps terminated rhs
      → Keeps terminated (short_circuit op lhs rhs)
  unfolding short_circuit emit latest AllAttached
  short_circuit-Keeps op hl hr f s ready = Leads-own_function _ f ready λ func m own ready'.
      Leads-bind _ (hl f (record s { funcs = m }) ready') λ _ t g p.
        Leads-if_success none _ (λ e l. p l)
          λ c. Leads-pop _ λ v vs. Leads-call _ (
            Leads-call _ (
              Leads-call _ (
                Leads-call _ (
                  Leads-call _ (
                    right_side-Leads f _ func _ _ _ hr
                      (λ l. own (Legal-Grown terminated g l.1.1.1.1.1))
                      (λ l. before (
                        before (
                          create-IsAttached _ func _ (own (Legal-Grown terminated g l.1.1.1.1.1))
                            (p l.1.1.1.1.1).is_latest)))
                      (λ l.
                        branch-Inv (is_and op) v _ _
                          (Inv-calls (p l.1.1.1.1.1) refl (p l.1.1.1.1.1).attached)))))))

  negate-Keeps : (ty : TType) (v : Value) → Keeps terminated (negate ty v)
  unfolding emit latest AllAttached
  negate-Keeps TType.float v f s p =
      arrives (more _ same) (λ a. Inv-calls (p a.1) refl (p a.1).attached)
  negate-Keeps TType.integer v f s p =
      arrives (more _ same) (λ a. Inv-calls (p a.1) refl (p a.1).attached)
  negate-Keeps TType.bool v f s p = arrives same p
  negate-Keeps TType.undefined v f s p = arrives same p

  visit_unary-Keeps :
      {m : G Unit0} (op : OperatorKind) (ty : TType)
      → Keeps terminated m
      → Keeps terminated (visit_unary op ty m)
  unfolding visit_unary unary_arithmetic unary_not emit latest AllAttached
  visit_unary-Keeps {m} OperatorKind.neg ty h = result-Keeps (unary_arithmetic ty m) λ f s ready.
      Leads-bind _ (h f s ready) λ _ t g p.
        Leads-if_success none _ (λ e l. p l) λ c. Leads-pop _ λ v vs. negate-Keeps ty v f _ p
  visit_unary-Keeps {m} OperatorKind.not_op ty h = result-Keeps (unary_not m) λ f s ready.
      Leads-bind _ (h f s ready) λ _ t g p.
        Leads-if_success none _ (λ e l. p l)
          λ c.
            Leads-pop _ λ v vs. arrives (more _ same) (λ a. Inv-calls (p a.1) refl (p a.1).attached)
  visit_unary-Keeps OperatorKind.pos ty h = h
  visit_unary-Keeps OperatorKind.add ty h = λ f s p. arrives same p
  visit_unary-Keeps _ ty h = λ f s p. arrives same p

  visit_group-Keeps :
      {lhs rhs : G Unit0} (g : OperatorGroup) (op : OperatorKind) (lt rt : TType)
      → Keeps terminated lhs
      → Keeps terminated rhs
      → Keeps terminated (visit_group g op lt rt lhs rhs)
  visit_group-Keeps OperatorGroup.arithmetic_group op lt rt hl hr =
      result-Keeps _ (two_operands-Keeps arithmetic_opcode op lt rt hl hr)
  visit_group-Keeps OperatorGroup.relation_group op lt rt hl hr =
      result-Keeps _ (two_operands-Keeps relation_opcode op lt rt hl hr)
  visit_group-Keeps OperatorGroup.logical_group op lt rt hl hr =
      result-Keeps _ (short_circuit-Keeps op hl hr)
  visit_group-Keeps OperatorGroup.no_group op lt rt hl hr = λ f s p. arrives same p

  visit_var-Keeps : (v : Var) → Keeps terminated (visit_var v)
  unfolding visit_var find_local emit push_operand gen_error latest AllAttached
  visit_var-Keeps v f s p = loaded (lookup_in v.name s.scopes)
    where
      loaded : (o : Option Value) → Leads terminated s (λ _ t. Generates f t) (load_from o v s)
      loaded none = arrives same p
      loaded (some slot) = arrives (more _ same) (λ a. Inv-calls (p a.1) refl (p a.1).attached)

  visit_arg-Keeps :
      {m : G Unit0} {others : G (Option (List Value))} (ty : TType)
      → Keeps terminated m
      → Keeps terminated others
      → Keeps terminated (visit_arg m ty others)
  unfolding visit_arg emit latest AllAttached
  visit_arg-Keeps ty hm hr f s ready = Leads-bind _ (hm f s ready) λ _ t g p.
      Leads-if_success none _ (λ e l. p l)
        λ c. Leads-pop _ λ v vs. Leads-call (create_cast v (llvm_type ty)) (
          Leads-bind _ (hr f _ (λ l. Inv-calls (p l.1) refl (p l.1).attached))
            λ o u g' q. prepended _ o u q)
    where
      prepended :
          (v : Value) (o : Option (List Value)) (u : Codegen)
          → (Legal terminated u.calls → Generates f u)
          → Leads terminated u (λ _ t. Generates f t) (prepend v o u)
      prepended v none u p = arrives same p
      prepended v (some vs) u p = arrives same p

  visit_call-Keeps :
      (name : Bytes) (given : ℕ) (all : List Var → G (Option (List Value)))
      → ((params : List Var) → Keeps terminated (all params))
      → Keeps terminated (visit_call name given all)
  unfolding visit_call emit push_operand gen_error latest AllAttached
  visit_call-Keeps name given all h f s ready = Leads-funcs_entry name _ λ m same_funcs.
      Leads-ast_funcs_entry name _ λ m' same_asts.
        checked _ _ (record s { funcs = m; ast_funcs = m' })
          λ l. record {
            is_latest = (ready l).is_latest;
            attached = (ready l).attached;
            found = λ d e. same_funcs d.name ∙ (ready l).found d e;
          }
    where
      called :
          (n : ℕ) (o : Option (List Value)) (t : Codegen)
          → (Legal terminated t.calls → Generates f t)
          → Leads terminated t (λ _ u. Generates f u) (create_call_of n o t)
      called n none t p = arrives same p
      called n (some vs) t p = arrives (more _ same) (λ a. Inv-calls (p a.1) refl (p a.1).attached)

      checked :
          (func : Option ℕ) (ast : Option FunctionDef) (t : Codegen)
          → (Legal terminated t.calls → Generates f t)
          → Leads terminated t (λ _ u. Generates f u) (call_checked name given all func ast t)
      checked none ast t p = arrives same p
      checked (some n) none t p = crashes
      checked (some n) (some d) t p =
          Leads-branch (given == length d.args) (all d.args >>= create_call_of n) _
            (λ e. Leads-bind _ (h d.args f t p) λ o u g q. called n o u q) (λ e. arrives same p)

  mutual
    unfolding visit_expr visit_args visit_binary push_operand

    pub visit_expr-Keeps : (e : Expr) → Keeps terminated (visit_expr e)
    visit_expr-Keeps (Expr.var v) f s p = visit_var-Keeps v f s p
    visit_expr-Keeps (Expr.boolean b) f s p = arrives same p
    visit_expr-Keeps (Expr.integer_lit n) f s p = arrives same p
    visit_expr-Keeps (Expr.float_lit x) f s p = arrives same p
    visit_expr-Keeps (Expr.binary ty op l r) f s p =
        visit_group-Keeps (group_of op) op (type_of l) (type_of r) (visit_expr-Keeps l)
          (visit_expr-Keeps r) f s p
    visit_expr-Keeps (Expr.unary op e) f s p =
        visit_unary-Keeps op (type_of e) (visit_expr-Keeps e) f s p
    visit_expr-Keeps (Expr.funcall name args ty) f s p =
        visit_call-Keeps name (count_args args) (visit_args args)
          (λ params. visit_args-Keeps args params) f s p

    visit_args-Keeps : (args : Args) (params : List Var) → Keeps terminated (visit_args args params)
    visit_args-Keeps Args.no_args params f s p = arrives same p
    visit_args-Keeps (Args.arg e args) [] f s p = crashes
    visit_args-Keeps (Args.arg e args) (v ∷ params) f s p =
        visit_arg-Keeps v.type (visit_expr-Keeps e) (visit_args-Keeps args params) f s p

-- ===== src/Codegen/Check/Calls.antt =====
-- The visitor of a call, and `accept` of an expression.
use pudl.Prelude.{
  ℕ, suc, ◌==◌, ◌≡◌, refl, sym, ap, ◌∙◌, subst, ◌&&◌, Bool, true, false, List, [], ◌∷◌, Bytes,
  length, Option, none, some,
}
use pudl.Prelude.Map.{Map, lookup}
use pudl.Ast.{TType, OperatorKind, Var, Expr, Args, FunctionDef, type_of}
use pudl.Parser.Typing.{Context, Typed, TypedArgs, is_arithmetic, is_logical}
use pudl.Codegen.Calls.{Call, Opcode, Value, create_cast}
use pudl.Codegen.State.{Codegen, G, ◌>>=◌, emit, push_operand, gen_error, llvm_type}
use pudl.Codegen.Ensures.{Legal}
use pudl.Codegen.Rules.{Unit0}
use pudl.Codegen.Expression.{
  arithmetic_opcode, relation_opcode, two_operands, short_circuit, OperatorGroup, group_of,
  visit_group, visit_binary, create_call_of, call_checked, visit_call, prepend, visit_arg,
  count_args, visit_expr, visit_args,
}
use pudl.Codegen.Check.{Names, has_arity, number_of_args, check_expr, check_args}
use pudl.Codegen.Check.Leads.{
  same, more, Legal-Grown, ended, Leads, arrives, crashes, Leads-call, Leads-bind, Leads-branch,
  Leads-if_success, Leads-pop,
}
use pudl.Codegen.Check.Views.{
  arity_of, Ready, Ready-funcs, Ready-ast_funcs, Leads-funcs_entry, Leads-ast_funcs_entry,
}
use pudl.Codegen.Check.Outcomes.{
  Outcome, Out-both, Out-failed, Out-and, Out-calls, Out-refused, Outcome-passed,
}
use pudl.Codegen.Check.Operators.{
  Typed-defined, arithmetic-HasOpcode, relation-HasOpcode, equality-HasOpcode, arithmetic-group,
  relation-group, equality-group, logical-group,
}
use pudl.Codegen.Check.Expressions.{
  Checked, CheckedValue, Produced, value-Checked, two_operands-Checked, short_circuit-Checked,
  sign-Checked, not-Checked, visit_var-Checked, constant-Checked,
}

number_of_args-count_args : (args : Args) → count_args args ≡ number_of_args args
number_of_args-count_args Args.no_args = refl
number_of_args-count_args (Args.arg e args) = ap suc (number_of_args-count_args args)

module _ (terminated : List Call → Bool) (arities : Map ℕ) (names : Names) where
  abbrev Passed : Codegen → Bool → Codegen → Type 0
  Passed s ok t = Outcome arities s ok names false t

  visit_arg-Checked :
      {x y : Bool} {m : G Unit0} {others : G (Option (List Value))} (ty : TType)
      → Checked terminated arities names x m
      → CheckedValue terminated arities names y others
      → CheckedValue terminated arities names (x && y) (visit_arg m ty others)
  unfolding visit_arg emit ended
  visit_arg-Checked {x} {y} ty hm hr s ready = Leads-bind _ (hm s ready) λ _ t g p.
      Leads-if_success none _ (λ e l. (Out-failed names false y (p l) e, λ _. e))
        λ c. Leads-pop _ λ v vs. Leads-call (create_cast v (llvm_type ty)) (
          Leads-bind _
            (hr _
              (λ l. (Out-calls {cs = create_cast v (llvm_type ty) ∷ t.calls} (p l.1) refl).ready))
            λ o u g' p'.
              prepended _ o u
                λ l. let q = p' l in (Out-both (p (Legal-Grown terminated g' l).1) q.0, q.1))
    where
      prepended :
          (v : Value) (o : Option (List Value)) (u : Codegen)
          → (Legal terminated u.calls → Produced terminated arities names s (x && y) o u)
          → Leads terminated u
              (λ o' t'. Produced terminated arities names s (x && y) o' t')
              (prepend v o u)
      prepended v none u p = arrives same p
      prepended v (some vs) u p = arrives same (λ l. ((p l).0, λ q. absurd (cc)))

  create_call-Leads :
      (s t : Codegen) (ok : Bool) (f : ℕ) (o : Option (List Value))
      → (Legal terminated t.calls → Produced terminated arities names s ok o t)
      → Leads terminated t (λ _ u. Passed s ok u) (create_call_of f o t)
  unfolding emit push_operand ended
  create_call-Leads s t ok f none p = arrives same (λ l. (p l).0)
  create_call-Leads s t ok f (some vs) p = arrives (more _ same) (λ l. Out-calls (p l.1).0 refl)

  call_checked-Leads :
      {y : Bool} (name : Bytes) (given : ℕ) (all : List Var → G (Option (List Value)))
      (func : Option ℕ) (ast : Option FunctionDef) (s : Codegen)
      → ((params : List Var) → CheckedValue terminated arities names y (all params))
      → (Legal terminated s.calls → Ready arities names false s)
      → (Legal terminated s.calls → s.is_success ≡ true → arity_of func ast ≡ lookup name arities)
      → Leads terminated s
          (λ _ t. Passed s (has_arity given (lookup name arities) && y) t)
          (call_checked name given all func ast s)
  unfolding gen_error
  call_checked-Leads {y} name given all none ast s h ready known = arrives same (λ l.
      Out-refused names (has_arity given (lookup name arities)) y false _ _ _ _
        (λ c. ap (has_arity given) (sym (known l c))))
  call_checked-Leads name given all (some f) none s h ready known = crashes
  call_checked-Leads {y} name given all (some f) (some d) s h ready known =
      Leads-branch (given == length d.args) (all d.args >>= create_call_of f) _
        (λ e. Leads-bind _ (h d.args s ready) λ o t g p. create_call-Leads s t _ f o λ l.
          let q = p l in
          (
            Out-and _ q.0
                (λ c. ap (has_arity given) (sym (known (Legal-Grown terminated g l) c)) ∙ e),
            q.1,
          ))
        (λ e. arrives same (λ l.
          Out-refused names (has_arity given (lookup name arities)) y false _ _ _ _
            (λ c. ap (has_arity given) (sym (known l c)) ∙ e)))

  visit_call-Checked :
      {y : Bool} (name : Bytes) (given : ℕ) (all : List Var → G (Option (List Value)))
      → ((params : List Var) → CheckedValue terminated arities names y (all params))
      → Checked terminated arities names
          (has_arity given (lookup name arities) && y)
          (visit_call name given all)
  unfolding visit_call
  visit_call-Checked name given all h s ready = Leads-funcs_entry name _ λ m same_funcs.
      Leads-ast_funcs_entry name _ λ m' same_asts.
        call_checked-Leads name given all _ _ _ h
          (λ l.
            Ready-ast_funcs (record s { funcs = m }) m' same_asts
              (Ready-funcs s m same_funcs (ready l)))
          (λ l c. (ready l c).0.functions name)

module _ (terminated : List Call → Bool) (arities : Map ℕ) (names : Names) where
  group-Checked :
      (lhs rhs : G Unit0) {ok : Bool} (g : OperatorGroup) (op : OperatorKind) (lt rt : TType)
      → group_of op ≡ g
      → Checked terminated arities names ok (visit_group g op lt rt lhs rhs)
      → Checked terminated arities names ok (visit_binary op lt rt lhs rhs)
  unfolding visit_binary
  group-Checked lhs rhs {ok} g op lt rt e h =
      subst (λ g'. Checked terminated arities names ok (visit_group g' op lt rt lhs rhs)) (sym e) h

  module _ {x y : Bool} {lhs rhs : G Unit0} (hl : Checked terminated arities names x lhs)
      (hr : Checked terminated arities names y rhs) (op : OperatorKind) (lt rt : TType) where
    arithmetic-Checked :
        is_arithmetic op ≡ true
        → Checked terminated arities names (x && y) (visit_binary op lt rt lhs rhs)
    arithmetic-Checked o =
        group-Checked lhs rhs OperatorGroup.arithmetic_group op lt rt (arithmetic-group op o) (
          value-Checked terminated arities names (x && y)
            (two_operands arithmetic_opcode op lt rt lhs rhs)
            (two_operands-Checked terminated arities names arithmetic_opcode op lt rt
              (arithmetic-HasOpcode op o) hl hr))

    relation-Checked :
        group_of op ≡ OperatorGroup.relation_group
        → ((b : Bool) → (o : Opcode) × (relation_opcode b op ≡ some o))
        → Checked terminated arities names (x && y) (visit_binary op lt rt lhs rhs)
    relation-Checked e h = group-Checked lhs rhs OperatorGroup.relation_group op lt rt e (
        value-Checked terminated arities names (x && y)
          (two_operands relation_opcode op lt rt lhs rhs)
          (two_operands-Checked terminated arities names relation_opcode op lt rt h hl hr))

    logical-Checked :
        is_logical op ≡ true
        → Checked terminated arities names (x && y) (visit_binary op lt rt lhs rhs)
    logical-Checked o =
        group-Checked lhs rhs OperatorGroup.logical_group op lt rt (logical-group op o) (
          value-Checked terminated arities names (x && y) (short_circuit op lhs rhs)
            (short_circuit-Checked terminated arities names op hl hr))

module _ (terminated : List Call → Bool) (arities : Map ℕ) (names : Names) {context : Context} where
  mutual
    unfolding visit_expr visit_args check_expr check_args

    typed-Checked :
        {e : Expr}
        → Typed context e
        → Checked terminated arities names (check_expr arities names e) (visit_expr e)
    typed-Checked (Typed.var v h u) s ready = visit_var-Checked terminated arities names v s ready
    typed-Checked (Typed.funcall name args h e u t) s ready =
        subst
          (λ n.
            Leads terminated s
              (λ _ v.
                Outcome arities s
                  (has_arity n (lookup name arities) && check_args arities names args) names false
                  v)
              (visit_call name (count_args args) (visit_args args) s))
          (number_of_args-count_args args)
          (visit_call-Checked terminated arities names name (count_args args) (visit_args args)
            (λ params. args-Checked t params) s ready)
    typed-Checked (Typed.boolean b) s ready =
        constant-Checked terminated arities names (Value.constant_bool b) s ready
    typed-Checked (Typed.integer_lit n h) s ready =
        constant-Checked terminated arities names (Value.constant_int n) s ready
    typed-Checked (Typed.float_lit x) s ready =
        constant-Checked terminated arities names (Value.constant_float x) s ready
    typed-Checked (Typed.logical op l r o hl hr tl tr) s ready =
        logical-Checked terminated arities names (typed-Checked tl) (typed-Checked tr) op
          (type_of l) (type_of r) o s ready
    typed-Checked (Typed.equality op l r o tl tr) s ready =
        relation-Checked terminated arities names (typed-Checked tl) (typed-Checked tr) op
          (type_of l) (type_of r) (equality-group op o) (equality-HasOpcode op o) s ready
    typed-Checked (Typed.relational op l r o hl hr tl tr) s ready =
        relation-Checked terminated arities names (typed-Checked tl) (typed-Checked tr) op
          (type_of l) (type_of r) (relation-group op o) (relation-HasOpcode op o) s ready
    typed-Checked (Typed.arithmetic op l r o hl hr tl tr) s ready =
        arithmetic-Checked terminated arities names (typed-Checked tl) (typed-Checked tr) op
          (type_of l) (type_of r) o s ready
    typed-Checked (Typed.negation e h t) s ready =
        not-Checked terminated arities names (typed-Checked t) (type_of e) s ready
    typed-Checked (Typed.signed op e o h t) s ready =
        sign-Checked terminated arities names (typed-Checked t) op (type_of e) o h (Typed-defined t)
          s ready

    args-Checked :
        {args : Args}
        → TypedArgs context args
        → (params : List Var)
        → CheckedValue terminated arities names
            (check_args arities names args)
            (visit_args args params)
    args-Checked TypedArgs.no_args params s ready =
        arrives same (λ l. (Outcome-passed s (ready l), λ q. absurd (cc)))
    args-Checked (TypedArgs.arg e args t ts) [] s ready = crashes
    args-Checked (TypedArgs.arg e args t ts) (p ∷ params) s ready =
        visit_arg-Checked terminated arities names p.type (typed-Checked t) (args-Checked ts params)
          s ready

  pub visit_expr-Checked :
      {e : Expr}
      → Typed context e
      → Checked terminated arities names (check_expr arities names e) (visit_expr e)
  visit_expr-Checked t = typed-Checked t

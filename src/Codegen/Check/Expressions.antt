-- ===== src/Codegen/Check/Expressions.antt =====
-- The visitors of expressions report an error just if the check fails.
use pudl.Prelude.{
  ℕ, ◌≡◌, ◌≢◌, ◌⊎◌, refl, ◌&&◌, ◌||◌, Bool, true, false, List, ◌∷◌, Option, none, some,
  if◌then◌else◌, Bool-cases, inl, inr, arith,
}
use pudl.Prelude.Map.{Map}
use pudl.Ast.{TType, OperatorKind, Var, is_float, is_bool}
use pudl.Parser.Typing.{is_sign}
use pudl.Codegen.Calls.{Call, Opcode, Value, create_load, set_insert_point}
use pudl.Codegen.ScopeStack.{lookup_in}
use pudl.Codegen.State.{
  Codegen, G, pure, ◌>>=◌, emit, push_operand, gen_error, unknown, find_local, cast_value,
  llvm_type,
}
use pudl.Codegen.Ensures.{Legal}
use pudl.Codegen.Rules.{Unit0}
use pudl.Codegen.Expression.{
  load_from, visit_var, create_op, two_operands, push_result, negate, unary_arithmetic, unary_not,
  visit_unary, right_side, short_circuit, short_circuit_branch, is_and,
}
use pudl.Codegen.Check.{Names, is_visible}
use pudl.Codegen.Check.Leads.{
  same, more, Legal-Grown, ended, Leads, arrives, Leads-call, Leads-bind, Leads-branch,
  Leads-if_success, Leads-pop,
}
use pudl.Codegen.Check.Views.{
  is_some, lookup-is_visible, Ready, Ready-funcs, Leads-current_function,
}
use pudl.Codegen.Check.Outcomes.{
  Out, Outcome, absent, Out-both, Out-failed, Out-calls, Out-at, Outcome-passed,
}

branch-ended :
    (b : Bool) (v : Value) (i j : ℕ) (cs : List Call)
    → ended (short_circuit_branch b v i j ∷ cs) ≡ some true
unfolding ended
branch-ended true v i j cs = refl
branch-ended false v i j cs = refl

module _ (terminated : List Call → Bool) (arities : Map ℕ) (names : Names) where
  -- The visitor of an expression that passes the check or not, and what returns a value or nothing.
  abbrev pub Checked : Bool → G Unit0 → Type 0
  Checked ok m =
      (s : Codegen)
      → (Legal terminated s.calls → Ready arities names false s)
      → Leads terminated s (λ _ t. Outcome arities s ok names false t) (m s)

  abbrev pub Produced : {A : Type 0} → Codegen → Bool → Option A → Codegen → Type 0
  Produced s ok o t = Outcome arities s ok names false t × (o ≡ none → t.is_success ≡ false)

  abbrev pub CheckedValue : {A : Type 0} → Bool → G (Option A) → Type 0
  CheckedValue ok m =
      (s : Codegen)
      → (Legal terminated s.calls → Ready arities names false s)
      → Leads terminated s (λ o t. Produced s ok o t) (m s)

  push_result-Leads :
      (s t : Codegen) (ok : Bool) (o : Option Value)
      → (Legal terminated t.calls → Produced s ok o t)
      → Leads terminated t (λ _ u. Outcome arities s ok names false u) (push_result o t)
  unfolding push_result push_operand gen_error
  push_result-Leads s t ok (some v) p = arrives same (λ l. (p l).0)
  push_result-Leads s t ok none p =
      Leads-branch t.is_success (gen_error unknown) (pure tt) (λ e. failed e)
        (λ e. arrives same (λ l. (p l).0))
    where
      failed :
          t.is_success ≡ true
          → Leads terminated t (λ _ u. Outcome arities s ok names false u) (gen_error unknown t)
      failed e = arrives same (λ l. absurd (absent ((p l).1 refl) e))

  pub value-Checked :
      (ok : Bool) (m : G (Option Value)) → CheckedValue ok m → Checked ok (m >>= push_result)
  value-Checked ok m h s ready =
      Leads-bind push_result (h s ready) (λ o t g p. push_result-Leads s t ok o p)

  create_op-Leads :
      (s t : Codegen) (ok : Bool) (op : Option Opcode) (o : Opcode) (l r : Value)
      → op ≡ some o
      → (Legal terminated t.calls → Outcome arities s ok names false t)
      → Leads terminated t (λ v u. Produced s ok v u) (create_op op l r t)
  unfolding emit ended
  create_op-Leads s t ok none o l r e p = absurd (cc)
  create_op-Leads s t ok (some op) o l r e p =
      arrives (more _ same) (λ a. (Out-calls (p a.1) refl, λ q. absurd (cc)))

  abbrev pub HasOpcode : (Bool → OperatorKind → Option Opcode) → OperatorKind → Type 0
  HasOpcode opcode op = (b : Bool) → (o : Opcode) × (opcode b op ≡ some o)

  combine-Leads :
      (s t : Codegen) (ok b : Bool) (opcode : Bool → OperatorKind → Option Opcode)
      (op : OperatorKind) (l r : Value)
      → HasOpcode opcode op
      → (Legal terminated t.calls → Outcome arities s ok names false t)
      → Leads terminated t
          (λ v u. Produced s ok v u)
          ((if b
              then (do
                l' ← cast_value l TType.float
                r' ← cast_value r TType.float
                create_op (opcode true op) l' r')
              else create_op (opcode false op) l r)
            t)
  unfolding emit ended
  combine-Leads s t ok false opcode op l r h p =
      create_op-Leads s t ok (opcode false op) (h false).0 l r (h false).1 p
  combine-Leads s t ok true opcode op l r h p = Leads-call _ (
      Leads-call _ (
        create_op-Leads s _ ok (opcode true op) (h true).0 _ _ (h true).1
          (λ a. Out-calls (p a.1.1) refl)))

  pub two_operands-Checked :
      {x y : Bool} {lhs rhs : G Unit0} (opcode : Bool → OperatorKind → Option Opcode)
      (op : OperatorKind) (lt rt : TType)
      → HasOpcode opcode op
      → Checked x lhs
      → Checked y rhs
      → CheckedValue (x && y) (two_operands opcode op lt rt lhs rhs)
  unfolding two_operands
  two_operands-Checked {x} {y} opcode op lt rt h hl hr s ready =
      Leads-bind _ (hl s ready) λ _ t g p.
        Leads-if_success none _ (λ e l. (Out-failed names false y (p l) e, λ _. e))
          λ c. Leads-bind _ (hr t (λ l. (p l).ready)) λ _ u g' p'.
            Leads-if_success none _
              (λ e l. (Out-both (p (Legal-Grown terminated g' l)) (p' l), λ _. e))
              λ c'. Leads-pop _ λ r vs. Leads-pop _ λ l' vs'.
                combine-Leads s _ (x && y) (is_float lt || is_float rt) opcode op l' r h
                  (λ l. Out-both (p (Legal-Grown terminated g' l)) (p' l))

  right_side-Leads :
      {y : Bool} {rhs : G Unit0} (s t : Codegen) (x : Bool) (func : Option ℕ) (slot : Value)
      (r m : ℕ)
      → Checked y rhs
      → t.is_success ≡ true
      → (Legal terminated t.calls
          → Out arities s.is_success x names true t.is_success t.calls t.scopes t.funcs t.ast_funcs)
      → Leads terminated t (λ o u. Produced s (x && y) o u) (right_side func slot r m rhs t)
  unfolding emit ended
  right_side-Leads {y} s t x func slot r m hr c p = Leads-call (set_insert_point r) (
      Leads-bind _
        (hr _ (λ l. (Out-at {cs = set_insert_point r ∷ t.calls} {end = false} (p l.1) refl).ready))
        λ _ u g p'.
          Leads-if_success none _
            (λ e l. (Out-both (p (Legal-Grown terminated g l).1) (p' l), λ _. e))
            λ c'. Leads-pop _ λ v vs.
              arrives (more _ (more _ (more _ (more _ (more _ same))))) (λ l. (
                Out-at (Out-both (p (Legal-Grown terminated g l.1.1.1.1.1).1) (p' l.1.1.1.1.1))
                    refl,
                λ q. absurd (cc),
              )))

  pub short_circuit-Checked :
      {x y : Bool} {lhs rhs : G Unit0} (op : OperatorKind)
      → Checked x lhs
      → Checked y rhs
      → CheckedValue (x && y) (short_circuit op lhs rhs)
  unfolding short_circuit emit ended
  short_circuit-Checked {x} {y} op hl hr s ready = Leads-current_function _ λ func m same_funcs.
      Leads-bind _ (hl (record s { funcs = m }) (λ l. Ready-funcs s m same_funcs (ready l)))
        λ _ t g p.
          Leads-if_success none _ (λ e l. (Out-failed names false y (p l) e, λ _. e))
            λ c. Leads-pop _ λ v vs. Leads-call _ (
              Leads-call _ (
                Leads-call _ (
                  Leads-call _ (
                    Leads-call _ (
                      right_side-Leads s _ x func _ _ _ hr c
                        (λ l. Out-at (p l.1.1.1.1.1) (branch-ended (is_and op) v _ _ _)))))))

  negate-Leads :
      (s t : Codegen) (ok : Bool) (ty : TType) (v : Value)
      → is_bool ty ≡ false
      → ty ≢ TType.undefined
      → (Legal terminated t.calls → Outcome arities s ok names false t)
      → Leads terminated t (λ o u. Produced s ok o u) (negate ty v t)
  unfolding emit ended
  negate-Leads s t ok TType.float v h u p =
      arrives (more _ same) (λ a. (Out-calls (p a.1) refl, λ q. absurd (cc)))
  negate-Leads s t ok TType.integer v h u p =
      arrives (more _ same) (λ a. (Out-calls (p a.1) refl, λ q. absurd (cc)))
  negate-Leads s t ok TType.bool v h u p = absurd (cc)
  negate-Leads s t ok TType.undefined v h u p = absurd (u refl)

  module _ {ok : Bool} {m : G Unit0} (operand : Checked ok m) where
    unary_arithmetic-Checked :
        (ty : TType)
        → is_bool ty ≡ false
        → ty ≢ TType.undefined
        → CheckedValue ok (unary_arithmetic ty m)
    unfolding unary_arithmetic
    unary_arithmetic-Checked ty h u s ready = Leads-bind _ (operand s ready) λ _ t g p.
        Leads-if_success none _ (λ e l. (p l, λ _. e))
          λ c. Leads-pop _ λ v vs. negate-Leads s _ ok ty v h u p

    unary_not-Checked : CheckedValue ok (unary_not m)
    unfolding unary_not emit ended
    unary_not-Checked s ready = Leads-bind _ (operand s ready) λ _ t g p.
        Leads-if_success none _ (λ e l. (p l, λ _. e))
          λ c.
            Leads-pop _
              λ v vs. arrives (more _ same) (λ a. (Out-calls (p a.1) refl, λ q. absurd (cc)))

    pub sign-Checked :
        (op : OperatorKind) (ty : TType)
        → is_sign op ≡ true
        → is_bool ty ≡ false
        → ty ≢ TType.undefined
        → Checked ok (visit_unary op ty m)
    unfolding visit_unary
    sign-Checked OperatorKind.neg ty o h u s ready =
        value-Checked ok (unary_arithmetic ty m) (unary_arithmetic-Checked ty h u) s ready
    sign-Checked OperatorKind.pos ty o h u s ready = operand s ready
    sign-Checked OperatorKind.add ty o h u s ready = absurd (cc)
    sign-Checked _ ty o h u s ready = absurd (cc)

    pub not-Checked : (ty : TType) → Checked ok (visit_unary OperatorKind.not_op ty m)
    unfolding visit_unary
    not-Checked ty s ready = value-Checked ok (unary_not m) unary_not-Checked s ready

  load_from-Leads :
      (s : Codegen) (o : Option Value) (v : Var)
      → (Legal terminated s.calls → Ready arities names false s)
      → (Legal terminated s.calls → s.is_success ≡ true → is_some o ≡ is_visible v.name names)
      → Leads terminated s
          (λ _ t. Outcome arities s (is_visible v.name names) names false t)
          (load_from o v s)
  unfolding emit ended push_operand gen_error
  load_from-Leads s none v ready h = arrives same (λ l. refused (Bool-cases s.is_success) (h l))
    where
      refused :
          (s.is_success ≡ true) ⊎ (s.is_success ≡ false)
          → (s.is_success ≡ true → false ≡ is_visible v.name names)
          → Out arities s.is_success
              (is_visible v.name names)
              names
              false
              false
              s.calls
              s.scopes
              s.funcs
              s.ast_funcs
      refused (inl e) h = record {
        result = let q = h e in ground (arith, q, e);
        ready = absent refl;
      }
      refused (inr e) h = record { result = ground (arith, e); ready = absent refl }
  load_from-Leads s (some slot) v ready h =
      arrives (more _ same) (λ l. found (Bool-cases s.is_success) (h l.1) (ready l.1))
    where
      found :
          (s.is_success ≡ true) ⊎ (s.is_success ≡ false)
          → (s.is_success ≡ true → true ≡ is_visible v.name names)
          → Ready arities names false s
          → Out arities s.is_success
              (is_visible v.name names)
              names
              false
              s.is_success
              (create_load (llvm_type v.type) slot v.name ∷ s.calls)
              s.scopes
              s.funcs
              s.ast_funcs
      found (inl e) h r = record { result = let q = h e in ground (arith, q, e); ready = r }
      found (inr e) h r = record { result = ground (arith, e); ready = r }

  pub visit_var-Checked : (v : Var) → Checked (is_visible v.name names) (visit_var v)
  unfolding visit_var find_local
  visit_var-Checked v s ready =
      load_from-Leads s (lookup_in v.name s.scopes) v ready
        (λ l c. lookup-is_visible v.name names s.scopes (ready l c).0.scoped)

  pub constant-Checked : (v : Value) → Checked true (push_operand v)
  unfolding push_operand
  constant-Checked v s ready = arrives same (λ l. Outcome-passed s (ready l))

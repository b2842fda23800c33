-- ===== src/Codegen/Statement/Safe.antt =====
-- Assignments, `print`, `return` and blocks: they leave the operands as they were, if their parts do.
use pudl.Prelude.{
  ℕ, suc, ◌≤◌, ◌≡◌, refl, sym, ap, ◌∙◌, subst, Bool, true, false, List, [], ◌∷◌, Bytes, length,
  Option, none, some, if_intro,
}
use pudl.Prelude.Map.{update}
use pudl.Ast.{TType, Var}
use pudl.Codegen.Calls.{
  Call, Format, Value, create_alloca, create_store, create_cast, create_gep, create_fpext,
  create_zext, create_printf, create_ret,
}
use pudl.Codegen.ScopeStack.{pop, push, declare_in, lookup_in}
use pudl.Codegen.State.{
  Codegen, G, bind, emit, deref, without_top, with_scopes, declare_local, push_scope, pop_scope,
  find_local, current_definition, llvm_type, drop_operand,
}
use pudl.Codegen.Ensures.{
  TerminatorLaws, outer_scopes, IsInside, Step, Step-lower, holds, Runs, Runs-bind, quiet-Step,
  after,
}
use pudl.Codegen.Rules.{
  Unit0, with_operands, Runs-value, Runs-if_success, operands-Step, Runs-known, Runs-top, Runs-drop,
  Runs-pop,
}
use pudl.Codegen.Visits.{
  Operand, Statement, inner-IsInside, Runs-visit, Runs-instruction, Runs-terminator,
}
use pudl.Codegen.Statement.{
  same_type, cast_unless_same, store_to, visit_assignment, print_value, visit_print, visit_return,
  unless_terminated, visit_rest, visit_block,
}

module _ (terminated : List Call → Bool) (laws : TerminatorLaws terminated) where
  cast-Runs :
      {k : ℕ} {s : Codegen} (to from : TType) (v : Value)
      → IsInside terminated k s
      → terminated s.calls ≡ false
      → Runs terminated k s
          (λ _ t. (t.operands ≡ s.operands) × (terminated t.calls ≡ false))
          (cast_unless_same to from v s)
  unfolding cast_unless_same emit
  cast-Runs {k} {s} to from v i live =
      if_intro
        (Runs terminated k s (λ _ t. (t.operands ≡ s.operands) × (terminated t.calls ≡ false)))
        (same_type to from) (λ _. Runs-value v i (refl, live))
        (λ _.
          Runs-instruction laws (create_cast v (llvm_type to)) live refl refl i live
            λ j live'. Runs-value _ j (refl, live'))

  -- A variable is bound in the innermost scope.
  pub declare-Runs :
      {k : ℕ} {s : Codegen} (name : Bytes) (slot : Value)
      → IsInside terminated k s
      → Runs terminated k s
          (λ _ t. (t.operands ≡ s.operands) × (t.calls ≡ s.calls))
          (declare_local name slot s)
  unfolding declare_local outer_scopes
  declare-Runs {k} {s} name slot i =
      let m = i.scoped.0 in
      let rest = i.scoped.1 in
      let e = i.scoped.2 in
      let t : Codegen = record s { scopes = update name slot m ∷ rest } in
      subst (λ o. Runs terminated k s (λ _ t. (t.operands ≡ s.operands) × (t.calls ≡ s.calls)) o)
        (sym (ap (λ scopes. with_scopes (declare_in name slot scopes) s) e))
        (holds (
          quiet-Step t i refl (λ c. c) refl (update name slot m, rest, refl)
              (sym (ap outer_scopes e)) i.sound.paired,
          (refl, refl),
        ))

  drop-Runs :
      {k : ℕ} {s : Codegen} (vs : List Value) (x : Value)
      → IsInside terminated k s
      → s.operands ≡ x ∷ vs
      → Runs terminated k s (λ _ t. t.operands ≡ vs) (drop_operand s)
  unfolding drop_operand
  drop-Runs {k} {s} vs x i e =
      subst (λ o. Runs terminated k s (λ _ t. t.operands ≡ vs) o)
        (sym (ap (λ os. without_top os s) e)) (holds (operands-Step vs i, refl))

  store_to-Runs :
      {k : ℕ} {s : Codegen} (vs : List Value) (x : Value) (slot : Option Value) (v : Var)
      (from : TType)
      → IsInside terminated k s
      → s.operands ≡ x ∷ vs
      → terminated s.calls ≡ false
      → Runs terminated k s (λ _ t. t.operands ≡ vs) (store_to slot v from s)
  unfolding emit
  store_to-Runs vs x (some slot) v from i ops live = Runs-top x vs _ ops (
      Runs-bind _ (cast-Runs v.type from x i live) λ value t st p.
        Runs-instruction laws (create_store value slot) p.1 refl refl st.inside p.1
          λ i1 l1. drop-Runs vs x i1 (p.0 ∙ ops))
  store_to-Runs {s = s} vs x none v from i ops live =
      let c = create_alloca (llvm_type v.type) v.name in
      let slot = Value.returned (length s.calls) in
      Runs-instruction laws c live refl refl i live λ i0 l0. Runs-top x vs _ ops (
        Runs-bind _ (cast-Runs v.type from x i0 l0) λ value t st p.
          Runs-instruction laws (create_store value slot) p.1 refl refl st.inside p.1 λ i1 l1.
            Runs-drop x vs _ i1 (p.0 ∙ ops)
              λ i2. first (after (create_store value slot) t) (declare-Runs v.name slot i2))
    where
      first :
          {k : ℕ} (u : Codegen) {o : Option (Unit0 × Codegen)}
          → Runs terminated k
              (with_operands vs u)
              (λ _ t. (t.operands ≡ vs) × (t.calls ≡ u.calls))
              o
          → Runs terminated k (with_operands vs u) (λ _ t. t.operands ≡ vs) o
      first u (holds h) = holds (h.0, h.1.0)

  pub visit_assignment-Statement :
      (v : Var) (from : TType) {rhs : G Unit0}
      → Operand terminated rhs
      → Statement terminated (visit_assignment v from rhs)
  unfolding visit_assignment find_local
  visit_assignment-Statement v from hr s i live = Runs-visit _ i (hr s i live) λ _ t st _ p.
      Runs-if_success tt _ st.inside (λ e c. absurd (cc))
        λ c.
          let q = p c in
          done (store_to-Runs s.operands q.0 (lookup_in v.name s.scopes) v from st.inside q.1 q.2)
    where
      done :
          {t : Codegen} {o : Option (Unit0 × Codegen)}
          → Runs terminated (length s.calls) t (λ _ u. u.operands ≡ s.operands) o
          → Runs terminated
              (length s.calls)
              t
              (λ _ u. u.is_success ≡ true → u.operands ≡ s.operands)
              o
      done (holds h) = holds (h.0, λ _. h.1)

  print-Runs :
      {k : ℕ} {s : Codegen} (vs : List Value) (ty : TType) (v : Value)
      → IsInside terminated k s
      → s.operands ≡ v ∷ vs
      → terminated s.calls ≡ false
      → Runs terminated k s (λ _ t. t.is_success ≡ true → t.operands ≡ vs) (print_value ty v s)
  unfolding emit
  print-Runs {s = s} vs TType.float v i e live =
      Runs-instruction laws (create_gep Format.format_float) live refl refl i live λ i1 l1.
        Runs-instruction laws (create_fpext v) l1 refl refl i1 l1 λ i2 l2.
          Runs-drop v vs _ i2 e λ i3.
            Runs-instruction laws
              (create_printf
                (Value.returned (length s.calls) ∷ Value.returned (suc (length s.calls)) ∷ []))
              l2 refl refl i3 l2 λ i4 l4. Runs-value tt i4 (λ _. refl)
  print-Runs {s = s} vs TType.bool v i e live =
      Runs-instruction laws (create_gep Format.format_int) live refl refl i live λ i1 l1.
        Runs-instruction laws (create_zext v) l1 refl refl i1 l1 λ i2 l2.
          Runs-drop v vs _ i2 e λ i3.
            Runs-instruction laws
              (create_printf
                (Value.returned (length s.calls) ∷ Value.returned (suc (length s.calls)) ∷ []))
              l2 refl refl i3 l2 λ i4 l4. Runs-value tt i4 (λ _. refl)
  print-Runs {s = s} vs TType.integer v i e live =
      Runs-instruction laws (create_gep Format.format_int) live refl refl i live λ i1 l1.
        Runs-drop v vs _ i1 e λ i3.
          Runs-instruction laws (create_printf (Value.returned (length s.calls) ∷ v ∷ [])) l1 refl
            refl i3 l1 λ i4 l4. Runs-value tt i4 (λ _. refl)
  print-Runs {s = s} vs TType.undefined v i e live =
      Runs-instruction laws (create_gep Format.format_int) live refl refl i live λ i1 l1.
        Runs-drop v vs _ i1 e λ i3.
          Runs-instruction laws (create_printf (Value.returned (length s.calls) ∷ v ∷ [])) l1 refl
            refl i3 l1 λ i4 l4. Runs-value tt i4 (λ _. refl)

  pub visit_print-Statement :
      (ty : TType) {e : G Unit0} → Operand terminated e → Statement terminated (visit_print ty e)
  unfolding visit_print
  visit_print-Statement ty he s i live = Runs-visit _ i (he s i live) λ _ t st _ p.
      Runs-if_success tt _ st.inside (λ e c. absurd (cc))
        λ c.
          let q = p c in
          Runs-top q.0 s.operands _ q.1 (print-Runs s.operands ty q.0 st.inside q.1 q.2)

  pub visit_return-Statement :
      {e : G Unit0} → Operand terminated e → Statement terminated (visit_return e)
  unfolding visit_return current_definition emit
  visit_return-Statement he s i live = Runs-visit _ i (he s i live) λ _ t st _ p.
      Runs-if_success tt _ st.inside (λ e c. absurd (cc))
        λ c.
          let q = p c in
          let d = st.inside.defined in
          Runs-pop q.0 s.operands _ st.inside q.1 λ i1.
            Runs-known _ (ap (λ o. deref o (with_operands s.operands t)) d.1) (
              Runs-instruction laws (create_cast q.0 (llvm_type d.0.type)) q.2 refl refl i1 q.2
                λ i2 l2.
                  Runs-terminator laws (create_ret (Value.returned (length t.calls))) l2 refl refl
                    i2 λ i3 d3. Runs-value tt i3 (λ _. refl))

  pub visit_rest-Runs :
      {k : ℕ} {s : Codegen} (vs : List Value) {rest : G Unit0}
      → Statement terminated rest
      → IsInside terminated k s
      → (s.is_success ≡ true → s.operands ≡ vs)
      → Runs terminated k s
          (λ _ t. t.is_success ≡ true → t.operands ≡ vs)
          (visit_rest terminated rest s)
  unfolding visit_rest unless_terminated
  visit_rest-Runs {k} {s} vs {rest} h i ops =
      let P = Runs terminated k s (λ _ t. t.is_success ≡ true → t.operands ≡ vs) in
      if_intro P s.is_success
        (λ c.
          if_intro P (terminated s.calls) (λ _. Runs-value tt i ops)
            (λ live. lowered (ops c) i.from (h s (inner-IsInside i) live)))
        (λ _. Runs-value tt i ops)
    where
      lowered :
          {o : Option (Unit0 × Codegen)}
          → s.operands ≡ vs
          → k ≤ length s.calls
          → Runs terminated
              (length s.calls)
              s
              (λ _ t. t.is_success ≡ true → t.operands ≡ s.operands)
              o
          → Runs terminated k s (λ _ t. t.is_success ≡ true → t.operands ≡ vs) o
      lowered e le (holds g) = holds (Step-lower le g.0, λ c. g.1 c ∙ e)

  pub pushed-IsInside :
      {k : ℕ} {s : Codegen}
      → IsInside terminated k s
      → IsInside terminated k (record s { scopes = push s.scopes })
  pushed-IsInside {s = s} i = record {
    sound = record {
      legal = i.sound.legal;
      closed = i.sound.closed;
      known = i.sound.known;
      paired = i.sound.paired;
    };
    defined = i.defined;
    scoped = ([], s.scopes, refl);
    from = i.from;
  }

  -- A block opens a scope and closes it, also where an error ends it.
  pub visit_block-Statement :
      {m : G Unit0} → Statement terminated m → Statement terminated (visit_block m)
  unfolding visit_block push_scope pop_scope outer_scopes
  visit_block-Statement {m} h s i live =
      closed (h (record s { scopes = push s.scopes }) (pushed-IsInside i) live)
    where
      restored :
          {t : Codegen}
          → Step terminated (length s.calls) (record s { scopes = push s.scopes }) t
          → Step terminated (length s.calls) s (record t { scopes = s.scopes })
      restored st = record {
        inside = record {
          sound = record {
            legal = st.inside.sound.legal;
            closed = st.inside.sound.closed;
            known = st.inside.sound.known;
            paired = st.inside.sound.paired;
          };
          defined = st.inside.defined;
          scoped = i.scoped;
          from = st.inside.from;
        };
        sticky = st.sticky;
        longer = st.longer;
        kept = st.kept;
        same_function = st.same_function;
        outer = refl;
      }

      closed :
          {o : Option (Unit0 × Codegen)}
          → Runs terminated
              (length s.calls)
              (record s { scopes = push s.scopes })
              (λ _ t. t.is_success ≡ true → t.operands ≡ s.operands)
              o
          → Runs terminated
              (length s.calls)
              s
              (λ _ t. t.is_success ≡ true → t.operands ≡ s.operands)
              (bind o (λ _ t. with_scopes (pop t.scopes) t))
      closed (holds {s = t} g) =
          let sc = g.0.inside.scoped in
          let e : t.scopes ≡ sc.0 ∷ s.scopes =
            sc.2 ∙ ap (λ r. sc.0 ∷ r) (sym (ap outer_scopes sc.2) ∙ g.0.outer) in
          subst
            (λ o.
              Runs terminated (length s.calls) s
                (λ _ t. t.is_success ≡ true → t.operands ≡ s.operands) o)
            (sym (ap (λ scopes. with_scopes (pop scopes) t) e)) (holds (restored g.0, g.1))

-- ===== src/Codegen/Check/Statements.antt =====
-- The visitors of statements without blocks report an error just if the check fails.
use pudl.Prelude.{
  ℕ, ◌≡◌, refl, ap, subst, ◌&&◌, Bool, true, false, List, [], ◌∷◌, Bytes, Option, none, some,
  if◌then◌else◌, arith, if_intro,
}
use pudl.Prelude.Map.{Map, update}
use pudl.Ast.{TType, Var}
use pudl.Codegen.Calls.{Call, Value, create_store}
use pudl.Codegen.ScopeStack.{Scopes, declare_in, lookup_in}
use pudl.Codegen.State.{Codegen, G, emit, with_scopes, declare_local, find_local}
use pudl.Codegen.Ensures.{Legal}
use pudl.Codegen.Rules.{Unit0}
use pudl.Codegen.Statement.{
  same_type, cast_unless_same, store_to, visit_assignment, print_value, visit_print, visit_return,
}
use pudl.Codegen.Check.{Names, is_visible, declare_name}
use pudl.Codegen.Check.Leads.{
  same, more, Legal-Grown, ended, Leads, arrives, crashes, Leads-call, Leads-bind, Leads-if_success,
  Leads-pop, Leads-top, Leads-drop, Leads-dropped,
}
use pudl.Codegen.Check.Views.{
  is_some, SameNames, lookup-is_visible, declare-SameNames, Ready, Leads-current_definition,
}
use pudl.Codegen.Check.Outcomes.{Out, Outcome, Out-stopped, Out-calls, Out-at}
use pudl.Codegen.Check.Expressions.{Checked}

-- The names behind an assignment.
abbrev pub stored : Bytes → Names → Names
stored name names = if is_visible name names then names else declare_name name names

module _ (terminated : List Call → Bool) (arities : Map ℕ) where
  -- The visitor of a statement that passes the check or not, with the names behind it, and whether it
  -- closes the block.
  abbrev pub CheckedStatement : Names → Bool → Names → Bool → G Unit0 → Type 0
  CheckedStatement names ok later end m =
      (s : Codegen)
      → (Legal terminated s.calls → Ready arities names false s)
      → Leads terminated s (λ _ t. Outcome arities s ok later end t) (m s)

  module _ {names : Names} where
    print_value-Leads :
        (s t : Codegen) (ok : Bool) (ty : TType) (v : Value)
        → (Legal terminated t.calls → Outcome arities s ok names false t)
        → Leads terminated t (λ _ u. Outcome arities s ok names false u) (print_value ty v t)
    unfolding emit ended
    print_value-Leads s t ok TType.float v p =
        Leads-call _ (
          Leads-call _ (Leads-drop _ λ vs. arrives (more _ same) (λ l. Out-calls (p l.1.1.1) refl)))
    print_value-Leads s t ok TType.bool v p =
        Leads-call _ (
          Leads-call _ (Leads-drop _ λ vs. arrives (more _ same) (λ l. Out-calls (p l.1.1.1) refl)))
    print_value-Leads s t ok TType.integer v p =
        Leads-call _ (Leads-drop _ λ vs. arrives (more _ same) (λ l. Out-calls (p l.1.1) refl))
    print_value-Leads s t ok TType.undefined v p =
        Leads-call _ (Leads-drop _ λ vs. arrives (more _ same) (λ l. Out-calls (p l.1.1) refl))

    module _ {ok : Bool} {m : G Unit0} (h : Checked terminated arities names ok m) where
      pub visit_print-Checked :
          (ty : TType) → CheckedStatement names ok names false (visit_print ty m)
      unfolding visit_print
      visit_print-Checked ty s ready = Leads-bind _ (h s ready) λ _ t g p.
          Leads-if_success tt _ (λ e l. p l) λ c. Leads-top _ λ v. print_value-Leads s t ok ty v p

      pub visit_return-Checked : CheckedStatement names ok names true (visit_return m)
      unfolding visit_return emit ended
      visit_return-Checked s ready = Leads-bind _ (h s ready) λ _ t g p.
          Leads-if_success tt _ (λ e l. Out-stopped names true (p l) e)
            λ c. Leads-pop _ λ v vs.
              Leads-current_definition _
                λ d. arrives (more _ (more _ same)) (λ l. Out-at (p l.1.1) refl)

    pub declare-Leads :
        (s t : Codegen) (ok : Bool) (name : Bytes) (slot : Value) (later : Names)
        → (Legal terminated t.calls
            → Outcome arities s ok names false t × (declare_name name names ≡ later))
        → Leads terminated t (λ _ u. Outcome arities s ok later false u) (declare_local name slot t)
    unfolding declare_local
    declare-Leads s t ok name slot later p = by_scopes t.scopes p
      where
        by_scopes :
            (scopes : Scopes Value)
            → (Legal terminated t.calls
                → Out arities s.is_success ok names false t.is_success t.calls scopes t.funcs
                    t.ast_funcs
                  × (declare_name name names ≡ later))
            → Leads terminated t
                (λ _ u. Outcome arities s ok later false u)
                (with_scopes (declare_in name slot scopes) t)
        by_scopes [] p = crashes
        by_scopes (m ∷ rest) p = arrives same λ l.
            let q = (p l).0 in
            record {
              result = q.result;
              ready = λ c. (
                record {
                  scoped =
                      subst (λ n. SameNames n (update name slot m ∷ rest)) (p l).1
                        (declare-SameNames name slot m rest names (q.ready c).0.scoped);
                  functions = (q.ready c).0.functions;
                },
                (q.ready c).1,
              );
            }

    cast-Leads :
        (s t : Codegen) (ok : Bool) (to from : TType) (v : Value)
        → (Legal terminated t.calls → Outcome arities s ok names false t)
        → Leads terminated t
            (λ _ u. Outcome arities s ok names false u)
            (cast_unless_same to from v t)
    unfolding cast_unless_same emit ended
    cast-Leads s t ok to from v p =
        if_intro (Leads terminated t (λ _ u. Outcome arities s ok names false u))
          (same_type to from) (λ _. arrives same p)
          (λ _. arrives (more _ same) (λ l. Out-calls (p l.1) refl))

    store_to-Leads :
        (s t : Codegen) (ok : Bool) (o : Option Value) (v : Var) (from : TType)
        → (Legal terminated t.calls → Outcome arities s ok names false t)
        → (Legal terminated t.calls → t.is_success ≡ true → is_some o ≡ is_visible v.name names)
        → t.is_success ≡ true
        → Leads terminated t
            (λ _ u. Outcome arities s ok (stored v.name names) false u)
            (store_to o v from t)
    unfolding emit ended
    store_to-Leads s t ok (some slot) v from p visible c = Leads-top _ λ x.
        Leads-bind _ (cast-Leads s t ok v.type from x p) λ y u g q.
          Leads-call (create_store y slot) (
            Leads-dropped λ vs l.
              subst
                (λ n.
                  Outcome arities s ok n false (record u { calls = create_store y slot ∷ u.calls }))
                (ap (λ b. if b then names else declare_name v.name names)
                  (visible (Legal-Grown terminated g l.1) c))
                (Out-calls (q l.1) refl))
    store_to-Leads s t ok none v from p visible c = Leads-call _ (
        Leads-top _ λ x.
          Leads-bind _ (cast-Leads s _ ok v.type from x (λ l. Out-calls (p l.1) refl)) λ y u g q.
            Leads-call _ (
              Leads-drop _ λ vs. declare-Leads s _ ok v.name _ (stored v.name names) λ l. (
                Out-calls (q l.1) refl,
                ap (λ b. if b then names else declare_name v.name names)
                    (visible (Legal-Grown terminated g l.1).1 c),
              )))

    pub visit_assignment-Checked :
        {ok : Bool} {m : G Unit0} (v : Var) (from : TType)
        → Checked terminated arities names ok m
        → CheckedStatement names ok (stored v.name names) false (visit_assignment v from m)
    unfolding visit_assignment find_local
    visit_assignment-Checked {ok} v from h s ready = Leads-bind _ (h s ready) λ _ t g p.
        Leads-if_success tt _ (λ e l. Out-stopped (stored v.name names) false (p l) e)
          λ c.
            store_to-Leads s t ok (lookup_in v.name s.scopes) v from p
              (λ l _.
                lookup-is_visible v.name names s.scopes
                  (ready (Legal-Grown terminated g l) (went_well (p l).result c)).0.scoped)
              c
      where
        went_well : {t : Bool} → t ≡ (s.is_success && ok) → t ≡ true → s.is_success ≡ true
        went_well e c = ground (arith, e, c)

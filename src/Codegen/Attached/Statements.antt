-- ===== src/Codegen/Attached/Statements.antt =====
-- The visitors of statements write to attached blocks only.
use pudl.Prelude.{
  ℕ, ◌≡◌, refl, Bool, true, false, List, [], ◌∷◌, Bytes, Option, none, some, if◌then◌else◌,
  if_intro,
}
use pudl.Ast.{TType, Var}
use pudl.Codegen.Calls.{Call, Value, create_store, create_br}
use pudl.Codegen.ScopeStack.{Scopes, pop, push, declare_in, lookup_in}
use pudl.Codegen.State.{
  Codegen, G, bind, emit, with_scopes, declare_local, push_scope, pop_scope, find_local,
}
use pudl.Codegen.Ensures.{Legal}
use pudl.Codegen.Rules.{Unit0}
use pudl.Codegen.Statement.{
  same_type, cast_unless_same, store_to, visit_assignment, print_value, visit_print, visit_return,
  unless_terminated, visit_rest, visit_block, branch_to, begin_attached, leave,
}
use pudl.Codegen.Check.Leads.{
  same, more, Leads, arrives, crashes, Leads-from, Leads-call, Leads-bind, Leads-if_success,
  Leads-pop, Leads-top, Leads-drop, Leads-dropped,
}
use pudl.Codegen.Check.Views.{Leads-current_definition}
use pudl.Codegen.Attached.{latest, AllAttached, insert-IsAttached, Generates, Inv-calls, Keeps}

module _ (terminated : List Call → Bool) where
  pub visit_print-Keeps :
      (ty : TType) {m : G Unit0} → Keeps terminated m → Keeps terminated (visit_print ty m)
  unfolding visit_print emit latest AllAttached
  visit_print-Keeps ty h f s ready =
      Leads-bind _ (h f s ready)
        λ _ t g p. Leads-if_success tt _ (λ e l. p l) λ c. Leads-top _ λ v. printed ty v t p
    where
      printed :
          (ty : TType) (v : Value) (t : Codegen)
          → (Legal terminated t.calls → Generates f t)
          → Leads terminated t (λ _ u. Generates f u) (print_value ty v t)
      printed TType.float v t p = Leads-call _ (
          Leads-call _ (
            Leads-drop _
              λ vs. arrives (more _ same) (λ l. Inv-calls (p l.1.1.1) refl (p l.1.1.1).attached)))
      printed TType.bool v t p = Leads-call _ (
          Leads-call _ (
            Leads-drop _
              λ vs. arrives (more _ same) (λ l. Inv-calls (p l.1.1.1) refl (p l.1.1.1).attached)))
      printed TType.integer v t p = Leads-call _ (
          Leads-drop _
            λ vs. arrives (more _ same) (λ l. Inv-calls (p l.1.1) refl (p l.1.1).attached))
      printed TType.undefined v t p = Leads-call _ (
          Leads-drop _
            λ vs. arrives (more _ same) (λ l. Inv-calls (p l.1.1) refl (p l.1.1).attached))

  pub visit_return-Keeps : {m : G Unit0} → Keeps terminated m → Keeps terminated (visit_return m)
  unfolding visit_return emit latest AllAttached
  visit_return-Keeps h f s ready = Leads-bind _ (h f s ready) λ _ t g p.
      Leads-if_success tt _ (λ e l. p l)
        λ c. Leads-pop _ λ v vs.
          Leads-current_definition _
            λ d. arrives (more _ (more _ same)) (λ l. Inv-calls (p l.1.1) refl (p l.1.1).attached)

  pub declare-Keeps : (name : Bytes) (slot : Value) → Keeps terminated (declare_local name slot)
  unfolding declare_local
  declare-Keeps name slot f t p = by_scopes t.scopes
    where
      by_scopes :
          (scopes : Scopes Value)
          → Leads terminated t (λ _ u. Generates f u) (with_scopes (declare_in name slot scopes) t)
      by_scopes [] = crashes
      by_scopes (m ∷ rest) = arrives same p

  cast-Keeps : (to from : TType) (v : Value) → Keeps terminated (cast_unless_same to from v)
  unfolding cast_unless_same emit latest AllAttached
  cast-Keeps to from v f t p =
      if_intro (Leads terminated t (λ _ u. Generates f u)) (same_type to from) (λ _. arrives same p)
        (λ _. arrives (more _ same) (λ l. Inv-calls (p l.1) refl (p l.1).attached))

  store_to-Keeps :
      (o : Option Value) (v : Var) (from : TType) → Keeps terminated (store_to o v from)
  unfolding emit latest AllAttached
  store_to-Keeps (some slot) v from f t p = Leads-top _ λ x.
      Leads-bind _ (cast-Keeps v.type from x f t p) λ y u g q.
        Leads-call (create_store y slot)
          (Leads-dropped λ vs l. Inv-calls (q l.1) refl (q l.1).attached)
  store_to-Keeps none v from f t p = Leads-call _ (
      Leads-top _ λ x.
        Leads-bind _ (cast-Keeps v.type from x f _ (λ l. Inv-calls (p l.1) refl (p l.1).attached))
          λ y u g q. Leads-call _ (
            Leads-drop _
              λ vs. declare-Keeps v.name _ f _ (λ l. Inv-calls (q l.1) refl (q l.1).attached)))

  pub visit_assignment-Keeps :
      (v : Var) (from : TType) {m : G Unit0}
      → Keeps terminated m
      → Keeps terminated (visit_assignment v from m)
  unfolding visit_assignment find_local
  visit_assignment-Keeps v from h f s ready = Leads-bind _ (h f s ready) λ _ t g p.
      Leads-if_success tt _ (λ e l. p l)
        λ c. store_to-Keeps (lookup_in v.name s.scopes) v from f t p

  pub visit_block-Keeps : {m : G Unit0} → Keeps terminated m → Keeps terminated (visit_block m)
  unfolding visit_block push_scope pop_scope
  visit_block-Keeps h f s ready =
      Leads-bind _ (Leads-from same (h f (record s { scopes = push s.scopes }) ready))
        λ _ t g p. closed t t.scopes p
    where
      closed :
          (t : Codegen) (scopes : Scopes Value)
          → (Legal terminated t.calls → Generates f t)
          → Leads terminated t (λ _ u. Generates f u) (with_scopes (pop scopes) t)
      closed t [] p = crashes
      closed t (m ∷ rest) p = arrives same p

  pub visit_rest-Keeps :
      {k : G Unit0} → Keeps terminated k → Keeps terminated (visit_rest terminated k)
  unfolding visit_rest unless_terminated
  visit_rest-Keeps {k} h f t p =
      let P = Leads terminated t (λ _ u. Generates f u) in
      if_intro P t.is_success
        (λ _. if_intro P (terminated t.calls) (λ _. arrives same p) (λ _. h f t p))
        (λ _. arrives same p)

  -- The function at hand.
  abbrev pub Own : ℕ → Option ℕ → Codegen → Type 0
  Own f func t = Legal terminated t.calls → func ≡ some f

  pub begin-Keeps :
      (f : ℕ) (t : Codegen) (bb : ℕ) (func : Option ℕ)
      → Own f func t
      → (Legal terminated t.calls → Generates f t)
      → Leads terminated t (λ _ u. Generates f u) (begin_attached bb func t)
  unfolding emit latest AllAttached
  begin-Keeps f t bb func own p = arrives (more _ (more _ same)) λ l.
      Inv-calls (p l.1.1) refl
        (insert-IsAttached bb func _ (own l.1.1) (p l.1.1).is_latest, (p l.1.1).attached)

  pub leave-Keeps :
      (f : ℕ) (t : Codegen) (target bb : ℕ) (func : Option ℕ)
      → Own f func t
      → (Legal terminated t.calls → Generates f t)
      → Leads terminated t (λ _ u. Generates f u) (leave terminated target bb func t)
  unfolding unless_terminated emit latest AllAttached
  leave-Keeps f t target bb func own p = by_test (terminated t.calls)
    where
      by_test :
          (b : Bool)
          → Leads terminated t
              (λ _ u. Generates f u)
              (bind (if b then some (tt, t) else branch_to target t) (λ _. begin_attached bb func))
      by_test true = begin-Keeps f t bb func own p
      by_test false =
          Leads-call (create_br target)
            (begin-Keeps f _ bb func (λ l. own l.1) (λ l. Inv-calls (p l.1) refl (p l.1).attached))

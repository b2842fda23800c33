-- ===== src/Codegen/Attached/Blocks.antt =====
-- The visitors of branches and loops attach their blocks before they write to them.
use pudl.Prelude.{ℕ, refl, Bool, List, ◌∷◌, Option, none, some, if_intro}
use pudl.Ast.{Stmt, Stmts, type_of}
use pudl.Codegen.Calls.{Call, create_cond_br, set_insert_point}
use pudl.Codegen.State.{Codegen, G, emit}
use pudl.Codegen.Ensures.{Legal}
use pudl.Codegen.Rules.{Unit0}
use pudl.Codegen.Statement.{
  begin_attached, leave, visit_optional, branches, visit_if, loop_blocks, visit_while, test_again,
  test_unless_terminated, visit_do_while, visit_stmt, visit_stmts,
}
use pudl.Codegen.Check.Leads.{
  same, Legal-Grown, Leads, arrives, Leads-call, Leads-bind, Leads-if_success, Leads-pop,
}
use pudl.Codegen.Attached.{
  latest, IsAttached, before, AllAttached, IsAttached-Grown, create-IsAttached, Generates,
  Inv-calls, Keeps, Leads-own_function,
}
use pudl.Codegen.Attached.Expressions.{visit_expr-Keeps}
use pudl.Codegen.Attached.Statements.{
  visit_print-Keeps, visit_return-Keeps, visit_assignment-Keeps, visit_block-Keeps,
  visit_rest-Keeps, Own, begin-Keeps, leave-Keeps,
}

module _ (terminated : List Call → Bool) where
  -- The branch behind `else`, if there is one.
  abbrev KeepsOptional : Option (G Unit0) → Type 0
  KeepsOptional none = Unit
  KeepsOptional (some m) = Keeps terminated m

  optional-Keeps :
      (f : ℕ) (t : Codegen) (func : Option ℕ) (c : ℕ) (other : Option (G Unit0))
      → KeepsOptional other
      → Own terminated f func t
      → (Legal terminated t.calls → Generates f t)
      → Leads terminated t
          (λ _ u. Generates f u)
          (visit_optional other (leave terminated c c func) t)
  optional-Keeps f t func c none h own p = leave-Keeps terminated f t c c func own p
  optional-Keeps f t func c (some m) h own p = Leads-bind _ (h f t p) λ _ u g q.
      Leads-if_success tt _ (λ e l. q l)
        λ e. leave-Keeps terminated f u c c func (λ l. own (Legal-Grown terminated g l)) q

  branches-Keeps :
      (f : ℕ) (t : Codegen) (func : Option ℕ) (a b c : ℕ) {m : G Unit0} (other : Option (G Unit0))
      → Keeps terminated m
      → KeepsOptional other
      → Own terminated f func t
      → (Legal terminated t.calls → IsAttached a t.calls)
      → (Legal terminated t.calls → Generates f t)
      → Leads terminated t (λ _ u. Generates f u) (branches terminated func a b c m other t)
  unfolding emit latest AllAttached
  branches-Keeps f t func a b c other hm ho own attached p = Leads-call (set_insert_point a) (
      Leads-bind _ (hm f _ (λ l. Inv-calls (p l.1) refl (attached l.1, (p l.1).attached)))
        λ _ u g q.
          Leads-if_success tt _ (λ e l. q l)
            λ e.
              Leads-bind _
                (leave-Keeps terminated f u c b func (λ l. own (Legal-Grown terminated g l).1) q)
                λ _ v g' r.
                  optional-Keeps f v func c other ho
                    (λ l. own (Legal-Grown terminated g (Legal-Grown terminated g' l)).1) r)

  visit_if-Keeps :
      {cond m : G Unit0} (other : Option (G Unit0))
      → Keeps terminated cond
      → Keeps terminated m
      → KeepsOptional other
      → Keeps terminated (visit_if terminated cond m other)
  unfolding visit_if emit latest AllAttached
  visit_if-Keeps other hc hm ho f s ready = Leads-own_function _ f ready λ func fs own ready'.
      Leads-bind _ (hc f (record s { funcs = fs }) ready') λ _ t g p.
        Leads-if_success tt _ (λ e l. p l)
          λ e. Leads-pop _ λ v vs. Leads-call _ (
            Leads-call _ (
              Leads-call _ (
                Leads-call _ (
                  branches-Keeps f _ func _ _ _ other hm ho
                    (λ l. own (Legal-Grown terminated g l.1.1.1.1))
                    (λ l. before (
                      before (
                        before (
                          create-IsAttached _ func _ (own (Legal-Grown terminated g l.1.1.1.1))
                            (p l.1.1.1.1).is_latest))))
                    (λ l. Inv-calls (p l.1.1.1.1) refl (p l.1.1.1.1).attached)))))

  loop_blocks-Keeps :
      (f : ℕ) (t : Codegen) (func : Option ℕ) (a b c : ℕ) {cond m : G Unit0}
      → Keeps terminated cond
      → Keeps terminated m
      → Own terminated f func t
      → (Legal terminated t.calls → IsAttached a t.calls)
      → (Legal terminated t.calls → IsAttached b t.calls)
      → (Legal terminated t.calls → Generates f t)
      → Leads terminated t (λ _ u. Generates f u) (loop_blocks terminated func a b c cond m t)
  unfolding emit latest AllAttached
  loop_blocks-Keeps f t func a b c hc hm own at_a at_b p = Leads-call (set_insert_point a) (
      Leads-bind _ (hc f _ (λ l. Inv-calls (p l.1) refl (at_a l.1, (p l.1).attached))) λ _ u g q.
        Leads-if_success tt _ (λ e l. q l)
          λ e. Leads-pop _ λ v vs.
            let br = create_cond_br v b c in
            let w0 : Codegen = record u {
              calls = set_insert_point b ∷ br ∷ u.calls;
              operands = vs;
            } in
            Leads-call br (
              Leads-call (set_insert_point b) (
                Leads-bind {s = w0} _
                  (hm f w0 (λ l. Inv-calls (q l.1.1) refl (
                    before
                        (IsAttached-Grown b g (before (at_b (Legal-Grown terminated g l.1.1).1))),
                    (q l.1.1).attached,
                  )))
                  λ _ w g' r.
                    Leads-if_success tt _ (λ e l. r l)
                      λ e.
                        leave-Keeps terminated f w a c func
                          (λ l. own (Legal-Grown terminated g (Legal-Grown terminated g' l).1.1).1)
                          r)))

  visit_while-Keeps :
      {cond m : G Unit0}
      → Keeps terminated cond
      → Keeps terminated m
      → Keeps terminated (visit_while terminated cond m)
  unfolding visit_while emit latest AllAttached
  visit_while-Keeps hc hm f s ready = Leads-own_function _ f ready λ func fs own ready'.
      Leads-call _ (
        Leads-call _ (
          Leads-call _ (
            Leads-call _ (
              loop_blocks-Keeps f _ func _ _ _ hc hm (λ l. own l.1.1.1.1)
                (λ l. before (
                  before (
                    before
                      (create-IsAttached _ func _ (own l.1.1.1.1) (ready' l.1.1.1.1).is_latest))))
                (λ l. before (
                  before (create-IsAttached _ func _ (own l.1.1.1.1) (ready' l.1.1.1.1).is_latest)))
                (λ l. Inv-calls (ready' l.1.1.1.1) refl (ready' l.1.1.1.1).attached)))))

  module _ {cond : G Unit0} (hc : Keeps terminated cond) where
    test-Keeps :
        (f : ℕ) (t : Codegen) (a b : ℕ) (func : Option ℕ)
        → Own terminated f func t
        → (Legal terminated t.calls → Generates f t)
        → Leads terminated t
            (λ _ u. Generates f u)
            (test_unless_terminated terminated (begin_attached b func) (test_again cond a b func) t)
    unfolding test_unless_terminated emit latest AllAttached
    test-Keeps f t a b func own p =
        if_intro (Leads terminated t (λ _ u. Generates f u)) (terminated t.calls)
          (λ _. begin-Keeps terminated f t b func own p)
          (λ _. Leads-bind _ (hc f t p) λ _ u g q.
            Leads-if_success tt _ (λ e l. q l)
              λ e. Leads-pop _ λ v vs. Leads-call (create_cond_br v a b) (
                begin-Keeps terminated f _ b func (λ l. own (Legal-Grown terminated g l.1))
                  (λ l. Inv-calls (q l.1) refl (q l.1).attached)))

    visit_do_while-Keeps :
        {m : G Unit0} → Keeps terminated m → Keeps terminated (visit_do_while terminated m cond)
    unfolding visit_do_while emit latest AllAttached
    visit_do_while-Keeps hm f s ready = Leads-own_function _ f ready λ func fs own ready'.
        Leads-call _ (
          Leads-call _ (
            Leads-call _ (
              Leads-call _ (
                Leads-bind _
                  (hm f _ (λ l. Inv-calls (ready' l.1.1.1.1) refl (
                    before (
                        before (
                          create-IsAttached _ func _ (own l.1.1.1.1) (ready' l.1.1.1.1).is_latest)),
                    (ready' l.1.1.1.1).attached,
                  )))
                  λ _ t g p.
                    Leads-if_success tt _ (λ e l. p l)
                      λ e.
                        test-Keeps f t _ _ func (λ l. own (Legal-Grown terminated g l).1.1.1.1)
                          p))))

  mutual
    unfolding visit_stmt visit_stmts

    pub visit_stmt-Keeps : (x : Stmt) → Keeps terminated (visit_stmt terminated x)
    visit_stmt-Keeps (Stmt.io_print e) f s p =
        visit_print-Keeps terminated (type_of e) (visit_expr-Keeps terminated e) f s p
    visit_stmt-Keeps (Stmt.ret e) f s p =
        visit_return-Keeps terminated (visit_expr-Keeps terminated e) f s p
    visit_stmt-Keeps (Stmt.wrapper e) f s p = arrives same p
    visit_stmt-Keeps (Stmt.assignment v e) f s p =
        visit_assignment-Keeps terminated v (type_of e) (visit_expr-Keeps terminated e) f s p
    visit_stmt-Keeps (Stmt.block b) f s p = visit_block-Keeps terminated (visit_stmts-Keeps b) f s p
    visit_stmt-Keeps (Stmt.if_then e x) f s p =
        visit_if-Keeps none (visit_expr-Keeps terminated e) (visit_stmt-Keeps x) tt f s p
    visit_stmt-Keeps (Stmt.if_else e x y) f s p =
        visit_if-Keeps (some (visit_stmt terminated y)) (visit_expr-Keeps terminated e)
          (visit_stmt-Keeps x) (visit_stmt-Keeps y) f s p
    visit_stmt-Keeps (Stmt.while_stmt e x) f s p =
        visit_while-Keeps (visit_expr-Keeps terminated e) (visit_stmt-Keeps x) f s p
    visit_stmt-Keeps (Stmt.do_while x e) f s p =
        visit_do_while-Keeps (visit_expr-Keeps terminated e) (visit_stmt-Keeps x) f s p

    visit_stmts-Keeps : (b : Stmts) → Keeps terminated (visit_stmts terminated b)
    visit_stmts-Keeps Stmts.no_stmts f s p = arrives same p
    visit_stmts-Keeps (Stmts.stmt x b) f s p =
        Leads-bind _ (visit_stmt-Keeps x f s p)
          λ _ t g q. visit_rest-Keeps terminated (visit_stmts-Keeps b) f t q

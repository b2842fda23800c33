-- ===== src/Codegen/Check/Loops.antt =====
-- The visitors of loops report an error just if the check fails.
use pudl.Prelude.{
  ℕ, ◌≡◌, refl, ap, ◌∙◌, ◌&&◌, ◌||◌, Bool, true, false, List, ◌∷◌, Option, some, if_intro,
}
use pudl.Prelude.Map.{Map}
use pudl.Codegen.Calls.{Call, create_cond_br, set_insert_point}
use pudl.Codegen.State.{Codegen, G, emit}
use pudl.Codegen.Ensures.{TerminatorLaws, Legal}
use pudl.Codegen.Rules.{Unit0}
use pudl.Codegen.Statement.{
  begin_attached, loop_blocks, visit_while, test_again, test_unless_terminated, visit_do_while,
}
use pudl.Codegen.Check.{Names}
use pudl.Codegen.Check.Leads.{
  same, more, Legal-Grown, ended, Leads, arrives, Leads-call, Leads-weaken, Leads-bind,
  Leads-if_success, Leads-pop,
}
use pudl.Codegen.Check.Views.{Ready, Ready-funcs, Leads-current_function}
use pudl.Codegen.Check.Outcomes.{Outcome, Out-both, Out-stopped, Out-failed, Out-at, Outcome-passed}
use pudl.Codegen.Check.Expressions.{Checked}
use pudl.Codegen.Check.Statements.{CheckedStatement}
use pudl.Codegen.Check.Blocks.{answer, leave-Leads}

module _ {arities : Map ℕ} (s t : Codegen) where
  body_closes :
      (later : Names) (x y returned : Bool)
      → returned ≡ true
      → Outcome arities s x later returned t
      → Outcome arities s (x && (returned || y)) later returned t
  body_closes later x y true e p = Out-both p (Outcome-passed t p.ready)
  body_closes later x y false e p = absurd (cc)

  body_goes_on :
      (u : Codegen) (later : Names) (x y returned : Bool)
      → returned ≡ false
      → Outcome arities s x later returned t
      → Outcome arities t y later false u
      → Outcome arities s (x && (returned || y)) later false u
  body_goes_on u later x y false e p q = Out-both p q
  body_goes_on u later x y true e p q = absurd (cc)

module _ (terminated : List Call → Bool) (arities : Map ℕ) where
  loop_blocks-Leads :
      {names later : Names} {x y returned : Bool} {cond m : G Unit0} (s t : Codegen)
      (func : Option ℕ) (a b c : ℕ)
      → Checked terminated arities names x cond
      → CheckedStatement terminated arities names y later returned m
      → (Legal terminated t.calls → Outcome arities s true names true t)
      → Leads terminated t
          (λ _ u. Outcome arities s (true && (x && y)) later false u)
          (loop_blocks terminated func a b c cond m t)
  unfolding emit ended
  loop_blocks-Leads {names} {later} {x} {y} s t func a b c hc hm p =
      Leads-call (set_insert_point a) (
        Leads-bind _
          (hc _
            (λ l. (Out-at {cs = set_insert_point a ∷ t.calls} {end = false} (p l.1) refl).ready))
          λ _ u g q.
            Leads-if_success tt _
              (λ e l.
                Out-both (p (Legal-Grown terminated g l).1) (Out-failed later false y (q l) e))
              λ e. Leads-pop _ λ v vs.
                let br = create_cond_br v b c in
                let enter = set_insert_point b in
                Leads-call br (
                  Leads-call enter (
                    Leads-bind _
                      (hm _ (λ l.
                        (Out-at {cs = enter ∷ br ∷ u.calls} {end = false} (q l.1.1) refl).ready))
                      λ _ w g' r.
                        Leads-if_success tt _
                          (λ e l.
                            let l' = (Legal-Grown terminated g' l).1.1 in
                            Out-both (p (Legal-Grown terminated g l').1)
                              (Out-both (q l') (Out-stopped later false (r l) e)))
                          λ e. leave-Leads terminated arities s w a c func λ l.
                            let l' = (Legal-Grown terminated g' l).1.1 in
                            Out-both (p (Legal-Grown terminated g l').1) (Out-both (q l') (r l)))))

  pub visit_while-Checked :
      {names later : Names} {x y returned : Bool} {cond m : G Unit0}
      → Checked terminated arities names x cond
      → CheckedStatement terminated arities names y later returned m
      → CheckedStatement terminated arities names
          (x && y)
          later
          false
          (visit_while terminated cond m)
  unfolding visit_while emit ended
  visit_while-Checked hc hm s ready = Leads-current_function _ λ func fs same_funcs. Leads-call _ (
      Leads-call _ (
        Leads-call _ (
          Leads-call _ (
            loop_blocks-Leads s _ func _ _ _ hc hm λ l.
              Out-at
                (Outcome-passed (record s { funcs = fs })
                  (Ready-funcs s fs same_funcs (ready l.1.1.1.1)))
                refl))))

  module _ (laws : TerminatorLaws terminated) {names later : Names} {x y returned : Bool}
      {cond m : G Unit0} (hm : CheckedStatement terminated arities names x later returned m)
      (hc : Checked terminated arities later y cond) where
    test_again-Leads :
        (s : Codegen) (a b : ℕ) (func : Option ℕ)
        → (Legal terminated s.calls → Ready arities later false s)
        → Leads terminated s (λ _ t. Outcome arities s y later false t) (test_again cond a b func s)
    unfolding emit ended
    test_again-Leads s a b func ready = Leads-bind _ (hc s ready) λ _ t g p.
        Leads-if_success tt _ (λ e l. p l)
          λ e.
            Leads-pop _
              λ v vs. arrives (more _ (more _ (more _ same))) (λ l. Out-at (p l.1.1.1) refl)

    test-Leads :
        (s t : Codegen) (a b : ℕ) (func : Option ℕ)
        → (Legal terminated t.calls → Outcome arities s x later returned t)
        → t.is_success ≡ true
        → Leads terminated t
            (λ _ u. Outcome arities s (x && (returned || y)) later false u)
            (test_unless_terminated terminated (begin_attached b func) (test_again cond a b func) t)
    unfolding test_unless_terminated emit ended
    test-Leads s t a b func p c =
        if_intro
          (Leads terminated t (λ _ u. Outcome arities s (x && (returned || y)) later false u))
          (terminated t.calls)
          (λ d. arrives (more _ (more _ same)) λ l.
            Out-at
              (body_closes s t later x y returned (answer laws t returned true (p l.1.1) c d l.1.1)
                (p l.1.1))
              refl)
          (λ d.
            Leads-weaken
              (λ _ u g l q.
                let l' = Legal-Grown terminated g l in
                body_goes_on s t u later x y returned (answer laws t returned false (p l') c d l')
                  (p l') q)
              (test_again-Leads t a b func λ l c'. (
                ((p l).ready c').0,
                ((p l).ready c').1 ∙ ap some (answer laws t returned false (p l) c d l),
              )))

    pub visit_do_while-Checked :
        CheckedStatement terminated arities names
          (x && (returned || y))
          later
          false
          (visit_do_while terminated m cond)
    unfolding visit_do_while emit ended test_unless_terminated
    visit_do_while-Checked s ready = Leads-current_function _ λ func fs same_funcs. Leads-call _ (
        Leads-call _ (
          Leads-call _ (
            Leads-call _ (
              Leads-bind _
                (hm _ (λ l c. ((Ready-funcs s fs same_funcs (ready l.1.1.1.1) c).0, refl)))
                λ _ t g p.
                  Leads-if_success tt _ (λ e l. Out-failed later false (returned || y) (p l) e)
                    λ e. test-Leads s t _ _ func p e))))

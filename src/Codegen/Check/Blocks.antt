-- ===== src/Codegen/Check/Blocks.antt =====
-- The visitors of blocks and branches report an error just if the check fails.
use pudl.Prelude.{
  ℕ, ◌≡◌, refl, sym, ap, ◌∙◌, ◌&&◌, ◌||◌, Bool, true, false, List, [], ◌∷◌, Bytes, Option, none,
  some, if◌then◌else◌, if_intro,
}
use pudl.Prelude.Map.{Map, lookup}
use pudl.Codegen.Calls.{Call, Value, set_insert_point}
use pudl.Codegen.ScopeStack.{Scopes, pop, push}
use pudl.Codegen.State.{Codegen, G, bind, ◌>>=◌, emit, with_scopes, push_scope, pop_scope}
use pudl.Codegen.Ensures.{TerminatorLaws, Legal}
use pudl.Codegen.Rules.{Unit0}
use pudl.Codegen.Statement.{
  unless_terminated, visit_rest, visit_block, branch_to, begin_attached, leave, visit_optional,
  branches, visit_if,
}
use pudl.Codegen.Check.{Names, has_name}
use pudl.Codegen.Check.Leads.{
  same, more, Legal-Grown, ended, terminated-ended, Leads, arrives, crashes, Leads-from, Leads-call,
  Leads-weaken, Leads-bind, Leads-if_success, Leads-pop,
}
use pudl.Codegen.Check.Views.{SameNames, Ready, Ready-funcs, Leads-current_function}
use pudl.Codegen.Check.Outcomes.{
  Out, Outcome, Out-both, Out-stopped, Out-failed, Out-at, Outcome-passed,
}
use pudl.Codegen.Check.Expressions.{Checked}
use pudl.Codegen.Check.Statements.{CheckedStatement}

module _ {arities : Map ℕ} (s t : Codegen) where
  statement_closes :
      (middle later : Names) (x y end returned : Bool)
      → returned ≡ true
      → t.is_success ≡ true
      → Outcome arities s x middle returned t
      → Outcome arities s
          (x && (returned || y))
          (if returned then middle else later)
          (returned || end)
          t
  statement_closes middle later x y end true e c p = Out-both p (Outcome-passed t p.ready)
  statement_closes middle later x y end false e c p = absurd (cc)

  statement_goes_on :
      (u : Codegen) (middle later : Names) (x y end returned : Bool)
      → returned ≡ false
      → t.is_success ≡ true
      → Outcome arities s x middle returned t
      → Outcome arities t y later end u
      → Outcome arities s
          (x && (returned || y))
          (if returned then middle else later)
          (returned || end)
          u
  statement_goes_on u middle later x y end false e c p q = Out-both p q
  statement_goes_on u middle later x y end true e c p q = absurd (cc)

-- LLVM's test at the end of a statement tells whether it returned.
pub answer :
    {terminated : List Call → Bool} {arities : Map ℕ} {names : Names} {before x : Bool}
    → TerminatorLaws terminated
    → (t : Codegen) (returned b : Bool)
    → Out arities before x names returned t.is_success t.calls t.scopes t.funcs t.ast_funcs
    → t.is_success ≡ true
    → terminated t.calls ≡ b
    → Legal terminated t.calls
    → returned ≡ b
answer {terminated} laws t returned b p c d l =
    sym (terminated-ended terminated laws t.calls returned l (p.ready c).1) ∙ d

module _ (terminated : List Call → Bool) (arities : Map ℕ) where
  -- A block opens a scope, and closes it.
  pub visit_block-Checked :
      {names : Names} {ok end : Bool} {m : G Unit0} (inner : List Bytes)
      → CheckedStatement terminated arities ([] ∷ names) ok (inner ∷ names) end m
      → CheckedStatement terminated arities names ok names end (visit_block m)
  unfolding visit_block push_scope pop_scope SameNames lookup has_name
  visit_block-Checked {names} {ok} {end} {m} inner h s ready =
      Leads-bind _ (Leads-from same (h (record s { scopes = push s.scopes }) opened))
        λ _ t g p. closed t t.scopes p
    where
      opened :
          Legal terminated s.calls
          → Ready arities ([] ∷ names) false (record s { scopes = push s.scopes })
      opened l c = (
        record {
          scoped = (λ name. refl, (ready l c).0.scoped);
          functions = (ready l c).0.functions;
        },
        (ready l c).1,
      )

      closed :
          (t : Codegen) (scopes : Scopes Value)
          → (Legal terminated t.calls
              → Out arities s.is_success ok
                  (inner ∷ names)
                  end
                  t.is_success
                  t.calls
                  scopes
                  t.funcs
                  t.ast_funcs)
          → Leads terminated t
              (λ _ u. Outcome arities s ok names end u)
              (with_scopes (pop scopes) t)
      closed t [] p = crashes
      closed t (m ∷ rest) p = arrives same λ l.
          let q = p l in
          record {
            result = q.result;
            ready = λ c. (
              record { scoped = (q.ready c).0.scoped.1; functions = (q.ready c).0.functions },
              (q.ready c).1,
            );
          }

  -- The rest of a block, unless the statement in front closed it.
  pub visit_rest-Checked :
      (laws : TerminatorLaws terminated) {names middle later : Names} {x y returned end : Bool}
      {m k : G Unit0}
      → CheckedStatement terminated arities names x middle returned m
      → CheckedStatement terminated arities middle y later end k
      → CheckedStatement terminated arities names
          (x && (returned || y))
          (if returned then middle else later)
          (returned || end)
          (m >>= λ _. visit_rest terminated k)
  unfolding visit_rest unless_terminated
  visit_rest-Checked laws {names} {middle} {later} {x} {y} {returned} {end} {m} {k} hm hk s ready =
      Leads-bind _ (hm s ready) λ _ t g p. by_success t p
    where
      Wanted : Codegen → Type 0
      Wanted u =
          Outcome arities s (x && (returned || y)) (if returned then middle else later)
            (returned || end) u

      by_success :
          (t : Codegen)
          → (Legal terminated t.calls → Outcome arities s x middle returned t)
          → Leads terminated t
              (λ _ u. Wanted u)
              (if t.is_success
                then (if terminated t.calls then some (tt, t) else k t)
                else some (tt, t))
      by_success t p =
          if_intro (Leads terminated t (λ _ u. Wanted u)) t.is_success
            (λ c.
              if_intro (Leads terminated t (λ _ u. Wanted u)) (terminated t.calls)
                (λ d. arrives same λ l.
                  statement_closes s t middle later x y end returned
                    (answer laws t returned true (p l) c d l) c (p l))
                (λ d.
                  Leads-weaken
                    (λ _ u g l q.
                      let l' = Legal-Grown terminated g l in
                      statement_goes_on s t u middle later x y end returned
                        (answer laws t returned false (p l') c d l') c (p l') q)
                    (hk t λ l c'. (
                      ((p l).ready c').0,
                      ((p l).ready c').1 ∙ ap some (answer laws t returned false (p l) c d l),
                    ))))
            (λ c. arrives same λ l. Out-failed _ _ (returned || y) (p l) c)

  -- Behind a branch or a loop a new block is open.
  pub leave-Leads :
      {names : Names} {x end : Bool} (s t : Codegen) (target bb : ℕ) (func : Option ℕ)
      → (Legal terminated t.calls → Outcome arities s x names end t)
      → Leads terminated t
          (λ _ u. Outcome arities s x names false u)
          (leave terminated target bb func t)
  unfolding unless_terminated emit ended
  leave-Leads {names} {x} s t target bb func p = by_test (terminated t.calls)
    where
      by_test :
          (b : Bool)
          → Leads terminated t
              (λ _ u. Outcome arities s x names false u)
              (bind (if b then some (tt, t) else branch_to target t) (λ _. begin_attached bb func))
      by_test true = arrives (more _ (more _ same)) (λ l. Out-at (p l.1.1) refl)
      by_test false = arrives (more _ (more _ (more _ same))) (λ l. Out-at (p l.1.1.1) refl)

  branches-Leads :
      {names middle later : Names} {x y returned : Bool} (s t : Codegen) (ok : Bool)
      (func : Option ℕ) (a b c : ℕ) {m : G Unit0} (other : Option (G Unit0))
      → CheckedStatement terminated arities names x middle returned m
      → CheckedStatement terminated arities middle y later false
          (visit_optional other (leave terminated c c func))
      → (Legal terminated t.calls → Outcome arities s ok names true t)
      → Leads terminated t
          (λ _ u. Outcome arities s (ok && (x && y)) later false u)
          (branches terminated func a b c m other t)
  unfolding emit ended
  branches-Leads {names} {middle} {later} {x} {y} s t ok func a b c other hm hk p =
      Leads-call (set_insert_point a) (
        Leads-bind _
          (hm _
            (λ l. (Out-at {cs = set_insert_point a ∷ t.calls} {end = false} (p l.1) refl).ready))
          λ _ u g q.
            Leads-if_success tt _
              (λ e l.
                Out-both (p (Legal-Grown terminated g l).1) (Out-failed later false y (q l) e))
              λ e. Leads-bind _ (leave-Leads t u c b func q) λ _ v g' r.
                Leads-weaken
                  (λ _ w h l o.
                    let l' = Legal-Grown terminated h l in
                    Out-both (p (Legal-Grown terminated g (Legal-Grown terminated g' l')).1)
                      (Out-both (r l') o))
                  (hk v (λ l. (r l).ready)))

  pub visit_if-Checked :
      {names middle later : Names} {ok x y returned : Bool} {cond m : G Unit0}
      (other : Option (G Unit0))
      → Checked terminated arities names ok cond
      → CheckedStatement terminated arities names x middle returned m
      → ((func : Option ℕ) (c : ℕ)
          → CheckedStatement terminated arities middle y later false
              (visit_optional other (leave terminated c c func)))
      → CheckedStatement terminated arities names
          (ok && (x && y))
          later
          false
          (visit_if terminated cond m other)
  unfolding visit_if emit ended
  visit_if-Checked {later = later} {ok} {x} {y} other hc hm hk s ready =
      Leads-current_function _ λ func fs same_funcs.
        Leads-bind _ (hc (record s { funcs = fs }) (λ l. Ready-funcs s fs same_funcs (ready l)))
          λ _ t g p.
            Leads-if_success tt _ (λ e l. Out-failed later false (x && y) (p l) e)
              λ e. Leads-pop _ λ v vs. Leads-call _ (
                Leads-call _ (
                  Leads-call _ (
                    Leads-call _ (
                      branches-Leads s _ ok func _ _ _ other hm (hk func _)
                        (λ l. Out-at (p l.1.1.1.1) refl)))))

  pub no_else :
      {names : Names} (func : Option ℕ) (c : ℕ)
      → CheckedStatement terminated arities names true names false
          (visit_optional none (leave terminated c c func))
  no_else func c s ready = leave-Leads s s c c func (λ l. Outcome-passed s (ready l))

  pub has_else :
      {names later : Names} {y returned : Bool} {m : G Unit0} (func : Option ℕ) (c : ℕ)
      → CheckedStatement terminated arities names y later returned m
      → CheckedStatement terminated arities names y later false
          (visit_optional (some m) (leave terminated c c func))
  has_else {later = later} func c h s ready = Leads-bind _ (h s ready) λ _ t g p.
      Leads-if_success tt _ (λ e l. Out-stopped later false (p l) e) λ e. leave-Leads s t c c func p

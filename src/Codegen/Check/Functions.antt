-- ===== src/Codegen/Check/Functions.antt =====
-- Function definitions and the root: an error is reported just if the check fails.
use pudl.Prelude.{
  ℕ, suc, ◌≡◌, refl, sym, ap, subst, ◌&&◌, Bool, true, false, List, [], ◌∷◌, map, Bytes, codes,
  length, Option, none, some, if◌then◌else◌, arith,
}
use pudl.Prelude.Map.{Map, lookup, update, pointer}
use pudl.Ast.{Var, FunctionDef, Root, vector, dummy}
use pudl.Parser.State.{State, Header, value}
use pudl.Parser.Program.{parse}
use pudl.Parser.Program.Definition.{TypedDef, TypedDefs, TypedRoot}
use pudl.Parser.Program.Sound.{parse-TypedRoot}
use pudl.Codegen.Calls.{Call, create_block, create_function, set_insert_point}
use pudl.Codegen.State.{Codegen, bind, emit, push_scope, llvm_type, new_codegen}
use pudl.Codegen.Ensures.{TerminatorLaws, Legal}
use pudl.Codegen.Rules.{Unit0}
use pudl.Codegen.Statement.{
  unless_terminated, store_params, finish_function, reset_scopes, register, visit_function,
  visit_function_def, visit_functions, visit_root,
}
use pudl.Codegen.Statement.Functions.{visit_root_safe}
use pudl.Codegen.Check.{
  Names, declare_name, declare_params, check_stmt, check_functions, check_root, has_name,
}
use pudl.Codegen.Check.Leads.{
  same, more, Legal-Grown, ended, Leads, arrives, crashes, Leads-from, Leads-call, Leads-weaken,
  Leads-bind, Leads-if_success,
}
use pudl.Codegen.Check.Views.{SameNames, SameArities, update-SameArities, Ready}
use pudl.Codegen.Check.Outcomes.{Outcome, absent, Out-both, Out-calls, Outcome-passed}
use pudl.Codegen.Check.Statements.{declare-Leads}
use pudl.Codegen.Check.Accept.{and_true, typed-Checked}

-- The state in which the parameters and the body of a function are visited.
abbrev pub opened : FunctionDef → Codegen → Codegen
opened d s = record s {
  calls =
      set_insert_point (suc (length s.calls))
      ∷ create_block (codes "entry") (some (length s.calls))
      ∷ create_function d.name (map (λ (p : Var). llvm_type p.type) d.args) (llvm_type d.type)
      ∷ s.calls;
  scopes = [] ∷ [];
  funcs = update d.name (some (length s.calls)) s.funcs;
  ast_funcs = update d.name (some d) s.ast_funcs;
  current_func = some d;
}

chained : (s x y : Bool) {u v : Bool} → u ≡ (s && x) → v ≡ (u && y) → v ≡ (s && (x && y))
chained s x y p q = ground (arith, p, q)

module _ (terminated : List Call → Bool) where
  params-Leads :
      {arities : Map ℕ} {names : Names} (func i : ℕ) (params : List Var) (s t : Codegen)
      → (Legal terminated t.calls → Outcome arities s true names false t)
      → Leads terminated t
          (λ _ u. Outcome arities s true (declare_params params names) false u)
          (store_params func i params t)
  unfolding store_params declare_params emit ended
  params-Leads func i [] s t p = arrives same p
  params-Leads {arities} {names} func i (v ∷ params) s t p = Leads-call _ (
      Leads-call _ (
        Leads-call _ (
          Leads-bind _
            (declare-Leads terminated arities s _ true v.name _ (declare_name v.name names)
              (λ l. (Out-calls (p l.1.1.1) refl, refl)))
            λ _ u g q. params-Leads func (suc i) params s u q)))

  -- Between two function definitions.
  abbrev Known : Map ℕ → Codegen → Type 0
  Known arities s = s.is_success ≡ true → SameArities arities s.funcs s.ast_funcs

  abbrev Defined : Map ℕ → Codegen → Bool → Codegen → Type 0
  Defined arities s ok t = (t.is_success ≡ (s.is_success && ok)) × Known arities t

  finish-Leads :
      {arities : Map ℕ} {names : Names} {ok end : Bool} (func : ℕ) (s t : Codegen)
      → (Legal terminated t.calls → Outcome arities s ok names end t)
      → Leads terminated t (λ _ u. Defined arities s ok u) (finish_function terminated func t)
  unfolding finish_function unless_terminated emit
  finish-Leads {arities} {ok = ok} func s t p =
      Leads-if_success tt _ (λ e l. ((p l).result, absent e)) λ c. by_test (terminated t.calls)
    where
      by_test :
          (b : Bool)
          → Leads terminated t
              (λ _ u. Defined arities s ok u)
              (bind
                (if b
                  then some (tt, t)
                  else bind (emit Call.create_unreachable t) (λ _ u. some (tt, u)))
                (λ _ u. bind (emit (Call.run_passes func) u) (λ _ v. some (tt, v))))
      by_test true =
          arrives (more _ same) (λ l. ((p l.1).result, λ c. ((p l.1).ready c).0.functions))
      by_test false =
          arrives (more _ (more _ same))
            (λ l. ((p l.1.1).result, λ c. ((p l.1.1).ready c).0.functions))

  module _ (laws : TerminatorLaws terminated) (funcs : Map (Option Header)) where
    visit_function-Defined :
        {d : FunctionDef} (arities : Map ℕ) (s : Codegen)
        → TypedDef funcs d
        → (Legal terminated s.calls → Known arities s)
        → Leads terminated s
            (λ _ t.
              Defined
                (update d.name (length d.args) arities)
                s
                (check_stmt
                  (update d.name (length d.args) arities)
                  (declare_params d.args ([] ∷ []))
                  d.body)
                t)
            (visit_function terminated d s)
    unfolding visit_function visit_function_def reset_scopes register emit push_scope ended
        SameNames lookup has_name
    visit_function-Defined {d} arities s typed known =
        let known_now = update d.name (length d.args) arities in
        Leads-from {t = opened d s} (more _ (more _ (more _ same))) (
          Leads-bind _
            (params-Leads {arities = known_now} {names = [] ∷ []} (length s.calls) 0 d.args
              (opened d s) (opened d s) (λ l. Outcome-passed (opened d s) (ready l)))
            λ _ t g p.
              Leads-bind _
                (typed-Checked terminated laws known_now typed.body
                  (declare_params d.args ([] ∷ [])) t (λ l. (p l).ready))
                λ _ u g' q.
                  finish-Leads (length s.calls) s u
                    (λ l. Out-both (p (Legal-Grown terminated g' l)) (q l)))
      where
        ready :
            Legal terminated (opened d s).calls
            → Ready (update d.name (length d.args) arities) ([] ∷ []) false (opened d s)
        ready l c = (
          record {
            scoped = (λ name. refl, tt);
            functions =
                update-SameArities d (length s.calls) arities s.funcs s.ast_funcs (known l.1.1.1 c);
          },
          refl,
        )

    visit_functions-Defined :
        (arities : Map ℕ) (defs : List FunctionDef) (s : Codegen)
        → TypedDefs funcs defs
        → (Legal terminated s.calls → Known arities s)
        → Leads terminated s
            (λ _ t. t.is_success ≡ (s.is_success && check_functions arities defs))
            (visit_functions terminated defs s)
    unfolding visit_functions check_functions
    visit_functions-Defined arities [] s ts known = arrives same (λ l. sym (and_true s.is_success))
    visit_functions-Defined arities (d ∷ defs) s (t, ts) known =
        Leads-bind _ (visit_function-Defined arities s t known) λ _ u g p.
          Leads-weaken
            (λ _ v g' l e. chained s.is_success _ _ (p (Legal-Grown terminated g' l)).0 e)
            (visit_functions-Defined (update d.name (length d.args) arities) defs u ts
              (λ l. (p l).1))

    visit_root-Defined :
        (r : Root)
        → TypedRoot funcs r
        → Leads terminated new_codegen
            (λ _ t. t.is_success ≡ check_root r)
            (visit_root terminated r new_codegen)
    unfolding visit_root lookup pointer
    visit_root-Defined (vector defs) ts =
        visit_functions-Defined [] defs new_codegen ts (λ l c name. refl)
    visit_root-Defined dummy ts = arrives same (λ l. refl)

abbrev state_of : Option (Unit0 × Codegen) → Codegen → Codegen
state_of none t = t
state_of (some p) t = p.1

pub arrived :
    {terminated : List Call → Bool} {P : Unit0 → Codegen → Type 0} {s g : Codegen}
    {o : Option (Unit0 × Codegen)}
    → Leads terminated s P o
    → o ≡ some (tt, g)
    → Legal terminated g.calls
    → P tt g
arrived crashes e l = absurd (cc)
arrived {terminated} {P} (arrives {a} {t} h p) e l =
    let q : t ≡ _ = ap (λ o. state_of o t) e in
    subst (λ u. P tt u) q (p (subst (λ u. Legal terminated u.calls) (sym q) l))

module _ (terminated : List Call → Bool) (laws : TerminatorLaws terminated) where
  -- If LLVM's test for a terminator answers as documented, then the visitors come to an end on every
  -- tree that the parser returns without an error, and they report an error just if the check on the
  -- tree fails. The check looks only at what the visitors generate: not at a call that stands as a
  -- statement, not at what stands in its block behind a `return` or behind a block that returns, and
  -- not at the condition of a `do` whose body returns. There it fails if a variable is used that is
  -- no parameter and that neither its block nor one around it declares in front of it, where a branch
  -- or a loop body without braces belongs to the block around it; or if a function is called that is
  -- neither the present one nor defined in front of it, or with another number of arguments than it
  -- has parameters.
  pub visit_root-check_root :
      (stof : Bytes → Option ℕ) (file : Bytes) (r : Root) (s : State)
      → parse stof file ≡ value r s
      → s.is_error ≡ false
      → (g : Codegen) × (visit_root terminated r new_codegen ≡ some (tt, g))
        × (g.is_success ≡ check_root r)
  visit_root-check_root stof file r s e clean =
      let safe = visit_root_safe terminated laws stof file r s e clean in
      (
        safe.0,
        safe.1,
        arrived
            (visit_root-Defined terminated laws s.funcs r (parse-TypedRoot stof file r s e clean))
            safe.1 safe.2,
      )

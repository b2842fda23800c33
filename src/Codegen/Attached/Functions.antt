-- ===== src/Codegen/Attached/Functions.antt =====
-- Function definitions and the root: every block that is written to belongs to its function.
use pudl.Prelude.{
  ℕ, suc, ◌≡◌, refl, ap, ◌∙◌, subst, Bool, true, false, List, [], ◌∷◌, Bytes, bytes_eq_refl, length,
  Option, some, if◌then◌else◌,
}
use pudl.Prelude.Map.{lookup, update, pointer, lookup-update}
use pudl.Ast.{Var, FunctionDef, Root, vector, dummy}
use pudl.Parser.State.{State, value}
use pudl.Parser.Program.{parse}
use pudl.Codegen.Calls.{Call, run_passes, create_unreachable}
use pudl.Codegen.State.{Codegen, bind, emit, push_scope, new_codegen}
use pudl.Codegen.Ensures.{TerminatorLaws, Legal}
use pudl.Codegen.Statement.{
  unless_terminated, store_params, finish_function, reset_scopes, register, visit_function,
  visit_function_def, visit_functions, visit_root,
}
use pudl.Codegen.Statement.Functions.{visit_root_safe}
use pudl.Codegen.Check.Leads.{
  same, more, Leads, arrives, Leads-from, Leads-call, Leads-weaken, Leads-bind, Leads-if_success,
}
use pudl.Codegen.Check.Functions.{opened, arrived}
use pudl.Codegen.Attached.{latest, now, AllAttached, Generates, Inv-calls, Keeps}
use pudl.Codegen.Attached.Statements.{declare-Keeps}
use pudl.Codegen.Attached.Blocks.{visit_stmt-Keeps}

module _ (terminated : List Call → Bool) where
  params-Keeps : (func i : ℕ) (params : List Var) → Keeps terminated (store_params func i params)
  unfolding store_params emit latest AllAttached
  params-Keeps func i [] f t p = arrives same p
  params-Keeps func i (v ∷ params) f t p = Leads-call _ (
      Leads-call _ (
        Leads-call _ (
          Leads-bind _
            (declare-Keeps terminated v.name _ f _
              (λ l. Inv-calls (p l.1.1.1) refl (p l.1.1.1).attached))
            λ _ u g q. params-Keeps func (suc i) params f u q)))

  finish-Keeps : (func : ℕ) → Keeps terminated (finish_function terminated func)
  unfolding finish_function unless_terminated emit latest AllAttached
  finish-Keeps func f t p = Leads-if_success tt _ (λ e l. p l) λ c. by_test (terminated t.calls)
    where
      by_test :
          (b : Bool)
          → Leads terminated t
              (λ _ u. Generates f u)
              (bind
                (if b then some (tt, t) else bind (emit create_unreachable t) (λ _ u. some (tt, u)))
                (λ _ u. bind (emit (run_passes func) u) (λ _ v. some (tt, v))))
      by_test true = arrives (more _ same) (λ l. Inv-calls (p l.1) refl (p l.1).attached)
      by_test false =
          arrives (more _ (more _ same)) (λ l. Inv-calls (p l.1.1) refl (p l.1.1).attached)

  visit_function-Leads :
      (d : FunctionDef) (s : Codegen)
      → (Legal terminated s.calls → AllAttached s.calls)
      → Leads terminated s (λ _ t. AllAttached t.calls) (visit_function terminated d s)
  unfolding visit_function visit_function_def reset_scopes register emit push_scope latest
      AllAttached pointer
  visit_function-Leads d s attached =
      let n = length s.calls in
      Leads-from {t = opened d s} (more _ (more _ (more _ same))) (
        Leads-bind _ (params-Keeps n 0 d.args n (opened d s) ready) λ _ t g p.
          Leads-bind _ (visit_stmt-Keeps terminated d.body n t p)
            λ _ u g' q. Leads-weaken (λ _ v g'' l r. r.attached) (finish-Keeps n n u q))
    where
      own :
          pointer (lookup d.name (update d.name (some (length s.calls)) s.funcs))
          ≡ some (length s.calls)
      own =
          ap pointer (lookup-update d.name d.name (some (length s.calls)) s.funcs)
          ∙ ap (λ b. pointer (if b then some (some (length s.calls)) else lookup d.name s.funcs))
              (bytes_eq_refl d.name)

      some_inj : {d' : FunctionDef} → some d ≡ some d' → d ≡ d'
      some_inj e = cc

      ready : Legal terminated (opened d s).calls → Generates (length s.calls) (opened d s)
      ready l = record {
        is_latest = refl;
        attached = (now (refl, refl), attached l.1.1.1);
        found = λ d' e.
            let q : d ≡ d' = some_inj e in
            subst
              (λ (x : FunctionDef).
                pointer (lookup x.name (opened d s).funcs) ≡ some (length s.calls))
              q own;
      }

  visit_functions-Leads :
      (defs : List FunctionDef) (s : Codegen)
      → (Legal terminated s.calls → AllAttached s.calls)
      → Leads terminated s (λ _ t. AllAttached t.calls) (visit_functions terminated defs s)
  unfolding visit_functions
  visit_functions-Leads [] s h = arrives same h
  visit_functions-Leads (d ∷ defs) s h =
      Leads-bind _ (visit_function-Leads d s h) λ _ u g p. visit_functions-Leads defs u p

  visit_root-Leads :
      (r : Root)
      → Leads terminated new_codegen
          (λ _ t. AllAttached t.calls)
          (visit_root terminated r new_codegen)
  unfolding visit_root AllAttached
  visit_root-Leads (vector defs) = visit_functions-Leads defs new_codegen (λ l. tt)
  visit_root-Leads dummy = arrives same (λ l. tt)

  -- If LLVM's test for a terminator answers as documented, then for a tree that the parser returns without an
  -- error, the visitors come to an end, and every block that they write to was attached before to the
  -- function that they were generating then, by its creation or by `insertInto`.
  pub visit_root-AllAttached :
      TerminatorLaws terminated
      → (stof : Bytes → Option ℕ) (file : Bytes) (r : Root) (s : State)
      → parse stof file ≡ value r s
      → s.is_error ≡ false
      → (g : Codegen) × (visit_root terminated r new_codegen ≡ some (tt, g)) × AllAttached g.calls
  visit_root-AllAttached laws stof file r s e clean =
      let safe = visit_root_safe terminated laws stof file r s e clean in
      (safe.0, safe.1, arrived (visit_root-Leads r) safe.1 safe.2)

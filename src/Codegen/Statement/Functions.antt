-- ===== src/Codegen/Statement/Functions.antt =====
-- Function definitions and the root: every visitor runs, from the state that `Codegen()` leaves.
use pudl.Prelude.{
  ℕ, suc, ◌≤◌, ◌≡◌, ◌⊎◌, refl, sym, ap, ◌∙◌, subst, ◌==◌, ==_iff, ◌||◌, Bool, true, false, List, [],
  ◌∷◌, map, Bytes, codes, bytes_eq, length, Option, none, some, arith, Bool-cases, inl, inr,
  if_intro,
}
use pudl.Prelude.Map.{Map, lookup, update, lookup-update}
use pudl.Ast.{Var, FunctionDef, Root, vector, dummy}
use pudl.Parser.State.{Header, State, value}
use pudl.Parser.Program.Definition.{TypedDef, TypedDefs, TypedRoot}
use pudl.Parser.Program.{parse}
use pudl.Parser.Program.Sound.{parse-TypedRoot}
use pudl.Codegen.Calls.{
  Call, Value, create_function, create_block, create_alloca, create_store, create_unreachable,
  set_insert_point, set_name, run_passes, entered,
}
use pudl.Codegen.State.{
  Codegen, G, bind, ◌>>=◌, if_success, emit, push_scope, llvm_type, new_codegen,
}
use pudl.Codegen.Ensures.{
  TerminatorLaws, running, at_entry, Paired, Ensures, holds, Legal, Closed, IsSound, IsInside, Step,
  Runs, Runs-bind, after, after-Step,
}
use pudl.Codegen.Finished.{created, passed, Pending, Closed-Pending}
use pudl.Codegen.Rules.{Unit0, Runs-value}
use pudl.Codegen.Visits.{inner-IsInside, Runs-instruction}
use pudl.Codegen.Statement.{
  unless_terminated, store_params, finish_function, visit_stmt, reset_scopes, register,
  visit_function, visit_function_def, visit_functions, visit_root,
}
use pudl.Codegen.Statement.Safe.{declare-Runs}
use pudl.Codegen.Statement.Accept.{visit_stmt-Statement}

register-Paired :
    (d : FunctionDef) (f : ℕ) (funcs : Map (Option ℕ)) (asts : Map (Option FunctionDef))
    → Paired funcs asts
    → Paired (update d.name (some f) funcs) (update d.name (some d) asts)
register-Paired d f funcs asts h name n e = elim (Bool-cases (bytes_eq d.name name)) [
  | inl q ↦ (d, lookup-update d.name name (some d) asts ∙ rw q refl)
  | inr q ↦
      let p : lookup name funcs ≡ some (some n) =
        sym (lookup-update d.name name (some f) funcs ∙ rw q refl) ∙ e in
      let r = h name n p in (r.0, lookup-update d.name name (some d) asts ∙ rw q r.1)
]

module _ (terminated : List Call → Bool) (laws : TerminatorLaws terminated) where
  -- Between the definitions of a file: without an error no function is being generated, and the
  -- operands are `vs`.
  abbrev pub Between : List Value → Codegen → Type 0
  Between vs s =
      IsSound terminated s × (s.is_success ≡ true → (running s.calls ≡ none) × (s.operands ≡ vs))

  -- The outcome of a visitor between two definitions.
  abbrev pub Continues : List Value → Option (Unit0 × Codegen) → Type 0
  Continues vs = Ensures (λ _ t. Between vs t)

  params-Runs :
      {k : ℕ} {s : Codegen} (func i : ℕ) (params : List Var)
      → IsInside terminated k s
      → terminated s.calls ≡ false
      → Runs terminated k s
          (λ _ t. (t.operands ≡ s.operands) × (terminated t.calls ≡ false))
          (store_params func i params s)
  unfolding store_params emit
  params-Runs func i [] h live = Runs-value tt h (refl, live)
  params-Runs {s = s} func i (p ∷ params) h live =
      Runs-instruction laws (set_name func i p.name) tt refl refl h live λ h1 l1.
        Runs-instruction laws (create_alloca (llvm_type p.type) p.name) l1 refl refl h1 l1 λ h2 l2.
          Runs-instruction laws
            (create_store (Value.argument func i) (Value.returned (suc (length s.calls)))) l2 refl
            refl h2 l2
            λ h3 l3.
              Runs-bind _
                (declare-Runs terminated laws p.name (Value.returned (suc (length s.calls))) h3)
                λ _ t st q.
                  rebase (q.0) (params-Runs func (suc i) params st.inside (ap terminated q.1 ∙ l3))
    where
      rebase :
          {k : ℕ} {t : Codegen} {o : Option (Unit0 × Codegen)}
          → t.operands ≡ s.operands
          → Runs terminated k t (λ _ u. (u.operands ≡ t.operands) × (terminated u.calls ≡ false)) o
          → Runs terminated k t (λ _ u. (u.operands ≡ s.operands) × (terminated u.calls ≡ false)) o
      rebase e (holds g) = holds (g.0, (g.1.0 ∙ e, g.1.1))

  -- The state in which the parameters and the body of a function are visited.
  abbrev opened : FunctionDef → Codegen → Codegen
  opened d s = record s {
    calls =
        set_insert_point (suc (length s.calls))
        ∷ create_block (codes "entry") (some (length s.calls))
        ∷ create_function d.name (map (λ (p : Var). llvm_type p.type) d.args) (llvm_type d.type)
        ∷ s.calls;
    scopes = [] ∷ [];
    funcs = update d.name (some (length s.calls)) s.funcs;
    ast_funcs = update d.name (some d) s.ast_funcs;
    current_func = some d;
  }

  not_begun :
      {vs : List Value} (s : Codegen)
      → Between vs s
      → (b : ℕ) → length s.calls ≤ b
      → entered b s.calls ≡ false
  not_begun s i b le = elim (Bool-cases (entered b s.calls)) [
    | inl e ↦ absurd (omega (arith, i.0.known b e, le))
    | inr e ↦ e
  ]

  opened-IsInside :
      {vs : List Value} (d : FunctionDef) (s : Codegen)
      → Between vs s
      → IsInside terminated (length (opened d s).calls) (opened d s)
  unfolding entered at_entry
  opened-IsInside d s i = record {
    sound = record {
      legal = (not_begun s i (suc (length s.calls)) (omega arith), (tt, (tt, i.0.legal)));
      closed = λ e. (refl, (tt, ((i.1 e).0, i.0.closed e)));
      known = λ b h. elim (Bool-cases (suc (length s.calls) == b)) [
        | inl e ↦ omega (arith, (==_iff (suc (length s.calls)) b).0 e)
        | inr e ↦ omega (arith, i.0.known b (sym (ap (λ x. x || entered b s.calls) e) ∙ h))
      ];
      paired = register-Paired d (length s.calls) s.funcs s.ast_funcs i.0.paired;
    };
    defined = (d, refl);
    scoped = ([], [], refl);
    from = omega arith;
  }

  opened-live :
      {vs : List Value} (d : FunctionDef) (s : Codegen)
      → Between vs s
      → terminated (opened d s).calls ≡ false
  unfolding entered
  opened-live d s i = laws.fresh _ _ (not_begun s i (suc (length s.calls)) (omega arith))

  -- The passes run behind a terminator.
  passes-Between :
      {k : ℕ} {vs : List Value} (func : ℕ) (s : Codegen)
      → IsInside terminated k s
      → s.operands ≡ vs
      → terminated s.calls ≡ true
      → running s.calls ≡ some func
      → Between vs (after (run_passes func) s)
  unfolding entered running
  passes-Between func s i e done own = (
    record {
      legal = ((done, own), i.sound.legal);
      closed = λ c. (tt, i.sound.closed c);
      known = λ b h. omega (arith, i.sound.known b h);
      paired = i.sound.paired;
    },
    λ c. (refl, e),
  )

  finish-Ensures :
      {k : ℕ} {vs : List Value} (func : ℕ) (s : Codegen)
      → IsInside terminated k s
      → (s.is_success ≡ true → s.operands ≡ vs)
      → running s.calls ≡ some func
      → Continues vs (finish_function terminated func s)
  unfolding finish_function if_success unless_terminated emit running
  finish-Ensures {vs = vs} func s i ops own =
      if_intro (Continues vs) s.is_success
        (λ c.
          if_intro
            (λ (o : Option (Unit0 × Codegen)).
              Continues vs (bind o (λ _ t. some (tt, after (run_passes func) t))))
            (terminated s.calls) (λ done. holds (passes-Between func s i (ops c) done own))
            (λ live.
              let j = after-Step create_unreachable i live refl in
              let e = laws.ends create_unreachable s.calls refl in
              holds (passes-Between func (after create_unreachable s) j.inside (ops c) e own)))
        (λ e. holds (i.sound, λ c. absurd (cc)))

  visit_function-Ensures :
      {funcs : Map (Option Header)} {vs : List Value} {d : FunctionDef} (s : Codegen)
      → TypedDef funcs d
      → Between vs s
      → Continues vs (visit_function terminated d s)
  unfolding visit_function visit_function_def reset_scopes register emit push_scope running
  visit_function-Ensures {vs = vs} {d} s typed i =
      let j = opened-IsInside d s i in
      let live = opened-live d s i in bodied (params-Runs (length s.calls) 0 d.args j live)
    where
      finished :
          {k : ℕ} {t : Codegen} {o : Option (Unit0 × Codegen)}
          → (s.is_success ≡ true → t.operands ≡ s.operands)
          → Runs terminated k t (λ _ u. u.is_success ≡ true → u.operands ≡ t.operands) o
          → Step terminated (length (opened d s).calls) (opened d s) t
          → Continues vs (bind o (λ _. finish_function terminated (length s.calls)))
      finished e (holds {s = u} g) st =
          finish-Ensures (length s.calls) u g.0.inside
            (λ c. let b = st.sticky (g.0.sticky c) in g.1 c ∙ e b ∙ (i.1 b).1)
            (g.0.same_function ∙ st.same_function)

      bodied :
          {o : Option (Unit0 × Codegen)}
          → Runs terminated
              (length (opened d s).calls)
              (opened d s)
              (λ _ t. (t.operands ≡ s.operands) × (terminated t.calls ≡ false))
              o
          → Ensures
              (λ _ t. Between vs t)
              (bind o (λ _.
                visit_stmt terminated d.body >>= λ _. finish_function terminated (length s.calls)))
      bodied (holds {s = t} g) =
          finished (λ _. g.1.0)
            (visit_stmt-Statement terminated laws typed.body t (inner-IsInside g.0.inside) g.1.1)
            g.0

  Continues-bind :
      {vs : List Value} {o : Option (Unit0 × Codegen)} (f : Unit0 → G Unit0)
      → Continues vs o
      → ((t : Codegen) → Between vs t → Continues vs (f tt t))
      → Continues vs (bind o f)
  Continues-bind f (holds {s = t} h) rest = rest t h

  visit_functions-Ensures :
      (funcs : Map (Option Header)) {vs : List Value} (defs : List FunctionDef) (s : Codegen)
      → TypedDefs funcs defs
      → Between vs s
      → Continues vs (visit_functions terminated defs s)
  unfolding visit_functions
  visit_functions-Ensures funcs [] s ts i = holds i
  visit_functions-Ensures funcs {vs = vs} (d ∷ defs) s (t, ts) i =
      Continues-bind (λ _. visit_functions terminated defs) (visit_function-Ensures s t i)
        λ u h. visit_functions-Ensures funcs defs u ts h

  visit_root-Ensures :
      (funcs : Map (Option Header)) {vs : List Value} (r : Root) (s : Codegen)
      → TypedRoot funcs r
      → Between vs s
      → Continues vs (visit_root terminated r s)
  unfolding visit_root
  visit_root-Ensures funcs (vector defs) s ts i = visit_functions-Ensures funcs defs s ts i
  visit_root-Ensures funcs dummy s ts i = holds i

  new-Between : Between [] new_codegen
  unfolding running entered lookup
  new-Between = (
    record {
      legal = tt;
      closed = λ _. tt;
      known = λ b e. absurd (cc);
      paired = λ name f e. absurd (cc);
    },
    λ _. (refl, refl),
  )

  passed-created :
      {vs : List Value} (g : Codegen)
      → Between vs g
      → g.is_success ≡ true
      → passed g.calls ≡ created g.calls
  passed-created g h c =
      subst (λ o. Pending o (passed g.calls) (created g.calls)) ((h.1 c).0)
        (Closed-Pending terminated g.calls h.0.legal (h.0.closed c))

  -- If LLVM's test for a terminator answers as documented, then for a tree that the parser returns
  -- without an error, and from the state that `Codegen()` leaves, the visitors come to an end: no
  -- empty operand stack is popped, no null pointer is dereferenced, no scope is missing. The calls
  -- that they make of LLVM come in order: every instruction comes while the block at the insertion
  -- point has no terminator, no block is begun twice, and passes run only on the function that is
  -- being generated, behind a terminator. If the visitors report no error, then no block is left
  -- without a terminator, no function is created while another one is being generated, the functions
  -- whose passes were run are those that were created, in the same order, and the operand stack is
  -- empty.
  pub visit_root_safe :
      (stof : Bytes → Option ℕ) (file : Bytes) (r : Root) (s : State)
      → parse stof file ≡ value r s
      → s.is_error ≡ false
      → (g : Codegen) × (visit_root terminated r new_codegen ≡ some (tt, g))
        × Legal terminated g.calls
        × ((g.is_success ≡ false)
            ⊎ (Closed terminated g.calls × (passed g.calls ≡ created g.calls) × (g.operands ≡ [])))
  visit_root_safe stof file r s e clean =
      returned (
        visit_root-Ensures s.funcs r new_codegen (parse-TypedRoot stof file r s e clean)
          new-Between)
    where
      returned :
          {o : Option (Unit0 × Codegen)}
          → Continues [] o
          → (g : Codegen) × (o ≡ some (tt, g))
            × Legal terminated g.calls
            × ((g.is_success ≡ false)
                ⊎ (Closed terminated g.calls
                    × (passed g.calls ≡ created g.calls)
                    × (g.operands ≡ [])))
      returned (holds {s = g} h) = (
        g,
        refl,
        h.0.legal,
        elim (Bool-cases g.is_success) [
          | inl c ↦ inr (h.0.closed c, passed-created g h c, (h.1 c).1)
          | inr e ↦ inl e
        ],
      )

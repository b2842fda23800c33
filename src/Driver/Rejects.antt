-- ===== src/Driver/Rejects.antt =====
-- `main` on a file that the parser refuses.
use pudl.Prelude.{
  ℕ, ◌≡◌, refl, sym, ◌∙◌, subst, Bool, true, false, not, List, [], ◌∷◌, Bytes, codes, bytes_eq,
  Option, some, none, if_intro, if◌then◌else◌,
}
use pudl.Ast.{Root}
use pudl.Parser.State.{State, value}
use pudl.Parser.Program.{parse}
use pudl.Codegen.Calls.{Call}
use pudl.Host.{Effect, Pass, World, Os}
use pudl.Host.Process.{run, wait_for, first_launched, detect, is_launched}
use pudl.Host.Linker.{detect_default}
use pudl.Cli.{split_args}
use pudl.Driver.{
  Exit, Plan, opt_passes, add_passes, linker_or_default, linking, with_file, generate, carry_out,
  with_plan, main, has_either, option_value,
}

-- What is seen of the compiler from outside: the files that it opens, writes and removes, the IR that it
-- shows, and the programs that it runs for more than a probe.
abbrev pub is_visible : Effect → Bool
is_visible (Effect.spawned args silent) = not silent
is_visible (Effect.waited pid) = false
is_visible (Effect.added pass) = false
is_visible _ = true

unfoldable pub visible : List Effect → List Effect
visible [] = []
visible (e ∷ t) = let rest = visible t in if is_visible e then e ∷ rest else rest

-- The visible effects of `main` on a world are those of before.
pub data Unseen (w : World) : Exit → Type 0 where
  unseen : (code : ℕ) (v : World) → visible v.trace ≡ visible w.trace → Unseen w (some (code, v))

module _ (os : Os) where
  probe-visible :
      (args : List Bytes) (w : World) → visible ((run os args true w).1).trace ≡ visible w.trace
  unfolding run visible
  probe-visible [] w = refl
  probe-visible (a ∷ args) w = started (os.spawn w.trace (a ∷ args) true)
    where
      started :
          (o : Option ℕ)
          → visible
              ((wait_for os o (record w { trace = Effect.spawned (a ∷ args) true ∷ w.trace })).1
                ).trace
            ≡ visible w.trace
      started none = refl
      started (some pid) = refl

  launched-visible :
      (probe : Bytes) (candidates : List Bytes) (w : World)
      → visible ((first_launched os probe candidates w).1).trace ≡ visible w.trace
  unfolding first_launched
  launched-visible probe [] w = refl
  launched-visible probe (c ∷ candidates) w =
      let r = run os (c ∷ probe ∷ []) true w in
      let e = probe-visible (c ∷ probe ∷ []) w in
      if_intro (λ (o : Option Bytes × World). visible (o.1).trace ≡ visible w.trace)
        (is_launched r.0) (λ _. e) (λ _. launched-visible probe candidates r.1 ∙ e)

  default-visible :
      (given : Bytes) (w : World)
      → visible ((linker_or_default os given w).1).trace ≡ visible w.trace
  unfolding detect_default detect
  default-visible [] w = launched-visible _ _ w
  default-visible (c ∷ given) w = refl

passes-visible :
    (ps : List Pass) (w : World) → visible ((add_passes ps w).1).trace ≡ visible w.trace
unfolding add_passes visible
passes-visible [] w = refl
passes-visible (p ∷ ps) w = passes-visible ps (record w { trace = Effect.added p ∷ w.trace })

module _ (os : Os) (stof : Bytes → Option ℕ) (terminated : List Call → Bool) where
  module _ (content : Bytes) (r : Root) (s : State) (parsed : parse stof content ≡ value r s)
      (refused : s.is_error ≡ true) where
    carry_out-Unseen :
        (args : List Bytes) (p : Plan) (w : World)
        → Unseen w (carry_out os stof terminated args p content w)
    unfolding carry_out generate
    carry_out-Unseen args p w =
        rw (parsed, refused) (unseen 0 _ (passes-visible (opt_passes args) w))

    with_plan-Unseen :
        (args : List Bytes) (p : Plan) (w : World)
        → Unseen w (with_plan os stof terminated args p content w)
    unfolding with_plan
    with_plan-Unseen args p w =
        if_intro (Unseen w) p.links
          (λ _. linked (linker_or_default os p.linker w) (default-visible os p.linker w))
          (λ _. carry_out-Unseen args p w)
      where
        from : {v : World} {o : Exit} → visible v.trace ≡ visible w.trace → Unseen v o → Unseen w o
        from e (unseen code u h) = unseen code u (h ∙ e)

        linked :
            (q : Bytes × World)
            → visible (q.1).trace ≡ visible w.trace
            → Unseen w (linking os stof terminated args p content q)
        linked (linker, v) e =
            if_intro (Unseen w)
              (bytes_eq p.in_path (option_value (codes "-o") (codes "--output") args))
              (λ _. unseen 1 v e)
              (λ _.
                if_intro (Unseen w) p.compiles (λ _. unseen 1 v e)
                  (λ _. from e (carry_out-Unseen args (record p { linker = linker }) v)))

    module _ (files : Bytes → Option Bytes) where
      main-Unseen :
          (in_path : Bytes) (argv : List Bytes) (w : World)
          → files in_path ≡ some content
          → Unseen w (main os stof terminated files (in_path ∷ argv) w)
      unfolding main
      main-Unseen in_path argv w found =
          let args = split_args (in_path ∷ argv) in
          if_intro (Unseen w) (has_either (codes "--version") (codes "-v") args)
            (λ _. unseen 0 w refl)
            (λ _.
              if_intro (Unseen w) (has_either (codes "--help") (codes "-h") args)
                (λ _. unseen 1 w refl)
                (λ _.
                  subst (λ o. Unseen w (with_file os stof terminated args in_path o w)) (sym found)
                    (with_plan-Unseen args _ w)))

      -- If the parser reports an error in the file that is named first, then `main` opens, writes and
      -- removes no file, shows no IR, and runs no program except for the probes for a linker.
      pub main-refused :
          (in_path : Bytes) (argv : List Bytes) (w : World)
          → files in_path ≡ some content
          → (code : ℕ) × (v : World) × (main os stof terminated files (in_path ∷ argv) w
              ≡ some (code, v))
            × (visible v.trace ≡ visible w.trace)
      main-refused in_path argv w found = shown (main-Unseen in_path argv w found)
        where
          shown :
              {o : Exit}
              → Unseen w o
              → (code : ℕ) × (v : World) × (o ≡ some (code, v))
                × (visible v.trace ≡ visible w.trace)
          shown (unseen code v e) = (code, v, refl, e)

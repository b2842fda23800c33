-- ===== src/Codegen/Finished.antt =====
-- Which functions src/Parser/Codegen.h begins, and which it finishes, from its calls of LLVM.
use pudl.Prelude.{ℕ, ◌≡◌, refl, ap, subst, Bool, List, [], ◌∷◌, length, Option, none, some}
use pudl.Codegen.Calls.{Call}
use pudl.Codegen.Ensures.{running, Legal, Closed}

-- The functions that were created, and those whose passes were run, latest first.
unfoldable pub created : List Call → List ℕ
created [] = []
created (Call.create_function n a t ∷ cs) = length cs ∷ created cs
created (_ ∷ cs) = created cs

unfoldable pub passed : List Call → List ℕ
passed [] = []
passed (Call.run_passes f ∷ cs) = f ∷ passed cs
passed (_ ∷ cs) = passed cs

-- Those that were created are those that passed, and in front of them the one that is being generated.
abbrev pub Pending : Option ℕ → List ℕ → List ℕ → Type 0
Pending none ps fs = ps ≡ fs
Pending (some f) ps fs = f ∷ ps ≡ fs

pub Closed-Pending :
    (terminated : List Call → Bool) (cs : List Call)
    → Legal terminated cs
    → Closed terminated cs
    → Pending (running cs) (passed cs) (created cs)
unfolding running created passed
Closed-Pending terminated [] l c = refl
Closed-Pending terminated (Call.create_function n a t ∷ cs) l c =
    ap (λ fs. length cs ∷ fs)
      (subst (λ o. Pending o (passed cs) (created cs)) c.0 (Closed-Pending terminated cs l.1 c.1))
Closed-Pending terminated (Call.run_passes f ∷ cs) l c =
    subst (λ o. Pending o (passed cs) (created cs)) l.0.1 (Closed-Pending terminated cs l.1 c.1)
Closed-Pending terminated (_ ∷ cs) l c = Closed-Pending terminated cs l.1 c.1

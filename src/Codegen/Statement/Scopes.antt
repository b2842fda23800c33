-- ===== src/Codegen/Statement/Scopes.antt =====
-- The scopes of the variables around `visit(BlockStatementNode)` of src/Parser/Codegen.h.
use pudl.Prelude.{◌≡◌, sym, ap, ◌∙◌, Bool, false, List, length, Option, some}
use pudl.Ast.{Stmt, Stmts}
use pudl.Parser.Typing.{Context, TypedStmt}
use pudl.Codegen.Calls.{Call}
use pudl.Codegen.ScopeStack.{push, pop}
use pudl.Codegen.State.{Codegen, bind, push_scope, pop_scope, with_scopes}
use pudl.Codegen.Ensures.{TerminatorLaws, outer_scopes, IsInside, holds, Runs}
use pudl.Codegen.Rules.{Unit0}
use pudl.Codegen.Statement.{visit_block, visit_stmt}
use pudl.Codegen.Statement.Safe.{pushed-IsInside}
use pudl.Codegen.Statement.Accept.{visit_stmts-Statement}

module _ (terminated : List Call → Bool) (laws : TerminatorLaws terminated) where
  -- What was pushed is popped.
  abbrev Restores : Codegen → Option (Unit0 × Codegen) → Type 0
  Restores s o = (t : Codegen) × (o ≡ some (tt, t)) × (t.scopes ≡ s.scopes)

  pop-Restores :
      (s : Codegen) {P : Unit0 → Codegen → Type 0} {o : Option (Unit0 × Codegen)}
      → Runs terminated (length s.calls) (record s { scopes = push s.scopes }) P o
      → Restores s (bind o (λ _ t. with_scopes (pop t.scopes) t))
  unfolding outer_scopes
  pop-Restores s (holds {s = t} g) =
      let sc = g.0.inside.scoped in
      (
        record t { scopes = sc.1 },
        ap (λ scopes. with_scopes (pop scopes) t) sc.2,
        sym (ap outer_scopes sc.2) ∙ g.0.outer,
      )

  -- If LLVM's test for a terminator answers as documented, the calls so far are in order, a function
  -- is being generated, and its block is not terminated, then the visitor of a typed block comes to
  -- its end, and behind the block the scopes are those in front of it: whatever its statements and
  -- the blocks in them declare is forgotten, also where an error ends the block early.
  pub visit_stmt-restores :
      {context : Context} (b : Stmts) (s : Codegen)
      → TypedStmt context (Stmt.block b)
      → IsInside terminated (length s.calls) s
      → terminated s.calls ≡ false
      → (t : Codegen) × (visit_stmt terminated (Stmt.block b) s ≡ some (tt, t))
        × (t.scopes ≡ s.scopes)
  unfolding visit_stmt visit_block push_scope pop_scope
  visit_stmt-restores b s (TypedStmt.block _ ts) i live = pop-Restores s (
      visit_stmts-Statement terminated laws ts (record s { scopes = push s.scopes })
        (pushed-IsInside terminated laws i) live)

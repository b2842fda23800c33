-- ===== src/Codegen/Statement/Accept.antt =====
-- `accept` of a statement of the typed tree.
use pudl.Prelude.{◌≡◌, refl, subst, Bool, List, none, some}
use pudl.Ast.{Stmt, Stmts, type_of}
use pudl.Parser.Typing.{Context, TypedStmt, TypedStmts}
use pudl.Codegen.Calls.{Call}
use pudl.Codegen.State.{G}
use pudl.Codegen.Ensures.{TerminatorLaws}
use pudl.Codegen.Rules.{Unit0, Runs-value}
use pudl.Codegen.Visits.{Statement, Runs-visit}
use pudl.Codegen.Expression.Accept.{visit_expr-Operand}
use pudl.Codegen.Statement.{visit_stmt, visit_stmts}
use pudl.Codegen.Statement.Safe.{
  visit_assignment-Statement, visit_print-Statement, visit_return-Statement, visit_rest-Runs,
  visit_block-Statement,
}
use pudl.Codegen.Statement.Blocks.{visit_if-Statement, visit_while-Statement}
use pudl.Codegen.Statement.DoWhile.{visit_do_while-Statement}

no_branch : (P : G Unit0 → Type 0) (z : G Unit0) → none ≡ some z → P z
no_branch P z e = absurd (cc)

one_branch : (P : G Unit0 → Type 0) (y : G Unit0) → P y → (z : G Unit0) → some y ≡ some z → P z
one_branch P y h z e = subst P (some_inj e) h
  where
    some_inj : some y ≡ some z → y ≡ z
    some_inj e = cc

module _ (terminated : List Call → Bool) (laws : TerminatorLaws terminated)
    {context : Context} where
  mutual
    unfolding visit_stmt visit_stmts

    typed-Statement :
        {x : Stmt} → TypedStmt context x → Statement terminated (visit_stmt terminated x)
    typed-Statement (TypedStmt.io_print e t) s i live =
        visit_print-Statement terminated laws (type_of e) (visit_expr-Operand terminated laws t) s i
          live
    typed-Statement (TypedStmt.ret e t) s i live =
        visit_return-Statement terminated laws (visit_expr-Operand terminated laws t) s i live
    typed-Statement (TypedStmt.wrapper e t) s i live = Runs-value tt i (λ _. refl)
    typed-Statement (TypedStmt.assignment v e h u a t) s i live =
        visit_assignment-Statement terminated laws v (type_of e)
          (visit_expr-Operand terminated laws t) s i live
    typed-Statement (TypedStmt.block b t) s i live =
        visit_block-Statement terminated laws (typed-Statements t) s i live
    typed-Statement (TypedStmt.if_then e x b te tx) s i live =
        visit_if-Statement terminated laws none (visit_expr-Operand terminated laws te)
          (typed-Statement tx) (no_branch (λ z. Statement terminated z)) s i live
    typed-Statement (TypedStmt.if_else e x y b te tx ty) s i live =
        visit_if-Statement terminated laws (some (visit_stmt terminated y))
          (visit_expr-Operand terminated laws te) (typed-Statement tx)
          (one_branch (λ z. Statement terminated z) (visit_stmt terminated y) (typed-Statement ty))
          s i live
    typed-Statement (TypedStmt.while_stmt e x b te tx) s i live =
        visit_while-Statement terminated laws (visit_expr-Operand terminated laws te)
          (typed-Statement tx) s i live
    typed-Statement (TypedStmt.do_while x e b te tx) s i live =
        visit_do_while-Statement terminated laws (visit_expr-Operand terminated laws te)
          (typed-Statement tx) s i live

    typed-Statements :
        {b : Stmts} → TypedStmts context b → Statement terminated (visit_stmts terminated b)
    typed-Statements TypedStmts.no_stmts s i live = Runs-value tt i (λ _. refl)
    typed-Statements (TypedStmts.stmt x b t ts) s i live =
        Runs-visit _ i (typed-Statement t s i live)
          λ _ t st _ p. visit_rest-Runs terminated laws s.operands (typed-Statements ts) st.inside p

  pub visit_stmt-Statement :
      {x : Stmt} → TypedStmt context x → Statement terminated (visit_stmt terminated x)
  visit_stmt-Statement t = typed-Statement t

  pub visit_stmts-Statement :
      {b : Stmts} → TypedStmts context b → Statement terminated (visit_stmts terminated b)
  visit_stmts-Statement ts = typed-Statements ts

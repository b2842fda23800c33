-- ===== src/Codegen/Check/Accept.antt =====
-- `accept` of a statement of the typed tree: an error is reported just if the check fails.
use pudl.Prelude.{
  ℕ, ◌≡◌, refl, ap, ◌∙◌, subst, ◌&&◌, Bool, true, false, List, [], ◌∷◌, Bytes, none, some,
  if◌then◌else◌,
}
use pudl.Prelude.Map.{Map}
use pudl.Ast.{Stmt, Stmts, type_of}
use pudl.Parser.Typing.{Context, TypedStmt, TypedStmts}
use pudl.Codegen.Calls.{Call}
use pudl.Codegen.Ensures.{TerminatorLaws}
use pudl.Codegen.Statement.{visit_stmt, visit_stmts}
use pudl.Codegen.Check.{
  Names, is_visible, returns, any_returns, names_after, names_behind, check_expr, check_stmt,
  check_stmts,
}
use pudl.Codegen.Check.Leads.{same, Leads, arrives}
use pudl.Codegen.Check.Outcomes.{Outcome, Outcome-passed}
use pudl.Codegen.Check.Calls.{visit_expr-Checked}
use pudl.Codegen.Check.Statements.{
  CheckedStatement, visit_print-Checked, visit_return-Checked, visit_assignment-Checked,
}
use pudl.Codegen.Check.Blocks.{
  visit_block-Checked, visit_rest-Checked, visit_if-Checked, no_else, has_else,
}
use pudl.Codegen.Check.Loops.{visit_while-Checked, visit_do_while-Checked}

pub and_true : (b : Bool) → (b && true) ≡ b
and_true true = refl
and_true false = refl

-- Statements change the names of the innermost scope only.
mutual
  unfolding names_after names_behind

  inner_names :
      (x : Stmt) (ns : List Bytes) (names : Names)
      → (inner : List Bytes) × (names_after x (ns ∷ names) ≡ inner ∷ names)
  inner_names (Stmt.io_print e) ns names = (ns, refl)
  inner_names (Stmt.ret e) ns names = (ns, refl)
  inner_names (Stmt.wrapper e) ns names = (ns, refl)
  inner_names (Stmt.assignment v e) ns names = declared (is_visible v.name (ns ∷ names))
    where
      declared :
          (b : Bool)
          → (inner : List Bytes) × ((if b then ns ∷ names else (v.name ∷ ns) ∷ names)
              ≡ inner ∷ names)
      declared true = (ns, refl)
      declared false = (v.name ∷ ns, refl)
  inner_names (Stmt.block b) ns names = (ns, refl)
  inner_names (Stmt.if_then e x) ns names = inner_names x ns names
  inner_names (Stmt.if_else e x y) ns names =
      let p = inner_names x ns names in
      let q = inner_names y p.0 names in (q.0, ap (names_after y) p.1 ∙ q.1)
  inner_names (Stmt.while_stmt e x) ns names = inner_names x ns names
  inner_names (Stmt.do_while x e) ns names = inner_names x ns names

  pub inner_names_behind :
      (b : Stmts) (ns : List Bytes) (names : Names)
      → (inner : List Bytes) × (names_behind b (ns ∷ names) ≡ inner ∷ names)
  inner_names_behind Stmts.no_stmts ns names = (ns, refl)
  inner_names_behind (Stmts.stmt x b) ns names =
      let p = inner_names x ns names in
      let q = inner_names_behind b p.0 names in
      chosen (returns x) p (q.0, ap (names_behind b) p.1 ∙ q.1)
    where
      chosen :
          (r : Bool)
          → (inner : List Bytes) × (names_after x (ns ∷ names) ≡ inner ∷ names)
          → (inner : List Bytes) × (names_behind b (names_after x (ns ∷ names)) ≡ inner ∷ names)
          → (inner : List Bytes) × ((if r
                then names_after x (ns ∷ names)
                else names_behind b (names_after x (ns ∷ names)))
              ≡ inner ∷ names)
      chosen true p q = p
      chosen false p q = q

module _ (terminated : List Call → Bool) (laws : TerminatorLaws terminated) (arities : Map ℕ)
    {context : Context} where
  mutual
    unfolding visit_stmt visit_stmts check_stmt check_stmts names_after names_behind returns
        any_returns

    pub typed-Checked :
        {x : Stmt}
        → TypedStmt context x
        → (names : Names)
        → CheckedStatement terminated arities names
            (check_stmt arities names x)
            (names_after x names)
            (returns x)
            (visit_stmt terminated x)
    typed-Checked (TypedStmt.io_print e t) names s ready =
        visit_print-Checked terminated arities (visit_expr-Checked terminated arities names t)
          (type_of e) s ready
    typed-Checked (TypedStmt.ret e t) names s ready =
        visit_return-Checked terminated arities (visit_expr-Checked terminated arities names t) s
          ready
    typed-Checked (TypedStmt.wrapper e t) names s ready =
        arrives same (λ l. Outcome-passed s (ready l))
    typed-Checked (TypedStmt.assignment v e h u a t) names s ready =
        visit_assignment-Checked terminated arities v (type_of e)
          (visit_expr-Checked terminated arities names t) s ready
    typed-Checked (TypedStmt.block b t) names s ready =
        let inner = inner_names_behind b [] names in
        visit_block-Checked terminated arities inner.0
          (subst
            (λ later.
              CheckedStatement terminated arities ([] ∷ names) (check_stmts arities ([] ∷ names) b)
                later (any_returns b) (visit_stmts terminated b))
            inner.1 (typed-CheckedAll t ([] ∷ names)))
          s ready
    typed-Checked (TypedStmt.if_then e x b te tx) names s ready =
        subst
          (λ ok.
            Leads terminated s
              (λ _ t.
                Outcome arities s (check_expr arities names e && ok) (names_after x names) false t)
              (visit_stmt terminated (Stmt.if_then e x) s))
          (and_true (check_stmt arities names x))
          (visit_if-Checked terminated arities none (visit_expr-Checked terminated arities names te)
            (typed-Checked tx names) (no_else terminated arities) s ready)
    typed-Checked (TypedStmt.if_else e x y b te tx ty) names s ready =
        visit_if-Checked terminated arities (some (visit_stmt terminated y))
          (visit_expr-Checked terminated arities names te) (typed-Checked tx names)
          (λ func c. has_else terminated arities func c (typed-Checked ty (names_after x names))) s
          ready
    typed-Checked (TypedStmt.while_stmt e x b te tx) names s ready =
        visit_while-Checked terminated arities (visit_expr-Checked terminated arities names te)
          (typed-Checked tx names) s ready
    typed-Checked (TypedStmt.do_while x e b te tx) names s ready =
        visit_do_while-Checked terminated arities laws (typed-Checked tx names)
          (visit_expr-Checked terminated arities (names_after x names) te) s ready

    typed-CheckedAll :
        {b : Stmts}
        → TypedStmts context b
        → (names : Names)
        → CheckedStatement terminated arities names
            (check_stmts arities names b)
            (names_behind b names)
            (any_returns b)
            (visit_stmts terminated b)
    typed-CheckedAll TypedStmts.no_stmts names s ready =
        arrives same (λ l. Outcome-passed s (ready l))
    typed-CheckedAll (TypedStmts.stmt x b t ts) names s ready =
        visit_rest-Checked terminated arities laws (typed-Checked t names)
          (typed-CheckedAll ts (names_after x names)) s ready

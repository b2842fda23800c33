-- ===== src/Parser/Statement/Sound.antt =====
-- The induction on fuel for the methods that call `statement`.
use pudl.Prelude.{ℕ, zero, suc, ◌+◌, ◌*◌, ◌<◌, ◌≡◌, refl, subst, false, Bytes, Option, arith}
use pudl.Token.{TokenType}
use pudl.Ast.{Stmt, Stmts, block, if_then, if_else, while_stmt, do_while, no_stmts, stmt}
use pudl.Lexer.Progress.{pending}
use pudl.Lexer.Lexemes.{Lexeme}
use pudl.Parser.State.{State, M, is, fail, reject, with_semicolon, unexpected_end}
use pudl.Parser.Typing.{context, TypedStmt, TypedStmts}
use pudl.Parser.Ensures.{
  size, IsValid, Step-refl, Step-trans, Returns, Returns-value, Returns-bind, Returns-if,
  Returns-reject, Returns-next, Returns-require, Returns-is_expected, fails,
}
use pudl.Parser.Expression.Level.{later}
use pudl.Parser.Expression.Sound.{expression-Returns}
use pudl.Parser.Statement.{
  parse_ret, parse_print, declaration, symbol_stmt, statement, if_statement, while_statement,
  do_while_statement, block_statement, block_loop,
}
use pudl.Parser.Statement.Parts.{
  loosen, ParsedStmt, later_stmt, with_semicolon-Returns, condition-Returns, parse_ret-Returns,
  parse_print-Returns, declaration-Returns, symbol_stmt-Returns,
}

abbrev CleanStmts : Stmts → State → Type 0
CleanStmts b s = s.is_error ≡ false → TypedStmts (context s) b

module _ (stof : Bytes → Option ℕ) where
  mutual
    unfolding statement

    pub statement-Returns :
        (f : ℕ) (s : State)
        → IsValid s
        → 16 * size s + 14 < f
        → Returns false s (ParsedStmt (size s)) (statement stof f s)
    statement-Returns zero s v h = absurd (omega arith)
    statement-Returns (suc f) s v h =
        let t = s.current in
        let n = size s in
        let enough : 16 * size s + 11 < f = omega arith in
        let cases : (ty : TokenType)
            → t.type ≡ ty
            → Returns false s (ParsedStmt n) (
                (elim ty as (λ _. M Stmt) [
                  | TokenType.eof_token ↦ reject t.line unexpected_end
                  | TokenType.bl ↦ block_statement stof f
                  | TokenType.if_kw ↦ if_statement stof f
                  | TokenType.while_kw ↦ while_statement stof f
                  | TokenType.do_kw ↦ do_while_statement stof f
                  | TokenType.type_name ↦ with_semicolon (declaration stof f)
                  | TokenType.symbol ↦ symbol_stmt stof f
                  | TokenType.io_print ↦ with_semicolon (parse_print stof f)
                  | TokenType.return_kw ↦ with_semicolon (parse_ret stof f)
                  | _ ↦ fail
                ])
                  s) =
          elim [
            | TokenType.eof_token ↦ λ e. Returns-reject t.line unexpected_end v
            | TokenType.bl ↦ λ e. block_statement-Returns f s v (rw e) (omega arith)
            | TokenType.if_kw ↦ λ e. if_statement-Returns f s v (omega arith)
            | TokenType.while_kw ↦ λ e. while_statement-Returns f s v (omega arith)
            | TokenType.do_kw ↦ λ e. do_while_statement-Returns f s v (rw e) (omega arith)
            | TokenType.type_name ↦ λ e. with_semicolon-Returns n (declaration stof f) s (
                declaration-Returns stof f s v enough
                  (subst (λ ty. Lexeme ty t.lexeme) e v.current))
            | TokenType.symbol ↦ λ e. symbol_stmt-Returns stof f s v enough (rw e)
            | TokenType.io_print ↦ λ e.
                with_semicolon-Returns n (parse_print stof f) s
                  (parse_print-Returns stof f s v enough)
            | TokenType.return_kw ↦ λ e.
                with_semicolon-Returns n (parse_ret stof f) s (parse_ret-Returns stof f s v enough)
            | _ ↦ λ e. fails (Step-refl v)
          ] in
        cases t.type refl

    if_statement-Returns :
        (f : ℕ) (s : State)
        → IsValid s
        → 16 * size s + 13 < f
        → Returns false s (ParsedStmt (size s)) (if_statement stof f s)
    if_statement-Returns zero s v h = absurd (omega arith)
    if_statement-Returns (suc f) s v h =
        Returns-bind (loosen (expression-Returns stof f s v (omega arith))) λ e t st p.
          Returns-bind (condition-Returns s.current e t st.valid) λ _ u su b.
            Returns-bind (statement-Returns f u su.valid (omega (arith, p.0, b.1))) λ x w sw q.
              let typed = later e (Step-trans su sw) p.1 in
              Returns-if (is w.current TokenType.else_kw) _ _
                (λ _. Returns-bind (Returns-next sw.valid) λ _ y sy _.
                  Returns-bind
                    (statement-Returns f y sy.valid (omega (arith, p.0, b.1, q.0, sy.size_le)))
                    λ z r sr m. Returns-value (if_else e x z) (Step-refl sr.valid) (
                      omega (arith, p.0, b.1, q.0, sy.size_le, m.0),
                      λ c.
                          let g = Step-trans sy sr in
                          TypedStmt.if_else e x z b.0 (later e g typed c) (later_stmt x g q.1 c)
                            (m.1 c),
                    ))
                (λ _.
                  Returns-value (if_then e x) (Step-refl sw.valid) (
                    omega (arith, p.0, b.1, q.0),
                    λ c. TypedStmt.if_then e x b.0 (typed c) (q.1 c),
                  ))

    while_statement-Returns :
        (f : ℕ) (s : State)
        → IsValid s
        → 16 * size s + 13 < f
        → Returns false s (ParsedStmt (size s)) (while_statement stof f s)
    while_statement-Returns zero s v h = absurd (omega arith)
    while_statement-Returns (suc f) s v h =
        Returns-bind (loosen (expression-Returns stof f s v (omega arith))) λ e t st p.
          Returns-bind (condition-Returns s.current e t st.valid) λ _ u su b.
            Returns-bind (statement-Returns f u su.valid (omega (arith, p.0, b.1))) λ x w sw q.
              Returns-value (while_stmt e x) (Step-refl sw.valid) (
                omega (arith, p.0, b.1, q.0),
                λ c. TypedStmt.while_stmt e x b.0 (later e (Step-trans su sw) p.1 c) (q.1 c),
              )

    do_while_statement-Returns :
        (f : ℕ) (s : State)
        → IsValid s
        → pending s.current ≡ 1
        → 16 * size s + 13 < f
        → Returns false s (ParsedStmt (size s)) (do_while_statement stof f s)
    do_while_statement-Returns zero s v one h = absurd (omega arith)
    do_while_statement-Returns (suc f) s v one h = Returns-bind (Returns-next v) λ _ t st adv.
        Returns-bind (statement-Returns f t st.valid (omega (arith, adv.consumed, one))) λ x u su q.
          Returns-bind (Returns-require su.valid u.current TokenType.while_kw) λ _ w sw _.
            Returns-bind
              (loosen (
                expression-Returns stof f w sw.valid
                  (omega (arith, adv.consumed, q.0, sw.size_le))))
              λ e y sy p. Returns-bind (condition-Returns u.current e y sy.valid) λ _ z sz b.
                Returns-value (do_while x e) (Step-refl sz.valid) (
                  omega (arith, adv.consumed, q.0, sw.size_le, p.0, b.1),
                  λ c.
                      TypedStmt.do_while x e b.0 (later e sz p.1 c)
                        (later_stmt x (Step-trans (Step-trans sw sy) sz) q.1 c),
                )

    block_statement-Returns :
        (f : ℕ) (s : State)
        → IsValid s
        → pending s.current ≡ 1
        → 16 * size s + 13 < f
        → Returns false s (ParsedStmt (size s)) (block_statement stof f s)
    block_statement-Returns zero s v one h = absurd (omega arith)
    block_statement-Returns (suc f) s v one h = Returns-bind (Returns-next v) λ _ t st adv.
        Returns-bind (block_loop-Returns f t st.valid (omega (arith, adv.consumed, one)))
          λ b u su q.
            Returns-value (block b) (Step-refl su.valid)
              (omega (arith, adv.consumed, one, su.size_le), λ c. TypedStmt.block b (q c))

    block_loop-Returns :
        (f : ℕ) (s : State)
        → IsValid s
        → 16 * size s + 15 < f
        → Returns false s CleanStmts (block_loop stof f s)
    block_loop-Returns zero s v h = absurd (omega arith)
    block_loop-Returns (suc f) s v h =
        Returns-if (is s.current TokenType.br) _ _
          (λ _.
            Returns-bind (Returns-next v)
              λ _ t st _. Returns-value no_stmts (Step-refl st.valid) (λ _. TypedStmts.no_stmts))
          (λ _.
            Returns-if (is s.current TokenType.eof_token) _ _
              (λ _.
                Returns-bind (Returns-is_expected v s.current TokenType.br)
                  λ _ t st _. fails (Step-refl st.valid))
              (λ _. Returns-bind (statement-Returns f s v (omega arith)) λ x t st q.
                Returns-bind (block_loop-Returns f t st.valid (omega (arith, q.0))) λ rest u su r.
                  Returns-value (stmt x rest) (Step-refl su.valid)
                    (λ c. TypedStmts.stmt x rest (later_stmt x su q.1 c) (r c))))

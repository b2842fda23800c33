-- ===== src/Parser/Witnesses.antt =====
-- The theorems on the parser at small files.
use pudl.Prelude.{
  ◌≡◌, ◌≤◌, refl, ap, ◌∙◌, sym, subst, [], ◌∷◌, codes, Bytes, length, false, true, arith,
}
use pudl.Prelude.Map.{lookup}
use pudl.Lexer.{new_lexer, lex}
use pudl.Lexer.Progress.{pending, lex_progress}
use pudl.Lexer.Lexemes.{IsLexed, lex-IsLexed}
use pudl.Ast.{Root, vector}
use pudl.Parser.State.{State, value, initial}
use pudl.Parser.Typing.{context, Typed, TypedStmt}
use pudl.Parser.Ensures.{size, IsValid}
use pudl.Parser.Expression.{expression}
use pudl.Parser.Statement.{statement}
use pudl.Parser.Methods.{Answers, expression-Answers, statement-Answers}
use pudl.Parser.Program.{parse}
use pudl.Parser.Program.Definition.{TypedRoot}
use pudl.Parser.Program.Sound.{parse_total, parse-TypedRoot}
use pudl.Parser.Tests.{no_floats, fact, fact_source, fact_state, run_parse-fact, run_parse_lem}

parse-TypedRoot_example : TypedRoot fact_state.funcs (vector (fact ∷ []))
parse-TypedRoot_example =
    parse-TypedRoot no_floats fact_source (vector (fact ∷ [])) fact_state
      (run_parse_lem fact_source ∙ run_parse-fact) refl

parse_total_example :
    (r : Root) × (s : State) × (parse no_floats (codes "func func # x\n {") ≡ value r s)
parse_total_example = parse_total no_floats (codes "func func # x\n {")

-- The state of a parser that has read the first token of `file`.
abbrev started : Bytes → State
started file = record (initial file) {
  lexer = (lex (new_lexer file)).1;
  current = (lex (new_lexer file)).0;
}

started-IsValid : (file : Bytes) → IsValid (started file)
unfolding lookup
started-IsValid file = record {
  current = lex-IsLexed (new_lexer file) refl;
  saved = subst IsLexed (sym (lex_progress (new_lexer file)).1) refl;
  scope = λ k x h. absurd (cc);
  funcs = λ k x h. absurd (cc);
}

started-size : (file : Bytes) → size (started file) ≤ length file
started-size file = omega (
  arith,
  (lex_progress (new_lexer file)).0,
  ap (λ t. pending t) (lex_progress (new_lexer file)).1,
)

expression-Answers_example :
    Answers true
      (started (codes "= 1 < 2"))
      (λ e t. t.is_error ≡ false → Typed (context t) e)
      (expression no_floats 200 (started (codes "= 1 < 2")))
expression-Answers_example =
    expression-Answers no_floats 200 (started (codes "= 1 < 2")) (started-IsValid (codes "= 1 < 2"))
      (omega (arith, started-size (codes "= 1 < 2")))

statement-Answers_example :
    Answers false
      (started (codes "print 1"))
      (λ x t. t.is_error ≡ false → TypedStmt (context t) x)
      (statement no_floats 200 (started (codes "print 1")))
statement-Answers_example =
    statement-Answers no_floats 200 (started (codes "print 1")) (started-IsValid (codes "print 1"))
      (omega (arith, started-size (codes "print 1")))

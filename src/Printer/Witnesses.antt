-- ===== src/Printer/Witnesses.antt =====
-- The theorem on the printed tree at the factorial function.
use pudl.Prelude.{ℕ, refl, [], ◌∷◌, Bytes, codes, all}
use pudl.Ast.{vector}
use pudl.Parser.Tests.{fact}
use pudl.Printer.{print_root}
use pudl.Printer.Brackets.{Nested, IsPlain}
use pudl.Printer.Nested.{PlainRoot, PlainExpr, PlainArgs, PlainStmt, PlainStmts, print_root-Nested}

-- Digits are enough here.
abbrev star : ℕ → Bytes
star n = codes "*"

star-IsPlain : (n : ℕ) → IsPlain (star n)
unfolding all
star-IsPlain n = refl

fact-PlainRoot : PlainRoot (vector (fact ∷ []))
unfolding PlainExpr PlainArgs PlainStmt PlainStmts all
fact-PlainRoot =
    ((refl, (refl, tt), (((refl, tt), tt), ((refl, (refl, ((refl, tt), tt))), tt))), tt)

print_root-Nested_example : Nested (print_root star star (vector (fact ∷ [])))
print_root-Nested_example =
    print_root-Nested star star star-IsPlain star-IsPlain (vector (fact ∷ [])) fact-PlainRoot

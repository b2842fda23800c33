-- ===== src/Ast/Witnesses.antt =====
-- The theorem on operators at one of them.
use pudl.Prelude.{◌≡◌}
use pudl.Ast.{le}
use pudl.Ast.Operator.{binary_operator_from_lexeme, show_operator, from_lexeme-show_operator}

from_lexeme-show_operator_example : binary_operator_from_lexeme (show_operator le) ≡ le
from_lexeme-show_operator_example = from_lexeme-show_operator le

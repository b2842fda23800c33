-- ===== src/Ast/Operator.antt =====
-- The operator functions of src/Parser/AST/AST.cpp.
use pudl.Prelude.{Bytes, codes, bytes_eq, ◌≡◌, refl, Bool, true, false, if◌then◌else◌}
use pudl.Ast.{
  OperatorKind, add, sub, mul, div, eq, ne, gt, lt, ge, le, and_op, or_op, pos, neg, not_op,
}

unfoldable pub binary_operator_from_lexeme : Bytes → OperatorKind
unfolding bytes_eq
binary_operator_from_lexeme lexeme =
    if bytes_eq lexeme (codes "+")
    then add
    else if bytes_eq lexeme (codes "-")
    then sub
    else if bytes_eq lexeme (codes "*")
    then mul
    else if bytes_eq lexeme (codes "/")
    then div
    else if bytes_eq lexeme (codes "==")
    then eq
    else if bytes_eq lexeme (codes "!=")
    then ne
    else if bytes_eq lexeme (codes ">")
    then gt
    else if bytes_eq lexeme (codes "<")
    then lt
    else if bytes_eq lexeme (codes ">=")
    then ge
    else if bytes_eq lexeme (codes "<=")
    then le
    else if bytes_eq lexeme (codes "&&")
    then and_op
    else if bytes_eq lexeme (codes "||")
    then or_op
    else add

unfoldable pub unary_operator_from_lexeme : Bytes → OperatorKind
unfolding bytes_eq
unary_operator_from_lexeme lexeme =
    if bytes_eq lexeme (codes "-")
    then neg
    else if bytes_eq lexeme (codes "+")
    then pos
    else if bytes_eq lexeme (codes "!")
    then not_op
    else pos

unfoldable pub show_operator : OperatorKind → Bytes
show_operator add = codes "+"
show_operator sub = codes "-"
show_operator mul = codes "*"
show_operator div = codes "/"
show_operator eq = codes "=="
show_operator ne = codes "!="
show_operator gt = codes ">"
show_operator lt = codes "<"
show_operator ge = codes ">="
show_operator le = codes "<="
show_operator and_op = codes "&&"
show_operator or_op = codes "||"
show_operator pos = codes "+"
show_operator neg = codes "-"
show_operator not_op = codes "!"

-- The forms that stand in a UnaryNode.
abbrev pub is_unary : OperatorKind → Bool
is_unary pos = true
is_unary neg = true
is_unary not_op = true
is_unary _ = false

-- Reading what was shown gives the operator back: `binary_operator_from_lexeme` for the binary
-- operators, `unary_operator_from_lexeme` for the unary ones.
pub from_lexeme-show_operator :
    (op : OperatorKind)
    → (if is_unary op
        then unary_operator_from_lexeme (show_operator op)
        else binary_operator_from_lexeme (show_operator op))
      ≡ op
unfolding binary_operator_from_lexeme unary_operator_from_lexeme show_operator
from_lexeme-show_operator add = refl
from_lexeme-show_operator _ = refl

-- ===== src/Printer/Brackets.antt =====
-- Texts whose parentheses match, and the parts of the printed tree that have no tree inside.
use pudl.Prelude.{
  ℕ, zero, suc, ◌==◌, ◌&&◌, not, ◌≡◌, refl, ap, ◌∙◌, Bool, true, false, [], ◌∷◌, ◌++◌, append_assoc,
  Bytes, codes, all, Option, some, none, if◌then◌else◌, arith,
}
use pudl.Ast.{TType, OperatorKind, Var}
use pudl.Ast.Operator.{show_operator}
use pudl.Printer.{show, parens, print_var, print_callable}

-- The depth behind a text, from the depth in front of it, and nothing where a parenthesis is closed that
-- was not opened.
unfoldable pub scan : ℕ → Bytes → Option ℕ
scan d [] = some d
scan d (c ∷ w) =
    if c == b'('
    then scan (suc d) w
    else if c == b')'
    then elim d [ zero ↦ none | suc e ↦ scan e w ]
    else scan d w

-- A text that closes what it opens, wherever it stands.
abbrev pub Nested : Bytes → Type 0
Nested w = (d : ℕ) (v : Bytes) → scan d (w ++ v) ≡ scan d v

abbrev pub is_plain : ℕ → Bool
is_plain c = not (c == b'(') && not (c == b')')

abbrev pub IsPlain : Bytes → Type 0
IsPlain w = all is_plain w ≡ true

pub plain-Nested : (w : Bytes) → IsPlain w → Nested w
unfolding scan all
plain-Nested [] h d v = refl
plain-Nested (c ∷ w) h d v =
    let p : (c == b'(') ≡ false = ground (arith, h) in
    let q : (c == b')') ≡ false = ground (arith, h) in
    rw (p, q) (plain-Nested w (ground (arith, h)) d v)

pub append-Nested : (u w : Bytes) → Nested u → Nested w → Nested (u ++ w)
append-Nested u w hu hw d v = ap (scan d) (append_assoc u w v) ∙ hu d (w ++ v) ∙ hw d v

pub parens-Nested : (w : Bytes) → Nested w → Nested (parens w)
unfolding scan
parens-Nested w h d v =
    ap (scan (suc d)) (append_assoc w (codes ")") v) ∙ h (suc d) (codes ")" ++ v)

-- A name without parentheses.
abbrev pub PlainVar : Var → Type 0
PlainVar v = IsPlain v.name

pub operator-Nested :
    (op : OperatorKind) (w : Bytes) → Nested w → Nested (show_operator op ++ (codes " " ++ w))
unfolding show_operator scan
operator-Nested OperatorKind.add w h d v = h d v
operator-Nested OperatorKind.sub w h d v = h d v
operator-Nested OperatorKind.mul w h d v = h d v
operator-Nested OperatorKind.div w h d v = h d v
operator-Nested _ w h d v = h d v

pub show-Nested : (ty : TType) (w : Bytes) → Nested w → Nested (show ty ++ w)
unfolding scan
show-Nested TType.undefined w h d v = h d v
show-Nested TType.bool w h d v = h d v
show-Nested TType.integer w h d v = h d v
show-Nested TType.float w h d v = h d v

pub ends-Nested : (w u : Bytes) → Nested w → IsPlain u → Nested (w ++ u)
ends-Nested w u h p = append-Nested w u h (plain-Nested u p)

pub begins-Nested : (u w : Bytes) → IsPlain u → Nested w → Nested (u ++ w)
begins-Nested u w p h = append-Nested u w (plain-Nested u p) h

pub print_var-Nested : (v : Var) → PlainVar v → Nested (print_var v)
unfolding all
print_var-Nested v p =
    begins-Nested (codes " [") (show v.type ++ (codes " " ++ (v.name ++ codes "]"))) refl (
      show-Nested v.type (codes " " ++ (v.name ++ codes "]")) (
        begins-Nested (codes " ") (v.name ++ codes "]") refl
          (begins-Nested v.name (codes "]") p (plain-Nested (codes "]") refl))))

pub callable-Nested :
    (what name args : Bytes) (ty : TType) (body : Bytes)
    → IsPlain what
    → IsPlain name
    → Nested args
    → Nested body
    → Nested (print_callable what name args ty body)
unfolding all
callable-Nested what name args ty body pw pn ha hb =
    let tail = codes " -> " ++ (show ty ++ body) in
    let inner = parens (args ++ codes " ") in
    parens-Nested (what ++ (name ++ (codes " :" ++ (inner ++ tail)))) (
      begins-Nested what (name ++ (codes " :" ++ (inner ++ tail))) pw (
        begins-Nested name (codes " :" ++ (inner ++ tail)) pn (
          begins-Nested (codes " :") (inner ++ tail) refl (
            append-Nested inner tail
              (parens-Nested (args ++ codes " ") (ends-Nested args (codes " ") ha refl))
              (begins-Nested (codes " -> ") (show ty ++ body) refl (show-Nested ty body hb))))))

-- ===== src/Codegen/Check/Operators.antt =====
-- What `visit(BinaryNode &)` and `visit(UnaryNode &)` do with the operators of typed expressions.
use pudl.Prelude.{◌≡◌, ◌≢◌, refl, ◌||◌, Bool, true, false, some, if◌then◌else◌}
use pudl.Ast.{TType, OperatorKind, Expr, type_of, is_float}
use pudl.Parser.Typing.{Context, Typed, is_arithmetic, is_relation, is_equality, is_logical}
use pudl.Codegen.Calls.{Opcode}
use pudl.Codegen.Expression.{arithmetic_opcode, relation_opcode, OperatorGroup, group_of}

number_type : (b : Bool) → (if b then TType.float else TType.integer) ≢ TType.undefined
number_type true e = absurd (cc)
number_type false e = absurd (cc)

pub Typed-defined : {c : Context} {e : Expr} → Typed c e → type_of e ≢ TType.undefined
unfolding type_of
Typed-defined (Typed.var v h u) q = u q
Typed-defined (Typed.funcall name args h e u t) q = u q
Typed-defined (Typed.boolean b) q = absurd (cc)
Typed-defined (Typed.integer_lit n h) q = absurd (cc)
Typed-defined (Typed.float_lit x) q = absurd (cc)
Typed-defined (Typed.logical op l r o hl hr tl tr) q = absurd (cc)
Typed-defined (Typed.equality op l r o tl tr) q = absurd (cc)
Typed-defined (Typed.relational op l r o hl hr tl tr) q = absurd (cc)
Typed-defined (Typed.arithmetic op l r o hl hr tl tr) q =
    number_type (is_float (type_of l) || is_float (type_of r)) q
Typed-defined (Typed.negation e h t) q = Typed-defined t q
Typed-defined (Typed.signed op e o h t) q = Typed-defined t q

pub arithmetic-HasOpcode :
    (op : OperatorKind)
    → is_arithmetic op ≡ true
    → (b : Bool) → (o : Opcode) × (arithmetic_opcode b op ≡ some o)
arithmetic-HasOpcode OperatorKind.add h true = (_, refl)
arithmetic-HasOpcode OperatorKind.add h false = (_, refl)
arithmetic-HasOpcode OperatorKind.sub h true = (_, refl)
arithmetic-HasOpcode OperatorKind.sub h false = (_, refl)
arithmetic-HasOpcode OperatorKind.mul h true = (_, refl)
arithmetic-HasOpcode OperatorKind.mul h false = (_, refl)
arithmetic-HasOpcode OperatorKind.div h true = (_, refl)
arithmetic-HasOpcode OperatorKind.div h false = (_, refl)
arithmetic-HasOpcode _ h b = absurd (cc)

pub relation-HasOpcode :
    (op : OperatorKind)
    → is_relation op ≡ true
    → (b : Bool) → (o : Opcode) × (relation_opcode b op ≡ some o)
relation-HasOpcode OperatorKind.gt h true = (_, refl)
relation-HasOpcode OperatorKind.gt h false = (_, refl)
relation-HasOpcode OperatorKind.lt h true = (_, refl)
relation-HasOpcode OperatorKind.lt h false = (_, refl)
relation-HasOpcode OperatorKind.ge h true = (_, refl)
relation-HasOpcode OperatorKind.ge h false = (_, refl)
relation-HasOpcode OperatorKind.le h true = (_, refl)
relation-HasOpcode OperatorKind.le h false = (_, refl)
relation-HasOpcode _ h b = absurd (cc)

pub equality-HasOpcode :
    (op : OperatorKind)
    → is_equality op ≡ true
    → (b : Bool) → (o : Opcode) × (relation_opcode b op ≡ some o)
equality-HasOpcode OperatorKind.eq h true = (_, refl)
equality-HasOpcode OperatorKind.eq h false = (_, refl)
equality-HasOpcode OperatorKind.ne h true = (_, refl)
equality-HasOpcode OperatorKind.ne h false = (_, refl)
equality-HasOpcode _ h b = absurd (cc)

pub arithmetic-group :
    (op : OperatorKind) → is_arithmetic op ≡ true → group_of op ≡ OperatorGroup.arithmetic_group
arithmetic-group OperatorKind.add h = refl
arithmetic-group OperatorKind.sub h = refl
arithmetic-group OperatorKind.mul h = refl
arithmetic-group OperatorKind.div h = refl
arithmetic-group _ h = absurd (cc)

pub relation-group :
    (op : OperatorKind) → is_relation op ≡ true → group_of op ≡ OperatorGroup.relation_group
relation-group OperatorKind.gt h = refl
relation-group OperatorKind.lt h = refl
relation-group OperatorKind.ge h = refl
relation-group OperatorKind.le h = refl
relation-group _ h = absurd (cc)

pub equality-group :
    (op : OperatorKind) → is_equality op ≡ true → group_of op ≡ OperatorGroup.relation_group
equality-group OperatorKind.eq h = refl
equality-group OperatorKind.ne h = refl
equality-group _ h = absurd (cc)

pub logical-group :
    (op : OperatorKind) → is_logical op ≡ true → group_of op ≡ OperatorGroup.logical_group
logical-group OperatorKind.and_op h = refl
logical-group OperatorKind.or_op h = refl
logical-group _ h = absurd (cc)

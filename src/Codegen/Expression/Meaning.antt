-- ===== src/Codegen/Expression/Meaning.antt =====
-- What the code for an expression computes, for expressions without calls, `&&` and `||`: such code has no
-- branches and no stores.
pub mod Values
pub mod Computes
use pudl.Prelude.{
  ℕ, zero, suc, ◌<◌, ◌≡◌, refl, ◌==◌, not, ◌&&◌, ◌||◌, Bool, true, false, List, [], ◌∷◌, Bytes,
  length, Option, none, some, if◌then◌else◌,
}
use pudl.Ast.{TType, OperatorKind, Var, Expr, type_of, is_bool, is_float}
use pudl.Codegen.Calls.{
  Call, LlvmType, Opcode, UnaryOpcode, Value, create_load, create_binary, create_unary, create_cast,
}
use pudl.Codegen.ScopeStack.{Scopes, lookup_in}
use pudl.Codegen.State.{llvm_type}
use pudl.Codegen.Expression.{OperatorGroup, group_of}

-- The values that LLVM computes with, and what its instructions do. `load` is what the memory holds.
pub record Machine : Type 1 where
  pub V : Type 0
  pub junk : V
  pub of_bool : Bool → V
  pub of_int : ℕ → V
  pub of_float : ℕ → V
  pub of_argument : ℕ → ℕ → V
  pub load : LlvmType → Value → V
  pub cast : V → LlvmType → V
  pub opcode : Opcode → V → V → V
  pub unary : UnaryOpcode → V → V

-- The operator that an instruction is for. The unsigned division is none of the language.
abbrev pub operator_of : Opcode → Option OperatorKind
operator_of Opcode.f_add = some OperatorKind.add
operator_of Opcode.f_sub = some OperatorKind.sub
operator_of Opcode.f_mul = some OperatorKind.mul
operator_of Opcode.f_div = some OperatorKind.div
operator_of Opcode.i_add = some OperatorKind.add
operator_of Opcode.i_sub = some OperatorKind.sub
operator_of Opcode.i_mul = some OperatorKind.mul
operator_of Opcode.u_div = none
operator_of Opcode.fcmp_oeq = some OperatorKind.eq
operator_of Opcode.fcmp_one = some OperatorKind.ne
operator_of Opcode.fcmp_ogt = some OperatorKind.gt
operator_of Opcode.fcmp_olt = some OperatorKind.lt
operator_of Opcode.fcmp_oge = some OperatorKind.ge
operator_of Opcode.fcmp_ole = some OperatorKind.le
operator_of Opcode.icmp_eq = some OperatorKind.eq
operator_of Opcode.icmp_ne = some OperatorKind.ne
operator_of Opcode.icmp_sgt = some OperatorKind.gt
operator_of Opcode.icmp_slt = some OperatorKind.lt
operator_of Opcode.icmp_sge = some OperatorKind.ge
operator_of Opcode.icmp_sle = some OperatorKind.le

-- Whether it works on floats.
abbrev pub on_floats : Opcode → Bool
on_floats Opcode.f_add = true
on_floats Opcode.f_sub = true
on_floats Opcode.f_mul = true
on_floats Opcode.f_div = true
on_floats Opcode.fcmp_oeq = true
on_floats Opcode.fcmp_one = true
on_floats Opcode.fcmp_ogt = true
on_floats Opcode.fcmp_olt = true
on_floats Opcode.fcmp_oge = true
on_floats Opcode.fcmp_ole = true
on_floats _ = false

-- Whether LLVM compares such operands, and in the way that the language does.
abbrev pub is_comparable : OperatorKind → TType → TType → Bool
is_comparable OperatorKind.eq l r = if is_bool l then is_bool r else not (is_bool r)
is_comparable OperatorKind.ne l r = if is_bool l then is_bool r else not (is_bool r)
is_comparable _ l r = not (is_bool l) && not (is_bool r)

-- Whether LLVM has an instruction for arithmetic on such operands that does what the language does: two
-- numbers, but no division of two integers.
abbrev pub is_sound : OperatorKind → TType → TType → Bool
is_sound OperatorKind.div l r = not (is_bool l) && not (is_bool r) && (is_float l || is_float r)
is_sound _ l r = not (is_bool l) && not (is_bool r)

module _ (m : Machine) where
  abbrev pub of_value : (ℕ → m.V) → Value → m.V
  of_value f (Value.returned n) = f n
  of_value f (Value.constant_bool b) = m.of_bool b
  of_value f (Value.constant_int n) = m.of_int n
  of_value f (Value.constant_float x) = m.of_float x
  of_value f (Value.argument n i) = m.of_argument n i

  -- What a call returns, where `v` gives what its operands stand for.
  abbrev pub outcome : (Value → m.V) → Call → m.V
  outcome v (Call.create_load ty slot name) = m.load ty slot
  outcome v (Call.create_binary op a b) = m.opcode op (v a) (v b)
  outcome v (Call.create_unary op a) = m.unary op (v a)
  outcome v (Call.create_cast a ty) = m.cast (v a) ty
  outcome v _ = m.junk

  -- What the call of that number returned, and what a value stands for, after some calls.
  unfoldable pub returns : List Call → ℕ → m.V
  returns [] n = m.junk
  returns (c ∷ cs) n =
      let earlier = returns cs n in
      if length cs == n then outcome (of_value (λ k. returns cs k)) c else earlier

  abbrev pub value_in : List Call → Value → m.V
  value_in cs v = of_value (λ k. returns cs k) v

  module _ (operation : Bool → OperatorKind → m.V → m.V → m.V) where
    abbrev pub widened : Bool → m.V → m.V
    widened true a = m.cast a LlvmType.float
    widened false a = a

    -- The value of an expression, in the variables' slots: the operands of an operator are cast to float
    -- where one of them is a float.
    pub data Means (scopes : Scopes Value) : Expr → m.V → Type 0 where
      var :
          (v : Var) (slot : Value)
          → lookup_in v.name scopes ≡ some slot
          → Means scopes (Expr.var v) (m.load (llvm_type v.type) slot)
      boolean : (b : Bool) → Means scopes (Expr.boolean b) (m.of_bool b)
      integer_lit : (n : ℕ) → Means scopes (Expr.integer_lit n) (m.of_int n)
      float_lit : (x : ℕ) → Means scopes (Expr.float_lit x) (m.of_float x)
      arithmetic :
          {l r : Expr} {a b : m.V} (ty : TType) (op : OperatorKind) (f : Bool)
          → group_of op ≡ OperatorGroup.arithmetic_group
          → (is_float (type_of l) || is_float (type_of r)) ≡ f
          → is_sound op (type_of l) (type_of r) ≡ true
          → Means scopes l a
          → Means scopes r b
          → Means scopes (Expr.binary ty op l r) (operation f op (widened f a) (widened f b))
      relation :
          {l r : Expr} {a b : m.V} (ty : TType) (op : OperatorKind) (f : Bool)
          → group_of op ≡ OperatorGroup.relation_group
          → (is_float (type_of l) || is_float (type_of r)) ≡ f
          → is_comparable op (type_of l) (type_of r) ≡ true
          → Means scopes l a
          → Means scopes r b
          → Means scopes (Expr.binary ty op l r) (operation f op (widened f a) (widened f b))
      float_negation :
          {e : Expr} {a : m.V}
          → type_of e ≡ TType.float
          → Means scopes e a
          → Means scopes (Expr.unary OperatorKind.neg e) (m.unary UnaryOpcode.f_neg a)
      integer_negation :
          {e : Expr} {a : m.V}
          → type_of e ≡ TType.integer
          → Means scopes e a
          → Means scopes (Expr.unary OperatorKind.neg e) (m.unary UnaryOpcode.neg a)
      not_op :
          {e : Expr} {a : m.V}
          → is_bool (type_of e) ≡ true
          → Means scopes e a
          → Means scopes (Expr.unary OperatorKind.not_op e) (m.unary UnaryOpcode.not_op a)
      plus :
          {e : Expr} {a : m.V}
          → is_bool (type_of e) ≡ false
          → Means scopes e a
          → Means scopes (Expr.unary OperatorKind.pos e) a

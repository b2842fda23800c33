-- ===== src/Codegen/Expression/Meaning/Values.antt =====
-- What the values of the code so far stand for, and what it means that code computes a value.
use pudl.Prelude.{
  ◌<◌, ◌≡◌, refl, sym, ◌∙◌, subst, ◌==◌, ==_iff, List, ◌∷◌, length, Option, some, arith, Bool-cases,
  inl, inr,
}
use pudl.Ast.{Var}
use pudl.Codegen.Calls.{Call, Value, create_load}
use pudl.Codegen.ScopeStack.{lookup_in}
use pudl.Codegen.State.{Codegen, emit, push_operand, find_local, llvm_type}
use pudl.Codegen.Rules.{Unit0}
use pudl.Codegen.Expression.{visit_var, load_from}
use pudl.Codegen.Expression.Meaning.{Machine, outcome, returns, value_in}

-- A value that an earlier call returned, or one that no call returns.
abbrev pub IsKnown : List Call → Value → Type 0
IsKnown cs (Value.returned n) = n < length cs
IsKnown cs _ = Unit

module _ (m : Machine) where
  -- The values keep what they stand for.
  abbrev pub Keeps : List Call → List Call → Type 0
  Keeps cs ds = (x : Value) → IsKnown cs x → IsKnown ds x × (value_in m ds x ≡ value_in m cs x)

  pub Keeps-call : (c : Call) (cs : List Call) → Keeps cs (c ∷ cs)
  unfolding returns
  Keeps-call c cs (Value.returned n) h = elim (Bool-cases (length cs == n)) [
    | inl e ↦ absurd (omega (arith, h, (==_iff (length cs) n).0 e))
    | inr e ↦ (omega (arith, h), rw e refl)
  ]
  Keeps-call c cs (Value.constant_bool b) h = (tt, refl)
  Keeps-call c cs (Value.constant_int k) h = (tt, refl)
  Keeps-call c cs (Value.constant_float k) h = (tt, refl)
  Keeps-call c cs (Value.argument k i) h = (tt, refl)

  pub Keeps-trans : (cs ds es : List Call) → Keeps cs ds → Keeps ds es → Keeps cs es
  Keeps-trans cs ds es p q x h = let a = p x h in let b = q x a.0 in (b.0, b.1 ∙ a.1)

  pub latest :
      (c : Call) (cs : List Call)
      → value_in m (c ∷ cs) (Value.returned (length cs)) ≡ outcome m (value_in m cs) c
  unfolding returns
  latest c cs = rw ((==_iff (length cs) (length cs)).1 refl) refl

  abbrev pub with_code : List Call → List Value → Codegen → Codegen
  with_code cs vs s = record s { calls = cs; operands = vs }

  -- One operand more, which stands for `a`; the calls are the only other change.
  pub data Computes (s : Codegen) (a : m.V) : Option (Unit0 × Codegen) → Type 0 where
    computes :
        (cs : List Call) (x : Value)
        → Keeps s.calls cs
        → IsKnown cs x
        → value_in m cs x ≡ a
        → Computes s a (some (tt, record s { calls = cs; operands = x ∷ s.operands }))

  pub visit_var-Computes :
      (s : Codegen) (v : Var) (slot : Value)
      → lookup_in v.name s.scopes ≡ some slot
      → Computes s (m.load (llvm_type v.type) slot) (visit_var v s)
  unfolding visit_var find_local emit push_operand
  visit_var-Computes s v slot e =
      let c = create_load (llvm_type v.type) slot v.name in
      subst (λ o. Computes s (m.load (llvm_type v.type) slot) (load_from o v s)) (sym e)
        (computes (c ∷ s.calls) (Value.returned (length s.calls)) (Keeps-call c s.calls)
          (omega arith) (latest c s.calls))

  -- The instruction of a result, on operands that are known.
  pub create-Computes :
      {s : Codegen} {a : m.V} (cs : List Call) (c : Call)
      → Keeps s.calls cs
      → outcome m (value_in m cs) c ≡ a
      → Computes s a (
          some
            (tt, record s { calls = c ∷ cs; operands = Value.returned (length cs) ∷ s.operands }))
  create-Computes {s} cs c k e =
      computes (c ∷ cs) (Value.returned (length cs))
        (Keeps-trans s.calls cs (c ∷ cs) k (Keeps-call c cs)) (omega arith) (latest c cs ∙ e)

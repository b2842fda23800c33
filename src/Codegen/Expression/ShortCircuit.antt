-- ===== src/Codegen/Expression/ShortCircuit.antt =====
-- `bilogShortCircuit`: the blocks it creates are begun once, each behind a terminator.
use pudl.Prelude.{
  ℕ, suc, ◌≤◌, ◌<◌, ◌≡◌, refl, ap, ◌∙◌, Bool, true, false, List, ◌∷◌, codes, length, Option, none,
  arith,
}
use pudl.Ast.{OperatorKind}
use pudl.Codegen.Calls.{
  Call, LlvmType, Value, create_alloca, create_load, create_store, create_br, create_block,
  insert_into, set_insert_point, is_terminator, is_local,
}
use pudl.Codegen.State.{Codegen, G, emit}
use pudl.Codegen.Ensures.{TerminatorLaws, IsInside, Runs, Allowed, Fresh, Fresh-Step, after}
use pudl.Codegen.Rules.{
  Unit0, with_operands, Runs-value, Runs-if_success, Runs-pop, Runs-current_function,
}
use pudl.Codegen.Visits.{
  Kept, Operand, inner-IsInside, Runs-visit, Runs-instruction, Runs-terminator, Runs-attach,
  Runs-begin, new-Fresh, Fresh-local, Fresh-begin,
}
use pudl.Codegen.Expression.{right_side, short_circuit_branch, is_and, short_circuit}

module _ (terminated : List Call → Bool) (laws : TerminatorLaws terminated) where
  branch-Allowed :
      (b : Bool) (v : Value) (x y : ℕ) (cs : List Call)
      → terminated cs ≡ false
      → Allowed terminated (short_circuit_branch b v x y) cs
  branch-Allowed true v x y cs h = h
  branch-Allowed false v x y cs h = h

  branch-is_terminator :
      (b : Bool) (v : Value) (x y : ℕ) → is_terminator (short_circuit_branch b v x y) ≡ true
  branch-is_terminator true v x y = refl
  branch-is_terminator false v x y = refl

  branch-is_local :
      (b : Bool) (v : Value) (x y : ℕ) → is_local (short_circuit_branch b v x y) ≡ true
  branch-is_local true v x y = refl
  branch-is_local false v x y = refl

  module _ {rhs : G Unit0} (hr : Operand terminated rhs) where
    right_side-Runs :
        {k : ℕ} {s : Codegen} (func : Option ℕ) (slot : Value) (r m : ℕ)
        → IsInside terminated k s
        → k ≤ r
        → r < m
        → Fresh terminated r s
        → Fresh terminated m s
        → terminated s.calls ≡ true
        → Runs terminated k s (λ _ t. Kept terminated s t) (right_side func slot r m rhs s)
    unfolding emit
    right_side-Runs {k} {s} func slot r m i le lt fr fm done =
        Runs-begin laws r i le fr done λ i0 l0.
          let w = after (set_insert_point r) s in
          Runs-visit _ i0 (hr w (inner-IsInside i0) l0) λ _ t st st' p.
            Runs-if_success none _ st.inside (λ e c. absurd (cc))
              λ c.
                let q = p c in
                let f0 = Fresh-Step {s = w} m (Fresh-begin laws s m r fm lt) st' in
                let f1 = Fresh-local laws t m (create_store q.0 slot) f0 refl in
                let t1 = after (create_store q.0 slot) t in
                let f2 = Fresh-local laws t1 m (create_br m) f1 refl in
                let f3 = Fresh-local laws (after (create_br m) t1) m (insert_into m func) f2 refl in
                Runs-pop q.0 s.operands _ st.inside q.1 λ i1.
                  Runs-instruction laws (create_store q.0 slot) q.2 refl refl i1 q.2 λ i2 l2.
                    Runs-terminator laws (create_br m) l2 refl refl i2 λ i3 d3.
                      Runs-attach laws m func i3 d3 λ i4 d4.
                        Runs-begin laws m i4 (omega (arith, le, lt)) f3 d4 λ i5 l5.
                          Runs-instruction laws
                            (create_load LlvmType.int1 slot (codes "shortCircuitValue")) l5 refl
                            refl i5 l5 λ i6 l6. Runs-value _ i6 λ _. (refl, l6)

    pub short_circuit-Runs :
        {k : ℕ} {s : Codegen} (op : OperatorKind) {lhs : G Unit0}
        → Operand terminated lhs
        → IsInside terminated k s
        → terminated s.calls ≡ false
        → Runs terminated k s (λ _ t. Kept terminated s t) (short_circuit op lhs rhs s)
    unfolding short_circuit emit
    short_circuit-Runs {k} {s} op hl i live = Runs-current_function _ i λ func t st ops calls _.
        Runs-visit _ st.inside (hl t (inner-IsInside st.inside) (ap terminated calls ∙ live))
          λ _ u su _ p.
            Runs-if_success none _ su.inside (λ e c. absurd (cc))
              λ c.
                let q = p c in
                let v = q.0 in
                Runs-pop v s.operands _ su.inside (q.1 ∙ ap (λ os. v ∷ os) ops) λ i0.
                  let n = length u.calls in
                  let slot = Value.returned n in
                  let r : ℕ = suc (suc n) in
                  let m : ℕ = suc r in
                  let br = short_circuit_branch (is_and op) v r m in
                  Runs-instruction laws (create_alloca LlvmType.int1 (codes "shortCircuitResult"))
                    q.2 refl refl i0 q.2
                    λ i1 l1. Runs-instruction laws (create_store v slot) l1 refl refl i1 l1 λ i2 l2.
                      Runs-instruction laws (create_block (codes "ShortCircuitRhs") func) tt refl
                        refl i2 l2
                        λ i3 l3.
                          Runs-instruction laws (create_block (codes "ShortCircuitMerge") none) tt
                            refl refl i3 l3
                            λ i4 l4.
                              Runs-terminator laws br (branch-Allowed (is_and op) v r m _ l4)
                                (branch-is_terminator (is_and op) v r m)
                                (branch-is_local (is_and op) v r m) i4
                                λ i5 d5.
                                  let w0 = with_operands s.operands u in
                                  let w1 =
                                    after (create_alloca LlvmType.int1 (codes "shortCircuitResult"))
                                      w0 in
                                  let w2 = after (create_store v slot) w1 in
                                  let w3 = after (create_block (codes "ShortCircuitRhs") func) w2 in
                                  let w4 =
                                    after (create_block (codes "ShortCircuitMerge") none) w3 in
                                  let fr0 =
                                    new-Fresh laws {s = w2} (codes "ShortCircuitRhs") func i2 in
                                  let fr1 =
                                    Fresh-local laws w3 r
                                      (create_block (codes "ShortCircuitMerge") none) fr0 refl in
                                  let fm1 =
                                    new-Fresh laws {s = w3} (codes "ShortCircuitMerge") none i3 in
                                  right_side-Runs func slot r m i5 (omega (arith, i0.from))
                                    (omega arith)
                                    (Fresh-local laws w4 r br fr1
                                      (branch-is_local (is_and op) v r m))
                                    (Fresh-local laws w4 m br fm1
                                      (branch-is_local (is_and op) v r m))
                                    d5

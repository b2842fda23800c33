-- ===== src/Codegen/Statement/DoWhile.antt =====
-- The blocks of a `do` loop. A body that returned has no condition.
use pudl.Prelude.{
  ℕ, suc, ◌≤◌, ◌<◌, ◌≡◌, refl, ap, ◌∙◌, Bool, true, false, List, codes, length, Option, none, arith,
  Bool-cases, inl, inr,
}
use pudl.Codegen.Calls.{Call, create_br, create_cond_br, create_block, set_insert_point}
use pudl.Codegen.State.{Codegen, G, emit}
use pudl.Codegen.Ensures.{TerminatorLaws, IsInside, holds, Runs, Fresh, Fresh-Step, after}
use pudl.Codegen.Rules.{Unit0, with_operands, Runs-if_success, Runs-pop, Runs-current_function}
use pudl.Codegen.Visits.{
  Operand, Statement, inner-IsInside, Runs-visit, Runs-instruction, Runs-terminator, Runs-begin,
  new-Fresh, Fresh-local, Fresh-begin,
}
use pudl.Codegen.Statement.{
  begin_attached, test_again, test_unless_terminated, do_blocks, visit_do_while,
}
use pudl.Codegen.Statement.Blocks.{Begun, begin-Runs, Returned}

module _ (terminated : List Call → Bool) (laws : TerminatorLaws terminated) where
  weakened :
      {k : ℕ} {t : Codegen} (s : Codegen) (b : ℕ) {o : Option (Unit0 × Codegen)}
      → t.operands ≡ s.operands
      → Runs terminated k t (λ _ u. Begun terminated laws b t u) o
      → Runs terminated k t (λ _ u. Returned terminated laws s u) o
  weakened s b e (holds g) = holds (g.0, λ _. g.1.0 ∙ e)

  module _ {cond : G Unit0} (hc : Operand terminated cond) where
    test_again-Runs :
        {k : ℕ} {s : Codegen} (a b : ℕ) (func : Option ℕ)
        → IsInside terminated k s
        → terminated s.calls ≡ false
        → k ≤ b
        → Fresh terminated b s
        → Runs terminated k s (λ _ t. Returned terminated laws s t) (test_again cond a b func s)
    unfolding emit
    test_again-Runs {s = s} a b func i live le fresh =
        Runs-visit _ i (hc s (inner-IsInside i) live) λ _ t st st' p.
          Runs-if_success tt _ st.inside (λ e q. absurd (cc))
            λ q.
              let r = p q in
              let br = create_cond_br r.0 a b in
              let g = Fresh-Step {s = s} b fresh st' in
              Runs-pop r.0 s.operands _ st.inside r.1 λ i1.
                let t1 = with_operands s.operands t in
                Runs-terminator laws br r.2 refl refl i1 λ i2 d2.
                  weakened s b refl
                    (begin-Runs terminated laws b func i2 le (Fresh-local laws t1 b br g refl) d2)

    test-Runs :
        {k : ℕ} {s : Codegen} (a b : ℕ) (func : Option ℕ)
        → IsInside terminated k s
        → k ≤ b
        → Fresh terminated b s
        → Runs terminated k s
            (λ _ t. Returned terminated laws s t)
            (test_unless_terminated terminated (begin_attached b func) (test_again cond a b func) s)
    unfolding test_unless_terminated
    test-Runs {s = s} a b func i le fresh = elim (Bool-cases (terminated s.calls)) [
      | inl done ↦ rw done (weakened s b refl (begin-Runs terminated laws b func i le fresh done))
      | inr live ↦ rw live (test_again-Runs a b func i live le fresh)
    ]

    do_blocks-Runs :
        {k : ℕ} {s : Codegen} (func : Option ℕ) (a b : ℕ) {body : G Unit0}
        → Statement terminated body
        → IsInside terminated k s
        → k ≤ a
        → a < b
        → Fresh terminated a s
        → Fresh terminated b s
        → terminated s.calls ≡ true
        → Runs terminated k s
            (λ _ t. Returned terminated laws s t)
            (do_blocks terminated func a b body cond s)
    unfolding emit
    do_blocks-Runs {s = s} func a b hb i le ab fa fb done = Runs-begin laws a i le fa done λ i0 l0.
        let w = after (set_insert_point a) s in
        Runs-visit _ i0 (hb w (inner-IsInside i0) l0) λ _ t st st' p.
          Runs-if_success tt _ st.inside (λ e q. absurd (cc))
            λ q. rebase (p q) (
              test-Runs a b func st.inside (omega (arith, le, ab))
                (Fresh-Step {s = w} b (Fresh-begin laws s b a fb ab) st'))
      where
        rebase :
            {k : ℕ} {u : Codegen} {o : Option (Unit0 × Codegen)}
            → u.operands ≡ s.operands
            → Runs terminated k u (λ _ t. Returned terminated laws u t) o
            → Runs terminated k u (λ _ t. Returned terminated laws s t) o
        rebase e (holds h) = holds (h.0, λ c. h.1 c ∙ e)

    pub visit_do_while-Statement :
        {body : G Unit0}
        → Statement terminated body
        → Statement terminated (visit_do_while terminated body cond)
    unfolding visit_do_while emit
    visit_do_while-Statement hb s i live = Runs-current_function _ i λ func t st ops calls _.
        let a = length t.calls in
        let b : ℕ = suc a in
        let ca = create_block (codes "Loop") func in
        let cb = create_block (codes "After") none in
        let w1 = after ca t in
        let w2 = after cb w1 in
        Runs-instruction laws ca tt refl refl st.inside (ap terminated calls ∙ live) λ i1 l1.
          Runs-instruction laws cb tt refl refl i1 l1 λ i2 l2.
            Runs-terminator laws (create_br a) l2 refl refl i2 λ i3 d3.
              let fa = new-Fresh laws {s = t} (codes "Loop") func st.inside in
              let fb = new-Fresh laws {s = w1} (codes "After") none i1 in
              rebase ops (
                do_blocks-Runs func a b hb i3 (omega (arith, st.inside.from)) (omega arith)
                  (Fresh-local laws w2 a (create_br a) (Fresh-local laws w1 a cb fa refl) refl)
                  (Fresh-local laws w2 b (create_br a) fb refl) d3)
      where
        rebase :
            {k : ℕ} {u : Codegen} {o : Option (Unit0 × Codegen)}
            → u.operands ≡ s.operands
            → Runs terminated k u (λ _ t. Returned terminated laws u t) o
            → Runs terminated k u (λ _ t. Returned terminated laws s t) o
        rebase e (holds h) = holds (h.0, λ c. h.1 c ∙ e)

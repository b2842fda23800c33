-- ===== src/Codegen/Statement/Blocks.antt =====
-- The blocks of `if`, `while` and `do` statements are begun once, each behind a terminator.
use pudl.Prelude.{
  ℕ, suc, ◌≤◌, ◌<◌, ◌≡◌, refl, ap, ◌∙◌, Bool, true, false, List, ◌∷◌, codes, length, Option, none,
  some, arith, Bool-cases, inl, inr,
}
use pudl.Codegen.Calls.{
  Call, Value, create_br, create_cond_br, create_block, insert_into, set_insert_point,
}
use pudl.Codegen.State.{Codegen, G, emit}
use pudl.Codegen.Ensures.{
  TerminatorLaws, IsInside, holds, Runs, Runs-bind, Fresh, Fresh-Step, after,
}
use pudl.Codegen.Rules.{
  Unit0, with_operands, Runs-value, Runs-if_success, Runs-pop, Runs-current_function,
}
use pudl.Codegen.Visits.{
  Operand, Statement, inner-IsInside, Runs-visit, Runs-instruction, Runs-terminator, Runs-attach,
  Runs-begin, new-Fresh, Fresh-local, Fresh-begin,
}
use pudl.Codegen.Statement.{
  unless_terminated, begin_attached, leave, visit_optional, branches, visit_if, loop_blocks,
  visit_while,
}

module _ (terminated : List Call → Bool) (laws : TerminatorLaws terminated) where
  -- The next block is begun: the operands stay, and the blocks that were created later are not begun.
  abbrev pub Begun : ℕ → Codegen → Codegen → Type 0
  Begun bb s t =
      (t.operands ≡ s.operands)
      × (terminated t.calls ≡ false)
      × ((d : ℕ) → bb < d → Fresh terminated d s → Fresh terminated d t)

  pub begin-Runs :
      {k : ℕ} {s : Codegen} (bb : ℕ) (func : Option ℕ)
      → IsInside terminated k s
      → k ≤ bb
      → Fresh terminated bb s
      → terminated s.calls ≡ true
      → Runs terminated k s (λ _ t. Begun bb s t) (begin_attached bb func s)
  unfolding emit
  begin-Runs {s = s} bb func i le fresh done = Runs-attach laws bb func i done λ i1 d1.
      Runs-begin laws bb i1 le (Fresh-local laws s bb (insert_into bb func) fresh refl) d1 λ i2 l2.
        Runs-value tt i2 (
          refl,
          l2,
          λ d lt f.
              Fresh-begin laws (after (insert_into bb func) s) d bb
                (Fresh-local laws s d (insert_into bb func) f refl) lt,
        )

  leave-Runs :
      {k : ℕ} {s : Codegen} (target bb : ℕ) (func : Option ℕ)
      → IsInside terminated k s
      → k ≤ bb
      → Fresh terminated bb s
      → Runs terminated k s (λ _ t. Begun bb s t) (leave terminated target bb func s)
  unfolding unless_terminated emit
  leave-Runs {s = s} target bb func i le fresh = elim (Bool-cases (terminated s.calls)) [
    | inl done ↦ rw done (begin-Runs bb func i le fresh done)
    | inr live ↦ rw live (
        Runs-terminator laws (create_br target) live refl refl i λ i1 d1.
          keep (begin-Runs bb func i1 le (Fresh-local laws s bb (create_br target) fresh refl) d1))
  ]
    where
      keep :
          {k : ℕ} {o : Option (Unit0 × Codegen)}
          → Runs terminated k
              (after (create_br target) s)
              (λ _ t. Begun bb (after (create_br target) s) t)
              o
          → Runs terminated k (after (create_br target) s) (λ _ t. Begun bb s t) o
      keep (holds h) = holds (
        h.0,
        (h.1.0, h.1.1, λ d lt f. h.1.2 d lt (Fresh-local laws s d (create_br target) f refl)),
      )

  -- The end of a statement.
  abbrev pub Returned : Codegen → Codegen → Type 0
  Returned s t = t.is_success ≡ true → t.operands ≡ s.operands

  optional-Runs :
      {k : ℕ} {s : Codegen} (vs : List Value) (m : Option (G Unit0)) (merge : ℕ) (func : Option ℕ)
      → ((x : G Unit0) → m ≡ some x → Statement terminated x)
      → IsInside terminated k s
      → s.operands ≡ vs
      → terminated s.calls ≡ false
      → k ≤ merge
      → Fresh terminated merge s
      → Runs terminated k s
          (λ _ t. t.is_success ≡ true → t.operands ≡ vs)
          (visit_optional m (leave terminated merge merge func) s)
  optional-Runs {k} {s} vs none merge func h i ops live le fresh =
      finish (leave-Runs merge merge func i le fresh)
    where
      finish :
          {o : Option (Unit0 × Codegen)}
          → Runs terminated k s (λ _ t. Begun merge s t) o
          → Runs terminated k s (λ _ t. t.is_success ≡ true → t.operands ≡ vs) o
      finish (holds g) = holds (g.0, λ _. g.1.0 ∙ ops)
  optional-Runs {k} {s} vs (some m) merge func h i ops live le fresh =
      Runs-visit _ i (h m refl s (inner-IsInside i) live) λ _ t st st' p.
        Runs-if_success tt _ st.inside (λ e c. absurd (cc))
          λ c.
            finish (p c)
              (leave-Runs merge merge func st.inside le (Fresh-Step {s = s} merge fresh st'))
    where
      finish :
          {t : Codegen} {o : Option (Unit0 × Codegen)}
          → t.operands ≡ s.operands
          → Runs terminated k t (λ _ u. Begun merge t u) o
          → Runs terminated k t (λ _ u. u.is_success ≡ true → u.operands ≡ vs) o
      finish e (holds g) = holds (g.0, λ _. g.1.0 ∙ e ∙ ops)

  branches-Runs :
      {k : ℕ} {s : Codegen} (func : Option ℕ) (a b c : ℕ) {x : G Unit0} (y : Option (G Unit0))
      → Statement terminated x
      → ((z : G Unit0) → y ≡ some z → Statement terminated z)
      → IsInside terminated k s
      → k ≤ a
      → a < b
      → b < c
      → Fresh terminated a s
      → Fresh terminated b s
      → Fresh terminated c s
      → terminated s.calls ≡ true
      → Runs terminated k s (λ _ t. Returned s t) (branches terminated func a b c x y s)
  unfolding emit
  branches-Runs {s = s} func a b c y hx hy i le ab bc fa fb fc done =
      Runs-begin laws a i le fa done λ i0 l0.
        let w = after (set_insert_point a) s in
        Runs-visit _ i0 (hx w (inner-IsInside i0) l0) λ _ t st st' p.
          Runs-if_success tt _ st.inside (λ e q. absurd (cc))
            λ q.
              let gb = Fresh-Step {s = w} b (Fresh-begin laws s b a fb ab) st' in
              let gc =
                Fresh-Step {s = w} c (Fresh-begin laws s c a fc (omega (arith, ab, bc))) st' in
              Runs-bind _ (leave-Runs c b func st.inside (omega (arith, le, ab)) gb) λ _ u su r.
                optional-Runs s.operands y c func hy su.inside (r.0 ∙ p q) r.1
                  (omega (arith, le, ab, bc)) (r.2 c bc gc)

  pub visit_if-Statement :
      {cond x : G Unit0} (y : Option (G Unit0))
      → Operand terminated cond
      → Statement terminated x
      → ((z : G Unit0) → y ≡ some z → Statement terminated z)
      → Statement terminated (visit_if terminated cond x y)
  unfolding visit_if emit
  visit_if-Statement y hc hx hy s i live = Runs-current_function _ i λ func t st ops calls _.
      Runs-visit _ st.inside (hc t (inner-IsInside st.inside) (ap terminated calls ∙ live))
        λ _ u su _ p.
          Runs-if_success tt _ su.inside (λ e c. absurd (cc))
            λ c.
              let q = p c in
              Runs-pop q.0 s.operands _ su.inside (q.1 ∙ ap (λ os. q.0 ∷ os) ops) λ i0.
                let w0 = with_operands s.operands u in
                let a = length u.calls in
                let b : ℕ = suc a in
                let d : ℕ = suc b in
                let ca = create_block (codes "Then") func in
                let cb = create_block (codes "Else") none in
                let cd = create_block (codes "Merge") none in
                let br = create_cond_br q.0 a b in
                let w1 = after ca w0 in
                let w2 = after cb w1 in
                let w3 = after cd w2 in
                Runs-instruction laws ca tt refl refl i0 q.2 λ i1 l1.
                  Runs-instruction laws cb tt refl refl i1 l1 λ i2 l2.
                    Runs-instruction laws cd tt refl refl i2 l2 λ i3 l3.
                      Runs-terminator laws br l3 refl refl i3 λ i4 d4.
                        let fa = new-Fresh laws {s = w0} (codes "Then") func i0 in
                        let fa2 =
                          Fresh-local laws w2 a cd (Fresh-local laws w1 a cb fa refl) refl in
                        let fb = new-Fresh laws {s = w1} (codes "Else") none i1 in
                        let fb2 = Fresh-local laws w2 b cd fb refl in
                        let fd = new-Fresh laws {s = w2} (codes "Merge") none i2 in
                        branches-Runs func a b d y hx hy i4 (omega (arith, i0.from)) (omega arith)
                          (omega arith) (Fresh-local laws w3 a br fa2 refl)
                          (Fresh-local laws w3 b br fb2 refl) (Fresh-local laws w3 d br fd refl) d4

  loop_blocks-Runs :
      {k : ℕ} {s : Codegen} (func : Option ℕ) (a b c : ℕ) {cond body : G Unit0}
      → Operand terminated cond
      → Statement terminated body
      → IsInside terminated k s
      → k ≤ a
      → a < b
      → b < c
      → Fresh terminated a s
      → Fresh terminated b s
      → Fresh terminated c s
      → terminated s.calls ≡ true
      → Runs terminated k s (λ _ t. Returned s t) (loop_blocks terminated func a b c cond body s)
  unfolding emit
  loop_blocks-Runs {k} {s} func a b c hc hb i le ab bc fa fb fc done =
      Runs-begin laws a i le fa done λ i0 l0.
        let w = after (set_insert_point a) s in
        Runs-visit _ i0 (hc w (inner-IsInside i0) l0) λ _ t st st' p.
          Runs-if_success tt _ st.inside (λ e q. absurd (cc))
            λ q.
              let r = p q in
              let br = create_cond_br r.0 b c in
              let gb = Fresh-Step {s = w} b (Fresh-begin laws s b a fb ab) st' in
              let gc =
                Fresh-Step {s = w} c (Fresh-begin laws s c a fc (omega (arith, ab, bc))) st' in
              Runs-pop r.0 s.operands _ st.inside r.1 λ i1.
                let t1 = with_operands s.operands t in
                Runs-terminator laws br r.2 refl refl i1 λ i2 d2.
                  Runs-begin laws b i2 (omega (arith, le, ab)) (Fresh-local laws t1 b br gb refl) d2
                    λ i3 l3.
                      let w3 = after (set_insert_point b) (after br t1) in
                      Runs-visit _ i3 (hb w3 (inner-IsInside i3) l3) λ _ u su su' p'.
                        Runs-if_success tt _ su.inside (λ e q. absurd (cc))
                          λ q'.
                            let hc' =
                              Fresh-begin laws (after br t1) c b (Fresh-local laws t1 c br gc refl)
                                bc in
                            finish (p' q') (
                              leave-Runs a c func su.inside (omega (arith, le, ab, bc))
                                (Fresh-Step {s = w3} c hc' su'))
    where
      finish :
          {u : Codegen} {o : Option (Unit0 × Codegen)}
          → u.operands ≡ s.operands
          → Runs terminated k u (λ _ v. Begun c u v) o
          → Runs terminated k u (λ _ v. Returned s v) o
      finish e (holds g) = holds (g.0, λ _. g.1.0 ∙ e)

  pub visit_while-Statement :
      {cond body : G Unit0}
      → Operand terminated cond
      → Statement terminated body
      → Statement terminated (visit_while terminated cond body)
  unfolding visit_while emit
  visit_while-Statement hc hb s i live = Runs-current_function _ i λ func t st ops calls _.
      let a = length t.calls in
      let b : ℕ = suc a in
      let d : ℕ = suc b in
      let ca = create_block (codes "Loop") func in
      let cb = create_block (codes "Then") func in
      let cd = create_block (codes "After") none in
      let w1 = after ca t in
      let w2 = after cb w1 in
      let w3 = after cd w2 in
      Runs-instruction laws ca tt refl refl st.inside (ap terminated calls ∙ live) λ i1 l1.
        Runs-instruction laws cb tt refl refl i1 l1 λ i2 l2.
          Runs-instruction laws cd tt refl refl i2 l2 λ i3 l3.
            Runs-terminator laws (create_br a) l3 refl refl i3 λ i4 d4.
              let fa = new-Fresh laws {s = t} (codes "Loop") func st.inside in
              let fa2 = Fresh-local laws w2 a cd (Fresh-local laws w1 a cb fa refl) refl in
              let fb = new-Fresh laws {s = w1} (codes "Then") func i1 in
              let fb2 = Fresh-local laws w2 b cd fb refl in
              let fd = new-Fresh laws {s = w2} (codes "After") none i2 in
              rebase ops (
                loop_blocks-Runs func a b d hc hb i4 (omega (arith, st.inside.from)) (omega arith)
                  (omega arith) (Fresh-local laws w3 a (create_br a) fa2 refl)
                  (Fresh-local laws w3 b (create_br a) fb2 refl)
                  (Fresh-local laws w3 d (create_br a) fd refl) d4)
    where
      rebase :
          {k : ℕ} {u : Codegen} {o : Option (Unit0 × Codegen)}
          → u.operands ≡ s.operands
          → Runs terminated k u (λ _ t. Returned u t) o
          → Runs terminated k u (λ _ t. Returned s t) o
      rebase e (holds h) = holds (h.0, λ c. h.1 c ∙ e)

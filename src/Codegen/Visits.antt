-- ===== src/Codegen/Visits.antt =====
-- Visitors inside visitors, and rules for the calls of the builder.
use pudl.Prelude.{
  ℕ, ◌≤◌, ◌<◌, ◌≡◌, ◌⊎◌, refl, ◌∙◌, Bool, true, false, List, ◌∷◌, Bytes, length, Option,
  if◌then◌else◌, Bool-cases, inl, inr, arith,
}
use pudl.Codegen.Calls.{
  Call, Value, insert_into, is_terminator, is_local, entered, set_insert_point, create_block,
}
use pudl.Codegen.State.{Codegen, G, bind}
use pudl.Codegen.Ensures.{
  enter-Step, after-Step, Allowed, TerminatorLaws, holds, IsInside, Step, Step-lower, Runs,
  Runs-from, Fresh, after, entered-local,
}
use pudl.Codegen.Rules.{Unit0}

module _ (terminated : List Call → Bool) where
  -- Without an error there is one operand more, and the block is still open.
  abbrev pub Pushed : Codegen → Codegen → Type 0
  Pushed s t =
      t.is_success ≡ true
      → (v : Value) × (t.operands ≡ v ∷ s.operands) × (terminated t.calls ≡ false)

  -- Without an error the operands are those of before, and the block is still open.
  abbrev pub Kept : Codegen → Codegen → Type 0
  Kept s t = t.is_success ≡ true → (t.operands ≡ s.operands) × (terminated t.calls ≡ false)

  -- The visitor of an expression, and that of a statement.
  abbrev pub Operand : G Unit0 → Type 0
  Operand m =
      (s : Codegen)
      → IsInside terminated (length s.calls) s
      → terminated s.calls ≡ false
      → Runs terminated (length s.calls) s (λ _ t. Pushed s t) (m s)

  abbrev pub Statement : G Unit0 → Type 0
  Statement m =
      (s : Codegen)
      → IsInside terminated (length s.calls) s
      → terminated s.calls ≡ false
      → Runs terminated (length s.calls) s (λ _ t. t.is_success ≡ true → t.operands ≡ s.operands)
          (m s)

module _ {terminated : List Call → Bool} where
  pub inner-IsInside :
      {k : ℕ} {s : Codegen} → IsInside terminated k s → IsInside terminated (length s.calls) s
  inner-IsInside i = record {
    sound = i.sound;
    defined = i.defined;
    scoped = i.scoped;
    from = omega arith;
  }

  -- A visitor that is called by another one.
  pub Runs-visit :
      {A B : Type 0} {k : ℕ} {s : Codegen} {P : A → Codegen → Type 0} {Q : B → Codegen → Type 0}
      {o : Option (A × Codegen)} (f : A → G B)
      → IsInside terminated k s
      → Runs terminated (length s.calls) s P o
      → ((a : A) (t : Codegen)
          → Step terminated k s t
          → Step terminated (length s.calls) s t
          → P a t
          → Runs terminated k t Q (f a t))
      → Runs terminated k s Q (bind o f)
  Runs-visit {k = k} f i (holds {a} {s = t} h) rest =
      let st = Step-lower i.from h.0 in Runs-from st (rest a t st h.0 h.1)

  pub Runs-branch :
      {A : Type 0} {k : ℕ} {s : Codegen} {P : A → Codegen → Type 0} (b : Bool) (m n : G A)
      → (b ≡ true → Runs terminated k s P (m s))
      → (b ≡ false → Runs terminated k s P (n s))
      → Runs terminated k s P ((if b then m else n) s)
  Runs-branch true m n hm hn = hm refl
  Runs-branch false m n hm hn = hn refl

module _ {terminated : List Call → Bool} (laws : TerminatorLaws terminated) where
  module _ {A : Type 0} {k : ℕ} {s : Codegen} {Q : A → Codegen → Type 0}
      {o : Option (A × Codegen)} where
    -- An instruction that is no terminator, or a call that inserts nothing.
    pub Runs-instruction :
        (c : Call)
        → Allowed terminated c s.calls
        → is_terminator c ≡ false
        → is_local c ≡ true
        → IsInside terminated k s
        → terminated s.calls ≡ false
        → (IsInside terminated k (after c s)
            → terminated (c ∷ s.calls) ≡ false
            → Runs terminated k (after c s) Q o)
        → Runs terminated k s Q o
    Runs-instruction c allowed n l i live rest =
        let st = after-Step c i allowed l in
        Runs-from st (rest st.inside (laws.stays c s.calls n l ∙ live))

    -- A terminator.
    pub Runs-terminator :
        (c : Call)
        → Allowed terminated c s.calls
        → is_terminator c ≡ true
        → is_local c ≡ true
        → IsInside terminated k s
        → (IsInside terminated k (after c s)
            → terminated (c ∷ s.calls) ≡ true
            → Runs terminated k (after c s) Q o)
        → Runs terminated k s Q o
    Runs-terminator c allowed y l i rest =
        let st = after-Step c i allowed l in Runs-from st (rest st.inside (laws.ends c s.calls y))

    -- A detached block is attached to the function, behind a terminator.
    pub Runs-attach :
        (b : ℕ) (func : Option ℕ)
        → IsInside terminated k s
        → terminated s.calls ≡ true
        → (IsInside terminated k (after (insert_into b func) s)
            → terminated (insert_into b func ∷ s.calls) ≡ true
            → Runs terminated k (after (insert_into b func) s) Q o)
        → Runs terminated k s Q o
    Runs-attach b func i done rest =
        let st = after-Step (insert_into b func) i tt refl in
        Runs-from st (rest st.inside (laws.stays (insert_into b func) s.calls refl refl ∙ done))

    -- A new block is begun.
    pub Runs-begin :
        (b : ℕ)
        → IsInside terminated k s
        → k ≤ b
        → Fresh terminated b s
        → terminated s.calls ≡ true
        → (IsInside terminated k (after (set_insert_point b) s)
            → terminated (set_insert_point b ∷ s.calls) ≡ false
            → Runs terminated k (after (set_insert_point b) s) Q o)
        → Runs terminated k s Q o
    Runs-begin b i le fresh done rest =
        let st = enter-Step b i le fresh done in
        Runs-from st (rest st.inside (laws.fresh b s.calls fresh.1))

  -- The block that is created by the next call.
  pub new-Fresh :
      {k : ℕ} {s : Codegen} (name : Bytes) (func : Option ℕ)
      → IsInside terminated k s
      → Fresh terminated (length s.calls) (after (create_block name func) s)
  new-Fresh {s} name func i = (
    omega arith,
    entered-local (length s.calls) (create_block name func) s.calls refl
        ∙ not_entered (Bool-cases (entered (length s.calls) s.calls)),
  )
    where
      not_entered :
          (entered (length s.calls) s.calls ≡ true) ⊎ (entered (length s.calls) s.calls ≡ false)
          → entered (length s.calls) s.calls ≡ false
      not_entered (inl e) = absurd (omega (arith, i.sound.known (length s.calls) e))
      not_entered (inr e) = e

  pub Fresh-local :
      (s : Codegen) (b : ℕ) (c : Call)
      → Fresh terminated b s
      → is_local c ≡ true
      → Fresh terminated b (after c s)
  Fresh-local s b c f l = (omega (arith, f.0), entered-local b c s.calls l ∙ f.1)

  -- Another block is begun.
  pub Fresh-begin :
      (s : Codegen) (b d : ℕ)
      → Fresh terminated b s
      → d < b
      → Fresh terminated b (after (set_insert_point d) s)
  unfolding entered
  Fresh-begin s b d f lt = (omega (arith, f.0), ground (arith, f.1, lt))

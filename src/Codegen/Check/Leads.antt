-- ===== src/Codegen/Check/Leads.antt =====
-- Rules for what a visitor leads to, if it comes to an end and LLVM accepts its calls.
use pudl.Prelude.{
  ◌≡◌, refl, sym, ap, ◌∙◌, subst, Bool, true, false, List, [], ◌∷◌, Option, none, some,
  if◌then◌else◌, Bool-cases, inl, inr, arith, if_intro,
}
use pudl.Codegen.Calls.{Call, Value, is_terminator, is_local}
use pudl.Codegen.State.{
  Codegen, G, bind, ◌>>=◌, if_success, top_of, without_top, top_operand, drop_operand, pop_operand,
  pure,
}
use pudl.Codegen.Ensures.{TerminatorLaws, Legal}
use pudl.Codegen.Rules.{Unit0, with_operands}

-- The later list has the calls of the earlier one, and more in front.
pub data Grown : List Call → List Call → Type 0 where
  same : {cs : List Call} → Grown cs cs
  more : {cs ds : List Call} (c : Call) → Grown cs ds → Grown cs (c ∷ ds)

pub Grown-trans : {cs ds es : List Call} → Grown cs ds → Grown ds es → Grown cs es
Grown-trans g same = g
Grown-trans g (more c h) = more c (Grown-trans g h)

-- Whether the block at the insertion point has its terminator; nothing where no function is generated.
unfoldable pub ended : List Call → Option Bool
ended [] = none
ended (Call.set_insert_point b ∷ cs) = some false
ended (Call.run_passes f ∷ cs) = none
ended (Call.create_function n a t ∷ cs) = none
ended (c ∷ cs) = let earlier = ended cs in if is_terminator c then some true else earlier

module _ (terminated : List Call → Bool) where
  pub Legal-Grown : {cs ds : List Call} → Grown cs ds → Legal terminated ds → Legal terminated cs
  Legal-Grown same l = l
  Legal-Grown (more c g) l = Legal-Grown g l.1

  terminated-local :
      (laws : TerminatorLaws terminated) (c : Call) (cs : List Call) (b : Bool)
      → is_local c ≡ true
      → (ended cs ≡ some b → terminated cs ≡ b)
      → (if is_terminator c then some true else ended cs) ≡ some b
      → terminated (c ∷ cs) ≡ b
  terminated-local laws c cs b l ih h = elim (Bool-cases (is_terminator c)) [
    | inl e ↦ let q : true ≡ b = ground (arith, h, e) in laws.ends c cs e ∙ q
    | inr e ↦ laws.stays c cs e l ∙ ih (ground (arith, h, e))
  ]

  -- LLVM's test answers as `ended` does, while a function is generated.
  pub terminated-ended :
      TerminatorLaws terminated
      → (cs : List Call) (b : Bool) → Legal terminated cs
      → ended cs ≡ some b
      → terminated cs ≡ b
  unfolding ended
  terminated-ended laws [] b l h = absurd (cc)
  terminated-ended laws (Call.set_insert_point d ∷ cs) b l h =
      let q : false ≡ b = ground (arith, h) in laws.fresh d cs l.0 ∙ q
  terminated-ended laws (Call.run_passes f ∷ cs) b l h = absurd (cc)
  terminated-ended laws (Call.create_function n a t ∷ cs) b l h = absurd (cc)
  terminated-ended laws (Call.create_br d ∷ cs) b l h =
      terminated-local laws _ cs b refl (terminated-ended laws cs b l.1) h
  terminated-ended laws (c ∷ cs) b l h =
      terminated-local laws c cs b refl (terminated-ended laws cs b l.1) h

  -- If the visitor ends, and LLVM accepts the calls so far.
  pub data Leads {A : Type 0} (s : Codegen) (P : A → Codegen → Type 0)
      : Option (A × Codegen) → Type 0 where
    crashes : Leads s P none
    arrives :
        {a : A} {t : Codegen}
        → Grown s.calls t.calls
        → (Legal terminated t.calls → P a t)
        → Leads s P (some (a, t))

module _ {terminated : List Call → Bool} where
  pub Leads-from :
      {A : Type 0} {P : A → Codegen → Type 0} {s t : Codegen} {o : Option (A × Codegen)}
      → Grown s.calls t.calls
      → Leads terminated t P o
      → Leads terminated s P o
  Leads-from g crashes = crashes
  Leads-from g (arrives h p) = arrives (Grown-trans g h) p

  pub Leads-weaken :
      {A : Type 0} {P Q : A → Codegen → Type 0} {s : Codegen} {o : Option (A × Codegen)}
      → ((a : A) (t : Codegen) → Grown s.calls t.calls → Legal terminated t.calls → P a t → Q a t)
      → Leads terminated s P o
      → Leads terminated s Q o
  Leads-weaken f crashes = crashes
  Leads-weaken f (arrives {a} {t} g p) = arrives g (λ l. f a t g l (p l))

  -- A call of the builder.
  pub Leads-call :
      {A : Type 0} {P : A → Codegen → Type 0} {s : Codegen} (c : Call) {o : Option (A × Codegen)}
      → Leads terminated (record s { calls = c ∷ s.calls }) P o
      → Leads terminated s P o
  Leads-call c h = Leads-from (more c same) h

  module _ {A B : Type 0} {s : Codegen} {P : A → Codegen → Type 0} {Q : B → Codegen → Type 0} where
    -- What is known of the first part may use that LLVM accepted the calls up to there.
    pub Leads-bind :
        {o : Option (A × Codegen)} (f : A → G B)
        → Leads terminated s P o
        → ((a : A) (t : Codegen)
            → Grown s.calls t.calls
            → (Legal terminated t.calls → P a t)
            → Leads terminated t Q (f a t))
        → Leads terminated s Q (bind o f)
    Leads-bind f crashes rest = crashes
    Leads-bind f (arrives {a} {t} g p) rest = Leads-from g (rest a t g p)

  pub Leads-value :
      {A : Type 0} {P : A → Codegen → Type 0} {s : Codegen} (a : A)
      → (Legal terminated s.calls → P a s)
      → Leads terminated s P (some (a, s))
  Leads-value a p = arrives same p

  pub Leads-branch :
      {A : Type 0} {s : Codegen} {P : A → Codegen → Type 0} (b : Bool) (m n : G A)
      → (b ≡ true → Leads terminated s P (m s))
      → (b ≡ false → Leads terminated s P (n s))
      → Leads terminated s P ((if b then m else n) s)
  Leads-branch true m n hm hn = hm refl
  Leads-branch false m n hm hn = hn refl

  pub Leads-if_success :
      {A : Type 0} {s : Codegen} {P : A → Codegen → Type 0} (a : A) (m : G A)
      → (s.is_success ≡ false → Legal terminated s.calls → P a s)
      → (s.is_success ≡ true → Leads terminated s P (m s))
      → Leads terminated s P (if_success a m s)
  unfolding if_success
  Leads-if_success {s = s} {P} a m failed go =
      if_intro (Leads terminated s P) s.is_success go (λ e. Leads-value a (failed e))

  module _ {B : Type 0} {s : Codegen} {Q : B → Codegen → Type 0} where
    known :
        {A : Type 0} {o p : Option (A × Codegen)} (f : A → G B)
        → o ≡ p
        → Leads terminated s Q (bind p f)
        → Leads terminated s Q (bind o f)
    known f e h = subst (λ o. Leads terminated s Q (bind o f)) (sym e) h

    pub Leads-pop :
        (f : Value → G B)
        → ((v : Value) (vs : List Value)
            → Leads terminated (with_operands vs s) Q (f v (with_operands vs s)))
        → Leads terminated s Q (bind (pop_operand s) f)
    unfolding top_operand drop_operand
    Leads-pop f rest = by_operands s.operands refl
      where
        by_operands :
            (os : List Value) → s.operands ≡ os → Leads terminated s Q (bind (pop_operand s) f)
        by_operands [] e =
            known f (ap (λ os. bind (top_of os s) (λ v'. drop_operand >>= λ _. pure v')) e) crashes
        by_operands (v ∷ vs) e =
            known f
              (ap (λ os. bind (top_of os s) (λ v'. drop_operand >>= λ _. pure v')) e
                ∙ ap (λ os. bind (without_top os s) (λ _. pure v)) e)
              (Leads-from same (rest v vs))

    pub Leads-top :
        (f : Value → G B)
        → ((v : Value) → Leads terminated s Q (f v s))
        → Leads terminated s Q (bind (top_operand s) f)
    unfolding top_operand
    Leads-top f rest = by_operands s.operands refl
      where
        by_operands :
            (os : List Value) → s.operands ≡ os → Leads terminated s Q (bind (top_operand s) f)
        by_operands [] e = known f (ap (λ os. top_of os s) e) crashes
        by_operands (v ∷ vs) e = known f (ap (λ os. top_of os s) e) (rest v)

    pub Leads-drop :
        (f : Unit0 → G B)
        → ((vs : List Value) → Leads terminated (with_operands vs s) Q (f tt (with_operands vs s)))
        → Leads terminated s Q (bind (drop_operand s) f)
    unfolding drop_operand
    Leads-drop f rest = by_operands s.operands refl
      where
        by_operands :
            (os : List Value) → s.operands ≡ os → Leads terminated s Q (bind (drop_operand s) f)
        by_operands [] e = known f (ap (λ os. without_top os s) e) crashes
        by_operands (v ∷ vs) e = known f (ap (λ os. without_top os s) e) (Leads-from same (rest vs))

  pub Leads-dropped :
      {s : Codegen} {P : Unit0 → Codegen → Type 0}
      → ((vs : List Value) → Legal terminated s.calls → P tt (with_operands vs s))
      → Leads terminated s P (drop_operand s)
  unfolding drop_operand
  Leads-dropped {s} {P} h = by_operands s.operands
    where
      by_operands : (os : List Value) → Leads terminated s P (without_top os s)
      by_operands [] = crashes
      by_operands (v ∷ vs) = arrives same (h vs)

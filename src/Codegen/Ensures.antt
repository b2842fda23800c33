-- ===== src/Codegen/Ensures.antt =====
-- What the visitors keep: the calls so far are in an order that LLVM accepts. With rules for the
-- operations of `State` that the proofs on the visitors share.
use pudl.Prelude.{
  ℕ, ◌≤◌, ◌<◌, ◌≡◌, refl, sym, ap, ◌∙◌, subst, ◌==◌, ==_iff, ◌||◌, Bool, true, false, List, [], ◌∷◌,
  Bytes, length, Option, none, some, Bool-cases, inl, inr, arith,
}
use pudl.Prelude.Map.{Map, lookup}
use pudl.Ast.{FunctionDef}
use pudl.Codegen.Calls.{Call, Value, is_terminator, is_local, enters, entered, set_insert_point}
use pudl.Codegen.ScopeStack.{Scopes}
use pudl.Codegen.State.{Codegen, G, bind}

-- What LLVM documents of `getTerminator` of the block at the insertion point: it is there behind a
-- terminator, other calls change nothing, and a block that was never written to has none.
pub record TerminatorLaws (terminated : List Call → Bool) : Type 0 where
  pub ends : (c : Call) (cs : List Call) → is_terminator c ≡ true → terminated (c ∷ cs) ≡ true
  pub stays :
      (c : Call) (cs : List Call)
      → is_terminator c ≡ false
      → is_local c ≡ true
      → terminated (c ∷ cs) ≡ terminated cs
  pub fresh :
      (b : ℕ) (cs : List Call) → entered b cs ≡ false → terminated (set_insert_point b ∷ cs) ≡ false

-- The function that is being generated: the one that was created last, until its passes run.
unfoldable pub running : List Call → Option ℕ
running [] = none
running (Call.create_function n a t ∷ cs) = some (length cs)
running (Call.run_passes f ∷ cs) = none
running (_ ∷ cs) = running cs

-- No block of the function was begun.
unfoldable pub at_entry : List Call → Bool
at_entry [] = false
at_entry (Call.create_function n a t ∷ cs) = true
at_entry (Call.run_passes f ∷ cs) = false
at_entry (Call.set_insert_point b ∷ cs) = false
at_entry (_ ∷ cs) = at_entry cs

-- The outermost scope is kept apart from the others.
unfoldable pub outer_scopes : Scopes Value → Scopes Value
outer_scopes [] = []
outer_scopes (m ∷ s) = s

abbrev pub HasScope : Scopes Value → Type 0
HasScope s = (m : Map Value) × (rest : Scopes Value) × (s ≡ m ∷ rest)

abbrev pub Paired : Map (Option ℕ) → Map (Option FunctionDef) → Type 0
Paired funcs asts =
    (name : Bytes) (f : ℕ)
    → lookup name funcs ≡ some (some f)
    → (d : FunctionDef) × (lookup name asts ≡ some (some d))

-- The outcome is defined.
pub data Ensures {A : Type 0} (P : A → Codegen → Type 0) : Option (A × Codegen) → Type 0 where
  holds : {a : A} {s : Codegen} → P a s → Ensures P (some (a, s))

module _ (terminated : List Call → Bool) where
  -- An instruction goes into a block that has no terminator, a block is begun once, and the passes run on
  -- the function that is being generated, whose last block has its terminator.
  abbrev pub Allowed : Call → List Call → Type 0
  Allowed (Call.set_insert_point b) cs = entered b cs ≡ false
  Allowed (Call.run_passes f) cs = (terminated cs ≡ true) × (running cs ≡ some f)
  Allowed (Call.create_function n a t) cs = Unit
  Allowed (Call.create_block n f) cs = Unit
  Allowed (Call.insert_into b f) cs = Unit
  Allowed (Call.set_name f i n) cs = Unit
  Allowed _ cs = terminated cs ≡ false

  abbrev pub Legal : List Call → Type 0
  Legal [] = Unit
  Legal (c ∷ cs) = Allowed c cs × Legal cs

  -- A block of a function is left only behind its terminator, and a function is created only where none
  -- is being generated.
  abbrev pub Leaves : Call → List Call → Type 0
  Leaves (Call.set_insert_point b) cs = (at_entry cs || terminated cs) ≡ true
  Leaves (Call.create_function n a t) cs = running cs ≡ none
  Leaves _ cs = Unit

  abbrev pub Closed : List Call → Type 0
  Closed [] = Unit
  Closed (c ∷ cs) = Leaves c cs × Closed cs

  -- What holds between the definitions of a file.
  pub record IsSound (s : Codegen) : Type 0 where
    pub legal : Legal s.calls
    pub closed : s.is_success ≡ true → Closed s.calls
    pub known : (b : ℕ) → entered b s.calls ≡ true → b < length s.calls
    pub paired : Paired s.funcs s.ast_funcs

  -- What holds inside of a function, in a visitor that began after `k` calls.
  pub record IsInside (k : ℕ) (s : Codegen) : Type 0 where
    pub sound : IsSound s
    pub defined : (d : FunctionDef) × (s.current_func ≡ some d)
    pub scoped : HasScope s.scopes
    pub from : k ≤ length s.calls

  -- From one state of that visitor to a later one.
  pub record Step (k : ℕ) (s t : Codegen) : Type 0 where
    pub inside : IsInside k t
    pub sticky : t.is_success ≡ true → s.is_success ≡ true
    pub longer : length s.calls ≤ length t.calls
    pub kept : (b : ℕ) → b < k → entered b s.calls ≡ false → entered b t.calls ≡ false
    pub same_function : running t.calls ≡ running s.calls
    pub outer : outer_scopes t.scopes ≡ outer_scopes s.scopes

  abbrev pub Runs :
      {A : Type 0} → ℕ → Codegen → (A → Codegen → Type 0) → Option (A × Codegen) → Type 0
  Runs k s P = Ensures (λ a t. Step k s t × P a t)

  -- A block that is created and not begun.
  abbrev pub Fresh : ℕ → Codegen → Type 0
  Fresh b s = (b < length s.calls) × (entered b s.calls ≡ false)

module _ {terminated : List Call → Bool} where
  pub Step-refl : {k : ℕ} {s : Codegen} → IsInside terminated k s → Step terminated k s s
  Step-refl i = record {
    inside = i;
    sticky = λ e. e;
    longer = omega arith;
    kept = λ b lt e. e;
    same_function = refl;
    outer = refl;
  }

  pub Step-trans :
      {k : ℕ} {s t u : Codegen}
      → Step terminated k s t
      → Step terminated k t u
      → Step terminated k s u
  Step-trans p q = record {
    inside = q.inside;
    sticky = λ e. p.sticky (q.sticky e);
    longer = omega (arith, p.longer, q.longer);
    kept = λ b lt e. q.kept b lt (p.kept b lt e);
    same_function = q.same_function ∙ p.same_function;
    outer = q.outer ∙ p.outer;
  }

  -- A visitor inside another one.
  pub Step-lower : {k l : ℕ} {s t : Codegen} → k ≤ l → Step terminated l s t → Step terminated k s t
  Step-lower le p = record {
    inside = record {
      sound = p.inside.sound;
      defined = p.inside.defined;
      scoped = p.inside.scoped;
      from = omega (arith, p.inside.from, le);
    };
    sticky = p.sticky;
    longer = p.longer;
    kept = λ b lt e. p.kept b (omega (arith, lt, le)) e;
    same_function = p.same_function;
    outer = p.outer;
  }

  pub Fresh-Step :
      {s t : Codegen} (b : ℕ)
      → Fresh terminated b s
      → Step terminated (length s.calls) s t
      → Fresh terminated b t
  Fresh-Step b f p = (omega (arith, f.0, p.longer), p.kept b f.0 f.1)

  module _ {A B : Type 0} {k : ℕ} {s : Codegen} {P : A → Codegen → Type 0}
      {Q : B → Codegen → Type 0} where
    pub Runs-bind :
        {o : Option (A × Codegen)} (f : A → G B)
        → Runs terminated k s P o
        → ((a : A) (t : Codegen) → Step terminated k s t → P a t → Runs terminated k t Q (f a t))
        → Runs terminated k s Q (bind o f)
    Runs-bind f (holds {a} {s = t} h) rest = weaken (rest a t h.0 h.1)
      where
        weaken : {o : Option (B × Codegen)} → Runs terminated k t Q o → Runs terminated k s Q o
        weaken (holds g) = holds (Step-trans h.0 g.0, g.1)

  pub Runs-from :
      {A : Type 0} {P : A → Codegen → Type 0} {k : ℕ} {s t : Codegen} {o : Option (A × Codegen)}
      → Step terminated k s t
      → Runs terminated k t P o
      → Runs terminated k s P o
  Runs-from st (holds h) = holds (Step-trans st h.0, h.1)

  -- A change of the other members.
  pub quiet-Step :
      {k : ℕ} {s : Codegen} (t : Codegen)
      → IsInside terminated k s
      → t.calls ≡ s.calls
      → (t.is_success ≡ true → s.is_success ≡ true)
      → t.current_func ≡ s.current_func
      → HasScope t.scopes
      → outer_scopes t.scopes ≡ outer_scopes s.scopes
      → Paired t.funcs t.ast_funcs
      → Step terminated k s t
  quiet-Step {k} {s} t i e sticky d scoped outer paired = record {
    inside = record {
      sound = record {
        legal = subst (Legal terminated) (sym e) i.sound.legal;
        closed = λ c. subst (Closed terminated) (sym e) (i.sound.closed (sticky c));
        known = λ b h.
            subst (λ cs. b < length cs) (sym e)
              (i.sound.known b (subst (λ cs. entered b cs ≡ true) e h));
        paired = paired;
      };
      defined = (i.defined.0, d ∙ i.defined.1);
      scoped = scoped;
      from = subst (λ cs. k ≤ length cs) (sym e) i.from;
    };
    sticky = sticky;
    longer = omega (arith, ap (λ (cs : List Call). length cs) e);
    kept = λ b lt h. subst (λ cs. entered b cs ≡ false) (sym e) h;
    same_function = ap running e;
    outer = outer;
  }

abbrev pub after : Call → Codegen → Codegen
after c s = record s { calls = c ∷ s.calls }

local-enters : (b : ℕ) (c : Call) → is_local c ≡ true → enters b c ≡ false
local-enters b (Call.set_insert_point d) h = absurd (cc)
local-enters b (Call.create_br d) h = refl
local-enters b _ h = refl

pub entered-local :
    (b : ℕ) (c : Call) (cs : List Call) → is_local c ≡ true → entered b (c ∷ cs) ≡ entered b cs
unfolding entered
entered-local b c cs h = rw (local-enters b c h) refl

running-local : (c : Call) (cs : List Call) → is_local c ≡ true → running (c ∷ cs) ≡ running cs
unfolding running
running-local (Call.set_insert_point b) cs h = refl
running-local (Call.run_passes f) cs h = absurd (cc)
running-local (Call.create_function n a t) cs h = absurd (cc)
running-local _ cs h = refl

local-Leaves :
    (terminated : List Call → Bool) (c : Call) (cs : List Call)
    → is_local c ≡ true
    → Leaves terminated c cs
local-Leaves terminated (Call.set_insert_point d) cs h = absurd (cc)
local-Leaves terminated (Call.create_function n a t) cs h = absurd (cc)
local-Leaves terminated (Call.create_br d) cs h = tt
local-Leaves terminated _ cs h = tt

module _ {terminated : List Call → Bool} where
  -- The calls that do not move the insertion point.
  pub after-Step :
      {k : ℕ} {s : Codegen} (c : Call)
      → IsInside terminated k s
      → Allowed terminated c s.calls
      → is_local c ≡ true
      → Step terminated k s (after c s)
  after-Step {s} c i allowed l = record {
    inside = record {
      sound = record {
        legal = (allowed, i.sound.legal);
        closed = λ e. (local-Leaves terminated c s.calls l, i.sound.closed e);
        known = λ b h. omega (arith, i.sound.known b (sym (entered-local b c s.calls l) ∙ h));
        paired = i.sound.paired;
      };
      defined = i.defined;
      scoped = i.scoped;
      from = omega (arith, i.from);
    };
    sticky = λ e. e;
    longer = omega arith;
    kept = λ b lt h. entered-local b c s.calls l ∙ h;
    same_function = running-local c s.calls l;
    outer = refl;
  }

  -- A block that is begun.
  pub enter-Step :
      {k : ℕ} {s : Codegen} (b : ℕ)
      → IsInside terminated k s
      → k ≤ b
      → Fresh terminated b s
      → terminated s.calls ≡ true
      → Step terminated k s (after (set_insert_point b) s)
  unfolding entered running
  enter-Step {s} b i le fresh done = record {
    inside = record {
      sound = record {
        legal = (fresh.1, i.sound.legal);
        closed = λ e. (rw done (or_true (at_entry s.calls)), i.sound.closed e);
        known = λ d h. elim (Bool-cases (b == d)) [
          | inl e ↦ omega (arith, fresh.0, (==_iff b d).0 e)
          | inr e ↦ omega (arith, i.sound.known d (sym (ap (λ x. x || entered d s.calls) e) ∙ h))
        ];
        paired = i.sound.paired;
      };
      defined = i.defined;
      scoped = i.scoped;
      from = omega (arith, i.from);
    };
    sticky = λ e. e;
    longer = omega arith;
    kept = λ d lt h. ground (arith, le);
    same_function = refl;
    outer = refl;
  }
    where
      or_true : (x : Bool) → (x || true) ≡ true
      or_true true = refl
      or_true false = refl

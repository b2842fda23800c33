-- ===== src/Codegen/Attached.antt =====
-- Where the blocks of src/Parser/Codegen.h belong: every block that is written to was attached before
-- to the function that is being generated.
pub mod Expressions
pub mod Statements
pub mod Blocks
pub mod Functions
use pudl.Prelude.{
  ℕ, ◌≡◌, ◌⊎◌, refl, sym, ap, ◌∙◌, Bool, List, [], ◌∷◌, Bytes, length, Option, none, some, inl, inr,
}
use pudl.Prelude.Map.{Map, lookup, pointer}
use pudl.Ast.{FunctionDef}
use pudl.Codegen.Calls.{Call}
use pudl.Codegen.State.{Codegen, G, bind, current_function, current_definition, deref, funcs_entry}
use pudl.Codegen.Ensures.{Legal}
use pudl.Codegen.Rules.{Unit0}
use pudl.Codegen.Check.Leads.{Grown, same, more, Leads, crashes}
use pudl.Codegen.Check.Views.{Leads-funcs_entry}

-- The function that was created last.
unfoldable pub latest : List Call → Option ℕ
latest [] = none
latest (Call.create_function n a t ∷ cs) = some (length cs)
latest (c ∷ cs) = latest cs

-- The call puts the block into the function that was created last.
abbrev pub Attaches : ℕ → Call → List Call → Type 0
Attaches b (Call.create_block n (some f)) cs = (length cs ≡ b) × (latest cs ≡ some f)
Attaches b (Call.insert_into d (some f)) cs = (d ≡ b) × (latest cs ≡ some f)
Attaches b _ cs = ⊥

pub data IsAttached (b : ℕ) : List Call → Type 0 where
  now : {c : Call} {cs : List Call} → Attaches b c cs → IsAttached b (c ∷ cs)
  before : {c : Call} {cs : List Call} → IsAttached b cs → IsAttached b (c ∷ cs)

-- Every block is attached before it is written to.
unfoldable pub AllAttached : List Call → Type 0
AllAttached [] = Unit
AllAttached (Call.set_insert_point b ∷ cs) = IsAttached b cs × AllAttached cs
AllAttached (c ∷ cs) = AllAttached cs

pub IsAttached-Grown : {cs ds : List Call} (b : ℕ) → Grown cs ds → IsAttached b cs → IsAttached b ds
IsAttached-Grown b same h = h
IsAttached-Grown b (more c g) h = before (IsAttached-Grown b g h)

pub insert-IsAttached :
    {f : ℕ} (b : ℕ) (func : Option ℕ) (cs : List Call)
    → func ≡ some f
    → latest cs ≡ some f
    → IsAttached b (Call.insert_into b func ∷ cs)
insert-IsAttached b none cs e h = absurd (cc)
insert-IsAttached b (some g) cs e h = now (refl, h ∙ sym e)

pub create-IsAttached :
    {f : ℕ} (name : Bytes) (func : Option ℕ) (cs : List Call)
    → func ≡ some f
    → latest cs ≡ some f
    → IsAttached (length cs) (Call.create_block name func ∷ cs)
create-IsAttached name none cs e h = absurd (cc)
create-IsAttached name (some g) cs e h = now (refl, h ∙ sym e)

-- While the function `f` is generated, the generator finds it under the name of the current definition.
pub record Inv (f : ℕ) (calls : List Call) (funcs : Map (Option ℕ)) (current : Option FunctionDef)
    : Type 0 where
  pub is_latest : latest calls ≡ some f
  pub attached : AllAttached calls
  pub found : (d : FunctionDef) → current ≡ some d → pointer (lookup d.name funcs) ≡ some f

abbrev pub Generates : ℕ → Codegen → Type 0
Generates f s = Inv f s.calls s.funcs s.current_func

-- Other calls.
pub Inv-calls :
    {f : ℕ} {calls cs : List Call} {funcs : Map (Option ℕ)} {current : Option FunctionDef}
    → Inv f calls funcs current
    → latest cs ≡ latest calls
    → AllAttached cs
    → Inv f cs funcs current
Inv-calls p e a = record { is_latest = e ∙ p.is_latest; attached = a; found = p.found }

module _ (terminated : List Call → Bool) where
  -- A visitor that attaches what it writes to.
  abbrev pub Keeps : {A : Type 0} → G A → Type 0
  Keeps {A} m =
      (f : ℕ) (s : Codegen)
      → (Legal terminated s.calls → Generates f s)
      → Leads terminated s (λ (a : A) t. Generates f t) (m s)

module _ {terminated : List Call → Bool} {B : Type 0} {s : Codegen} {Q : B → Codegen → Type 0} where
  -- `funcs[currentFunc->getName()]` is the function that is being generated.
  pub Leads-own_function :
      (k : Option ℕ → G B) (f : ℕ)
      → (Legal terminated s.calls → Generates f s)
      → ((o : Option ℕ) (m : Map (Option ℕ))
          → (Legal terminated s.calls → o ≡ some f)
          → (Legal terminated s.calls → Inv f s.calls m s.current_func)
          → Leads terminated (record s { funcs = m }) Q (k o (record s { funcs = m })))
      → Leads terminated s Q (bind (current_function s) k)
  unfolding current_function current_definition
  Leads-own_function k f ready rest = by_current s.current_func (λ l. (ready l).found)
    where
      by_current :
          (c : Option FunctionDef)
          → (Legal terminated s.calls
              → (d : FunctionDef) → c ≡ some d
              → pointer (lookup d.name s.funcs) ≡ some f)
          → Leads terminated s Q (bind (bind (deref c s) (λ d. funcs_entry d.name)) k)
      by_current none found = crashes
      by_current (some d) found = Leads-funcs_entry d.name k λ m h.
          rest _ m (λ l. found l d refl)
            λ l. record {
              is_latest = (ready l).is_latest;
              attached = (ready l).attached;
              found = λ d' e. h d'.name ∙ (ready l).found d' e;
            }

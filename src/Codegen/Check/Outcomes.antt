-- ===== src/Codegen/Check/Outcomes.antt =====
-- What a visitor leaves behind, by whether its part of the tree passes the check.
use pudl.Prelude.{
  ℕ, ◌≡◌, ◌⊎◌, refl, ◌∙◌, ◌&&◌, Bool, true, false, List, Option, some, Bool-cases, inl, inr, arith,
}
use pudl.Prelude.Map.{Map}
use pudl.Ast.{FunctionDef}
use pudl.Codegen.Calls.{Call, Value}
use pudl.Codegen.ScopeStack.{Scopes}
use pudl.Codegen.State.{Codegen}
use pudl.Codegen.Check.{Names}
use pudl.Codegen.Check.Leads.{ended}
use pudl.Codegen.Check.Views.{View, Ready}

pub record Out (arities : Map ℕ) (before passes : Bool) (names : Names) (closed success : Bool)
    (calls : List Call) (scopes : Scopes Value) (funcs : Map (Option ℕ))
    (asts : Map (Option FunctionDef)) : Type 0 where
  pub result : success ≡ (before && passes)
  pub ready : success ≡ true → View arities names scopes funcs asts × (ended calls ≡ some closed)

-- Behind a visitor that began at `s`, and whose part of the tree passes the check or not.
abbrev pub Outcome : Map ℕ → Codegen → Bool → Names → Bool → Codegen → Type 0
Outcome arities s passes names closed t =
    Out arities s.is_success passes names closed t.is_success t.calls t.scopes t.funcs t.ast_funcs

pub absent : {b : Bool} {X : Type 0} → b ≡ false → b ≡ true → X
absent e c = absurd (cc)

module _ {arities : Map ℕ} {names : Names} {before x closed success : Bool} {calls : List Call}
    {scopes : Scopes Value} {funcs : Map (Option ℕ)} {asts : Map (Option FunctionDef)} where
  -- One check behind another.
  pub Out-both :
      {later : Names} {y end last : Bool} {cs : List Call} {ss : Scopes Value} {fs : Map (Option ℕ)}
      {ds : Map (Option FunctionDef)}
      → Out arities before x names closed success calls scopes funcs asts
      → Out arities success y later end last cs ss fs ds
      → Out arities before (x && y) later end last cs ss fs ds
  Out-both {y = y} {last = last} p q = record { result = chain p.result q.result; ready = q.ready }
    where
      chain : success ≡ (before && x) → last ≡ (success && y) → last ≡ (before && (x && y))
      chain p q = ground (arith, p, q)

  -- An error was reported.
  pub Out-stopped :
      (later : Names) (end : Bool)
      → Out arities before x names closed success calls scopes funcs asts
      → success ≡ false
      → Out arities before x later end success calls scopes funcs asts
  Out-stopped later end p e = record { result = p.result; ready = absent e }

  -- The first check failed.
  pub Out-failed :
      (later : Names) (end y : Bool)
      → Out arities before x names closed success calls scopes funcs asts
      → success ≡ false
      → Out arities before (x && y) later end success calls scopes funcs asts
  Out-failed later end y p e = record { result = chain p.result e; ready = absent e }
    where
      chain : success ≡ (before && x) → success ≡ false → success ≡ (before && (x && y))
      chain p e = ground (arith, p, e)

  -- A check that is known to pass, unless there was an error.
  pub Out-and :
      (y : Bool)
      → Out arities before x names closed success calls scopes funcs asts
      → (before ≡ true → y ≡ true)
      → Out arities before (y && x) names closed success calls scopes funcs asts
  Out-and y p h = record { result = p.result ∙ chain (Bool-cases before) h; ready = p.ready }
    where
      chain :
          (before ≡ true) ⊎ (before ≡ false)
          → (before ≡ true → y ≡ true)
          → (before && x) ≡ (before && (y && x))
      chain (inl e) h = let q = h e in ground (arith, q, e)
      chain (inr e) h = ground (arith, e)

  -- Other calls, behind which the block is open or closed as before, or as they leave it.
  pub Out-calls :
      {cs : List Call}
      → Out arities before x names closed success calls scopes funcs asts
      → ended cs ≡ ended calls
      → Out arities before x names closed success cs scopes funcs asts
  Out-calls p e = record { result = p.result; ready = λ c. ((p.ready c).0, e ∙ (p.ready c).1) }

  pub Out-at :
      {cs : List Call} {end : Bool}
      → Out arities before x names closed success calls scopes funcs asts
      → ended cs ≡ some end
      → Out arities before x names end success cs scopes funcs asts
  Out-at p e = record { result = p.result; ready = λ c. ((p.ready c).0, e) }

-- A check that fails, unless there was an error.
pub Out-refused :
    {arities : Map ℕ} (names : Names) {before : Bool} (x y closed : Bool) (calls : List Call)
    (scopes : Scopes Value) (funcs : Map (Option ℕ)) (asts : Map (Option FunctionDef))
    → (before ≡ true → x ≡ false)
    → Out arities before (x && y) names closed false calls scopes funcs asts
Out-refused names {before} x y closed calls scopes funcs asts h = record {
  result = chain (Bool-cases before) h;
  ready = absent refl;
}
  where
    chain :
        (before ≡ true) ⊎ (before ≡ false)
        → (before ≡ true → x ≡ false)
        → false ≡ (before && (x && y))
    chain (inl e) h = let q = h e in ground (arith, q, e)
    chain (inr e) h = ground (arith, e)

-- Nothing that could be refused.
pub Outcome-passed :
    {arities : Map ℕ} {names : Names} {closed : Bool} (t : Codegen)
    → Ready arities names closed t
    → Outcome arities t true names closed t
Outcome-passed t r = record { result = unit t.is_success; ready = r }
  where
    unit : (b : Bool) → b ≡ (b && true)
    unit true = refl
    unit false = refl

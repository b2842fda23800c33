-- ===== src/Codegen/ScopeStack.antt =====
-- `ScopeStack` of src/Parser/Codegen.h: the scopes of the variables of a function, the innermost
-- first. `X` stands for the pointers to allocas. `back` and `pop_back` on no scope have no defined
-- result in C++: `none`.
use pudl.Prelude.{
  ◌≡◌, refl, Bool, true, false, Bytes, bytes_eq, List, [], ◌∷◌, sym, Option, none, some,
  if◌then◌else◌,
}
use pudl.Prelude.Map.{Map, lookup, update, lookup-update}

abbrev pub Scopes {ℓ} : Type ℓ → Type ℓ
Scopes X = List (Map X)

module _ {ℓ} {X : Type ℓ} where
  abbrev pub clear : Scopes X → Scopes X
  clear s = []

  abbrev pub push : Scopes X → Scopes X
  push s = [] ∷ s

  abbrev pub pop : Scopes X → Option (Scopes X)
  pop [] = none
  pop (m ∷ s) = some s

  abbrev pub declare_in : Bytes → X → Scopes X → Option (Scopes X)
  declare_in name alloca [] = none
  declare_in name alloca (m ∷ s) = some (update name alloca m ∷ s)

  -- What the innermost scope has, or what the others have.
  abbrev pub or_else : Option X → Option X → Option X
  or_else (some x) y = some x
  or_else none y = y

  -- `lookup`, whose nullptr is `none`.
  abbrev pub lookup_in : Bytes → Scopes X → Option X
  lookup_in name [] = none
  lookup_in name (m ∷ s) = or_else (lookup name m) (lookup_in name s)

  or_else-if :
      (b : Bool) (v : X) (x y : Option X)
      → or_else (if b then some v else x) y ≡ (if b then some v else or_else x y)
  or_else-if true v x y = refl
  or_else-if false v x y = refl

  -- Behind a declaration its name stands for what was declared, which shadows any outer variable of
  -- that name, and every other name for what it stood for.
  pub lookup_in-declare_in :
      (name key : Bytes) (alloca : X) (s t : Scopes X)
      → declare_in name alloca s ≡ some t
      → lookup_in key t ≡ (if bytes_eq name key then some alloca else lookup_in key s)
  lookup_in-declare_in name key alloca [] t h = absurd (cc)
  lookup_in-declare_in name key alloca (m ∷ s) t h =
      let e : update name alloca m ∷ s ≡ t = cc in
      rw (sym e, lookup-update name key alloca m)
        (or_else-if (bytes_eq name key) alloca (lookup key m) (lookup_in key s))

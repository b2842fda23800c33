-- ===== src/Codegen/Check/Views.antt =====
-- What the check sees of the state of the code generator: the names in its scopes, the functions so far,
-- and whether the block is open.
use pudl.Prelude.{
  ℕ, ◌≡◌, refl, sym, ap, ◌∙◌, ◌||◌, Bool, true, false, List, [], ◌∷◌, Bytes, bytes_eq, length,
  Option, none, some, if◌then◌else◌,
}
use pudl.Prelude.Map.{Map, lookup, insert, update, subscript, pointer, lookup-update}
use pudl.Ast.{FunctionDef}
use pudl.Codegen.Calls.{Call, Value}
use pudl.Codegen.ScopeStack.{Scopes, lookup_in, or_else}
use pudl.Codegen.State.{
  Codegen, G, bind, deref, funcs_entry, ast_funcs_entry, current_definition, current_function,
}
use pudl.Codegen.Check.{Names, has_name, is_visible, declare_name}
use pudl.Codegen.Check.Leads.{ended, Leads, crashes, same, Leads-from}

abbrev pub is_some : {A : Type 0} → Option A → Bool
is_some none = false
is_some (some a) = true

-- Each scope has the names that the check has for it.
unfoldable pub SameNames : Names → Scopes Value → Type 0
SameNames [] [] = Unit
SameNames (ns ∷ names) (m ∷ scopes) =
    ((name : Bytes) → is_some (lookup name m) ≡ has_name name ns) × SameNames names scopes
SameNames _ _ = ⊥

pub lookup-is_visible :
    (name : Bytes) (names : Names) (scopes : Scopes Value)
    → SameNames names scopes
    → is_some (lookup_in name scopes) ≡ is_visible name names
unfolding SameNames is_visible
lookup-is_visible name [] [] h = refl
lookup-is_visible name (ns ∷ names) (m ∷ scopes) h =
    either (lookup name m)
    ∙ ap (λ b. b || is_some (lookup_in name scopes)) (h.0 name)
    ∙ ap (λ b. has_name name ns || b) (lookup-is_visible name names scopes h.1)
  where
    either :
        (x : Option Value)
        → is_some (or_else x (lookup_in name scopes))
          ≡ (is_some x || is_some (lookup_in name scopes))
    either none = refl
    either (some x) = refl
lookup-is_visible name [] (m ∷ scopes) h = absurd h
lookup-is_visible name (ns ∷ names) [] h = absurd h

pub declare-SameNames :
    (name : Bytes) (slot : Value) (m : Map Value) (rest : Scopes Value) (names : Names)
    → SameNames names (m ∷ rest)
    → SameNames (declare_name name names) (update name slot m ∷ rest)
unfolding SameNames has_name
declare-SameNames name slot m rest [] h = absurd h
declare-SameNames name slot m rest (ns ∷ names) h =
    (λ j. ap is_some (lookup-update name j slot m) ∙ found j (bytes_eq name j), h.1)
  where
    found :
        (j : Bytes) (b : Bool)
        → is_some (if b then some slot else lookup j m) ≡ (b || has_name j ns)
    found j true = refl
    found j false = h.0 j

-- How many parameters the function has that the generator finds under a name.
abbrev pub arity_of : Option ℕ → Option FunctionDef → Option ℕ
arity_of none d = none
arity_of (some f) none = none
arity_of (some f) (some d) = some (length d.args)

abbrev pub arity_in : Bytes → Map (Option ℕ) → Map (Option FunctionDef) → Option ℕ
arity_in name funcs asts = arity_of (pointer (lookup name funcs)) (pointer (lookup name asts))

pub pointer-insert :
    {X : Type 0} (k j : Bytes) (m : Map (Option X))
    → pointer (lookup j (insert k none m)) ≡ pointer (lookup j m)
unfolding lookup insert pointer
pointer-insert {X = X} k j [] = by_match (bytes_eq k j)
  where
    by_match : (b : Bool) → pointer {X = X} (if b then some none else none) ≡ none
    by_match true = refl
    by_match false = refl
pointer-insert k j ((i, x) ∷ m) = by_match (pointer-insert k j m) (bytes_eq i k)
  where
    behind :
        pointer (lookup j (insert k none m)) ≡ pointer (lookup j m)
        → (b : Bool)
        → pointer (if b then some x else lookup j (insert k none m))
          ≡ pointer (if b then some x else lookup j m)
    behind ih true = refl
    behind ih false = ih

    by_match :
        pointer (lookup j (insert k none m)) ≡ pointer (lookup j m)
        → (b : Bool)
        → pointer (lookup j (if b then (i, x) ∷ m else (i, x) ∷ insert k none m))
          ≡ pointer (if bytes_eq i j then some x else lookup j m)
    by_match ih true = refl
    by_match ih false = behind ih (bytes_eq i j)

abbrev pub SameArities : Map ℕ → Map (Option ℕ) → Map (Option FunctionDef) → Type 0
SameArities arities funcs asts = (name : Bytes) → arity_in name funcs asts ≡ lookup name arities

pub update-SameArities :
    (d : FunctionDef) (f : ℕ) (arities : Map ℕ) (funcs : Map (Option ℕ))
    (asts : Map (Option FunctionDef))
    → SameArities arities funcs asts
    → SameArities
        (update d.name (length d.args) arities)
        (update d.name (some f) funcs)
        (update d.name (some d) asts)
unfolding pointer
update-SameArities d f arities funcs asts h name =
    ap (λ o. arity_of (pointer o) (pointer (lookup name (update d.name (some d) asts))))
      (lookup-update d.name name (some f) funcs)
    ∙ ap
        (λ o.
          arity_of (pointer (if bytes_eq d.name name then some (some f) else lookup name funcs))
            (pointer o))
        (lookup-update d.name name (some d) asts)
    ∙ by_match (bytes_eq d.name name)
    ∙ sym (lookup-update d.name name (length d.args) arities)
  where
    by_match :
        (b : Bool)
        → arity_of
            (pointer (if b then some (some f) else lookup name funcs))
            (pointer (if b then some (some d) else lookup name asts))
          ≡ (if b then some (length d.args) else lookup name arities)
    by_match true = refl
    by_match false = h name

pub record View (arities : Map ℕ) (names : Names) (scopes : Scopes Value) (funcs : Map (Option ℕ))
    (asts : Map (Option FunctionDef)) : Type 0 where
  pub scoped : SameNames names scopes
  pub functions : SameArities arities funcs asts

-- Unless an error was reported, the state is as the check sees it.
abbrev pub Ready : Map ℕ → Names → Bool → Codegen → Type 0
Ready arities names closed s =
    s.is_success ≡ true
    → View arities names s.scopes s.funcs s.ast_funcs × (ended s.calls ≡ some closed)

pub Ready-funcs :
    {arities : Map ℕ} {names : Names} {closed : Bool} (s : Codegen) (m : Map (Option ℕ))
    → ((j : Bytes) → pointer (lookup j m) ≡ pointer (lookup j s.funcs))
    → Ready arities names closed s
    → Ready arities names closed (record s { funcs = m })
Ready-funcs s m h r c = (
  record {
    scoped = (r c).0.scoped;
    functions =
        λ j. ap (λ o. arity_of o (pointer (lookup j s.ast_funcs))) (h j) ∙ (r c).0.functions j;
  },
  (r c).1,
)

pub Ready-ast_funcs :
    {arities : Map ℕ} {names : Names} {closed : Bool} (s : Codegen) (m : Map (Option FunctionDef))
    → ((j : Bytes) → pointer (lookup j m) ≡ pointer (lookup j s.ast_funcs))
    → Ready arities names closed s
    → Ready arities names closed (record s { ast_funcs = m })
Ready-ast_funcs s m h r c = (
  record {
    scoped = (r c).0.scoped;
    functions = λ j. ap (λ o. arity_of (pointer (lookup j s.funcs)) o) (h j) ∙ (r c).0.functions j;
  },
  (r c).1,
)

module _ {terminated : List Call → Bool} {B : Type 0} {s : Codegen} {Q : B → Codegen → Type 0} where
  pub Leads-funcs_entry :
      (name : Bytes) (f : Option ℕ → G B)
      → ((m : Map (Option ℕ))
          → ((j : Bytes) → pointer (lookup j m) ≡ pointer (lookup j s.funcs))
          → Leads terminated
              (record s { funcs = m })
              Q
              (f (pointer (lookup name s.funcs)) (record s { funcs = m })))
      → Leads terminated s Q (bind (funcs_entry name s) f)
  unfolding funcs_entry subscript
  Leads-funcs_entry name f rest =
      Leads-from same (rest (insert name none s.funcs) (λ j. pointer-insert name j s.funcs))

  pub Leads-ast_funcs_entry :
      (name : Bytes) (f : Option FunctionDef → G B)
      → ((m : Map (Option FunctionDef))
          → ((j : Bytes) → pointer (lookup j m) ≡ pointer (lookup j s.ast_funcs))
          → Leads terminated
              (record s { ast_funcs = m })
              Q
              (f (pointer (lookup name s.ast_funcs)) (record s { ast_funcs = m })))
      → Leads terminated s Q (bind (ast_funcs_entry name s) f)
  unfolding ast_funcs_entry subscript
  Leads-ast_funcs_entry name f rest =
      Leads-from same (rest (insert name none s.ast_funcs) (λ j. pointer-insert name j s.ast_funcs))

  pub Leads-current_definition :
      (f : FunctionDef → G B)
      → ((d : FunctionDef) → Leads terminated s Q (f d s))
      → Leads terminated s Q (bind (current_definition s) f)
  unfolding current_definition
  Leads-current_definition f rest = by_current s.current_func
    where
      by_current : (c : Option FunctionDef) → Leads terminated s Q (bind (deref c s) f)
      by_current none = crashes
      by_current (some d) = rest d

  pub Leads-current_function :
      (f : Option ℕ → G B)
      → ((o : Option ℕ) (m : Map (Option ℕ))
          → ((j : Bytes) → pointer (lookup j m) ≡ pointer (lookup j s.funcs))
          → Leads terminated (record s { funcs = m }) Q (f o (record s { funcs = m })))
      → Leads terminated s Q (bind (current_function s) f)
  unfolding current_function current_definition
  Leads-current_function f rest = by_current s.current_func
    where
      by_current :
          (c : Option FunctionDef)
          → Leads terminated s Q (bind (bind (deref c s) (λ d. funcs_entry d.name)) f)
      by_current none = crashes
      by_current (some d) = Leads-funcs_entry d.name f λ m h. rest _ m h

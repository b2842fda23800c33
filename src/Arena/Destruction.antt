-- ===== src/Arena/Destruction.antt =====
-- The destructor of the arena behind a run of `construct`.
use pudl.Prelude.{
  ℕ, ◌≡◌, refl, sym, ap, ◌∙◌, Bool, true, false, List, [], ◌∷◌, ◌++◌, append_assoc, Option, none,
  some, if◌then◌else◌,
}
use pudl.Arena.{Block, Arena, Layout, add_block, place, place_at, try_current, construct}
use pudl.Arena.Runs.{made, construct_all}

-- `~Arena`: the objects whose destructors are called, in order. The vector of destructors is walked
-- from its end, which is the front of the list.
abbrev pub destroy : Arena → List ℕ
destroy a = a.destructors

-- The objects with a destructor, in the order of a run from its end.
unfoldable pub destructible : List Layout → List ℕ → List ℕ
destructible (t ∷ ts) (p ∷ ps) =
    let others = destructible ts ps in if t.trivial then others else others ++ p ∷ []
destructible _ _ = []

module _ (alloc : List Block → ℕ → ℕ) where
  -- The addresses of the objects of a run, in order.
  unfoldable pub addresses : List Layout → Arena → List ℕ
  addresses [] a = []
  addresses (t ∷ ts) a = let p = construct alloc t a in p.0 ∷ addresses ts p.1

  construct-destructors :
      (t : Layout) (a : Arena)
      → (construct alloc t a).1.destructors
        ≡ (if t.trivial then a.destructors else (construct alloc t a).0 ∷ a.destructors)
  unfolding construct place add_block
  construct-destructors t a = by_place (try_current alloc t a.current a.remaining)
    where
      by_place :
          (o : Option (ℕ × ℕ))
          → (place_at alloc o t a).1.destructors
            ≡ (if t.trivial then a.destructors else (place_at alloc o t a).0 ∷ a.destructors)
      by_place (some p) = refl
      by_place none = refl

  last_out :
      (trivial : Bool) (p : ℕ) (later before : List ℕ)
      → later ++ (if trivial then before else p ∷ before)
        ≡ (if trivial then later else later ++ p ∷ []) ++ before
  last_out true p later before = refl
  last_out false p later before = sym (append_assoc later (p ∷ []) before)

  -- The destructor of the arena calls the destructors of a run's objects in the reverse of the order
  -- in which `construct` made them, each once, and those of the types that have none not at all; then
  -- those of the objects of before.
  pub destroy-construct_all :
      (ts : List Layout) (a : Arena) (objects : List Block)
      → destroy (construct_all alloc ts a objects).1 ≡ destructible ts (addresses ts a) ++ destroy a
  unfolding construct_all addresses destructible
  destroy-construct_all [] a objects = refl
  destroy-construct_all (t ∷ ts) a objects =
      let r = construct alloc t a in
      let later = destructible ts (addresses ts r.1) in
      destroy-construct_all ts r.1 (made t r.0 ∷ objects)
      ∙ ap (λ d. later ++ d) (construct-destructors t a)
      ∙ last_out t.trivial r.0 later a.destructors

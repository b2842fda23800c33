-- ===== src/Arena/Runs.antt =====
-- A run of `construct`: the objects lie apart, each in a block.
use pudl.Prelude.{
  length, ◌≢◌, ℕ, ◌+◌, ◌≤◌, ◌<◌, ◌≡◌, refl, sym, ap, ◌∙◌, subst, ◌⊎◌, inl, inr, List, [], ◌∷◌,
  Option, none, some, All, arith, length,
}
use pudl.Arena.{
  Block, Arena, empty, Layout, add_block, place, place_at, try_current, construct, IsValid, Placed,
  construct-Placed,
}

-- The object that `construct` made: its address and its size.
abbrev pub made : Layout → ℕ → Block
made t ptr = record { base = ptr; size = t.size }

module _ (alloc : List Block → ℕ → ℕ) where
  -- The calls of `construct` in a run, with the objects, latest first.
  unfoldable pub construct_all : List Layout → Arena → List Block → List Block × Arena
  construct_all [] a objects = (objects, a)
  construct_all (t ∷ ts) a objects =
      let p = construct alloc t a in construct_all ts p.1 (made t p.0 ∷ objects)

-- Two pieces of memory have no byte in common.
abbrev pub Apart : Block → Block → Type 0
Apart x y = (x.base + x.size ≤ y.base) ⊎ (y.base + y.size ≤ x.base)

unfoldable pub AllApart : List Block → Type 0
AllApart [] = Unit
AllApart (x ∷ xs) = All (Apart x) xs × AllApart xs

abbrev pub Within : Block → Block → Type 0
Within x b = (b.base ≤ x.base) × (x.base + x.size ≤ b.base + b.size)

unfoldable pub WithinSome : Block → List Block → Type 0
WithinSome x [] = ⊥
WithinSome x (b ∷ bs) = Within x b ⊎ WithinSome x bs

-- The object lies in the latest block in front of the free space, or in an earlier block.
abbrev pub Housed : Arena → Block → Type 0
Housed a x =
    (ptr : ℕ) × (block : Block) × (others : List Block) × (a.current ≡ some ptr)
    × (a.blocks ≡ block ∷ others)
    × ((Within x block × (x.base + x.size ≤ ptr)) ⊎ WithinSome x others)

Within-Apart : (x y b c : Block) → Within x b → Within y c → Apart b c → Apart x y
Within-Apart x y b c hx hy (inl h) = inl (omega (arith, hx, hy, h))
Within-Apart x y b c hx hy (inr h) = inr (omega (arith, hx, hy, h))

some-Apart :
    (x y b : Block) (bs : List Block) → Within x b → WithinSome y bs → All (Apart b) bs → Apart x y
unfolding WithinSome
some-Apart x y b [] hx hy h = absurd hy
some-Apart x y b (c ∷ bs) hx (inl hy) h = Within-Apart x y b c hx hy h.0
some-Apart x y b (c ∷ bs) hx (inr hy) h = some-Apart x y b bs hx hy h.1

All-map : {P Q : Block → Type 0} (xs : List Block) → ((x : Block) → P x → Q x) → All P xs → All Q xs
All-map [] f h = tt
All-map (x ∷ xs) f h = (f x h.0, All-map xs f h.1)

cons-ne : (x : Block) (xs : List Block) → x ∷ xs ≢ xs
cons-ne x xs e = absurd (omega (arith, ap (λ (l : List Block). length l) e))

head_eq : {x y : Block} {xs ys : List Block} → x ∷ xs ≡ y ∷ ys → x ≡ y
head_eq e = cc

tail_eq : {x y : Block} {xs ys : List Block} → x ∷ xs ≡ y ∷ ys → xs ≡ ys
tail_eq e = cc

some_eq : {x y : ℕ} → some x ≡ some y → x ≡ y
some_eq e = cc

-- The objects of a run: none overlaps another, and each has its place in a block.
pub record Sound (objects : List Block) (a : Arena) : Type 0 where
  pub valid : IsValid a
  pub blocks : AllApart a.blocks
  pub housed : All (Housed a) objects
  pub apart : AllApart objects

module _ (alloc : List Block → ℕ → ℕ)
    (fresh : (blocks : List Block) (size : ℕ)
      → All (Apart (record { base = alloc blocks size; size = size })) blocks) where
  abbrev Grown : Arena → Arena → Type 0
  Grown a b =
      (size : ℕ) × (b.blocks ≡ record { base = alloc a.blocks size; size = size } ∷ a.blocks)

  abbrev Stayed : Arena → ℕ → Arena → Type 0
  Stayed a ptr b = (old : ℕ) × (a.current ≡ some old) × (old ≤ ptr) × (b.blocks ≡ a.blocks)

  construct-blocks :
      (t : Layout) (a : Arena)
      → ((construct alloc t a).1.blocks ≡ a.blocks) ⊎ Grown a (construct alloc t a).1
  unfolding construct place add_block
  construct-blocks t a = by_place (try_current alloc t a.current a.remaining)
    where
      by_place :
          (o : Option (ℕ × ℕ))
          → ((place_at alloc o t a).1.blocks ≡ a.blocks) ⊎ Grown a (place_at alloc o t a).1
      by_place (some p) = inl refl
      by_place none = inr (_, refl)

  -- Either the blocks stay, or a block is added that `alloc` gave.
  split :
      (t : Layout) (a : Arena)
      → Placed t a (construct alloc t a).0 (construct alloc t a).1
      → Stayed a (construct alloc t a).0 (construct alloc t a).1 ⊎ Grown a (construct alloc t a).1
  split t a p = cases p.apart (construct-blocks t a)
    where
      cases :
          Stayed a (construct alloc t a).0 (construct alloc t a).1
            ⊎ ((block : Block) × ((construct alloc t a).1.blocks ≡ block ∷ a.blocks))
          → ((construct alloc t a).1.blocks ≡ a.blocks) ⊎ Grown a (construct alloc t a).1
          → Stayed a (construct alloc t a).0 (construct alloc t a).1
            ⊎ Grown a (construct alloc t a).1
      cases (inl s) g = inl s
      cases (inr n) (inr g) = inr g
      cases (inr n) (inl e) = absurd (cons-ne n.0 a.blocks (sym n.1 ∙ e))

  module _ (t : Layout) (a b : Arena) (ptr : ℕ) (p : Placed t a ptr b) where
    made-Within : Within (made t ptr) p.inside.block
    made-Within = (p.inside.base_le, omega (arith, p.inside.to_end))

    made-Housed : Housed b (made t ptr)
    made-Housed = (
      ptr + t.size,
      p.inside.block,
      p.inside.others,
      p.behind,
      p.inside.is_latest,
      inl (made-Within, omega arith),
    )

    Stayed-Housed :
        (y : Block)
        → AllApart a.blocks
        → Stayed a ptr b
        → Housed a y
        → Housed b y × Apart (made t ptr) y
    unfolding AllApart
    Stayed-Housed y separate s (c, block, others, e, eb, place) =
        ((ptr + t.size, block, others, p.behind, s.3 ∙ eb, moved place), away place)
      where
        c_le : c ≤ ptr
        c_le = let q : c ≡ s.0 = some_eq (sym e ∙ s.1) in omega (arith, q, s.2)

        moved :
            (Within y block × (y.base + y.size ≤ c)) ⊎ WithinSome y others
            → (Within y block × (y.base + y.size ≤ ptr + t.size)) ⊎ WithinSome y others
        moved (inl h) = inl (h.0, omega (arith, h.1, c_le))
        moved (inr h) = inr h

        away : (Within y block × (y.base + y.size ≤ c)) ⊎ WithinSome y others → Apart (made t ptr) y
        away (inl h) = inr (omega (arith, h.1, c_le))
        away (inr h) =
            some-Apart (made t ptr) y block others
              (subst (Within (made t ptr)) (head_eq (sym p.inside.is_latest ∙ (s.3 ∙ eb)))
                made-Within)
              h ((subst AllApart eb separate).0)

    Grown-Housed : (y : Block) → Grown a b → Housed a y → Housed b y × Apart (made t ptr) y
    unfolding WithinSome
    Grown-Housed y g (c, block, others, e, eb, place) =
        let new : Block = record { base = alloc a.blocks g.0; size = g.0 } in
        let old : WithinSome y a.blocks = subst (WithinSome y) (sym eb) (earlier place) in
        (
          (ptr + t.size, new, a.blocks, p.behind, g.1, inr old),
          some-Apart (made t ptr) y new a.blocks
              (subst (Within (made t ptr)) (head_eq (sym p.inside.is_latest ∙ g.1)) made-Within) old
              (fresh a.blocks g.0),
        )
      where
        earlier :
            (Within y block × (y.base + y.size ≤ c)) ⊎ WithinSome y others
            → WithinSome y (block ∷ others)
        earlier (inl h) = inl h.0
        earlier (inr h) = inr h

    placed-Sound :
        (objects : List Block)
        → Stayed a ptr b ⊎ Grown a b
        → Sound objects a
        → Sound (made t ptr ∷ objects) b
    unfolding AllApart
    placed-Sound objects (inl s) sound = record {
      valid = p.valid;
      blocks = subst AllApart (sym s.3) sound.blocks;
      housed =
          (made-Housed, All-map objects (λ y h. (Stayed-Housed y sound.blocks s h).0) sound.housed);
      apart =
          (All-map objects (λ y h. (Stayed-Housed y sound.blocks s h).1) sound.housed, sound.apart);
    }
    placed-Sound objects (inr g) sound = record {
      valid = p.valid;
      blocks = subst AllApart (sym g.1) (fresh a.blocks g.0, sound.blocks);
      housed = (made-Housed, All-map objects (λ y h. (Grown-Housed y g h).0) sound.housed);
      apart = (All-map objects (λ y h. (Grown-Housed y g h).1) sound.housed, sound.apart);
    }

  -- If the blocks that the allocator gives share no byte with the earlier ones, and all alignments are positive,
  -- then a run of `construct` keeps the objects apart: no two of them share a byte, and each lies
  -- in a block, which it does not leave.
  pub construct_all-Sound :
      (ts : List Layout) (a : Arena) (objects : List Block)
      → All (λ (t : Layout). 0 < t.alignment) ts
      → Sound objects a
      → Sound (construct_all alloc ts a objects).0 (construct_all alloc ts a objects).1
  unfolding construct_all
  construct_all-Sound [] a objects h sound = sound
  construct_all-Sound (t ∷ ts) a objects h sound =
      let r = construct alloc t a in
      let p = construct-Placed alloc t a h.0 sound.valid in
      construct_all-Sound ts r.1 (made t r.0 ∷ objects) h.1
        (placed-Sound t a r.1 r.0 p objects (split t a p) sound)

pub empty-Sound : Sound [] empty
unfolding AllApart
empty-Sound = record { valid = λ p e. absurd (cc); blocks = tt; housed = tt; apart = tt }

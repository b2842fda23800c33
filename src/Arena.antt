-- ===== src/Arena.antt =====
-- src/Parser/AST/Arena.h: the bump allocator of the nodes. Addresses are numbers; `alloc` stands for
-- `std::make_unique<std::byte[]>`: the address of a new block, from the blocks so far and the size.
-- What the constructor of the node does is left out. Sums of addresses and sizes are taken to stay
-- below the bound of `std::size_t`.
pub mod Runs
pub mod Destruction
mod Witnesses
use pudl.Prelude.{
  ℕ, suc, ◌+◌, ◌-◌, ◌*◌, ◌/◌, ◌%◌, ◌≤◌, ◌<◌, ◌≡◌, refl, ◌⊎◌, inl, inr, Bool, true, false, List, [],
  ◌∷◌, Option, none, some, ltb, leb, if◌then◌else◌, Bool-cases, arith, ◌∙◌,
}
use native.Mathlib.Nat.{div-add-mod, mod-lt}

pub record Block : Type 0 where
  pub base : ℕ
  pub size : ℕ

-- The latest block and the latest destructor come first; `current` is nullptr before the first block.
pub record Arena : Type 0 where
  pub blocks : List Block
  pub current : Option ℕ
  pub remaining : ℕ
  pub destructors : List ℕ

abbrev pub empty : Arena
empty = record { blocks = []; current = none; remaining = 0; destructors = [] }

-- `sizeof`, `alignof` and `std::is_trivially_destructible_v` of a type.
pub record Layout : Type 0 where
  pub size : ℕ
  pub alignment : ℕ
  pub trivial : Bool

abbrev pub block_size : ℕ
block_size = 65536

-- The first multiple of the alignment from the address on.
unfoldable pub align_up : ℕ → ℕ → ℕ
align_up alignment ptr = alignment * ((ptr + (alignment - 1)) / alignment)

-- `std::align`: the new pointer and the space that is left, if the object fits.
unfoldable pub align : Layout → ℕ → ℕ → Option (ℕ × ℕ)
align t ptr space =
    let p = align_up t.alignment ptr in
    if leb (t.size + (p - ptr)) space then some (p, space - (p - ptr)) else none

abbrev pub block_for : ℕ → ℕ
block_for min_size = if ltb block_size min_size then min_size else block_size

module _ (alloc : List Block → ℕ → ℕ) where
  abbrev pub new_block : ℕ → Arena → Block
  new_block min_size a = record {
    base = alloc a.blocks (block_for min_size);
    size = block_for min_size;
  }

  unfoldable pub add_block : ℕ → Arena → Arena
  add_block min_size a = record a {
    blocks = new_block min_size a ∷ a.blocks;
    current = some (new_block min_size a).base;
    remaining = block_for min_size;
  }

  -- The end of `construct`, from the pointer and the space on.
  unfoldable pub place : Layout → Arena → ℕ → ℕ → ℕ × Arena
  place t a ptr space = (
    ptr,
    record a {
      current = some (ptr + t.size);
      remaining = space - t.size;
      destructors = if t.trivial then a.destructors else ptr ∷ a.destructors;
    },
  )

  -- `current == nullptr || std::align(...) == nullptr`, negated.
  abbrev pub try_current : Layout → Option ℕ → ℕ → Option (ℕ × ℕ)
  try_current t none space = none
  try_current t (some ptr) space = align t ptr space

  -- The second `std::align`, whose result is not looked at: where it fails, nothing moves.
  abbrev pub or_unmoved : Option (ℕ × ℕ) → ℕ → ℕ → ℕ × ℕ
  or_unmoved none ptr space = (ptr, space)
  or_unmoved (some p) ptr space = p

  abbrev pub place_in_new : Layout → Arena → ℕ × Arena
  place_in_new t a =
      let min_size = t.size + t.alignment in
      let base = (new_block min_size a).base in
      let p = or_unmoved (align t base (block_for min_size)) base (block_for min_size) in
      place t (add_block min_size a) p.0 p.1

  abbrev pub place_at : Option (ℕ × ℕ) → Layout → Arena → ℕ × Arena
  place_at (some p) t a = place t a p.0 p.1
  place_at none t a = place_in_new t a

  -- `construct`
  unfoldable pub construct : Layout → Arena → ℕ × Arena
  construct t a = place_at (try_current t a.current a.remaining) t a

-- The free space is the end of the latest block.
pub record InBlock (blocks : List Block) (ptr space : ℕ) : Type 0 where
  pub block : Block
  pub others : List Block
  pub is_latest : blocks ≡ block ∷ others
  pub base_le : block.base ≤ ptr
  pub to_end : ptr + space ≡ block.base + block.size

abbrev pub IsValid : Arena → Type 0
IsValid a = (ptr : ℕ) → a.current ≡ some ptr → InBlock a.blocks ptr a.remaining

-- Where an object came to lie in the arena `b`, which was `a` before.
pub record Placed (t : Layout) (a : Arena) (ptr : ℕ) (b : Arena) : Type 0 where
  pub multiple : ℕ
  pub aligned : ptr ≡ t.alignment * multiple
  pub room : ℕ
  pub inside : InBlock b.blocks ptr (t.size + room)
  pub behind : b.current ≡ some (ptr + t.size)
  pub valid : IsValid b
  pub apart :
      ((old : ℕ) × (a.current ≡ some old) × (old ≤ ptr) × (b.blocks ≡ a.blocks))
      ⊎ ((block : Block) × (b.blocks ≡ block ∷ a.blocks))

align_up-bounds :
    (alignment ptr : ℕ)
    → 0 < alignment
    → (ptr ≤ align_up alignment ptr) × (align_up alignment ptr < ptr + alignment)
unfolding align_up
align_up-bounds alignment ptr h =
    let d = div-add-mod (ptr + (alignment - 1)) alignment in
    let m = mod-lt (ptr + (alignment - 1)) h in (omega (arith, d, m, h), omega (arith, d, m, h))

-- What `align` gives: an aligned pointer, and space for the object behind it.
align-fits :
    (t : Layout) (ptr space p rest : ℕ)
    → 0 < t.alignment
    → align t ptr space ≡ some (p, rest)
    → (p ≡ align_up t.alignment ptr) × (p + rest ≡ ptr + space) × (t.size ≤ rest) × (ptr ≤ p)
unfolding align
align-fits t ptr space p rest h e =
    let b = align_up-bounds t.alignment ptr h in ground (arith, b.0, b.1)

-- In a new block the object fits.
align-new :
    (t : Layout) (ptr : ℕ)
    → 0 < t.alignment
    → (rest : ℕ) × (align t ptr (block_for (t.size + t.alignment))
        ≡ some (align_up t.alignment ptr, rest))
unfolding align
align-new t ptr h =
    let b = align_up-bounds t.alignment ptr h in
    let p = align_up t.alignment ptr in
    let fits : leb (t.size + (p - ptr)) (block_for (t.size + t.alignment)) ≡ true =
      ground (arith, b.0, b.1) in
    rw fits (_, refl)

module _ (alloc : List Block → ℕ → ℕ) where
  place-Placed :
      (t : Layout) (a b : Arena) (ptr space : ℕ)
      → InBlock b.blocks ptr space
      → t.size ≤ space
      → ((k : ℕ) × (ptr ≡ t.alignment * k))
      → ((old : ℕ) × (a.current ≡ some old) × (old ≤ ptr) × (b.blocks ≡ a.blocks))
        ⊎ ((block : Block) × (b.blocks ≡ block ∷ a.blocks))
      → Placed t a (place alloc t b ptr space).0 (place alloc t b ptr space).1
  unfolding place
  place-Placed t a b ptr space i fits k apart = record {
    multiple = k.0;
    aligned = k.1;
    room = space - t.size;
    inside = record {
      block = i.block;
      others = i.others;
      is_latest = i.is_latest;
      base_le = i.base_le;
      to_end = omega (arith, i.to_end, fits);
    };
    behind = refl;
    valid = λ p e.
        let q : ptr + t.size ≡ p = cc in
        record {
          block = i.block;
          others = i.others;
          is_latest = i.is_latest;
          base_le = omega (arith, i.base_le, q);
          to_end = omega (arith, i.to_end, fits, q);
        };
    apart = apart;
  }

  align_up_multiple : (alignment ptr : ℕ) → (k : ℕ) × (align_up alignment ptr ≡ alignment * k)
  unfolding align_up
  align_up_multiple alignment ptr = ((ptr + (alignment - 1)) / alignment, refl)

  -- An aligned place in the latest block of `b`.
  place_aligned :
      (t : Layout) (a b : Arena) (ptr space p rest : ℕ)
      → 0 < t.alignment
      → InBlock b.blocks ptr space
      → align t ptr space ≡ some (p, rest)
      → (ptr ≤ p
          → ((old : ℕ) × (a.current ≡ some old) × (old ≤ p) × (b.blocks ≡ a.blocks))
            ⊎ ((block : Block) × (b.blocks ≡ block ∷ a.blocks)))
      → Placed t a (place alloc t b p rest).0 (place alloc t b p rest).1
  place_aligned t a b ptr space p rest h i e apart =
      let f = align-fits t ptr space p rest h e in
      let k = align_up_multiple t.alignment ptr in
      place-Placed t a b p rest
        (record {
          block = i.block;
          others = i.others;
          is_latest = i.is_latest;
          base_le = omega (arith, i.base_le, f.3);
          to_end = omega (arith, i.to_end, f.1);
        })
        f.2 (k.0, f.0 ∙ k.1) (apart f.3)

  in_new-Placed :
      (t : Layout) (a : Arena)
      → 0 < t.alignment
      → Placed t a (place_in_new alloc t a).0 (place_in_new alloc t a).1
  unfolding add_block
  in_new-Placed t a h =
      let min_size = t.size + t.alignment in
      let block = new_block alloc min_size a in
      let n = align-new t block.base h in
      rw (n.1) (
        place_aligned t a (add_block alloc min_size a) block.base block.size
          (align_up t.alignment block.base) n.0 h
          (record {
            block = block;
            others = a.blocks;
            is_latest = refl;
            base_le = omega arith;
            to_end = refl;
          })
          n.1 (λ _. inr (block, refl)))

  -- From an arena whose free space is the end of its latest block, `construct` gives an aligned object
  -- that lies inside the latest block, right in front of the free space, which is again the end of that
  -- block. The object begins behind all that was taken from the block before, or the block is a new one.
  pub construct-Placed :
      (t : Layout) (a : Arena)
      → 0 < t.alignment
      → IsValid a
      → Placed t a (construct alloc t a).0 (construct alloc t a).1
  unfolding construct
  construct-Placed t a h v = placed a.current refl (try_current alloc t a.current a.remaining) refl
    where
      placed :
          (c : Option ℕ)
          → a.current ≡ c
          → (o : Option (ℕ × ℕ)) → try_current alloc t c a.remaining ≡ o
          → Placed t a (place_at alloc o t a).0 (place_at alloc o t a).1
      placed (some old) e (some p) q =
          place_aligned t a a old a.remaining p.0 p.1 h (v old e) q (λ le. inl (old, e, le, refl))
      placed none e (some p) q = absurd (cc)
      placed c e none q = in_new-Placed t a h

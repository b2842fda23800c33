-- ===== src/Arena/Witnesses.antt =====
-- The allocator at a first node and at a second one in the same block.
use pudl.Prelude.{All, true, subst, inr, ◌++◌, ℕ, ◌+◌, ◌≡◌, refl, false, List, [], ◌∷◌, some, arith}
use pudl.Arena.Runs.{Apart, Sound, construct_all, construct_all-Sound, empty-Sound}
use pudl.Arena.Destruction.{destroy, destructible, addresses, destroy-construct_all}
use pudl.Arena.{
  empty, Arena, Block, Layout, block_size, construct, Placed, IsValid, construct-Placed,
}

-- Blocks that lie one behind the other.
abbrev alloc : List Block → ℕ → ℕ
alloc [] size = 4096
alloc (b ∷ blocks) size = b.base + b.size

abbrev node : Layout
node = record { size = 40; alignment = 8; trivial = false }

abbrev started : Arena
started = record {
  blocks = record { base = 4096; size = block_size } ∷ [];
  current = some 4101;
  remaining = 65531;
  destructors = [];
}

started-IsValid : IsValid started
started-IsValid p e = record {
  block = record { base = 4096; size = block_size };
  others = [];
  is_latest = refl;
  base_le = omega (arith, at);
  to_end = omega (arith, at);
}
  where
    at : 4101 ≡ p
    at = cc

construct-Placed_example :
    Placed node started (construct alloc node started).0 (construct alloc node started).1
construct-Placed_example = construct-Placed alloc node started (omega arith) started-IsValid

-- Blocks that lie behind all earlier ones.
abbrev above : List Block → ℕ
above [] = 4096
above (b ∷ blocks) = above blocks + (b.base + b.size)

above-fresh :
    (blocks : List Block) (low size : ℕ)
    → All (Apart (record { base = above blocks + low; size = size })) blocks
above-fresh [] low size = tt
above-fresh (b ∷ blocks) low size = (
  inr (omega arith),
  let e : above blocks + (b.base + b.size + low) ≡ above blocks + (b.base + b.size) + low =
        omega arith in
      subst (λ n. All (Apart (record { base = n; size = size })) blocks) e
        (above-fresh blocks (b.base + b.size + low) size),
)

above-Apart :
    (blocks : List Block) (size : ℕ)
    → All (Apart (record { base = above blocks; size = size })) blocks
above-Apart blocks size =
    let e : above blocks + 0 ≡ above blocks = omega arith in
    subst (λ n. All (Apart (record { base = n; size = size })) blocks) e (above-fresh blocks 0 size)

abbrev flag : Layout
flag = record { size = 3; alignment = 1; trivial = true }

construct_all-Sound_example :
    Sound
      (construct_all (λ bs n. above bs) (flag ∷ node ∷ node ∷ []) empty []).0
      (construct_all (λ bs n. above bs) (flag ∷ node ∷ node ∷ []) empty []).1
construct_all-Sound_example =
    construct_all-Sound (λ bs n. above bs) above-Apart (flag ∷ node ∷ node ∷ []) empty []
      (omega arith) empty-Sound

destroy-construct_all_example :
    destroy (construct_all (λ bs n. above bs) (flag ∷ node ∷ node ∷ []) empty []).1
    ≡ destructible
        (flag ∷ node ∷ node ∷ [])
        (addresses (λ bs n. above bs) (flag ∷ node ∷ node ∷ []) empty)
      ++ []
destroy-construct_all_example =
    destroy-construct_all (λ bs n. above bs) (flag ∷ node ∷ node ∷ []) empty []

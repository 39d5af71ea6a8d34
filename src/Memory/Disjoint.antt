-- ===== src/Memory/Disjoint.antt =====
-- The blocks that are in use never overlap (memory.c).
use cxp.Common.{ℕ, ◌+◌, ◌≤◌, ◌<◌, ◌≡◌, refl, Option, none, some, update}
use cxp.Common.Outcome.{done}
use cxp.Memory.{Memory, nalloc, allocate_mem, release_mem, memory_init}
use cxp.Memory.Blocks.{block_len}
use cxp.Memory.Laid.{Laid, begin-Laid}
use cxp.Memory.Keeping.{released-Laid, allocated-Laid}

-- What has been done with the allocator since it got the region at `base`. The owner tells which blocks
-- are in use, each with its size class; a block is released with the class it was allocated for.
pub data Uses (base : ℕ) : Memory → (ℕ → Option ℕ) → Type 0 where
  begin : (m : Memory) (total : ℕ) → Uses base (memory_init m base total) (λ a. none)
  allocated :
      {m m' : Memory} {owner : ℕ → Option ℕ} (index block : ℕ)
      → Uses base m owner
      → index < nalloc
      → 0 < block_len index
      → allocate_mem m index ≡ done (block, m')
      → Uses base m' (update owner block (some index))
  released :
      {m : Memory} {owner : ℕ → Option ℕ} (index block : ℕ)
      → Uses base m owner
      → owner block ≡ some index
      → Uses base (release_mem m index block) (update owner block none)

Uses-Laid : {base : ℕ} {m : Memory} {owner : ℕ → Option ℕ} → Uses base m owner → Laid base m owner
Uses-Laid (begin m total) = begin-Laid m _ total
Uses-Laid (allocated index block u small pos e) =
    let l = Uses-Laid u in (allocated-Laid _ _ _ _ index block (l.frees index) l refl small pos e).0
Uses-Laid (released index block u own) = released-Laid _ _ _ (Uses-Laid u) index block own

-- After any sequence of allocations and releases, in which each block is released with the class it was
-- allocated for, two different blocks in use do not overlap, and lie between the start of the region and
-- the tail.
pub Uses-disjoint :
    {base : ℕ} {m : Memory} {owner : ℕ → Option ℕ} (a b i j : ℕ)
    → Uses base m owner
    → owner a ≡ some i
    → owner b ≡ some j
    → a < b
    → (base ≤ a) × (a + block_len i ≤ b) × (b + block_len j ≤ m.tail)
Uses-disjoint a b i j u h g lt =
    let l = Uses-Laid u in
    let c = l.used a i h in
    let d = l.used b j g in ((l.within a i c).0, l.after a b i j c d lt, (l.within b j d).1)

-- An allocation that succeeds gives a block that is not in use.
pub Uses-unused :
    {base : ℕ} {m m' : Memory} {owner : ℕ → Option ℕ} (index block : ℕ)
    → Uses base m owner
    → index < nalloc
    → 0 < block_len index
    → allocate_mem m index ≡ done (block, m')
    → owner block ≡ none
Uses-unused index block u small pos e =
    let l = Uses-Laid u in (allocated-Laid _ _ _ _ index block (l.frees index) l refl small pos e).1

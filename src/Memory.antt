-- ===== src/Memory.antt =====
-- The memory allocator (memory.c): size classes with free lists, and a tail that serves what they
-- cannot. Free blocks are chained through their first word, `next`.
pub mod Classes
pub mod Blocks
pub mod Laid
pub mod Keeping
pub mod Disjoint
use cxp.Common.{
  ℕ, zero, suc, ◌+◌, Bool, true, false, Option, none, some, List, [], ◌∷◌, update, if◌then◌else◌,
  leb, ◌==◌, get_or,
}
use cxp.Common.Outcome.{Outcome, done, plotz, no_memory_block, out_of_memory, ◌>>=◌}

-- TMO_INDEX
abbrev pub tmo_index : ℕ
tmo_index = 0

-- NALLOC
abbrev pub nalloc : ℕ
nalloc = 24

-- The block lengths in bytes, with the 0 that ends them.
unfoldable pub procmemlen : List ℕ
procmemlen =
    18 ∷ 32 ∷ 48 ∷ 96 ∷ 128 ∷ 192 ∷ 256 ∷ 384 ∷ 512 ∷ 768 ∷ 1024 ∷ 1536 ∷ 2048 ∷ 3072 ∷ 4096 ∷ 6144
    ∷ 8192 ∷ 10240 ∷ 12288 ∷ 16384 ∷ 24576 ∷ 0 ∷ []

pub record Memory : Type 0 where
  pub next : ℕ → Option ℕ
  pub procmemlist : ℕ → Option ℕ
  pub tail : ℕ
  pub taillen : ℕ
  pub claimed : Bool

-- The loop of `find_mem_index` from index `i` on, and the test behind it.
unfoldable pub find_from : List ℕ → ℕ → ℕ → Outcome ℕ
find_from [] i size = plotz no_memory_block
find_from (len ∷ lens) i size =
    let rest = find_from lens (suc i) size in
    if len == 0 then plotz no_memory_block else (if leb size len then done i else rest)

unfoldable pub find_mem_index : ℕ → Outcome ℕ
unfolding find_from
find_mem_index size = find_from procmemlen 0 size

abbrev pub claim : Memory → Memory
claim m = record m { claimed = true }

abbrev unclaim : Memory → Memory
unclaim m = record m { claimed = false }

-- A block from the tail. (`taillen` is read and never written.)
unfoldable pub from_tail : Memory → ℕ → Outcome (ℕ × Memory)
from_tail m index =
    let len = get_or procmemlen index 0 in
    if leb len m.taillen
    then done (m.tail, record m { tail = m.tail + len })
    else plotz out_of_memory

unfoldable pub allocate_mem : Memory → ℕ → Outcome (ℕ × Memory)
unfolding from_tail
allocate_mem m index =
    let m1 = claim m in
    elim (m1.procmemlist index) [
      | some block ↦
          done (
            block,
            unclaim (record m1 { procmemlist = update m1.procmemlist index (m1.next block) }),
          )
      | none ↦ (do (block, m2) ← from_tail m1 index; done (block, unclaim m2))
    ]

unfoldable pub release_mem : Memory → ℕ → ℕ → Memory
release_mem m index addr =
    let m1 = claim m in
    unclaim (record m1 {
      next = update m1.next addr (m1.procmemlist index);
      procmemlist = update m1.procmemlist index (some addr);
    })

-- `base` is the address that `acquire_memory` returns.
unfoldable pub memory_init : Memory → ℕ → ℕ → Memory
memory_init m base total = record m {
  procmemlist = λ i. (if leb nalloc i then m.procmemlist i else none);
  tail = base;
  taillen = total;
}

-- ===== src/Memory/Blocks.antt =====
-- Blocks come back from the free list, and the tail is never found to be used up.
use cxp.Common.{
  ℕ, zero, suc, ◌+◌, ◌*◌, ◌≤◌, ◌<◌, ◌≡◌, refl, none, some, arith, get_or, false, update,
}
use cxp.Common.Outcome.{Outcome, done, ◌>>=◌}
use cxp.Memory.{Memory, procmemlen, nalloc, from_tail, allocate_mem, release_mem, memory_init}

abbrev pub block_len : ℕ → ℕ
block_len index = get_or procmemlen index 0

-- A released block is the next one allocated of its size, and the free lists and the tail are then
-- as before.
pub release-allocate :
    (m : Memory) (index addr : ℕ)
    → (m' : Memory) × (allocate_mem (release_mem m index addr) index ≡ done (addr, m'))
      × ((i : ℕ) → m'.procmemlist i ≡ m.procmemlist i)
      × (m'.tail ≡ m.tail)
      × (m'.claimed ≡ false)
unfolding allocate_mem release_mem
release-allocate m index addr = (
  record m {
    next = update m.next addr (m.procmemlist index);
    procmemlist = update (update m.procmemlist index (some addr)) index (m.procmemlist index);
    claimed = false;
  },
  ground arith,
  (λ i. ground arith),
  refl,
  refl,
)

-- `n` blocks of one size, one after the other.
unfoldable pub allocate_times : ℕ → Memory → ℕ → Outcome Memory
unfolding allocate_mem
allocate_times zero m index = done m
allocate_times (suc n) m index =
    let rest = λ (m' : Memory). allocate_times n m' index in allocate_mem m index >>= λ r. rest r.1

pub allocate_lem :
    (m : Memory) (index : ℕ)
    → m.procmemlist index ≡ none
    → block_len index ≤ m.taillen
    → allocate_mem m index
      ≡ done (m.tail, record m { tail = m.tail + block_len index; claimed = false })
unfolding allocate_mem from_tail
allocate_lem m index free room = ground arith

-- With no free block of the size, and a first block that fits, every later allocation succeeds too.
allocate_times_lem :
    (n : ℕ) (m : Memory) (index : ℕ)
    → m.procmemlist index ≡ none
    → block_len index ≤ m.taillen
    → (m' : Memory) × (allocate_times n m index ≡ done m')
      × (m'.tail ≡ m.tail + n * block_len index)
unfolding allocate_times
allocate_times_lem zero m index free room = (m, refl, omega arith)
allocate_times_lem (suc n) m index free room =
    let m1 = record m { tail = m.tail + block_len index; claimed = false } in
    let (m', e, t) = allocate_times_lem n m1 index free room in
    (m', rw (allocate_lem m index free room) e, grind arith)

-- After `memory_init` with at least one block's worth of memory, any number of allocations of the
-- size succeeds, however far the blocks reach past the end of the region that was acquired.
pub memory_overrun :
    (m : Memory) (base total index n : ℕ)
    → index < nalloc
    → block_len index ≤ total
    → total < n * block_len index
    → (m' : Memory) × (allocate_times n (memory_init m base total) index ≡ done m')
      × (base + total < m'.tail)
unfolding memory_init
memory_overrun m base total index n small room over =
    let (m', e, t) = allocate_times_lem n (memory_init m base total) index (ground arith) room in
    (m', e, omega arith)

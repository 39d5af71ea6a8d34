-- ===== src/System/Building.antt =====
-- Process records that are built while no block has been freed yet (`build_process` of sched.c).
use cxp.Common.{
  false, ℕ, zero, suc, ◌+◌, ◌%◌, ◌^◌, ◌≤◌, ◌<◌, ◌≡◌, refl, none, arith, update, get_or, length,
  List, [], ◌∷◌,
}
use cxp.Common.Outcome.{done}
use cxp.Machine.{Process, waiting, not_alting}
use cxp.Memory.{Memory, nalloc, procmemlen}
use cxp.Memory.Classes.{find_mem_index-FirstFit}
use cxp.Memory.Blocks.{block_len, allocate_lem}
use cxp.World.{World}
use cxp.Spawn.{build_process}
use cxp.Spawn.Records.{block_len-bound}

-- No block is free, and the allocator counts at least the largest one in its tail.
pub record Unused (m : Memory) : Type 0 where
  pub lists : (i : ℕ) → i < nalloc → m.procmemlist i ≡ none
  pub room : 24576 ≤ m.taillen

-- The record of a process that has not run yet.
abbrev pub built : ℕ → ℕ → ℕ → Process
built index pri pun = record {
  next = none;
  index = index;
  pri = pri;
  pun = pun;
  alt_state = not_alting;
  sched_state = waiting;
}

-- The state after a record has been built in a block of class `index`.
abbrev pub placed : World → ℕ → ℕ → ℕ → World
placed w index pri pun = record w {
  memory = record w.memory { tail = w.memory.tail + block_len index; claimed = false };
  machine = record w.machine { procs = update w.machine.procs w.memory.tail (built index pri pun) };
}

get_or-small : (xs : List ℕ) (k : ℕ) → 0 < get_or xs k 0 → k < length xs
get_or-small [] k h = absurd (omega (arith, h))
get_or-small (x ∷ xs) zero h = omega arith
get_or-small (x ∷ xs) (suc k) h = omega (arith, get_or-small xs k h)

index_small : (k : ℕ) → 0 < get_or procmemlen k 0 → k < nalloc
unfolding procmemlen
index_small k h = omega (arith, get_or-small procmemlen k h)

pub build_process-placed :
    (size : ℕ) (w : World) (stacksize pri pun : ℕ)
    → stacksize + size ≤ 24576
    → Unused w.memory
    → (k : ℕ) × (0 < block_len k)
      × (build_process size w stacksize pri pun ≡ done (w.memory.tail, placed w k pri pun))
      × Unused (placed w k pri pun).memory
unfolding build_process
build_process-placed size w stacksize pri pun h u =
    let (k, e, fit) = find_mem_index-FirstFit (stacksize + size) h in
    let small : (stacksize + size) % 2 ^ 32 ≡ stacksize + size = omega (arith, h) in
    let free = u.lists k (index_small k fit.positive) in
    (
      k,
      fit.positive,
      rw (small, e, allocate_lem w.memory k free (omega (arith, block_len-bound k, u.room))) refl,
      record { lists = u.lists; room = u.room },
    )

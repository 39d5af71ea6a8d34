-- ===== src/Spawn.antt =====
-- Process records (build_process of sched.c) and the parallel constructs that start processes (run.c),
-- up to the parent's `relinquish`. `size` is sizeof(Process); the stack and the context that
-- `make_process` builds belong to the hardware layer.
pub mod Records
pub mod Placing
pub mod Room
pub mod Home
pub mod Children
use cxp.Common.{
  ℕ, suc, ◌+◌, ◌%◌, ◌^◌, Bool, true, false, Option, none, some, update, if◌then◌else◌, ◌==◌, ltb,
  List, [], ◌∷◌, length,
}
use cxp.Common.Outcome.{Outcome, done, plotz, too_many_children, too_many_levels, ◌>>=◌}
use cxp.Priority.{pri_level, pri_levels, pri_procs, assigned}
use cxp.Machine.{Process, Machine, waiting, not_alting, pri_of, pun_of}
use cxp.Memory.{find_mem_index, allocate_mem}
use cxp.Sched.{get_current, prepare_to_wait, enqueue, schedule}
use cxp.World.{World}
use cxp.Interrupts.{ParBarrier, par_barr_init}

-- The sum is passed as an unsigned int.
unfoldable pub build_process : ℕ → World → ℕ → ℕ → ℕ → Outcome (ℕ × World)
unfolding find_mem_index allocate_mem
build_process size w stacksize pri pun = do
  index ← find_mem_index ((stacksize + size) % 2 ^ 32)
  (p, mem) ← allocate_mem w.memory index
  let proc : Process = record {
    next = none;
    index = index;
    pri = pri;
    pun = pun;
    alt_state = not_alting;
    sched_state = waiting;
  }
  done (
    p,
    record w { memory = mem; machine = record w.machine { procs = update w.machine.procs p proc } },
  )

-- `if (pun[i] == parent->pun) enqueue(proc); else schedule(proc);`
unfoldable pub start : Machine → ℕ → ℕ → ℕ → ℕ → Outcome Machine
unfolding enqueue schedule
start m cpu parent pun p =
    if pun == pun_of m parent then done (enqueue m cpu p) else schedule m cpu p

-- The loop over the children: their stack sizes, priorities and units.
unfoldable start_all : ℕ → World → ℕ → ℕ → List (ℕ × ℕ × ℕ) → Outcome World
unfolding build_process start
start_all size w cpu parent [] = done w
start_all size w cpu parent ((stacksize, pri, pun) ∷ rest) =
    build_process size w stacksize pri pun >>= λ r. start r.1.machine cpu parent pun r.0 >>= λ m.
    start_all size (record r.1 { machine = m }) cpu parent rest

-- A child with the next priority of the list.
unfoldable with_pris : List (ℕ × ℕ) → List ℕ → List (ℕ × ℕ × ℕ)
with_pris [] pris = []
with_pris (c ∷ cs) [] = []
with_pris ((stacksize, pun) ∷ cs) (pri ∷ pris) = (stacksize, pri, pun) ∷ with_pris cs pris

unfoldable with_pri : List (ℕ × ℕ) → ℕ → List (ℕ × ℕ × ℕ)
with_pri [] pri = []
with_pri ((stacksize, pun) ∷ cs) pri = (stacksize, pri, pun) ∷ with_pri cs pri

-- `placed_par`
unfoldable pub placed_par : ℕ → World → ℕ → List (ℕ × ℕ) → Outcome (World × ParBarrier)
unfolding par_barr_init prepare_to_wait start_all with_pri
placed_par size w cpu children =
    let parent = get_current w.machine cpu in
    let w1 = record w { machine = prepare_to_wait w.machine parent } in
    start_all size w1 cpu parent (with_pri children (pri_of w.machine parent)) >>= λ w2.
    done (w2, par_barr_init parent (length children))

-- `placed_par_pri`
unfoldable pub placed_par_pri : ℕ → World → ℕ → List (ℕ × ℕ) → Outcome (World × ParBarrier)
unfolding par_barr_init prepare_to_wait start_all with_pris assigned
placed_par_pri size w cpu children =
    let parent = get_current w.machine cpu in
    let pri = pri_of w.machine parent in
    let w1 = record w { machine = prepare_to_wait w.machine parent } in
    if ltb pri_procs (length children)
    then plotz too_many_children
    else (if ltb pri_levels (pri_level pri + 1)
        then plotz too_many_levels
        else (start_all size w1 cpu parent (with_pris children (assigned pri (length children)))
            >>= λ w2. done (w2, par_barr_init parent (length children))))

-- The loop of `par` and `par_pri`, which start all children on the parent's unit.
unfoldable enqueue_all : ℕ → World → ℕ → List (ℕ × ℕ × ℕ) → Outcome World
unfolding build_process enqueue
enqueue_all size w cpu [] = done w
enqueue_all size w cpu ((stacksize, pri, pun) ∷ rest) =
    build_process size w stacksize pri pun >>= λ r.
    enqueue_all size (record r.1 { machine = enqueue r.1.machine cpu r.0 }) cpu rest

unfoldable pub at_home : ℕ → List ℕ → List (ℕ × ℕ)
at_home pun [] = []
at_home pun (stacksize ∷ rest) = (stacksize, pun) ∷ at_home pun rest

unfoldable pub par : ℕ → World → ℕ → List ℕ → Outcome (World × ParBarrier)
unfolding par_barr_init prepare_to_wait enqueue_all with_pri at_home
par size w cpu children =
    let parent = get_current w.machine cpu in
    let home = at_home (pun_of w.machine parent) children in
    let w1 = record w { machine = prepare_to_wait w.machine parent } in
    enqueue_all size w1 cpu (with_pri home (pri_of w.machine parent)) >>= λ w2.
    done (w2, par_barr_init parent (length children))

unfoldable pub par_pri : ℕ → World → ℕ → List ℕ → Outcome (World × ParBarrier)
unfolding par_barr_init prepare_to_wait enqueue_all with_pris assigned at_home
par_pri size w cpu children =
    let parent = get_current w.machine cpu in
    let pri = pri_of w.machine parent in
    let home = at_home (pun_of w.machine parent) children in
    let w1 = record w { machine = prepare_to_wait w.machine parent } in
    if ltb pri_procs (length children)
    then plotz too_many_children
    else (if ltb pri_levels (pri_level pri + 1)
        then plotz too_many_levels
        else (enqueue_all size w1 cpu (with_pris home (assigned pri (length children))) >>= λ w2.
            done (w2, par_barr_init parent (length children))))

-- ===== src/Spawn/Records.antt =====
-- The process records that build_process makes (sched.c).
use cxp.Common.{
  ap, sym, subst, ℕ, zero, suc, ◌%◌, ◌^◌, false, List, [], ◌∷◌, All, ◌+◌, ◌≤◌, ◌≡◌, refl, Option,
  none, some, arith, get_or, update, ==-refl,
}
use cxp.Common.Outcome.{done}
use cxp.Machine.{Process, waiting, not_alting, pri_of, pun_of, next_of}
use cxp.Memory.{Memory, procmemlen, allocate_mem}
use cxp.Memory.Classes.{FirstFit, find_mem_index-FirstFit}
use cxp.Memory.Blocks.{block_len, allocate_lem}
use cxp.World.{World}
use cxp.Spawn.{build_process}

get_or-bound : (b : ℕ) (lens : List ℕ) (k : ℕ) → All (λ l. l ≤ b) lens → get_or lens k 0 ≤ b
get_or-bound b [] k a = omega arith
get_or-bound b (l ∷ ls) zero a = a.0
get_or-bound b (l ∷ ls) (suc k) a = get_or-bound b ls k a.1

pub block_len-bound : (k : ℕ) → block_len k ≤ 24576
unfolding procmemlen
block_len-bound k = get_or-bound 24576 procmemlen k (omega arith)

allocate_total :
    (m : Memory) (index : ℕ) (o : Option ℕ)
    → m.procmemlist index ≡ o
    → block_len index ≤ m.taillen
    → (p : ℕ) × (m' : Memory) × (allocate_mem m index ≡ done (p, m'))
unfolding allocate_mem
allocate_total m index none e h = (
  m.tail,
  record m { tail = m.tail + block_len index; claimed = false },
  allocate_lem m index e h,
)
allocate_total m index (some b) e h = (
  b,
  record m { procmemlist = update m.procmemlist index (m.next b); claimed = false },
  rw (e, allocate_mem) refl,
)

update_at : (f : ℕ → Process) (p : ℕ) (v : Process) → update f p v p ≡ v
update_at f p v = rw (==-refl p) refl

-- What a new process record holds, in a block of the smallest class for the record and its stack.
pub record Built (w w' : World) (size stacksize pri pun p : ℕ) : Type 0 where
  pub class : FirstFit procmemlen (stacksize + size) (w'.machine.procs p).index
  pub has_pri : pri_of w'.machine p ≡ pri
  pub has_pun : pun_of w'.machine p ≡ pun
  pub unlinked : next_of w'.machine p ≡ none
  pub waits : (w'.machine.procs p).sched_state ≡ waiting
  pub queues : w'.machine.rdy_ques ≡ w.machine.rdy_ques

-- If a process record with its stack takes at most 24576 bytes, and the allocator counts at least that
-- many bytes in its tail, `build_process` gives a record in a block of the smallest class that is large
-- enough, with the priority and the unit asked for, which no ready queue links yet.
pub build_process-Built :
    (size : ℕ) (w : World) (stacksize pri pun : ℕ)
    → stacksize + size ≤ 24576
    → 24576 ≤ w.memory.taillen
    → (p : ℕ) × (w' : World) × (build_process size w stacksize pri pun ≡ done (p, w'))
      × Built w w' size stacksize pri pun p
unfolding build_process
build_process-Built size w stacksize pri pun h room =
    let (k, e, fit) = find_mem_index-FirstFit (stacksize + size) h in
    let (p, mem, q) =
      allocate_total w.memory k (w.memory.procmemlist k) refl
        (omega (arith, block_len-bound k, room)) in
    let small : (stacksize + size) % 2 ^ 32 ≡ stacksize + size = omega (arith, h) in
    let proc : Process = record {
      next = none;
      index = k;
      pri = pri;
      pun = pun;
      alt_state = not_alting;
      sched_state = waiting;
    } in
    let w' = record w {
      memory = mem;
      machine = record w.machine { procs = update w.machine.procs p proc };
    } in
    let here = update_at w.machine.procs p proc in
    (
      p,
      w',
      rw (small, e, q) refl,
      record {
        class =
            subst (λ (x : Process). FirstFit procmemlen (stacksize + size) x.index) (sym here) fit;
        has_pri = ap (λ (x : Process). x.pri) here;
        has_pun = ap (λ (x : Process). x.pun) here;
        unlinked = ap (λ (x : Process). x.next) here;
        waits = ap (λ (x : Process). x.sched_state) here;
        queues = refl;
      },
    )

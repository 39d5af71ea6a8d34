-- ===== src/Ready.antt =====
-- The ready queues of sched.c: linked lists through the process records, one for each unit.
pub mod Order
pub mod Queues
use cxp.Common.{
  ℕ, zero, suc, ◌≡◌, refl, Bool, true, false, Option, none, some, arith, update, if◌then◌else◌,
  ◌==◌, fun_ext, length, take_while, drop_while, List, ◌∷◌, [], ◌++◌, first, last_or, ◌<◌,
}
use cxp.Common.Chain.{walk, list_fuel, link, link_head}
use cxp.Machine.{Process, Machine, next_of, pri_of, pun_of}
use cxp.Priority.{pri_le}

-- `p->next = v;`
unfoldable pub set_next : (ℕ → Process) → ℕ → Option ℕ → ℕ → Process
set_next procs p v = update procs p (record (procs p) { next = v })

-- The four cases in which `enqueue0` links `p` in behind `prev` and before `curr`.
unfoldable pub insert : Machine → ℕ → Option ℕ → Option ℕ → Machine
unfolding set_next
insert m p none none = record m {
  rdy_ques = update m.rdy_ques (pun_of m p) (some p);
  procs = set_next m.procs p none;
}
insert m p none (some c) = record m {
  rdy_ques = update m.rdy_ques (pun_of m p) (some p);
  procs = set_next m.procs p (some c);
}
insert m p (some r) (some c) = record m {
  procs = set_next (set_next m.procs r (some p)) p (some c);
}
insert m p (some r) none = record m { procs = set_next (set_next m.procs r (some p)) p none }

-- The place of `p` in its queue: behind all entries of at least its priority.
unfoldable pub find_place : Machine → ℕ → Option ℕ × Option ℕ
unfolding walk list_fuel
find_place m p =
    walk list_fuel (λ q. pri_le (pri_of m p) (pri_of m q)) (next_of m) none
      (m.rdy_ques (pun_of m p))

unfoldable pub enqueue0 : Machine → ℕ → Machine
unfolding find_place insert
enqueue0 m p = let (prev, curr) = find_place m p in insert m p prev curr

-- `proc = que->head; if (proc != NULL) que->head = proc->next;`
unfoldable pub pop : Machine → ℕ → Option ℕ × Machine
pop m pun = elim (m.rdy_ques pun) [
  | none ↦ (none, m)
  | some p ↦ (some p, record m { rdy_ques = update m.rdy_ques pun (next_of m p) })
]

-- ===== src/Ipq.antt =====
-- The interprocessor queues (ipq.m): circular queues of process records, one for each unit.
pub mod Fifo
pub mod Steps
pub mod Invariant
pub mod Adding
pub mod Removing
pub mod Order
pub mod Overrun
use cxp.Common.{ℕ, ◌+◌, Bool, true, false, Option, none, some, update, if◌then◌else◌, ◌==◌}
use cxp.Common.Outcome.{Outcome, done, spins}
use cxp.Machine.{IpQueue, Machine}

-- QSIZE
abbrev pub qsize : ℕ
qsize = 5

-- The slot after `s`, cyclically.
unfoldable pub next_slot : ℕ → ℕ
next_slot s = if s == 4 then 0 else s + 1

abbrev pub set_ipq : Machine → ℕ → IpQueue → Machine
set_ipq m pun q = record m { ip_ques = update m.ip_ques pun q }

-- An addition of `p` to one queue. It spins while the queue is full.
unfoldable pub add : IpQueue → ℕ → Outcome IpQueue
unfolding next_slot
add q p =
    if q.next_rem == next_slot q.next_add
    then spins
    else done (record q { next_add = next_slot q.next_add; que = update q.que q.next_add (some p) })

-- A removal from one queue: NULL if it is empty, or if its first slot is not yet written.
unfoldable pub remove : IpQueue → Option ℕ × IpQueue
unfolding next_slot
remove q = if q.next_add == q.next_rem then (none, q) else elim (q.que q.next_rem) [
  | none ↦ (none, q)
  | some p ↦
      (some p, record q { next_rem = next_slot q.next_rem; que = update q.que q.next_rem none })
]

-- `ipq_add`: the entry is stored, and the unit is sent an interrupt.
unfoldable pub ipq_add : Machine → ℕ → ℕ → Outcome Machine
unfolding add
ipq_add m pun p = elim (add (m.ip_ques pun) p) [
  | done q ↦ done (record (set_ipq m pun q) { ipi = update m.ipi pun (m.ipi pun + 1) })
  | _ ↦ spins
]

-- `ipq_remove` on unit `cpu`.
unfoldable pub ipq_remove : Machine → ℕ → Option ℕ × Machine
unfolding remove
ipq_remove m cpu = let (p, q) = remove (m.ip_ques cpu) in (p, set_ipq m cpu q)

-- ===== src/Interrupts.antt =====
-- Interrupts that carry a signal to a process (interrupt.c), and the barrier at which the children of
-- a parallel construct meet (par_barrier.m).
pub mod Signals
pub mod Barriers
use cxp.Common.{ℕ, Option, none, some, update, if◌then◌else◌, ltb, ◌&&◌}
use cxp.Common.Int.{ℤ, pos, ◌-ℤ◌, eqb_ℤ}
use cxp.Common.Outcome.{Outcome, done, ◌>>=◌}
use cxp.Machine.{Machine, ready, pun_of}
use cxp.Ready.{enqueue0}
use cxp.Sched.{
  get_current, prepare_to_wait, set_sched_state, relinquish, schedule, schedule_from_interrupt,
}
use cxp.Comm.{is_waiting}

-- `interrupts[pun][intr].waiting`
abbrev pub Receivers : Type 0
Receivers = ℕ → ℕ → Option ℕ

abbrev pub set_receiver : Receivers → ℕ → ℕ → Option ℕ → Receivers
set_receiver s k n v = update s k (update (s k) n v)

-- For `npun` units and `nintr` interrupts.
unfoldable pub interrupt_init : ℕ → ℕ → Receivers → Receivers
interrupt_init npun nintr s k n = if ltb k npun && ltb n nintr then none else s k n

-- `receive`, up to its `relinquish`.
unfoldable pub receive_begin : Machine → Receivers → ℕ → ℕ → Machine × Receivers
unfolding prepare_to_wait
receive_begin m s cpu intr_no =
    let curr = get_current m cpu in
    (prepare_to_wait m curr, set_receiver s (pun_of m curr) intr_no (some curr))

unfoldable pub receive : Machine → Receivers → ℕ → ℕ → Outcome (Machine × Receivers)
unfolding receive_begin relinquish
receive m s cpu intr_no =
    let (m1, s1) = receive_begin m s cpu intr_no in relinquish m1 cpu >>= λ m2. done (m2, s1)

-- `receiver` is made ready; if it was waiting, it goes to the ready queue and may preempt.
unfoldable pub resume_receiver : Machine → ℕ → ℕ → Outcome Machine
unfolding enqueue0 schedule_from_interrupt
resume_receiver m cpu receiver =
    let m1 = set_sched_state m receiver ready in
    if is_waiting (m.procs receiver).sched_state
    then schedule_from_interrupt (enqueue0 m1 receiver) cpu
    else done m1

unfoldable pub transmit : Machine → Receivers → ℕ → ℕ → Outcome (Option ℕ × Machine × Receivers)
unfolding resume_receiver
transmit m s cpu intr_no =
    let pun = pun_of m (get_current m cpu) in
    let s1 = set_receiver s pun intr_no none in
    elim (s pun intr_no) [
      | none ↦ done (none, m, s1)
      | some receiver ↦ resume_receiver m cpu receiver >>= λ m1. done (some receiver, m1, s1)
    ]

pub record ParBarrier : Type 0 where
  pub parent : ℕ
  pub children : ℤ

unfoldable pub par_barr_init : ℕ → ℕ → ParBarrier
par_barr_init parent nc = record { parent = parent; children = pos nc }

unfoldable pub par_barr_sync : Machine → ParBarrier → ℕ → Outcome (Machine × ParBarrier)
unfolding schedule
par_barr_sync m b cpu =
    let b1 = record b { children = b.children -ℤ pos 1 } in
    if eqb_ℤ b.children (pos 1)
    then (do m1 ← schedule m cpu b.parent; done (m1, b1))
    else done (m, b1)

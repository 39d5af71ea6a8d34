-- ===== src/Sched.antt =====
-- The scheduler (sched.c). `cpu` is the unit that executes the call, the value of `getcpu()`.
-- A context switch returns only when the process that lost the unit gets it back, so each function
-- gives the state in which the process that now runs goes on.
pub mod View
pub mod Preempt
pub mod Inbox
pub mod Take
pub mod Switch
pub mod Wake
pub mod Interrupted
pub mod Consuming
pub mod Replacing
pub mod Yielding
use cxp.Common.{
  ℕ, zero, suc, Bool, true, false, Option, none, some, update, if◌then◌else◌, ◌==◌, not, ◌&&◌,
}
use cxp.Common.Outcome.{Outcome, done, null_read, plotz, wrong_cpu, ◌>>=◌}
use cxp.Machine.{
  Process, Machine, SchedState, ready, preparing_to_wait, waiting, pri_of, pun_of, next_of,
}
use cxp.Priority.{pri_le, pri_gt}
use cxp.Ready.{enqueue0, pop}
use cxp.Ipq.{qsize, ipq_add, ipq_remove}

-- disable(), enable()
unfoldable pub disable : Machine → ℕ → Machine
disable m cpu = record m { enabled = update m.enabled cpu false }

unfoldable pub enable : Machine → ℕ → Machine
enable m cpu = record m { enabled = update m.enabled cpu true }

abbrev pub get_current : Machine → ℕ → ℕ
get_current m cpu = m.current cpu

-- `plotz("set_current non-matching cpu#")` on a process of another unit.
unfoldable pub set_current : Machine → ℕ → ℕ → Outcome Machine
set_current m cpu p =
    if pun_of m p == cpu
    then done (record m {
      current = update m.current cpu p;
      current_pri = update m.current_pri cpu (pri_of m p);
    })
    else plotz wrong_cpu

-- The hardware loads the context of `new`.
unfoldable pub switch_context : Machine → ℕ → ℕ → Machine
switch_context m cpu new = record m { running = update m.running cpu new }

abbrev pub set_sched_state : Machine → ℕ → SchedState → Machine
set_sched_state m p s = record m {
  procs = update m.procs p (record (m.procs p) { sched_state = s });
}

-- PREPARE_TO_WAIT
unfoldable pub prepare_to_wait : Machine → ℕ → Machine
prepare_to_wait m p = set_sched_state m p preparing_to_wait

unfoldable pub enqueue : Machine → ℕ → ℕ → Machine
unfolding disable enable
enqueue m cpu p = enable (enqueue0 (disable m cpu) p) cpu

-- `proc = ipq_remove(); while (proc != NULL) { enqueue0(proc); proc = ipq_remove(); }`
unfoldable pub drain : ℕ → Machine → ℕ → Machine
drain zero m cpu = m
drain (suc f) m cpu = elim (ipq_remove m cpu).0 [
  | none ↦ (ipq_remove m cpu).1
  | some p ↦ drain f (enqueue0 (ipq_remove m cpu).1 p) cpu
]

-- A queue holds at most four entries.
unfoldable pub take : Machine → ℕ → ℕ → Option ℕ × Machine
unfolding drain pop
take m cpu pun = pop (drain qsize m cpu) pun

-- The head, unless it is the only entry.
unfoldable pub pop1 : Machine → ℕ → Option ℕ × Machine
pop1 m pun = elim (m.rdy_ques pun) [
  | none ↦ (none, m)
  | some p ↦ elim (next_of m p) [
    | none ↦ (none, m)
    | some q ↦ (some p, record m { rdy_ques = update m.rdy_ques pun (some q) })
  ]
]

unfoldable pub take1 : Machine → ℕ → ℕ → Option ℕ × Machine
unfolding drain pop1
take1 m cpu pun = pop1 (drain qsize m cpu) pun

-- Whether `schedule0` hands the unit to `p` at once.
abbrev preempts : Machine → ℕ → ℕ → Bool
preempts m cpu p = pun_of m p == cpu && not (pri_le (pri_of m p) (pri_of m (get_current m cpu)))

unfoldable pub schedule0 : Machine → ℕ → ℕ → Outcome Machine
unfolding set_current switch_context ipq_add
schedule0 m cpu p =
    let curr = get_current m cpu in
    if pun_of m p == cpu
    then (if pri_le (pri_of m p) (pri_of m curr)
        then done (enqueue0 m p)
        else (do m1 ← set_current m cpu p; done (switch_context (enqueue0 m1 curr) cpu p)))
    else ipq_add m (pun_of m p) p

unfoldable pub schedule : Machine → ℕ → ℕ → Outcome Machine
unfolding schedule0 disable enable
schedule m cpu p = do m1 ← schedule0 (disable m cpu) cpu p; done (enable m1 cpu)

-- `set_current(newproc)` reads a field of its argument.
unfoldable pub dispatch : Option ℕ × Machine → ℕ → Outcome Machine
unfolding set_current switch_context
dispatch (none, m) cpu = null_read
dispatch (some p, m) cpu = do m1 ← set_current m cpu p; done (switch_context m1 cpu p)

unfoldable pub relinquish_unconditional : Machine → ℕ → Outcome Machine
unfolding dispatch take disable enable
relinquish_unconditional m cpu = do
  m1 ← dispatch (take (disable m cpu) cpu (pun_of m (get_current m cpu))) cpu
  done (enable m1 cpu)

abbrev is_preparing : SchedState → Bool
is_preparing preparing_to_wait = true
is_preparing ready = false
is_preparing waiting = false

-- The compare-exchange from "preparing to wait" to "waiting", and the switch if it succeeds.
unfoldable pub relinquish : Machine → ℕ → Outcome Machine
unfolding relinquish_unconditional
relinquish m cpu =
    let old = get_current m cpu in
    if is_preparing (m.procs old).sched_state
    then relinquish_unconditional (set_sched_state m old waiting) cpu
    else done m

-- `yield` keeps the unit if no process but the idle one is ready.
unfoldable pub yield_to : ℕ → Option ℕ × Machine → ℕ → Outcome Machine
unfolding set_current switch_context
yield_to old (none, m) cpu = done m
yield_to old (some p, m) cpu = do
  m1 ← set_current m cpu p
  done (switch_context (enqueue0 m1 old) cpu p)

unfoldable pub yield : Machine → ℕ → Outcome Machine
unfolding yield_to take1 disable enable
yield m cpu = do
  m1 ← yield_to (get_current m cpu) (take1 (disable m cpu) cpu (pun_of m (get_current m cpu))) cpu
  done (enable m1 cpu)

-- Preemption at the end of an interrupt handler.
unfoldable pub preempt_by : ℕ → Option ℕ × Machine → ℕ → Outcome Machine
unfolding set_current switch_context
preempt_by curr (none, m) cpu = null_read
preempt_by curr (some p, m) cpu = do
  m1 ← set_current (enqueue0 m curr) cpu p
  done (switch_context m1 cpu p)

unfoldable pub schedule_from_interrupt : Machine → ℕ → Outcome Machine
unfolding preempt_by take
schedule_from_interrupt m cpu =
    let curr = get_current m cpu in
    let pun = pun_of m curr in
    elim (m.rdy_ques pun) [
      | none ↦ done m
      | some head ↦
          if pri_gt (pri_of m head) (pri_of m curr)
          then preempt_by curr (take m cpu pun) cpu
          else done m
    ]

-- As `schedule0` for a process of the unit, without the interprocessor queue.
unfoldable pub schedule_from_interrupt_single : Machine → ℕ → ℕ → Outcome Machine
unfolding set_current switch_context
schedule_from_interrupt_single m cpu p =
    let curr = get_current m cpu in
    if pri_le (pri_of m p) (pri_of m curr)
    then done (enqueue0 m p)
    else (do m1 ← set_current m cpu p; done (switch_context (enqueue0 m1 curr) cpu p))

-- The loop of the interprocessor interrupt's handler. Once `schedule0` has handed the unit over,
-- the rest of the handler belongs to the process that was interrupted.
unfoldable consume : ℕ → Machine → ℕ → Outcome Machine
unfolding schedule0 schedule_from_interrupt
consume zero m cpu = done m
consume (suc f) m cpu = elim (ipq_remove m cpu).0 [
  | none ↦ schedule_from_interrupt (ipq_remove m cpu).1 cpu
  | some p ↦
      let m1 = (ipq_remove m cpu).1 in
      let rest = λ (m2 : Machine). (if preempts m1 cpu p then done m2 else consume f m2 cpu) in
      schedule0 m1 cpu p >>= rest
]

unfoldable pub handle_interprocessor_interrupt : Machine → ℕ → Outcome Machine
unfolding consume
handle_interprocessor_interrupt m cpu = consume qsize m cpu

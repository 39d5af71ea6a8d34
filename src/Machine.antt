-- ===== src/Machine.antt =====
-- The state that the scheduler keeps (sched.h, sched.c, ipq.m). A pointer to a process record is a
-- number, NULL is `none`; a processing unit ("pun") is a number.
use cxp.Common.{ℕ, Bool, Option}

-- PROC_READY, PROC_PREPARING_TO_WAIT, PROC_WAITING
pub data SchedState : Type 0 where
  ready preparing_to_wait waiting : SchedState

-- ALT_NONE, ALT_ENABLING, ALT_WAITING, ALT_READY
pub data AltState : Type 0 where
  not_alting enabling alt_waiting alt_ready : AltState

-- The process record. Its stack and saved context belong to the hardware layer.
pub record Process : Type 0 where
  pub next : Option ℕ
  pub index : ℕ
  pub pri : ℕ
  pub pun : ℕ
  pub alt_state : AltState
  pub sched_state : SchedState

-- An interprocessor queue; a pointer into `que` is the slot's index.
pub record IpQueue : Type 0 where
  pub next_add : ℕ
  pub next_rem : ℕ
  pub que : ℕ → Option ℕ

-- `current` is set by `set_current`; `running` is the process whose context the unit executes, which
-- the context switches change. `ipi` counts the interprocessor interrupts sent to a unit.
pub record Machine : Type 0 where
  pub procs : ℕ → Process
  pub rdy_ques : ℕ → Option ℕ
  pub ip_ques : ℕ → IpQueue
  pub current : ℕ → ℕ
  pub current_pri : ℕ → ℕ
  pub running : ℕ → ℕ
  pub enabled : ℕ → Bool
  pub ipi : ℕ → ℕ

-- The links of the process records, and other fields, as functions of the address.
abbrev pub next_of : Machine → ℕ → Option ℕ
next_of m q = (m.procs q).next

abbrev pub pri_of : Machine → ℕ → ℕ
pri_of m q = (m.procs q).pri

abbrev pub pun_of : Machine → ℕ → ℕ
pun_of m q = (m.procs q).pun

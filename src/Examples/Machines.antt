-- ===== src/Examples/Machines.antt =====
-- Two units. On unit 0 process 1 runs and the idle process 9 is ready; process 2 waits. On unit 1
-- process 5 runs.
use cxp.Ipq.Fifo.{Holds}
use cxp.Sched.Inbox.{Inbox}
use cxp.Common.{
  zero, suc, ◌+◌, ◌%◌, ◌<◌, ◌≡◌, get_elem?, ℕ, refl, Bool, true, none, some, [], ◌∷◌, if◌then◌else◌,
  ◌==◌, arith,
}
use cxp.Common.Chain.{list_fuel}
use cxp.Machine.{Process, Machine, IpQueue, SchedState, ready, waiting, not_alting}
use cxp.Priority.{idle_pri}
use cxp.World.{World}
use cxp.Common.Int.{pos}
use cxp.Memory.{Memory}
use cxp.Timer.{Timers, tmo_alting}
use cxp.Timer.Queue.{Timeouts}
use cxp.Ready.Order.{Ready}
use cxp.Sched.View.{Cpu}

abbrev pub process : ℕ → ℕ → SchedState → Process
process pri pun s = record {
  next = none;
  index = 3;
  pri = pri;
  pun = pun;
  alt_state = not_alting;
  sched_state = s;
}

abbrev pub procs : ℕ → Process
procs q =
    if q == 9
    then process idle_pri 0 waiting
    else (if q == 2
        then process 64 0 waiting
        else (if q == 5 then process 512 1 ready else process 512 0 ready))

abbrev pub empty_queue : IpQueue
empty_queue = record { next_add = 3; next_rem = 3; que = λ s. none }

abbrev one_entry : IpQueue
one_entry = record { next_add = 0; next_rem = 4; que = λ s. (if s == 4 then some 2 else none) }

abbrev pub machine : Machine
machine = record {
  procs = procs;
  rdy_ques = λ k. (if k == 0 then some 9 else none);
  ip_ques = λ k. (if k == 0 then one_entry else empty_queue);
  current = λ k. (if k == 0 then 1 else 5);
  current_pri = λ k. 512;
  running = λ k. (if k == 0 then 1 else 5);
  enabled = λ k. true;
  ipi = λ k. 0;
}

-- Block 900 of the timeout descriptors' class is free.
abbrev pub memory : Memory
memory = record {
  next = λ a. none;
  procmemlist = λ i. (if i == 0 then some 900 else none);
  tail = 1000;
  taillen = 4096;
  claimed = Bool.false;
}

-- Unit 0's timeout queue holds descriptor 800, of process 2 for time 50, and 850, of process 7 for
-- time 60.
abbrev pub timers : Timers
timers = record {
  descs = λ d.
      (if d == 800
        then record { time = pos 50; proc = 2; next = some 850; kind = tmo_alting }
        else record { time = pos 60; proc = 7; next = none; kind = tmo_alting });
  time_que = λ k. (if k == 0 then some 800 else none);
  current_time = pos 0;
  armed = λ k. 20;
}

-- Channel 0 is free; in channel 1 process 2 stands with a buffer at byte 40.
abbrev pub world : World
world = record {
  machine = machine;
  chans = λ c.
      (if c == 0
        then record { claimed = Bool.false; waiting = none; buf = none }
        else record { claimed = Bool.false; waiting = some 2; buf = some 40 });
  bytes = λ a. a;
  memory = memory;
  timers = timers;
}

pub machine-Ready : Ready machine 0 (9 ∷ [])
unfolding list_fuel
machine-Ready = record {
  chain = (refl, refl);
  distinct = (tt, tt);
  at = (refl, tt);
  sorted = (tt, tt);
  short = omega arith;
}

pub machine-Cpu : Cpu machine 0 (9 ∷ [])
machine-Cpu = record {
  queue = machine-Ready;
  home = refl;
  away = ((λ e. absurd (omega arith)), tt);
  top = (omega arith, tt);
  runs = refl;
  known = refl;
}

pub timers-Timeouts : Timeouts timers 0 (800 ∷ 850 ∷ [])
unfolding list_fuel
timers-Timeouts = record {
  chain = (refl, (refl, refl));
  distinct = (((λ e. absurd (omega (arith, e))), tt), (tt, tt));
  order = ((omega arith, tt), (tt, tt));
  short = omega arith;
}

one_entry-slot :
    (i : ℕ) → i < 5 → one_entry.que ((one_entry.next_rem + i) % 5) ≡ get_elem? (2 ∷ []) i
one_entry-slot zero h = refl
one_entry-slot (suc i) h = ground arith

one_entry-Holds : Holds one_entry (2 ∷ [])
one_entry-Holds = record {
  rem = omega arith;
  room = omega arith;
  end = refl;
  slot = one_entry-slot;
}

pub machine-Inbox : Inbox machine 0 (2 ∷ []) (9 ∷ [])
machine-Inbox = record {
  holds = one_entry-Holds;
  at = (refl, tt);
  distinct = (tt, tt);
  apart = ((omega arith), tt);
}

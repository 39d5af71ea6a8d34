-- ===== src/Lib.antt =====
-- CXP, a small runtime executive after CSP: processes with preemptive priorities on several
-- processing units that share memory, synchronous channels, alternation.
--
-- How the parts interact. A process is a record in memory; the scheduler (sched.c) keeps for each
-- unit the current process and a queue of ready ones, linked through the records. A unit that makes
-- a process of another unit ready posts it to that unit's interprocessor queue (ipq.m) and sends an
-- interrupt. Channels (comm.c) and alternations (alt.c) make a process wait in two steps: it
-- announces that it prepares to wait, lets the channel go, and then tries to go to the waiting state,
-- which fails if its partner came in between.
--
-- The files, and what they model.
--   Common      lists, maps, linked lists in a store, and the outcomes of a call
--   Priority    the priority macros of sched.h, and the loop of par_pri in run.c
--   Machine     the process record and the scheduler's state (sched.h, sched.c, ipq.m)
--   Ready       enqueue0 of sched.c on linked records
--   Ipq         ipq_init, ipq_add and ipq_remove of ipq.m, as calls and as atomic accesses
--   Mutex       the mutex (mutex.c)
--   Trace       the trace buffer (dbg.c)
--   Sched       take, take1, schedule0, schedule, relinquish, yield and the handlers of sched.c
--   World       channels and the memory that is copied (comm.h)
--   Comm        in, out, try_in, chan_pending, enable_channel, disable_channel of comm.c, and
--               freeProcessMaybe of alt.c
--   Memory      the allocator (memory.c)
--   Timer       the timeout queues (timer.c) and set_timer_single (hardware.c)
--   Alarm       After, the timeout guards and the timers' interrupts (timer.c)
--   Alt         priSelect and fairSelect (alt.c)
--   Interrupts  receive and transmit (interrupt.c), the barrier (par_barrier.m)
--   Hardware    signals, masks, timers and the barrier of the units (hardware.c)
--   Context     contexts and stacks (hardware.c), make_process (sched.c)
--   Spawn       build_process (sched.c), par, par_pri, placed_par, placed_par_pri (run.c)
--   System      sched_init, initialize, handle_interrupt, terminate (sched.c), activate_processor
--               (hardware.c), the end of run_in_par (run.c)
--   Programs    some of the programs under examples/: rings of every size as communications, and
--               runs of commun.c, commun-mp.c, yield.c, intr.c, after.c and alttime0.c on the whole
--               model
--   Examples    concrete machines, instances of the theorems and tests
--
-- How the state corresponds to the code. A pointer is a number and NULL is `none`. `Machine` holds
-- the static arrays of sched.c and ipq.m as functions of the unit, and the process records as a
-- function of the address. `cpu` is the value of getcpu(). `Outcome` tells a call that is done from
-- one that spins, reads a field of NULL or ends the program by plotz. A context switch returns only
-- when the process has the unit again, so a function that switches gives the state in which the
-- process that now runs goes on. `in_begin` and `out_begin` are `in` and `out` up to their call of
-- relinquish, which `finish` makes, so that another unit's call can stand between the two.
--
-- `Contexts` holds what switch_context saves and loads; `Machine` only tells which process a unit runs.
--
-- A time is an integer `ℤ`, and what the clock shows is an argument, one for each reading.
--
-- Bounds and fuel. The walk along a linked list runs on fuel `list_fuel`, 2 ^ 32, which is more than
-- there are addresses; the theorems assume only that the list is shorter. The loop of take runs
-- `qsize` rounds, and an interprocessor queue holds at most four entries.
--
-- The rounds of claim_mutex run on fuel, and one round more than the failed exchanges divided by five is
-- enough. The loops of display need two rounds, and a string in the trace buffer ends inside it.
--
-- What the C library does is an argument or a hypothesis: the text that it formats for the trace, and
-- that timer_settime accepts a time in range and timer_gettime returns it.
--
-- Not modelled. The code that runs inside a context, and the threads that stand for units; the
-- critical section under a channel's mutex is one step, which ends with the mutex released; memory
-- orders weaker than sequential consistency; the wrap-around of 64-bit times; that a free block's
-- link lies over the first word of what was in the block; the interrupts that come between the steps
-- of finish_termination; the setting of the elapsed-time timer at the start of the first unit; the
-- other demonstration programs under examples/, which are clients of the library.
pub mod Common
pub mod Machine
pub mod Priority
pub mod Ready
pub mod Ipq
pub mod Sched
pub mod World
pub mod Comm
pub mod Alarm
pub mod Alt
pub mod Context
pub mod Hardware
pub mod Interrupts
pub mod Memory
pub mod Mutex
pub mod Programs
pub mod Spawn
pub mod System
pub mod Timer
pub mod Trace
pub mod Examples

-- ===== src/Alarm.antt =====
-- Waiting for a time (timer.c): After, the timeout guards of an alternation, and the timers'
-- interrupts, on the whole state. `now` and `later` are what successive calls of `GetCurrentTime`
-- return. A descriptor is a block of the allocator or a variable of `After`; a block's free link,
-- which lies over the descriptor's first word, is kept apart from it.
pub mod Guards
pub mod Expiry
pub mod Waking
pub mod Freeing
pub mod Handler
use cxp.Common.{
  ℕ, zero, suc, ltb, Bool, true, false, Option, none, some, update, if◌then◌else◌, ◌==◌, is_some,
}
use cxp.Common.Int.{ℤ, ◌+ℤ◌, ◌-ℤ◌, leb_ℤ, ltb_ℤ}
use cxp.Common.Chain.{list_fuel}
use cxp.Common.Outcome.{Outcome, done, plotz, bad_timeout_type, ◌>>=◌}
use cxp.Machine.{Machine, ready, enabling, alt_waiting, alt_ready, pun_of}
use cxp.Ready.{enqueue0}
use cxp.Sched.{
  disable, enable, get_current, prepare_to_wait, set_sched_state, schedule_from_interrupt,
}
use cxp.Memory.{Memory, tmo_index, allocate_mem, release_mem}
use cxp.Timer.{
  TimeoutDesc, Timers, tmo_after, tmo_alting, tick, link_of, time_of, proc_of, arm, insert_in_queue,
  remove_from_queue,
}
use cxp.World.{World}
use cxp.Comm.{Next, returns, waits, is_waiting, same_alt, alt_cas, finish}

abbrev set_desc : World → ℕ → TimeoutDesc → World
set_desc w d x = record w { timers = record w.timers { descs = update w.timers.descs d x } }

-- `After`, up to its `relinquish`; `d` is the address of its local descriptor.
unfoldable after_begin : World → ℕ → ℕ → ℤ → ℤ → ℤ → World × Next
unfolding prepare_to_wait insert_in_queue disable enable
after_begin w cpu d time now later =
    let proc = get_current w.machine cpu in
    let w1 = set_desc w d (record { time = time; proc = proc; next = none; kind = tmo_after }) in
    if ltb_ℤ now time
    then (
      record w1 {
        machine = enable (disable (prepare_to_wait w1.machine proc) cpu) cpu;
        timers = insert_in_queue w1.timers cpu cpu d later;
      },
      waits,
    )
    else (w, returns)

-- `After`
unfoldable pub after : World → ℕ → ℕ → ℤ → ℤ → ℤ → Outcome (World × Next)
unfolding after_begin finish
after w cpu d time now later =
    finish cpu (get_current w.machine cpu) (after_begin w cpu d time now later)

abbrev pub timeout_ready : ℤ → ℤ → Bool
timeout_ready time now = leb_ℤ time now

unfoldable pub enable_timeout : World → ℕ → ℤ → ℕ → ℤ → ℤ → Outcome (World × Bool)
unfolding allocate_mem insert_in_queue disable enable
enable_timeout w cpu time proc now later = if timeout_ready time now then done (w, true) else (do
  (d, mem) ← allocate_mem w.memory tmo_index
  let w1 =
      set_desc (record w { memory = mem }) d
        (record (w.timers.descs d) { time = time; proc = proc; kind = tmo_alting })
  done (
    record w1 {
      machine = enable (disable w1.machine cpu) cpu;
      timers = insert_in_queue w1.timers cpu (pun_of w.machine proc) d later;
    },
    false,
  ))

-- `if (desc != NULL) release_mem(TMO_INDEX, (byte *)desc);`
unfoldable pub release_desc : Memory → Option ℕ → Memory
unfolding release_mem
release_desc mem none = mem
release_desc mem (some d) = release_mem mem tmo_index d

unfoldable pub disable_timeout : World → ℕ → ℤ → ℕ → ℤ → World × Bool
unfolding remove_from_queue release_desc disable enable
disable_timeout w cpu time proc now =
    let (desc, timers) = remove_from_queue w.timers (pun_of w.machine proc) time proc in
    (
      record w {
        machine = enable (disable w.machine cpu) cpu;
        timers = timers;
        memory = release_desc w.memory desc;
      },
      timeout_ready time now,
    )

unfoldable pub handle_elapsed_time_interrupt : Timers → Timers
handle_elapsed_time_interrupt t = record t { current_time = t.current_time +ℤ tick }

-- `freeProcess`
unfoldable pub free_process : Machine → ℕ → Machine
unfolding enqueue0
free_process m p =
    let m1 = set_sched_state m p ready in
    if is_waiting (m.procs p).sched_state then enqueue0 m1 p else m1

-- `maybeFreeAltingProcess`
unfoldable pub maybe_free_alting_process : Machine → ℕ → Machine
unfolding alt_cas enqueue0
maybe_free_alting_process m p =
    let (_, actual, m1) = alt_cas m p enabling alt_ready in
    if same_alt actual alt_waiting
    then (let (successful, _, m2) = alt_cas m1 p alt_waiting alt_ready in
        if successful then enqueue0 m2 p else m2)
    else m1

-- `removeHead`
unfoldable pub remove_head : Timers → ℕ → Timers
remove_head t k = elim (t.time_que k) [
  | none ↦ t
  | some h ↦ record t { time_que = update t.time_que k (link_of t h) }
]

-- The process of a due descriptor is made ready.
unfoldable pub free_due : Machine → TimeoutDesc → Outcome Machine
unfolding free_process maybe_free_alting_process
free_due m x =
    if x.kind == tmo_after
    then done (free_process m x.proc)
    else (if x.kind == tmo_alting
        then done (maybe_free_alting_process m x.proc)
        else plotz bad_timeout_type)

-- The loop of `handle_timeout_interrupt`, on fuel.
unfoldable pub expire : ℕ → World → ℕ → ℤ → Outcome World
unfolding remove_head free_due
expire zero w k now = done w
expire (suc f) w k now = elim (w.timers.time_que k) [
  | none ↦ done w
  | some h ↦ elim (leb_ℤ (time_of w.timers h) now) [
    | false ↦ done w
    | true ↦ free_due w.machine (w.timers.descs h) >>= λ m.
        expire f (record w { machine = m; timers = remove_head w.timers k }) k now
  ]
]

-- The timer is set for the entry that is now the first.
unfoldable pub rearm : Timers → ℕ → ℤ → Timers
unfolding arm
rearm t k now = elim (t.time_que k) [ none ↦ t | some h ↦ arm t k (time_of t h -ℤ now) ]

unfoldable pub handle_timeout_interrupt : World → ℕ → ℤ → Outcome World
unfolding rearm schedule_from_interrupt
handle_timeout_interrupt w cpu now = do
  let k = pun_of w.machine (get_current w.machine cpu)
  w1 ← expire list_fuel w k now
  m ← schedule_from_interrupt w1.machine cpu
  done (record w1 { machine = m; timers = rearm w1.timers k now })

-- For `npun` processing units.
unfoldable pub timer_init : ℕ → Timers → Timers
timer_init npun t = record t { time_que = λ k. (if ltb k npun then none else t.time_que k) }

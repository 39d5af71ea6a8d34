-- ===== src/System.antt =====
-- The whole executive: its start (sched_init and initialize of sched.c, activate_processor of
-- hardware.c), the dispatch of interrupts and the end of a process (sched.c).
pub mod Building
pub mod Started
pub mod First
pub mod Initialized
pub mod Ending
pub mod Joining
pub mod Serving
pub mod Dispatch
use cxp.Common.{
  ℕ, zero, suc, ◌+◌, ◌-◌, Bool, true, false, Option, none, some, update, if◌then◌else◌, ◌==◌, ltb,
}
use cxp.Common.Int.{ℤ}
use cxp.Common.Outcome.{Outcome, done, ◌>>=◌}
use cxp.Priority.{init_pri, idle_pri}
use cxp.Machine.{Machine, pun_of}
use cxp.Ready.{enqueue0}
use cxp.Ipq.Steps.{init_queue}
use cxp.Sched.{
  get_current, set_current, disable, enable, take, dispatch, schedule_from_interrupt,
  handle_interprocessor_interrupt,
}
use cxp.World.{World}
use cxp.Memory.{memory_init, release_mem}
use cxp.Alarm.{timer_init, handle_timeout_interrupt, handle_elapsed_time_interrupt}
use cxp.Interrupts.{Receivers, ParBarrier, interrupt_init, transmit, par_barr_sync}
use cxp.Spawn.{build_process}
use cxp.Hardware.{
  Board, hardware_init, init_processor, intr_elapsed, intr_timeout, intr_interproc, intr_user0,
}

-- `termination` tells which mutexes of the termination structures are claimed.
pub record System : Type 0 where
  pub world : World
  pub receivers : Receivers
  pub board : Board
  pub termination : ℕ → Bool

-- sizeof(Process), NPUN, the number of interrupts that processes receive, SIGRTMIN and SIGRTMAX.
pub record Config : Type 0 where
  pub size : ℕ
  pub npun : ℕ
  pub nintr : ℕ
  pub sigrtmin : ℕ
  pub sigrtmax : ℕ

-- IDLE_STACK_SIZE
abbrev pub idle_stack_size : ℕ
idle_stack_size = 8192

abbrev pub set_machine : System → Machine → System
set_machine s m = record s { world = record s.world { machine = m } }

-- `sched_init`
unfoldable pub sched_init : ℕ → System → System
sched_init npun s =
    let m = s.world.machine in
    record (set_machine s (record m {
      ip_ques = λ k. (if ltb k npun then init_queue else m.ip_ques k);
      rdy_ques = λ k. (if ltb k npun then none else m.rdy_ques k);
    })) { termination = λ k. (if ltb k npun then false else s.termination k) }

-- `activate_processor`: the unit sets itself up, and runs the process.
unfoldable pub activate_processor : Config → System → ℕ → ℕ → Outcome System
unfolding init_processor
activate_processor c s pun p = do
  b ← init_processor c.sigrtmin c.sigrtmax s.board pun
  let m = s.world.machine
  done (record (set_machine s (record m { running = update m.running pun p })) { board = b })

-- The loop that starts `n` more units, from `pun` on, each with an idle process.
unfoldable pub start_units : Config → ℕ → ℕ → System → Outcome System
unfolding build_process activate_processor
start_units c zero pun s = done s
start_units c (suc n) pun s = build_process c.size s.world idle_stack_size idle_pri pun >>= λ r.
    let m = r.1.machine in
    let m1 = record m {
      current = update m.current pun r.0;
      current_pri = update m.current_pri pun idle_pri;
    } in
    activate_processor c (record s { world = record r.1 { machine = m1 } }) pun r.0 >>= λ s1.
    start_units c n (suc pun) s1

-- The calls of `initialize` before the first process is built; `base` is what `acquire_memory` returns.
unfoldable pub init_modules : Config → System → ℕ → ℕ → ℕ → System
unfolding disable hardware_init memory_init interrupt_init timer_init sched_init
init_modules c s tsize istacksize base =
    let w = s.world in
    sched_init c.npun (record s {
      world = record w {
        machine = disable w.machine 0;
        memory = memory_init w.memory base (tsize - istacksize);
        timers = timer_init c.npun w.timers;
      };
      receivers = interrupt_init c.npun c.nintr s.receivers;
      board = hardware_init c.sigrtmin s.board;
    })

-- The calls of `initialize` that start the first unit: the initial process runs, and an idle process
-- is ready.
unfoldable pub start_first : Config → System → ℕ → Outcome System
unfolding build_process activate_processor set_current enqueue0
start_first c s istacksize = build_process c.size s.world istacksize init_pri 0 >>= λ r1.
    activate_processor c (record s { world = r1.1 }) 0 r1.0 >>= λ s1.
    set_current s1.world.machine 0 r1.0 >>= λ m.
    build_process c.size (record s1.world { machine = m }) idle_stack_size idle_pri 0 >>= λ r2.
    done (record s1 { world = record r2.1 { machine = enqueue0 r2.1.machine r2.0 } })

-- `initialize`. At the barrier before the last call the units wait for each other.
unfoldable pub initialize : Config → System → ℕ → ℕ → ℕ → Outcome System
unfolding init_modules start_first start_units enable
initialize c s tsize istacksize base =
    start_first c (init_modules c s tsize istacksize base) istacksize >>= λ s1.
    start_units c (c.npun - 1) 1 s1 >>= λ s2. done (set_machine s2 (enable s2.world.machine 0))

-- `handle_user_interrupt`. If `transmit` has handed the unit over, the rest of the handler is not
-- executed, since the context that is resumed later is that of the interrupted process.
unfoldable handle_user_interrupt : System → ℕ → ℕ → Outcome System
unfolding transmit schedule_from_interrupt
handle_user_interrupt s cpu uintr = transmit s.world.machine s.receivers cpu uintr >>= λ r.
    let s1 = record (set_machine s r.1) { receivers = r.2 } in
    elim r.0 [
      | none ↦ done s1
      | some receiver ↦
          if get_current r.1 cpu == get_current s.world.machine cpu
          then (do m ← schedule_from_interrupt r.1 cpu; done (set_machine s1 m))
          else done s1
    ]

-- `handle_interrupt`; `now` is what the clock shows.
unfoldable pub handle_interrupt : System → ℕ → ℤ → ℕ → Outcome System
unfolding handle_user_interrupt handle_interprocessor_interrupt handle_timeout_interrupt
    handle_elapsed_time_interrupt
handle_interrupt s cpu now inum =
    let w = s.world in
    if inum == intr_interproc
    then (do m ← handle_interprocessor_interrupt w.machine cpu; done (set_machine s m))
    else (if inum == intr_timeout
        then (do w1 ← handle_timeout_interrupt w cpu now; done (record s { world = w1 }))
        else (if inum == intr_elapsed
            then done
                (record s { world = record w { timers = handle_elapsed_time_interrupt w.timers } })
            else handle_user_interrupt s cpu (inum - intr_user0)))

-- `terminate`, with the mutex free, and `finish_termination`, on the termination stack.
unfoldable pub terminate : System → ℕ → System
terminate s cpu =
    let m = s.world.machine in
    record s { termination = update s.termination (pun_of m (get_current m cpu)) true }

unfoldable pub finish_termination : System → ℕ → Outcome System
unfolding release_mem disable take dispatch
finish_termination s cpu =
    let w = s.world in
    let old = get_current w.machine cpu in
    let pun = pun_of w.machine old in
    let mem = release_mem w.memory (w.machine.procs old).index old in
    dispatch (take (disable w.machine cpu) cpu pun) cpu >>= λ m. done (record s {
      world = record w { machine = m; memory = mem };
      termination = update s.termination pun false;
    })

-- The end of `run_in_par`, behind the call of the child's code: the barrier, and `terminate`. If the
-- parent has displaced the child at the barrier, the child terminates when it has the unit again.
unfoldable pub end_in_par : System → ParBarrier → ℕ → Outcome (System × ParBarrier)
unfolding par_barr_sync
end_in_par s b cpu = par_barr_sync s.world.machine b cpu >>= λ r.
    let s1 = set_machine s r.0 in
    if get_current r.0 cpu == get_current s.world.machine cpu
    then (finish_termination (terminate s1 cpu) cpu >>= λ s2. done (s2, r.1))
    else done (s1, r.1)

-- ===== src/System/Initialized.antt =====
-- `initialize` as a whole (sched.c).
use cxp.Common.{
  ℕ, ◌+◌, ◌-◌, ◌≤◌, ◌<◌, ◌≡◌, refl, sym, ap, ◌∙◌, Bool, true, false, none, arith, update, ltb, List,
  [], ◌∷◌,
}
use cxp.Common.Outcome.{done, ◌>>=◌}
use cxp.Common.Chain.{list_fuel}
use cxp.Machine.{Process, Machine, pri_of}
use cxp.Priority.{init_pri, idle_pri}
use cxp.Ipq.Fifo.{Holds}
use cxp.Ipq.Steps.{init_queue}
use cxp.Sched.{enable}
use cxp.Sched.View.{Cpu, Ready-keep}
use cxp.Memory.{memory_init}
use cxp.Hardware.Wiring.{Boot}
use cxp.System.{
  System, Config, idle_stack_size, sched_init, start_units, init_modules, initialize, set_machine,
}
use cxp.System.Building.{Unused}
use cxp.System.First.{then_done, start_first-Up}
use cxp.System.Started.{Up, Initial, Idling, Up-all}

module _ (c : Config) where
  -- What every unit has after the start.
  pub record Running (m : Machine) : Type 0 where
    pub idler : ℕ
    pub first : Cpu m 0 (idler ∷ [])
    pub first_pri : pri_of m (m.current 0) ≡ init_pri
    pub idler_pri : pri_of m idler ≡ idle_pri
    pub others : (j : ℕ) → 1 ≤ j → j < c.npun → Cpu m j [] × (pri_of m (m.current j) ≡ idle_pri)
    pub inboxes : (j : ℕ) → j < c.npun → Holds (m.ip_ques j) []

  init_queue-Holds : Holds init_queue []
  init_queue-Holds = record {
    rem = omega arith;
    room = omega arith;
    end = refl;
    slot = λ i h. refl;
  }

  Initial-Cpu : (m : Machine) (n : ℕ) (i : Initial m n) → Cpu m 0 (i.idler ∷ [])
  unfolding list_fuel
  Initial-Cpu m n i =
      let init = ap (λ (x : Process). x.pri) i.process in
      let idle = ap (λ (x : Process). x.pri) i.idle_process in
      record {
        queue = record {
          chain = (i.waits, ap (λ (x : Process). x.next) i.idle_process);
          distinct = (tt, tt);
          at = (ap (λ (x : Process). x.pun) i.idle_process, tt);
          sorted = (tt, tt);
          short = omega arith;
        };
        home = ap (λ (x : Process). x.pun) i.process;
        away = ((λ e. omega (arith, e, i.below)), tt);
        top = (rw (pri_of, init, idle) (omega arith), tt);
        runs = i.runs;
        known = i.known ∙ sym init;
      }

  Idling-Cpu : (m : Machine) (n j : ℕ) → Idling m n j → Cpu m j []
  unfolding list_fuel
  Idling-Cpu m n j i = record {
    queue = record { chain = i.alone; distinct = tt; at = tt; sorted = tt; short = omega arith };
    home = ap (λ (x : Process). x.pun) i.process;
    away = tt;
    top = tt;
    runs = i.runs;
    known = i.known ∙ sym (ap (λ (x : Process). x.pri) i.process);
  }

  Up-Running : (t : System) → Up c t c.npun → Running t.world.machine
  Up-Running t u = record {
    idler = u.first.idler;
    first = Initial-Cpu t.world.machine t.world.memory.tail u.first;
    first_pri = ap (λ (x : Process). x.pri) u.first.process;
    idler_pri = ap (λ (x : Process). x.pri) u.first.idle_process;
    others = λ j l l'.
        let i = u.others j l l' in
        (Idling-Cpu t.world.machine t.world.memory.tail j i, ap (λ (x : Process). x.pri) i.process);
    inboxes = λ j l. rw (u.inboxes j l) init_queue-Holds;
  }

  Running-enable : (m : Machine) → Running m → Running (enable m 0)
  unfolding enable
  Running-enable m r = record {
    idler = r.idler;
    first = Cpu-enable 0 (r.idler ∷ []) r.first;
    first_pri = r.first_pri;
    idler_pri = r.idler_pri;
    others = λ j l l'. (Cpu-enable j [] (r.others j l l').0, (r.others j l l').1);
    inboxes = r.inboxes;
  }
    where
      Cpu-enable :
          (j : ℕ) (ps : List ℕ)
          → Cpu m j ps
          → Cpu (record m { enabled = update m.enabled 0 true }) j ps
      Cpu-enable j ps p = record {
        queue = Ready-keep m _ j ps refl refl p.queue;
        home = p.home;
        away = p.away;
        top = p.top;
        runs = p.runs;
        known = p.known;
      }

module _ (c : Config) (s : System) (tsize istacksize base : ℕ) where
  abbrev prepared : System
  prepared = init_modules c s tsize istacksize base

  prepared-Unused : 24576 ≤ tsize - istacksize → Unused prepared.world.memory
  unfolding init_modules sched_init memory_init
  prepared-Unused h = record { lists = λ i l. ground (arith, l); room = h }

  prepared-tail : prepared.world.memory.tail ≡ base
  unfolding init_modules sched_init memory_init
  prepared-tail = refl

  prepared-rdy : (k : ℕ) → k < c.npun → prepared.world.machine.rdy_ques k ≡ none
  unfolding init_modules sched_init
  prepared-rdy k l = ground (arith, l)

  prepared-inbox : (k : ℕ) → k < c.npun → prepared.world.machine.ip_ques k ≡ init_queue
  unfolding init_modules sched_init
  prepared-inbox k l = let e : ltb k c.npun ≡ true = ground (arith, l) in rw e refl

  prepared-Boot : Boot c.sigrtmin c.sigrtmax prepared.board (λ q. false) (λ q n. false)
  unfolding init_modules sched_init
  prepared-Boot = Boot.begin s.board

  -- With a record and each of the two stacks no larger than the largest block, and at least that much
  -- memory, `initialize` ends without an error. The first unit then runs the initial process, with
  -- an idle process ready behind it, and each other unit runs an idle process of its own; all units
  -- have set themselves up, and their interprocessor queues are empty.
  pub initialize-Running :
      0 < c.npun
      → idle_stack_size + c.size ≤ 24576
      → istacksize + c.size ≤ 24576
      → 24576 ≤ tsize - istacksize
      → (s' : System) × (initialize c s tsize istacksize base ≡ done s')
        × Running c s'.world.machine
        × (live : ℕ → Bool) × (set : ℕ → ℕ → Bool) × Boot c.sigrtmin c.sigrtmax s'.board live set
        × ((j : ℕ) → j < c.npun → live j ≡ true)
  unfolding initialize
  initialize-Running units idle_fits fits room =
      let (s1, e1, u1) =
        start_first-Up c prepared istacksize idle_fits fits (prepared-Unused room) prepared-rdy
          prepared-inbox units prepared-Boot in
      let (s2, e2, u2) =
        Up-all c idle_fits (c.npun - 1) 1 s1 (omega arith) (omega (arith, units)) u1 in
      let finished = λ (t : System). done (set_machine t (enable t.world.machine 0)) in
      (
        set_machine s2 (enable s2.world.machine 0),
        then_done s1 (λ t. start_units c (c.npun - 1) 1 t >>= finished) e1
            (then_done s2 finished e2 refl),
        Running-enable c s2.world.machine (Up-Running c s2 u2),
        u2.live,
        u2.set,
        u2.boot,
        u2.started,
      )

-- ===== src/Examples/Runs.antt =====
-- Runs of the programs under examples/ on the whole model.
use cxp.Common.{
  List, [], ◌∷◌, ℕ, ◌≡◌, refl, false, none, if◌then◌else◌, ◌==◌, Option, some, Bool, true,
}
use cxp.Common.Int.{ℤ, pos}
use cxp.Common.Outcome.{Outcome, done, ◌>>=◌}
use cxp.Common.Chain.{list_fuel}
use cxp.Ready.{enqueue0}
use cxp.Ipq.{ipq_remove}
use cxp.Alarm.{expire}
use cxp.Interrupts.{ParBarrier}
use cxp.Memory.{procmemlen, memory_init}
use cxp.System.{System, terminate, finish_termination}
use cxp.Programs.Commun.{commun}
use cxp.Programs.Distributed.{commun_mp}
use cxp.Programs.Sleeping.{after_program, alttime_program}
use cxp.Programs.Yielding.{yield_program}
use cxp.Programs.Signalling.{intr_start, intr_rounds}
use cxp.Examples.Boards.{off}
use cxp.Priority.{idle_pri}
use cxp.Machine.{ready}
use cxp.Examples.Machines.{process}
use cxp.Examples.Families.{family, family_world}

-- The system before commun.c starts its children, with any bytes in memory.
abbrev commun_system : (ℕ → ℕ) → System
commun_system b = record {
  world = record family_world { bytes = b };
  receivers = λ k n. none;
  board = off;
  termination = λ k. false;
}

-- The process that runs, the bytes of x at 50, and the process at the head of the free list of the
-- children's blocks.
abbrev shown : Outcome (System × ParBarrier) → Outcome (ℕ × ℕ × ℕ × ParBarrier)
shown o = o >>= λ r. done (r.0.world.machine.current 0, r.0.world.bytes 50, r.0.world.bytes 53, r.1)

-- Whatever is in memory, the int at 70 comes to 50, and the parent has the unit again.
commun_test :
    (b : ℕ → ℕ)
    → shown (commun 80 (commun_system b) 0 0 50 70)
      ≡ done (1000, b 70, b 73, record { parent = 1000; children = pos 0 })
unfolding commun list_fuel terminate finish_termination procmemlen memory_init enqueue0 ipq_remove
commun_test b = refl

-- The children of yield.c stand in the blocks 7144 and 10216.
abbrev yield_rounds : ℕ → ℕ
yield_rounds p = if p == 7144 then 2 else (if p == 10216 then 4 else 0)

abbrev printed : Outcome (System × ParBarrier × List ℕ) → Outcome (ℕ × List ℕ)
printed o = o >>= λ r. done (r.0.world.machine.current 0, r.2)

-- With two and four rounds, the children take turns until the first one has ended.
yield_test :
    printed (yield_program 80 (commun_system (λ a. 0)) 0 20 yield_rounds)
    ≡ done (1000, 7144 ∷ 10216 ∷ 7144 ∷ 10216 ∷ 10216 ∷ 10216 ∷ [])
unfolding yield_program list_fuel terminate finish_termination procmemlen memory_init enqueue0
    ipq_remove
yield_test = refl

-- The system before intr.c, with no timeout set and a descriptor at 5000.
abbrev intr_system : System
intr_system = record (commun_system (λ a. 0)) {
  world = record family_world { timers = record family_world.timers { time_que = λ k. none } };
}

abbrev intr_run : ℕ → Outcome (ℕ × List ℕ)
intr_run n = intr_start 80 intr_system 0 5000 (pos 7) >>= λ s.
    intr_rounds n s 0 5000 (pos 1000000007) >>= λ r. done (r.0.world.machine.current 0, r.1)

-- In three rounds the children 11240 and 7144 print in turn, and then the idle process 4072 has the unit.
intr_test : intr_run 3 ≡ done (4072, 11240 ∷ 7144 ∷ 11240 ∷ 7144 ∷ 11240 ∷ 7144 ∷ [])
unfolding intr_start intr_rounds list_fuel terminate finish_termination procmemlen memory_init
    enqueue0 ipq_remove expire
intr_test = refl

-- Two units, of which the second runs its idle process 6000.
abbrev two_units : (ℕ → ℕ) → System
two_units b = record (commun_system b) {
  world = record family_world {
    bytes = b;
    machine = record family {
      procs = λ q. (if q == 6000 then process idle_pri 1 ready else family.procs q);
      current = λ k. (if k == 0 then 1000 else 6000);
      running = λ k. (if k == 0 then 1000 else 6000);
    };
  };
}

abbrev at_end : Outcome (System × ParBarrier) → Outcome (ℕ × ℕ × ℕ × ℕ × ParBarrier)
at_end o = o >>= λ r. done (
  r.0.world.machine.current 0,
  r.0.world.machine.current 1,
  r.0.world.bytes 50,
  r.0.world.bytes 53,
  r.1,
)

-- Whichever child comes first, the int has come over, and the parent and the idle process have the units.
commun_mp_test :
    (b : ℕ → ℕ)
    → (reader_first : Bool)
    → at_end (commun_mp 80 (two_units b) reader_first (pos 0) 0 50 70)
      ≡ done (1000, 6000, b 70, b 73, record { parent = 1000; children = pos 0 })
unfolding commun_mp list_fuel terminate finish_termination procmemlen memory_init enqueue0
    ipq_remove
commun_mp_test b true = refl
commun_mp_test b false = refl

abbrev after_run : ℤ → ℤ → ℤ → Outcome (ℕ × List ℤ)
after_run t1 t2 t3 = after_program intr_system 0 5000 (pos 7) t1 t2 t3 >>= λ r.
    done (r.0.world.machine.current 0, r.1)

-- The third time is over when the second interrupt comes, so that the last call returns at once.
after_test :
    after_run (pos 2000000005) (pos 4000000001) (pos 5000000000)
    ≡ done (1000, pos 7 ∷ pos 2000000005 ∷ pos 4000000001 ∷ pos 4000000001 ∷ [])
unfolding after_program list_fuel procmemlen memory_init enqueue0 ipq_remove expire
after_test = refl

abbrev alttime_run : ℕ → Outcome (ℕ × List (Option ℕ))
alttime_run n =
    alttime_program 80 intr_system 0 (pos 7) n >>= λ r. done (r.0.world.machine.current 0, r.1)

-- In each round the child 7144 selects its timeout.
alttime_test : alttime_run 3 ≡ done (7144, some 0 ∷ some 0 ∷ some 0 ∷ [])
unfolding alttime_program list_fuel procmemlen memory_init enqueue0 ipq_remove expire
alttime_test = refl

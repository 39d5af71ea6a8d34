-- ===== src/Examples/Families.antt =====
-- Instances of the theorems about the children of a parallel construct.
use cxp.Common.{
  ℕ, ◌≡◌, refl, none, some, Option, false, List, [], ◌∷◌, arith, length, update, if◌then◌else◌,
  ◌==◌,
}
use cxp.Common.Int.{pos}
use cxp.Common.Outcome.{done}
use cxp.Common.Chain.{list_fuel}
use cxp.Machine.{Machine, waiting, ready, preparing_to_wait}
use cxp.Priority.{idle_pri}
use cxp.Memory.{Memory, procmemlen, allocate_mem, memory_init}
use cxp.Memory.Disjoint.{Uses, begin, allocated}
use cxp.World.{World}
use cxp.Spawn.{at_home, par, par_pri, placed_par, placed_par_pri}
use cxp.Spawn.Placing.{par-eq-placed}
use cxp.Spawn.Home.{Home, Started}
use cxp.Spawn.Children.{announced, par-Started}
use cxp.Examples.Machines.{machine, memory, world, process, empty_queue}

-- Process 1000 runs, and the idle process 4072 is ready; each has a block of 3072 bytes.
abbrev pub family : Machine
family = record machine {
  procs = λ q. (if q == 4072 then process idle_pri 0 waiting else process 512 0 ready);
  rdy_ques = λ k. (if k == 0 then some 4072 else none);
  ip_ques = λ k. empty_queue;
  current = λ k. 1000;
  running = λ k. 1000;
}

abbrev one : Memory
one = record (memory_init memory 1000 40000) { tail = 4072; claimed = false }

abbrev two : Memory
two = record (memory_init memory 1000 40000) { tail = 7144; claimed = false }

abbrev pub family_world : World
family_world = record world { machine = family; memory = two }

abbrev pub family_owner : ℕ → Option ℕ
family_owner = update (update (λ a. none) 1000 (some 13)) 4072 (some 13)

two-Uses : Uses 1000 two family_owner
unfolding procmemlen allocate_mem memory_init
two-Uses =
    allocated {m' = two} 13 4072
      (allocated {m' = one} 13 1000 (begin memory 40000) (omega arith) (omega arith) refl)
      (omega arith) (omega arith) refl

family-Home : Home 1000 family_world 0 family_owner (4072 ∷ [])
unfolding list_fuel memory_init
family-Home = record {
  cpu = record {
    queue = record {
      chain = (refl, refl);
      distinct = (tt, tt);
      at = (refl, tt);
      sorted = (tt, tt);
      short = omega arith;
    };
    home = refl;
    away = ((λ e. absurd (omega (arith, e))), tt);
    top = (omega arith, tt);
    runs = refl;
    known = refl;
  };
  uses = two-Uses;
  owned = λ e. cc;
  all_owned = ((λ e. cc), tt);
  room = omega arith;
}

par-Started_example :
    (w' : World) × (cs : List ℕ) × (par 80 family_world 0 (2000 ∷ 2000 ∷ [])
      ≡ done (w', record { parent = 1000; children = pos 2 }))
    × (length cs ≡ 2)
    × Started 1000 (announced family_world 0) w' 0 512 family_owner (4072 ∷ []) cs
    × ((w'.machine.procs 1000).sched_state ≡ preparing_to_wait)
unfolding list_fuel
par-Started_example =
    par-Started 80 1000 family_world 0 family_owner (4072 ∷ []) (2000 ∷ 2000 ∷ []) family-Home
      (omega arith) (omega arith)

par-eq-placed_example :
    (par 80 family_world 0 (2000 ∷ 2000 ∷ [])
      ≡ placed_par 80 family_world 0 (at_home 0 (2000 ∷ 2000 ∷ [])))
    × (par_pri 80 family_world 0 (2000 ∷ 2000 ∷ [])
        ≡ placed_par_pri 80 family_world 0 (at_home 0 (2000 ∷ 2000 ∷ [])))
par-eq-placed_example =
    par-eq-placed 80 1000 family_world 0 family_owner (2000 ∷ 2000 ∷ []) two-Uses (λ e. cc)

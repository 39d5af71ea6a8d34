-- ===== src/Examples/Systems.antt =====
-- Instances of the theorems about the start of the executive and the end of a process.
use mathlib.Core.List.{Perm}
use cxp.Common.{ℕ, ◌<◌, ◌≡◌, refl, Bool, false, true, none, List, [], ◌∷◌, arith, Fresh}
use cxp.Common.Outcome.{done}
use cxp.Common.Chain.{list_fuel}
use cxp.Memory.{Memory, allocate_mem}
use cxp.Hardware.Wiring.{Boot}
use cxp.Sched.Switch.{Given}
use cxp.System.{System, Config, initialize, terminate, finish_termination, end_in_par}
use cxp.System.Initialized.{Running, initialize-Running}
use cxp.System.Ending.{terminate-Given}
use cxp.System.Joining.{end_in_par-last}
use cxp.Sched.View.{Cpu}
use cxp.Common.Int.{pos}
use cxp.Examples.Interrupted.{alting_machine, alting-Handling}
use cxp.Examples.Machines.{world, machine, machine-Ready, machine-Inbox}
use cxp.Examples.Boards.{off}

abbrev system : System
system = record { world = world; receivers = λ k n. none; board = off; termination = λ k. false }

abbrev two_units_config : Config
two_units_config = record { size = 1200; npun = 2; nintr = 2; sigrtmin = 34; sigrtmax = 64 }

initialize-Running_example :
    (s' : System) × (initialize two_units_config system 100000 8192 4096 ≡ done s')
    × Running two_units_config s'.world.machine
    × (live : ℕ → Bool) × (set : ℕ → ℕ → Bool) × Boot 34 64 s'.board live set
    × ((j : ℕ) → j < 2 → live j ≡ true)
initialize-Running_example =
    initialize-Running two_units_config system 100000 8192 4096 (omega arith) (omega arith)
      (omega arith) (omega arith)

-- Process 1 ends on unit 0.
terminate-Given_example :
    (s' : System) × (p : ℕ) × (qs : List ℕ) × (finish_termination (terminate system 0) 0 ≡ done s')
    × Given machine s'.world.machine 0 p qs
    × Perm (p ∷ qs) (2 ∷ 9 ∷ [])
    × Fresh 1 (p ∷ qs)
    × (s'.termination 0 ≡ false)
    × ((mem : Memory) × (allocate_mem s'.world.memory 3 ≡ done (1, mem)))
unfolding list_fuel
terminate-Given_example =
    terminate-Given system 0 (2 ∷ []) (9 ∷ []) machine-Inbox machine-Ready refl
      ((λ e. absurd (omega (arith, e))), ((λ e. absurd (omega (arith, e))), tt)) (omega arith)
      (omega arith)

-- Unit 0 has no messages from other units.
abbrev quiet_system : System
quiet_system = record system { world = record world { machine = alting_machine } }

-- Process 1 ends as the last child of process 3.
end_in_par-last_example :
    (s' : System) × (p : ℕ) × (qs : List ℕ) × (end_in_par quiet_system
        (record { parent = 3; children = pos 1 })
        0
      ≡ done (s', record { parent = 3; children = pos 0 }))
    × Cpu s'.world.machine 0 qs
    × (s'.world.machine.current 0 ≡ p)
    × Perm (p ∷ qs) (3 ∷ 9 ∷ [])
    × Fresh 1 (p ∷ qs)
unfolding list_fuel
end_in_par-last_example =
    end_in_par-last quiet_system 0 3 [] (9 ∷ []) alting-Handling tt refl refl
      (λ e. absurd (omega (arith, e))) tt ((λ e. absurd (omega (arith, e))), tt) (omega arith)

-- ===== src/Examples/Scheduling.antt =====
-- Instances of the theorems about priorities, queues and scheduling, and tests.
use mathlib.Core.List.{Perm}
use cxp.Common.{ℕ, ◌<◌, ◌≤◌, ◌≡◌, refl, true, List, [], ◌∷◌, ◌++◌, arith, All}
use cxp.Common.Outcome.{done}
use cxp.Common.Chain.{list_fuel}
use cxp.Machine.{Machine}
use cxp.Priority.{pri_gt, init_pri, assigned}
use cxp.Priority.Slots.{child, init-IsSlot, here, below, Under-pri_gt}
use cxp.Ready.{enqueue0}
use cxp.Ready.Order.{Ready, value_of}
use cxp.Ready.Queues.{enqueue0_places}
use cxp.Sched.{yield, schedule0, relinquish_unconditional}
use cxp.Sched.View.{Cpu}
use cxp.Sched.Preempt.{schedule0-Cpu}
use cxp.Sched.Yielding.{Yielded, yield-Yielded}
use cxp.Sched.Switch.{Given, relinquish_unconditional-Given}
use cxp.Examples.Machines.{machine-Inbox, machine, machine-Ready, machine-Cpu}

-- Three children of the initial process.
assigned_test : assigned init_pri 3 ≡ 0x2000 ∷ 0x2200 ∷ 0x2400 ∷ []
unfolding assigned
assigned_test = refl

-- A child of the first child, and the second child.
Under-pri_gt_example : pri_gt (child (child init_pri 0) 7) (child init_pri 1) ≡ true
Under-pri_gt_example =
    Under-pri_gt 0 1 init-IsSlot (omega arith) (omega arith) (omega arith)
      (below 7 here (omega arith) (omega arith)) here

enqueue0_places_example :
    (front : List ℕ) × (back : List ℕ) × (9 ∷ [] ≡ front ++ back)
    × Ready (enqueue0 machine 2) 0 (front ++ 2 ∷ back)
    × All (λ q. value_of machine q ≤ value_of machine 2) front
    × All (λ q. value_of machine 2 < value_of machine q) back
unfolding list_fuel
enqueue0_places_example =
    enqueue0_places machine 2 (9 ∷ []) machine-Ready (omega arith) (omega arith)

relinquish_unconditional-Given_example :
    (m' : Machine) × (p : ℕ) × (qs : List ℕ) × (relinquish_unconditional machine 0 ≡ done m')
    × Given machine m' 0 p qs
    × Perm (p ∷ qs) (2 ∷ 9 ∷ [])
unfolding list_fuel
relinquish_unconditional-Given_example =
    relinquish_unconditional-Given machine 0 (2 ∷ []) (9 ∷ []) machine-Inbox machine-Ready refl
      (omega arith) (omega arith)

schedule0-Cpu_example :
    (m' : Machine) × (qs : List ℕ) × (schedule0 machine 0 2 ≡ done m')
    × Cpu m' 0 qs
    × Perm (m'.current 0 ∷ qs) (2 ∷ 1 ∷ 9 ∷ [])
unfolding list_fuel
schedule0-Cpu_example =
    schedule0-Cpu machine 0 2 (9 ∷ []) machine-Cpu refl (omega arith) (omega arith)

-- Process 1 yields to process 2.
yield-Yielded_example :
    (m' : Machine) × (yield machine 0 ≡ done m') × Yielded machine m' 0 (2 ∷ []) (9 ∷ [])
unfolding list_fuel
yield-Yielded_example =
    yield-Yielded machine 0 (2 ∷ []) (9 ∷ [])
      (record {
        queue = machine-Ready;
        home = refl;
        away = machine-Cpu.away;
        runs = refl;
        known = refl;
      })
      ((λ e. absurd (omega (arith, e))), tt) (omega arith) machine-Inbox

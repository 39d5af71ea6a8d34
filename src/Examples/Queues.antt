-- ===== src/Examples/Queues.antt =====
-- Instances of the theorems about the order of an interprocessor queue.
use cxp.Common.{ℕ, ◌+◌, ◌%◌, ◌<◌, ◌≤◌, ◌≡◌, ◌≢◌, refl, some, none, arith}
use cxp.Ipq.{next_slot}
use cxp.Ipq.Steps.{AddPc, RemPc, AddMove, RemMove, Units, Step, Reach}
use cxp.Ipq.Order.{fifo}
use cxp.Ipq.Overrun.{overrun, entered, taken, filled}

-- Process 7 is added.
abbrev added_one : (u : Units) × Reach 1 u
unfolding next_slot
added_one = (
  _,
  Reach.next
      (Reach.next
        (Reach.next
          (Reach.next
            (Reach.next (Reach.next Reach.initial (Step.adds 0 (omega arith) (AddMove.call 7)))
              (Step.adds 0 (omega arith) AddMove.load_add))
            (Step.adds 0 (omega arith) AddMove.load_rem))
          (Step.adds 0 (omega arith) (AddMove.nonfull (omega arith))))
        (Step.adds 0 (omega arith) (AddMove.cas_win refl)))
      (Step.adds 0 (omega arith) AddMove.store),
)

-- It is removed, while process 8 is being added.
abbrev delivered : (u : Units) × Reach 1 u
unfolding next_slot added_one
delivered = (
  _,
  Reach.next
      (Reach.next
        (Reach.next
          (Reach.next
            (Reach.next (Reach.next added_one.1 (Step.adds 0 (omega arith) (AddMove.call 8)))
              (Step.removes RemMove.load_rem))
            (Step.removes RemMove.load_add))
          (Step.removes (RemMove.nonempty (omega arith))))
        (Step.removes RemMove.exchange))
      (Step.removes RemMove.advance),
)

fifo_example :
    ((i : ℕ) → i < 1 → delivered.0.traffic.out i ≡ delivered.0.traffic.log i)
    × (1 ≤ 1)
    × (1 ≤ 1 + 4)
    × (delivered.0.adders 0 ≡ AddPc.outside
        → delivered.0.remover ≡ RemPc.idle
        → (i : ℕ) → 1 ≤ i
        → i < 1
        → delivered.0.traffic.queue.que (i % 5) ≡ some (delivered.0.traffic.log i))
unfolding next_slot added_one delivered
fifo_example = fifo delivered.1

overrun_example :
    (u : Units) × Reach 2 u
    × (u.adders 0 ≡ AddPc.outside)
    × (u.adders 1 ≡ AddPc.outside)
    × (u.remover ≡ RemPc.idle)
    × (u.traffic ≡ entered (entered (taken (filled 1 2 3 4) 1) 5) 6)
    × (u.traffic.added ≡ u.traffic.removed + 5)
    × (u.traffic.queue.next_add ≡ u.traffic.queue.next_rem)
    × ((s : ℕ) → s < 5 → u.traffic.queue.que s ≢ none)
overrun_example = overrun 6 1 2 3 4 5

-- ===== src/Ipq/Order.antt =====
-- One unit that adds, which is the case of two processing units: the order of the entries of an
-- interprocessor queue (ipq.m).
use cxp.Common.{ℕ, zero, suc, ◌+◌, ◌%◌, ◌≤◌, ◌<◌, ◌≡◌, refl, some, arith}
use cxp.Ipq.Steps.{init_units, AddPc, RemPc, Units, Step, Reach}
use cxp.Ipq.Invariant.{Inv}
use cxp.Ipq.Adding.{AddMove-Inv}
use cxp.Ipq.Removing.{RemMove-Inv}

idle-Inv : Inv init_units.traffic AddPc.outside RemPc.idle
idle-Inv = record {
  add_slot = refl;
  rem_slot = refl;
  counts = omega arith;
  room = omega arith;
  slots = λ i g h. absurd (omega (arith, h));
  blank = λ i g h. refl;
  order = λ i g. omega (arith, g);
  adder = tt;
  remover = tt;
}

Reach-Inv : {u : Units} → Reach 1 u → Inv u.traffic (u.adders 0) u.remover
Reach-Inv Reach.initial = idle-Inv
Reach-Inv (Reach.next {u} r (Step.adds zero lt mv)) =
    AddMove-Inv u.traffic u.remover mv (Reach-Inv r)
Reach-Inv (Reach.next r (Step.adds (suc i) lt mv)) = absurd (omega (arith, lt))
Reach-Inv (Reach.next {u} r (Step.removes mv)) = RemMove-Inv u.traffic (u.adders 0) mv (Reach-Inv r)

-- With one adding unit, in every interleaving of `ipq_add` and `ipq_remove` that starts from
-- `ipq_init`: the entries that were removed are the first ones that were added, in the order of their
-- adding; no more are removed than were added and at most four wait; and while no operation is under
-- way the waiting entries are in the slots from `nextRem` on, the last one before `nextAdd`.
pub fifo :
    {u : Units}
    → Reach 1 u
    → ((i : ℕ) → i < u.traffic.removed → u.traffic.out i ≡ u.traffic.log i)
      × (u.traffic.removed ≤ u.traffic.added)
      × (u.traffic.added ≤ u.traffic.removed + 4)
      × (u.adders 0 ≡ AddPc.outside
          → u.remover ≡ RemPc.idle
          → (i : ℕ) → u.traffic.removed ≤ i
          → i < u.traffic.added
          → u.traffic.queue.que (i % 5) ≡ some (u.traffic.log i))
fifo {u} r =
    let v = Reach-Inv r in
    (
      v.order,
      omega (arith, v.counts),
      v.room,
      λ p q i g h. v.slots i (rw q (omega (arith, g))) (rw p (omega (arith, h))),
    )

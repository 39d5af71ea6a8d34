-- ===== src/Examples/Meetings.antt =====
-- Instances of the theorems about the communications of the programs under examples/.
use cxp.Common.{ℕ, ◌≡◌, refl, update, arith}
use cxp.Programs.{RingPc, sending, receiving, input, element_start, child_start, received}
use cxp.Programs.Ring.{Circling, begin, meet, ring_circulates}

-- Rings of three after one communication.
abbrev element_ring : ℕ → RingPc
element_ring = update (update element_start 0 receiving) 1 (received 1)

abbrev child_ring : ℕ → RingPc
child_ring = update (update child_start 0 receiving) 1 (received 0)

ring_circulates_example :
    (element_ring 1 ≡ sending 2)
    × ((s' : ℕ → RingPc) × Circling 3 element_start 2 s')
    × (child_ring 1 ≡ sending 1)
    × ((t' : ℕ → RingPc) × Circling 3 child_start 2 t')
unfolding element_start child_start received input
ring_circulates_example =
    ring_circulates 3 1 1 element_ring child_ring (omega arith) (omega arith)
      (meet 0 1 1 begin (omega arith) (omega arith) refl refl refl)
      (meet 0 1 0 begin (omega arith) (omega arith) refl refl refl)

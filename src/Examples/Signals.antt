-- ===== src/Examples/Signals.antt =====
-- Instances of the theorems about interrupts and barriers.
use cxp.Common.{◌≡◌, some, none}
use cxp.Common.Outcome.{done}
use cxp.Machine.{Machine, ready}
use cxp.Sched.{get_current, relinquish}
use cxp.Interrupts.{Receivers, receive_begin, transmit}
use cxp.Interrupts.Signals.{receive_not_lost}
use cxp.Examples.Machines.{machine}

abbrev receivers : Receivers
receivers k n = none

receive_not_lost_example :
    (m2 : Machine) × (s2 : Receivers) × (transmit
        (receive_begin machine receivers 0 4).0
        (receive_begin machine receivers 0 4).1
        0
        4
      ≡ done (some 1, m2, s2))
    × ((m2.procs 1).sched_state ≡ ready)
    × (relinquish m2 0 ≡ done m2)
    × (get_current m2 0 ≡ 1)
    × (s2 0 4 ≡ none)
receive_not_lost_example = receive_not_lost machine receivers 0 4

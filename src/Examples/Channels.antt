-- ===== src/Examples/Channels.antt =====
-- Instances of the theorems about channels, and tests.
use mathlib.Core.List.{Perm}
use cxp.Common.{ℕ, ◌≡◌, refl, true, false, none, some, List, [], ◌∷◌, arith}
use cxp.Common.Outcome.{done}
use cxp.Common.Chain.{list_fuel}
use cxp.Machine.{waiting, preparing_to_wait, enabling, alt_waiting, alt_ready}
use cxp.Sched.View.{Cpu}
use cxp.Sched.Wake.{Cpu-same, alt_state-SameView}
use cxp.World.{World}
use cxp.Comm.{
  returns, waits, in_begin, out_begin, finish, enable_channel, disable_channel, set_alt_state,
}
use cxp.Comm.Rendezvous.{Met, reader_first, writer_first}
use cxp.Comm.Waiting.{Delivered, out_wakes}
use cxp.Comm.Alting.{alt_rendezvous, null_reader_strands}
use cxp.Comm.Guarding.{alt_wakes}
use cxp.Examples.Machines.{machine, machine-Cpu, world}

reader_first_example :
    (w1 w2 : World) × (in_begin world 0 0 (some 80) 4 ≡ done (w1, waits))
    × (out_begin w1 1 0 (some 20) 4 ≡ done (w2, returns))
    × (finish 0 1 (w2, waits) ≡ done (w2, returns))
    × Met world w2 0 1 80 20 4
reader_first_example = reader_first world 0 0 1 80 20 4 refl

writer_first_example :
    (w1 w2 : World) × (out_begin world 1 0 (some 20) 4 ≡ done (w1, waits))
    × (in_begin w1 0 0 (some 80) 4 ≡ done (w2, returns))
    × (finish 1 5 (w2, waits) ≡ done (w2, returns))
    × Met world w2 0 5 80 20 4
writer_first_example = writer_first world 0 0 1 80 20 4 refl

out_wakes_example :
    (w2 : World) × (qs : List ℕ) × (out_begin world 0 1 (some 20) 4 ≡ done (w2, returns))
    × Delivered world w2 0 1 2 (9 ∷ []) qs 40 20 4
unfolding list_fuel
out_wakes_example =
    out_wakes world 1 0 40 20 4 2 (9 ∷ []) machine-Cpu refl refl (omega arith) (omega arith) refl
      refl

-- Process 1 alternates.
abbrev alting_world : World
alting_world = record world { machine = set_alt_state machine 1 enabling }

alt_rendezvous_example :
    (w1 w2 w3 w4 : World) × (enable_channel alting_world 0 1 ≡ (w1, false))
    × (out_begin w1 1 0 (some 20) 4 ≡ done (w2, waits))
    × ((w2.machine.procs 1).alt_state ≡ alt_ready)
    × (disable_channel w2 0 1 ≡ (w3, true))
    × (in_begin w3 0 0 (some 80) 4 ≡ done (w4, returns))
    × Met alting_world w4 0 5 80 20 4
alt_rendezvous_example = alt_rendezvous alting_world 0 0 1 80 20 4 refl (omega arith) refl

-- Process 2 waits in an alternation, of which channel 0 is a guard.
abbrev guarded_world : World
guarded_world = record world {
  machine = set_alt_state machine 2 alt_waiting;
  chans = λ c. record { claimed = false; waiting = some 2; buf = none };
}

alt_wakes_example :
    (w2 w3 w4 : World) × (qs : List ℕ) × (out_begin guarded_world 0 0 (some 20) 4
      ≡ done (w2, waits))
    × ((w2.machine.procs 2).alt_state ≡ alt_ready)
    × Cpu w2.machine 0 qs
    × Perm (w2.machine.current 0 ∷ qs) (2 ∷ 1 ∷ 9 ∷ [])
    × (disable_channel w2 0 2 ≡ (w3, true))
    × (in_begin w3 0 0 (some 80) 4 ≡ done (w4, returns))
    × Met guarded_world w4 0 1 80 20 4
unfolding list_fuel
alt_wakes_example =
    alt_wakes guarded_world 0 0 0 2 80 20 4 (9 ∷ [])
      (Cpu-same (9 ∷ []) (alt_state-SameView 0 machine 2 alt_waiting) machine-Cpu) refl refl refl
      (omega arith) (omega arith) refl

null_reader_strands_example :
    (w1 w2 : World) × (in_begin world 0 0 none 0 ≡ done (w1, waits))
    × (out_begin w1 1 0 (some 20) 0 ≡ done (w2, waits))
    × ((w2.chans 0).waiting ≡ some 5)
    × ((w2.machine.procs 1).sched_state ≡ preparing_to_wait)
    × ((w2.machine.procs 5).sched_state ≡ preparing_to_wait)
    × (w2.bytes ≡ world.bytes)
null_reader_strands_example = null_reader_strands world 0 0 1 0 (some 20) refl (omega arith) refl

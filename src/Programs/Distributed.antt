-- ===== src/Programs/Distributed.antt =====
-- commun-mp.c: the two children of commun.c on two units. What the units do is in sequence here, and the
-- children may come to the channel in either order.
use cxp.Common.{ℕ, Bool, [], ◌∷◌, if◌then◌else◌}
use cxp.Common.Int.{ℤ}
use cxp.Common.Outcome.{Outcome, ◌>>=◌}
use cxp.World.{World, set_chan}
use cxp.Sched.{relinquish}
use cxp.Comm.{init_channel}
use cxp.Interrupts.{ParBarrier}
use cxp.Hardware.{intr_interproc}
use cxp.Spawn.{placed_par}
use cxp.System.{System, handle_interrupt, end_in_par}
use cxp.Programs.Commun.{child1, child2}

-- `child1` on unit 1 and `child2` on unit 0, up to their waits or ends.
unfoldable pub rendezvous : Bool → World → ℕ → ℕ → ℕ → Outcome World
unfolding child1 child2
rendezvous reader_first w chan x z =
    if reader_first
    then (do w1 ← child1 w 1 chan x; child2 w1 0 chan z)
    else (do w1 ← child2 w 0 chan z; child1 w1 1 chan x)

-- `main`, up to the end of the parallel construct. Unit 1 gets an interrupt for the child that is placed
-- there, and the unit of the child that waits at the channel one when it goes on.
unfoldable pub commun_mp : ℕ → System → Bool → ℤ → ℕ → ℕ → ℕ → Outcome (System × ParBarrier)
unfolding init_channel placed_par relinquish handle_interrupt rendezvous end_in_par
commun_mp size s reader_first now chan x z = do
  let w = set_chan s.world chan (init_channel (s.world.chans chan))
  (w1, b) ← placed_par size w 0 ((2000, 1) ∷ (2000, 0) ∷ [])
  m ← relinquish w1.machine 0
  s1 ← handle_interrupt (record s { world = record w1 { machine = m } }) 1 now intr_interproc
  w2 ← rendezvous reader_first s1.world chan x z
  s2 ←
      handle_interrupt (record s1 { world = w2 }) (if reader_first then 1 else 0) now intr_interproc
  (s3, b1) ← end_in_par s2 b 1
  end_in_par s3 b1 0

-- ===== src/Programs/Commun.antt =====
-- commun.c: two children of a parallel construct, one of which reads an int from a channel and the other
-- writes it there.
use cxp.Common.{ℕ, some, [], ◌∷◌}
use cxp.Common.Outcome.{Outcome, done, ◌>>=◌}
use cxp.World.{World, set_chan}
use cxp.Sched.{relinquish}
use cxp.Comm.{init_channel, chan_in, chan_out}
use cxp.Interrupts.{ParBarrier}
use cxp.Spawn.{par}
use cxp.System.{System, end_in_par}

-- `child1`, with `&x`, and `child2`, with `&z`: up to their ends.
unfoldable pub child1 : World → ℕ → ℕ → ℕ → Outcome World
unfolding chan_in
child1 w cpu chan x = chan_in w cpu chan (some x) 4 >>= λ r. done r.0

unfoldable pub child2 : World → ℕ → ℕ → ℕ → Outcome World
unfolding chan_out
child2 w cpu chan z = chan_out w cpu chan (some z) 4 >>= λ r. done r.0

-- `main`, up to the end of the parallel construct: each line goes on with the process that has the unit.
unfoldable pub commun : ℕ → System → ℕ → ℕ → ℕ → ℕ → Outcome (System × ParBarrier)
unfolding init_channel par relinquish child1 child2 end_in_par
commun size s cpu chan x z = do
  let w = set_chan s.world chan (init_channel (s.world.chans chan))
  (w1, b) ← par size w cpu (2000 ∷ 2000 ∷ [])
  m ← relinquish w1.machine cpu
  w2 ← child1 (record w1 { machine = m }) cpu chan x
  w3 ← child2 w2 cpu chan z
  (s1, b1) ← end_in_par (record s { world = w3 }) b cpu
  end_in_par s1 b1 cpu

-- ===== src/System/Ending.antt =====
-- The end of a process (`terminate`, `finish_termination` of sched.c).
use mathlib.Core.List.{Perm}
use mathlib.Core.List.Perm
use cxp.Common.{
  true, ℕ, ◌+◌, ◌<◌, ◌≡◌, refl, false, update, ==-refl, List, ◌∷◌, ◌++◌, length, Fresh,
}
use cxp.Common.Perms.{Fresh-perm}
use cxp.Common.Outcome.{done}
use cxp.Common.Chain.{list_fuel}
use cxp.Machine.{pun_of}
use cxp.Ready.Order.{Ready}
use cxp.Memory.{Memory, release_mem, allocate_mem}
use cxp.Memory.Blocks.{release-allocate}
use cxp.Sched.Inbox.{Inbox}
use cxp.Sched.Switch.{Given, dispatch-Given}
use cxp.System.{System, terminate, finish_termination}

-- A process that terminates gives its unit to a process that no ready one has a higher priority than, if
-- any process is ready there or in the interprocessor queue. It is itself no longer among the
-- processes of the unit, the others are all still there, the termination stack is free, and the next
-- allocation of its size gives the block of its record.
pub terminate-Given :
    (s : System) (k : ℕ) (xs ps : List ℕ)
    → Inbox s.world.machine k xs ps
    → Ready s.world.machine k ps
    → pun_of s.world.machine (s.world.machine.current k) ≡ k
    → Fresh (s.world.machine.current k) (xs ++ ps)
    → length xs + length ps < list_fuel
    → 0 < length xs + length ps
    → (s' : System) × (p : ℕ) × (qs : List ℕ) × (finish_termination (terminate s k) k ≡ done s')
      × Given s.world.machine s'.world.machine k p qs
      × Perm (p ∷ qs) (xs ++ ps)
      × Fresh (s.world.machine.current k) (p ∷ qs)
      × (s'.termination k ≡ false)
      × ((mem : Memory) × (allocate_mem s'.world.memory
              (s.world.machine.procs (s.world.machine.current k)).index
            ≡ done (s.world.machine.current k, mem)))
unfolding terminate finish_termination
terminate-Given s k xs ps i r home away len some_ready =
    let m = s.world.machine in
    let old = m.current k in
    let (m1, p, qs, e, g, perm) = dispatch-Given m k xs ps i r len some_ready in
    let index = (m.procs old).index in
    let (mem, a, lists, tail, claimed) = release-allocate s.world.memory index old in
    (
      record s {
        world = record s.world { machine = m1; memory = release_mem s.world.memory index old };
        termination = update (update s.termination k true) k false;
      },
      p,
      qs,
      rw (home, e) refl,
      g,
      perm,
      Fresh-perm old (Perm.symm perm) away,
      rw (==-refl k) refl,
      (mem, a),
    )

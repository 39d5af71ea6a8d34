-- ===== src/Alarm/Guards.antt =====
-- Timeout guards (timer.c): what disabling one does to the queue and to the allocator.
use cxp.Common.{ℕ, ◌≡◌, refl, false, some, List, All, first, drop_while}
use cxp.Common.Int.{ℤ, leb_ℤ}
use cxp.Machine.{pun_of}
use cxp.Memory.{Memory, tmo_index, release_mem}
use cxp.Timer.{time_of}
use cxp.Timer.Queue.{Timeouts}
use cxp.Timer.Search.{matches}
use cxp.Timer.Removal.{remove_from_queue-absent}
use cxp.World.{World}
use cxp.Alarm.{disable_timeout, release_desc}

head-release_desc :
    (mem : Memory) (d : ℕ) → (release_desc mem (some d)).procmemlist tmo_index ≡ some d
unfolding release_desc release_mem
head-release_desc mem d = refl

-- If a unit's timeout queue is in time order, has no entry of the process for the time (as after the
-- timeout fired), and has a later entry `c`, the first of these, then disabling the guard puts the
-- block of `c` on the allocator's free list, and `c` stays in the queue.
pub disable_frees_queued :
    (w : World) (cpu : ℕ) (time now : ℤ) (proc c : ℕ) (ds : List ℕ)
    → Timeouts w.timers (pun_of w.machine proc) ds
    → All (λ q. matches w.timers time proc q ≡ false) ds
    → first (drop_while (λ q. leb_ℤ (time_of w.timers q) time) ds) ≡ some c
    → let w1 = (disable_timeout w cpu time proc now).0 in
      (w1.memory.procmemlist tmo_index ≡ some c) × Timeouts w1.timers (pun_of w.machine proc) ds
unfolding disable_timeout
disable_frees_queued w cpu time now proc c ds q m e =
    rw (remove_from_queue-absent w.timers (pun_of w.machine proc) time proc ds q m, e)
      (head-release_desc w.memory c, q)

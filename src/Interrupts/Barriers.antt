-- ===== src/Interrupts/Barriers.antt =====
-- Which child wakes the parent of a parallel construct.
use cxp.Common.{ap, ℕ, zero, suc, ◌<◌, ◌-◌, ◌≡◌, refl, arith}
use cxp.Common.Int.{pos}
use cxp.Common.Outcome.{Outcome, done, ◌>>=◌}
use cxp.Machine.{Machine}
use cxp.Sched.{schedule}
use cxp.Interrupts.{ParBarrier, par_barr_init, par_barr_sync}

-- `n` children are done, one after the other.
unfoldable sync_times : ℕ → Machine → ParBarrier → ℕ → Outcome (Machine × ParBarrier)
unfolding par_barr_sync
sync_times zero m b cpu = done (m, b)
sync_times (suc n) m b cpu = par_barr_sync m b cpu >>= λ r. sync_times n r.0 r.1 cpu

abbrev barrier : ℕ → ℕ → ParBarrier
barrier parent c = record { parent = parent; children = pos c }

sync_early :
    (m : Machine) (parent cpu c : ℕ)
    → 1 < c
    → par_barr_sync m (barrier parent c) cpu ≡ done (m, barrier parent (c - 1))
unfolding par_barr_sync
sync_early m parent cpu c h = ground arith

sync_lem :
    (n c : ℕ) (m : Machine) (parent cpu : ℕ)
    → c ≡ suc n
    → sync_times n m (barrier parent c) cpu ≡ done (m, barrier parent 1)
unfolding sync_times
sync_lem zero c m parent cpu e = ap (λ (x : ℕ). done (m, barrier parent x)) e
sync_lem (suc n) c m parent cpu e =
    rw (sync_early m parent cpu c (omega (arith, e)))
      (sync_lem n (c - 1) m parent cpu (omega (arith, e)))

-- Of `n + 1` children the first `n` leave the scheduler alone, and the last one schedules the parent.
barrier_last :
    (n : ℕ) (m : Machine) (parent cpu : ℕ)
    → (b : ParBarrier) × (sync_times n m (par_barr_init parent (suc n)) cpu ≡ done (m, b))
      × (par_barr_sync m b cpu ≡ (
          schedule m cpu parent >>= λ m1. done (m1, record { parent = parent; children = pos 0 })))
unfolding par_barr_init par_barr_sync
barrier_last n m parent cpu = (barrier parent 1, sync_lem n (suc n) m parent cpu refl, refl)

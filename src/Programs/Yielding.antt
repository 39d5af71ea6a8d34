-- ===== src/Programs/Yielding.antt =====
-- yield.c: two children of a parallel construct that print and give up the unit in turn.
use cxp.Common.{ℕ, zero, suc, true, false, List, [], ◌∷◌, update, ◌==◌}
use cxp.Common.Outcome.{Outcome, done, spins, ◌>>=◌}
use cxp.Sched.{get_current, relinquish, yield}
use cxp.Interrupts.{ParBarrier}
use cxp.Spawn.{par}
use cxp.System.{System, set_machine, end_in_par}

-- The children, by the rounds that each has left: the process that has the unit prints and yields, or ends.
-- The list is the processes that print, in order. It ends when the parent has the unit again.
unfoldable pub children_run :
    ℕ → System → ParBarrier → ℕ → (ℕ → ℕ) → Outcome (System × ParBarrier × List ℕ)
unfolding end_in_par yield
children_run zero s b cpu rounds = spins
children_run (suc f) s b cpu rounds =
    let p = get_current s.world.machine cpu in
    elim (p == b.parent) [
      | true ↦ done (s, b, [])
      | false ↦ elim (rounds p) [
        | zero ↦ end_in_par s b cpu >>= λ r. children_run f r.0 r.1 cpu rounds
        | suc n ↦ yield s.world.machine cpu >>= λ m.
            children_run f (set_machine s m) b cpu (update rounds p n) >>= λ r.
            done (r.0, r.1, p ∷ r.2)
      ]
    ]

-- `main`, up to the end of the parallel construct.
unfoldable pub yield_program : ℕ → System → ℕ → ℕ → (ℕ → ℕ) → Outcome (System × ParBarrier × List ℕ)
unfolding par relinquish children_run
yield_program size s cpu fuel rounds = do
  (w, b) ← par size s.world cpu (2000 ∷ 2000 ∷ [])
  m ← relinquish w.machine cpu
  children_run fuel (record s { world = record w { machine = m } }) b cpu rounds

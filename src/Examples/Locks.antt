-- ===== src/Examples/Locks.antt =====
-- Instances of the theorems about the mutex.
use cxp.Common.{ℕ, suc, ◌/◌, ◌≡◌, refl, true, false, some, arith, ltb}
use cxp.Mutex.{Pc, trials_before_yield, claim, trying, holding, start, win, lose}
use cxp.Mutex.Exclusion.{Shared, pick, Reach, initial, next, moved, mutual_exclusion}
use cxp.Mutex.Claiming.{claim_returns}

-- Process 1 holds the mutex, and process 2 has tried once.
abbrev tried_once : Shared
tried_once =
    moved
      (moved
        (moved (moved (record { claimed = false; pc = λ i. Pc.outside }) 1 false (trying 0)) 2 false
          (trying 0))
        1 true holding)
      2 true (trying 1)

tried_once-Reach : Reach tried_once
tried_once-Reach =
    next (next (next (next initial (pick 1 start)) (pick 2 start)) (pick 1 (win refl)))
      (pick 2 (lose refl (omega arith)))

mutual_exclusion_example : ◌≡◌ {A = ℕ} 1 1
mutual_exclusion_example = mutual_exclusion tried_once-Reach 1 1 refl refl

-- Twelve exchanges fail.
claim_returns_example : claim (suc (12 / trials_before_yield)) (λ n. ltb n 12) 0 0 ≡ some (13, 2)
claim_returns_example = claim_returns (λ n. ltb n 12) 12 refl (λ j l. ground (arith, l))

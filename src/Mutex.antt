-- ===== src/Mutex.antt =====
-- The mutex (mutex.c): the loop of `claim_mutex` for one process, and the same code as atomic steps
-- of several processes that share one mutex.
pub mod Exclusion
pub mod Claiming
use cxp.Common.{ℕ, zero, suc, ◌<◌, ◌≡◌, Bool, true, false, Option, none, some}

-- TRIALS_BEFORE_YIELD
abbrev pub trials_before_yield : ℕ
trials_before_yield = 5

-- init_mutex
abbrev pub init_mutex : Bool
init_mutex = false

-- The inner loop, with `left` exchanges to go; `seen n` is what the n-th exchange returns. The last
-- value that was seen, and the number of exchanges so far.
unfoldable pub trials : (ℕ → Bool) → ℕ → ℕ → Bool × ℕ
trials seen zero n = (true, n)
trials seen (suc left) n = elim (seen n) [
  | true ↦ trials seen left (suc n)
  | false ↦ (false, suc n)
]

-- `claim_mutex`, on fuel for its rounds: the number of exchanges and of yields until it returns.
unfoldable pub claim : ℕ → (ℕ → Bool) → ℕ → ℕ → Option (ℕ × ℕ)
unfolding trials
claim zero seen n yields = none
claim (suc rounds) seen n yields =
    let (old, n1) = trials seen trials_before_yield n in
    elim old [ true ↦ claim rounds seen n1 (suc yields) | false ↦ some (n1, yields) ]

-- Where a process stands: `trying i` has made `i` exchanges in this round.
pub data Pc : Type 0 where
  outside : Pc
  trying : (i : ℕ) → Pc
  yielding : Pc
  holding : Pc

-- One atomic step of a process that finds the mutex at `c`.
pub data Move (c : Bool) : Pc → Bool → Pc → Type 0 where
  start : Move c outside c (trying 0)
  win : {i : ℕ} → c ≡ false → Move c (trying i) true holding
  lose : {i : ℕ} → c ≡ true → suc i < trials_before_yield → Move c (trying i) true (trying (suc i))
  give_up : {i : ℕ} → c ≡ true → suc i ≡ trials_before_yield → Move c (trying i) true yielding
  resume : Move c yielding c (trying 0)
  release : Move c holding false outside

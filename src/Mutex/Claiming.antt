-- ===== src/Mutex/Claiming.antt =====
-- How long a claim takes (mutex.c).
use cxp.Common.{
  ℕ, zero, suc, ◌+◌, ◌*◌, ◌/◌, ◌%◌, ◌≤◌, ◌<◌, ◌≡◌, ap, ◌∙◌, Bool, true, false, Option, some, arith,
  subst, sym,
}
use cxp.Mutex.{trials_before_yield, trials, claim}

module _ (seen : ℕ → Bool) (t : ℕ) (free : seen t ≡ false) where
  -- From the `n`-th exchange to the `t`-th one, all but the last find the mutex claimed.
  abbrev Busy : ℕ → ℕ → Type 0
  Busy n m = (j : ℕ) → n ≤ j → j < m → seen j ≡ true

  trials_won :
      (d left n : ℕ) → d < left → n + d ≡ t → Busy n t → trials seen left n ≡ (false, suc t)
  unfolding trials
  trials_won d zero n h e b = absurd (omega (arith, h))
  trials_won zero (suc left) n h e b =
      let same : n ≡ t = omega (arith, e) in
      rw (subst (λ (x : ℕ). seen x ≡ false) (sym same) free, trials)
        (ap (λ (x : ℕ). (false, suc x)) same)
  trials_won (suc d) (suc left) n h e b =
      rw (b n (omega arith) (omega (arith, e)), trials)
        (trials_won d left (suc n) (omega (arith, h)) (omega (arith, e))
          (λ j l g. b j (omega (arith, l)) g))

  trials_lost : (left n : ℕ) → Busy n (n + left) → trials seen left n ≡ (true, n + left)
  unfolding trials
  trials_lost zero n b = ap (λ (x : ℕ). (true, x)) (omega arith)
  trials_lost (suc left) n b =
      rw (b n (omega arith) (omega arith), trials)
        (trials_lost left (suc n) (λ j l g. b j (omega (arith, l)) (omega (arith, g)))
          ∙ ap (λ (x : ℕ). (true, x)) (omega arith))

  -- What follows a round that ended with `r`.
  abbrev after : ℕ → ℕ → Bool × ℕ → Option (ℕ × ℕ)
  after f yields r = elim r.0 [ true ↦ claim f seen r.1 (suc yields) | false ↦ some (r.1, yields) ]

  claim_won :
      (n yields : ℕ)
      → trials seen trials_before_yield n ≡ (false, suc t)
      → claim 1 seen n yields ≡ some (suc t, yields)
  unfolding claim
  claim_won n yields e = ap (λ (r : Bool × ℕ). after 0 yields r) e

  claim_lost :
      (f n n1 yields : ℕ)
      → trials seen trials_before_yield n ≡ (true, n1)
      → claim (suc f) seen n yields ≡ claim f seen n1 (suc yields)
  unfolding claim
  claim_lost f n n1 yields e = ap (λ (r : Bool × ℕ). after f yields r) e

  claim_lem :
      (q r n yields : ℕ)
      → r < trials_before_yield
      → n + q * 5 + r ≡ t
      → Busy n t
      → claim (suc q) seen n yields ≡ some (suc t, yields + q)
  unfolding claim
  claim_lem zero r n yields h e b =
      claim_won n yields (trials_won r trials_before_yield n h (omega (arith, e)) b)
      ∙ ap (λ (x : ℕ). some (suc t, x)) (omega arith)
  claim_lem (suc q) r n yields h e b =
      claim_lost (suc q) n (n + trials_before_yield) yields
        (trials_lost trials_before_yield n (λ j l g. b j l (omega (arith, g, e))))
      ∙ (claim_lem q r (n + trials_before_yield) (suc yields) h (omega (arith, e))
            (λ j l g. b j (omega (arith, l)) g)
          ∙ ap (λ (x : ℕ). some (suc t, x)) (omega arith))

-- If the `t`-th exchange is the first that finds the mutex free, the claim returns right after it, and
-- has yielded once for every five exchanges before it.
pub claim_returns :
    (seen : ℕ → Bool) (t : ℕ)
    → seen t ≡ false
    → ((j : ℕ) → j < t → seen j ≡ true)
    → claim (suc (t / trials_before_yield)) seen 0 0 ≡ some (suc t, t / trials_before_yield)
claim_returns seen t free busy =
    claim_lem seen t free (t / 5) (t % 5) 0 0 (omega arith) (omega arith) (λ j l g. busy j g)
    ∙ ap (λ (x : ℕ). some (suc t, x)) (omega arith)

-- ===== src/Sched/Take.antt =====
-- `take`: the processes that other units made ready come to the ready queue, and the first of all
-- the ready processes leaves it.
use mathlib.Core.List.{Perm}
use mathlib.Core.List.Perm
use cxp.Common.{
  ℕ, ◌+◌, ◌≤◌, ◌<◌, ◌≡◌, refl, ap, some, arith, length, length-append, List, ◌∷◌, [], ◌++◌, All,
  Fresh,
}
use cxp.Common.Chain.{list_fuel}
use cxp.Machine.{Machine, pun_of}
use cxp.Ready.{pop}
use cxp.Ready.Queues.{pop-Ready}
use cxp.Ready.Order.{Ready, value_of}
use cxp.Ipq.{qsize}
use cxp.Ipq.Fifo.{Holds}
use cxp.Sched.{drain, take}
use cxp.Sched.Inbox.{Kept, Kept-trans, Inbox, Drained, drain-Drained}

-- What is known when `p` has been taken from the ready queue of unit `k` and `qs` are left.
pub record Taken (m m' : Machine) (k p : ℕ) (qs : List ℕ) : Type 0 where
  pub queue : Ready m' k qs
  pub home : pun_of m' p ≡ k
  pub away : Fresh p qs
  pub top : All (λ q. value_of m' p ≤ value_of m' q) qs
  pub inbox : Holds (m'.ip_ques k) []
  pub kept : Kept k m m'

pop-Taken :
    (m m' : Machine) (k p : ℕ) (xs ps qs : List ℕ)
    → Drained m m' k xs ps (p ∷ qs)
    → Taken m (pop m' k).1 k p qs
unfolding pop
pop-Taken m m' k p xs ps qs d =
    let q = (pop-Ready m' k p qs d.queue).1 in
    let e = d.queue.chain.0 in
    rw (e, pop)
      (record {
        queue = rw (e, pop) at q;
        home = d.queue.at.0;
        away = d.queue.distinct.0;
        top = d.queue.sorted.0;
        inbox = d.inbox;
        kept =
            Kept-trans k d.kept
              (record { current = refl; current_pri = refl; running = refl; process = λ q. refl });
      })

-- If any process is ready, here or in the interprocessor queue, `take` gives one that no other has
-- a higher priority than, and leaves the others ready.
pub take-Taken :
    (m : Machine) (k : ℕ) (xs ps : List ℕ)
    → Inbox m k xs ps
    → Ready m k ps
    → length xs + length ps < list_fuel
    → 0 < length xs + length ps
    → (p : ℕ) × (qs : List ℕ) × ((take m k k).0 ≡ some p)
      × Taken m (take m k k).1 k p qs
      × Perm (p ∷ qs) (xs ++ ps)
unfolding take
take-Taken m k xs ps i r len some_ready =
    let (qs, d) = drain-Drained qsize m k xs ps i.holds.room i r len in pop_some qs d
  where
    pop_some :
        (qs : List ℕ)
        → Drained m (drain qsize m k) k xs ps qs
        → (p : ℕ) × (rest : List ℕ) × ((take m k k).0 ≡ some p)
          × Taken m (take m k k).1 k p rest
          × Perm (p ∷ rest) (xs ++ ps)
    pop_some [] d = absurd (omega (arith, length-append xs ps, ap length (Perm.nil-eq d.perm)))
    pop_some (p ∷ rest) d = (
      p,
      rest,
      (pop-Ready _ k p rest d.queue).0,
      pop-Taken m (drain qsize m k) k p xs ps rest d,
      d.perm,
    )

-- ===== src/Sched/Switch.antt =====
-- Giving up a unit: `relinquish`, `relinquish_unconditional`.
use mathlib.Core.List.{Perm}
use cxp.Common.{
  ℕ, ◌+◌, ◌<◌, ◌≡◌, refl, sym, subst, Option, none, some, arith, update, length, List, ◌∷◌, [],
  ◌++◌, ==-refl,
}
use cxp.Common.Outcome.{done}
use cxp.Common.Chain.{list_fuel}
use cxp.Machine.{Machine, pri_of, pun_of}
use cxp.Ready.Order.{Ready}
use cxp.Ipq.Fifo.{Holds}
use cxp.Sched.{take, dispatch, disable, enable, switch_context, relinquish_unconditional}
use cxp.Sched.View.{Cpu, Ready-keep}
use cxp.Sched.Inbox.{Inbox}
use cxp.Sched.Take.{Taken, take-Taken}

-- A unit that has been given to the process that was taken.
pub record Given (m m' : Machine) (k p : ℕ) (qs : List ℕ) : Type 0 where
  pub cpu : Cpu m' k qs
  pub runs : m'.current k ≡ p
  pub inbox : Holds (m'.ip_ques k) []
  pub process : (q : ℕ) → record (m'.procs q) { next = none } ≡ record (m.procs q) { next = none }

given : Machine → ℕ → ℕ → Machine
unfolding switch_context
given m k p =
    switch_context
      (record m {
        current = update m.current k p;
        current_pri = update m.current_pri k (pri_of m p);
      })
      k p

given-Given :
    (m m' : Machine) (k p : ℕ) (qs : List ℕ) → Taken m m' k p qs → Given m (given m' k p) k p qs
unfolding given
given-Given m m' k p qs t = record {
  cpu = record {
    queue = Ready-keep m' (given m' k p) k qs refl refl t.queue;
    home = rw (==-refl k) t.home;
    away = rw (==-refl k) t.away;
    top = rw (==-refl k) t.top;
    runs = rw (==-refl k) refl;
    known = rw (==-refl k) refl;
  };
  runs = rw (==-refl k) refl;
  inbox = t.inbox;
  process = t.kept.process;
}

dispatch_lem :
    (r : Option ℕ × Machine) (k p : ℕ)
    → r.0 ≡ some p
    → pun_of r.1 p ≡ k
    → dispatch r k ≡ done (given r.1 k p)
unfolding dispatch given
dispatch_lem (none, m) k p e h = cc
dispatch_lem (some q, m) k p e h =
    let same : q ≡ p = ground arith in
    subst (λ (x : ℕ). dispatch (some x, m) k ≡ done (given m k p)) (sym same)
      (rw (h, ==-refl k) refl)

-- A unit that takes the next process and gives itself to it, with interrupts disabled.
pub dispatch-Given :
    (m : Machine) (k : ℕ) (xs ps : List ℕ)
    → Inbox m k xs ps
    → Ready m k ps
    → length xs + length ps < list_fuel
    → 0 < length xs + length ps
    → (m' : Machine) × (p : ℕ) × (qs : List ℕ) × (dispatch (take (disable m k) k k) k ≡ done m')
      × Given m m' k p qs
      × Perm (p ∷ qs) (xs ++ ps)
unfolding disable
dispatch-Given m k xs ps i r len some_ready =
    let m0 = disable m k in
    let i0 : Inbox m0 k xs ps = record {
      holds = i.holds;
      at = i.at;
      distinct = i.distinct;
      apart = i.apart;
    } in
    let r0 = Ready-keep m m0 k ps refl refl r in
    let (p, qs, e, t, perm) = take-Taken m0 k xs ps i0 r0 len some_ready in
    let g = given-Given m0 (take m0 k k).1 k p qs t in
    (
      given (take m0 k k).1 k p,
      p,
      qs,
      dispatch_lem (take m0 k k) k p e t.home,
      record { cpu = g.cpu; runs = g.runs; inbox = g.inbox; process = g.process },
      perm,
    )

-- `relinquish_unconditional` succeeds if a process is ready, here or in the interprocessor queue. The
-- unit then runs one of these that no other of them has a higher priority than, the others are ready,
-- the interprocessor queue is empty, and nothing of a process record but its link has changed.
pub relinquish_unconditional-Given :
    (m : Machine) (k : ℕ) (xs ps : List ℕ)
    → Inbox m k xs ps
    → Ready m k ps
    → pun_of m (m.current k) ≡ k
    → length xs + length ps < list_fuel
    → 0 < length xs + length ps
    → (m' : Machine) × (p : ℕ) × (qs : List ℕ) × (relinquish_unconditional m k ≡ done m')
      × Given m m' k p qs
      × Perm (p ∷ qs) (xs ++ ps)
unfolding relinquish_unconditional enable
relinquish_unconditional-Given m k xs ps i r home len some_ready =
    let (m1, p, qs, e, g, perm) = dispatch-Given m k xs ps i r len some_ready in
    (
      enable m1 k,
      p,
      qs,
      rw (home, e) refl,
      record {
        cpu = record {
          queue = Ready-keep m1 (enable m1 k) k qs refl refl g.cpu.queue;
          home = g.cpu.home;
          away = g.cpu.away;
          top = g.cpu.top;
          runs = g.cpu.runs;
          known = g.cpu.known;
        };
        runs = g.runs;
        inbox = g.inbox;
        process = g.process;
      },
      perm,
    )

-- ===== src/Sched/Yielding.antt =====
-- `yield`: the current process lets another one run, also one of a lower priority, as `claim_mutex`
-- needs it (sched.c).
use mathlib.Core.List.{Perm}
use mathlib.Core.List.Perm
use native.Mathlib.Bridge.{le_prop}
use cxp.Common.{
  ℕ, ◌+◌, ◌≤◌, ◌<◌, ◌≡◌, ◌≢◌, refl, sym, subst, ap, ◌∙◌, arith, length, length-append, List, ◌∷◌,
  [], ◌++◌, All, Fresh, Fresh-append,
}
use cxp.Common.Perms.{All-perm, Fresh-perm, length-perm}
use cxp.Common.Outcome.{done}
use cxp.Common.Chain.{list_fuel}
use cxp.Machine.{Machine}
use cxp.Priority.{pri_value}
use cxp.Ready.Order.{value_of}
use cxp.Ipq.{qsize}
use cxp.Ipq.Fifo.{Holds}
use cxp.Sched.{disable, enable, drain, pop1, take1, yield_to, yield}
use cxp.Sched.View.{Ready-keep}
use cxp.Sched.Inbox.{Kept-pri, Kept-pun, Inbox, Drained, drain-Drained}
use cxp.Sched.Interrupted.{Interrupted}
use cxp.Sched.Replacing.{
  popped, pop1-some, popped-Ready, pop1-none, replaced, yield_to-some, replaced-Interrupted,
}

-- What `yield` leaves of the unit's processes.
pub record Yielded (m m' : Machine) (k : ℕ) (xs ps : List ℕ) : Type 0 where
  pub ready : List ℕ
  pub unit : Interrupted m' k ready
  pub inbox : Holds (m'.ip_ques k) []
  pub perm : Perm (m'.current k ∷ ready) (m.current k ∷ xs ++ ps)
  pub alone : length xs + length ps ≤ 1 → m'.current k ≡ m.current k
  pub other :
      1 < length xs + length ps
      → (m'.current k ≢ m.current k)
        × All (λ q. value_of m (m'.current k) ≤ value_of m q) (xs ++ ps)

Interrupted-enable :
    (m : Machine) (k : ℕ) (ps : List ℕ) → Interrupted m k ps → Interrupted (enable m k) k ps
unfolding enable
Interrupted-enable m k ps i = record {
  queue = Ready-keep m _ k ps refl refl i.queue;
  home = i.home;
  away = i.away;
  runs = i.runs;
  known = i.known;
}

module _ (m : Machine) (k : ℕ) (xs ps : List ℕ) (i : Interrupted m k ps)
    (f : Fresh (m.current k) xs) (len : length xs + length ps < list_fuel) where
  abbrev closed : Machine
  closed = disable m k

  stay :
      (d : Machine) (qs : List ℕ)
      → Drained closed d k xs ps qs
      → length qs ≤ 1
      → (m' : Machine) × (yield_to (m.current k) (pop1 d k) k ≡ done m') × Yielded m m' k xs ps
  unfolding disable yield_to
  stay d qs x l =
      let size = length-perm x.perm in
      (
        d,
        rw (pop1-none d k qs x.queue l) refl,
        record {
          ready = qs;
          unit = record {
            queue = x.queue;
            home = rw (x.kept.current, Kept-pun k x.kept) i.home;
            away =
                rw x.kept.current
                  (Fresh-perm (m.current k) (Perm.symm x.perm) (Fresh-append _ xs ps f i.away));
            runs = x.kept.running ∙ i.runs ∙ sym x.kept.current;
            known = rw (x.kept.current, Kept-pri k x.kept) (x.kept.current_pri ∙ i.known);
          };
          inbox = x.inbox;
          perm = rw x.kept.current (Perm.cons (m.current k) x.perm);
          alone = λ h. x.kept.current;
          other = λ h. absurd (omega (arith, h, l, size, length-append xs ps));
        },
      )

  -- Once the interprocessor queue is empty, with the ready processes `qs`.
  yield_from :
      (d : Machine) (qs : List ℕ)
      → Drained closed d k xs ps qs
      → (m' : Machine) × (yield_to (m.current k) (pop1 d k) k ≡ done m') × Yielded m m' k xs ps
  unfolding disable yield_to
  yield_from d [] x = stay d [] x (omega arith)
  yield_from d (p ∷ []) x = stay d (p ∷ []) x (omega arith)
  yield_from d (p ∷ q ∷ rest) x =
      let fresh = Fresh-perm (m.current k) (Perm.symm x.perm) (Fresh-append _ xs ps f i.away) in
      let e = popped d k p q rest x.queue in
      let size = length-perm x.perm in
      let (ready, unit, perm, here, ips) =
        replaced-Interrupted e k (m.current k) p (q ∷ rest) (popped-Ready d k p q rest x.queue)
          x.queue.at.0 (ap (λ (g : ℕ → ℕ). g (m.current k)) (Kept-pun k x.kept) ∙ i.home)
          (λ s. fresh.0 (sym s)) x.queue.distinct.0 fresh.1
          (omega (arith, len, size, length-append xs ps)) in
      (
        replaced e k (m.current k) p,
        rw (pop1-some d k p q rest x.queue) (yield_to-some e k (m.current k) p x.queue.at.0),
        record {
          ready = ready;
          unit = unit;
          inbox = rw ips x.inbox;
          perm = Perm.trans perm (Perm.cons (m.current k) x.perm);
          alone = λ l. absurd (omega (arith, l, size, length-append xs ps));
          other = λ l. (
            rw here (λ s. fresh.0 (sym s)),
            rw here (
                All-perm (λ y. value_of m p ≤ value_of m y) (λ y. le_prop) x.perm
                  (
                    omega arith,
                    subst (λ (g : ℕ → ℕ). All (λ y. pri_value (g p) ≤ pri_value (g y)) (q ∷ rest))
                        (Kept-pri k x.kept) x.queue.sorted.0,
                  )),
          );
        },
      )

  -- `yield` succeeds. With no other process than the idle one ready the current process keeps the unit.
  -- Otherwise another process gets it, which none of the other ready ones has a higher priority than,
  -- also if the one that yields has; that one is ready. No process is lost.
  pub yield-Yielded :
      Inbox m k xs ps → (m' : Machine) × (yield m k ≡ done m') × Yielded m m' k xs ps
  unfolding yield take1 disable
  yield-Yielded b =
      let i0 : Inbox closed k xs ps = record {
        holds = b.holds;
        at = b.at;
        distinct = b.distinct;
        apart = b.apart;
      } in
      let (qs, x) =
        drain-Drained qsize closed k xs ps b.holds.room i0
          (Ready-keep m closed k ps refl refl i.queue) len in
      let (m', e, y) = yield_from (drain qsize closed k) qs x in
      (
        enable m' k,
        rw (i.home, e) refl,
        record {
          ready = y.ready;
          unit = Interrupted-enable m' k y.ready y.unit;
          inbox = y.inbox;
          perm = y.perm;
          alone = y.alone;
          other = y.other;
        },
      )

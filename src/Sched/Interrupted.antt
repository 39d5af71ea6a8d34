-- ===== src/Sched/Interrupted.antt =====
-- The end of an interrupt handler (`schedule_from_interrupt` of sched.c).
use mathlib.Core.List.{Perm}
use mathlib.Core.List.Perm
use native.Mathlib.Bridge.{le_prop}
use cxp.Common.{
  ℕ, ◌+◌, ◌≤◌, ◌<◌, ◌≡◌, refl, sym, subst, ap, fun_ext, ◌∙◌, inl, inr, Option, none, some, arith,
  update, length, List, ◌∷◌, [], ◌++◌, All, Fresh, false, Bool-cases, ==-refl, length-append,
  take-append-drop_while, Fresh-append, All-append_right,
}
use cxp.Common.Perms.{All-perm, Fresh-perm, length-perm}
use cxp.Common.Insertion.{All-mono}
use cxp.Common.Outcome.{done}
use cxp.Common.Chain.{list_fuel}
use cxp.Machine.{Process, Machine, pri_of, pun_of}
use cxp.Priority.{pri_le, pri_value, pri_gt}
use cxp.Ready.{enqueue0}
use cxp.Ready.Order.{Ready, value_of, enqueued}
use cxp.Sched.{take, preempt_by, switch_context, schedule_from_interrupt}
use cxp.Ipq.Fifo.{Holds}
use cxp.Sched.View.{Cpu}
use cxp.Sched.Preempt.{enqueue0-rest, insert-perm, pri_of-enqueue0, pun_of-enqueue0, enqueued-Cpu}
use cxp.Sched.Inbox.{Inbox}
use cxp.Sched.Take.{Taken, take-Taken}

-- A unit in an interrupt handler: as `Cpu`, but a ready process may be above the current one.
pub record Interrupted (m : Machine) (k : ℕ) (ps : List ℕ) : Type 0 where
  pub queue : Ready m k ps
  pub home : pun_of m (m.current k) ≡ k
  pub away : Fresh (m.current k) ps
  pub runs : m.running k ≡ m.current k
  pub known : m.current_pri k ≡ pri_of m (m.current k)

module _ (m : Machine) (k : ℕ) where
  Cpu-of_top :
      (ps : List ℕ)
      → Interrupted m k ps
      → All (λ q. value_of m (m.current k) ≤ value_of m q) ps
      → Cpu m k ps
  Cpu-of_top ps i t = record {
    queue = i.queue;
    home = i.home;
    away = i.away;
    top = t;
    runs = i.runs;
    known = i.known;
  }

  quiet :
      (p : ℕ) (ps : List ℕ)
      → Interrupted m k (p ∷ ps)
      → pri_gt (pri_of m p) (pri_of m (m.current k)) ≡ false
      → Cpu m k (p ∷ ps)
  quiet p ps i e =
      let l : value_of m (m.current k) ≤ value_of m p = ground arith in
      Cpu-of_top (p ∷ ps) i (l, All-mono (value_of m) _ (value_of m p) ps l i.queue.sorted.0)

-- The unit after `p`, which was taken from the queue, has displaced `cur`.
preempted : Machine → ℕ → ℕ → ℕ → Machine
unfolding switch_context
preempted m k cur p =
    let m1 = enqueue0 m cur in
    switch_context
      (record m1 {
        current = update m1.current k p;
        current_pri = update m1.current_pri k (pri_of m1 p);
      })
      k p

preempted-current : (m : Machine) (k cur p : ℕ) → (preempted m k cur p).current k ≡ p
unfolding preempted switch_context
preempted-current m k cur p = rw (==-refl k) refl

preempt_by_lem :
    (r : Option ℕ × Machine) (k cur p : ℕ)
    → r.0 ≡ some p
    → pun_of r.1 p ≡ k
    → preempt_by cur r k ≡ done (preempted r.1 k cur p)
unfolding preempt_by preempted
preempt_by_lem (none, m) k cur p e h = cc
preempt_by_lem (some q, m) k cur p e h =
    let same : q ≡ p = ground arith in
    subst (λ (x : ℕ). preempt_by cur (some x, m) k ≡ done (preempted m k cur p)) (sym same)
      (rw (pun_of-enqueue0 m cur, h, ==-refl k) refl)

module _ (m m1 : Machine) (k p : ℕ) (ps qs : List ℕ) (i : Interrupted m k ps)
    (t : Taken m m1 k p qs) where
  abbrev cur : ℕ
  cur = m.current k

  same_value : (q : ℕ) → value_of m1 q ≡ value_of m q
  same_value q = ap (λ (x : Process). pri_value x.pri) (t.kept.process q)

  preempted-Cpu :
      Fresh cur (p ∷ qs)
      → length qs + 1 < list_fuel
      → value_of m p ≤ value_of m cur
      → Cpu (preempted m1 k cur p) k (enqueued m1 cur qs)
        × Perm ((preempted m1 k cur p).current k ∷ enqueued m1 cur qs) (cur ∷ p ∷ qs)
  unfolding preempted switch_context
  preempted-Cpu f len le =
      let here : (preempted m1 k cur p).current k ≡ p = rw (==-refl k) refl in
      let at : pun_of m1 cur ≡ k = ap (λ (x : Process). x.pun) (t.kept.process cur) ∙ i.home in
      (
        enqueued-Cpu m1 (preempted m1 k cur p) k cur p qs t.queue at f.1 len t.home
            (λ e. f.0 (sym e)) t.away (omega (arith, le, same_value p, same_value cur)) t.top refl
            refl here (rw (==-refl k) refl)
            (rw (==-refl k) (ap (λ (g : ℕ → ℕ). g p) (pri_of-enqueue0 m1 cur))),
        rw here (
            insert-perm cur p _ _ qs
              (take-append-drop_while (λ (q : ℕ). pri_le (pri_of m1 cur) (pri_of m1 q)) qs)),
      )

-- The unit is in order, and no process is lost: each runs, is ready, or is still in the inbox.
pub record Settled (m m' : Machine) (k : ℕ) (xs ps : List ℕ) : Type 0 where
  pub inbox : List ℕ
  pub ready : List ℕ
  pub cpu : Cpu m' k ready
  pub holds : Holds (m'.ip_ques k) inbox
  pub perm : Perm (m'.current k ∷ inbox ++ ready) (m.current k ∷ xs ++ ps)
  pub highest : All (λ q. value_of m (m'.current k) ≤ value_of m q) (m.current k ∷ ps)

module _ (m : Machine) (k : ℕ) (xs : List ℕ) where
  taken-Settled :
      (h : ℕ) (ps : List ℕ)
      → Inbox m k xs (h ∷ ps)
      → Interrupted m k (h ∷ ps)
      → Fresh (m.current k) xs
      → length xs + length (h ∷ ps) < list_fuel
      → value_of m h ≤ value_of m (m.current k)
      → (m' : Machine) × (preempt_by (m.current k) (take m k k) k ≡ done m')
        × Settled m m' k xs (h ∷ ps)
  unfolding preempted switch_context
  taken-Settled h ps b i f len above =
      let (p, qs, e, t, perm) = take-Taken m k xs (h ∷ ps) b i.queue len (omega arith) in
      let m1 = (take m k k).1 in
      let fresh : Fresh (m.current k) (p ∷ qs) =
        Fresh-perm _ (Perm.symm perm) (Fresh-append _ xs (h ∷ ps) f i.away) in
      let top : All (λ q. value_of m p ≤ value_of m q) (xs ++ h ∷ ps) =
        All-perm (λ q. value_of m p ≤ value_of m q) (λ q. le_prop) perm
          (
            omega arith,
            subst (λ (g : ℕ → ℕ). All (λ q. g p ≤ g q) qs)
                (fun_ext (same_value m m1 k p (h ∷ ps) qs i t)) t.top,
          ) in
      let rest = All-append_right (λ q. value_of m p ≤ value_of m q) xs (h ∷ ps) top in
      let le : value_of m p ≤ value_of m (m.current k) = omega (arith, rest.0, above) in
      let (cpu, moved) =
        preempted-Cpu m m1 k p (h ∷ ps) qs i t fresh
          (omega (arith, len, length-perm perm, length-append xs (h ∷ ps))) le in
      (
        preempted m1 k (m.current k) p,
        preempt_by_lem (take m k k) k (m.current k) p e t.home,
        record {
          inbox = [];
          ready = enqueued m1 (m.current k) qs;
          cpu = cpu;
          holds =
              subst (λ (x : Machine). Holds (x.ip_ques k) []) (sym (enqueue0-rest m1 (m.current k)))
                t.inbox;
          perm = Perm.trans moved (Perm.cons (m.current k) perm);
          highest =
              subst (λ (c : ℕ). All (λ q. value_of m c ≤ value_of m q) (m.current k ∷ h ∷ ps))
                (sym (preempted-current m1 k (m.current k) p)) (le, rest);
        },
      )

-- At the end of an interrupt handler, with the unit's own queue and its interprocessor queue in good
-- shape, `schedule_from_interrupt` succeeds and leaves the unit running a process that no ready one
-- has a higher priority than. Every process from before runs, is ready, or is still in the
-- interprocessor queue, which holds exactly these.
pub schedule_from_interrupt-Settled :
    (m : Machine) (k : ℕ) (xs ps : List ℕ)
    → Inbox m k xs ps
    → Interrupted m k ps
    → Fresh (m.current k) xs
    → length xs + length ps < list_fuel
    → (m' : Machine) × (schedule_from_interrupt m k ≡ done m') × Settled m m' k xs ps
unfolding schedule_from_interrupt
schedule_from_interrupt-Settled m k xs [] b i f len = (
  m,
  rw (i.home, i.queue.chain, schedule_from_interrupt) refl,
  record {
    inbox = xs;
    ready = [];
    cpu = Cpu-of_top m k [] i tt;
    holds = b.holds;
    perm = Perm.refl _;
    highest = (omega arith, tt);
  },
)
schedule_from_interrupt-Settled m k xs (h ∷ ps) b i f len =
    elim (Bool-cases (pri_gt (pri_of m h) (pri_of m (m.current k)))) [
      | inl gt ↦
          let (m', e, s) = taken-Settled m k xs h ps b i f len (ground arith) in
          (m', rw (i.home, i.queue.chain.0, gt, schedule_from_interrupt, i.home) e, s)
      | inr le ↦
          let c = quiet m k h ps i le in
          (
            m,
            rw (i.home, i.queue.chain.0, le, schedule_from_interrupt) refl,
            record {
              inbox = xs;
              ready = h ∷ ps;
              cpu = c;
              holds = b.holds;
              perm = Perm.refl _;
              highest = (omega arith, c.top);
            },
          )
    ]

-- On a unit in order `schedule_from_interrupt` changes nothing.
pub schedule_from_interrupt-top :
    (m : Machine) (k : ℕ) (ps : List ℕ) → Cpu m k ps → schedule_from_interrupt m k ≡ done m
unfolding schedule_from_interrupt
schedule_from_interrupt-top m k [] c = rw (c.home, c.queue.chain, schedule_from_interrupt) refl
schedule_from_interrupt-top m k (h ∷ ps) c =
    let le : pri_gt (pri_of m h) (pri_of m (m.current k)) ≡ false = ground (arith, c.top.0) in
    rw (c.home, c.queue.chain.0, le, schedule_from_interrupt) refl

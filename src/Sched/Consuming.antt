-- ===== src/Sched/Consuming.antt =====
-- The interprocessor interrupt (`handle_interprocessor_interrupt` of sched.c).
use mathlib.Core.List.{Perm, perm_middle}
use mathlib.Core.List.Perm
use cxp.Common.{
  ℕ, zero, suc, ◌+◌, ◌<◌, ◌≡◌, refl, sym, subst, ap, ◌∙◌, ◌⊎◌, inl, inr, arith, length, List, ◌∷◌,
  [], ◌++◌, Fresh, true, false, Bool-cases, ==-refl, leb-gt,
}
use cxp.Common.Outcome.{done}
use cxp.Common.Chain.{list_fuel}
use cxp.Machine.{Machine, pri_of, pun_of}
use cxp.Priority.{pri_le}
use cxp.Ready.Order.{enqueued, value_of}
use cxp.Ipq.{set_ipq, qsize}
use cxp.Ipq.Fifo.{Holds}
use cxp.Sched.{consume, schedule0, switch_context, handle_interprocessor_interrupt}
use cxp.Sched.View.{Cpu, Ready-keep}
use cxp.Sched.Preempt.{enqueue0-rest, queued-Cpu, switched-Cpu, switched, taken_over, registers}
use cxp.Sched.Interrupted.{schedule_from_interrupt-top}
use cxp.Sched.Inbox.{
  Inbox, Kept, Kept-pri, Kept-pun, Kept-set_ipq, ipq_remove_lem, ipq_remove_empty, after_remove,
  after_move, moved-Kept, moved-Inbox, moved-perm, moved-length,
}

-- A change of the interprocessor queue leaves the processes as they are.
Cpu-set_ipq :
    (m m' : Machine) (k : ℕ) (q : _) (ps : List ℕ) → m' ≡ set_ipq m k q → Cpu m k ps → Cpu m' k ps
Cpu-set_ipq m m' k q ps e c =
    subst (λ (x : Machine). Cpu x k ps) (sym e)
      (record {
        queue = Ready-keep m (set_ipq m k q) k ps refl refl c.queue;
        home = c.home;
        away = c.away;
        top = c.top;
        runs = c.runs;
        known = c.known;
      })

behind_inbox :
    (x c p : ℕ) (xs qs ps : List ℕ)
    → Perm (p ∷ qs) (x ∷ c ∷ ps)
    → Perm (p ∷ xs ++ qs) (c ∷ x ∷ xs ++ ps)
behind_inbox x c p xs qs ps e = Perm.trans (Perm.symm (perm_middle xs qs)) (
    Perm.trans (Perm.append (Perm.refl xs) e) (
      Perm.trans (perm_middle xs (c ∷ ps))
        (Perm.trans (Perm.cons x (perm_middle xs ps)) (Perm.swap _ _ _))))

-- The unit is in order, and no process is lost; and the interprocessor queue is used up, unless one of
-- its processes has displaced the current one.
pub record Consumed (m m' : Machine) (k : ℕ) (xs ps : List ℕ) : Type 0 where
  pub inbox : List ℕ
  pub ready : List ℕ
  pub cpu : Cpu m' k ready
  pub holds : Holds (m'.ip_ques k) inbox
  pub perm : Perm (m'.current k ∷ inbox ++ ready) (m.current k ∷ xs ++ ps)
  pub used_up : (inbox ≡ []) ⊎ (value_of m (m'.current k) < value_of m (m.current k))

module _ (m : Machine) (k x : ℕ) (xs ps : List ℕ) (c : Cpu m k ps) (i : Inbox m k (x ∷ xs) ps)
    (away : Fresh (m.current k) (x ∷ xs)) (len : length ps + 1 < list_fuel) where
  abbrev m1 : Machine
  m1 = after_remove m k

  removed : Kept k m m1
  removed = Kept-set_ipq m m1 k _ (ipq_remove_lem m k x xs i.holds).1

  Cpu-removed : Cpu m1 k ps
  Cpu-removed = Cpu-set_ipq m m1 k _ ps (ipq_remove_lem m k x xs i.holds).1 c

  at_home : pun_of m1 x ≡ k
  at_home = ap (λ (g : ℕ → ℕ). g x) (Kept-pun k removed) ∙ i.at.0

  Fresh-first : Fresh x (m1.current k ∷ ps)
  Fresh-first = rw removed.current ((λ e. away.0 (sym e)), i.apart.0)

  -- A process that does not displace the current one.
  pub consume_queued :
      (f : ℕ)
      → pri_le (pri_of m1 x) (pri_of m1 (m1.current k)) ≡ true
      → (consume (suc f) m k ≡ consume f (after_move m k x) k)
        × Cpu (after_move m k x) k (enqueued m1 x ps)
        × Perm ((after_move m k x).current k ∷ xs ++ enqueued m1 x ps) (m.current k ∷ x ∷ xs ++ ps)
        × Fresh ((after_move m k x).current k) xs
  unfolding consume schedule0
  consume_queued f le =
      let kept = moved-Kept m k x xs ps i c.queue len in
      (
        rw ((ipq_remove_lem m k x xs i.holds).0, consume, at_home, ==-refl k, le) refl,
        (queued-Cpu m1 k x ps Cpu-removed at_home Fresh-first len le).0,
        rw kept.current (Perm.cons (m.current k) (moved-perm m k x xs ps i c.queue len)),
        rw kept.current away.1,
      )

  runs_first : (switched m1 k x ps Cpu-removed at_home Fresh-first len).current k ≡ x
  unfolding switch_context
  runs_first =
      (registers (taken_over m1 k x ps Cpu-removed at_home Fresh-first len) (m1.current k) k).0
      ∙ rw (==-refl k) refl

  above_current :
      pri_le (pri_of m1 x) (pri_of m1 (m1.current k)) ≡ false
      → value_of m x < value_of m (m.current k)
  above_current gt =
      let higher : value_of m1 x < value_of m1 (m1.current k) = leb-gt _ _ gt in
      rw (← removed.current, ← Kept-pri k removed) higher

  -- One that does.
  pub consume_switched :
      (f : ℕ)
      → pri_le (pri_of m1 x) (pri_of m1 (m1.current k)) ≡ false
      → (m' : Machine) × (consume (suc f) m k ≡ done m') × Consumed m m' k (x ∷ xs) ps
  unfolding consume schedule0
  consume_switched f gt =
      let (cpu, perm) = switched-Cpu m1 k x ps Cpu-removed at_home Fresh-first len gt in
      (
        switched m1 k x ps Cpu-removed at_home Fresh-first len,
        rw ((ipq_remove_lem m k x xs i.holds).0, consume, at_home, ==-refl k, gt) refl,
        record {
          inbox = xs;
          ready = enqueued m1 (m1.current k) ps;
          cpu = cpu;
          holds =
              subst (λ (h : Machine). Holds (h.ip_ques k) xs)
                (sym (
                  enqueue0-rest (taken_over m1 k x ps Cpu-removed at_home Fresh-first len)
                    (m1.current k)))
                (ipq_remove_lem m k x xs i.holds).2;
          perm = rw (← removed.current) (behind_inbox x (m1.current k) _ xs _ ps perm);
          used_up = inr (rw runs_first (above_current gt));
        },
      )

Consumed-empty :
    (f : ℕ) (m : Machine) (k : ℕ) (ps : List ℕ)
    → Cpu m k ps
    → Inbox m k [] ps
    → (m' : Machine) × (consume (suc f) m k ≡ done m') × Consumed m m' k [] ps
unfolding consume
Consumed-empty f m k ps c i =
    let (e, d, h) = ipq_remove_empty m k i.holds in
    let cpu = Cpu-set_ipq m (after_remove m k) k _ ps d c in
    let kept = Kept-set_ipq m (after_remove m k) k _ d in
    (
      after_remove m k,
      rw (e, consume) (schedule_from_interrupt-top (after_remove m k) k ps cpu),
      record {
        inbox = [];
        ready = ps;
        cpu = cpu;
        holds = h;
        perm = rw kept.current (Perm.refl _);
        used_up = inl refl;
      },
    )

consume-Consumed :
    (f : ℕ) (m : Machine) (k : ℕ) (xs ps : List ℕ)
    → length xs < f
    → Cpu m k ps
    → Inbox m k xs ps
    → Fresh (m.current k) xs
    → length xs + length ps < list_fuel
    → (m' : Machine) × (consume f m k ≡ done m') × Consumed m m' k xs ps
consume-Consumed zero m k xs ps l c i away len = absurd (omega arith)
consume-Consumed (suc f) m k [] ps l c i away len = Consumed-empty f m k ps c i
consume-Consumed (suc f) m k (x ∷ xs) ps l c i away len =
    let m1 = after_remove m k in
    let room : length ps + 1 < list_fuel = omega (arith, len) in
    elim (Bool-cases (pri_le (pri_of m1 x) (pri_of m1 (m1.current k)))) [
      | inr gt ↦ consume_switched m k x xs ps c i away room f gt
      | inl le ↦
          let (step, cpu, perm, fresh) = consume_queued m k x xs ps c i away room f le in
          let kept = moved-Kept m k x xs ps i c.queue room in
          let (m', e, r) =
            consume-Consumed f (after_move m k x) k xs (enqueued m1 x ps) (omega (arith, l)) cpu
              (moved-Inbox m k x xs ps i c.queue room) fresh
              (omega (arith, len, moved-length m k x xs ps i c.queue room)) in
          (
            m',
            step ∙ e,
            record {
              inbox = r.inbox;
              ready = r.ready;
              cpu = r.cpu;
              holds = r.holds;
              perm = Perm.trans r.perm perm;
              used_up = rw (← kept.current, ← Kept-pri k kept) r.used_up;
            },
          )
    ]

-- The interprocessor interrupt of a unit in order, whose interprocessor queue holds processes of the
-- unit, succeeds. The unit then runs a process that no ready one has a higher priority than, and
-- every process from before runs, is ready or is still in the interprocessor queue. That queue is
-- empty, unless a process from it has displaced the current one, which it is above.
pub handle_interprocessor_interrupt-Consumed :
    (m : Machine) (k : ℕ) (xs ps : List ℕ)
    → Cpu m k ps
    → Inbox m k xs ps
    → Fresh (m.current k) xs
    → length xs + length ps < list_fuel
    → (m' : Machine) × (handle_interprocessor_interrupt m k ≡ done m') × Consumed m m' k xs ps
unfolding handle_interprocessor_interrupt
handle_interprocessor_interrupt-Consumed m k xs ps c i away len =
    consume-Consumed qsize m k xs ps i.holds.room c i away len

-- ===== src/Sched/Wake.antt =====
-- Changes of process records that leave the queues alone, and `schedule` for a process of the unit.
use mathlib.Core.List.{Perm}
use cxp.Common.{
  ℕ, ◌+◌, ◌≤◌, ◌<◌, ◌≡◌, refl, sym, subst, ◌∙◌, arith, update, length, List, ◌∷◌, All, Fresh,
  fun_ext, none, Bool-cases, inl, inr, ◌⊎◌, ==-refl,
}
use cxp.Common.Insertion.{Sorted}
use cxp.Common.Chain.{list_fuel}
use cxp.Common.Outcome.{done, done-injective}
use cxp.Machine.{Machine, SchedState, AltState, next_of, pri_of, pun_of}
use cxp.Priority.{pri_value, pri_le}
use cxp.Ready.{enqueue0}
use cxp.Ready.Order.{Ready, value_of}
use cxp.Sched.{schedule, schedule0, set_current, switch_context, disable, enable}
use cxp.Sched.View.{Cpu}
use cxp.Sched.Preempt.{enqueue0-fields, schedule0-Cpu}

-- `m'` differs from `m` only in what the unit's queue and registers do not show.
pub record SameView (k : ℕ) (m m' : Machine) : Type 0 where
  pub next : next_of m ≡ next_of m'
  pub pri : pri_of m ≡ pri_of m'
  pub pun : pun_of m ≡ pun_of m'
  pub rdy : m.rdy_ques k ≡ m'.rdy_ques k
  pub current : m.current k ≡ m'.current k
  pub current_pri : m.current_pri k ≡ m'.current_pri k
  pub running : m.running k ≡ m'.running k

Sorted-pri :
    (m m' : Machine) (ps : List ℕ)
    → pri_of m ≡ pri_of m'
    → Sorted (value_of m) ps
    → Sorted (value_of m') ps
Sorted-pri m m' ps e s = subst (λ (g : ℕ → ℕ). Sorted (λ q. pri_value (g q)) ps) e s

pub Ready-same :
    {k : ℕ} {m m' : Machine} (ps : List ℕ) → SameView k m m' → Ready m k ps → Ready m' k ps
Ready-same {k} {m} {m'} ps v r = record {
  chain = rw (← v.next, ← v.rdy) r.chain;
  distinct = r.distinct;
  at = rw (← v.pun) r.at;
  sorted = Sorted-pri m m' ps v.pri r.sorted;
  short = r.short;
}

All-pri :
    (m m' : Machine) (p : ℕ) (ps : List ℕ)
    → pri_of m ≡ pri_of m'
    → All (λ q. value_of m p ≤ value_of m q) ps
    → All (λ q. value_of m' p ≤ value_of m' q) ps
All-pri m m' p ps e a = subst (λ (g : ℕ → ℕ). All (λ q. pri_value (g p) ≤ pri_value (g q)) ps) e a

pub Cpu-same : {k : ℕ} {m m' : Machine} (ps : List ℕ) → SameView k m m' → Cpu m k ps → Cpu m' k ps
Cpu-same {k} {m} {m'} ps v c = record {
  queue = Ready-same ps v c.queue;
  home = rw (← v.pun, ← v.current) c.home;
  away = rw (← v.current) c.away;
  top = rw (← v.current) (All-pri m m' (m.current k) ps v.pri c.top);
  runs = sym v.running ∙ c.runs ∙ v.current;
  known = rw (← v.current, ← v.pri, ← v.current_pri) c.known;
}

module _ (k : ℕ) (m : Machine) where
  pub sched_state-SameView :
      (p : ℕ) (s : SchedState)
      → SameView k m
          (record m { procs = update m.procs p (record (m.procs p) { sched_state = s }) })
  sched_state-SameView p s = record {
    next = fun_ext λ q. ground arith;
    pri = fun_ext λ q. ground arith;
    pun = fun_ext λ q. ground arith;
    rdy = refl;
    current = refl;
    current_pri = refl;
    running = refl;
  }

  pub alt_state-SameView :
      (p : ℕ) (s : AltState)
      → SameView k m (record m { procs = update m.procs p (record (m.procs p) { alt_state = s }) })
  alt_state-SameView p s = record {
    next = fun_ext λ q. ground arith;
    pri = fun_ext λ q. ground arith;
    pun = fun_ext λ q. ground arith;
    rdy = refl;
    current = refl;
    current_pri = refl;
    running = refl;
  }

  pub disable-SameView : SameView k m (disable m k)
  unfolding disable
  disable-SameView = record {
    next = refl;
    pri = refl;
    pun = refl;
    rdy = refl;
    current = refl;
    current_pri = refl;
    running = refl;
  }

  pub enable-SameView : SameView k m (enable m k)
  unfolding enable
  enable-SameView = record {
    next = refl;
    pri = refl;
    pun = refl;
    rdy = refl;
    current = refl;
    current_pri = refl;
    running = refl;
  }

-- What `schedule` leaves when the current process keeps the unit, and when it loses it.
module _ (m : Machine) (k p : ℕ) where
  queued : Machine
  queued = enable (enqueue0 (disable m k) p) k

  displaced : Machine
  displaced =
      enable
        (switch_context
          (enqueue0
            (record (disable m k) {
              current = update m.current k p;
              current_pri = update m.current_pri k (pri_of m p);
            })
            (m.current k))
          k p)
        k

  schedule_cases :
      pun_of m p ≡ k → (schedule m k p ≡ done queued) ⊎ (schedule m k p ≡ done displaced)
  unfolding schedule schedule0 set_current disable queued displaced
  schedule_cases at = elim (Bool-cases (pri_le (pri_of m p) (pri_of m (m.current k)))) [
    | inl le ↦ inl (rw (at, ==-refl k, le) refl)
    | inr gt ↦ inr (rw (at, ==-refl k, gt) refl)
  ]

  -- `schedule` on the process's own unit changes nothing of a process record but its link.
  pub schedule-fields :
      {m' : Machine}
      → pun_of m p ≡ k
      → schedule m k p ≡ done m'
      → (q : ℕ) → record (m'.procs q) { next = none } ≡ record (m.procs q) { next = none }
  unfolding queued displaced enable disable switch_context
  schedule-fields {m'} at e q = elim (schedule_cases at) [
    | inl f ↦
        subst
          (λ (x : Machine). record (x.procs q) { next = none } ≡ record (m.procs q) { next = none })
          (done-injective (sym f ∙ e)) (sym (enqueue0-fields (disable m k) p q))
    | inr f ↦
        subst
          (λ (x : Machine). record (x.procs q) { next = none } ≡ record (m.procs q) { next = none })
          (done-injective (sym f ∙ e))
          (sym (
            enqueue0-fields
              (record (disable m k) {
                current = update m.current k p;
                current_pri = update m.current_pri k (pri_of m p);
              })
              (m.current k) q))
  ]

-- `schedule` on the process's own unit, with interrupts disabled around it.
pub schedule-Cpu :
    (m : Machine) (k p : ℕ) (ps : List ℕ)
    → Cpu m k ps
    → pun_of m p ≡ k
    → Fresh p (m.current k ∷ ps)
    → length ps + 1 < list_fuel
    → (m' : Machine) × (qs : List ℕ) × (schedule m k p ≡ done m')
      × Cpu m' k qs
      × Perm (m'.current k ∷ qs) (p ∷ m.current k ∷ ps)
unfolding schedule disable enable
schedule-Cpu m k p ps c at f len =
    let v = disable-SameView k m in
    let (m1, qs, e, c1, perm) = schedule0-Cpu (disable m k) k p ps (Cpu-same ps v c) at f len in
    (enable m1 k, qs, rw e refl, Cpu-same qs (enable-SameView k m1) c1, perm)

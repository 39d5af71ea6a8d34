-- ===== src/Alarm/Waking.antt =====
-- The processes that the timeout interrupt makes ready, and the unit's queues (timer.c).
use mathlib.Core.List.{Perm}
use cxp.Common.{
  ℕ, ◌+◌, ◌<◌, ◌≡◌, ◌≢◌, refl, sym, subst, ◌∙◌, inl, inr, Bool, List, [], ◌∷◌, All, Fresh, length,
  take_while, drop_while, take-append-drop_while, ==-ne, ◌==◌, if◌then◌else◌,
}
use cxp.Common.Insertion.{Fresh-insert}
use cxp.Common.Chain.{list_fuel}
use cxp.Machine.{
  Machine, AltState, not_alting, enabling, alt_waiting, alt_ready, SchedState, ready,
  preparing_to_wait, waiting, pri_of, pun_of,
}
use cxp.Priority.{pri_le}
use cxp.Ready.{enqueue0}
use cxp.Ready.Order.{Ready, enqueued, enqueue0-Ready}
use cxp.Ipq.Fifo.{Holds}
use cxp.Sched.{set_sched_state}
use cxp.Sched.Preempt.{enqueue0-rest, pun_of-enqueue0, pri_of-enqueue0, registers, middle-perm}
use cxp.Sched.Inbox.{Inbox}
use cxp.Sched.Interrupted.{Interrupted}
use cxp.Sched.Wake.{SameView, Ready-same, sched_state-SameView, alt_state-SameView}
use cxp.Comm.{is_waiting, same_alt, set_alt_state}
use cxp.Timer.{TimeoutDesc, tmo_after}
use cxp.Alarm.Expiry.{Known, after_freed, alting_freed, free_one}

-- Whether the process of an entry has to be put on the ready queue.
abbrev pub wakes : Machine → TimeoutDesc → Bool
wakes m x =
    if x.kind == tmo_after
    then is_waiting (m.procs x.proc).sched_state
    else same_alt (m.procs x.proc).alt_state alt_waiting

-- The processes that are, entry by entry.
abbrev pub woken : Machine → (ℕ → TimeoutDesc) → List ℕ → List ℕ
woken m descs [] = []
woken m descs (d ∷ ds) =
    let rest = woken (free_one m (descs d)) descs ds in
    if wakes m (descs d) then (descs d).proc ∷ rest else rest

-- Only the state of process `p` changes.
pub record Marked (k : ℕ) (m m1 : Machine) (p : ℕ) : Type 0 where
  pub view : SameView k m m1
  pub ips : m1.ip_ques ≡ m.ip_ques
  pub others : (q : ℕ) → q ≢ p → m1.procs q ≡ m.procs q

module _ (k : ℕ) (m : Machine) (p : ℕ) where
  Marked-none : Marked k m m p
  Marked-none = record {
    view = record {
      next = refl;
      pri = refl;
      pun = refl;
      rdy = refl;
      current = refl;
      current_pri = refl;
      running = refl;
    };
    ips = refl;
    others = λ q h. refl;
  }

  pub Marked-sched : (s : SchedState) → Marked k m (set_sched_state m p s) p
  Marked-sched s = record {
    view = sched_state-SameView k m p s;
    ips = refl;
    others = λ q h. rw (==-ne q p h) refl;
  }

  Marked-alt : (s : AltState) → Marked k m (set_alt_state m p s) p
  Marked-alt s = record {
    view = alt_state-SameView k m p s;
    ips = refl;
    others = λ q h. rw (==-ne q p h) refl;
  }

  sched-Marked :
      (s : SchedState)
      → (m1 : Machine) × (after_freed m p s ≡ (if is_waiting s then enqueue0 m1 p else m1))
        × Marked k m m1 p
  sched-Marked waiting = (set_sched_state m p ready, refl, Marked-sched ready)
  sched-Marked preparing_to_wait = (set_sched_state m p ready, refl, Marked-sched ready)
  sched-Marked ready = (set_sched_state m p ready, refl, Marked-sched ready)

  alting-Marked :
      (s : AltState)
      → (m1 : Machine) × (alting_freed m p s
          ≡ (if same_alt s alt_waiting then enqueue0 m1 p else m1))
        × Marked k m m1 p
  alting-Marked not_alting = (m, refl, Marked-none)
  alting-Marked enabling = (set_alt_state m p alt_ready, refl, Marked-alt alt_ready)
  alting-Marked alt_waiting = (set_alt_state m p alt_ready, refl, Marked-alt alt_ready)
  alting-Marked alt_ready = (m, refl, Marked-none)

pub free_one-Marked :
    (k : ℕ) (m : Machine) (x : TimeoutDesc)
    → Known x
    → (m1 : Machine) × (free_one m x ≡ (if wakes m x then enqueue0 m1 x.proc else m1))
      × Marked k m m1 x.proc
free_one-Marked k m x (inl e) =
    let (m1, f, v) = sched-Marked k m x.proc (m.procs x.proc).sched_state in (m1, rw e f, v)
free_one-Marked k m x (inr e) =
    let (m1, f, v) = alting-Marked k m x.proc (m.procs x.proc).alt_state in (m1, rw e f, v)

-- The unit in the handler, with its two queues.
pub record Handling (m : Machine) (k : ℕ) (xs ps : List ℕ) : Type 0 where
  pub unit : Interrupted m k ps
  pub inbox : Inbox m k xs ps

pub Handling-Marked :
    {k : ℕ} {m m1 : Machine} {p : ℕ} (xs ps : List ℕ)
    → Marked k m m1 p
    → Handling m k xs ps
    → Handling m1 k xs ps
Handling-Marked {k} {m} {m1} xs ps v h =
    let u = h.unit in
    let i = h.inbox in
    record {
      unit = record {
        queue = Ready-same ps v.view u.queue;
        home = rw (← v.view.pun, ← v.view.current) u.home;
        away = rw (← v.view.current) u.away;
        runs = sym v.view.running ∙ u.runs ∙ v.view.current;
        known = rw (← v.view.current, ← v.view.pri, ← v.view.current_pri) u.known;
      };
      inbox = record {
        holds = rw v.ips i.holds;
        at = rw (← v.view.pun) i.at;
        distinct = i.distinct;
        apart = i.apart;
      };
    }

pub Fresh-enqueued :
    (m : Machine) (q p : ℕ) (ps : List ℕ) → q ≢ p → Fresh q ps → Fresh q (enqueued m p ps)
Fresh-enqueued m q p ps ne f =
    let t = λ (x : ℕ). pri_le (pri_of m p) (pri_of m x) in
    Fresh-insert q p (take_while t ps) (drop_while t ps) ne (rw (take-append-drop_while t ps) f)

apart-enqueued :
    (m : Machine) (p : ℕ) (xs ps : List ℕ)
    → Fresh p xs
    → All (λ x. Fresh x ps) xs
    → All (λ x. Fresh x (enqueued m p ps)) xs
apart-enqueued m p [] ps f a = tt
apart-enqueued m p (x ∷ xs) ps f a =
    (Fresh-enqueued m x p ps (λ e. f.0 (sym e)) a.0, apart-enqueued m p xs ps f.1 a.1)

-- A process that is put on the ready queue in the handler.
pub Handling-enqueue :
    (m : Machine) (k p : ℕ) (xs ps : List ℕ)
    → Handling m k xs ps
    → pun_of m p ≡ k
    → p ≢ m.current k
    → Fresh p xs
    → Fresh p ps
    → length ps + 1 < list_fuel
    → Handling (enqueue0 m p) k xs (enqueued m p ps) × Perm (enqueued m p ps) (p ∷ ps)
Handling-enqueue m k p xs ps h at ne fx fp len =
    let u = h.unit in
    let i = h.inbox in
    let t = λ (x : ℕ). pri_le (pri_of m p) (pri_of m x) in
    let split = take-append-drop_while t ps in
    let (ce, ru, kn) = registers m p k in
    (
      record {
        unit = record {
          queue =
              subst (λ j. Ready (enqueue0 m p) j (enqueued m p ps)) at
                (enqueue0-Ready m p ps (subst (λ j. Ready m j ps) (sym at) u.queue) fp len);
          home = rw (pun_of-enqueue0 m p, ce) u.home;
          away = rw ce (Fresh-enqueued m (m.current k) p ps (λ e. ne (sym e)) u.away);
          runs = ru ∙ u.runs ∙ sym ce;
          known = rw (pri_of-enqueue0 m p, ce) (kn ∙ u.known);
        };
        inbox = record {
          holds = subst (λ (x : Machine). Holds (x.ip_ques k) xs) (sym (enqueue0-rest m p)) i.holds;
          at = rw (pun_of-enqueue0 m p) i.at;
          distinct = i.distinct;
          apart = apart-enqueued m p xs ps fx i.apart;
        };
      },
      middle-perm p _ _ ps split,
    )

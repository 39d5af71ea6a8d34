-- ===== src/Sched/Preempt.antt =====
-- `schedule0` on the process's own unit: the unit runs a process of the highest priority.
use mathlib.Core.List.{Perm, perm_middle}
use mathlib.Core.List.Perm
use cxp.Common.{
  ℕ, ◌+◌, ◌≤◌, ◌<◌, ◌≡◌, ◌≢◌, refl, sym, subst, ap, ◌∙◌, Option, none, some, arith, update, length,
  List, ◌∷◌, ◌++◌, All, Fresh, true, false, Bool-cases, inl, inr, fun_ext, take_while, drop_while,
  take-append-drop_while, ==-refl, leb-le, leb-gt,
}
use cxp.Common.Insertion.{All-insert, Fresh-insert, All-mono}
use cxp.Common.Outcome.{done}
use cxp.Common.Chain.{list_fuel}
use cxp.Machine.{Process, Machine, pri_of, pun_of}
use cxp.Priority.{pri_value, pri_le}
use cxp.Ready.{insert, find_place, enqueue0}
use cxp.Ready.Order.{Ready, value_of, enqueued, enqueue0-Ready, insert-fields}
use cxp.Sched.{schedule0, schedule_from_interrupt_single, switch_context}
use cxp.Sched.View.{Cpu, Ready-keep}

insert-rest :
    (m : Machine) (p : ℕ) (prev curr : Option ℕ)
    → insert m p prev curr ≡ record m {
      procs = (insert m p prev curr).procs;
      rdy_ques = (insert m p prev curr).rdy_ques;
    }
unfolding insert
insert-rest m p none none = refl
insert-rest m p none (some c) = refl
insert-rest m p (some r) none = refl
insert-rest m p (some r) (some c) = refl

-- `enqueue0` writes links and a head, and nothing else.
pub enqueue0-rest :
    (m : Machine) (p : ℕ)
    → enqueue0 m p ≡ record m { procs = (enqueue0 m p).procs; rdy_ques = (enqueue0 m p).rdy_ques }
unfolding enqueue0
enqueue0-rest m p = insert-rest m p (find_place m p).0 (find_place m p).1

pub enqueue0-fields :
    (m : Machine) (p q : ℕ)
    → record (m.procs q) { next = none } ≡ record ((enqueue0 m p).procs q) { next = none }
unfolding enqueue0
enqueue0-fields m p q = insert-fields m p (find_place m p).0 (find_place m p).1 q

pub pri_of-enqueue0 : (m : Machine) (p : ℕ) → pri_of (enqueue0 m p) ≡ pri_of m
pri_of-enqueue0 m p = fun_ext λ q. sym (ap (λ (x : Process). x.pri) (enqueue0-fields m p q))

pub pun_of-enqueue0 : (m : Machine) (p : ℕ) → pun_of (enqueue0 m p) ≡ pun_of m
pun_of-enqueue0 m p = fun_ext λ q. sym (ap (λ (x : Process). x.pun) (enqueue0-fields m p q))

module _ (m m' : Machine) (k x cur : ℕ) (ps : List ℕ) where
  -- A unit that runs `cur` and has put `x` on its queue, where no ready process is above `cur`.
  pub enqueued-Cpu :
      Ready m k ps
      → pun_of m x ≡ k
      → Fresh x ps
      → length ps + 1 < list_fuel
      → pun_of m cur ≡ k
      → cur ≢ x
      → Fresh cur ps
      → value_of m cur ≤ value_of m x
      → All (λ q. value_of m cur ≤ value_of m q) ps
      → (enqueue0 m x).procs ≡ m'.procs
      → (enqueue0 m x).rdy_ques k ≡ m'.rdy_ques k
      → m'.current k ≡ cur
      → m'.running k ≡ cur
      → m'.current_pri k ≡ pri_of m cur
      → Cpu m' k (enqueued m x ps)
  enqueued-Cpu r at_x f len at_cur ne away le top pe re ce ru kn =
      let t = λ (q : ℕ). pri_le (pri_of m x) (pri_of m q) in
      let split = take-append-drop_while t ps in
      let pris : pri_of m' ≡ pri_of m =
        ap {B = ℕ → ℕ} (λ (h : ℕ → Process) q. (h q).pri) (sym pe) ∙ pri_of-enqueue0 m x in
      let puns : pun_of m' ≡ pun_of m =
        ap {B = ℕ → ℕ} (λ (h : ℕ → Process) q. (h q).pun) (sym pe) ∙ pun_of-enqueue0 m x in
      record {
        queue = Ready-keep (enqueue0 m x) m' k _ pe re (
            subst (λ j. Ready (enqueue0 m x) j (enqueued m x ps)) at_x
              (enqueue0-Ready m x ps (subst (λ j. Ready m j ps) (sym at_x) r) f len));
        home = rw (ce, puns) at_cur;
        away = rw ce (Fresh-insert cur x (take_while t ps) (drop_while t ps) ne (rw split away));
        top =
            subst
              (λ (g : ℕ → ℕ).
                All (λ q. pri_value (g (m'.current k)) ≤ pri_value (g q)) (enqueued m x ps))
              (sym pris)
              (rw ce (All-insert _ x (take_while t ps) (drop_while t ps) le (rw split top)));
        runs = ru ∙ sym ce;
        known = rw (ce, pris) kn;
      }

pub middle-perm :
    (x : ℕ) (front back ps : List ℕ) → front ++ back ≡ ps → Perm (front ++ x ∷ back) (x ∷ ps)
middle-perm x front back ps e = Perm.trans (perm_middle front back) (rw e (Perm.refl _))

pub insert-perm :
    (x cur : ℕ) (front back ps : List ℕ)
    → front ++ back ≡ ps
    → Perm (cur ∷ front ++ x ∷ back) (x ∷ cur ∷ ps)
insert-perm x cur front back ps e =
    Perm.trans (Perm.cons cur (middle-perm x front back ps e)) (Perm.swap _ _ _)

-- The registers of a unit after `enqueue0`.
pub registers :
    (m : Machine) (p k : ℕ)
    → ((enqueue0 m p).current k ≡ m.current k)
      × ((enqueue0 m p).running k ≡ m.running k)
      × ((enqueue0 m p).current_pri k ≡ m.current_pri k)
registers m p k =
    let e = enqueue0-rest m p in
    (
      ap (λ (x : Machine). x.current k) e,
      ap (λ (x : Machine). x.running k) e,
      ap (λ (x : Machine). x.current_pri k) e,
    )

module _ (m : Machine) (k p : ℕ) (ps : List ℕ) (c : Cpu m k ps) (at : pun_of m p ≡ k)
    (f : Fresh p (m.current k ∷ ps)) (len : length ps + 1 < list_fuel) where
  split :
      take_while (λ (q : ℕ). pri_le (pri_of m p) (pri_of m q)) ps
        ++ drop_while (λ (q : ℕ). pri_le (pri_of m p) (pri_of m q)) ps
      ≡ ps
  split = take-append-drop_while (λ (q : ℕ). pri_le (pri_of m p) (pri_of m q)) ps

  -- A process of no higher priority waits in the queue.
  pub queued-Cpu :
      pri_le (pri_of m p) (pri_of m (m.current k)) ≡ true
      → Cpu (enqueue0 m p) k (enqueued m p ps)
        × Perm ((enqueue0 m p).current k ∷ enqueued m p ps) (p ∷ m.current k ∷ ps)
  queued-Cpu le =
      let (ce, ru, kn) = registers m p k in
      (
        enqueued-Cpu m (enqueue0 m p) k p (m.current k) ps c.queue at f.1 len c.home
            (λ e. f.0 (sym e)) c.away (leb-le _ _ le) c.top refl refl ce (ru ∙ c.runs)
            (kn ∙ c.known),
        rw ce (insert-perm p (m.current k) _ _ ps split),
      )

  abbrev pub taken_over : Machine
  taken_over = record m {
    current = update m.current k p;
    current_pri = update m.current_pri k (pri_of m p);
  }

  abbrev pub switched : Machine
  switched = switch_context (enqueue0 taken_over (m.current k)) k p

  -- A process of higher priority takes the unit, and the old one goes to the queue.
  pub switched-Cpu :
      pri_le (pri_of m p) (pri_of m (m.current k)) ≡ false
      → Cpu switched k (enqueued m (m.current k) ps)
        × Perm (switched.current k ∷ enqueued m (m.current k) ps) (p ∷ m.current k ∷ ps)
  unfolding switch_context
  switched-Cpu gt =
      let old = m.current k in
      let (ce, ru, kn) = registers taken_over old k in
      let below : value_of m p ≤ value_of m old = omega (arith, leb-gt _ _ gt) in
      let here : switched.current k ≡ p = ce ∙ rw (==-refl k) refl in
      (
        enqueued-Cpu taken_over switched k old p ps (Ready-keep m taken_over k ps refl refl c.queue)
            c.home c.away len at f.0 f.1 below
            (All-mono (value_of m) (value_of m p) (value_of m old) ps below c.top) refl refl here
            (rw (==-refl k) refl) (kn ∙ rw (==-refl k) refl),
        rw here (
            Perm.cons p (
              middle-perm old _ _ ps
                (take-append-drop_while (λ (q : ℕ). pri_le (pri_of m old) (pri_of m q)) ps))),
      )

  -- On the process's own unit `schedule0` succeeds, and leaves the unit running a process that no
  -- ready one has a higher priority than. The processes are those from before and the new one.
  pub schedule0-Cpu :
      (m' : Machine) × (qs : List ℕ) × (schedule0 m k p ≡ done m')
      × Cpu m' k qs
      × Perm (m'.current k ∷ qs) (p ∷ m.current k ∷ ps)
  unfolding schedule0
  schedule0-Cpu = elim (Bool-cases (pri_le (pri_of m p) (pri_of m (m.current k)))) [
    | inl le ↦
        let (cpu, perm) = queued-Cpu le in
        (enqueue0 m p, enqueued m p ps, rw (at, ==-refl k, le) refl, cpu, perm)
    | inr gt ↦
        let (cpu, perm) = switched-Cpu gt in
        (switched, enqueued m (m.current k) ps, rw (at, ==-refl k, gt) refl, cpu, perm)
  ]

-- On a process of the unit `schedule_from_interrupt_single` does the same as `schedule0`.
schedule_from_interrupt_single-schedule0 :
    (m : Machine) (k p : ℕ)
    → pun_of m p ≡ k
    → schedule_from_interrupt_single m k p ≡ schedule0 m k p
unfolding schedule_from_interrupt_single schedule0
schedule_from_interrupt_single-schedule0 m k p e = rw (e, ==-refl k) refl

-- ===== src/Alarm/Expiry.antt =====
-- The loop of `handle_timeout_interrupt` (timer.c): which entries it takes out, and in which order
-- their processes are made ready.
use cxp.Common.{
  ℕ, zero, suc, ◌<◌, ◌≡◌, refl, sym, ap, ◌∙◌, fun_ext, ◌⊎◌, inl, inr, arith, Bool, true, false,
  Option, none, some, List, [], ◌∷◌, All, Distinct, length, first, take_while, drop_while, update,
  ==-refl, ◌==◌, if◌then◌else◌, Bool-cases,
}
use cxp.Common.Int.{ℤ, leb_ℤ}
use cxp.Common.Chain.{Chain, list_fuel, Chain-drop_while}
use cxp.Common.Outcome.{Outcome, done}
use cxp.Machine.{
  Machine, SchedState, ready, preparing_to_wait, waiting, AltState, not_alting, enabling,
  alt_waiting, alt_ready,
}
use cxp.Ready.{enqueue0}
use cxp.Sched.{set_sched_state}
use cxp.Comm.{set_alt_state}
use cxp.Comm.Exchange.{alt_cas-lose, alt_cas-win}
use cxp.Timer.{TimeoutDesc, Timers, time_of, link_of, tmo_after, tmo_alting}
use cxp.Timer.Search.{length-drop_while-le}
use cxp.Timer.Queue.{All-drop_while_test, InOrder, Timeouts}
use cxp.World.{World}
use cxp.Alarm.{free_process, maybe_free_alting_process, free_due, remove_head, expire}

-- What is due at `now`.
abbrev pub due : Timers → ℤ → ℕ → Bool
due t now q = leb_ℤ (time_of t q) now

abbrev pub Known : TimeoutDesc → Type 0
Known x = (x.kind ≡ tmo_after) ⊎ (x.kind ≡ tmo_alting)

-- Reference: what becomes of a process in `After`, by its state. It is ready, and is put on its
-- unit's ready queue if it had gone to wait.
abbrev pub after_freed : Machine → ℕ → SchedState → Machine
after_freed m p waiting = enqueue0 (set_sched_state m p ready) p
after_freed m p preparing_to_wait = set_sched_state m p ready
after_freed m p ready = set_sched_state m p ready

-- Reference: what becomes of an alternation, by its state. One that waits is ready, and is put on its
-- unit's ready queue; one that still enables its guards is ready; any other stays as it is.
abbrev pub alting_freed : Machine → ℕ → AltState → Machine
alting_freed m p alt_waiting = enqueue0 (set_alt_state m p alt_ready) p
alting_freed m p enabling = set_alt_state m p alt_ready
alting_freed m p alt_ready = m
alting_freed m p not_alting = m

-- Reference: the processes of the entries are made ready one after the other.
abbrev pub free_one : Machine → TimeoutDesc → Machine
free_one m x =
    if x.kind == tmo_after
    then after_freed m x.proc (m.procs x.proc).sched_state
    else alting_freed m x.proc (m.procs x.proc).alt_state

abbrev pub free_each : Machine → (ℕ → TimeoutDesc) → List ℕ → Machine
free_each m descs [] = m
free_each m descs (d ∷ ds) = free_each (free_one m (descs d)) descs ds

free_process-freed :
    (m : Machine) (p : ℕ) (s : SchedState)
    → (m.procs p).sched_state ≡ s
    → free_process m p ≡ after_freed m p s
unfolding free_process
free_process-freed m p waiting e = rw e refl
free_process-freed m p preparing_to_wait e = rw e refl
free_process-freed m p ready e = rw e refl

maybe_free-freed :
    (m : Machine) (p : ℕ) (s : AltState)
    → (m.procs p).alt_state ≡ s
    → maybe_free_alting_process m p ≡ alting_freed m p s
unfolding maybe_free_alting_process
maybe_free-freed m p not_alting e = rw (alt_cas-lose m p enabling alt_ready not_alting e refl) refl
maybe_free-freed m p enabling e = rw (alt_cas-win m p enabling alt_ready enabling e refl) refl
maybe_free-freed m p alt_waiting e =
    rw
      (
        alt_cas-lose m p enabling alt_ready alt_waiting e refl,
        alt_cas-win m p alt_waiting alt_ready alt_waiting e refl,
      )
      refl
maybe_free-freed m p alt_ready e = rw (alt_cas-lose m p enabling alt_ready alt_ready e refl) refl

free_due-Known : (m : Machine) (x : TimeoutDesc) → Known x → free_due m x ≡ done (free_one m x)
unfolding free_due
free_due-Known m x (inl e) =
    rw e (ap done (free_process-freed m x.proc (m.procs x.proc).sched_state refl))
free_due-Known m x (inr e) =
    rw e (ap done (maybe_free-freed m x.proc (m.procs x.proc).alt_state refl))

abbrev set_head : Timers → ℕ → Option ℕ → Timers
set_head t k h = record t { time_que = update t.time_que k h }

update-same : (f : ℕ → Option ℕ) (k : ℕ) (v : Option ℕ) → f k ≡ v → update f k v ≡ f
update-same f k v e = fun_ext λ q. ground (arith, e)

update-update :
    (f : ℕ → Option ℕ) (k : ℕ) (u v : Option ℕ) → update (update f k u) k v ≡ update f k v
update-update f k u v = fun_ext λ q. ground arith

abbrev after_due : World → ℕ → ℤ → List ℕ → World
after_due w k now ds = record w {
  machine = free_each w.machine w.timers.descs (take_while (due w.timers now) ds);
  timers = set_head w.timers k (first (drop_while (due w.timers now) ds));
}

remove_head-some :
    (t : Timers) (k d : ℕ) → t.time_que k ≡ some d → remove_head t k ≡ set_head t k (link_of t d)
unfolding remove_head
remove_head-some t k d e = rw (e, remove_head) refl

unchanged :
    (w : World) (k : ℕ) (v : Option ℕ)
    → w.timers.time_que k ≡ v
    → ◌≡◌ {A = Outcome World} (done w) (done (record w { timers = set_head w.timers k v }))
unchanged w k v e =
    ap (λ (g : ℕ → Option ℕ). done (record w { timers = record w.timers { time_que = g } }))
      (sym (update-same w.timers.time_que k v e))

expire_lem :
    (fuel : ℕ) (w : World) (k : ℕ) (now : ℤ) (ds : List ℕ)
    → length ds < fuel
    → Chain (link_of w.timers) (w.timers.time_que k) ds
    → All (λ q. Known (w.timers.descs q)) ds
    → expire fuel w k now ≡ done (after_due w k now ds)
unfolding expire
expire_lem zero w k now ds l h v = absurd (omega arith)
expire_lem (suc f) w k now [] l h v = rw (h, expire) (unchanged w k none h)
expire_lem (suc f) w k now (d ∷ ds) l h v = elim (Bool-cases (due w.timers now d)) [
  | inr e ↦ rw (h.0, e, expire) (unchanged w k (some d) h.0)
  | inl e ↦
      let w1 = record w {
        machine = free_one w.machine (w.timers.descs d);
        timers = set_head w.timers k (link_of w.timers d);
      } in
      let chain : Chain (link_of w1.timers) (w1.timers.time_que k) ds = rw (==-refl k) h.1 in
      rw
        (
          h.0,
          e,
          expire,
          free_due-Known w.machine (w.timers.descs d) v.0,
          remove_head-some w.timers k d h.0,
        )
        (expire_lem f w1 k now ds (omega (arith, l)) chain v.1
          ∙ ap
              (λ (g : ℕ → Option ℕ). done (record w {
                machine = free_each w1.machine w.timers.descs (take_while (due w.timers now) ds);
                timers = record w.timers { time_que = g };
              }))
              (update-update w.timers.time_que k (link_of w.timers d)
                (first (drop_while (due w.timers now) ds))))
]

All-due :
    (t : Timers) (now : ℤ) (xs : List ℕ) → All (λ q. due t now q ≡ true) (take_while (due t now) xs)
All-due t now [] = tt
All-due t now (x ∷ xs) = elim (Bool-cases (due t now x)) [
  | inl e ↦ rw e (e, All-due t now xs)
  | inr e ↦ rw e tt
]

InOrder-drop_while :
    (f : ℕ → ℤ) (p : ℕ → Bool) (xs : List ℕ) → InOrder f xs → InOrder f (drop_while p xs)
InOrder-drop_while f p [] s = tt
InOrder-drop_while f p (x ∷ xs) s = elim (Bool-cases (p x)) [
  | inl e ↦ rw e (InOrder-drop_while f p xs s.1)
  | inr e ↦ rw e s
]

Distinct-drop_while : (p : ℕ → Bool) (xs : List ℕ) → Distinct xs → Distinct (drop_while p xs)
Distinct-drop_while p [] d = tt
Distinct-drop_while p (x ∷ xs) d = elim (Bool-cases (p x)) [
  | inl e ↦ rw e (Distinct-drop_while p xs d.1)
  | inr e ↦ rw e d
]

-- The loop made exactly the processes of the due entries ready, in the order of the queue, and left
-- the others in it.
pub record Expired (w w1 : World) (k : ℕ) (now : ℤ) (ds : List ℕ) : Type 0 where
  pub woken : w1.machine ≡ free_each w.machine w.timers.descs (take_while (due w.timers now) ds)
  pub queue : Timeouts w1.timers k (drop_while (due w.timers now) ds)
  pub descs : w1.timers.descs ≡ w.timers.descs
  pub early : All (λ q. due w.timers now q ≡ true) (take_while (due w.timers now) ds)
  pub late : All (λ q. due w.timers now q ≡ false) (drop_while (due w.timers now) ds)

-- In a queue in time order whose entries all have one of the two types, the loop of
-- `handle_timeout_interrupt` comes to its end within the fuel. It has gone through exactly the entries
-- that are due, first those that expire first, has made each process in `After` ready and each
-- alternation that enables its guards or waits, has put those that had gone to wait, and no others, on
-- the ready queue, and leaves all other entries in the timeout queue, in order.
pub expire-Expired :
    (w : World) (k : ℕ) (now : ℤ) (ds : List ℕ)
    → Timeouts w.timers k ds
    → All (λ q. Known (w.timers.descs q)) ds
    → (w1 : World) × (expire list_fuel w k now ≡ done w1) × Expired w w1 k now ds
expire-Expired w k now ds q v = (
  after_due w k now ds,
  expire_lem list_fuel w k now ds q.short q.chain v,
  record {
    woken = refl;
    descs = refl;
    early = All-due w.timers now ds;
    late = All-drop_while_test (time_of w.timers) now ds q.order;
    queue = record {
      chain =
          rw (==-refl k) (
            Chain-drop_while (link_of w.timers) (due w.timers now) (w.timers.time_que k) ds
              q.chain);
      distinct = Distinct-drop_while (due w.timers now) ds q.distinct;
      order = InOrder-drop_while (time_of w.timers) (due w.timers now) ds q.order;
      short = omega (arith, q.short, length-drop_while-le (due w.timers now) ds);
    };
  },
)

-- ===== src/Sched/Inbox.antt =====
-- The loop of `take`: the processes that other units made ready come to the ready queue.
use mathlib.Core.List.{Perm, perm_middle}
use mathlib.Core.List.Perm
use cxp.Common.{
  ℕ, zero, suc, ◌+◌, ◌<◌, ◌≡◌, refl, sym, subst, ap, ◌∙◌, Option, none, some, arith, length, List,
  ◌∷◌, [], ◌++◌, All, Fresh, Distinct, Bool, fun_ext, take_while, drop_while,
  take-append-drop_while, ==-refl,
}
use cxp.Common.Insertion.{Fresh-insert, length-insert}
use cxp.Common.Chain.{list_fuel}
use cxp.Machine.{Process, Machine, pri_of, pun_of}
use cxp.Priority.{pri_le}
use cxp.Ready.{enqueue0}
use cxp.Ready.Order.{Ready, enqueued, enqueue0-Ready}
use cxp.Ipq.{ipq_remove, remove, set_ipq}
use cxp.Ipq.Fifo.{Holds, remove-Holds, remove_empty}
use cxp.Sched.{drain}
use cxp.Sched.View.{Ready-keep}
use cxp.Sched.Preempt.{enqueue0-rest, enqueue0-fields, middle-perm}

-- What `m'` has as `m` has it: the unit's registers, and all of the processes but their links.
pub record Kept (k : ℕ) (m m' : Machine) : Type 0 where
  pub current : m'.current k ≡ m.current k
  pub current_pri : m'.current_pri k ≡ m.current_pri k
  pub running : m'.running k ≡ m.running k
  pub process : (q : ℕ) → record (m'.procs q) { next = none } ≡ record (m.procs q) { next = none }

Kept-refl : (k : ℕ) (m : Machine) → Kept k m m
Kept-refl k m = record { current = refl; current_pri = refl; running = refl; process = λ q. refl }

pub Kept-trans : (k : ℕ) {a b c : Machine} → Kept k a b → Kept k b c → Kept k a c
Kept-trans k x y = record {
  current = y.current ∙ x.current;
  current_pri = y.current_pri ∙ x.current_pri;
  running = y.running ∙ x.running;
  process = λ q. y.process q ∙ x.process q;
}

pub Kept-pri : (k : ℕ) {m m' : Machine} → Kept k m m' → pri_of m' ≡ pri_of m
Kept-pri k x = fun_ext λ q. ap (λ (p : Process). p.pri) (x.process q)

pub Kept-pun : (k : ℕ) {m m' : Machine} → Kept k m m' → pun_of m' ≡ pun_of m
Kept-pun k x = fun_ext λ q. ap (λ (p : Process). p.pun) (x.process q)

enqueue0-Kept : (k : ℕ) (m : Machine) (p : ℕ) → Kept k m (enqueue0 m p)
enqueue0-Kept k m p =
    let e = enqueue0-rest m p in
    record {
      current = ap (λ (x : Machine). x.current k) e;
      current_pri = ap (λ (x : Machine). x.current_pri k) e;
      running = ap (λ (x : Machine). x.running k) e;
      process = λ q. sym (enqueue0-fields m p q);
    }

-- The interprocessor queue of unit `k` holds processes of the unit, none of them twice or ready.
pub record Inbox (m : Machine) (k : ℕ) (xs ps : List ℕ) : Type 0 where
  pub holds : Holds (m.ip_ques k) xs
  pub at : All (λ q. pun_of m q ≡ k) xs
  pub distinct : Distinct xs
  pub apart : All (λ x. Fresh x ps) xs

-- A removal from the interprocessor queue.
pub ipq_remove_lem :
    (m : Machine) (k x : ℕ) (xs : List ℕ)
    → Holds (m.ip_ques k) (x ∷ xs)
    → ((ipq_remove m k).0 ≡ some x)
      × ((ipq_remove m k).1 ≡ set_ipq m k (remove (m.ip_ques k)).1)
      × Holds ((ipq_remove m k).1.ip_ques k) xs
unfolding ipq_remove
ipq_remove_lem m k x xs h =
    let (e, r) = remove-Holds (m.ip_ques k) x xs h in (e, refl, rw (==-refl k) r)

pub ipq_remove_empty :
    (m : Machine) (k : ℕ)
    → Holds (m.ip_ques k) []
    → ((ipq_remove m k).0 ≡ none)
      × ((ipq_remove m k).1 ≡ set_ipq m k (remove (m.ip_ques k)).1)
      × Holds ((ipq_remove m k).1.ip_ques k) []
unfolding ipq_remove
ipq_remove_empty m k h =
    let e = remove_empty (m.ip_ques k) h in
    (ap (λ (x : Option ℕ × _). x.0) e, refl, rw (==-refl k) (rw e h))

pub set_ipq-Kept : (k : ℕ) (m : Machine) (q : _) → Kept k m (set_ipq m k q)
set_ipq-Kept k m q = record {
  current = refl;
  current_pri = refl;
  running = refl;
  process = λ q. refl;
}

apart-insert :
    (x : ℕ) (front back xs : List ℕ)
    → Fresh x xs
    → All (λ y. Fresh y (front ++ back)) xs
    → All (λ y. Fresh y (front ++ x ∷ back)) xs
apart-insert x front back [] f a = tt
apart-insert x front back (y ∷ xs) f a =
    (Fresh-insert y x front back (λ e. f.0 (sym e)) a.0, apart-insert x front back xs f.1 a.1)

pub record Drained (m m' : Machine) (k : ℕ) (xs ps qs : List ℕ) : Type 0 where
  pub queue : Ready m' k qs
  pub inbox : Holds (m'.ip_ques k) []
  pub kept : Kept k m m'
  pub perm : Perm qs (xs ++ ps)

pub Ready-set_ipq :
    (m m' : Machine) (k : ℕ) (q : _) (ps : List ℕ)
    → m' ≡ set_ipq m k q
    → Ready m k ps
    → Ready m' k ps
Ready-set_ipq m m' k q ps e r =
    Ready-keep m m' k ps (ap (λ (x : Machine). x.procs) (sym e))
      (ap (λ (x : Machine). x.rdy_ques k) (sym e)) r

pub Kept-set_ipq : (m m' : Machine) (k : ℕ) (q : _) → m' ≡ set_ipq m k q → Kept k m m'
Kept-set_ipq m m' k q e = subst (Kept k m) (sym e) (set_ipq-Kept k m q)

abbrev pub after_remove : Machine → ℕ → Machine
after_remove m k = (ipq_remove m k).1

abbrev pub after_move : Machine → ℕ → ℕ → Machine
after_move m k x = enqueue0 (after_remove m k) x

-- One entry of the interprocessor queue comes to the ready queue.
module _ (m : Machine) (k x : ℕ) (xs ps : List ℕ) (i : Inbox m k (x ∷ xs) ps) (r : Ready m k ps)
    (len : length ps + 1 < list_fuel) where
  pub moved-Kept : Kept k m (after_move m k x)
  moved-Kept =
      Kept-trans k (Kept-set_ipq m (after_remove m k) k _ (ipq_remove_lem m k x xs i.holds).1)
        (enqueue0-Kept k (after_remove m k) x)

  removed-pun : pun_of (after_remove m k) ≡ pun_of m
  removed-pun =
      Kept-pun k (Kept-set_ipq m (after_remove m k) k _ (ipq_remove_lem m k x xs i.holds).1)

  moved-Ready : Ready (after_move m k x) k (enqueued (after_remove m k) x ps)
  moved-Ready =
      let at : pun_of (after_remove m k) x ≡ k = ap (λ (g : ℕ → ℕ). g x) removed-pun ∙ i.at.0 in
      let old : Ready (after_remove m k) k ps =
        Ready-set_ipq m (after_remove m k) k _ ps (ipq_remove_lem m k x xs i.holds).1 r in
      subst (λ j. Ready (enqueue0 (after_remove m k) x) j (enqueued (after_remove m k) x ps)) at
        (enqueue0-Ready (after_remove m k) x ps
          (subst (λ j. Ready (after_remove m k) j ps) (sym at) old) i.apart.0 len)

  pub passes : ℕ → Bool
  passes q = pri_le (pri_of (after_remove m k) x) (pri_of (after_remove m k) q)

  pub moved-Inbox : Inbox (after_move m k x) k xs (enqueued (after_remove m k) x ps)
  unfolding passes
  moved-Inbox = record {
    holds =
        subst (λ (h : Machine). Holds (h.ip_ques k) xs) (sym (enqueue0-rest (after_remove m k) x))
          (ipq_remove_lem m k x xs i.holds).2;
    at = rw (Kept-pun k moved-Kept) i.at.1;
    distinct = i.distinct.1;
    apart =
        apart-insert x (take_while passes ps) (drop_while passes ps) xs i.distinct.0
          (rw (take-append-drop_while passes ps) i.apart.1);
  }

  pub moved-perm : Perm (xs ++ enqueued (after_remove m k) x ps) (x ∷ xs ++ ps)
  unfolding passes
  moved-perm =
      Perm.trans
        (Perm.append (Perm.refl xs) (
          middle-perm x (take_while passes ps) (drop_while passes ps) ps
            (take-append-drop_while passes ps)))
        (perm_middle xs ps)

  pub moved-length : length (enqueued (after_remove m k) x ps) ≡ length ps + 1
  unfolding passes
  moved-length = omega (
    arith,
    length-insert x (take_while passes ps) (drop_while passes ps),
    ap length (take-append-drop_while passes ps),
  )

-- Draining empties the interprocessor queue into the ready queue.
pub drain-Drained :
    (f : ℕ) (m : Machine) (k : ℕ) (xs ps : List ℕ)
    → length xs < f
    → Inbox m k xs ps
    → Ready m k ps
    → length xs + length ps < list_fuel
    → (qs : List ℕ) × Drained m (drain f m k) k xs ps qs
unfolding drain
drain-Drained zero m k xs ps l i r len = absurd (omega arith)
drain-Drained (suc f) m k [] ps l i r len =
    let (e, d, h) = ipq_remove_empty m k i.holds in
    (
      ps,
      rw (e, drain)
          (record {
            queue = Ready-set_ipq m (ipq_remove m k).1 k _ ps d r;
            inbox = h;
            kept = Kept-set_ipq m (ipq_remove m k).1 k _ d;
            perm = Perm.refl ps;
          }),
    )
drain-Drained (suc f) m k (x ∷ xs) ps l i r len =
    let room : length ps + 1 < list_fuel = omega arith in
    let (qs, d) =
      drain-Drained f (after_move m k x) k xs (enqueued (after_remove m k) x ps) (omega arith)
        (moved-Inbox m k x xs ps i r room) (moved-Ready m k x xs ps i r room)
        (omega (arith, moved-length m k x xs ps i r room)) in
    (
      qs,
      rw ((ipq_remove_lem m k x xs i.holds).0, drain)
          (record {
            queue = d.queue;
            inbox = d.inbox;
            kept = Kept-trans k (moved-Kept m k x xs ps i r room) d.kept;
            perm = Perm.trans d.perm (moved-perm m k x xs ps i r room);
          }),
    )

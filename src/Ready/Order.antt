-- ===== src/Ready/Order.antt =====
-- What a ready queue holds, and where `enqueue0` puts a process.
use cxp.Common.{
  ℕ, ◌+◌, ◌<◌, ◌≡◌, refl, sym, subst, ◌∙◌, ap, Option, none, some, arith, update, if◌then◌else◌,
  ◌==◌, fun_ext, length, take_while, drop_while, List, ◌∷◌, ◌++◌, first, last_or, All, Fresh,
  Distinct, ==-refl, take-append-drop_while,
}
use cxp.Common.Chain.{Chain, walk_lem, list_fuel, link, link_head, Chain-link}
use cxp.Common.Insertion.{All-insert, length-insert, Distinct-insert, Sorted, Sorted-insert}
use cxp.Machine.{Process, Machine, next_of, pri_of, pun_of}
use cxp.Priority.{pri_le, pri_value}
use cxp.Ready.{set_next, insert, find_place, enqueue0}

abbrev pub value_of : Machine → ℕ → ℕ
value_of m q = pri_value (pri_of m q)

-- The ready queue of unit `k` holds the processes of the list, in this order.
pub record Ready (m : Machine) (k : ℕ) (ps : List ℕ) : Type 0 where
  pub chain : Chain (next_of m) (m.rdy_ques k) ps
  pub distinct : Distinct ps
  pub at : All (λ q. pun_of m q ≡ k) ps
  pub sorted : Sorted (value_of m) ps
  pub short : length ps < list_fuel

-- Specification of `enqueue0`: behind the entries of at least its priority, before the others.
abbrev pub enqueued : Machine → ℕ → List ℕ → List ℕ
enqueued m p ps =
    let passes = λ (q : ℕ). pri_le (pri_of m p) (pri_of m q) in
    take_while passes ps ++ p ∷ drop_while passes ps

next-set_next :
    (procs : ℕ → Process) (p : ℕ) (v : Option ℕ)
    → ◌≡◌ {A = ℕ → Option ℕ} (λ q. (set_next procs p v q).next) (update (λ q. (procs q).next) p v)
unfolding set_next
next-set_next procs p v = fun_ext λ q. ground arith

pub next_of-insert :
    (m : Machine) (p : ℕ) (prev curr : Option ℕ)
    → next_of (insert m p prev curr) ≡ link (next_of m) prev p curr
unfolding insert link
next_of-insert m p none none = next-set_next m.procs p none
next_of-insert m p none (some c) = next-set_next m.procs p (some c)
next_of-insert m p (some r) none =
    next-set_next (set_next m.procs r (some p)) p none
    ∙ ap (λ f. update f p none) (next-set_next m.procs r (some p))
next_of-insert m p (some r) (some c) =
    next-set_next (set_next m.procs r (some p)) p (some c)
    ∙ ap (λ f. update f p (some c)) (next-set_next m.procs r (some p))

-- Nothing but links and heads changes.
pub insert-fields :
    (m : Machine) (p : ℕ) (prev curr : Option ℕ) (q : ℕ)
    → record (m.procs q) { next = none } ≡ record ((insert m p prev curr).procs q) { next = none }
unfolding insert set_next
insert-fields m p none none q = ground arith
insert-fields m p none (some c) q = ground arith
insert-fields m p (some r) none q = ground arith
insert-fields m p (some r) (some c) q = ground arith

pub rdy-insert :
    (m : Machine) (p k : ℕ) (prev curr : Option ℕ)
    → (insert m p prev curr).rdy_ques k
      ≡ (if k == pun_of m p then link_head (m.rdy_ques k) prev p else m.rdy_ques k)
unfolding insert link_head
rdy-insert m p k none none = refl
rdy-insert m p k none (some c) = refl
rdy-insert m p k (some r) none = ground arith
rdy-insert m p k (some r) (some c) = ground arith

module _ (m : Machine) (p : ℕ) (prev curr : Option ℕ) where
  pub pri_of-insert : pri_of (insert m p prev curr) ≡ pri_of m
  pri_of-insert = fun_ext λ q. sym (ap (λ (x : Process). x.pri) (insert-fields m p prev curr q))

  pub pun_of-insert : pun_of (insert m p prev curr) ≡ pun_of m
  pun_of-insert = fun_ext λ q. sym (ap (λ (x : Process). x.pun) (insert-fields m p prev curr q))

pub enqueue0_lem :
    (m : Machine) (p : ℕ) (ps : List ℕ)
    → Ready m (pun_of m p) ps
    → let t = λ (q : ℕ). pri_le (pri_of m p) (pri_of m q) in
      enqueue0 m p ≡ insert m p (last_or none (take_while t ps)) (first (drop_while t ps))
unfolding enqueue0 find_place
enqueue0_lem m p ps r = rw (
    walk_lem list_fuel (λ (q : ℕ). pri_le (pri_of m p) (pri_of m q)) (next_of m) none
      (m.rdy_ques (pun_of m p)) ps r.short r.chain)

insert-Ready :
    (m : Machine) (p : ℕ) (front back : List ℕ)
    → Ready m (pun_of m p) (front ++ back)
    → Fresh p (front ++ back)
    → length (front ++ back) + 1 < list_fuel
    → Sorted (value_of m) (front ++ p ∷ back)
    → Ready (insert m p (last_or none front) (first back)) (pun_of m p) (front ++ p ∷ back)
insert-Ready m p front back r f len s =
    let prev = last_or none front in
    let curr = first back in
    record {
      chain =
          rw
            (
              next_of-insert m p prev curr,
              rdy-insert m p (pun_of m p) prev curr,
              ==-refl (pun_of m p),
            )
            (Chain-link (next_of m) p (m.rdy_ques (pun_of m p)) front back r.distinct f r.chain);
      distinct = Distinct-insert p front back f r.distinct;
      at =
          rw (pun_of-insert m p prev curr)
            (All-insert (λ q. pun_of m q ≡ pun_of m p) p front back refl r.at);
      sorted =
          subst (λ (g : ℕ → ℕ). Sorted (λ q. pri_value (g q)) (front ++ p ∷ back))
            (sym (pri_of-insert m p prev curr)) s;
      short = omega (arith, length-insert p front back);
    }

-- In a well-formed ready queue `enqueue0` puts `p` behind the entries of at least its priority.
pub enqueue0-Ready :
    (m : Machine) (p : ℕ) (ps : List ℕ)
    → Ready m (pun_of m p) ps
    → Fresh p ps
    → length ps + 1 < list_fuel
    → Ready (enqueue0 m p) (pun_of m p) (enqueued m p ps)
enqueue0-Ready m p ps r f len =
    let t = λ (q : ℕ). pri_le (pri_of m p) (pri_of m q) in
    let split = take-append-drop_while t ps in
    rw (enqueue0_lem m p ps r) (
      insert-Ready m p (take_while t ps) (drop_while t ps) (rw split r) (rw split f) (rw split len)
        (Sorted-insert (value_of m) p ps r.sorted))

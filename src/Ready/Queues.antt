-- ===== src/Ready/Queues.antt =====
-- The ready queues together: what an insertion into one leaves of the others, and the head's removal.
use cxp.Common.{
  ℕ, suc, ◌+◌, ◌≤◌, ◌<◌, ◌≡◌, ◌≢◌, refl, sym, subst, ◌∙◌, Option, none, some, arith, length,
  take_while, drop_while, List, ◌∷◌, [], ◌++◌, first, last, last_or, All, Fresh, Bool-cases, ==-ne,
  ==-refl, take-append-drop_while, inl, inr, leb,
}
use cxp.Common.Chain.{Chain, Chain-update, list_fuel, link}
use cxp.Common.Insertion.{Sorted, All-mono}
use cxp.Machine.{Machine, next_of, pri_of, pun_of}
use cxp.Priority.{pri_le, pri_value}
use cxp.Ready.{insert, enqueue0, pop}
use cxp.Ready.Order.{
  Ready, value_of, enqueue0_lem, enqueue0-Ready, next_of-insert, rdy-insert, pri_of-insert,
  pun_of-insert,
}

-- A process of another unit is not in a unit's queue.
Fresh-of_pun :
    (m : Machine) (p k : ℕ) (qs : List ℕ)
    → pun_of m p ≢ k
    → All (λ q. pun_of m q ≡ k) qs
    → Fresh p qs
Fresh-of_pun m p k [] h a = tt
Fresh-of_pun m p k (q ∷ qs) h a =
    (λ e. h (subst (λ x. pun_of m x ≡ k) (sym e) a.0), Fresh-of_pun m p k qs h a.1)

Chain-link_other :
    (next : ℕ → Option ℕ) (p : ℕ) (prev curr head : Option ℕ) (qs : List ℕ)
    → Fresh p qs
    → ((r : ℕ) → prev ≡ some r → Fresh r qs)
    → Chain next head qs
    → Chain (link next prev p curr) head qs
unfolding link
Chain-link_other next p none curr head qs f g h = Chain-update next p curr head qs f h
Chain-link_other next p (some r) curr head qs f g h =
    Chain-update _ p curr head qs f (Chain-update next r (some p) head qs (g r refl) h)

module _ (m : Machine) (p : ℕ) (prev curr : Option ℕ) (k : ℕ) (qs : List ℕ) where
  insert-other :
      Ready m k qs
      → pun_of m p ≢ k
      → ((r : ℕ) → prev ≡ some r → pun_of m r ≢ k)
      → Ready (insert m p prev curr) k qs
  insert-other r h g = record {
    chain =
        rw
          (
            next_of-insert m p prev curr,
            rdy-insert m p k prev curr,
            ==-ne k (pun_of m p) (λ e. h (sym e)),
          )
          (Chain-link_other (next_of m) p prev curr (m.rdy_ques k) qs (Fresh-of_pun m p k qs h r.at)
            (λ x e. Fresh-of_pun m x k qs (g x e) r.at) r.chain);
    distinct = r.distinct;
    at = rw (pun_of-insert m p prev curr) r.at;
    sorted =
        subst (λ (g : ℕ → ℕ). Sorted (λ q. pri_value (g q)) qs) (sym (pri_of-insert m p prev curr))
          r.sorted;
    short = r.short;
  }

All-last {ℓ κ} :
    {A : Type ℓ} (P : A → Type κ) (x : A) (front back : List A)
    → All P (x ∷ front ++ back)
    → P (last x front)
All-last P x [] back a = a.0
All-last P x (y ∷ front) back a = All-last P y front back a.1

last_or-pun :
    (m : Machine) (k : ℕ) (front back : List ℕ) (r : ℕ)
    → All (λ q. pun_of m q ≡ k) (front ++ back)
    → last_or none front ≡ some r
    → pun_of m r ≡ k
last_or-pun m k [] back r a e = cc
last_or-pun m k (x ∷ front) back r a e =
    subst (λ (o : ℕ). pun_of m o ≡ k) (ground arith) (All-last (λ q. pun_of m q ≡ k) x front back a)

-- The queues of the other units are left alone.
enqueue0-other :
    (m : Machine) (p k : ℕ) (ps qs : List ℕ)
    → Ready m (pun_of m p) ps
    → Ready m k qs
    → pun_of m p ≢ k
    → Ready (enqueue0 m p) k qs
enqueue0-other m p k ps qs r s h =
    let t = λ (q : ℕ). pri_le (pri_of m p) (pri_of m q) in
    let split = take-append-drop_while t ps in
    rw (enqueue0_lem m p ps r) (
      insert-other m p (last_or none (take_while t ps)) (first (drop_while t ps)) k qs s h (λ x e y.
        h (
          sym (last_or-pun m (pun_of m p) (take_while t ps) (drop_while t ps) x (rw split r.at) e)
          ∙ y)))

All-take_while :
    (f : ℕ → ℕ) (v : ℕ) (xs : List ℕ) → All (λ q. f q ≤ v) (take_while (λ q. leb (f q) v) xs)
All-take_while f v [] = tt
All-take_while f v (x ∷ xs) = ground (arith, All-take_while f v xs)

All-drop_while :
    (f : ℕ → ℕ) (v : ℕ) (xs : List ℕ)
    → Sorted f xs
    → All (λ q. v < f q) (drop_while (λ q. leb (f q) v) xs)
All-drop_while f v [] s = tt
All-drop_while f v (x ∷ xs) s = elim (Bool-cases (leb (f x) v)) [
  | inl e ↦ rw e (All-drop_while f v xs s.1)
  | inr e ↦ rw e (ground arith, All-mono f (suc v) (f x) xs (ground arith) s.0)
]

-- `enqueue0` splits the queue in two: the entries of at least the new one's priority, which stay
-- ahead of it, also where the priority is the same, and those of lower priority, which stay behind.
pub enqueue0_places :
    (m : Machine) (p : ℕ) (ps : List ℕ)
    → Ready m (pun_of m p) ps
    → Fresh p ps
    → length ps + 1 < list_fuel
    → (front : List ℕ) × (back : List ℕ) × (ps ≡ front ++ back)
      × Ready (enqueue0 m p) (pun_of m p) (front ++ p ∷ back)
      × All (λ q. value_of m q ≤ value_of m p) front
      × All (λ q. value_of m p < value_of m q) back
enqueue0_places m p ps r f len =
    let t = λ (q : ℕ). pri_le (pri_of m p) (pri_of m q) in
    (
      take_while t ps,
      drop_while t ps,
      sym (take-append-drop_while t ps),
      enqueue0-Ready m p ps r f len,
      All-take_while (value_of m) (value_of m p) ps,
      All-drop_while (value_of m) (value_of m p) ps r.sorted,
    )

-- The head's removal.
pub pop-Ready :
    (m : Machine) (k p : ℕ) (ps : List ℕ)
    → Ready m k (p ∷ ps)
    → ((pop m k).0 ≡ some p) × Ready (pop m k).1 k ps
unfolding pop
pop-Ready m k p ps r =
    rw (r.chain.0, pop)
      (
        refl,
        record {
          chain = rw (==-refl k) r.chain.1;
          distinct = r.distinct.1;
          at = r.at.1;
          sorted = r.sorted.1;
          short = omega arith;
        },
      )

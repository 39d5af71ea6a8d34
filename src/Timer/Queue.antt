-- ===== src/Timer/Queue.antt =====
-- A timeout queue is in time order: insertion.
use cxp.Common.{
  ℕ, ◌+◌, ◌<◌, ◌≡◌, refl, sym, subst, ap, ◌∙◌, fun_ext, false, Option, none, some, arith, update,
  List, [], ◌∷◌, ◌++◌, length, first, last_or, take_while, drop_while, take-append-drop_while, All,
  Fresh, Distinct, Bool-cases, inl, inr, ==-refl, if◌then◌else◌, is_some,
}
use cxp.Common.Int.{ℤ, pos_part, ◌≤ℤ◌, ◌-ℤ◌, leb_ℤ}
use cxp.Common.Chain.{Chain, walk_lem, list_fuel, link, link_head, Chain-link}
use cxp.Common.Insertion.{All-insert, length-insert, Distinct-insert}
use cxp.Timer.{
  TimeoutDesc, Timers, link_of, time_of, set_next, arm, insert_at, insert_place, insert_in_queue,
}

-- Each entry expires no later than those behind it.
abbrev pub InOrder : (ℕ → ℤ) → List ℕ → Type 0
InOrder f [] = Unit {0}
InOrder f (x ∷ xs) = All (λ y. f x ≤ℤ f y) xs × InOrder f xs

-- The timeout queue of unit `k` holds the descriptors of the list, in this order.
pub record Timeouts (t : Timers) (k : ℕ) (ds : List ℕ) : Type 0 where
  pub chain : Chain (link_of t) (t.time_que k) ds
  pub distinct : Distinct ds
  pub order : InOrder (time_of t) ds
  pub short : length ds < list_fuel

pub All-earlier :
    (f : ℕ → ℤ) (a b : ℤ) (xs : List ℕ) → a ≤ℤ b → All (λ y. b ≤ℤ f y) xs → All (λ y. a ≤ℤ f y) xs
All-earlier f a b [] h k = tt
All-earlier f a b (x ∷ xs) h k = (omega (arith, k.0), All-earlier f a b xs h k.1)

InOrder-insert :
    (f : ℕ → ℤ) (p : ℕ) (xs : List ℕ)
    → InOrder f xs
    → let t = λ (q : ℕ). leb_ℤ (f q) (f p) in InOrder f (take_while t xs ++ p ∷ drop_while t xs)
InOrder-insert f p [] s = (tt, tt)
InOrder-insert f p (x ∷ xs) s = elim (Bool-cases (leb_ℤ (f x) (f p))) [
  | inl e ↦
      let t = λ (q : ℕ). leb_ℤ (f q) (f p) in
      rw e (
        All-insert (λ y. f x ≤ℤ f y) p (take_while t xs) (drop_while t xs) (ground arith)
            (rw (take-append-drop_while t xs) s.0),
        InOrder-insert f p xs s.1,
      )
  | inr e ↦ rw e ((ground arith, All-earlier f (f p) (f x) xs (ground arith) s.0), s)
]

pub next-set_next :
    (descs : ℕ → TimeoutDesc) (d : ℕ) (v : Option ℕ)
    → ◌≡◌ {A = ℕ → Option ℕ} (λ q. (set_next descs d v q).next) (update (λ q. (descs q).next) d v)
unfolding set_next
next-set_next descs d v = fun_ext λ q. ground arith

module _ (t : Timers) (cpu k d : ℕ) (now : ℤ) where
  link_of-insert_at :
      (prev curr : Option ℕ)
      → link_of (insert_at t cpu k d now prev curr) ≡ link (link_of t) prev d curr
  unfolding insert_at link
  link_of-insert_at none none = next-set_next t.descs d none
  link_of-insert_at none (some c) = next-set_next t.descs d (some c)
  link_of-insert_at (some r) none =
      next-set_next (set_next t.descs r (some d)) d none
      ∙ ap (λ f. update f d none) (next-set_next t.descs r (some d))
  link_of-insert_at (some r) (some c) =
      next-set_next (set_next t.descs r (some d)) d (some c)
      ∙ ap (λ f. update f d (some c)) (next-set_next t.descs r (some d))

  -- Nothing of a descriptor but its link changes.
  insert_at-fields :
      (prev curr : Option ℕ) (q : ℕ)
      → record (t.descs q) { next = none }
        ≡ record ((insert_at t cpu k d now prev curr).descs q) { next = none }
  unfolding insert_at set_next
  insert_at-fields none none q = ground arith
  insert_at-fields none (some c) q = ground arith
  insert_at-fields (some r) none q = ground arith
  insert_at-fields (some r) (some c) q = ground arith

  time_of-insert_at :
      (prev curr : Option ℕ) → time_of t ≡ time_of (insert_at t cpu k d now prev curr)
  time_of-insert_at prev curr =
      fun_ext λ q. ap (λ (x : TimeoutDesc). x.time) (insert_at-fields prev curr q)

  time_que-insert_at :
      (prev curr : Option ℕ)
      → (insert_at t cpu k d now prev curr).time_que k ≡ link_head (t.time_que k) prev d
  unfolding insert_at link_head
  time_que-insert_at none none = rw (==-refl k) refl
  time_que-insert_at none (some c) = rw (==-refl k) refl
  time_que-insert_at (some r) none = refl
  time_que-insert_at (some r) (some c) = refl

  -- The timer is set if the new entry is the first to expire.
  armed-insert_at :
      (prev curr : Option ℕ)
      → (insert_at t cpu k d now prev curr).armed
        ≡ (if is_some prev then t.armed else update t.armed cpu (pos_part (time_of t d -ℤ now)))
  unfolding insert_at arm
  armed-insert_at none none = refl
  armed-insert_at none (some c) = refl
  armed-insert_at (some r) none = refl
  armed-insert_at (some r) (some c) = refl

  insert_at-Timeouts :
      (front back : List ℕ)
      → Timeouts t k (front ++ back)
      → Fresh d (front ++ back)
      → length (front ++ back) + 1 < list_fuel
      → InOrder (time_of t) (front ++ d ∷ back)
      → Timeouts (insert_at t cpu k d now (last_or none front) (first back)) k (front ++ d ∷ back)
  insert_at-Timeouts front back r f len s =
      let prev = last_or none front in
      let curr = first back in
      record {
        chain =
            rw (link_of-insert_at prev curr, time_que-insert_at prev curr)
              (Chain-link (link_of t) d (t.time_que k) front back r.distinct f r.chain);
        distinct = Distinct-insert d front back f r.distinct;
        order =
            subst (λ (g : ℕ → ℤ). InOrder g (front ++ d ∷ back)) (time_of-insert_at prev curr) s;
        short = omega (arith, length-insert d front back);
      }

-- `insertInQueue` puts the entry behind those that expire no later, and arms the timer of the unit
-- that executes it exactly when the entry is the first.
pub record Inserted (t t' : Timers) (cpu k d : ℕ) (now : ℤ) (ds : List ℕ) : Type 0 where
  pub front : List ℕ
  pub back : List ℕ
  pub split : ds ≡ front ++ back
  pub queue : Timeouts t' k (front ++ d ∷ back)
  pub no_later : All (λ q. time_of t q ≤ℤ time_of t d) front
  pub later : All (λ q. leb_ℤ (time_of t q) (time_of t d) ≡ false) back
  pub timer : t'.armed ≡ (
      if is_some (last_or none front)
      then t.armed
      else update t.armed cpu (pos_part (time_of t d -ℤ now)))

All-take_while_test :
    (f : ℕ → ℤ) (v : ℤ) (xs : List ℕ) → All (λ q. f q ≤ℤ v) (take_while (λ q. leb_ℤ (f q) v) xs)
All-take_while_test f v [] = tt
All-take_while_test f v (x ∷ xs) = ground (arith, All-take_while_test f v xs)

All-after :
    (f : ℕ → ℤ) (v : ℤ) (x : ℕ) (xs : List ℕ)
    → leb_ℤ (f x) v ≡ false
    → All (λ y. f x ≤ℤ f y) xs
    → All (λ q. leb_ℤ (f q) v ≡ false) xs
All-after f v x [] e a = tt
All-after f v x (y ∷ xs) e a = (ground (arith, a.0), All-after f v x xs e a.1)

pub All-drop_while_test :
    (f : ℕ → ℤ) (v : ℤ) (xs : List ℕ)
    → InOrder f xs
    → All (λ q. leb_ℤ (f q) v ≡ false) (drop_while (λ q. leb_ℤ (f q) v) xs)
All-drop_while_test f v [] s = tt
All-drop_while_test f v (x ∷ xs) s = elim (Bool-cases (leb_ℤ (f x) v)) [
  | inl e ↦ rw e (All-drop_while_test f v xs s.1)
  | inr e ↦ rw e (e, All-after f v x xs e s.0)
]

-- On a queue in time order of any unit `k`, `insertInQueue` puts the new entry behind all that expire
-- no later and before all that expire later. If no entry stands before it, the timer of the unit `cpu`
-- that executes the call is set for it, and otherwise no timer is set.
pub insert_in_queue-Inserted :
    (t : Timers) (cpu k d : ℕ) (now : ℤ) (ds : List ℕ)
    → Timeouts t k ds
    → Fresh d ds
    → length ds + 1 < list_fuel
    → Inserted t (insert_in_queue t cpu k d now) cpu k d now ds
unfolding insert_in_queue insert_place
insert_in_queue-Inserted t cpu k d now ds r f len =
    let test = λ (q : ℕ). leb_ℤ (time_of t q) (time_of t d) in
    let front = take_while test ds in
    let back = drop_while test ds in
    let split = take-append-drop_while test ds in
    rw (walk_lem list_fuel test (link_of t) none (t.time_que k) ds r.short r.chain) (record {
      front = front;
      back = back;
      split = sym split;
      queue =
          insert_at-Timeouts t cpu k d now front back (rw split r) (rw split f) (rw split len)
            (InOrder-insert (time_of t) d ds r.order);
      no_later = All-take_while_test (time_of t) (time_of t d) ds;
      later = All-drop_while_test (time_of t) (time_of t d) ds r.order;
      timer = armed-insert_at t cpu k d now (last_or none front) (first back);
    })

-- ===== src/Timer/Removal.antt =====
-- Removal from a timeout queue: what `removeFromQueue` takes out, and what it returns.
use cxp.Common.{
  ℕ, ◌≡◌, refl, sym, subst, ap, ◌∙◌, fun_ext, ◌⊎◌, true, false, Option, none, some, arith, update,
  List, [], ◌∷◌, ◌++◌, length, first, last_or, drop_while, All, Distinct, Bool-cases, inl, inr,
  ==-refl, ==-ne, if◌then◌else◌, is_some,
}
use cxp.Common.Int.{ℤ, ◌≤ℤ◌, leb_ℤ}
use cxp.Common.Insertion.{All-without, Distinct-without, Fresh-later, length-insert}
use cxp.Common.Chain.{Chain-first, Chain, Chain-unlink, unlink}
use cxp.Timer.{
  TimeoutDesc, Timers, link_of, time_of, set_next, skip, unlink_at, is_head, remove_at,
  remove_from_queue,
}
use cxp.Timer.Queue.{next-set_next, InOrder, Timeouts}
use cxp.Timer.Search.{
  matches, passed, rest, passed-append-rest, remove_place_lem, NoMatch, NoMatch-rest, rest-absent,
  NoMatch-absent,
}

-- What is left of a queue from which `c` is taken.
pub record Without (t t' : Timers) (k c : ℕ) (ds : List ℕ) : Type 0 where
  pub front : List ℕ
  pub back : List ℕ
  pub split : ds ≡ front ++ c ∷ back
  pub queue : Timeouts t' k (front ++ back)
  pub fields : (q : ℕ) → record (t.descs q) { next = none } ≡ record (t'.descs q) { next = none }

InOrder-append :
    (f : ℕ → ℤ) (c : ℕ) (front back : List ℕ)
    → InOrder f (front ++ c ∷ back)
    → InOrder f (front ++ back)
InOrder-append f c [] back s = s.1
InOrder-append f c (x ∷ front) back s =
    (All-without (λ y. f x ≤ℤ f y) c front back s.0, InOrder-append f c front back s.1)

module _ (t : Timers) (k c : ℕ) where
  link_of-unlink_at :
      (prev : Option ℕ) → link_of (unlink_at t k prev c) ≡ unlink (link_of t) prev (link_of t c)
  unfolding unlink_at skip unlink
  link_of-unlink_at none = refl
  link_of-unlink_at (some r) = next-set_next t.descs r (link_of t c)

  time_que-unlink_at :
      (front back : List ℕ)
      → Distinct (front ++ c ∷ back)
      → t.time_que k ≡ first (front ++ c ∷ back)
      → (unlink_at t k (last_or none front) c).time_que k
        ≡ (if is_some (last_or none front) then t.time_que k else link_of t c)
  unfolding unlink_at skip
  time_que-unlink_at [] back d e =
      ap
        (λ (h : Option ℕ).
          (if is_head h c then update t.time_que k (link_of t c) else t.time_que) k)
        e
      ∙ rw (==-refl c, ==-refl k) refl
  time_que-unlink_at (x ∷ front) back d e = rw (e, ==-ne x c (Fresh-later x c front back d.0)) e

  unlink_at-fields :
      (prev : Option ℕ) (q : ℕ)
      → record (t.descs q) { next = none } ≡ record ((unlink_at t k prev c).descs q) { next = none }
  unfolding unlink_at skip set_next
  unlink_at-fields none q = refl
  unlink_at-fields (some r) q = ground arith

  unlink_at-Without :
      (ds front back : List ℕ)
      → ds ≡ front ++ c ∷ back
      → Timeouts t k ds
      → Without t (unlink_at t k (last_or none front) c) k c ds
  unlink_at-Without ds front back e r =
      let prev = last_or none front in
      let d = subst Distinct e r.distinct in
      let h = subst (Chain (link_of t) (t.time_que k)) e r.chain in
      record {
        front = front;
        back = back;
        split = e;
        fields = unlink_at-fields prev;
        queue = record {
          chain =
              rw
                (
                  link_of-unlink_at prev,
                  time_que-unlink_at front back d (Chain-first (link_of t) (t.time_que k) _ h),
                )
                (Chain-unlink (link_of t) c front back (t.time_que k) d h);
          distinct = Distinct-without c front back d;
          order =
              subst (λ (g : ℕ → ℤ). InOrder g (front ++ back))
                (fun_ext λ q. ap (λ (x : TimeoutDesc). x.time) (unlink_at-fields prev q))
                (InOrder-append (time_of t) c front back (subst (InOrder (time_of t)) e r.order));
          short = omega (arith, r.short, ap length e, length-insert c front back);
        };
      }

-- `removeFromQueue` found the entry `c` of the process for the time, and took it out.
pub record Found (t : Timers) (k : ℕ) (time : ℤ) (proc : ℕ) (ds : List ℕ) (r : Option ℕ × Timers)
    : Type 0 where
  pub entry : ℕ
  pub returned : r.0 ≡ some entry
  pub match : matches t time proc entry ≡ true
  pub without : Without t r.1 k entry ds

remove_at-Found :
    (t : Timers) (k : ℕ) (time : ℤ) (proc : ℕ) (ds front later : List ℕ)
    → ds ≡ front ++ later
    → Timeouts t k ds
    → (NoMatch t time proc (first later) → All (λ y. matches t time proc y ≡ false) ds)
    → let r = remove_at t k time proc (last_or none front) (first later) in
      Found t k time proc ds r ⊎ (All (λ y. matches t time proc y ≡ false) ds × (r.1 ≡ t))
unfolding remove_at
remove_at-Found t k time proc ds front [] e q f = inr (f tt, refl)
remove_at-Found t k time proc ds front (c ∷ back) e q f =
    elim (Bool-cases (matches t time proc c)) [
      | inl m ↦ rw m (
          inl (record {
            entry = c;
            returned = refl;
            match = m;
            without = unlink_at-Without t k c ds front back e q;
          }))
      | inr m ↦ rw m (inr (f m, refl))
    ]

-- In a queue in time order, `removeFromQueue` takes out and returns an entry of the process for the
-- time, the others staying in order, or the queue has no such entry and nothing changes.
pub remove_from_queue-Found :
    (t : Timers) (k : ℕ) (time : ℤ) (proc : ℕ) (ds : List ℕ)
    → Timeouts t k ds
    → let r = remove_from_queue t k time proc in
      Found t k time proc ds r ⊎ (All (λ q. matches t time proc q ≡ false) ds × (r.1 ≡ t))
unfolding remove_from_queue
remove_from_queue-Found t k time proc ds q = rw (remove_place_lem t k time proc ds q) (
    remove_at-Found t k time proc ds (passed t time proc ds) (rest t time proc ds)
      (sym (passed-append-rest t k time proc ds q)) q (NoMatch-rest t time proc ds q.order))

remove_at-absent :
    (t : Timers) (k : ℕ) (time : ℤ) (proc : ℕ) (prev : Option ℕ) (xs : List ℕ)
    → NoMatch t time proc (first xs)
    → remove_at t k time proc prev (first xs) ≡ (first xs, t)
unfolding remove_at
remove_at-absent t k time proc prev [] m = refl
remove_at-absent t k time proc prev (x ∷ xs) m = rw m refl

-- In a queue in time order that has no entry of the process for the time, `removeFromQueue` leaves
-- everything as it was and returns the first entry that expires later, if there is one.
pub remove_from_queue-absent :
    (t : Timers) (k : ℕ) (time : ℤ) (proc : ℕ) (ds : List ℕ)
    → Timeouts t k ds
    → All (λ q. matches t time proc q ≡ false) ds
    → remove_from_queue t k time proc ≡ (first (drop_while (λ q. leb_ℤ (time_of t q) time) ds), t)
unfolding remove_from_queue
remove_from_queue-absent t k time proc ds q m =
    rw (remove_place_lem t k time proc ds q, rest-absent t time proc ds q.order m)
      (remove_at-absent t k time proc (last_or none (passed t time proc ds))
        (drop_while (λ x. leb_ℤ (time_of t x) time) ds)
        (NoMatch-absent t time proc (λ x. leb_ℤ (time_of t x) time) ds m))

-- ===== src/Ipq/Fifo.antt =====
-- An interprocessor queue as a bounded queue, with whole calls (ipq.m).
use cxp.Common.{
  ℕ, zero, suc, ◌+◌, ◌%◌, ◌≤◌, ◌<◌, ◌≡◌, refl, none, some, arith, update, if◌then◌else◌, ◌==◌,
  length, length-append, get_elem?, List, [], ◌∷◌, ◌++◌,
}
use native.Mathlib.Decide.{dec_lt}
use cxp.Common.Outcome.{done, spins}
use cxp.Machine.{IpQueue}
use cxp.Ipq.{qsize, next_slot, add, remove}

pub next_slot_lem : (s : ℕ) → s < qsize → next_slot s ≡ (s + 1) % qsize
unfolding next_slot
next_slot_lem s h = ground arith

-- The queue holds the entries of the list, oldest first; the other slots are NULL.
pub record Holds (q : IpQueue) (xs : List ℕ) : Type 0 where
  pub rem : q.next_rem < qsize
  pub room : length xs < qsize
  pub end : q.next_add ≡ (q.next_rem + length xs) % qsize
  pub slot : (i : ℕ) → i < qsize → q.que ((q.next_rem + i) % qsize) ≡ get_elem? xs i

get_elem?-snoc :
    (xs : List ℕ) (p i : ℕ)
    → get_elem? (xs ++ p ∷ []) i ≡ (if i == length xs then some p else get_elem? xs i)
get_elem?-snoc [] p zero = refl
get_elem?-snoc [] p (suc i) = ground arith
get_elem?-snoc (x ∷ xs) p zero = ground arith
get_elem?-snoc (x ∷ xs) p (suc i) = ground (arith, get_elem?-snoc xs p i)

-- With fewer than four entries an addition appends the entry; with four it spins.
add-Holds :
    (q : IpQueue) (p : ℕ) (xs : List ℕ)
    → Holds q xs
    → length xs + 1 < qsize
    → (q' : IpQueue) × (add q p ≡ done q') × Holds q' (xs ++ p ∷ [])
unfolding add
add-Holds q p xs h room = (
  record q { next_add = next_slot q.next_add; que = update q.que q.next_add (some p) },
  ground (arith, next_slot_lem q.next_add),
  record {
    rem = h.rem;
    room = omega (arith, length-append xs (p ∷ []));
    end = omega (arith, length-append xs (p ∷ []), next_slot_lem q.next_add);
    slot = λ i k. ground (arith, h.slot i k, get_elem?-snoc xs p i);
  },
)

add_full :
    (q : IpQueue) (p : ℕ) (xs : List ℕ) → Holds q xs → length xs + 1 ≡ qsize → add q p ≡ spins
unfolding add
add_full q p xs h full = ground (arith, next_slot_lem q.next_add)

abbrev removed : IpQueue → IpQueue
removed q = record q { next_rem = next_slot q.next_rem; que = update q.que q.next_rem none }

remove_lem : (q : IpQueue) (x : ℕ) (xs : List ℕ) → Holds q (x ∷ xs) → remove q ≡ (some x, removed q)
unfolding remove
remove_lem q x xs h = ground (arith, h.slot 0 (omega arith), h.end)

-- The slot behind the last entry is NULL.
get_elem?-length : (xs : List ℕ) (i : ℕ) → length xs ≤ i → get_elem? xs i ≡ none
get_elem?-length [] i h = refl
get_elem?-length (x ∷ xs) zero h = absurd (omega arith)
get_elem?-length (x ∷ xs) (suc i) h = get_elem?-length xs i (omega arith)

removed-slot :
    (q : IpQueue) (x : ℕ) (xs : List ℕ)
    → Holds q (x ∷ xs)
    → (i : ℕ) → i < qsize
    → (removed q).que (((removed q).next_rem + i) % qsize) ≡ get_elem? xs i
removed-slot q x xs h i k = elim (dec_lt i 4) [
  | yes l ↦ ground (arith, h.slot (suc i) (omega arith), next_slot_lem q.next_rem)
  | no l ↦ ground (arith, next_slot_lem q.next_rem, get_elem?-length xs i)
]

-- A removal takes the oldest entry, and gives NULL on the empty queue only.
pub remove-Holds :
    (q : IpQueue) (x : ℕ) (xs : List ℕ)
    → Holds q (x ∷ xs)
    → ((remove q).0 ≡ some x) × Holds (remove q).1 xs
remove-Holds q x xs h = rw (remove_lem q x xs h) (
  refl,
  record {
    rem = omega (arith, next_slot_lem q.next_rem);
    room = omega arith;
    end = omega (arith, h.end, next_slot_lem q.next_rem);
    slot = removed-slot q x xs h;
  },
)

pub remove_empty : (q : IpQueue) → Holds q [] → remove q ≡ (none, q)
unfolding remove
remove_empty q h = ground (arith, h.end)

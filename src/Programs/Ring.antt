-- ===== src/Programs/Ring.antt =====
-- The rings of processes (ring.c, ring1arg.c, ring0arg2.c).
use native.Mathlib.Nat.{mod-add-mod, mod-eq_of_lt, mod-eq-sub-mod, mod-lt}
use cxp.Common.{
  ℕ, zero, suc, ◌+◌, ◌-◌, ◌%◌, ◌^◌, ◌≤◌, ◌<◌, ◌≡◌, ◌≢◌, refl, sym, ap, ◌∙◌, subst, update,
  if◌then◌else◌, ◌==◌, ==-refl, ==-ne, arith, Bool-cases, inl, inr, false,
}
use cxp.Programs.{
  RingPc, sending, receiving, input, output, incremented, received, element_start, child_start,
  ping_start, ping_input,
}

-- The communications of a ring of `n`, in any order that the channels allow: the `out` of one element
-- and the `in` of the one that reads its channel.
pub data Circling (n : ℕ) (start : ℕ → RingPc) : ℕ → (ℕ → RingPc) → Type 0 where
  begin : Circling n start 0 start
  meet :
      {k : ℕ} {s : ℕ → RingPc} (i j x : ℕ)
      → Circling n start k s
      → i < n
      → j < n
      → s i ≡ sending x
      → s j ≡ receiving
      → input n j ≡ output i
      → Circling n start (suc k) (update (update s i receiving) j (received x))

-- The neighbours in the ring.
round_trip : (n j : ℕ) → j < n → (j + n) % n ≡ j
round_trip n j h =
    mod-eq-sub-mod (omega (arith, h)) ∙ ap (λ (t : ℕ). t % n) (omega arith) ∙ mod-eq_of_lt h

input-next : (n j : ℕ) → j < n → (input n j + 1) % n ≡ j
unfolding input
input-next n j h =
    mod-add-mod (j + n - 1) n 1 ∙ ap (λ (t : ℕ). t % n) (omega (arith, h)) ∙ round_trip n j h

next-input : (n i : ℕ) → i < n → input n ((i + 1) % n) ≡ i
unfolding input
next-input n i h =
    ap (λ (t : ℕ). t % n) (omega (arith, h))
    ∙ mod-add-mod (i + 1) n (n - 1)
    ∙ ap (λ (t : ℕ). t % n) (omega (arith, h))
    ∙ round_trip n i h

next_apart : (n i : ℕ) → i < n → 2 ≤ n → (i + 1) % n ≢ i
next_apart n i h big e = elim (Bool-cases (i + 1 == n)) [
  | inl last ↦
      let same : i + 1 ≡ n = ground arith in
      let wraps : (i + 1) % n ≡ (i + 1 - n) % n = mod-eq-sub-mod (omega (arith, same)) in
      let start : (i + 1 - n) % n ≡ i + 1 - n = mod-eq_of_lt (omega (arith, same, big)) in
      omega (arith, same, wraps, start, e, big)
  | inr inner ↦
      let less : i + 1 < n = ground arith in
      let stays : (i + 1) % n ≡ i + 1 = mod-eq_of_lt less in omega (arith, stays, e)
]

-- One element is at its `out`, with the value `v`, and all others are at their `in`.
record Token (n k v : ℕ) (s : ℕ → RingPc) : Type 0 where
  at : s (k % n) ≡ sending v
  rest : (i : ℕ) → i < n → i ≢ k % n → s i ≡ receiving

-- The only communication that can come next.
meets-Token :
    (n k v i j x : ℕ) (s : ℕ → RingPc)
    → Token n k v s
    → i < n
    → j < n
    → s i ≡ sending x
    → input n j ≡ output i
    → Token n (suc k) (incremented v) (update (update s i receiving) j (received x))
unfolding received
meets-Token n k v i j x s t small small' e meets = elim (Bool-cases (i == k % n)) [
  | inr other ↦ absurd (cc (t.rest i small (ground arith)))
  | inl same ↦
      let here : i ≡ k % n = ground arith in
      let value : x ≡ v = cc (t.at, e, ap s here) in
      let next : suc k % n ≡ j =
        ap (λ (a : ℕ). a % n) (omega arith)
        ∙ sym (mod-add-mod k n 1)
        ∙ ap (λ (a : ℕ). (a + 1) % n) (sym (meets ∙ here))
        ∙ input-next n j small' in
      record {
        at = rw (next, ==-refl j, value) refl;
        rest = λ m l ne.
            let apart : (m == j) ≡ false = ==-ne m j (λ q. ne (q ∙ sym next)) in
            rw apart (elim (Bool-cases (m == i)) [
              | inl q ↦ rw q refl
              | inr q ↦ rw q (t.rest m l (λ h. ground (arith, h, here)))
            ]);
      }
]

-- The value that the element which starts has sent on `k` times.
passed_on : ℕ → ℕ → ℕ
passed_on x0 zero = x0
passed_on x0 (suc k) = incremented (passed_on x0 k)

passed_on_lem : (x0 k : ℕ) → x0 < 2 ^ 32 → passed_on x0 k ≡ (x0 + k) % 2 ^ 32
unfolding passed_on
passed_on_lem x0 zero h = omega arith
passed_on_lem x0 (suc k) h = omega (arith, passed_on_lem x0 k h)

module _ (n x0 : ℕ) (start : ℕ → RingPc) (first : start 0 ≡ sending x0)
    (others : (i : ℕ) → i ≢ 0 → start i ≡ receiving) (big : 2 ≤ n) where
  Circling-Token : {k : ℕ} {s : ℕ → RingPc} → Circling n start k s → Token n k (passed_on x0 k) s
  unfolding passed_on
  Circling-Token begin =
      let zero_mod : 0 % n ≡ 0 = mod-eq_of_lt (omega (arith, big)) in
      record {
        at = ap start zero_mod ∙ first;
        rest = λ i h ne. others i (λ e. ne (e ∙ sym zero_mod));
      }
  Circling-Token (meet i j x c l l' e f m) = meets-Token n _ _ i j x _ (Circling-Token c) l l' e m

  Token-if :
      (k v i : ℕ) (s : ℕ → RingPc)
      → Token n k v s
      → i < n
      → s i ≡ (if i == k % n then sending v else receiving)
  Token-if k v i s t h = elim (Bool-cases (i == k % n)) [
    | inl e ↦ let same : i ≡ k % n = ground arith in rw e (ap s same ∙ t.at)
    | inr e ↦ rw e (t.rest i h (ground arith))
  ]

  -- The ring goes on.
  next_meeting :
      (k : ℕ) (s : ℕ → RingPc)
      → Circling n start k s
      → (s' : ℕ → RingPc) × Circling n start (suc k) s'
  next_meeting k s c =
      let t = Circling-Token c in
      let i = k % n in
      let small : i < n = mod-lt k (omega (arith, big)) in
      let j = (i + 1) % n in
      let small' : j < n = mod-lt (i + 1) (omega (arith, big)) in
      (
        _,
        meet i j (passed_on x0 k) c small small' t.at (t.rest j small' (next_apart n i small big))
            (next-input n i small),
      )

  circulates :
      (k i : ℕ) (s : ℕ → RingPc)
      → x0 < 2 ^ 32
      → i < n
      → Circling n start k s
      → (s i ≡ (if i == k % n then sending ((x0 + k) % 2 ^ 32) else receiving))
        × ((s' : ℕ → RingPc) × Circling n start (suc k) s')
  circulates k i s word h c = (
    subst (λ (v : ℕ). s i ≡ (if i == k % n then sending v else receiving)) (passed_on_lem x0 k word)
        (Token-if k (passed_on x0 k) i s (Circling-Token c) h),
    next_meeting k s c,
  )

-- In the rings of ring.c and ring1arg.c of two or more elements, after `k` communications, in whatever
-- order the channels allow them, the element `k` modulo the size is at its `out`, with `k + 1` in
-- ring.c and `k` in ring1arg.c as an int, and all others are at their `in`; and the next
-- communication can take place.
pub ring_circulates :
    (n k i : ℕ) (s t : ℕ → RingPc)
    → 2 ≤ n
    → i < n
    → Circling n element_start k s
    → Circling n child_start k t
    → (s i ≡ (if i == k % n then sending ((1 + k) % 2 ^ 32) else receiving))
      × ((s' : ℕ → RingPc) × Circling n element_start (suc k) s')
      × (t i ≡ (if i == k % n then sending ((0 + k) % 2 ^ 32) else receiving))
      × ((t' : ℕ → RingPc) × Circling n child_start (suc k) t')
unfolding element_start child_start
ring_circulates n k i s t big h c d =
    let a =
      circulates n 1 element_start refl (λ i ne. rw (==-ne i 0 ne) refl) big k i s (omega arith) h
        c in
    let b =
      circulates n 0 child_start refl (λ i ne. rw (==-ne i 0 ne) refl) big k i t (omega arith) h
        d in
    (a.0, a.1, b.0, b.1)

-- The two processes of ring0arg2.c are a ring of two.
ping_is_ring : (nr : ℕ) → nr < 2 → (ping_input nr ≡ input 2 nr) × (ping_start nr ≡ child_start nr)
unfolding ping_input input ping_start child_start
ping_is_ring zero h = (refl, refl)
ping_is_ring (suc zero) h = (refl, refl)
ping_is_ring (suc (suc nr)) h = absurd (omega (arith, h))

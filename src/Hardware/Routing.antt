-- ===== src/Hardware/Routing.antt =====
-- What a unit that blocks its signals, defines a handler or creates a timer does to the routing of the
-- interrupts (hardware.c).
use mathlib.Core.Bool.{false≢true}
use cxp.Common.{
  ℕ, ◌-◌, ◌≤◌, ◌<◌, ◌≡◌, ◌≢◌, refl, sym, ◌∙◌, ap, subst, subst, ◌⊎◌, inl, inr, Bool, true, false,
  Bool-cases, update, ◌==◌, ==-refl, ==-ne, arith,
}
use cxp.Hardware.{create_timer, Board, hardware_init, block_all, define_handler, update2}

-- Signal `s` reaches unit `q` and is handled as interrupt `n`.
pub record Routed (lo : ℕ) (b : Board) (q n s : ℕ) : Type 0 where
  pub above : lo ≤ s
  pub below : s < b.next_signo
  pub unit : (b.interrupt (s - lo)).pun ≡ q
  pub number : (b.interrupt (s - lo)).intr ≡ n
  pub unblocked : b.blocked q s ≡ false

pub record Wired (lo hi : ℕ) (b : Board) (live : ℕ → Bool) (set : ℕ → ℕ → Bool) : Type 0 where
  pub from : lo ≤ b.next_signo
  pub alive : (q n : ℕ) → set q n ≡ true → live q ≡ true
  pub routed : (q n : ℕ) → set q n ≡ true → Routed lo b q n (b.signal_no q n)
  -- A live unit blocks every real-time signal that is not its own.
  pub shut :
      (q s : ℕ)
      → live q ≡ true
      → lo ≤ s
      → s ≤ hi
      → (b.next_signo ≤ s) ⊎ ((b.interrupt (s - lo)).pun ≢ q)
      → b.blocked q s ≡ true

module _ (lo hi : ℕ) (b : Board) (live : ℕ → Bool) (set : ℕ → ℕ → Bool) (k : ℕ)
    (w : Wired lo hi b live set) where
  pub block-Wired : live k ≡ false → Wired lo hi (block_all lo hi b k) (update live k true) set
  unfolding block_all
  block-Wired e = record {
    from = w.from;
    alive =
        λ q n h. elim (Bool-cases (q == k)) [ inl g ↦ rw g refl | inr g ↦ rw g (w.alive q n h) ];
    routed = λ q n h.
        let r = w.routed q n h in
        record {
          above = r.above;
          below = r.below;
          unit = r.unit;
          number = r.number;
          unblocked = rw (==-ne q k (other q n h)) r.unblocked;
        };
    shut = λ q s l g h x. elim (Bool-cases (q == k)) [
      | inl same ↦ rw same (ground (arith, g, h))
      | inr apart ↦ rw apart (w.shut q s (rw⁻¹ (elsewhere q apart) l) g h x)
    ];
  }
    where
      other : (q n : ℕ) → set q n ≡ true → q ≢ k
      other q n h same = false≢true (sym e ∙ ap live (sym same) ∙ w.alive q n h)

      elsewhere : (q : ℕ) → (q == k) ≡ false → update live k true q ≡ live q
      elsewhere q apart = rw apart refl

  -- Signals that are in use stay as they are.
  define-Routed : (n q m s : ℕ) → Routed lo b q m s → Routed lo (define_handler lo b k n) q m s
  unfolding define_handler
  define-Routed n q m s r = record {
    above = r.above;
    below = omega (arith, r.below);
    unit = rw (==-ne (s - lo) (b.next_signo - lo) (λ e. omega (arith, e, r.above, r.below))) r.unit;
    number =
        rw (==-ne (s - lo) (b.next_signo - lo) (λ e. omega (arith, e, r.above, r.below))) r.number;
    unblocked = elim (Bool-cases (q == k)) [
      | inl e ↦
          let same : q ≡ k = ground arith in
          rw (same, ==-refl k, ==-ne s b.next_signo (λ x. omega (arith, x, r.below)))
            (rw⁻¹ same r.unblocked)
      | inr e ↦ rw e r.unblocked
    ];
  }

  defined-Routed : (n : ℕ) → Routed lo (define_handler lo b k n) k n b.next_signo
  unfolding define_handler
  defined-Routed n = record {
    above = w.from;
    below = omega arith;
    unit = rw (==-refl (b.next_signo - lo)) refl;
    number = rw (==-refl (b.next_signo - lo)) refl;
    unblocked = rw (==-refl k, ==-refl b.next_signo) refl;
  }

  -- The two reasons for a signal to be blocked, seen from before a handler is defined.
  still :
      (n q s : ℕ)
      → lo ≤ s
      → s ≢ b.next_signo
      → ((define_handler lo b k n).next_signo ≤ s)
        ⊎ (((define_handler lo b k n).interrupt (s - lo)).pun ≢ q)
      → (b.next_signo ≤ s) ⊎ ((b.interrupt (s - lo)).pun ≢ q)
  unfolding define_handler
  still n q s g old (inl x) = inl (omega (arith, x))
  still n q s g old (inr x) =
      inr (λ e.
        x (rw (==-ne (s - lo) (b.next_signo - lo) (λ y. old (omega (arith, y, g, w.from)))) e))

  not_own :
      (n q s : ℕ)
      → s ≡ b.next_signo
      → q ≡ k
      → ¬ (
          ((define_handler lo b k n).next_signo ≤ s)
          ⊎ (((define_handler lo b k n).interrupt (s - lo)).pun ≢ q))
  unfolding define_handler
  not_own n q s same mine (inl x) = omega (arith, x, same)
  not_own n q s same mine (inr x) = x (rw (same, ==-refl (b.next_signo - lo)) (sym mine))

  pub define-Wired :
      (n : ℕ) → live k ≡ true → Wired lo hi (define_handler lo b k n) live (update2 set k n true)
  unfolding define_handler
  define-Wired n e = record {
    from = omega (arith, w.from);
    alive = λ q m h. elim (Bool-cases (q == k)) [
      | inl g ↦ let same : q ≡ k = ground arith in ap live same ∙ e
      | inr g ↦ w.alive q m (rw⁻¹ (elsewhere q m g) h)
    ];
    routed = λ q m h. elim (Bool-cases (q == k)) [
      | inl g ↦ elim (Bool-cases (m == n)) [
        | inl g' ↦
            let same : q ≡ k = ground arith in
            let same' : m ≡ n = ground arith in
            rw (same, same', ==-refl k, ==-refl n) (defined-Routed n)
        | inr g' ↦
            let same : q ≡ k = ground arith in
            rw (same, ==-refl k, g')
              (define-Routed n k m _ (
                w.routed k m (subst (λ x. set x m ≡ true) same (rw⁻¹ (elsewhere_number q m g') h))))
      ]
      | inr g ↦ rw g (define-Routed n q m _ (w.routed q m (rw⁻¹ (elsewhere q m g) h)))
    ];
    shut = λ q s l g h x. elim (Bool-cases (s == b.next_signo)) [
      | inl fresh ↦
          let same : s ≡ b.next_signo = ground arith in
          elim (Bool-cases (q == k)) [
            | inl mine ↦ absurd (not_own n q s same (ground arith) x)
            | inr apart ↦ rw apart (w.shut q s l g h (inl (omega (arith, same))))
          ]
      | inr old ↦
          let kept = w.shut q s l g h (still n q s g (ground arith) x) in
          elim (Bool-cases (q == k)) [
            | inl mine ↦
                let same : q ≡ k = ground arith in rw (same, ==-refl k, old) (rw⁻¹ same kept)
            | inr apart ↦ rw apart kept
          ]
    ];
  }
    where
      elsewhere : (q m : ℕ) → (q == k) ≡ false → update2 set k n true q m ≡ set q m
      elsewhere q m g = rw g refl

      elsewhere_number : (q m : ℕ) → (m == n) ≡ false → update2 set k n true q m ≡ set q m
      elsewhere_number q m g = elim (Bool-cases (q == k)) [
        | inl e ↦ let same : q ≡ k = ground arith in rw (same, ==-refl k, g) refl
        | inr e ↦ rw e refl
      ]

pub begin-Wired :
    (lo hi : ℕ) (b : Board) → Wired lo hi (hardware_init lo b) (λ q. false) (λ q n. false)
unfolding hardware_init
begin-Wired lo hi b = record {
  from = omega arith;
  alive = λ q n h. absurd (false≢true h);
  routed = λ q n h. absurd (false≢true h);
  shut = λ q s h. absurd (false≢true h);
}

-- Timers are no part of the routing.
pub time-Wired :
    (lo hi : ℕ) (b : Board) (live : ℕ → Bool) (set : ℕ → ℕ → Bool) (k type n : ℕ)
    → Wired lo hi b live set
    → Wired lo hi (create_timer b k type n) live set
unfolding create_timer
time-Wired lo hi b live set k type n w = record {
  from = w.from;
  alive = w.alive;
  routed = λ q m h.
      let r = w.routed q m h in
      record {
        above = r.above;
        below = r.below;
        unit = r.unit;
        number = r.number;
        unblocked = r.unblocked;
      };
  shut = w.shut;
}

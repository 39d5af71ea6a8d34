-- ===== src/Hardware/Start.antt =====
-- The start of one unit (`init_processor` of hardware.c, `define_interrupt_handlers` of sched.c).
use cxp.Common.{
  ℕ, ◌+◌, ◌≤◌, ◌<◌, ◌≡◌, refl, inl, inr, Bool, true, false, Bool-cases, some, update, if◌then◌else◌,
  ◌==◌, ==-refl, arith,
}
use cxp.Common.Outcome.{done}
use cxp.Hardware.{
  Board, nintr, intr_elapsed, intr_timeout, intr_interproc, intr_user0, intr_user1, timer_elapsed,
  timer_timeout, block_all, create_timer, define_handler, init_timer, define_interrupt_handlers,
  init_processor, update2,
}
use cxp.Hardware.Wiring.{Boot}

-- The handlers of a unit that is not the first.
abbrev all_set : (ℕ → ℕ → Bool) → ℕ → ℕ → ℕ → Bool
all_set set k =
    update2
      (update2 (update2 (update2 set k intr_timeout true) k intr_interproc true) k intr_user0 true)
      k intr_user1 true

abbrev rest : ℕ → Board → ℕ → Board
rest lo b k =
    define_handler lo
      (define_handler lo
        (define_handler lo
          (create_timer (define_handler lo b k intr_timeout) k timer_timeout intr_timeout) k
          intr_interproc)
        k intr_user0)
      k intr_user1

abbrev first : ℕ → Board → ℕ → Board
first lo b k = create_timer (define_handler lo b k intr_elapsed) k timer_elapsed intr_elapsed

module _ (lo hi k : ℕ) where
  rest-Boot :
      {b : Board} {live : ℕ → Bool} {set : ℕ → ℕ → Bool}
      → Boot lo hi b live set
      → live k ≡ true
      → Boot lo hi (rest lo b k) live (all_set set k)
  rest-Boot r e =
      Boot.define k intr_user1
        (Boot.define k intr_user0
          (Boot.define k intr_interproc
            (Boot.time k timer_timeout intr_timeout (Boot.define k intr_timeout r e) e) e)
          e)
        e

  rest-set : (set : ℕ → ℕ → Bool) (n : ℕ) → 1 ≤ n → n < nintr → all_set set k k n ≡ true
  rest-set set n g h = rw (==-refl k) (ground (arith, g, h))

  rest-timer :
      (b : Board)
      → (rest lo b k).timer_signo k timer_timeout ≡ some ((rest lo b k).signal_no k intr_timeout)
  unfolding define_handler create_timer
  rest-timer b = rw (==-refl k) refl

  rest-count : (b : Board) → (rest lo b k).next_signo ≡ b.next_signo + 4
  unfolding define_handler create_timer
  rest-count b = omega arith

  first-count : (b : Board) → (first lo b k).next_signo ≡ b.next_signo + 1
  unfolding define_handler create_timer
  first-count b = refl

  first-timer :
      (b : Board)
      → (rest lo (first lo b k) k).timer_signo k timer_elapsed
        ≡ some ((rest lo (first lo b k) k).signal_no k intr_elapsed)
  unfolding define_handler create_timer
  first-timer b = rw (==-refl k) refl

-- A unit that starts, whatever the others have done so far, ends the start without an error: it has
-- defined the interrupts for timeouts, for other units and for the user, the first unit also the one
-- for elapsed time, its timers raise the signals for their interrupts, and it has taken four new
-- signals, the first unit five.
pub init_processor-Boot :
    (lo hi k : ℕ) {b : Board} {live : ℕ → Bool} {set : ℕ → ℕ → Bool}
    → Boot lo hi b live set
    → live k ≡ false
    → (b' : Board) × (set' : ℕ → ℕ → Bool) × (init_processor lo hi b k ≡ done b')
      × Boot lo hi b' (update live k true) set'
      × ((n : ℕ) → 1 ≤ n → n < nintr → set' k n ≡ true)
      × (b'.timer_signo k timer_timeout ≡ some (b'.signal_no k intr_timeout))
      × (b'.next_signo ≡ b.next_signo + (if k == 0 then 5 else 4))
      × (k ≡ 0
          → (set' k intr_elapsed ≡ true)
            × (b'.timer_signo k timer_elapsed ≡ some (b'.signal_no k intr_elapsed)))
unfolding init_processor define_interrupt_handlers init_timer
init_processor-Boot lo hi k {b} {live} {set} r e =
    let closed = block_all lo hi b k in
    let blocked = Boot.block k r e in
    let here : update live k true k ≡ true = rw (==-refl k) refl in
    elim (Bool-cases (k == 0)) [
      | inl z ↦
          let b1 = first lo closed k in
          let r1 =
            Boot.time k timer_elapsed intr_elapsed (Boot.define k intr_elapsed blocked here) here in
          (
            rest lo b1 k,
            all_set (update2 set k intr_elapsed true) k,
            rw z refl,
            rest-Boot lo hi k r1 here,
            rest-set lo hi k (update2 set k intr_elapsed true),
            rest-timer lo hi k b1,
            rw z (omega (arith, rest-count lo hi k b1, first-count lo hi k closed)),
            λ y. (rw (==-refl k) refl, first-timer lo hi k closed),
          )
      | inr nz ↦ (
        rest lo closed k,
        all_set set k,
        rw nz refl,
        rest-Boot lo hi k blocked here,
        rest-set lo hi k set,
        rest-timer lo hi k closed,
        rw nz (rest-count lo hi k closed),
        λ y. absurd (ground (arith, y, nz)),
      )
    ]

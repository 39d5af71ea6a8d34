-- ===== src/Examples/Boards.antt =====
-- Instances of the theorems about the simulated hardware.
use mathlib.Core.Option.{some-injective}
use cxp.Common.{
  sym, ap, ◌∙◌, ℕ, ◌≤◌, ◌<◌, ◌≡◌, ◌≢◌, refl, Bool, true, false, Option, none, some, update, ==-refl,
  arith,
}
use cxp.Common.Int.{pos}
use cxp.Common.Outcome.{done}
use cxp.Hardware.{
  Board, TimerSpec, hardware_init, block_all, define_handler, handled, init_processor, intr_timeout,
  intr_interproc, intr_elapsed, timer_timeout, timer_elapsed, nintr, update2, set_timer_single,
  set_timer_repeating, read_timer, from_spec,
}
use cxp.Hardware.Wiring.{Boot, begin, block, define, Boot-routed}
use cxp.Hardware.Start.{init_processor-Boot}
use cxp.Hardware.Clocks.{Documented, read-set_timer}

abbrev pub off : Board
off = record {
  next_signo = 0;
  interrupt = λ i. record { pun = 0; intr = 0 };
  signal_no = λ k n. 0;
  blocked = λ k s. false;
  timer_signo = λ k y. none;
}

-- Units 0 and 1 have blocked the signals 34 to 64, and unit 1 has defined two handlers.
abbrev two_units : Board
two_units =
    define_handler 34
      (define_handler 34 (block_all 34 64 (block_all 34 64 (hardware_init 34 off) 0) 1) 1
        intr_timeout)
      1 intr_interproc

two_units-Boot :
    Boot 34 64 two_units
      (update (update (λ q. false) 0 true) 1 true)
      (update2 (update2 (λ q n. false) 1 intr_timeout true) 1 intr_interproc true)
two_units-Boot =
    define 1 intr_interproc (define 1 intr_timeout (block 1 (block 0 (begin off) refl) refl) refl)
      refl

Boot-routed_example :
    (handled 34 two_units 35 ≡ 2)
    × (two_units.blocked 1 35 ≡ false)
    × ((q : ℕ)
        → update (update (λ q. false) 0 true) 1 true q ≡ true
        → q ≢ 1
        → two_units.blocked q 35 ≡ true)
    × ((q m : ℕ)
        → update2 (update2 (λ q n. false) 1 intr_timeout true) 1 intr_interproc true q m ≡ true
        → two_units.signal_no q m ≡ 35
        → (q ≡ 1) × (m ≡ 2))
unfolding define_handler block_all hardware_init
Boot-routed_example = Boot-routed 1 2 two_units-Boot refl (omega arith)

init_processor-Boot_example :
    (b' : Board) × (set' : ℕ → ℕ → Bool) × (init_processor 34 64 (hardware_init 34 off) 0 ≡ done b')
    × Boot 34 64 b' (update (λ q. false) 0 true) set'
    × ((n : ℕ) → 1 ≤ n → n < nintr → set' 0 n ≡ true)
    × (b'.timer_signo 0 timer_timeout ≡ some (b'.signal_no 0 intr_timeout))
    × (b'.next_signo ≡ 39)
    × (◌≡◌ {A = ℕ} 0 0
        → (set' 0 intr_elapsed ≡ true)
          × (b'.timer_signo 0 timer_elapsed ≡ some (b'.signal_no 0 intr_elapsed)))
unfolding hardware_init
init_processor-Boot_example = init_processor-Boot 34 64 0 (begin off) refl

-- Timers that show what they were last set to.
abbrev settime : (ℕ → ℕ → TimerSpec) → ℕ → ℕ → TimerSpec → Option (ℕ → ℕ → TimerSpec)
settime t k y s = some (update2 t k y s)

abbrev gettime : (ℕ → ℕ → TimerSpec) → ℕ → ℕ → TimerSpec
gettime t k y = t k y

abbrev zeros : ℕ → ℕ → TimerSpec
zeros k y = record {
  it_interval = record { tv_sec = pos 0; tv_nsec = pos 0 };
  it_value = record { tv_sec = pos 0; tv_nsec = pos 0 };
}

settime-Documented : Documented settime gettime
settime-Documented = record {
  accepts = λ t k y s v i. (update2 t k y s, refl);
  reads = λ t t' k y s e.
      ap (λ (u : ℕ → ℕ → TimerSpec). u k y) (sym (some-injective _ _ e))
      ∙ rw (==-refl k, ==-refl y) refl;
}

-- 2.5 seconds, once and every time.
read-set_timer_example :
    ((t : ℕ → ℕ → TimerSpec) × (set_timer_single settime gettime zeros 0 1 (pos 2500000000)
        ≡ done t)
      × (read_timer settime gettime t 0 1 ≡ pos 2500000000)
      × (from_spec (gettime t 0 1).it_interval ≡ pos 0))
    × ((t : ℕ → ℕ → TimerSpec) × (set_timer_repeating settime gettime zeros 0 1 (pos 2500000000)
          ≡ done t)
        × (read_timer settime gettime t 0 1 ≡ pos 2500000000)
        × (from_spec (gettime t 0 1).it_interval ≡ pos 2500000000))
read-set_timer_example =
    read-set_timer settime gettime settime-Documented zeros 0 1 (pos 2500000000) 2500000000

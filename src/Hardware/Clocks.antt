-- ===== src/Hardware/Clocks.antt =====
-- The intervals that are given to timer_settime and read with timer_gettime (hardware.c).
use cxp.Common.{ℕ, ◌≡◌, ◌∙◌, ap, Option, some, arith}
use cxp.Common.Int.{ℤ, pos, negsuc, ◌≤ℤ◌, pos_part}
use cxp.Common.Outcome.{done}
use cxp.Hardware.{
  TimeSpec, TimerSpec, to_spec, from_spec, single_spec, repeating_spec, was_set, set_timer_single,
  set_timer_repeating, read_timer,
}

-- What timer_settime accepts.
abbrev InRange : TimeSpec → Type 0
InRange ts = (pos 0 ≤ℤ ts.tv_sec) × (pos 0 ≤ℤ ts.tv_nsec) × (ts.tv_nsec ≤ℤ pos 999999999)

to_spec-InRange : (n : ℕ) → InRange (to_spec (pos n))
to_spec-InRange n = (omega arith, omega arith, omega arith)

from-to_spec : (n : ℕ) → from_spec (to_spec (pos n)) ≡ pos n
unfolding from_spec
from-to_spec n = ground arith

single_spec-InRange :
    (time : ℤ) → InRange (single_spec time).it_value × InRange (single_spec time).it_interval
unfolding single_spec
single_spec-InRange (pos n) = (to_spec-InRange n, to_spec-InRange 0)
single_spec-InRange (negsuc n) = (to_spec-InRange 0, to_spec-InRange 0)

from-single_spec :
    (time : ℤ)
    → (from_spec (single_spec time).it_value ≡ pos (pos_part time))
      × (from_spec (single_spec time).it_interval ≡ pos 0)
unfolding single_spec
from-single_spec (pos n) = (from-to_spec n, from-to_spec 0)
from-single_spec (negsuc n) = (from-to_spec 0, from-to_spec 0)

repeating_spec-InRange :
    (n : ℕ)
    → InRange (repeating_spec (pos n)).it_value × InRange (repeating_spec (pos n)).it_interval
unfolding repeating_spec
repeating_spec-InRange n = (to_spec-InRange n, to_spec-InRange n)

from-repeating_spec :
    (n : ℕ)
    → (from_spec (repeating_spec (pos n)).it_value ≡ pos n)
      × (from_spec (repeating_spec (pos n)).it_interval ≡ pos n)
unfolding repeating_spec
from-repeating_spec n = (from-to_spec n, from-to_spec n)

module _ {ℓ} {T : Type ℓ} (timer_settime : T → ℕ → ℕ → TimerSpec → Option T)
    (timer_gettime : T → ℕ → ℕ → TimerSpec) where
  -- timer_settime accepts a time in range, and until time passes timer_gettime returns it.
  pub record Documented : Type ℓ where
    pub accepts :
        (t : T) (k y : ℕ) (s : TimerSpec)
        → InRange s.it_value
        → InRange s.it_interval
        → (t' : T) × (timer_settime t k y s ≡ some t')
    pub reads :
        (t t' : T) (k y : ℕ) (s : TimerSpec)
        → timer_settime t k y s ≡ some t'
        → timer_gettime t' k y ≡ s

  -- A timer that is set to a single interval, and one that is set to a repeating interval that is not
  -- negative, is accepted by the system and reads as the interval, where a negative single interval
  -- counts as zero; the single one does not repeat, and the other repeats by the same interval.
  pub read-set_timer :
      Documented
      → (t : T) (k y : ℕ) (time : ℤ) (n : ℕ)
      → ((t' : T) × (set_timer_single timer_settime timer_gettime t k y time ≡ done t')
          × (read_timer timer_settime timer_gettime t' k y ≡ pos (pos_part time))
          × (from_spec (timer_gettime t' k y).it_interval ≡ pos 0))
        × ((t' : T) × (set_timer_repeating timer_settime timer_gettime t k y (pos n) ≡ done t')
            × (read_timer timer_settime timer_gettime t' k y ≡ pos n)
            × (from_spec (timer_gettime t' k y).it_interval ≡ pos n))
  unfolding set_timer_single set_timer_repeating read_timer
  read-set_timer d t k y time n =
      let (r, s) = single_spec-InRange time in
      let (a, ea) = d.accepts t k y (single_spec time) r s in
      let (r', s') = repeating_spec-InRange n in
      let (b, eb) = d.accepts t k y (repeating_spec (pos n)) r' s' in
      let (v, i) = from-single_spec time in
      let (v', i') = from-repeating_spec n in
      let ga = d.reads t a k y (single_spec time) ea in
      let gb = d.reads t b k y (repeating_spec (pos n)) eb in
      (
        (
          a,
          ap was_set ea,
          ap (λ (x : TimerSpec). from_spec x.it_value) ga ∙ v,
          ap (λ (x : TimerSpec). from_spec x.it_interval) ga ∙ i,
        ),
        (
          b,
          ap was_set eb,
          ap (λ (x : TimerSpec). from_spec x.it_value) gb ∙ v',
          ap (λ (x : TimerSpec). from_spec x.it_interval) gb ∙ i',
        ),
      )

-- ===== src/Hardware.antt =====
-- The simulated hardware (hardware.c): a processing unit is a thread, an interrupt a real-time signal.
-- `sigrtmin` and `sigrtmax` are the C library's; what it does with threads, signals and timers is not
-- modelled, except for the arguments that it is given.
pub mod Routing
pub mod Wiring
pub mod Start
pub mod Clocks
pub mod Gathering
use cxp.Common.{
  ℕ, zero, suc, ◌+◌, ◌-◌, ◌*◌, ◌/◌, ◌%◌, Bool, true, false, Option, none, some, update,
  if◌then◌else◌, ◌==◌, leb, ltb, ◌&&◌,
}
use cxp.Common.Int.{ℤ, pos, negsuc, ◌+ℤ◌}
use cxp.Common.Outcome.{
  Outcome, done, plotz, not_user_interrupt, no_such_timer, timer_not_set, ◌>>=◌,
}

-- INTR_ELAPSED, INTR_TIMEOUT, INTR_INTERPROC, INTR_USER0, INTR_USER1, NINTR
abbrev pub intr_elapsed : ℕ
intr_elapsed = 0

abbrev pub intr_timeout : ℕ
intr_timeout = 1

abbrev pub intr_interproc : ℕ
intr_interproc = 2

abbrev pub intr_user0 : ℕ
intr_user0 = 3

abbrev pub intr_user1 : ℕ
intr_user1 = 4

abbrev pub nintr : ℕ
nintr = 5

-- TIMER_ELAPSED, TIMER_TIMEOUT
abbrev pub timer_elapsed : ℕ
timer_elapsed = 0

abbrev pub timer_timeout : ℕ
timer_timeout = 1

pub record IntrDesc : Type 0 where
  pub pun : ℕ
  pub intr : ℕ

-- `blocked k s` tells whether signal `s` is in `sigmask[k]`; `timer_signo` is the signal that a timer
-- was created with.
pub record Board : Type 0 where
  pub next_signo : ℕ
  pub interrupt : ℕ → IntrDesc
  pub signal_no : ℕ → ℕ → ℕ
  pub blocked : ℕ → ℕ → Bool
  pub timer_signo : ℕ → ℕ → Option ℕ

abbrev pub update2 {ℓ} : {A : Type ℓ} → (ℕ → ℕ → A) → ℕ → ℕ → A → ℕ → ℕ → A
update2 f i j a = update f i (update (f i) j a)

-- A signal to the thread of a unit.
pub record Signal : Type 0 where
  pub target : ℕ
  pub signo : ℕ

-- `hardware_init`
unfoldable pub hardware_init : ℕ → Board → Board
hardware_init sigrtmin b = record b { next_signo = sigrtmin }

-- `define_handler` on unit `cpu`. The handler that is given is not used.
unfoldable pub define_handler : ℕ → Board → ℕ → ℕ → Board
define_handler sigbase b cpu intr =
    let signo = b.next_signo in
    record b {
      next_signo = signo + 1;
      interrupt = update b.interrupt (signo - sigbase) (record { pun = cpu; intr = intr });
      signal_no = update2 b.signal_no cpu intr signo;
      blocked = update2 b.blocked cpu signo false;
    }

-- The interrupt number that `handle_signal` passes to `handle_interrupt`.
abbrev pub handled : ℕ → Board → ℕ → ℕ
handled sigbase b signo = (b.interrupt (signo - sigbase)).intr

-- The timer of the unit that raises interrupt `intr` is created.
unfoldable pub create_timer : Board → ℕ → ℕ → ℕ → Board
create_timer b cpu type intr = record b {
  timer_signo = update2 b.timer_signo cpu type (some (b.signal_no cpu intr));
}

-- `init_timer`
unfoldable pub init_timer : Board → ℕ → ℕ → Outcome Board
unfolding create_timer
init_timer b cpu type =
    if type == timer_elapsed
    then done (create_timer b cpu type intr_elapsed)
    else (if type == timer_timeout
        then done (create_timer b cpu type intr_timeout)
        else plotz no_such_timer)

-- `define_interrupt_handlers` (sched.c), less the setting of the elapsed-time timer.
unfoldable pub define_interrupt_handlers : ℕ → Board → ℕ → Outcome Board
unfolding define_handler init_timer
define_interrupt_handlers sigbase b cpu = do
  b1 ←
      (if cpu == 0
        then init_timer (define_handler sigbase b cpu intr_elapsed) cpu timer_elapsed
        else done b)
  b2 ← init_timer (define_handler sigbase b1 cpu intr_timeout) cpu timer_timeout
  let b3 = define_handler sigbase b2 cpu intr_interproc
  let b4 = define_handler sigbase b3 cpu intr_user0
  done (define_handler sigbase b4 cpu intr_user1)

-- All real-time signals are blocked.
unfoldable pub block_all : ℕ → ℕ → Board → ℕ → Board
block_all sigrtmin sigrtmax b cpu = record b {
  blocked = update b.blocked cpu (λ s. leb sigrtmin s && leb s sigrtmax);
}

-- `init_processor`
unfoldable pub init_processor : ℕ → ℕ → Board → ℕ → Outcome Board
unfolding block_all define_interrupt_handlers
init_processor sigrtmin sigrtmax b cpu =
    define_interrupt_handlers sigrtmin (block_all sigrtmin sigrtmax b cpu) cpu

-- `send_interprocessor_interrupt`
unfoldable send_interprocessor_interrupt : Board → ℕ → Signal
send_interprocessor_interrupt b pun = record {
  target = pun;
  signo = b.signal_no pun intr_interproc;
}

-- `send_interrupt`
unfoldable send_interrupt : Board → ℕ → ℕ → Outcome Signal
send_interrupt b cpu intr =
    if ltb intr intr_user0
    then plotz not_user_interrupt
    else done (record { target = cpu; signo = b.signal_no cpu intr })

-- NS_PER_SEC
abbrev ns_per_sec : ℕ
ns_per_sec = 1000000000

pub record TimeSpec : Type 0 where
  pub tv_sec : ℤ
  pub tv_nsec : ℤ

pub record TimerSpec : Type 0 where
  pub it_interval : TimeSpec
  pub it_value : TimeSpec

-- C's division truncates towards zero.
abbrev negated : ℕ → ℤ
negated zero = pos 0
negated (suc m) = negsuc m

abbrev div_ns : ℤ → ℤ
div_ns (pos n) = pos (n / ns_per_sec)
div_ns (negsuc n) = negated (suc n / ns_per_sec)

abbrev pub mod_ns : ℤ → ℤ
mod_ns (pos n) = pos (n % ns_per_sec)
mod_ns (negsuc n) = negated (suc n % ns_per_sec)

abbrev pub to_spec : ℤ → TimeSpec
to_spec t = record { tv_sec = div_ns t; tv_nsec = mod_ns t }

-- The argument of timer_settime in `set_timer_single`, for an interval that is at least 0.
unfoldable pub single_spec : ℤ → TimerSpec
single_spec (pos n) = record {
  it_interval = record { tv_sec = pos 0; tv_nsec = pos 0 };
  it_value = to_spec (pos n);
}
single_spec (negsuc n) = record {
  it_interval = record { tv_sec = pos 0; tv_nsec = pos 0 };
  it_value = to_spec (pos 0);
}

-- The argument of timer_settime in `set_timer_repeating`.
unfoldable pub repeating_spec : ℤ → TimerSpec
repeating_spec time = record { it_interval = to_spec time; it_value = to_spec time }

-- (Time)ts->tv_sec * NS_PER_SEC + ts->tv_nsec
abbrev times_ns : ℤ → ℤ
times_ns (pos n) = pos (n * ns_per_sec)
times_ns (negsuc n) = negated (suc n * ns_per_sec)

unfoldable pub from_spec : TimeSpec → ℤ
from_spec ts = times_ns ts.tv_sec +ℤ ts.tv_nsec

-- A call of timer_settime that fails ends the program.
abbrev pub was_set {ℓ} : {T : Type ℓ} → Option T → Outcome T
was_set none = plotz timer_not_set
was_set (some t) = done t

-- The timers of the system, with timer_settime and timer_gettime on the timer of a unit and a type.
module _ {ℓ} {T : Type ℓ} (timer_settime : T → ℕ → ℕ → TimerSpec → Option T)
    (timer_gettime : T → ℕ → ℕ → TimerSpec) where
  -- `set_timer_single`
  unfoldable pub set_timer_single : T → ℕ → ℕ → ℤ → Outcome T
  unfolding single_spec
  set_timer_single t cpu type time = was_set (timer_settime t cpu type (single_spec time))

  -- `set_timer_repeating`
  unfoldable pub set_timer_repeating : T → ℕ → ℕ → ℤ → Outcome T
  unfolding repeating_spec
  set_timer_repeating t cpu type time = was_set (timer_settime t cpu type (repeating_spec time))

  -- `read_timer`
  unfoldable pub read_timer : T → ℕ → ℕ → ℤ
  unfolding from_spec
  read_timer t cpu type = from_spec (timer_gettime t cpu type).it_value

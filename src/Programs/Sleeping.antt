-- ===== src/Programs/Sleeping.antt =====
-- after.c, which sleeps three times, and alttime0.c, whose child selects a timeout again and again.
use cxp.Common.{ℕ, zero, suc, List, [], ◌∷◌, Option, if◌then◌else◌, ◌==◌}
use cxp.Common.Int.{ℤ, pos, ◌+ℤ◌}
use cxp.Common.Outcome.{Outcome, done, ◌>>=◌}
use cxp.Sched.{get_current, relinquish}
use cxp.Alarm.{after}
use cxp.Alt.{Alternation, guard_timer, init_alt, fair_select_begin, fair_select_end}
use cxp.Hardware.{intr_timeout}
use cxp.Spawn.{par}
use cxp.System.{System, handle_interrupt}
use cxp.Programs.Signalling.{onesec}

-- `After(time)` of the process that has the unit, with its descriptor at `d`: the clock shows `now` at the
-- call, and `later` at the timeout interrupt, if the process has to wait. Gives the time at the end.
unfoldable pub sleep_until : System → ℕ → ℕ → ℤ → ℤ → ℤ → Outcome (System × ℤ)
unfolding after handle_interrupt
sleep_until s cpu d time now later = after s.world cpu d time now now >>= λ r.
    let s1 = record s { world = r.0 } in
    if get_current r.0.machine cpu == get_current s.world.machine cpu
    then done (s1, now)
    else (handle_interrupt s1 cpu later intr_timeout >>= λ s2. done (s2, later))

-- `main` of after.c, with the times at the three interrupts: what it prints.
unfoldable pub after_program : System → ℕ → ℕ → ℤ → ℤ → ℤ → ℤ → Outcome (System × List ℤ)
unfolding sleep_until
after_program s cpu d now first second third = do
  (s1, t1) ← sleep_until s cpu d (pos 2000000000) now first
  (s2, t2) ← sleep_until s1 cpu d (pos 3000000000) t1 second
  (s3, t3) ← sleep_until s2 cpu d (pos 4000000000) t2 third
  done (s3, now ∷ t1 ∷ t2 ∷ t3 ∷ [])

-- The loop of `child1` of alttime0.c, `n` times, the next time at `now`: it waits, the timeout interrupt
-- comes when a second is over, and it has its selection. The clock stands still in between.
unfoldable pub select_rounds : ℕ → System → ℕ → Alternation → ℤ → Outcome (System × List (Option ℕ))
unfolding fair_select_begin handle_interrupt fair_select_end
select_rounds zero s cpu a now = done (s, [])
select_rounds (suc n) s cpu a now = do
  let proc = get_current s.world.machine cpu
  let t = now +ℤ onesec
  let a1 = record a { guards = λ i. guard_timer t }
  (scan, next) ← fair_select_begin s.world cpu a1 (λ k. now) (λ k. now)
  s1 ← handle_interrupt (record s { world = scan.world }) cpu t intr_timeout
  let (w2, a2, selection) = fair_select_end cpu proc a1 (record scan { world = s1.world }) (λ k. t)
  (s3, rest) ← select_rounds n (record s1 { world = w2 }) cpu a2 t
  done (s3, selection ∷ rest)

-- `main` of alttime0.c, with `n` rounds of its child, which sets its guard at the start of each.
unfoldable pub alttime_program : ℕ → System → ℕ → ℤ → ℕ → Outcome (System × List (Option ℕ))
unfolding par relinquish init_alt select_rounds
alttime_program size s cpu now n = do
  (w, b) ← par size s.world cpu (2000 ∷ [])
  m ← relinquish w.machine cpu
  select_rounds n (record s { world = record w { machine = m } }) cpu
      (init_alt (λ i. guard_timer now) 1) now

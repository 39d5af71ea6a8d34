-- ===== src/Programs/Signalling.antt =====
-- intr.c: a child that waits for an interrupt, and a child that sends it once a second.
use cxp.Common.{ℕ, zero, suc, List, [], ◌∷◌}
use cxp.Common.Int.{ℤ, pos, ◌+ℤ◌}
use cxp.Common.Outcome.{Outcome, done, ◌>>=◌}
use cxp.Sched.{get_current, relinquish}
use cxp.Alarm.{after}
use cxp.Interrupts.{receive}
use cxp.Hardware.{intr_timeout, intr_user0}
use cxp.Spawn.{par}
use cxp.System.{System, set_machine, handle_interrupt}

abbrev pub onesec : ℤ
onesec = pos 1000000000

-- `receive(0)` of `child1`, up to its wait.
unfoldable pub await_user : System → ℕ → Outcome System
unfolding receive
await_user s cpu = receive s.world.machine s.receivers cpu 0 >>= λ r.
    done (record (set_machine s r.0) { receivers = r.1 })

-- `After(Now() + ONESEC)` of `child2`, with its descriptor at `d`, up to its wait; `now` is what the clock
-- shows.
unfoldable pub await_second : System → ℕ → ℕ → ℤ → Outcome System
unfolding after
await_second s cpu d now =
    after s.world cpu d (now +ℤ onesec) now now >>= λ r. done (record s { world = r.0 })

-- `main`, until both children wait.
unfoldable pub intr_start : ℕ → System → ℕ → ℕ → ℤ → Outcome System
unfolding par relinquish await_user await_second
intr_start size s cpu d now = do
  (w, b) ← par size s.world cpu (3000 ∷ 3000 ∷ [])
  m ← relinquish w.machine cpu
  s1 ← await_user (record s { world = record w { machine = m } }) cpu
  await_second s1 cpu d now

-- `n` rounds, the next one at `now`: the timeout interrupt lets `child2` go on, which sends the interrupt
-- and waits again, and then `child1` has the unit, which prints and waits again. The list is the
-- processes that print, `child2` before it sends and `child1` behind.
unfoldable pub intr_rounds : ℕ → System → ℕ → ℕ → ℤ → Outcome (System × List ℕ)
unfolding handle_interrupt await_user await_second
intr_rounds zero s cpu d now = done (s, [])
intr_rounds (suc n) s cpu d now = do
  s1 ← handle_interrupt s cpu now intr_timeout
  s2 ← handle_interrupt s1 cpu now intr_user0
  s3 ← await_second s2 cpu d now
  s4 ← await_user s3 cpu
  (s5, rest) ← intr_rounds n s4 cpu d (now +ℤ onesec)
  done (s5, get_current s1.world.machine cpu ∷ get_current s3.world.machine cpu ∷ rest)

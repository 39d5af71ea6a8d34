-- ===== src/System/Dispatch.antt =====
-- Every interrupt leaves a unit in order (`handle_interrupt` of sched.c).
use mathlib.Core.List.Perm
use cxp.Common.{
  ℕ, ◌+◌, ◌-◌, ◌<◌, ◌≡◌, refl, some, arith, length, List, inl, inr, [], All, Fresh, Distinct, true,
  Bool-cases, ◌==◌, if◌then◌else◌, take_while,
}
use cxp.Common.Int.{ℤ}
use cxp.Common.Outcome.{done}
use cxp.Common.Chain.{list_fuel}
use cxp.World.{World}
use cxp.Comm.{is_waiting}
use cxp.Hardware.{intr_elapsed, intr_timeout, intr_interproc, intr_user0}
use cxp.Sched.View.{Cpu}
use cxp.Sched.Inbox.{Inbox}
use cxp.Sched.Consuming.{handle_interprocessor_interrupt-Consumed}
use cxp.Alarm.{handle_elapsed_time_interrupt}
use cxp.Alarm.Waking.{woken}
use cxp.Alarm.Freeing.{Away}
use cxp.Alarm.Expiry.{due, Known}
use cxp.Alarm.Handler.{handle_timeout_interrupt-Settled}
use cxp.Timer.Queue.{Timeouts}
use cxp.System.{System, set_machine, handle_interrupt}
use cxp.System.Serving.{Served, Cpu-Handling, called, handle_user_interrupt-Served}

-- The entries of the timeout queue that are due.
abbrev pub soon : World → ℤ → List ℕ → List ℕ
soon w now ds = take_while (due w.timers now) ds

-- The processes that wait for what interrupt `n` reports.
abbrev pub waiting_for : System → ℕ → ℤ → List ℕ → ℕ → List ℕ
waiting_for s k now ds n =
    if n == intr_interproc
    then []
    else (if n == intr_timeout
        then woken s.world.machine s.world.timers.descs (soon s.world now ds)
        else (if n == intr_elapsed
            then []
            else called s.world.machine (s.receivers k (n - intr_user0))))

-- A process that waits for a user's interrupt is away.
called-Away :
    (s : System) (k n : ℕ) (xs ps : List ℕ)
    → All (Away s.world.machine k xs ps) (called s.world.machine (s.receivers k n))
    → (r : ℕ) → s.receivers k n ≡ some r
    → is_waiting (s.world.machine.procs r).sched_state ≡ true
    → Away s.world.machine k xs ps r
called-Away s k n xs ps a r e w = (rw (e, w) at a).0

-- Each interrupt of a unit in order is handled without an error, and leaves the unit in order: it runs a
-- process that no ready one has a higher priority than, and its processes are those from before
-- together with the ones that were waiting for what the interrupt reports. These are different
-- processes of the unit that neither run nor stand in a queue: the ones that had gone to wait in
-- `After` or in an alternation until a time that has come, or the one that had gone to wait for the
-- user's interrupt. The entries of the timeout queue have one of the two types.
pub handle_interrupt-Served :
    (s : System) (k n : ℕ) (now : ℤ) (xs ps ds : List ℕ)
    → Cpu s.world.machine k ps
    → Inbox s.world.machine k xs ps
    → Fresh (s.world.machine.current k) xs
    → Timeouts s.world.timers k ds
    → All (λ d. Known (s.world.timers.descs d)) ds
    → Distinct (waiting_for s k now ds n)
    → All (Away s.world.machine k xs ps) (waiting_for s k now ds n)
    → length xs + length ps + length (soon s.world now ds) + 1 < list_fuel
    → (s' : System) × (handle_interrupt s k now n ≡ done s')
      × Served s.world.machine s'.world.machine k (waiting_for s k now ds n) xs ps
unfolding handle_interrupt
handle_interrupt-Served s k n now xs ps ds c i fr q kn di aw len =
    elim (Bool-cases (n == intr_interproc)) [
      | inl e ↦
          let (m', h, r) =
            handle_interprocessor_interrupt-Consumed s.world.machine k xs ps c i fr
              (omega (arith, len)) in
          (
            set_machine s m',
            rw (e, h) refl,
            rw e (record {
              inbox = r.inbox;
              ready = r.ready;
              cpu = r.cpu;
              holds = r.holds;
              perm = r.perm;
            }),
          )
      | inr e ↦ elim (Bool-cases (n == intr_timeout)) [
        | inl f ↦
            let (w', inbox, ready, h, cpu, holds, perm) =
              handle_timeout_interrupt-Settled s.world k now xs ps ds q kn
                (Cpu-Handling s.world.machine k xs ps c i) fr (rw (e, f) at di) (rw (e, f) at aw)
                (omega (arith, len)) in
            (
              record s { world = w' },
              rw (e, f, h) refl,
              rw (e, f)
                  (record { inbox = inbox; ready = ready; cpu = cpu; holds = holds; perm = perm }),
            )
        | inr f ↦ elim (Bool-cases (n == intr_elapsed)) [
          | inl g ↦ (
            record s {
              world = record s.world { timers = handle_elapsed_time_interrupt s.world.timers };
            },
            rw (e, f, g) refl,
            rw (e, f, g)
                (record { inbox = xs; ready = ps; cpu = c; holds = i.holds; perm = Perm.refl _ }),
          )
          | inr g ↦
              let (s', h, v, gone) =
                handle_user_interrupt-Served s k (n - intr_user0) xs ps c i fr (omega (arith, len))
                  (called-Away s k (n - intr_user0) xs ps (rw (e, f, g) at aw)) in
              (s', rw (e, f, g) h, rw (e, f, g) v)
        ]
      ]
    ]

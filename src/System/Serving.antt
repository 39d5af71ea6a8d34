-- ===== src/System/Serving.antt =====
-- The interrupts of a unit and the order of its processes (`handle_interrupt` of sched.c).
use mathlib.Core.List.{Perm}
use mathlib.Core.List.Perm
use cxp.Common.{
  ℕ, ◌+◌, ◌<◌, ◌≡◌, refl, inl, inr, Option, none, some, arith, length, List, ◌∷◌, [], ◌++◌, Fresh,
  true, false, Bool-cases, Option-cases, ==-refl, ◌==◌, if◌then◌else◌,
}
use cxp.Common.Perms.{length-perm}
use cxp.Common.Outcome.{done}
use cxp.Common.Chain.{list_fuel}
use cxp.Machine.{Machine, ready, pun_of}
use cxp.Ready.{enqueue0}
use cxp.Ipq.Fifo.{Holds}
use cxp.Sched.{set_sched_state, schedule_from_interrupt}
use cxp.Comm.{is_waiting}
use cxp.Sched.View.{Cpu}
use cxp.Sched.Wake.{Cpu-same}
use cxp.Sched.Inbox.{Inbox}
use cxp.Sched.Interrupted.{schedule_from_interrupt-Settled, schedule_from_interrupt-top}
use cxp.Alarm.Waking.{Marked-sched, Handling}
use cxp.Alarm.Freeing.{Away, if-Freed}
use cxp.Interrupts.{Receivers, set_receiver, transmit, resume_receiver}
use cxp.System.{System, set_machine, handle_user_interrupt}

-- The unit is in order, and its processes are those from before and `ws`: each runs, is ready, or is in
-- the interprocessor queue.
pub record Served (m m' : Machine) (k : ℕ) (ws xs ps : List ℕ) : Type 0 where
  pub inbox : List ℕ
  pub ready : List ℕ
  pub cpu : Cpu m' k ready
  pub holds : Holds (m'.ip_ques k) inbox
  pub perm : Perm (m'.current k ∷ inbox ++ ready) (m.current k ∷ xs ++ (ws ++ ps))

pub Cpu-Handling :
    (m : Machine) (k : ℕ) (xs ps : List ℕ) → Cpu m k ps → Inbox m k xs ps → Handling m k xs ps
Cpu-Handling m k xs ps c i = record {
  unit = record { queue = c.queue; home = c.home; away = c.away; runs = c.runs; known = c.known };
  inbox = i;
}

-- The receivers that an interrupt makes ready.
abbrev pub called : Machine → Option ℕ → List ℕ
called m none = []
called m (some r) = if is_waiting (m.procs r).sched_state then r ∷ [] else []

module _ (m : Machine) (k r : ℕ) (xs ps : List ℕ) (c : Cpu m k ps) (i : Inbox m k xs ps)
    (away : Fresh (m.current k) xs) (len : length xs + length ps + 1 < list_fuel) where
  -- A receiver that is not waiting is only marked.
  resume_early :
      is_waiting (m.procs r).sched_state ≡ false
      → (m' : Machine) × (resume_receiver m k r ≡ done m')
        × (schedule_from_interrupt m' k ≡ done m')
        × Served m m' k [] xs ps
  unfolding resume_receiver
  resume_early e =
      let v = Marked-sched k m r ready in
      let m1 = set_sched_state m r ready in
      let cpu = Cpu-same ps v.view c in
      (
        m1,
        rw e refl,
        schedule_from_interrupt-top m1 k ps cpu,
        record {
          inbox = xs;
          ready = ps;
          cpu = cpu;
          holds = rw v.ips i.holds;
          perm = rw (← v.view.current) (Perm.refl _);
        },
      )

  -- One that waits is made ready, and the unit chooses.
  resume_waiting :
      is_waiting (m.procs r).sched_state ≡ true
      → Away m k xs ps r
      → (m' : Machine) × (resume_receiver m k r ≡ done m')
        × (schedule_from_interrupt m' k ≡ done m')
        × Served m m' k (r ∷ []) xs ps
  unfolding resume_receiver
  resume_waiting e a =
      let m1 = set_sched_state m r ready in
      let (ps1, f) =
        if-Freed k m m1 r true xs ps (Marked-sched k m r ready) (Cpu-Handling m k xs ps c i)
          (λ g. a) (omega (arith, len)) in
      let (m', e', s) =
        schedule_from_interrupt-Settled (enqueue0 m1 r) k xs ps1 f.handling.inbox f.handling.unit
          (rw f.current away) (omega (arith, len, length-perm f.perm)) in
      (
        m',
        rw (e, e') refl,
        schedule_from_interrupt-top m' k s.ready s.cpu,
        record {
          inbox = s.inbox;
          ready = s.ready;
          cpu = s.cpu;
          holds = s.holds;
          perm =
              Perm.trans s.perm
                (rw f.current (Perm.cons (m.current k) (Perm.append (Perm.refl xs) f.perm)));
        },
      )

module _ (s : System) (k n : ℕ)
    (home : pun_of s.world.machine (s.world.machine.current k) ≡ k) where
  abbrev taken : Receivers
  taken = set_receiver s.receivers k n none

  user_unheard :
      s.receivers k n ≡ none → handle_user_interrupt s k n ≡ done (record s { receivers = taken })
  unfolding handle_user_interrupt transmit
  user_unheard e = rw (home, e, transmit, home) refl

  transmit_calls :
      (r : ℕ) (m' : Machine)
      → s.receivers k n ≡ some r
      → resume_receiver s.world.machine k r ≡ done m'
      → transmit s.world.machine s.receivers k n ≡ done (some r, m', taken)
  unfolding transmit
  transmit_calls r m' e h = rw (home, e, h, transmit, home) refl

  -- The second choice of a process changes nothing.
  user_heard :
      (r : ℕ) (m' : Machine)
      → s.receivers k n ≡ some r
      → resume_receiver s.world.machine k r ≡ done m'
      → schedule_from_interrupt m' k ≡ done m'
      → handle_user_interrupt s k n ≡ done (record (set_machine s m') { receivers = taken })
  unfolding handle_user_interrupt
  user_heard r m' e h again =
      rw (transmit_calls r m' e h) (elim (Bool-cases (m'.current k == s.world.machine.current k)) [
        | inl same ↦ rw (same, again) refl
        | inr other ↦ rw other refl
      ])

  taken_gone : taken k n ≡ none
  taken_gone = rw (==-refl k, ==-refl n) refl

-- An interrupt that a process may be waiting for, on a unit in order: the handler succeeds and leaves
-- the unit in order, with the process that was waiting, if there is one, added to its processes.
-- No process is registered for the interrupt any more.
pub handle_user_interrupt-Served :
    (s : System) (k n : ℕ) (xs ps : List ℕ)
    → Cpu s.world.machine k ps
    → Inbox s.world.machine k xs ps
    → Fresh (s.world.machine.current k) xs
    → length xs + length ps + 1 < list_fuel
    → ((r : ℕ)
        → s.receivers k n ≡ some r
        → is_waiting (s.world.machine.procs r).sched_state ≡ true
        → Away s.world.machine k xs ps r)
    → (s' : System) × (handle_user_interrupt s k n ≡ done s')
      × Served s.world.machine s'.world.machine k (called s.world.machine (s.receivers k n)) xs ps
      × (s'.receivers k n ≡ none)
handle_user_interrupt-Served s k n xs ps c i away len known =
    elim (Option-cases (s.receivers k n)) [
      | inl e ↦ (
        record s { receivers = taken s k n c.home },
        user_unheard s k n c.home e,
        rw e (record { inbox = xs; ready = ps; cpu = c; holds = i.holds; perm = Perm.refl _ }),
        taken_gone s k n c.home,
      )
      | inr (r, e) ↦ elim (Bool-cases (is_waiting (s.world.machine.procs r).sched_state)) [
        | inl w ↦
            let (m', h, again, v) =
              resume_waiting s.world.machine k r xs ps c i away len w (known r e w) in
            (
              record (set_machine s m') { receivers = taken s k n c.home },
              user_heard s k n c.home r m' e h again,
              rw (e, w) v,
              taken_gone s k n c.home,
            )
        | inr w ↦
            let (m', h, again, v) = resume_early s.world.machine k r xs ps c i away len w in
            (
              record (set_machine s m') { receivers = taken s k n c.home },
              user_heard s k n c.home r m' e h again,
              rw (e, w) v,
              taken_gone s k n c.home,
            )
      ]
    ]

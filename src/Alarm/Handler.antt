-- ===== src/Alarm/Handler.antt =====
-- The timeout interrupt as a whole (`handle_timeout_interrupt` of timer.c).
use mathlib.Core.List.{Perm, perm_middle}
use mathlib.Core.List.Perm
use cxp.Common.{
  ℕ, ◌+◌, ◌≤◌, ◌<◌, ◌≡◌, refl, ◌∙◌, arith, Bool, true, false, Bool-cases, inl, inr, List, [], ◌∷◌,
  ◌++◌, All, Fresh, Distinct, length, length-append, take_while, if◌then◌else◌,
}
use cxp.Common.Perms.{length-perm}
use cxp.Common.Int.{ℤ}
use cxp.Common.Outcome.{done}
use cxp.Common.Chain.{list_fuel}
use cxp.Machine.{Machine}
use cxp.Ipq.Fifo.{Holds}
use cxp.Sched.View.{Cpu}
use cxp.Sched.Interrupted.{schedule_from_interrupt-Settled}
use cxp.Timer.{TimeoutDesc}
use cxp.World.{World}
use cxp.Alarm.{rearm, handle_timeout_interrupt}
use cxp.Timer.Queue.{Timeouts}
use cxp.Alarm.Expiry.{due, Known, free_one, free_each, expire-Expired}
use cxp.Alarm.Waking.{wakes, woken, Handling}
use cxp.Alarm.Freeing.{Away, free_one-Freed, Away-rest}

All-take_while : (P : ℕ → Type 0) (t : ℕ → Bool) (ds : List ℕ) → All P ds → All P (take_while t ds)
All-take_while P t [] a = tt
All-take_while P t (d ∷ ds) a = elim (Bool-cases (t d)) [
  | inl e ↦ rw e (a.0, All-take_while P t ds a.1)
  | inr e ↦ rw e tt
]

pub append_perm : {a b : List ℕ} (ws : List ℕ) → Perm a b → Perm (ws ++ a) (ws ++ b)
append_perm [] e = e
append_perm (w ∷ ws) e = Perm.cons w (append_perm ws e)

joined_perm :
    (w : Bool) (p : ℕ) (ws ps ps1 ps' : List ℕ)
    → Perm ps1 (if w then p ∷ ps else ps)
    → Perm ps' (ws ++ ps1)
    → Perm ps' ((if w then p ∷ ws else ws) ++ ps)
joined_perm false p ws ps ps1 ps' e f = Perm.trans f (append_perm ws e)
joined_perm true p ws ps ps1 ps' e f =
    Perm.trans f (Perm.trans (append_perm ws e) (perm_middle ws ps))

length-Freed :
    (w : Bool) (p : ℕ) (ps ps1 : List ℕ)
    → Perm ps1 (if w then p ∷ ps else ps)
    → length ps1 ≤ length ps + 1
length-Freed false p ps ps1 e = omega (arith, length-perm e)
length-Freed true p ps ps1 e = omega (arith, length-perm e)

-- The first of the processes, if there is one, and the others.
All-if {κ} :
    (P : ℕ → Type κ) (w : Bool) (p : ℕ) (qs : List ℕ)
    → All P (if w then p ∷ qs else qs)
    → (w ≡ true → P p) × All P qs
All-if P false p qs a = ((λ e. cc), a)
All-if P true p qs a = ((λ e. a.0), a.1)

Distinct-if :
    (w : Bool) (p : ℕ) (qs : List ℕ)
    → Distinct (if w then p ∷ qs else qs)
    → (w ≡ true → Fresh p qs) × Distinct qs
Distinct-if false p qs d = ((λ e. cc), d)
Distinct-if true p qs d = ((λ e. d.0), d.1)

-- The processes of several entries are made ready, one after the other.
free_each-Handling :
    (k : ℕ) (descs : ℕ → TimeoutDesc) (ds : List ℕ) (m : Machine) (xs ps : List ℕ)
    → All (λ d. Known (descs d)) ds
    → Distinct (woken m descs ds)
    → All (Away m k xs ps) (woken m descs ds)
    → length ps + length ds < list_fuel
    → Handling m k xs ps
    → (ps' : List ℕ) × Handling (free_each m descs ds) k xs ps'
      × Perm ps' (woken m descs ds ++ ps)
      × ((free_each m descs ds).current k ≡ m.current k)
free_each-Handling k descs [] m xs ps kn di a len h = (ps, h, Perm.refl _, refl)
free_each-Handling k descs (d ∷ ds) m xs ps kn di a len h =
    let w = wakes m (descs d) in
    let p = (descs d).proc in
    let m1 = free_one m (descs d) in
    let rest = woken m1 descs ds in
    let (a0, a1) = All-if (Away m k xs ps) w p rest a in
    let (d0, d1) = Distinct-if w p rest di in
    let (ps1, f) = free_one-Freed k m (descs d) xs ps kn.0 h a0 (omega (arith, len)) in
    let longer = length-Freed w p ps ps1 f.perm in
    let (ps', h', perm, cur) =
      free_each-Handling k descs ds m1 xs ps1 kn.1 d1 (Away-rest rest f d0 a1)
        (omega (arith, len, longer)) f.handling in
    (ps', h', joined_perm w p rest ps ps1 ps' f.perm perm, cur ∙ f.current)

length-woken :
    (m : Machine) (descs : ℕ → TimeoutDesc) (ds : List ℕ) → length (woken m descs ds) ≤ length ds
length-woken m descs [] = omega arith
length-woken m descs (d ∷ ds) = elim (Bool-cases (wakes m (descs d))) [
  | inl e ↦ rw e (omega (arith, length-woken (free_one m (descs d)) descs ds))
  | inr e ↦ rw e (omega (arith, length-woken (free_one m (descs d)) descs ds))
]

-- The timeout interrupt of a unit, with its queues in good shape, where those that had gone to wait for
-- a timeout that is due are different processes of the unit, none of which runs or stands in a queue.
-- The handler succeeds; the unit then runs a process that no ready one has a higher priority than; and
-- the processes that run, are ready or are in the interprocessor queue are those from before with
-- the ones that had gone to wait for a timeout that is due.
pub handle_timeout_interrupt-Settled :
    (w : World) (k : ℕ) (now : ℤ) (xs ps ds : List ℕ)
    → Timeouts w.timers k ds
    → All (λ d. Known (w.timers.descs d)) ds
    → Handling w.machine k xs ps
    → Fresh (w.machine.current k) xs
    → Distinct (woken w.machine w.timers.descs (take_while (due w.timers now) ds))
    → All
        (Away w.machine k xs ps)
        (woken w.machine w.timers.descs (take_while (due w.timers now) ds))
    → length xs + length ps + length (take_while (due w.timers now) ds) < list_fuel
    → (w' : World) × (inbox : List ℕ) × (ready : List ℕ) × (handle_timeout_interrupt w k now
        ≡ done w')
      × Cpu w'.machine k ready
      × Holds (w'.machine.ip_ques k) inbox
      × Perm (w'.machine.current k ∷ inbox ++ ready) (
          w.machine.current k ∷ xs
          ++ (woken w.machine w.timers.descs (take_while (due w.timers now) ds) ++ ps))
unfolding handle_timeout_interrupt
handle_timeout_interrupt-Settled w k now xs ps ds q kn h fr di a len =
    let soon = take_while (due w.timers now) ds in
    let (w1, e1, x) = expire-Expired w k now ds q kn in
    let (ps', h', perm, cur) =
      free_each-Handling k w.timers.descs soon w.machine xs ps
        (All-take_while (λ d. Known (w.timers.descs d)) (due w.timers now) ds kn) di a
        (omega (arith, len)) h in
    let longer = length-woken w.machine w.timers.descs soon in
    let (m', e, s) =
      schedule_from_interrupt-Settled (free_each w.machine w.timers.descs soon) k xs ps' h'.inbox
        h'.unit (rw cur fr)
        (omega (
          arith,
          len,
          longer,
          length-perm perm,
          length-append (woken w.machine w.timers.descs soon) ps,
        )) in
    (
      record w1 { machine = m'; timers = rearm w1.timers k now },
      s.inbox,
      s.ready,
      rw (h.unit.home, e1, x.woken, e) refl,
      s.cpu,
      s.holds,
      Perm.trans s.perm (rw cur (Perm.cons (w.machine.current k) (append_perm xs perm))),
    )

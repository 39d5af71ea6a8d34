-- ===== src/System/Joining.antt =====
-- The end of the last child of a parallel construct (`run_in_par` of run.c, `par_barr_sync` of
-- par_barrier.m).
use mathlib.Core.List.{Perm, perm_middle}
use mathlib.Core.List.Perm
use cxp.Common.{
  ℕ, ◌+◌, ◌<◌, ◌≡◌, ◌≢◌, refl, sym, subst, true, arith, List, ◌∷◌, ◌++◌, length, Fresh,
  Fresh-append, ==-refl,
}
use cxp.Common.Perms.{Fresh-perm, length-perm}
use cxp.Common.Int.{pos}
use cxp.Common.Outcome.{done}
use cxp.Common.Chain.{list_fuel}
use cxp.Machine.{Machine, pri_of, pun_of}
use cxp.Priority.{pri_le}
use cxp.Ready.{enqueue0}
use cxp.Ready.Order.{enqueued}
use cxp.Sched.{disable, enable, schedule, schedule0}
use cxp.Sched.Preempt.{registers}
use cxp.Sched.View.{Cpu}
use cxp.Alarm.Waking.{Marked, Handling, Handling-Marked, Handling-enqueue}
use cxp.Alarm.Handler.{append_perm}
use cxp.Interrupts.{par_barr_sync}
use cxp.System.{System, set_machine, end_in_par}
use cxp.System.Ending.{terminate-Given}

-- `schedule` for a process of the unit that the current one is not below.
scheduled : Machine → ℕ → ℕ → Machine
scheduled m k p = enable (enqueue0 (disable m k) p) k

schedule-scheduled :
    (m : Machine) (k p : ℕ)
    → pun_of m p ≡ k
    → pri_le (pri_of m p) (pri_of m (m.current k)) ≡ true
    → schedule m k p ≡ done (scheduled m k p)
unfolding schedule schedule0 disable scheduled
schedule-scheduled m k p h e = rw (h, ==-refl k, e) refl

disable-Marked : (k p : ℕ) (m : Machine) → Marked k m (disable m k) p
unfolding disable
disable-Marked k p m = record {
  view = record {
    next = refl;
    pri = refl;
    pun = refl;
    rdy = refl;
    current = refl;
    current_pri = refl;
    running = refl;
  };
  ips = refl;
  others = λ q h. refl;
}

enable-Marked : (k p : ℕ) (m : Machine) → Marked k m (enable m k) p
unfolding enable
enable-Marked k p m = record {
  view = record {
    next = refl;
    pri = refl;
    pun = refl;
    rdy = refl;
    current = refl;
    current_pri = refl;
    running = refl;
  };
  ips = refl;
  others = λ q h. refl;
}

scheduled-Handling :
    (m : Machine) (k p : ℕ) (xs ps : List ℕ)
    → Handling m k xs ps
    → pun_of m p ≡ k
    → p ≢ m.current k
    → Fresh p xs
    → Fresh p ps
    → length ps + 1 < list_fuel
    → (ready : List ℕ) × Handling (scheduled m k p) k xs ready
      × Perm ready (p ∷ ps)
      × ((scheduled m k p).current k ≡ m.current k)
unfolding scheduled disable enable
scheduled-Handling m k p xs ps h at ne fx fp len =
    let d = disable m k in
    let (h1, perm) =
      Handling-enqueue d k p xs ps (Handling-Marked xs ps (disable-Marked k p m) h) at ne fx fp
        len in
    (
      enqueued d p ps,
      Handling-Marked xs (enqueued d p ps) (enable-Marked k p (enqueue0 d p)) h1,
      perm,
      (registers d p k).0,
    )

-- The last child of a parallel construct, whose parent waits on the same unit with no higher priority
-- than the child, ends: the parent is then among the processes of the unit that run or are ready, all
-- others are still there, and the child is not any more.
pub end_in_par-last :
    (s : System) (k parent : ℕ) (xs ps : List ℕ)
    → Handling s.world.machine k xs ps
    → Fresh (s.world.machine.current k) xs
    → pun_of s.world.machine parent ≡ k
    → pri_le (pri_of s.world.machine parent) (pri_of s.world.machine (s.world.machine.current k))
      ≡ true
    → parent ≢ s.world.machine.current k
    → Fresh parent xs
    → Fresh parent ps
    → length xs + length ps + 1 < list_fuel
    → (s' : System) × (p : ℕ) × (qs : List ℕ) × (end_in_par s
          (record { parent = parent; children = pos 1 })
          k
        ≡ done (s', record { parent = parent; children = pos 0 }))
      × Cpu s'.world.machine k qs
      × (s'.world.machine.current k ≡ p)
      × Perm (p ∷ qs) (parent ∷ xs ++ ps)
      × Fresh (s.world.machine.current k) (p ∷ qs)
unfolding end_in_par par_barr_sync
end_in_par-last s k parent xs ps h fx at le ne pfx pfp len =
    let m = s.world.machine in
    let m1 = scheduled m k parent in
    let (ready, h1, perm, cur) =
      scheduled-Handling m k parent xs ps h at ne pfx pfp (omega (arith, len)) in
    let all = Perm.trans (append_perm xs perm) (perm_middle xs ps) in
    let fresh : Fresh (m.current k) (xs ++ ready) =
      Fresh-perm (m.current k) (Perm.symm all)
        ((λ e. ne (sym e)), Fresh-append (m.current k) xs ps fx h.unit.away) in
    let size = length-perm perm in
    let (s', p, qs, e, g, perm', fresh', free, again) =
      terminate-Given (set_machine s m1) k xs ready h1.inbox h1.unit.queue h1.unit.home
        (rw cur fresh) (omega (arith, len, size)) (omega (arith, size)) in
    (
      s',
      p,
      qs,
      rw (schedule-scheduled m k parent at le, cur, ==-refl (m.current k), e) refl,
      g.cpu,
      g.runs,
      Perm.trans perm' all,
      subst (λ (x : ℕ). Fresh x (p ∷ qs)) cur fresh',
    )

-- ===== src/Alarm/Freeing.antt =====
-- One entry of the timeout queue whose process is made ready (timer.c).
use mathlib.Core.List.{Perm}
use mathlib.Core.List.Perm
use cxp.Common.{
  ℕ, ◌+◌, ◌<◌, ◌≡◌, ◌≢◌, refl, sym, subst, ◌∙◌, Bool, true, false, List, [], ◌∷◌, All, Fresh,
  length, if◌then◌else◌,
}
use cxp.Common.Chain.{list_fuel}
use cxp.Machine.{Machine, pun_of}
use cxp.Ready.{enqueue0}
use cxp.Ready.Order.{enqueued}
use cxp.Sched.Preempt.{pun_of-enqueue0, registers}
use cxp.Timer.{TimeoutDesc}
use cxp.Alarm.Expiry.{Known, free_one}
use cxp.Alarm.Waking.{
  wakes, Marked, free_one-Marked, Handling, Handling-Marked, Handling-enqueue, Fresh-enqueued,
}

-- A process of the unit that neither runs nor stands in a queue.
pub record Away (m : Machine) (k : ℕ) (xs ps : List ℕ) (p : ℕ) : Type 0 where
  pub at : pun_of m p ≡ k
  pub idle : p ≢ m.current k
  pub inbox : Fresh p xs
  pub queue : Fresh p ps

-- What `free_one` does with process `p`.
pub record Freed (m m1 : Machine) (k : ℕ) (xs ps ps1 : List ℕ) (p : ℕ) (w : Bool) : Type 0 where
  pub handling : Handling m1 k xs ps1
  pub perm : Perm ps1 (if w then p ∷ ps else ps)
  pub current : m1.current k ≡ m.current k
  pub pun : pun_of m1 ≡ pun_of m
  pub fresh : (q : ℕ) → (w ≡ true → q ≢ p) → Fresh q ps → Fresh q ps1

pub if-Freed :
    (k : ℕ) (m m1 : Machine) (p : ℕ) (w : Bool) (xs ps : List ℕ)
    → Marked k m m1 p
    → Handling m k xs ps
    → (w ≡ true → Away m k xs ps p)
    → length ps + 1 < list_fuel
    → (ps1 : List ℕ) × Freed m (if w then enqueue0 m1 p else m1) k xs ps ps1 p w
if-Freed k m m1 p false xs ps v h a len = (
  ps,
  record {
    handling = Handling-Marked xs ps v h;
    perm = Perm.refl _;
    current = sym v.view.current;
    pun = sym v.view.pun;
    fresh = λ q ne f. f;
  },
)
if-Freed k m m1 p true xs ps v h a len =
    let b = a refl in
    let (h1, perm) =
      Handling-enqueue m1 k p xs ps (Handling-Marked xs ps v h) (rw (← v.view.pun) b.at)
        (rw (← v.view.current) b.idle) b.inbox b.queue len in
    (
      enqueued m1 p ps,
      record {
        handling = h1;
        perm = perm;
        current = (registers m1 p k).0 ∙ sym v.view.current;
        pun = pun_of-enqueue0 m1 p ∙ sym v.view.pun;
        fresh = λ q ne. Fresh-enqueued m1 q p ps (ne refl);
      },
    )

pub free_one-Freed :
    (k : ℕ) (m : Machine) (x : TimeoutDesc) (xs ps : List ℕ)
    → Known x
    → Handling m k xs ps
    → (wakes m x ≡ true → Away m k xs ps x.proc)
    → length ps + 1 < list_fuel
    → (ps1 : List ℕ) × Freed m (free_one m x) k xs ps ps1 x.proc (wakes m x)
free_one-Freed k m x xs ps kn h a len =
    let (m1, e, v) = free_one-Marked k m x kn in
    let (ps1, f) = if-Freed k m m1 x.proc (wakes m x) xs ps v h a len in
    (ps1, subst (λ (y : Machine). Freed m y k xs ps ps1 x.proc (wakes m x)) (sym e) f)

pub Away-rest :
    {k : ℕ} {m m1 : Machine} {xs ps ps1 : List ℕ} {p : ℕ} {w : Bool} (qs : List ℕ)
    → Freed m m1 k xs ps ps1 p w
    → (w ≡ true → Fresh p qs)
    → All (Away m k xs ps) qs
    → All (Away m1 k xs ps1) qs
Away-rest [] f d a = tt
Away-rest (q ∷ qs) f d a = (
  record {
    at = rw f.pun a.0.at;
    idle = rw f.current a.0.idle;
    inbox = a.0.inbox;
    queue = f.fresh q (λ e s. (d e).0 (sym s)) a.0.queue;
  },
  Away-rest qs f (λ e. (d e).1) a.1,
)

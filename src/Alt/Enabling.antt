-- ===== src/Alt/Enabling.antt =====
-- The first loop of a selection stops at the first ready guard, and the selection then selects it.
use cxp.Common.{
  ℕ, zero, suc, ◌+◌, ◌≤◌, ◌<◌, ◌≡◌, refl, sym, ap, ◌∙◌, subst, ◌⊎◌, inl, inr, Bool, true, false,
  Option, none, some, arith, Bool-cases, ◌==◌,
}
use cxp.Common.Int.{ℤ}
use cxp.Common.Outcome.{done}
use cxp.World.{World}
use cxp.Comm.{returns, enable_channel}
use cxp.Alarm.{enable_timeout}
use cxp.Alt.{
  Guard, guard_chan, guard_skip, guard_timer, guard_interrupt, Alternation, Scan, enable_guard,
  enable_loop, disable_loop, track_earliest, Order, set_alting, select_begin, select_end, no_time,
}
use cxp.Alt.Selection.{other_waits, is_ready, First, disable_loop-First}

-- A guard whose enabling needs no memory.
abbrev pub Plain : Guard → Type 0
Plain (guard_timer t) = ⊥
Plain g = Unit {0}

-- No guard's readiness changes.
abbrev SameReady : World → World → ℕ → Type 0
SameReady w w1 proc = (h : Guard) (at : ℤ) → is_ready w1 proc h at ≡ is_ready w proc h at

enable_channel-ready :
    (w : World) (c proc : ℕ) → (enable_channel w c proc).1 ≡ other_waits (w.chans c).waiting proc
unfolding enable_channel
enable_channel-ready w c proc = ground arith

enable_channel-other :
    (w : World) (c d proc : ℕ)
    → other_waits ((enable_channel w c proc).0.chans d).waiting proc
      ≡ other_waits (w.chans d).waiting proc
unfolding enable_channel
enable_channel-other w c d proc = ground arith

SameReady-chans :
    (w w1 : World) (proc : ℕ)
    → ((d : ℕ) → other_waits (w1.chans d).waiting proc ≡ other_waits (w.chans d).waiting proc)
    → SameReady w w1 proc
SameReady-chans w w1 proc f (guard_chan d) at = f d
SameReady-chans w w1 proc f guard_skip at = refl
SameReady-chans w w1 proc f (guard_timer t) at = refl
SameReady-chans w w1 proc f (guard_interrupt s) at = refl

enable_guard_lem :
    (w : World) (cpu proc : ℕ) (g : Guard) (now later : ℤ)
    → Plain g ⊎ (is_ready w proc g now ≡ true)
    → (w1 : World) × (enable_guard w cpu proc g now later ≡ done (w1, is_ready w proc g now))
      × SameReady w w1 proc
unfolding enable_guard enable_timeout
enable_guard_lem w cpu proc (guard_chan c) now later v = (
  (enable_channel w c proc).0,
  ap (λ (b : Bool). done ((enable_channel w c proc).0, b)) (enable_channel-ready w c proc),
  SameReady-chans w (enable_channel w c proc).0 proc (λ d. enable_channel-other w c d proc),
)
enable_guard_lem w cpu proc guard_skip now later v = (w, refl, (λ h at. refl))
enable_guard_lem w cpu proc (guard_timer t) now later (inl v) = absurd v
enable_guard_lem w cpu proc (guard_timer t) now later (inr e) =
    (w, rw (e, enable_timeout) refl, (λ h at. refl))
enable_guard_lem w cpu proc (guard_interrupt s) now later v = (w, refl, (λ h at. refl))

module _ (cpu proc : ℕ) (a : Alternation) (o : Order) (pos : ℕ → ℕ) (now later : ℕ → ℤ)
    (t : ℕ) where
  -- Before the `t`-th guard visited no guard is ready, and enabling these needs no memory.
  abbrev pub Unready : World → ℕ → Type 0
  Unready w k =
      (l : ℕ)
      → k ≤ l
      → l < t
      → Plain (a.guards (pos l)) × (is_ready w proc (a.guards (pos l)) (now l) ≡ false)

  enable_loop_lem :
      ((j : ℕ) → o.forth (pos j) ≡ pos (suc j))
      → (d left : ℕ) (w : World) (k i : ℕ) (earliest : ℤ) → k + d ≡ t
      → d < left
      → i ≡ pos k
      → Unready w k
      → is_ready w proc (a.guards (pos t)) (now t) ≡ true
      → (s : Scan) × (enable_loop cpu proc a o left w k i earliest now later ≡ done s)
        × (s.visited ≡ suc t)
        × (s.last_index ≡ pos t)
        × (s.found ≡ true)
        × SameReady w s.world proc
  unfolding enable_loop
  enable_loop_lem step d zero w k i earliest e l at un r = absurd (omega (arith, l))
  enable_loop_lem step zero (suc left) w k i earliest e l at un r =
      let kt : k ≡ t = omega (arith, e) in
      let it : i ≡ pos t = at ∙ ap pos kt in
      let rk : is_ready w proc (a.guards i) (now k) ≡ true =
        ap (λ (x : ℕ). is_ready w proc (a.guards x) (now k)) it
        ∙ ap (λ (x : ℕ). is_ready w proc (a.guards (pos t)) (now x)) kt
        ∙ r in
      let (w1, q, same) = enable_guard_lem w cpu proc (a.guards i) (now k) (later k) (inr rk) in
      (
        record {
          world = w1;
          visited = suc k;
          last_index = i;
          earliest = track_earliest earliest (a.guards i);
          found = true;
        },
        rw (q, rk) refl,
        ap (λ (x : ℕ). suc x) kt,
        it,
        refl,
        same,
      )
  enable_loop_lem step (suc d) (suc left) w k i earliest e l at un r =
      let g = a.guards i in
      let here = un k (omega arith) (omega (arith, e)) in
      let plain = subst (λ x. Plain (a.guards x)) (sym at) here.0 in
      let no_rk : is_ready w proc g (now k) ≡ false =
        ap (λ (x : ℕ). is_ready w proc (a.guards x) (now k)) at ∙ here.1 in
      let (w1, q, same) = enable_guard_lem w cpu proc g (now k) (later k) (inl plain) in
      let (s, run, v, li, f, same1) =
        enable_loop_lem step d left w1 (suc k) (o.forth i) (track_earliest earliest g)
          (omega (arith, e)) (omega (arith, l)) (ap o.forth at ∙ step k)
          (λ m le lt. (
            (un m (omega (arith, le)) lt).0,
            same (a.guards (pos m)) (now m) ∙ (un m (omega (arith, le)) lt).1,
          ))
          (same (a.guards (pos t)) (now t) ∙ r) in
      (s, rw (q, no_rk) run, v, li, f, (λ h x. same1 h x ∙ same h x))

is_ready-Plain :
    (w : World) (proc : ℕ) (g : Guard) (x y : ℤ)
    → Plain g
    → is_ready w proc g x ≡ is_ready w proc g y
is_ready-Plain w proc (guard_chan c) x y p = refl
is_ready-Plain w proc guard_skip x y p = refl
is_ready-Plain w proc (guard_timer t) x y p = absurd p
is_ready-Plain w proc (guard_interrupt s) x y p = refl

First-only :
    (ready : ℕ → Bool) (pos : ℕ → ℕ) (t : ℕ) (r : Option ℕ)
    → ((l : ℕ) → l < t → ready l ≡ false)
    → ready t ≡ true
    → First ready pos (suc t) none r
    → r ≡ some (pos t)
First-only ready pos t r un e (inl (j, l, f, least, s)) = elim (Bool-cases (j == t)) [
  | inl q ↦ s ∙ ap (λ (x : ℕ). some (pos x)) (ground (arith, q))
  | inr q ↦ absurd (cc (un j (ground (arith, q, l)), f))
]
First-only ready pos t r un e (inr (unready, s)) = absurd (cc (unready t (omega arith), e))

module _ (cpu proc : ℕ) (a : Alternation) (o : Order) (pos : ℕ → ℕ) (now later disabling : ℕ → ℤ)
    (t : ℕ) (w : World) (first : o.start ≡ pos 0) (forth : (j : ℕ) → o.forth (pos j) ≡ pos (suc j))
    (back : (j : ℕ) → o.back (pos (suc j)) ≡ pos j) where
  pub select_lem :
      t < a.nr_guards
      → Unready cpu proc a o pos now later t w 0
      → is_ready w proc (a.guards (pos t)) (now t) ≡ true
      → is_ready w proc (a.guards (pos t)) (disabling t) ≡ true
      → (s : Scan) × (select_begin cpu proc a o w now later ≡ done (s, returns))
        × ((select_end cpu proc a o s disabling).2 ≡ some (pos t))
  unfolding select_begin select_end
  select_lem l un r r2 =
      let w0 = set_alting w proc true in
      let (s, run, v, li, f, same) =
        enable_loop_lem cpu proc a o pos now later t forth t a.nr_guards w0 0 o.start no_time
          (omega arith) l first un r in
      let ready = λ (j : ℕ). is_ready w proc (a.guards (pos j)) (disabling j) in
      let sel = (disable_loop cpu proc a o s.visited s.world s.last_index none disabling).1 in
      let chosen =
        disable_loop-First cpu proc a o pos disabling ready back s.visited s.world s.last_index none
          (λ j. same (a.guards (pos j)) (disabling j)) (λ j e. li ∙ ap pos (omega (arith, v, e))) in
      (
        s,
        rw (run, f) refl,
        First-only ready pos t sel
            (λ m lt.
              is_ready-Plain w proc (a.guards (pos m)) (disabling m) (now m)
                (un m (omega arith) lt).0
              ∙ (un m (omega arith) lt).1)
            r2 (subst (λ x. First ready pos x none sel) v chosen),
      )

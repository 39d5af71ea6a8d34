-- ===== src/Alt/Selection.antt =====
-- The second loop of a selection: it selects the first ready guard of those that were visited.
use cxp.Common.{
  ℕ, zero, suc, ◌<◌, ◌≡◌, refl, ap, ◌∙◌, subst, ◌⊎◌, inl, inr, Bool, true, false, Option, none,
  some, arith, Bool-cases, if◌then◌else◌, not, ◌==◌,
}
use cxp.Common.Int.{ℤ}
use cxp.World.{World}
use cxp.Comm.{disable_channel}
use cxp.Alarm.{timeout_ready, disable_timeout}
use cxp.Alt.{
  Guard, guard_chan, guard_skip, guard_timer, guard_interrupt, Alternation, disable_guard,
  disable_loop, Order,
}

-- Another process stands in the channel.
abbrev pub other_waits : Option ℕ → ℕ → Bool
other_waits none proc = false
other_waits (some q) proc = not (q == proc)

abbrev pub is_ready : World → ℕ → Guard → ℤ → Bool
is_ready w proc (guard_chan c) now = other_waits (w.chans c).waiting proc
is_ready w proc guard_skip now = true
is_ready w proc (guard_timer t) now = timeout_ready t now
is_ready w proc (guard_interrupt s) now = false

-- `r` is the place of the first ready one of `m`, or `d` if none is ready.
abbrev pub First : (ℕ → Bool) → (ℕ → ℕ) → ℕ → Option ℕ → Option ℕ → Type 0
First ready pos m d r =
    ((j : ℕ) × (j < m)
      × (ready j ≡ true)
      × ((l : ℕ) → l < j → ready l ≡ false)
      × (r ≡ some (pos j)))
    ⊎ (((l : ℕ) → l < m → ready l ≡ false) × (r ≡ d))

disable_channel-ready :
    (w : World) (c proc : ℕ) → (disable_channel w c proc).1 ≡ other_waits (w.chans c).waiting proc
unfolding disable_channel
disable_channel-ready w c proc = ground arith

disable_guard-ready :
    (w : World) (cpu proc : ℕ) (g : Guard) (now : ℤ)
    → (disable_guard w cpu proc g now).1 ≡ is_ready w proc g now
unfolding disable_guard disable_timeout
disable_guard-ready w cpu proc (guard_chan c) now = disable_channel-ready w c proc
disable_guard-ready w cpu proc guard_skip now = refl
disable_guard-ready w cpu proc (guard_timer t) now = refl
disable_guard-ready w cpu proc (guard_interrupt s) now = refl

disable_channel-other :
    (w : World) (c d proc : ℕ)
    → other_waits ((disable_channel w c proc).0.chans d).waiting proc
      ≡ other_waits (w.chans d).waiting proc
unfolding disable_channel
disable_channel-other w c d proc = ground arith

-- Disabling one guard makes no guard ready and no guard unready.
disable_guard-other :
    (w : World) (cpu proc : ℕ) (g h : Guard) (now at : ℤ)
    → is_ready (disable_guard w cpu proc g now).0 proc h at ≡ is_ready w proc h at
unfolding disable_guard disable_timeout
disable_guard-other w cpu proc (guard_chan c) (guard_chan d) now at =
    disable_channel-other w c d proc
disable_guard-other w cpu proc guard_skip (guard_chan d) now at = refl
disable_guard-other w cpu proc (guard_timer t) (guard_chan d) now at = refl
disable_guard-other w cpu proc (guard_interrupt s) (guard_chan d) now at = refl
disable_guard-other w cpu proc g guard_skip now at = refl
disable_guard-other w cpu proc g (guard_timer t) now at = refl
disable_guard-other w cpu proc g (guard_interrupt s) now at = refl

First-suc :
    (ready : ℕ → Bool) (pos : ℕ → ℕ) (m : ℕ) (d r : Option ℕ)
    → First ready pos m (if ready m then some (pos m) else d) r
    → First ready pos (suc m) d r
First-suc ready pos m d r (inl (j, l, e, least, s)) = inl (j, omega (arith, l), e, least, s)
First-suc ready pos m d r (inr (unready, s)) = elim (Bool-cases (ready m)) [
  | inl e ↦ inl (m, omega arith, e, unready, s ∙ rw e refl)
  | inr e ↦ inr ((λ l h. below_suc l h e), s ∙ rw e refl)
]
  where
    below_suc : (l : ℕ) → l < suc m → ready m ≡ false → ready l ≡ false
    below_suc l h e = elim (Bool-cases (l == m)) [
      | inl q ↦ subst (λ x. ready x ≡ false) (ground (arith, q)) e
      | inr q ↦ unready l (ground (arith, q, h))
    ]

module _ (cpu proc : ℕ) (a : Alternation) (o : Order) (pos : ℕ → ℕ) (now : ℕ → ℤ) (ready : ℕ → Bool)
    (step : (j : ℕ) → o.back (pos (suc j)) ≡ pos j) where
  pub disable_loop-First :
      (m : ℕ) (w : World) (i : ℕ) (d : Option ℕ)
      → ((j : ℕ) → is_ready w proc (a.guards (pos j)) (now j) ≡ ready j)
      → ((j : ℕ) → m ≡ suc j → i ≡ pos j)
      → First ready pos m d (disable_loop cpu proc a o m w i d now).1
  unfolding disable_loop
  disable_loop-First zero w i d inv at = inr ((λ l h. absurd (omega (arith, h))), refl)
  disable_loop-First (suc m) w i d inv at =
      let g = a.guards i in
      let w1 = (disable_guard w cpu proc g (now m)).0 in
      let e : (disable_guard w cpu proc g (now m)).1 ≡ ready m =
        disable_guard-ready w cpu proc g (now m)
        ∙ ap (λ (x : ℕ). is_ready w proc (a.guards x) (now m)) (at m refl)
        ∙ inv m in
      let sel = if (disable_guard w cpu proc g (now m)).1 then some i else d in
      let same : sel ≡ (if ready m then some (pos m) else d) =
        ap (λ (b : Bool). if b then some i else d) e
        ∙ ap (λ (x : ℕ). if ready m then some x else d) (at m refl) in
      let rest =
        disable_loop-First m w1 (o.back i) sel
          (λ j. disable_guard-other w cpu proc g (a.guards (pos j)) (now m) (now j) ∙ inv j)
          (λ j f. ap o.back (at m refl) ∙ ap (λ (x : ℕ). o.back (pos x)) f ∙ step j) in
      let r = (disable_loop cpu proc a o m w1 (o.back i) sel now).1 in
      First-suc ready pos m d r (subst (λ x. First ready pos m x r) same rest)

-- ===== src/Hardware/Wiring.antt =====
-- The routing of interrupts that the units set up while they start, in any interleaving (hardware.c).
use cxp.Common.{ℕ, ◌-◌, ◌≤◌, ◌≡◌, ◌≢◌, sym, ◌∙◌, ap, inr, Bool, true, false, update}
use cxp.Hardware.{create_timer, Board, hardware_init, block_all, define_handler, handled, update2}
use cxp.Hardware.Routing.{Wired, block-Wired, define-Wired, begin-Wired, time-Wired}

-- The starting units, in any interleaving: each blocks all signals and then defines handlers. `live`
-- tells which units have blocked the signals, `set` which handlers are defined.
pub data Boot (lo hi : ℕ) : Board → (ℕ → Bool) → (ℕ → ℕ → Bool) → Type 0 where
  begin : (b : Board) → Boot lo hi (hardware_init lo b) (λ q. false) (λ q n. false)
  block :
      {b : Board} {live : ℕ → Bool} {set : ℕ → ℕ → Bool} (k : ℕ)
      → Boot lo hi b live set
      → live k ≡ false
      → Boot lo hi (block_all lo hi b k) (update live k true) set
  define :
      {b : Board} {live : ℕ → Bool} {set : ℕ → ℕ → Bool} (k n : ℕ)
      → Boot lo hi b live set
      → live k ≡ true
      → Boot lo hi (define_handler lo b k n) live (update2 set k n true)
  time :
      {b : Board} {live : ℕ → Bool} {set : ℕ → ℕ → Bool} (k type n : ℕ)
      → Boot lo hi b live set
      → live k ≡ true
      → Boot lo hi (create_timer b k type n) live set

Boot-Wired :
    {lo hi : ℕ} {b : Board} {live : ℕ → Bool} {set : ℕ → ℕ → Bool}
    → Boot lo hi b live set
    → Wired lo hi b live set
Boot-Wired (Boot.begin b) = begin-Wired _ _ b
Boot-Wired (Boot.block k r e) = block-Wired _ _ _ _ _ k (Boot-Wired r) e
Boot-Wired (Boot.define k n r e) = define-Wired _ _ _ _ _ k (Boot-Wired r) n e
Boot-Wired (Boot.time k type n r e) = time-Wired _ _ _ _ _ k type n (Boot-Wired r)

-- In any interleaving of the start of the units, an interrupt that a unit has defined goes by a signal
-- of its own: the unit does not block it and handles it as that interrupt, no other unit that has
-- blocked its signals lets it through, as long as there are enough real-time signals, and no other
-- interrupt goes by the same signal.
pub Boot-routed :
    {lo hi : ℕ} {b : Board} {live : ℕ → Bool} {set : ℕ → ℕ → Bool} (k n : ℕ)
    → Boot lo hi b live set
    → set k n ≡ true
    → b.signal_no k n ≤ hi
    → (handled lo b (b.signal_no k n) ≡ n)
      × (b.blocked k (b.signal_no k n) ≡ false)
      × ((q : ℕ) → live q ≡ true → q ≢ k → b.blocked q (b.signal_no k n) ≡ true)
      × ((q m : ℕ) → set q m ≡ true → b.signal_no q m ≡ b.signal_no k n → (q ≡ k) × (m ≡ n))
Boot-routed {lo} {b} k n boot e h =
    let w = Boot-Wired boot in
    let r = w.routed k n e in
    (
      r.number,
      r.unblocked,
      λ q l g. w.shut q (b.signal_no k n) l r.above h (inr (λ x. g (sym x ∙ r.unit))),
      λ q m d same.
          let o = w.routed q m d in
          (
            sym o.unit ∙ ap (λ s. (b.interrupt (s - lo)).pun) same ∙ r.unit,
            sym o.number ∙ ap (λ s. (b.interrupt (s - lo)).intr) same ∙ r.number,
          ),
    )

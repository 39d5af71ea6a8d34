-- ===== src/Alt/Choice.antt =====
-- The choice that priSelect and fairSelect make (alt.c) when a guard is ready at once.
use native.Mathlib.Nat.{mod-add-mod, add-mod_right, mod-eq_of_lt}
use cxp.Common.{ℕ, suc, ◌+◌, ◌-◌, ◌%◌, ◌≤◌, ◌<◌, ◌≡◌, refl, sym, ap, ◌∙◌, true, false, some, arith}
use cxp.Common.Int.{ℤ}
use cxp.Common.Outcome.{done}
use cxp.World.{World}
use cxp.Sched.{get_current}
use cxp.Comm.{returns}
use cxp.Alt.{
  Alternation, Scan, pri_order, pri_select_begin, pri_select_end, fair_order, fair_select_begin,
  fair_select_end,
}
use cxp.Alt.Selection.{is_ready}
use cxp.Alt.Enabling.{Plain, select_lem}

-- `t` is the first ready guard at both readings of the clock, and those before it are not timeouts:
-- then `priSelect` does not wait, and selects `t`.
pub pri_select_ready :
    (w : World) (cpu : ℕ) (a : Alternation) (now later disabling : ℕ → ℤ) (t : ℕ)
    → let proc = get_current w.machine cpu in
      t < a.nr_guards
      → ((l : ℕ)
          → 0 ≤ l
          → l < t
          → Plain (a.guards l) × (is_ready w proc (a.guards l) (now l) ≡ false))
      → is_ready w proc (a.guards t) (now t) ≡ true
      → is_ready w proc (a.guards t) (disabling t) ≡ true
      → (s : Scan) × (pri_select_begin w cpu a now later ≡ done (s, returns))
        × ((pri_select_end cpu proc a s disabling).2 ≡ some t)
unfolding pri_select_begin pri_select_end pri_order
pri_select_ready w cpu a now later disabling t l un r r2 =
    select_lem cpu (get_current w.machine cpu) a (pri_order a) (λ j. j) now later disabling t w refl
      (λ j. refl) (λ j. omega arith) l un r r2

fair_forth : (f n j : ℕ) → ((f + j) % n + 1) % n ≡ (f + suc j) % n
fair_forth f n j = mod-add-mod (f + j) n 1 ∙ ap (λ (x : ℕ). x % n) (omega arith)

fair_back : (f n j : ℕ) → 0 < n → ((f + suc j) % n + n - 1) % n ≡ (f + j) % n
fair_back f n j h =
    ap (λ (x : ℕ). x % n) (omega (arith, h))
    ∙ mod-add-mod (f + suc j) n (n - 1)
    ∙ ap (λ (x : ℕ). x % n) (omega (arith, h))
    ∙ add-mod_right (f + j) n

-- The same for `fairSelect`, where the guards are visited in cyclic order from `favorite` on: the
-- `t`-th of these is selected.
pub fair_select_ready :
    (w : World) (cpu : ℕ) (a : Alternation) (now later disabling : ℕ → ℤ) (t : ℕ)
    → let proc = get_current w.machine cpu in
      let at = λ (j : ℕ). (a.favorite + j) % a.nr_guards in
      a.favorite < a.nr_guards
      → t < a.nr_guards
      → ((l : ℕ)
          → 0 ≤ l
          → l < t
          → Plain (a.guards (at l)) × (is_ready w proc (a.guards (at l)) (now l) ≡ false))
      → is_ready w proc (a.guards (at t)) (now t) ≡ true
      → is_ready w proc (a.guards (at t)) (disabling t) ≡ true
      → (s : Scan) × (fair_select_begin w cpu a now later ≡ done (s, returns))
        × ((fair_select_end cpu proc a s disabling).2 ≡ some (at t))
unfolding fair_select_begin fair_select_end fair_order
fair_select_ready w cpu a now later disabling t f l un r r2 =
    select_lem cpu (get_current w.machine cpu) a (fair_order a)
      (λ j. (a.favorite + j) % a.nr_guards) now later disabling t w
      (sym (ap (λ (x : ℕ). x % a.nr_guards) (omega arith) ∙ mod-eq_of_lt f))
      (λ j. fair_forth a.favorite a.nr_guards j)
      (λ j. fair_back a.favorite a.nr_guards j (omega (arith, f))) l un r r2

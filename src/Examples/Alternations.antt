-- ===== src/Examples/Alternations.antt =====
-- Instances of the theorems about selections.
use cxp.Common.{
  ℕ, zero, suc, ◌≤◌, ◌<◌, ◌%◌, ◌+◌, ◌≡◌, refl, false, some, arith, if◌then◌else◌, ◌==◌,
}
use cxp.Common.Int.{ℤ, pos}
use cxp.Common.Outcome.{done}
use cxp.Comm.{returns}
use cxp.Alt.{
  guard_chan, Alternation, Scan, pri_select_begin, pri_select_end, fair_select_begin,
  fair_select_end,
}
use cxp.Alt.Selection.{is_ready}
use cxp.Alt.Enabling.{Plain}
use cxp.Alt.Choice.{pri_select_ready, fair_select_ready}
use cxp.Examples.Machines.{world}

-- Channels 0, 1 and 0 as guards; only channel 1 has a writer.
abbrev alternation : Alternation
alternation = record {
  favorite = 2;
  nr_guards = 3;
  guards = λ i. (if i == 1 then guard_chan 1 else guard_chan 0);
}

abbrev clock : ℕ → ℤ
clock k = pos k

pri_unready :
    (l : ℕ)
    → 0 ≤ l
    → l < 1
    → Plain (alternation.guards l) × (is_ready world 1 (alternation.guards l) (clock l) ≡ false)
pri_unready zero a b = (tt, refl)
pri_unready (suc l) a b = absurd (omega (arith, b))

pri_select_ready_example :
    (s : Scan) × (pri_select_begin world 0 alternation clock clock ≡ done (s, returns))
    × ((pri_select_end 0 1 alternation s clock).2 ≡ some 1)
pri_select_ready_example =
    pri_select_ready world 0 alternation clock clock clock 1 (omega arith) pri_unready refl refl

fair_unready :
    (l : ℕ)
    → 0 ≤ l
    → l < 2
    → let i = (2 + l) % 3 in
      Plain (alternation.guards i) × (is_ready world 1 (alternation.guards i) (clock l) ≡ false)
fair_unready zero a b = (tt, refl)
fair_unready (suc zero) a b = (tt, refl)
fair_unready (suc (suc l)) a b = absurd (omega (arith, b))

fair_select_ready_example :
    (s : Scan) × (fair_select_begin world 0 alternation clock clock ≡ done (s, returns))
    × ((fair_select_end 0 1 alternation s clock).2 ≡ some 1)
fair_select_ready_example =
    fair_select_ready world 0 alternation clock clock clock 2 (omega arith) (omega arith)
      fair_unready refl refl

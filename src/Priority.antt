-- ===== src/Priority.antt =====
-- Process priorities (sched.h), and how PRI PAR assigns them to children (run.c). A priority is 16
-- bits: the level in the high 3, the value in the low 12; a smaller value is a higher priority.
-- `& 0x0fff` is `% 2 ^ 12`; the two halves that `priority` joins by `|` share no bit, so it adds.
pub mod Slots
use cxp.Common.{ℕ, zero, suc, ◌+◌, ◌*◌, ◌/◌, ◌%◌, ◌^◌, Bool, List, [], ◌∷◌, ltb, leb, ◌==◌}

abbrev pub pri_value : ℕ → ℕ
pri_value p = p % 2 ^ 12

abbrev pub pri_level : ℕ → ℕ
pri_level p = p % 2 ^ 16 / 2 ^ 13

abbrev pub pri_gt : ℕ → ℕ → Bool
pri_gt p q = ltb (pri_value p) (pri_value q)

abbrev pub pri_le : ℕ → ℕ → Bool
pri_le p q = leb (pri_value q) (pri_value p)

abbrev pub priority : ℕ → ℕ → ℕ
priority level value = level * 2 ^ 13 + pri_value value

abbrev pub pri_delta : ℕ → ℕ
pri_delta level = 2 ^ 12 / 2 ^ (3 * level)

abbrev pub pri_levels : ℕ
pri_levels = 4

abbrev pub pri_procs : ℕ
pri_procs = 8

abbrev pub init_pri : ℕ
init_pri = 0

abbrev pub idle_pri : ℕ
idle_pri = 0xfff

-- The priorities that the loop of `par_pri` gives to the children, in order: `pri += delta` for each.
unfoldable pub child_pris : ℕ → ℕ → ℕ → ℕ → List ℕ
child_pris level pri delta zero = []
child_pris level pri delta (suc n) = priority level pri ∷ child_pris level (pri + delta) delta n

-- The same from the parent's priority.
unfoldable pub assigned : ℕ → ℕ → List ℕ
unfolding child_pris
assigned parent nc = child_pris (pri_level parent + 1) parent (pri_delta (pri_level parent + 1)) nc

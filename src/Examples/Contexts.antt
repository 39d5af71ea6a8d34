-- ===== src/Examples/Contexts.antt =====
-- Instances of the theorems about contexts, stacks and the barrier of the units.
use cxp.Common.{ℕ, ◌+◌, ◌≤◌, ◌<◌, ◌≡◌, ◌≢◌, ◌⊎◌, refl, ltb, arith, update}
use cxp.Common.Int.{pos, ltb_ℤ}
use cxp.Common.Outcome.{done}
use cxp.Memory.Blocks.{block_len}
use cxp.World.{World}
use cxp.Hardware.Gathering.{
  SyncPc, starting, spinning, passed, begin, next, arrive, pass, outstanding, gathered,
}
use cxp.Context.{
  Contexts, Layout, entry, inside, switch_context, switch_interrupt_context, restore_context,
  save_interrupted, make_process,
}
use cxp.Context.Resuming.{Meanwhile, Loses, resumes}
use cxp.Context.Stacks.{make_process-inside}
use cxp.Examples.Machines.{memory, world}

abbrev contexts : Contexts
contexts = record {
  saved = λ p. record { ss_sp = p + 1000; ss_size = 1000; point = entry p 0 0 0 };
  running = λ k. record { ss_sp = 77; ss_size = 1000; point = inside k };
}

-- Process 1 gives the unit to 2, which is interrupted; 3 preempts it and gives the unit back to 1.
abbrev later : Contexts
later = switch_interrupt_context (save_interrupted (switch_context contexts 0 1 2) 0 2) 0 2 3

resumes_example :
    ((switch_context later 0 3 1).running 0 ≡ contexts.running 0)
    × ((switch_interrupt_context later 0 3 1).running 0 ≡ contexts.running 0)
    × ((restore_context later 0 1).running 0 ≡ contexts.running 0)
resumes_example =
    resumes contexts later 0 1 0 3 (Loses.by_switch 2) (λ e. absurd (omega (arith, e)))
      (Meanwhile.preempt 0 2 3
        (Meanwhile.interrupt 0 2 Meanwhile.begin (λ e. absurd (omega (arith, e)))))

abbrev roomy : World
roomy = record world { memory = record memory { taillen = 40000 } }

abbrev layout : Layout
layout = record { stack = 32; ucontext = 968 }

make_process-inside_example :
    (p : ℕ) × (w' : World) × (s' : Contexts) × (make_process 40 layout roomy contexts 5 6 7 2000 512
        0 8
      ≡ done (p, w', s'))
    × ((s'.saved p).point ≡ entry 5 6 7 8)
    × (p + 32 + 968 ≤ (s'.saved p).ss_sp)
    × ((s'.saved p).ss_sp + (s'.saved p).ss_size ≤ p + block_len (w'.machine.procs p).index)
make_process-inside_example =
    make_process-inside 40 layout roomy contexts 5 6 7 2000 512 0 8 (omega arith) (omega arith)
      (omega arith) (omega arith)

abbrev places : ℕ → SyncPc
places = update (update (update (λ i. starting) 1 spinning) 0 spinning) 0 passed

-- Two units: unit 1 arrives, then unit 0, which goes on.
gathered_example :
    (ltb_ℤ (pos 0) (pos 0) ≡ ltb 0 (outstanding 2 places))
    × (((j : ℕ) → j < 2 → places j ≢ starting) ⊎ ((i : ℕ) → places i ≢ passed))
gathered_example = gathered {npun = 2} (
    next 0 (next 0 (next 1 begin (omega arith) refl arrive) (omega arith) refl arrive) (omega arith)
      refl (pass refl))

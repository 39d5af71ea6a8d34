-- ===== src/Context/Stacks.antt =====
-- The stack of a process lies in its block (make_process of sched.c, build_context of hardware.c).
use cxp.Common.{ℕ, ◌+◌, ◌-◌, ◌≤◌, ◌<◌, ◌^◌, ◌≡◌, refl, arith, ==-refl}
use cxp.Common.Outcome.{done}
use cxp.Memory.Blocks.{block_len}
use cxp.World.{World}
use cxp.Spawn.Records.{build_process-Built}
use cxp.Context.{Contexts, Layout, entry, rest_of_stack, build_context, make_process}

rest_lem : (n u : ℕ) → u ≤ n → n < 2 ^ 64 → rest_of_stack n u ≡ n - u
rest_lem n u h k = omega arith

-- The record with its stack fits into the block, which `build_process` has chosen for both: the stack of
-- the new context starts behind the place where the context itself is kept, and ends inside the
-- block of the process, if the stack has room for the context at all.
pub make_process-inside :
    (size : ℕ) (l : Layout) (w : World) (s : Contexts)
    (code arg1 arg2 stacksize pri pun user_args : ℕ)
    → stacksize + size ≤ 24576
    → 24576 ≤ w.memory.taillen
    → l.stack ≤ size
    → l.ucontext ≤ stacksize
    → (p : ℕ) × (w' : World) × (s' : Contexts) × (make_process size l w s code arg1 arg2 stacksize
          pri pun user_args
        ≡ done (p, w', s'))
      × ((s'.saved p).point ≡ entry code arg1 arg2 user_args)
      × (p + l.stack + l.ucontext ≤ (s'.saved p).ss_sp)
      × ((s'.saved p).ss_sp + (s'.saved p).ss_size ≤ p + block_len (w'.machine.procs p).index)
unfolding make_process build_context
make_process-inside size l w s code arg1 arg2 stacksize pri pun user_args fits room inside big =
    let (p, w', e, b) = build_process-Built size w stacksize pri pun fits room in
    let s' = build_context l s p stacksize code arg1 arg2 user_args in
    let class : stacksize + size ≤ block_len (w'.machine.procs p).index = b.class.fits in
    let rest = rest_lem stacksize l.ucontext big (omega (arith, fits)) in
    (
      p,
      w',
      s',
      rw e refl,
      rw (==-refl p) refl,
      rw (==-refl p) (omega arith),
      rw (==-refl p) (omega (arith, class, rest, inside)),
    )

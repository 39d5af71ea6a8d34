-- ===== src/Context.antt =====
-- The contexts of processes (hardware.c, make_process of sched.c): what `getcontext`, `makecontext`,
-- `swapcontext` and `setcontext` of the C library do with them is that a context that is loaded goes on
-- where it was saved. The registers are a number that the machine code changes.
pub mod Resuming
pub mod Stacks
use cxp.Common.{ℕ, ◌+◌, ◌-◌, ◌%◌, ◌^◌, update}
use cxp.Common.Outcome.{Outcome, done, ◌>>=◌}
use cxp.Memory.{Memory}
use cxp.World.{World}
use cxp.Spawn.{build_process}

-- Where a context goes on: at the start of a function with its arguments, or where it was saved.
pub data Point : Type 0 where
  entry : (code arg1 arg2 user_args : ℕ) → Point
  inside : (registers : ℕ) → Point

pub record UContext : Type 0 where
  pub ss_sp : ℕ
  pub ss_size : ℕ
  pub point : Point

-- `saved` is what stands at the start of each process's stack, `running` the context of each unit.
pub record Contexts : Type 0 where
  pub saved : ℕ → UContext
  pub running : ℕ → UContext

-- offsetof(Process, stack) and sizeof(ucontext_t)
pub record Layout : Type 0 where
  pub stack : ℕ
  pub ucontext : ℕ

-- `stacksize - sizeof(ucontext_t)`, in 64 bits.
abbrev pub rest_of_stack : ℕ → ℕ → ℕ
rest_of_stack stacksize ucontext = (stacksize + 2 ^ 64 - ucontext) % 2 ^ 64

unfoldable pub build_context : Layout → Contexts → ℕ → ℕ → ℕ → ℕ → ℕ → ℕ → Contexts
build_context l s proc stacksize code arg1 arg2 user_args = record s {
  saved = update s.saved proc (record {
    ss_sp = proc + l.stack + l.ucontext;
    ss_size = rest_of_stack stacksize l.ucontext;
    point = entry code arg1 arg2 user_args;
  });
}

-- `restore_context`, and `enable_and_resume` behind its `enable`.
unfoldable pub restore_context : Contexts → ℕ → ℕ → Contexts
restore_context s cpu proc = record s { running = update s.running cpu (s.saved proc) }

unfoldable pub switch_context : Contexts → ℕ → ℕ → ℕ → Contexts
unfolding restore_context
switch_context s cpu oldproc newproc =
    restore_context (record s { saved = update s.saved oldproc (s.running cpu) }) cpu newproc

-- The start of `handle_signal`: the interrupted context is copied to the current process's stack.
unfoldable pub save_interrupted : Contexts → ℕ → ℕ → Contexts
save_interrupted s cpu curr = record s { saved = update s.saved curr (s.running cpu) }

unfoldable pub switch_interrupt_context : Contexts → ℕ → ℕ → ℕ → Contexts
unfolding restore_context
switch_interrupt_context s cpu interrupted preempting = restore_context s cpu preempting

-- `set_stack`: the terminating process goes on in `code`, on the stack that is given.
unfoldable pub set_stack : Contexts → ℕ → ℕ → ℕ → ℕ → ℕ → Contexts
unfolding restore_context
set_stack s cpu proc stack stacksize code =
    restore_context
      (record s {
        saved =
            update s.saved proc
              (record { ss_sp = stack; ss_size = stacksize; point = entry code 0 0 0 });
      })
      cpu proc

-- `size` is sizeof(Process).
unfoldable pub make_process :
    ℕ → Layout → World → Contexts → ℕ → ℕ → ℕ → ℕ → ℕ → ℕ → ℕ → Outcome (ℕ × World × Contexts)
unfolding build_process build_context
make_process size l w s code arg1 arg2 stacksize pri pun user_args =
    build_process size w stacksize pri pun >>= λ r.
    done (r.0, r.1, build_context l s r.0 stacksize code arg1 arg2 user_args)

-- ===== src/Context/Resuming.antt =====
-- A process that has lost its unit goes on where it was (hardware.c).
use cxp.Common.{ℕ, ◌==◌, false, ◌≡◌, ◌≢◌, refl, sym, ◌∙◌, update, ==-refl, ==-ne}
use cxp.Context.{
  UContext, Contexts, Layout, build_context, restore_context, switch_context, save_interrupted,
  switch_interrupt_context, set_stack,
}

-- What the units do while process `p` has none: processes run, switch, are interrupted, are made, and
-- end. No other process uses the record of `p`, and no one gives `p` a unit.
pub data Meanwhile (p : ℕ) (s : Contexts) : Contexts → Type 0 where
  begin : Meanwhile p s s
  execute :
      {t : Contexts} (cpu : ℕ) (c : UContext)
      → Meanwhile p s t
      → Meanwhile p s (record t { running = update t.running cpu c })
  switch :
      {t : Contexts} (cpu a b : ℕ)
      → Meanwhile p s t
      → a ≢ p
      → Meanwhile p s (switch_context t cpu a b)
  interrupt :
      {t : Contexts} (cpu a : ℕ)
      → Meanwhile p s t
      → a ≢ p
      → Meanwhile p s (save_interrupted t cpu a)
  preempt :
      {t : Contexts} (cpu a b : ℕ)
      → Meanwhile p s t
      → Meanwhile p s (switch_interrupt_context t cpu a b)
  make :
      {t : Contexts} (l : Layout) (q stacksize code arg1 arg2 user_args : ℕ)
      → Meanwhile p s t
      → q ≢ p
      → Meanwhile p s (build_context l t q stacksize code arg1 arg2 user_args)
  end :
      {t : Contexts} (cpu a stack stacksize code : ℕ)
      → Meanwhile p s t
      → a ≢ p
      → Meanwhile p s (set_stack t cpu a stack stacksize code)

not_own : (a p : ℕ) → a ≢ p → (p == a) ≡ false
not_own a p ne = ==-ne p a (λ e. ne (sym e))

Meanwhile-saved : {p : ℕ} {s t : Contexts} → Meanwhile p s t → t.saved p ≡ s.saved p
unfolding build_context switch_context save_interrupted switch_interrupt_context set_stack
    restore_context
Meanwhile-saved begin = refl
Meanwhile-saved (execute cpu c r) = Meanwhile-saved r
Meanwhile-saved (switch cpu a b r ne) = rw (not_own a _ ne) (Meanwhile-saved r)
Meanwhile-saved (interrupt cpu a r ne) = rw (not_own a _ ne) (Meanwhile-saved r)
Meanwhile-saved (preempt cpu a b r) = Meanwhile-saved r
Meanwhile-saved (make l q n code x y z r ne) = rw (not_own q _ ne) (Meanwhile-saved r)
Meanwhile-saved (end cpu a stack n code r ne) = rw (not_own a _ ne) (Meanwhile-saved r)

-- How process `p` loses unit `cpu`: it switches to another process, or it is interrupted, which saves
-- its context at the start of `handle_signal`, and preempted at the end of the handler.
pub data Loses (p cpu : ℕ) (s : Contexts) : Contexts → Type 0 where
  by_switch : (q : ℕ) → Loses p cpu s (switch_context s cpu p q)
  by_preemption :
      (q : ℕ) → Loses p cpu s (switch_interrupt_context (save_interrupted s cpu p) cpu p q)

Loses-saved : {p cpu : ℕ} {s u : Contexts} → Loses p cpu s u → u.saved p ≡ s.running cpu
unfolding switch_context save_interrupted switch_interrupt_context restore_context
Loses-saved {p} (by_switch q) = rw (==-refl p) refl
Loses-saved {p} (by_preemption q) = rw (==-refl p) refl

-- A process that gives up its unit by `switch_context`, or that is interrupted and preempted, goes on
-- exactly where it was when it gets a unit again, by `switch_context`, by
-- `switch_interrupt_context` or by `restore_context`, whatever the units do in between without its
-- record.
pub resumes :
    (s t : Contexts) (cpu p cpu' r : ℕ) {u : Contexts}
    → Loses p cpu s u
    → r ≢ p
    → Meanwhile p u t
    → ((switch_context t cpu' r p).running cpu' ≡ s.running cpu)
      × ((switch_interrupt_context t cpu' r p).running cpu' ≡ s.running cpu)
      × ((restore_context t cpu' p).running cpu' ≡ s.running cpu)
unfolding switch_context switch_interrupt_context restore_context
resumes s t cpu p cpu' r lost ne' m =
    let kept : t.saved p ≡ s.running cpu = Meanwhile-saved m ∙ Loses-saved lost in
    (rw (==-refl cpu', not_own r p ne') kept, rw (==-refl cpu') kept, rw (==-refl cpu') kept)

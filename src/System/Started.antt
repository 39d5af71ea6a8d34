-- ===== src/System/Started.antt =====
-- The state that `initialize` leaves (sched.c).
use cxp.Common.{
  ℕ, zero, suc, ◌+◌, ◌≤◌, ◌<◌, ◌≡◌, ◌≢◌, refl, sym, subst, ◌∙◌, Bool, true, false, Bool-cases, inl,
  inr, none, some, arith, update, ◌==◌, ==-refl, ==-ne,
}
use cxp.Common.Outcome.{done}
use cxp.Machine.{Machine}
use cxp.Priority.{init_pri, idle_pri}
use cxp.Memory.Blocks.{block_len}
use cxp.Hardware.Wiring.{Boot}
use cxp.Hardware.Start.{init_processor-Boot}
use cxp.Ipq.Steps.{init_queue}
use cxp.System.{System, Config, idle_stack_size, activate_processor, start_units}
use cxp.System.Building.{Unused, built, placed, build_process-placed}

-- Unit `j` runs its idle process, whose record lies below `bound`, and nothing else is ready there.
pub record Idling (m : Machine) (bound j : ℕ) : Type 0 where
  pub class : ℕ
  pub process : m.procs (m.current j) ≡ built class idle_pri j
  pub runs : m.running j ≡ m.current j
  pub known : m.current_pri j ≡ idle_pri
  pub below : m.current j < bound
  pub alone : m.rdy_ques j ≡ none

-- Unit 0 runs the initial process, and its idle process is ready.
pub record Initial (m : Machine) (bound : ℕ) : Type 0 where
  pub idler : ℕ
  pub class : ℕ
  pub idle_class : ℕ
  pub process : m.procs (m.current 0) ≡ built class init_pri 0
  pub idle_process : m.procs idler ≡ built idle_class idle_pri 0
  pub runs : m.running 0 ≡ m.current 0
  pub known : m.current_pri 0 ≡ init_pri
  pub below : m.current 0 < idler
  pub idle_below : idler < bound
  pub waits : m.rdy_ques 0 ≡ some idler

-- The first `k` of the units have been started.
pub record Up (c : Config) (s : System) (k : ℕ) : Type 0 where
  pub memory : Unused s.world.memory
  pub first : Initial s.world.machine s.world.memory.tail
  pub others : (j : ℕ) → 1 ≤ j → j < k → Idling s.world.machine s.world.memory.tail j
  pub empty : (j : ℕ) → k ≤ j → j < c.npun → s.world.machine.rdy_ques j ≡ none
  pub inboxes : (j : ℕ) → j < c.npun → s.world.machine.ip_ques j ≡ init_queue
  pub live : ℕ → Bool
  pub set : ℕ → ℕ → Bool
  pub boot : Boot c.sigrtmin c.sigrtmax s.board live set
  pub started : (j : ℕ) → j < k → live j ≡ true
  pub dark : (j : ℕ) → k ≤ j → live j ≡ false

-- The machine after unit `k` was started with the process at `p`.
abbrev joined : Machine → ℕ → ℕ → ℕ → Machine
joined m p class k = record m {
  procs = update m.procs p (built class idle_pri k);
  current = update m.current k p;
  current_pri = update m.current_pri k idle_pri;
  running = update m.running k p;
}

module _ (m : Machine) (p class k n : ℕ) (lt : 0 < n) where
  Initial-joined : 1 ≤ k → Initial m p → Initial (joined m p class k) (p + n)
  Initial-joined g i =
      let apart : ◌≡◌ {A = Bool} (0 == k) false = ground (arith, g) in
      record {
        idler = i.idler;
        class = i.class;
        idle_class = i.idle_class;
        process =
            rw (apart, ==-ne (m.current 0) p (λ e. omega (arith, e, i.below, i.idle_below)))
              i.process;
        idle_process = rw (==-ne i.idler p (λ e. omega (arith, e, i.idle_below))) i.idle_process;
        runs = rw apart i.runs;
        known = rw apart i.known;
        below = rw apart i.below;
        idle_below = omega (arith, i.idle_below);
        waits = i.waits;
      }

  Idling-joined : (j : ℕ) → j ≢ k → Idling m p j → Idling (joined m p class k) (p + n) j
  Idling-joined j ne i =
      let apart = ==-ne j k ne in
      record {
        class = i.class;
        process = rw (apart, ==-ne (m.current j) p (λ e. omega (arith, e, i.below))) i.process;
        runs = rw apart i.runs;
        known = rw apart i.known;
        below = rw apart (omega (arith, i.below));
        alone = i.alone;
      }

  Idling-new : m.rdy_ques k ≡ none → Idling (joined m p class k) (p + n) k
  Idling-new e = record {
    class = class;
    process = rw (==-refl k, ==-refl p) refl;
    runs = rw (==-refl k) refl;
    known = rw (==-refl k) refl;
    below = rw (==-refl k) (omega (arith, lt));
    alone = e;
  }

module _ (c : Config) (small : idle_stack_size + c.size ≤ 24576) where
  -- One round of the loop.
  Up-next :
      (s : System) (k n : ℕ)
      → 1 ≤ k
      → k < c.npun
      → Up c s k
      → (s' : System) × (start_units c (suc n) k s ≡ start_units c n (suc k) s') × Up c s' (suc k)
  unfolding start_units activate_processor
  Up-next s k n g h u =
      let (class, pos, e, unused) =
        build_process-placed c.size s.world idle_stack_size idle_pri k small u.memory in
      let (b, set, eb, boot, defined, timers, count, unit0) =
        init_processor-Boot c.sigrtmin c.sigrtmax k u.boot (u.dark k (omega arith)) in
      let w = placed s.world class idle_pri k in
      let p = s.world.memory.tail in
      let m = s.world.machine in
      (
        record s { world = record w { machine = joined m p class k }; board = b },
        rw (start_units, e, activate_processor, eb) refl,
        record {
          memory = record { lists = unused.lists; room = unused.room };
          first = Initial-joined m p class k (block_len class) pos g u.first;
          others = λ j l l'. elim (Bool-cases (j == k)) [
            | inl same ↦
                let e : j ≡ k = ground arith in
                subst (λ x. Idling (joined m p class k) (p + block_len class) x) (sym e)
                  (Idling-new m p class k (block_len class) pos (u.empty k (omega arith) h))
            | inr apart ↦
                Idling-joined m p class k (block_len class) pos j (ground (arith, apart))
                  (u.others j l (ground (arith, l', apart)))
          ];
          empty = λ j l l'. u.empty j (omega (arith, l)) l';
          inboxes = u.inboxes;
          live = update u.live k true;
          set = set;
          boot = boot;
          started = λ j l. elim (Bool-cases (j == k)) [
            | inl same ↦ rw same refl
            | inr apart ↦ rw apart (u.started j (ground (arith, l, apart)))
          ];
          dark = λ j l. rw (==-ne j k (λ x. omega (arith, x, l))) (u.dark j (omega (arith, l)));
        },
      )

  -- The whole loop.
  pub Up-all :
      (n k : ℕ) (s : System)
      → 1 ≤ k
      → k + n ≡ c.npun
      → Up c s k
      → (s' : System) × (start_units c n k s ≡ done s') × Up c s' c.npun
  unfolding start_units
  Up-all zero k s g e u =
      let same : k ≡ c.npun = omega (arith, e) in (s, refl, subst (Up c s) same u)
  Up-all (suc n) k s g e u =
      let (s1, e1, u1) = Up-next s k n g (omega (arith, e)) u in
      let (s', e', u') = Up-all n (suc k) s1 (omega arith) (omega (arith, e)) u1 in
      (s', e1 ∙ e', u')

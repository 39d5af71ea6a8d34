-- ===== src/System/First.antt =====
-- The start of the first unit by `initialize` (sched.c).
use cxp.Common.{
  ℕ, ◌+◌, ◌≤◌, ◌<◌, ◌≡◌, refl, ap, ◌∙◌, false, none, some, arith, update, ==-refl, ==-ne, [],
}
use cxp.Common.Outcome.{Outcome, done, ◌>>=◌}
use cxp.Common.Chain.{list_fuel}
use cxp.Machine.{Machine, pri_of, pun_of}
use cxp.Priority.{init_pri, idle_pri}
use cxp.Ready.{enqueue0, insert, set_next}
use cxp.Ready.Order.{enqueue0_lem}
use cxp.Ipq.Steps.{init_queue}
use cxp.Sched.{set_current}
use cxp.Memory.Blocks.{block_len}
use cxp.Hardware.{Board, init_processor}
use cxp.Hardware.Wiring.{Boot}
use cxp.Hardware.Start.{init_processor-Boot}
use cxp.World.{World}
use cxp.Spawn.{build_process}
use cxp.System.{System, Config, idle_stack_size, activate_processor, start_first, set_machine}
use cxp.System.Building.{Unused, built, placed, build_process-placed}
use cxp.System.Started.{Up, Initial}

enqueue0-alone :
    (m : Machine) (p k : ℕ)
    → pun_of m p ≡ k
    → m.rdy_ques k ≡ none
    → enqueue0 m p
      ≡ record m { rdy_ques = update m.rdy_ques k (some p); procs = set_next m.procs p none }
unfolding list_fuel insert
enqueue0-alone m p k h e =
    enqueue0_lem m p []
      (record { chain = rw h e; distinct = tt; at = tt; sorted = tt; short = omega arith })
    ∙ ap {B = Machine}
        (λ (x : ℕ). record m {
          rdy_ques = update m.rdy_ques x (some p);
          procs = set_next m.procs p none;
        })
        h

-- The machine with the initial process at `p`, and the idle one at `q` in the ready queue.
abbrev opened : Machine → ℕ → ℕ → ℕ → ℕ → Machine
opened m p q class idle_class = record m {
  procs =
      set_next (update (update m.procs p (built class init_pri 0)) q (built idle_class idle_pri 0))
        q none;
  rdy_ques = update m.rdy_ques 0 (some q);
  current = update m.current 0 p;
  current_pri = update m.current_pri 0 init_pri;
  running = update m.running 0 p;
}

enqueue0-opened :
    (m : Machine) (p q class idle_class : ℕ)
    → m.rdy_ques 0 ≡ none
    → enqueue0
        (record m {
          procs =
              update (update m.procs p (built class init_pri 0)) q (built idle_class idle_pri 0);
          current = update m.current 0 p;
          current_pri = update m.current_pri 0 init_pri;
          running = update m.running 0 p;
        })
        q
      ≡ opened m p q class idle_class
enqueue0-opened m p q class idle_class e = enqueue0-alone _ q 0 (rw (pun_of, ==-refl q) refl) e

opened-Initial :
    (m : Machine) (p n class idle_class bound : ℕ)
    → 0 < n
    → p + n < bound
    → Initial (opened m p (p + n) class idle_class) bound
unfolding set_next
opened-Initial m p n class idle_class bound pos lt =
    let apart = ==-ne p (p + n) (λ e. omega (arith, e, pos)) in
    record {
      idler = p + n;
      class = class;
      idle_class = idle_class;
      process = rw (apart, ==-refl p) refl;
      idle_process = rw (==-refl (p + n)) refl;
      runs = refl;
      known = refl;
      below = omega (arith, pos);
      idle_below = lt;
      waits = refl;
    }

pub then_done :
    {A : Type 0} {B : Type 0} {x : Outcome A} (a : A) (f : A → Outcome B) {y : Outcome B}
    → x ≡ done a
    → f a ≡ y
    → (x >>= f) ≡ y
then_done a f e h = ap (λ z. z >>= f) e ∙ h

activate_processor-done :
    (c : Config) (s : System) (k p : ℕ) (b : Board)
    → init_processor c.sigrtmin c.sigrtmax s.board k ≡ done b
    → activate_processor c s k p
      ≡ done
          (record (set_machine s
            (record s.world.machine { running = update s.world.machine.running k p })) {
              board = b;
            })
unfolding activate_processor
activate_processor-done c s k p b e = then_done b _ e refl

set_current-done :
    (m : Machine) (k p v : ℕ)
    → pun_of m p ≡ k
    → pri_of m p ≡ v
    → set_current m k p
      ≡ done (record m { current = update m.current k p; current_pri = update m.current_pri k v })
unfolding set_current
set_current-done m k p v h e = rw (h, ==-refl k, e) refl

-- The start of the first unit, on a system whose modules are initialized.
pub start_first-Up :
    (c : Config) (s : System) (istacksize : ℕ)
    → idle_stack_size + c.size ≤ 24576
    → istacksize + c.size ≤ 24576
    → Unused s.world.memory
    → ((k : ℕ) → k < c.npun → s.world.machine.rdy_ques k ≡ none)
    → ((k : ℕ) → k < c.npun → s.world.machine.ip_ques k ≡ init_queue)
    → 0 < c.npun
    → Boot c.sigrtmin c.sigrtmax s.board (λ q. false) (λ q n. false)
    → (s' : System) × (start_first c s istacksize ≡ done s') × Up c s' 1
unfolding start_first
start_first-Up c s istacksize idle_fits fits unused rdy inbox units boot0 =
    let w = s.world in
    let p = w.memory.tail in
    let m = w.machine in
    let (class, pos, e, u) = build_process-placed c.size w istacksize init_pri 0 fits unused in
    let (b, set, eb, boot, defined, timers, count, unit0) =
      init_processor-Boot c.sigrtmin c.sigrtmax 0 boot0 refl in
    let w1 = placed w class init_pri 0 in
    let w2 = record w1 {
      machine = record w1.machine {
        current = update m.current 0 p;
        current_pri = update m.current_pri 0 init_pri;
        running = update m.running 0 p;
      };
    } in
    let (idle_class, idle_pos, e', u') =
      build_process-placed c.size w2 idle_stack_size idle_pri 0 idle_fits
        (record { lists = u.lists; room = u.room }) in
    let q = w2.memory.tail in
    let w3 = placed w2 idle_class idle_pri 0 in
    let m1 = record w1.machine { running = update m.running 0 p } in
    let s1 : System = record s { world = record w1 { machine = m1 }; board = b } in
    let ready = λ (t : System) (r : ℕ × World).
      done (record t { world = record r.1 { machine = enqueue0 r.1.machine r.0 } }) in
    let with_idler = λ (t : System) (x : Machine).
      (build_process c.size (record t.world { machine = x }) idle_stack_size idle_pri 0
        >>= ready t) in
    let with_current = λ (a : ℕ) (t : System). (set_current t.world.machine 0 a >>= with_idler t) in
    (
      record s { world = record w3 { machine = opened m p q class idle_class }; board = b },
      then_done _ (λ r. activate_processor c (record s { world = r.1 }) 0 r.0 >>= with_current r.0)
          e
          (then_done _ (with_current p)
            (activate_processor-done c (record s { world = w1 }) 0 p b eb)
            (then_done _ (with_idler s1)
              (set_current-done m1 0 p init_pri (rw (pun_of, ==-refl p) refl)
                (rw (pri_of, ==-refl p) refl))
              (then_done _ (ready s1) e' (
                ap (λ (x : Machine). done (record s1 { world = record w3 { machine = x } }))
                  (enqueue0-opened m p q class idle_class (rdy 0 units)))))),
      record {
        memory = record { lists = u'.lists; room = u'.room };
        first =
            opened-Initial m p (block_len class) class idle_class _ pos (omega (arith, idle_pos));
        others = λ j l l'. absurd (omega (arith, l, l'));
        empty = λ j l l'. rw (==-ne j 0 (λ x. omega (arith, x, l))) (rdy j l');
        inboxes = inbox;
        live = _;
        set = set;
        boot = boot;
        started = λ j l. let z : j ≡ 0 = omega (arith, l) in rw z refl;
        dark = λ j l. rw (==-ne j 0 (λ x. omega (arith, x, l))) refl;
      },
    )

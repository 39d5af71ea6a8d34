-- ===== src/Examples/Interrupted.antt =====
-- An instance of the theorem about the timeout interrupt.
use cxp.Common.{none, some, false, if◌then◌else◌, ◌==◌, ◌≡◌, refl, inr, [], ◌∷◌, arith, update}
use cxp.Common.Int.{pos}
use cxp.Common.Outcome.{done}
use cxp.Common.Chain.{list_fuel}
use cxp.Machine.{Machine, alt_waiting}
use cxp.Sched.View.{Cpu}
use cxp.World.{World}
use cxp.Alarm.Waking.{Handling}
use cxp.Examples.Machines.{machine, world, empty_queue, timers-Timeouts, machine-Cpu, machine-Inbox}
use cxp.Sched.{handle_interprocessor_interrupt}
use cxp.Sched.Consuming.{Consumed, handle_interprocessor_interrupt-Consumed}
use cxp.Alarm.Freeing.{Away}
use cxp.System.{System, handle_interrupt}
use cxp.System.Serving.{Served}
use cxp.System.Dispatch.{waiting_for, handle_interrupt-Served}
use cxp.Examples.Boards.{off}

-- Process 2 waits in an alternation, and its timeout is due at 55.
abbrev pub alting_machine : Machine
alting_machine = record machine {
  procs = update machine.procs 2 (record (machine.procs 2) { alt_state = alt_waiting });
  ip_ques = λ k. empty_queue;
}

abbrev alting_world : World
alting_world = record world { machine = alting_machine }

pub alting-Handling : Handling alting_machine 0 [] (9 ∷ [])
unfolding list_fuel
alting-Handling = record {
  unit = record {
    queue = record {
      chain = (refl, refl);
      distinct = (tt, tt);
      at = (refl, tt);
      sorted = (tt, tt);
      short = omega arith;
    };
    home = refl;
    away = ((λ e. absurd (omega (arith, e))), tt);
    runs = refl;
    known = refl;
  };
  inbox = record {
    holds = record { rem = omega arith; room = omega arith; end = refl; slot = λ i h. refl };
    at = tt;
    distinct = tt;
    apart = tt;
  };
}

alting-Cpu : Cpu alting_machine 0 (9 ∷ [])
alting-Cpu = record {
  queue = alting-Handling.unit.queue;
  home = refl;
  away = alting-Handling.unit.away;
  top = (omega arith, tt);
  runs = refl;
  known = refl;
}

-- Process 2 also waits for interrupt 0 of unit 0.
abbrev expecting : System
expecting = record {
  world = alting_world;
  receivers = λ k n. (if k == 0 then some 2 else none);
  board = off;
  termination = λ k. false;
}

process-Away : Away alting_machine 0 [] (9 ∷ []) 2
process-Away = record {
  at = refl;
  idle = λ e. absurd (omega (arith, e));
  inbox = tt;
  queue = ((λ e. absurd (omega (arith, e))), tt);
}

handle_interrupt-Served_example :
    (s' : System) × (handle_interrupt expecting 0 (pos 55) 3 ≡ done s')
    × Served alting_machine s'.world.machine 0
        (waiting_for expecting 0 (pos 55) (800 ∷ 850 ∷ []) 3)
        []
        (9 ∷ [])
unfolding list_fuel
handle_interrupt-Served_example =
    handle_interrupt-Served expecting 0 3 (pos 55) [] (9 ∷ []) (800 ∷ 850 ∷ []) alting-Cpu
      alting-Handling.inbox tt timers-Timeouts (inr refl, (inr refl, tt)) (tt, tt)
      (process-Away, tt) (omega arith)

handle_interprocessor_interrupt-Consumed_example :
    (m' : Machine) × (handle_interprocessor_interrupt machine 0 ≡ done m')
    × Consumed machine m' 0 (2 ∷ []) (9 ∷ [])
unfolding list_fuel
handle_interprocessor_interrupt-Consumed_example =
    handle_interprocessor_interrupt-Consumed machine 0 (2 ∷ []) (9 ∷ []) machine-Cpu machine-Inbox
      ((λ e. absurd (omega (arith, e))), tt) (omega arith)

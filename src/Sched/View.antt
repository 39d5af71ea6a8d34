-- ===== src/Sched/View.antt =====
-- The processes of a unit: the one that runs, and the ready ones, of which none has a higher
-- priority.
use cxp.Common.{ℕ, ◌≤◌, ◌≡◌, List, All, Fresh}
use cxp.Machine.{Machine, pri_of, pun_of}
use cxp.Ready.Order.{Ready, value_of}

pub record Cpu (m : Machine) (k : ℕ) (ps : List ℕ) : Type 0 where
  pub queue : Ready m k ps
  pub home : pun_of m (m.current k) ≡ k
  pub away : Fresh (m.current k) ps
  pub top : All (λ q. value_of m (m.current k) ≤ value_of m q) ps
  pub runs : m.running k ≡ m.current k
  pub known : m.current_pri k ≡ pri_of m (m.current k)

pub Ready-keep :
    (m m' : Machine) (k : ℕ) (ps : List ℕ)
    → m.procs ≡ m'.procs
    → m.rdy_ques k ≡ m'.rdy_ques k
    → Ready m k ps
    → Ready m' k ps
Ready-keep m m' k ps e h r = record {
  chain = rw (← e, ← h) r.chain;
  distinct = r.distinct;
  at = rw (← e) r.at;
  sorted = rw (← e) r.sorted;
  short = r.short;
}

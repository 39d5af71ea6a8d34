-- ===== src/Spawn/Room.antt =====
-- A new process record leaves the unit as it is (build_process of sched.c).
use cxp.Common.{
  ℕ, ◌≤◌, ◌≡◌, ◌≢◌, refl, sym, subst, ◌∙◌, ap, Option, arith, update, List, ◌∷◌, [], All, Fresh,
  ==-ne, fun_ext,
}
use cxp.Common.Insertion.{Sorted}
use cxp.Common.Chain.{Chain, Chain-update}
use cxp.Machine.{Process, Machine, next_of}
use cxp.Priority.{pri_value}
use cxp.Ready.Order.{Ready, value_of}
use cxp.Sched.View.{Cpu}

module _ (m : Machine) (p : ℕ) (v : Process) where
  abbrev pub placed : Machine
  placed = record m { procs = update m.procs p v }

  pub placed_other : (q : ℕ) → p ≢ q → placed.procs q ≡ m.procs q
  placed_other q ne = rw (==-ne q p (λ e. ne (sym e))) refl

  placed_next : next_of placed ≡ update (next_of m) p v.next
  placed_next = fun_ext λ q. ground arith

  All-placed {κ} :
      (P : Process → Type κ) (ps : List ℕ)
      → Fresh p ps
      → All (λ q. P (m.procs q)) ps
      → All (λ q. P (placed.procs q)) ps
  All-placed P [] f a = tt
  All-placed P (q ∷ ps) f a = (subst P (sym (placed_other q f.0)) a.0, All-placed P ps f.1 a.1)

  below_placed :
      (c : ℕ) (ps : List ℕ)
      → p ≢ c
      → Fresh p ps
      → All (λ q. value_of m c ≤ value_of m q) ps
      → All (λ q. value_of placed c ≤ value_of placed q) ps
  below_placed c ps ne f a =
      subst (λ (x : Process). All (λ q. pri_value x.pri ≤ value_of placed q) ps)
        (sym (placed_other c ne)) (All-placed (λ x. value_of m c ≤ pri_value x.pri) ps f a)

  Sorted-placed : (ps : List ℕ) → Fresh p ps → Sorted (value_of m) ps → Sorted (value_of placed) ps
  Sorted-placed [] f s = tt
  Sorted-placed (q ∷ ps) f s = (below_placed q ps f.0 f.1 s.0, Sorted-placed ps f.1 s.1)

  module _ (k : ℕ) (ps : List ℕ) where
    Ready-placed : Fresh p ps → Ready m k ps → Ready placed k ps
    Ready-placed f r = record {
      chain =
          subst (λ (g : ℕ → Option ℕ). Chain g (m.rdy_ques k) ps) (sym placed_next)
            (Chain-update (next_of m) p v.next (m.rdy_ques k) ps f r.chain);
      distinct = r.distinct;
      at = All-placed (λ x. x.pun ≡ k) ps f r.at;
      sorted = Sorted-placed ps f r.sorted;
      short = r.short;
    }

    pub Cpu-placed : Fresh p (m.current k ∷ ps) → Cpu m k ps → Cpu placed k ps
    Cpu-placed f c =
        let same = placed_other (m.current k) f.0 in
        record {
          queue = Ready-placed f.1 c.queue;
          home = ap (λ (x : Process). x.pun) same ∙ c.home;
          away = c.away;
          top = below_placed (m.current k) ps f.0 f.1 c.top;
          runs = c.runs;
          known = c.known ∙ sym (ap (λ (x : Process). x.pri) same);
        }

-- ===== src/Sched/Replacing.antt =====
-- The current process is replaced by another ready one, and stays ready (sched.c).
use mathlib.Core.List.{Perm}
use cxp.Common.{
  ℕ, ◌+◌, ◌≤◌, ◌<◌, ◌≡◌, ◌≢◌, refl, sym, subst, ap, ◌∙◌, none, some, arith, update, length, List,
  ◌∷◌, [], Fresh, ==-refl, take_while, drop_while, take-append-drop_while,
}
use cxp.Common.Insertion.{Fresh-insert}
use cxp.Common.Outcome.{done}
use cxp.Common.Chain.{list_fuel}
use cxp.Machine.{Machine, pri_of, pun_of}
use cxp.Priority.{pri_le}
use cxp.Ready.{enqueue0}
use cxp.Ready.Order.{Ready, enqueued, enqueue0-Ready}
use cxp.Sched.{pop1, set_current, switch_context, yield_to}
use cxp.Sched.View.{Ready-keep}
use cxp.Sched.Preempt.{enqueue0-rest, pri_of-enqueue0, pun_of-enqueue0, registers, insert-perm}
use cxp.Sched.Interrupted.{Interrupted}

module _ (d : Machine) (k p q : ℕ) (rest : List ℕ) (r : Ready d k (p ∷ q ∷ rest)) where
  abbrev pub popped : Machine
  popped = record d { rdy_ques = update d.rdy_ques k (some q) }

  pub pop1-some : pop1 d k ≡ (some p, popped)
  unfolding pop1
  pop1-some = rw (r.chain.0, pop1, r.chain.1.0) refl

  pub popped-Ready : Ready popped k (q ∷ rest)
  popped-Ready = record {
    chain = (rw (==-refl k) refl, r.chain.1.1);
    distinct = r.distinct.1;
    at = r.at.1;
    sorted = r.sorted.1;
    short = omega (arith, r.short);
  }

pub pop1-none :
    (d : Machine) (k : ℕ) (qs : List ℕ) → Ready d k qs → length qs ≤ 1 → pop1 d k ≡ (none, d)
unfolding pop1
pop1-none d k [] r l = rw (pop1, r.chain) refl
pop1-none d k (p ∷ []) r l = rw (r.chain.0, pop1, r.chain.1) refl
pop1-none d k (p ∷ q ∷ qs) r l = absurd (omega (arith, l))

-- The machine after `p` was taken and has replaced `old`, which is ready.
pub replaced : Machine → ℕ → ℕ → ℕ → Machine
unfolding switch_context
replaced e k old p =
    switch_context
      (enqueue0
        (record e {
          current = update e.current k p;
          current_pri = update e.current_pri k (pri_of e p);
        })
        old)
      k p

pub yield_to-some :
    (e : Machine) (k old p : ℕ)
    → pun_of e p ≡ k
    → yield_to old (some p, e) k ≡ done (replaced e k old p)
unfolding yield_to set_current replaced
yield_to-some e k old p h = rw (h, ==-refl k) refl

pub replaced-Interrupted :
    (e : Machine) (k old p : ℕ) (qs : List ℕ)
    → Ready e k qs
    → pun_of e p ≡ k
    → pun_of e old ≡ k
    → p ≢ old
    → Fresh p qs
    → Fresh old qs
    → length qs + 1 < list_fuel
    → (ready : List ℕ) × Interrupted (replaced e k old p) k ready
      × Perm ((replaced e k old p).current k ∷ ready) (old ∷ p ∷ qs)
      × ((replaced e k old p).current k ≡ p)
      × ((replaced e k old p).ip_ques ≡ e.ip_ques)
unfolding replaced switch_context
replaced-Interrupted e k old p qs r hp ho ne fp fo len =
    let e1 = record e {
      current = update e.current k p;
      current_pri = update e.current_pri k (pri_of e p);
    } in
    let t = λ (x : ℕ). pri_le (pri_of e1 old) (pri_of e1 x) in
    let split = take-append-drop_while t qs in
    let (ce, ru, kn) = registers e1 old k in
    let here : (enqueue0 e1 old).current k ≡ p = ce ∙ rw (==-refl k) refl in
    (
      enqueued e1 old qs,
      record {
        queue = Ready-keep (enqueue0 e1 old) _ k _ refl refl (
            subst (λ j. Ready (enqueue0 e1 old) j (enqueued e1 old qs)) ho
              (enqueue0-Ready e1 old qs
                (subst (λ j. Ready e1 j qs) (sym ho) (Ready-keep e e1 k qs refl refl r)) fo len));
        home = rw (here, pun_of-enqueue0 e1 old) hp;
        away = rw here (Fresh-insert p old (take_while t qs) (drop_while t qs) ne (rw split fp));
        runs = rw (==-refl k) (sym here);
        known = rw (here, pri_of-enqueue0 e1 old) (kn ∙ rw (==-refl k) refl);
      },
      rw here (insert-perm old p _ _ qs split),
      here,
      ap (λ (x : Machine). x.ip_ques) (enqueue0-rest e1 old),
    )

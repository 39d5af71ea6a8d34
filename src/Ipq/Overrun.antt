-- ===== src/Ipq/Overrun.antt =====
-- Two units that add, which takes three processing units: nextAdd may go round between the test that the
-- queue is not full and the compare-exchange of nextAdd (ipq.m).
use cxp.Common.{
  ℕ, suc, ◌+◌, ◌<◌, ◌≡◌, ◌≢◌, refl, ap, arith, ◌∙◌, none, some, update, ==-refl, ==-ne,
}
use cxp.Ipq.{next_slot}
use cxp.Ipq.Steps.{Traffic, AddPc, RemPc, AddMove, RemMove, Units, Step, Reach, init_units}

-- Moves of one unit, with no other between them.
data AddMoves (t : Traffic) (a : AddPc) : Traffic → AddPc → Type 0 where
  stop : AddMoves t a t a
  move : {u v : Traffic} {b c : AddPc} → AddMoves t a u b → AddMove u b v c → AddMoves t a v c

-- The moves are an interleaving of the whole system.
AddMoves-Reach :
    (n i : ℕ) (u : Units) {s : Traffic} {a : AddPc} {t : Traffic} {b : AddPc}
    → i < n
    → Reach n u
    → u.traffic ≡ s
    → u.adders i ≡ a
    → AddMoves s a t b
    → (v : Units) × Reach n v
      × (v.traffic ≡ t)
      × (v.adders i ≡ b)
      × ((j : ℕ) → j ≢ i → v.adders j ≡ u.adders j)
      × (v.remover ≡ u.remover)
AddMoves-Reach n i u l r p q AddMoves.stop = (u, r, p, q, λ j g. refl, refl)
AddMoves-Reach n i u l r p q (AddMoves.move {c} ms m) =
    let (v, rv, et, ea, eo, er) = AddMoves-Reach n i u l r p q ms in
    (
      _,
      Reach.next rv (Step.adds i {p = c} l (rw (et, ea) m)),
      refl,
      rw (==-refl i) refl,
      λ j g. rw (==-ne j i g) (eo j g),
      er,
    )

abbrev pub entered : Traffic → ℕ → Traffic
entered t p = record t {
  queue = record t.queue {
    next_add = next_slot t.queue.next_add;
    que = update t.queue.que t.queue.next_add (some p);
  };
  log = update t.log t.added p;
  added = suc t.added;
}

-- `ipq_add` up to the compare-exchange.
checked :
    (t : Traffic) (p : ℕ)
    → t.queue.next_rem ≢ next_slot t.queue.next_add
    → AddMoves t AddPc.outside t (AddPc.claiming p t.queue.next_add)
checked t p g =
    AddMoves.move
      (AddMoves.move (AddMoves.move (AddMoves.move AddMoves.stop (AddMove.call p)) AddMove.load_add)
        AddMove.load_rem)
      (AddMove.nonfull g)

-- The rest of it.
written :
    (t : Traffic) (p : ℕ)
    → AddMoves t (AddPc.claiming p t.queue.next_add) (entered t p) AddPc.outside
written t p = AddMoves.move (AddMoves.move AddMoves.stop (AddMove.cas_win refl)) AddMove.store

joined :
    {t u : Traffic} {a b : AddPc} {v : Traffic} {c : AddPc}
    → AddMoves t a u b
    → AddMoves u b v c
    → AddMoves t a v c
joined ms AddMoves.stop = ms
joined ms (AddMoves.move ns n) = AddMoves.move (joined ms ns) n

-- An undisturbed `ipq_add` that has room.
add_run :
    (t : Traffic) (p : ℕ)
    → t.queue.next_rem ≢ next_slot t.queue.next_add
    → AddMoves t AddPc.outside (entered t p) AddPc.outside
add_run t p g = joined (checked t p g) (written t p)

abbrev pub taken : Traffic → ℕ → Traffic
taken t p = record t {
  queue = record t.queue {
    next_rem = next_slot t.queue.next_rem;
    que = update t.queue.que t.queue.next_rem none;
  };
  out = update t.out t.removed p;
  removed = suc t.removed;
}

-- An undisturbed `ipq_remove` that finds process `p`.
remove_run :
    (n p : ℕ) (u : Units)
    → u.remover ≡ RemPc.idle
    → u.traffic.queue.next_add ≢ u.traffic.queue.next_rem
    → u.traffic.queue.que u.traffic.queue.next_rem ≡ some p
    → Reach n u
    → Reach n (record u { traffic = taken u.traffic p; remover = RemPc.idle })
remove_run n p u e g f r =
    Reach.next
      (Reach.next
        (Reach.next
          (Reach.next
            (Reach.next r (
              Step.removes {t = u.traffic} {p = RemPc.at_rem u.traffic.queue.next_rem}
                (rw e RemMove.load_rem)))
            (Step.removes RemMove.load_add))
          (Step.removes (RemMove.nonempty g)))
        (Step.removes RemMove.exchange))
      (Step.removes (rw f RemMove.advance))

abbrev pub filled : ℕ → ℕ → ℕ → ℕ → Traffic
filled q0 q1 q2 q3 = entered (entered (entered (entered init_units.traffic q0) q1) q2) q3

four_more :
    (q0 q1 q2 q3 : ℕ) → AddMoves init_units.traffic AddPc.outside (filled q0 q1 q2 q3) AddPc.outside
unfolding next_slot
four_more q0 q1 q2 q3 =
    joined
      (joined (joined (add_run _ q0 (omega arith)) (add_run _ q1 (omega arith)))
        (add_run _ q2 (omega arith)))
      (add_run _ q3 (omega arith))

-- For any six processes there is an interleaving with two adding units after which all units are
-- outside of the operations, five entries wait and fill all slots, and nextAdd equals nextRem, so that
-- `ipq_remove` finds the queue empty.
pub overrun :
    (p q0 q1 q2 q3 q4 : ℕ)
    → (u : Units) × Reach 2 u
      × (u.adders 0 ≡ AddPc.outside)
      × (u.adders 1 ≡ AddPc.outside)
      × (u.remover ≡ RemPc.idle)
      × (u.traffic ≡ entered (entered (taken (filled q0 q1 q2 q3) q0) q4) p)
      × (u.traffic.added ≡ u.traffic.removed + 5)
      × (u.traffic.queue.next_add ≡ u.traffic.queue.next_rem)
      × ((s : ℕ) → s < 5 → u.traffic.queue.que s ≢ none)
unfolding next_slot
overrun p q0 q1 q2 q3 q4 =
    let (u1, r1, t1, a1, o1, f1) =
      AddMoves-Reach 2 0 init_units (omega arith) Reach.initial refl refl
        (checked init_units.traffic p (omega arith)) in
    let (u2, r2, t2, a2, o2, f2) =
      AddMoves-Reach 2 1 u1 (omega arith) r1 t1 (o1 1 (omega arith)) (four_more q0 q1 q2 q3) in
    let r3 = remove_run 2 q0 u2 (f2 ∙ f1) (rw t2 (omega arith)) (rw t2 refl) r2 in
    let (u4, r4, t4, a4, o4, f4) =
      AddMoves-Reach 2 1 _ (omega arith) r3 (ap (λ t. taken t q0) t2) a2
        (add_run _ q4 (omega arith)) in
    let (u5, r5, t5, a5, o5, f5) =
      AddMoves-Reach 2 0 u4 (omega arith) r4 t4 (o4 0 (omega arith) ∙ o2 0 (omega arith) ∙ a1)
        (written _ p) in
    (
      u5,
      r5,
      a5,
      o5 1 (omega arith) ∙ a4,
      f5 ∙ f4,
      t5,
      rw t5 refl,
      rw t5 refl,
      rw t5 (ground (arith)),
    )

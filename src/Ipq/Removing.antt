-- ===== src/Ipq/Removing.antt =====
-- The accesses of `ipq_remove` and the invariant of a queue with one unit that adds (ipq.m).
use cxp.Common.{
  Bool-cases, inl, inr, leb, leb-le, leb-gt, ==-ne, ==-refl, ℕ, suc, ◌+◌, ◌%◌, ◌≤◌, ◌<◌, ◌≡◌, ◌≢◌,
  refl, sym, ap, ◌∙◌, Option, none, some, arith, update, ◌==◌,
}
use mathlib.Core.Option.{some-injective, none-ne-some}
use cxp.Ipq.{next_slot}
use cxp.Ipq.Steps.{Traffic, AddPc, RemPc, RemMove}
use cxp.Ipq.Invariant.{pending, AddKnows, Inv, next_slot_mod, knows-Inv}

AddKnows-suc : (n m : ℕ) (log : ℕ → ℕ) (a : AddPc) → AddKnows n m log a → AddKnows n (suc m) log a
AddKnows-suc n m log AddPc.outside k = tt
AddKnows-suc n m log (AddPc.begin p) k = tt
AddKnows-suc n m log (AddPc.got_add p a) k = k
AddKnows-suc n m log (AddPc.got_rem p a r) (ea, old, er, l, h) = (ea, old, er, omega (arith, l), h)
AddKnows-suc n m log (AddPc.claiming p a) k = (k.0, omega (arith, k.1))
AddKnows-suc n m log (AddPc.storing p a) k = k

pending-le : (a : AddPc) → pending a ≤ 1
pending-le AddPc.outside = omega arith
pending-le (AddPc.begin p) = omega arith
pending-le (AddPc.got_add p a) = omega arith
pending-le (AddPc.got_rem p a r) = omega arith
pending-le (AddPc.claiming p a) = omega arith
pending-le (AddPc.storing p a) = omega arith

module _ (t : Traffic) (a : AddPc) where
  -- The slot holds the next entry of the log, unless that one is not written yet.
  found-log :
      (r q : ℕ)
      → t.queue.que r ≡ some q
      → Inv t a (RemPc.exchanging r)
      → (t.removed + pending a < t.added) × (t.log t.removed ≡ q)
  found-log r q f v = elim (Bool-cases (leb t.added (t.removed + pending a))) [
    | inl e ↦
        let gone = v.blank t.removed (leb-le _ _ e) (omega arith) in
        absurd (none-ne-some _ (sym gone ∙ ap t.queue.que (sym v.remover.0) ∙ f))
    | inr e ↦
        let l = leb-gt _ _ e in
        let here = v.slots t.removed (omega arith) l in
        (l, some-injective _ _ (sym here ∙ ap t.queue.que (sym v.remover.0) ∙ f))
  ]

  -- What the exchange finds in the slot.
  exchanged-Inv :
      (r : ℕ) (found : Option ℕ)
      → t.queue.que r ≡ found
      → Inv t a (RemPc.exchanging r)
      → Inv
          (record t { queue = record t.queue { que = update t.queue.que r none } })
          a
          (RemPc.got r found)
  exchanged-Inv r none f v = record {
    add_slot = v.add_slot;
    rem_slot = v.rem_slot;
    counts = v.counts;
    room = v.room;
    slots = λ i g h. elim (Bool-cases (i % 5 == r)) [
      | inl e ↦
          let same : i % 5 ≡ r = ground arith in
          absurd (none-ne-some _ (sym f ∙ ap t.queue.que (sym same) ∙ v.slots i g h))
      | inr e ↦ rw e (v.slots i g h)
    ];
    blank = λ i g h. elim (Bool-cases (i % 5 == r)) [
      | inl e ↦ rw e refl
      | inr e ↦ rw e (v.blank i g h)
    ];
    order = v.order;
    adder = v.adder;
    remover = tt;
  }
  exchanged-Inv r (some q) f v =
      let (l, same_log) = found-log r q f v in
      record {
        add_slot = v.add_slot;
        rem_slot = v.rem_slot;
        counts = omega (arith, l);
        room = v.room;
        slots = λ i g h.
            rw (==-ne (i % 5) r (λ x. omega (arith, x, v.remover.0, g, h, v.room)))
              (v.slots i (omega (arith, g)) h);
        blank = λ i g h. elim (Bool-cases (i % 5 == r)) [
          | inl e ↦ rw e refl
          | inr e ↦ rw e (v.blank i g (ground (arith, e, h, v.remover.0)))
        ];
        order = v.order;
        adder = v.adder;
        remover = (v.remover.0, same_log);
      }

  advanced-Inv :
      (r p : ℕ)
      → Inv t a (RemPc.got r (some p))
      → Inv
          (record t {
            queue = record t.queue { next_rem = next_slot r };
            out = update t.out t.removed p;
            removed = suc t.removed;
          })
          a
          RemPc.idle
  advanced-Inv r p v = record {
    add_slot = v.add_slot;
    rem_slot = next_slot_mod t.removed r v.remover.0;
    counts = omega (arith, v.counts);
    room = omega (arith, v.room);
    slots = λ i g h. v.slots i (omega (arith, g)) h;
    blank = λ i g h. v.blank i g (omega (arith, h));
    order = λ i g. elim (Bool-cases (i == t.removed)) [
      | inl e ↦
          let same : i ≡ t.removed = ground arith in rw (same, ==-refl t.removed) (sym v.remover.1)
      | inr e ↦ rw e (v.order i (ground (arith, g, e)))
    ];
    adder = AddKnows-suc t.added t.removed t.log a v.adder;
    remover = tt;
  }

  pub RemMove-Inv : {r r' : RemPc} {t' : Traffic} → RemMove t r t' r' → Inv t a r → Inv t' a r'
  RemMove-Inv RemMove.load_rem v = knows-Inv v refl refl v.adder v.rem_slot
  RemMove-Inv RemMove.load_add v =
      knows-Inv v refl refl v.adder
        (v.remover, t.added, v.add_slot, omega (arith, v.counts), omega arith)
  RemMove-Inv (RemMove.empty e) v = knows-Inv v refl refl v.adder tt
  RemMove-Inv (RemMove.nonempty {r} {a = b} e) v =
      let (er, old, eb, l, h) = v.remover in
      knows-Inv v refl refl v.adder (er, later r b old er eb l h e)
    where
      later :
          (r b old : ℕ)
          → r ≡ t.removed % 5
          → b ≡ old % 5
          → t.removed ≤ old
          → old ≤ t.added
          → b ≢ r
          → t.removed < t.added
      later r b old er eb l h ne = elim (Bool-cases (leb t.added t.removed)) [
        | inl e ↦ absurd (ne (eb ∙ omega (arith, leb-le _ _ e, l, h) ∙ sym er))
        | inr e ↦ leb-gt _ _ e
      ]
  RemMove-Inv (RemMove.exchange {r}) v = exchanged-Inv r (t.queue.que r) refl v
  RemMove-Inv RemMove.not_yet v = knows-Inv v refl refl v.adder tt
  RemMove-Inv (RemMove.advance {r} {p}) v = advanced-Inv r p v

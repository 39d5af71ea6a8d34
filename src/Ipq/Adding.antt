-- ===== src/Ipq/Adding.antt =====
-- The accesses of `ipq_add` and the invariant of a queue with one unit that adds (ipq.m).
use cxp.Common.{
  Bool-cases, inl, inr, ==-ne, ==-refl, ℕ, suc, ◌%◌, ◌<◌, ◌≡◌, refl, some, arith, update, ◌==◌,
}
use cxp.Ipq.{next_slot}
use cxp.Ipq.Steps.{Traffic, AddPc, RemPc, AddMove}
use cxp.Ipq.Invariant.{Inv, next_slot_mod, knows-Inv, room_left, RemKnows-suc}

module _ (t : Traffic) (r : RemPc) where
  claimed-Inv :
      (p a : ℕ)
      → Inv t (AddPc.claiming p a) r
      → Inv
          (record t {
            queue = record t.queue { next_add = next_slot a };
            log = update t.log t.added p;
            added = suc t.added;
          })
          (AddPc.storing p a)
          r
  claimed-Inv p a v = record {
    add_slot = next_slot_mod t.added a v.adder.0;
    rem_slot = v.rem_slot;
    counts = omega (arith, v.counts);
    room = omega (arith, v.adder.1);
    slots =
        λ i g h. rw (==-ne i t.added (λ e. omega (arith, h, e))) (v.slots i g (omega (arith, h)));
    blank = λ i g h. v.blank i (omega (arith, g)) h;
    order = λ i g. rw (==-ne i t.added (λ e. omega (arith, g, e, v.counts))) (v.order i g);
    adder = (t.added, refl, v.adder.0, rw (==-refl t.added) refl);
    remover = RemKnows-suc t.added t.removed p t.log r (omega (arith, v.counts)) v.remover;
  }

  stored-Inv :
      (p a : ℕ)
      → Inv t (AddPc.storing p a) r
      → Inv
          (record t { queue = record t.queue { que = update t.queue.que a (some p) } })
          AddPc.outside
          r
  stored-Inv p a v =
      let (last, e, ea, el) = v.adder in
      record {
        add_slot = v.add_slot;
        rem_slot = v.rem_slot;
        counts = omega (arith, v.counts);
        room = v.room;
        slots = λ i g h. elim (Bool-cases (i == last)) [
          | inl q ↦ let same : i ≡ last = ground arith in rw (same, ea, ==-refl (last % 5), el) refl
          | inr q ↦
              let apart : i < last = ground (arith, h, e) in
              rw (==-ne (i % 5) a (λ x. omega (arith, x, ea, apart, g, e, v.room)))
                (v.slots i g (omega (arith, apart, e)))
        ];
        blank = λ i g h.
            rw (==-ne (i % 5) a (λ x. omega (arith, x, ea, g, e, h, v.counts)))
              (v.blank i (omega (arith, g)) h);
        order = v.order;
        adder = tt;
        remover = v.remover;
      }

  pub AddMove-Inv : {a a' : AddPc} {t' : Traffic} → AddMove t a t' a' → Inv t a r → Inv t' a' r
  AddMove-Inv (AddMove.call p) v = knows-Inv v refl refl tt v.remover
  AddMove-Inv AddMove.load_add v = knows-Inv v refl refl v.add_slot v.remover
  AddMove-Inv AddMove.load_rem v =
      knows-Inv v refl refl (v.adder, t.removed, v.rem_slot, omega arith, v.room) v.remover
  AddMove-Inv (AddMove.full e) v = knows-Inv v refl refl tt v.remover
  AddMove-Inv (AddMove.nonfull {p} {a} {r = b} e) v =
      let (ea, old, er, l, h) = v.adder in
      knows-Inv v refl refl (ea, room_left t.added t.removed a b old ea er l h e) v.remover
  AddMove-Inv (AddMove.cas_lose e) v = knows-Inv v refl refl tt v.remover
  AddMove-Inv (AddMove.cas_win {p} {a} e) v = claimed-Inv p a v
  AddMove-Inv (AddMove.store {p} {a}) v = stored-Inv p a v

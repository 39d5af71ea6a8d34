-- ===== src/Ipq/Invariant.antt =====
-- The invariant of an interprocessor queue with one unit that adds (ipq.m).
use cxp.Common.{
  Bool-cases, inl, inr, leb, leb-le, leb-gt, ==-ne, ℕ, suc, ◌+◌, ◌%◌, ◌≤◌, ◌<◌, ◌≡◌, ◌≢◌, sym, ◌∙◌,
  none, some, arith, update,
}
use cxp.Ipq.{next_slot}
use cxp.Ipq.Fifo.{next_slot_lem}
use cxp.Ipq.Steps.{Traffic, AddPc, RemPc}

-- The last slot that was claimed is not written yet.
abbrev pub pending : AddPc → ℕ
pending (AddPc.storing p a) = 1
pending AddPc.outside = 0
pending (AddPc.begin p) = 0
pending (AddPc.got_add p a) = 0
pending (AddPc.got_rem p a r) = 0
pending (AddPc.claiming p a) = 0

-- The first slot has been emptied, and `nextRem` not yet moved.
abbrev pub taken : RemPc → ℕ
taken (RemPc.got r (some p)) = 1
taken (RemPc.got r none) = 0
taken RemPc.idle = 0
taken (RemPc.at_rem r) = 0
taken (RemPc.at_test r a) = 0
taken (RemPc.exchanging r) = 0

-- What the adding unit knows, where `n` entries were added and `m` removed.
abbrev pub AddKnows : ℕ → ℕ → (ℕ → ℕ) → AddPc → Type 0
AddKnows n m log AddPc.outside = Unit {0}
AddKnows n m log (AddPc.begin p) = Unit {0}
AddKnows n m log (AddPc.got_add p a) = a ≡ n % 5
AddKnows n m log (AddPc.got_rem p a r) =
    (a ≡ n % 5) × (old : ℕ) × (r ≡ old % 5) × (old ≤ m) × (n ≤ old + 4)
AddKnows n m log (AddPc.claiming p a) = (a ≡ n % 5) × (n ≤ m + 3)
AddKnows n m log (AddPc.storing p a) = (last : ℕ) × (n ≡ suc last) × (a ≡ last % 5) × (log last ≡ p)

-- What the removing unit knows.
abbrev RemKnows : ℕ → ℕ → (ℕ → ℕ) → RemPc → Type 0
RemKnows n m log RemPc.idle = Unit {0}
RemKnows n m log (RemPc.at_rem r) = r ≡ m % 5
RemKnows n m log (RemPc.at_test r a) =
    (r ≡ m % 5) × (old : ℕ) × (a ≡ old % 5) × (m ≤ old) × (old ≤ n)
RemKnows n m log (RemPc.exchanging r) = (r ≡ m % 5) × (m < n)
RemKnows n m log (RemPc.got r none) = Unit {0}
RemKnows n m log (RemPc.got r (some p)) = (r ≡ m % 5) × (log m ≡ p)

pub record Inv (t : Traffic) (a : AddPc) (r : RemPc) : Type 0 where
  pub add_slot : t.queue.next_add ≡ t.added % 5
  pub rem_slot : t.queue.next_rem ≡ t.removed % 5
  pub counts : t.removed + taken r + pending a ≤ t.added
  pub room : t.added ≤ t.removed + 4
  pub slots :
      (i : ℕ)
      → t.removed + taken r ≤ i
      → i + pending a < t.added
      → t.queue.que (i % 5) ≡ some (t.log i)
  pub blank :
      (i : ℕ) → t.added ≤ i + pending a → i < t.removed + taken r + 5 → t.queue.que (i % 5) ≡ none
  pub order : (i : ℕ) → i < t.removed → t.out i ≡ t.log i
  pub adder : AddKnows t.added t.removed t.log a
  pub remover : RemKnows t.added t.removed t.log r

pub next_slot_mod : (n a : ℕ) → a ≡ n % 5 → next_slot a ≡ suc n % 5
next_slot_mod n a e = next_slot_lem a (omega (arith, e)) ∙ omega (arith, e)

-- A step of a unit that changes no more than what it knows.
pub knows-Inv :
    {t : Traffic} {a a' : AddPc} {r r' : RemPc}
    → Inv t a r
    → pending a' ≡ pending a
    → taken r' ≡ taken r
    → AddKnows t.added t.removed t.log a'
    → RemKnows t.added t.removed t.log r'
    → Inv t a' r'
knows-Inv {t} v p q k l = record {
  add_slot = v.add_slot;
  rem_slot = v.rem_slot;
  counts = omega (arith, p, q, v.counts);
  room = v.room;
  slots = λ i g h. v.slots i (omega (arith, g, q)) (omega (arith, h, p));
  blank = λ i g h. v.blank i (omega (arith, g, p)) (omega (arith, h, q));
  order = v.order;
  adder = k;
  remover = l;
}

-- The test of the inner loop tells that there is room, also if entries are removed since.
pub room_left :
    (n m a r old : ℕ)
    → a ≡ n % 5
    → r ≡ old % 5
    → old ≤ m
    → n ≤ old + 4
    → r ≢ next_slot a
    → n ≤ m + 3
room_left n m a r old ea er l h ne = elim (Bool-cases (leb n (m + 3))) [
  | inl e ↦ leb-le n (m + 3) e
  | inr e ↦
      let g = leb-gt n (m + 3) e in
      absurd (ne (er ∙ omega (arith, g, l, h) ∙ sym (next_slot_mod n a ea)))
]

pub RemKnows-suc :
    (n m p : ℕ) (log : ℕ → ℕ) (r : RemPc)
    → m + taken r ≤ n
    → RemKnows n m log r
    → RemKnows (suc n) m (update log n p) r
RemKnows-suc n m p log RemPc.idle l k = tt
RemKnows-suc n m p log (RemPc.at_rem r) l k = k
RemKnows-suc n m p log (RemPc.at_test r a) l (e, old, f, g, h) = (e, old, f, g, omega (arith, h))
RemKnows-suc n m p log (RemPc.exchanging r) l k = (k.0, omega (arith, k.1))
RemKnows-suc n m p log (RemPc.got r none) l k = tt
RemKnows-suc n m p log (RemPc.got r (some q)) l k =
    (k.0, rw (==-ne m n (λ e. omega (arith, l, e))) k.1)

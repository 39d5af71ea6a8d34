-- ===== src/Ipq/Steps.antt =====
-- The atomic accesses of `ipq_add` and `ipq_remove` (ipq.m) on one queue, as steps of units that add
-- and of the unit that removes, in any interleaving. The accesses are sequentially consistent.
use cxp.Common.{ℕ, suc, ◌<◌, ◌≡◌, ◌≢◌, Option, none, some, update, if◌then◌else◌, ◌==◌}
use cxp.Machine.{IpQueue}
use cxp.Ipq.{next_slot}

-- The queue, and for the theorems: the entries in the order in which their slots were claimed, and
-- in the order in which they were removed, with the count of each.
pub record Traffic : Type 0 where
  pub queue : IpQueue
  pub added : ℕ
  pub log : ℕ → ℕ
  pub removed : ℕ
  pub out : ℕ → ℕ

-- Where a unit stands in `ipq_add(pun, p)`.
pub data AddPc : Type 0 where
  outside : AddPc
  begin : (p : ℕ) → AddPc  -- before the load of nextAdd
  got_add : (p a : ℕ) → AddPc  -- before the load of nextRem
  got_rem : (p a r : ℕ) → AddPc  -- at the test of the inner loop
  claiming : (p a : ℕ) → AddPc  -- before the compare-exchange of nextAdd
  storing : (p a : ℕ) → AddPc  -- before the store into the slot

pub data AddMove (t : Traffic) : AddPc → Traffic → AddPc → Type 0 where
  call : (p : ℕ) → AddMove t outside t (begin p)
  load_add : {p : ℕ} → AddMove t (begin p) t (got_add p t.queue.next_add)
  load_rem : {p a : ℕ} → AddMove t (got_add p a) t (got_rem p a t.queue.next_rem)
  full : {p a r : ℕ} → r ≡ next_slot a → AddMove t (got_rem p a r) t (begin p)
  nonfull : {p a r : ℕ} → r ≢ next_slot a → AddMove t (got_rem p a r) t (claiming p a)
  cas_lose : {p a : ℕ} → t.queue.next_add ≢ a → AddMove t (claiming p a) t (begin p)
  cas_win :
      {p a : ℕ}
      → t.queue.next_add ≡ a
      → AddMove t
          (claiming p a)
          (record t {
            queue = record t.queue { next_add = next_slot a };
            log = update t.log t.added p;
            added = suc t.added;
          })
          (storing p a)
  store :
      {p a : ℕ}
      → AddMove t
          (storing p a)
          (record t { queue = record t.queue { que = update t.queue.que a (some p) } })
          outside

-- Where the removing unit stands in `ipq_remove()`.
pub data RemPc : Type 0 where
  idle : RemPc
  at_rem : (r : ℕ) → RemPc  -- before the load of nextAdd
  at_test : (r a : ℕ) → RemPc
  exchanging : (r : ℕ) → RemPc
  got : (r : ℕ) → Option ℕ → RemPc  -- after the exchange of the slot with NULL

pub data RemMove (t : Traffic) : RemPc → Traffic → RemPc → Type 0 where
  load_rem : RemMove t idle t (at_rem t.queue.next_rem)
  load_add : {r : ℕ} → RemMove t (at_rem r) t (at_test r t.queue.next_add)
  empty : {r a : ℕ} → a ≡ r → RemMove t (at_test r a) t idle
  nonempty : {r a : ℕ} → a ≢ r → RemMove t (at_test r a) t (exchanging r)
  exchange :
      {r : ℕ}
      → RemMove t
          (exchanging r)
          (record t { queue = record t.queue { que = update t.queue.que r none } })
          (got r (t.queue.que r))
  not_yet : {r : ℕ} → RemMove t (got r none) t idle
  advance :
      {r p : ℕ}
      → RemMove t
          (got r (some p))
          (record t {
            queue = record t.queue { next_rem = next_slot r };
            out = update t.out t.removed p;
            removed = suc t.removed;
          })
          idle

pub record Units : Type 0 where
  pub traffic : Traffic
  pub adders : ℕ → AddPc
  pub remover : RemPc

-- `n` units add, one removes.
pub data Step (n : ℕ) (u : Units) : Units → Type 0 where
  adds :
      (i : ℕ) {t : Traffic} {p : AddPc}
      → i < n
      → AddMove u.traffic (u.adders i) t p
      → Step n u (record u { traffic = t; adders = λ j. (if j == i then p else u.adders j) })
  removes :
      {t : Traffic} {p : RemPc}
      → RemMove u.traffic u.remover t p
      → Step n u (record u { traffic = t; remover = p })

-- ipq_init
abbrev pub init_queue : IpQueue
init_queue = record { next_add = 0; next_rem = 0; que = λ s. none }

abbrev pub init_units : Units
init_units = record {
  traffic = record { queue = init_queue; added = 0; log = λ i. 0; removed = 0; out = λ i. 0 };
  adders = λ i. outside;
  remover = idle;
}

pub data Reach (n : ℕ) : Units → Type 0 where
  initial : Reach n init_units
  next : {u v : Units} → Reach n u → Step n u v → Reach n v

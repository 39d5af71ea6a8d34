-- ===== src/Spawn/Home.antt =====
-- One child of a parallel construct: the allocator, the process record and the ready queue together
-- (build_process of sched.c, par of run.c).
use mathlib.Core.List.{Perm}
use mathlib.Core.List.Perm
use cxp.Common.{
  ℕ, ◌+◌, ◌%◌, ◌^◌, ◌≤◌, ◌<◌, ◌≡◌, ◌≢◌, refl, sym, subst, ◌∙◌, ap, Option, none, some, arith,
  update, length, List, ◌∷◌, [], ◌++◌, All, Fresh, Distinct, take-append-drop_while, true, false,
  Bool-cases, inl, inr, ◌==◌, ==-refl,
}
use cxp.Common.Perms.{All-perm}
use cxp.Common.Outcome.{done}
use cxp.Common.Chain.{list_fuel}
use cxp.Machine.{Process, Machine, waiting, not_alting, pri_of, pun_of}
use cxp.Memory.{Memory, allocate_mem, nalloc}
use cxp.Memory.Blocks.{block_len, allocate_lem}
use cxp.Memory.Classes.{find_mem_index-class, find_mem_index-FirstFit}
use cxp.Memory.Disjoint.{Uses, allocated, Uses-unused}
use cxp.World.{World}
use cxp.Priority.{pri_le}
use cxp.Ready.{enqueue0}
use cxp.Ready.Order.{enqueued}
use cxp.Sched.{enqueue, disable, enable}
use cxp.Sched.View.{Cpu}
use cxp.Sched.Wake.{Cpu-same, disable-SameView, enable-SameView}
use cxp.Sched.Preempt.{middle-perm, queued-Cpu, registers, enqueue0-fields}
use cxp.Spawn.{build_process, start}
use cxp.Spawn.Room.{placed, placed_other, Cpu-placed}
use cxp.Spawn.Records.{block_len-bound}

-- With a class's length of bytes left an allocation succeeds, and the count of bytes left stays.
allocate_room :
    (m : Memory) (index : ℕ) (o : Option ℕ)
    → m.procmemlist index ≡ o
    → block_len index ≤ m.taillen
    → (p : ℕ) × (m' : Memory) × (allocate_mem m index ≡ done (p, m')) × (m'.taillen ≡ m.taillen)
unfolding allocate_mem
allocate_room m index none e h = (
  m.tail,
  record m { tail = m.tail + block_len index; claimed = false },
  allocate_lem m index e h,
  refl,
)
allocate_room m index (some b) e h = (
  b,
  record m { procmemlist = update m.procmemlist index (m.next b); claimed = false },
  rw (e, allocate_mem) refl,
  refl,
)

abbrev pub record_of : ℕ → ℕ → ℕ → Process
record_of index pri pun = record {
  next = none;
  index = index;
  pri = pri;
  pun = pun;
  alt_state = not_alting;
  sched_state = waiting;
}

-- The unit's processes stand in blocks that are in use, and there is room.
pub record Home (base : ℕ) (w : World) (k : ℕ) (owner : ℕ → Option ℕ) (ps : List ℕ) : Type 0 where
  pub cpu : Cpu w.machine k ps
  pub uses : Uses base w.memory owner
  pub owned : owner (w.machine.current k) ≢ none
  pub all_owned : All (λ q. owner q ≢ none) ps
  pub room : 24576 ≤ w.memory.taillen

owned-Fresh :
    (owner : ℕ → Option ℕ) (p : ℕ) (ps : List ℕ)
    → owner p ≡ none
    → All (λ q. owner q ≢ none) ps
    → Fresh p ps
owned-Fresh owner p [] e a = tt
owned-Fresh owner p (q ∷ ps) e a = ((λ s. a.0 (ap owner (sym s) ∙ e)), owned-Fresh owner p ps e a.1)

pub owned_still :
    (owner : ℕ → Option ℕ) (p i q : ℕ) → owner q ≢ none → update owner p (some i) q ≢ none
owned_still owner p i q h = elim (Bool-cases (q == p)) [ inl e ↦ rw e (λ s. cc) | inr e ↦ rw e h ]

All-owned :
    (owner : ℕ → Option ℕ) (p i : ℕ) (ps : List ℕ)
    → All (λ q. owner q ≢ none) ps
    → All (λ q. update owner p (some i) q ≢ none) ps
All-owned owner p i [] a = tt
All-owned owner p i (q ∷ ps) a = (owned_still owner p i q a.0, All-owned owner p i ps a.1)

owned_prop : (owner : ℕ → Option ℕ) (q : ℕ) → IsProp (owner q ≢ none)
owned_prop owner q = hlevel

-- A process record but for its link.
abbrev pub body : Machine → ℕ → Process
body m q = record (m.procs q) { next = none }

-- `enqueue` of a process that the current one is not below.
enqueue-Cpu :
    (m : Machine) (k p : ℕ) (ps : List ℕ)
    → Cpu m k ps
    → pun_of m p ≡ k
    → Fresh p (m.current k ∷ ps)
    → length ps + 1 < list_fuel
    → pri_le (pri_of m p) (pri_of m (m.current k)) ≡ true
    → (qs : List ℕ) × Cpu (enqueue m k p) k qs
      × Perm qs (p ∷ ps)
      × ((enqueue m k p).current k ≡ m.current k)
      × ((q : ℕ) → body (enqueue m k p) q ≡ body m q)
unfolding enqueue disable enable
enqueue-Cpu m k p ps c at f len le =
    let d = disable m k in
    let (cpu, perm) = queued-Cpu d k p ps (Cpu-same ps (disable-SameView k m) c) at f len le in
    (
      enqueued d p ps,
      Cpu-same (enqueued d p ps) (enable-SameView k (enqueue0 d p)) cpu,
      middle-perm p _ _ ps
          (take-append-drop_while (λ (q : ℕ). pri_le (pri_of m p) (pri_of m q)) ps),
      (registers d p k).0,
      λ q. sym (enqueue0-fields d p q),
    )

-- What starting a child with priority `pri` does.
pub record Started (base : ℕ) (w w' : World) (k pri : ℕ) (owner : ℕ → Option ℕ) (ps cs : List ℕ)
    : Type 0 where
  pub owner' : ℕ → Option ℕ
  pub qs : List ℕ
  pub home : Home base w' k owner' qs
  pub perm : Perm qs (cs ++ ps)
  pub current : w'.machine.current k ≡ w.machine.current k
  pub kept : (q : ℕ) → owner q ≢ none → body w'.machine q ≡ body w.machine q
  pub children : All (λ c. pri_of w'.machine c ≡ pri) cs
  pub stays : (q : ℕ) → owner q ≢ none → owner' q ≢ none
  pub in_use : All (λ c. owner' c ≢ none) cs
  pub new : All (λ c. owner c ≡ none) cs
  pub distinct : Distinct cs

module _ (size base : ℕ) (w : World) (k : ℕ) (owner : ℕ → Option ℕ) (ps : List ℕ)
    (stacksize pri : ℕ) where
  child_built :
      Home base w k owner ps
      → stacksize + size ≤ 24576
      → (index : ℕ) × (p : ℕ) × (mem : Memory) × (build_process size w stacksize pri k
          ≡ done
              (p, record w { memory = mem; machine = placed w.machine p (record_of index pri k) }))
        × Uses base mem (update owner p (some index))
        × (owner p ≡ none)
        × (mem.taillen ≡ w.memory.taillen)
  unfolding build_process
  child_built h fits =
      let (index, e, fit) = find_mem_index-FirstFit (stacksize + size) fits in
      let (p, mem, q, len) =
        allocate_room w.memory index (w.memory.procmemlist index) refl
          (omega (arith, block_len-bound index, h.room)) in
      let short : (stacksize + size) % 2 ^ 32 ≡ stacksize + size = omega (arith, fits) in
      let small : index < nalloc = (find_mem_index-class (stacksize + size) index e).1 in
      (
        index,
        p,
        mem,
        rw (short, e, q) refl,
        allocated index p h.uses small fit.positive q,
        Uses-unused index p h.uses small fit.positive q,
        len,
      )

  pub child_started :
      Home base w k owner ps
      → stacksize + size ≤ 24576
      → pri_le pri (pri_of w.machine (w.machine.current k)) ≡ true
      → length ps + 1 < list_fuel
      → (p : ℕ) × (w1 : World) × (m' : Machine) × (build_process size w stacksize pri k
          ≡ done (p, w1))
        × (start w1.machine k (w.machine.current k) k p ≡ done m')
        × Started base w (record w1 { machine = m' }) k pri owner ps (p ∷ [])
  unfolding start
  child_started h fits le len =
      let (index, p, mem, e, uses, new, room) = child_built h fits in
      let m = w.machine in
      let m1 = placed m p (record_of index pri k) in
      let fresh = owned-Fresh owner p (m.current k ∷ ps) new (h.owned, h.all_owned) in
      let here : m1.procs p ≡ record_of index pri k = rw (==-refl p) refl in
      let same = placed_other m p (record_of index pri k) (m.current k) fresh.0 in
      let (qs, cpu, perm, cur, same_body) =
        enqueue-Cpu m1 k p ps (Cpu-placed m p (record_of index pri k) k ps fresh h.cpu)
          (ap (λ (x : Process). x.pun) here) fresh len
          (subst (λ (x : Process). pri_le x.pri (pri_of m1 (m.current k)) ≡ true) (sym here)
            (subst (λ (x : Process). pri_le pri x.pri ≡ true) (sym same) le)) in
      let owner' = update owner p (some index) in
      (
        p,
        record w { memory = mem; machine = m1 },
        enqueue m1 k p,
        e,
        rw (ap (λ (x : Process). x.pun) same ∙ h.cpu.home, ==-refl k) refl,
        record {
          owner' = owner';
          qs = qs;
          home = record {
            cpu = cpu;
            uses = uses;
            owned = rw cur (owned_still owner p index (m.current k) h.owned);
            all_owned =
                All-perm (λ q. owner' q ≢ none) (λ q. owned_prop owner' q) (Perm.symm perm)
                  (rw (==-refl p) (λ s. cc), All-owned owner p index ps h.all_owned);
            room = rw room h.room;
          };
          perm = perm;
          current = cur;
          kept = λ q o.
              same_body q
              ∙ ap (λ (x : Process). record x { next = none })
                  (placed_other m p (record_of index pri k) q (λ s. o (ap owner (sym s) ∙ new)));
          children =
              (ap (λ (x : Process). x.pri) (same_body p) ∙ ap (λ (x : Process). x.pri) here, tt);
          stays = owned_still owner p index;
          in_use = (rw (==-refl p) (λ s. cc), tt);
          new = (new, tt);
          distinct = (tt, tt);
        },
      )

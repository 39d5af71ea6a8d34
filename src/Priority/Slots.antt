-- ===== src/Priority/Slots.antt =====
-- The priorities below a process of a PRI PAR lie in a slot of their own.
use cxp.Common.{
  ℕ, zero, suc, ◌+◌, ◌*◌, ◌%◌, ◌^◌, ◌≤◌, ◌<◌, ◌≡◌, refl, true, false, some, arith, ◌∙◌, ap,
  get_elem?,
}
use cxp.Priority.{
  pri_value, pri_level, pri_gt, priority, pri_delta, pri_levels, pri_procs, init_pri, idle_pri,
  child_pris, assigned,
}

-- The fields of a priority are read back as they were put in.
priority-fields :
    (level value : ℕ)
    → level < 8
    → (pri_level (priority level value) ≡ level)
      × (pri_value (priority level value) ≡ pri_value value)
      × (priority level value < 2 ^ 16)
priority-fields level value h = (omega arith, omega arith, omega arith)

-- Child `i` of a process with priority `p`.
abbrev pub child : ℕ → ℕ → ℕ
child p i = priority (pri_level p + 1) (p + i * pri_delta (pri_level p + 1))

get_elem?-child_pris :
    (level pri delta n i : ℕ)
    → i < n
    → get_elem? (child_pris level pri delta n) i ≡ some (priority level (pri + i * delta))
unfolding child_pris
get_elem?-child_pris level pri delta zero i h = absurd (omega arith)
get_elem?-child_pris level pri delta (suc n) zero h =
    ap (λ (x : ℕ). some (priority level x)) (omega arith)
get_elem?-child_pris level pri delta (suc n) (suc i) h =
    get_elem?-child_pris level (pri + delta) delta n i (omega arith)
    ∙ ap (λ (x : ℕ). some (priority level x)) (omega arith)

-- The loop of `par_pri` gives child `i` the priority `child parent i`.
get_elem?-assigned : (p nc i : ℕ) → i < nc → get_elem? (assigned p nc) i ≡ some (child p i)
unfolding assigned
get_elem?-assigned p nc i h = get_elem?-child_pris _ p _ nc i h

-- Of level at most 4, with a value that is a multiple of the gap between the processes of the level.
pub record IsSlot (p : ℕ) : Type 0 where
  pub level : pri_level p ≤ pri_levels
  pub aligned : pri_value p % pri_delta (pri_level p) ≡ 0

pub init-IsSlot : IsSlot init_pri
init-IsSlot = record { level = omega arith; aligned = refl }

-- What the assignment computes, level by level.
value_lem :
    (l p i : ℕ)
    → l < pri_levels
    → pri_value p % pri_delta l ≡ 0
    → i < pri_procs
    → (pri_value (p + i * pri_delta (l + 1)) ≡ pri_value p + i * pri_delta (l + 1))
      × (pri_delta l ≡ 8 * pri_delta (l + 1))
      × ((pri_value p + i * pri_delta (l + 1)) % pri_delta (l + 1) ≡ 0)
value_lem zero p i h a k = omega arith
value_lem (suc zero) p i h a k = omega arith
value_lem (suc (suc zero)) p i h a k = omega arith
value_lem (suc (suc (suc zero))) p i h a k = omega arith
value_lem (suc (suc (suc (suc l)))) p i h a k = absurd (omega arith)

delta_pos : (l : ℕ) → l ≤ pri_levels → 0 < pri_delta l
delta_pos zero h = omega arith
delta_pos (suc zero) h = omega arith
delta_pos (suc (suc zero)) h = omega arith
delta_pos (suc (suc (suc zero))) h = omega arith
delta_pos (suc (suc (suc (suc zero)))) h = omega arith
delta_pos (suc (suc (suc (suc (suc l))))) h = absurd (omega arith)

bottom :
    (l v : ℕ)
    → l ≤ pri_levels
    → v % pri_delta l ≡ 0
    → pri_value idle_pri ≤ v
    → v < 2 ^ 12
    → (l ≡ pri_levels) × (v ≡ pri_value idle_pri)
bottom zero v h a k m = absurd (omega arith)
bottom (suc zero) v h a k m = absurd (omega arith)
bottom (suc (suc zero)) v h a k m = absurd (omega arith)
bottom (suc (suc (suc zero))) v h a k m = absurd (omega arith)
bottom (suc (suc (suc (suc zero)))) v h a k m = omega arith
bottom (suc (suc (suc (suc (suc l))))) v h a k m = absurd (omega arith)

record ChildOf (p i : ℕ) : Type 0 where
  deeper : pri_level (child p i) ≡ pri_level p + 1
  value : pri_value (child p i) ≡ pri_value p + i * pri_delta (pri_level p + 1)
  eighth : pri_delta (pri_level p) ≡ 8 * pri_delta (pri_level (child p i))
  slot : IsSlot (child p i)

child_lem : (p i : ℕ) → IsSlot p → pri_level p < pri_levels → i < pri_procs → ChildOf p i
child_lem p i s h k = record {
  deeper = fields.0;
  value = fields.1 ∙ parts.0;
  eighth = rw fields.0 parts.1;
  slot = record {
    level = rw fields.0 (omega arith);
    aligned = rw (fields.0, fields.1, parts.0) parts.2;
  };
}
  where
    l : ℕ
    l = pri_level p

    fields :
        (pri_level (child p i) ≡ l + 1)
        × (pri_value (child p i) ≡ pri_value (p + i * pri_delta (l + 1)))
        × (child p i < 2 ^ 16)
    fields = priority-fields (l + 1) (p + i * pri_delta (l + 1)) (omega arith)

    parts :
        (pri_value (p + i * pri_delta (l + 1)) ≡ pri_value p + i * pri_delta (l + 1))
        × (pri_delta l ≡ 8 * pri_delta (l + 1))
        × ((pri_value p + i * pri_delta (l + 1)) % pri_delta (l + 1) ≡ 0)
    parts = value_lem l p i h s.aligned k

-- The priorities of a process and of the processes started below it by PRI PAR. (A plain PAR gives
-- the parent's priority.)
pub data Under (p : ℕ) : ℕ → Type 0 where
  here : Under p p
  below :
      {q : ℕ} (i : ℕ) → Under p q → pri_level q < pri_levels → i < pri_procs → Under p (child q i)

pub record Within (p q : ℕ) : Type 0 where
  pub slot : IsSlot q
  pub low : pri_value p ≤ pri_value q
  pub high : pri_value q + pri_delta (pri_level q) ≤ pri_value p + pri_delta (pri_level p)

mul_room : (i j d : ℕ) → i < j → i * d + d ≤ j * d
mul_room i j d h = grind arith

child-Within : {p q : ℕ} (i : ℕ) → i < pri_procs → ChildOf q i → Within p q → Within p (child q i)
child-Within {p} {q} i k c w = record {
  slot = c.slot;
  low = omega (arith, c.value, w.low);
  high =
      let d = pri_delta (pri_level (child q i)) in
      let value : pri_value (child q i) ≡ pri_value q + i * d = rw c.deeper c.value in
      omega (arith, value, c.eighth, w.high, mul_room i 8 d k);
}

-- Whatever is started below a process stays in the process's slot.
Under-Within : {p q : ℕ} → IsSlot p → Under p q → Within p q
Under-Within s here = record { slot = s; low = omega arith; high = omega arith }
Under-Within s (below {q} i u h k) =
    let w = Under-Within s u in child-Within i k (child_lem q i w.slot h k) w

-- Everything below child `i` has a higher priority than everything below a later child `j`.
pub Under-pri_gt :
    {p a b : ℕ} (i j : ℕ)
    → IsSlot p
    → pri_level p < pri_levels
    → i < j
    → j < pri_procs
    → Under (child p i) a
    → Under (child p j) b
    → pri_gt a b ≡ true
Under-pri_gt {p} {a} {b} i j s h lt k u v = ground (
  arith,
  a_below,
  b_above,
  c.deeper,
  e.value,
  c.value,
  mul_room i j (pri_delta (pri_level p + 1)) lt,
)
  where
    c : ChildOf p i
    c = child_lem p i s h (omega arith)

    e : ChildOf p j
    e = child_lem p j s h k

    a_below : pri_value a < pri_value (child p i) + pri_delta (pri_level p + 1)
    a_below =
        let w = Under-Within c.slot u in
        omega (arith, w.high, delta_pos _ w.slot.level, ap (λ l. pri_delta l) c.deeper)

    b_above : pri_value (child p j) ≤ pri_value b
    b_above = (Under-Within e.slot v).low

-- Below the initial process, a priority no higher than that of the idle process belongs to a
-- process at the fourth level, and equals it.
pub Under-idle :
    {q : ℕ}
    → Under init_pri q
    → pri_gt q idle_pri ≡ false
    → (pri_level q ≡ pri_levels) × (pri_value q ≡ pri_value idle_pri)
Under-idle {q} u h =
    let s = (Under-Within init-IsSlot u).slot in
    bottom (pri_level q) (pri_value q) s.level s.aligned (ground arith) (omega arith)

-- ===== src/Mutex/Exclusion.antt =====
-- Any number of processes, each making one atomic step at a time (mutex.c).
use cxp.Common.{
  ℕ, ◌≡◌, refl, sym, subst, ◌∙◌, Bool, true, false, arith, Bool-cases, inl, inr, ==-refl, ◌==◌,
  if◌then◌else◌,
}
use cxp.Mutex.{
  init_mutex, Pc, outside, trying, yielding, holding, Move, start, win, lose, give_up, resume,
  release,
}

-- The mutex, and where each process stands.
pub record Shared : Type 0 where
  pub claimed : Bool
  pub pc : ℕ → Pc

-- Process `i` has moved to `p` and left the mutex at `c`.
abbrev pub moved : Shared → ℕ → Bool → Pc → Shared
moved s i c p = record { claimed = c; pc = λ j. (if j == i then p else s.pc j) }

pub data Step (s : Shared) : Shared → Type 0 where
  pick : (i : ℕ) {c : Bool} {p : Pc} → Move s.claimed (s.pc i) c p → Step s (moved s i c p)

pub data Reach : Shared → Type 0 where
  initial : Reach (record { claimed = init_mutex; pc = λ i. outside })
  next : {s t : Shared} → Reach s → Step s t → Reach t

abbrev pub holds : Pc → Bool
holds holding = true
holds outside = false
holds (trying i) = false
holds yielding = false

-- The mutex is claimed exactly when a process holds it, and one at most does.
record Inv (s : Shared) : Type 0 where
  free : s.claimed ≡ false → (i : ℕ) → holds (s.pc i) ≡ false
  held : s.claimed ≡ true → (i : ℕ) × (holds (s.pc i) ≡ true)
  unique : (i j : ℕ) → holds (s.pc i) ≡ true → holds (s.pc j) ≡ true → i ≡ j

-- What a step changes of the mutex, and of whether the one process holds it.
data Effect (c : Bool) (h : Bool) (c' : Bool) (h' : Bool) : Type 0 where
  kept : c' ≡ c → h ≡ false → h' ≡ false → Effect c h c' h'
  taken : c ≡ false → c' ≡ true → h' ≡ true → Effect c h c' h'
  freed : h ≡ true → c' ≡ false → h' ≡ false → Effect c h c' h'

Move-Effect : {c c' : Bool} {p p' : Pc} → Move c p c' p' → Effect c (holds p) c' (holds p')
Move-Effect start = kept refl refl refl
Move-Effect (win e) = taken e refl refl
Move-Effect (lose e l) = kept (sym e) refl refl
Move-Effect (give_up e l) = kept (sym e) refl refl
Move-Effect resume = kept refl refl refl
Move-Effect release = freed refl refl refl

module _ (s : Shared) (i : ℕ) (c : Bool) (p : Pc) (v : Inv s) where
  other : (j : ℕ) → (j == i) ≡ false → holds ((moved s i c p).pc j) ≡ holds (s.pc j)
  other j e = rw e refl

  self : holds ((moved s i c p).pc i) ≡ holds p
  self = rw (==-refl i) refl

  -- What holds of the moved process and of each other one holds of all.
  each :
      (P : ℕ → Bool → Type 0)
      → P i (holds p)
      → ((j : ℕ) → (j == i) ≡ false → P j (holds (s.pc j)))
      → (j : ℕ) → P j (holds ((moved s i c p).pc j))
  each P h k j = elim (Bool-cases (j == i)) [
    | inl e ↦ let same : j ≡ i = ground arith in rw (same, ==-refl i) h
    | inr e ↦ rw e (k j e)
  ]

  Effect-Inv : Effect s.claimed (holds (s.pc i)) c (holds p) → Inv (moved s i c p)
  Effect-Inv (kept ec h h') =
      let same = each (λ j b. b ≡ holds (s.pc j)) (h' ∙ sym h) (λ j e. refl) in
      record {
        free = λ f j. same j ∙ v.free (sym ec ∙ f) j;
        held = λ f. let (j, e) = v.held (sym ec ∙ f) in (j, same j ∙ e);
        unique = λ j l a b. v.unique j l (sym (same j) ∙ a) (sym (same l) ∙ b);
      }
  Effect-Inv (taken e ec h') =
      let only = each (λ j b. b ≡ true → j ≡ i) (λ _. refl) (λ j _ b. cc (v.free e j)) in
      record {
        free = λ f. cc;
        held = λ _. (i, self ∙ h');
        unique = λ j l a b. only j a ∙ sym (only l b);
      }
  Effect-Inv (freed h ec h') =
      let none_left = each (λ j b. b ≡ false) h' (λ j e. not_held j e h) in
      record { free = λ _. none_left; held = λ f. cc; unique = λ j l a b. cc (none_left j) }
    where
      not_held : (j : ℕ) → (j == i) ≡ false → holds (s.pc i) ≡ true → holds (s.pc j) ≡ false
      not_held j e h = elim (Bool-cases (holds (s.pc j))) [
        | inl a ↦ absurd (ground (arith, v.unique j i a h, e))
        | inr a ↦ a
      ]

Step-Inv : {s t : Shared} → Step s t → Inv s → Inv t
Step-Inv {s} (pick i {c} {p} mv) v = Effect-Inv s i c p v (Move-Effect mv)

Reach-Inv : {s : Shared} → Reach s → Inv s
Reach-Inv initial = record { free = λ _ i. refl; held = λ e. cc; unique = λ i j a b. cc }
Reach-Inv (next r st) = Step-Inv st (Reach-Inv r)

-- However the processes' steps interleave, two of them never hold the mutex together.
pub mutual_exclusion :
    {s : Shared} → Reach s → (i j : ℕ) → holds (s.pc i) ≡ true → holds (s.pc j) ≡ true → i ≡ j
mutual_exclusion r = (Reach-Inv r).unique

holding_of : (p : Pc) → holds p ≡ true → p ≡ holding
holding_of holding h = refl
holding_of outside h = cc
holding_of (trying i) h = cc
holding_of yielding h = cc

-- Whenever the mutex is claimed, some process holds it, and can free it by its next step.
pub claimed_can_be_freed :
    {s : Shared}
    → Reach s
    → s.claimed ≡ true
    → (i : ℕ) × (t : Shared) × (s.pc i ≡ holding) × Step s t × (t.claimed ≡ false)
claimed_can_be_freed {s} r e =
    let (i, h) = (Reach-Inv r).held e in
    let at = holding_of (s.pc i) h in
    (
      i,
      moved s i false outside,
      at,
      pick i (subst (λ (p : Pc). Move s.claimed p false outside) (sym at) release),
      refl,
    )

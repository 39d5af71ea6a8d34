-- ===== src/Common/Chain.antt =====
-- Singly linked lists in a store: the list that is reached from a head pointer, the search for a
-- place in it with a trailing pointer, and the links that an insertion and a removal write.
use Prim.Native.Nat.{ℕ, zero, suc, ◌^◌, ◌<◌}
use mathlib.Core.Path.{◌≡◌, refl, sym}
use mathlib.Core.Logic.{◌≢◌, inl, inr}
use mathlib.Core.Bool.{Bool, true, false}
use mathlib.Core.List.{List, [], ◌∷◌, ◌++◌}
use mathlib.Core.Option.{Option, none, some}
use native.Mathlib.Omega.{arith}
use cxp.Common.Tests.{is_some, if◌then◌else◌, update, Bool-cases, ==-refl, ==-ne}
use cxp.Common.Lists.{
  length, first, last, last_or, last_or-last, take_while, drop_while, Fresh, Distinct,
}

-- From `head`, the links `next` lead through the addresses of the list to NULL.
abbrev pub Chain : (ℕ → Option ℕ) → Option ℕ → List ℕ → Type 0
Chain next head [] = head ≡ none
Chain next head (p ∷ ps) = (head ≡ some p) × Chain next (next p) ps

-- `while (curr != NULL && test(curr)) { prev = curr; curr = curr->next; }`, on fuel.
unfoldable pub walk : ℕ → (ℕ → Bool) → (ℕ → Option ℕ) → Option ℕ → Option ℕ → Option ℕ × Option ℕ
walk zero test next prev curr = (prev, curr)
walk (suc f) test next prev none = (prev, none)
walk (suc f) test next prev (some q) = elim (test q) [
  | true ↦ walk f test next (some q) (next q)
  | false ↦ (prev, some q)
]

-- Fuel for a walk. Nodes have distinct 32-bit addresses, so no list has more.
unfoldable pub list_fuel : ℕ
list_fuel = 2 ^ 32

pub walk_lem :
    (fuel : ℕ) (test : ℕ → Bool) (next : ℕ → Option ℕ) (prev curr : Option ℕ) (ps : List ℕ)
    → length ps < fuel
    → Chain next curr ps
    → walk fuel test next prev curr
      ≡ (last_or prev (take_while test ps), first (drop_while test ps))
unfolding walk
walk_lem zero test next prev curr ps len h = absurd (omega arith)
walk_lem (suc f) test next prev curr [] len h = rw h
walk_lem (suc f) test next prev curr (q ∷ qs) len h = rw h.0 (elim (Bool-cases (test q)) [
  | inl t ↦
      rw (t, walk, ← last_or-last q (take_while test qs))
        (walk_lem f test next (some q) (next q) qs (omega arith) h.1)
  | inr e ↦ rw (e, walk)
])

-- A write to a node off the list leaves the list.
pub Chain-update :
    (next : ℕ → Option ℕ) (p : ℕ) (v head : Option ℕ) (ps : List ℕ)
    → Fresh p ps
    → Chain next head ps
    → Chain (update next p v) head ps
Chain-update next p v head [] f h = h
Chain-update next p v head (q ∷ qs) f h =
    (h.0, rw (==-ne q p (λ e. f.0 (sym e))) (Chain-update next p v (next q) qs f.1 h.1))

pub Chain-first :
    (next : ℕ → Option ℕ) (head : Option ℕ) (ps : List ℕ) → Chain next head ps → head ≡ first ps
Chain-first next head [] h = h
Chain-first next head (q ∷ qs) h = h.0

-- The links that an insertion of `p` writes, behind `prev` and before `curr`.
unfoldable pub link : (ℕ → Option ℕ) → Option ℕ → ℕ → Option ℕ → ℕ → Option ℕ
link next none p curr = update next p curr
link next (some r) p curr = update (update next r (some p)) p curr

-- The head after the insertion.
unfoldable pub link_head : Option ℕ → Option ℕ → ℕ → Option ℕ
link_head head none p = some p
link_head head (some r) p = head

Fresh-last : (q s : ℕ) (front back : List ℕ) → Fresh q (s ∷ front ++ back) → q ≢ last s front
Fresh-last q s [] back f = f.0
Fresh-last q s (t ∷ front) back f = Fresh-last q t front back f.1

Fresh-drop : (q : ℕ) (front back : List ℕ) → Fresh q (front ++ back) → Fresh q back
Fresh-drop q [] back f = f
Fresh-drop q (s ∷ front) back f = Fresh-drop q front back f.1

module _ (next : ℕ → Option ℕ) (p : ℕ) where
  Chain-link_after :
      (q : ℕ) (front back : List ℕ) (head : Option ℕ)
      → Distinct (q ∷ front ++ back)
      → Fresh p (q ∷ front ++ back)
      → Chain next head (q ∷ front ++ back)
      → Chain
          (update (update next (last q front) (some p)) p (first back))
          head
          (q ∷ front ++ p ∷ back)
  Chain-link_after q [] back head d f h = (
    h.0,
    (
      rw (==-ne q p (λ e. f.0 (sym e)), ==-refl q) refl,
      rw (==-refl p) (
          Chain-update _ p (first back) (first back) back f.1 (
            Chain-update next q (some p) (first back) back d.0
              (rw (← Chain-first next (next q) back h.1) h.1))),
    ),
  )
  Chain-link_after q (s ∷ front) back head d f h = (
    h.0,
    rw (==-ne q p (λ e. f.0 (sym e)), ==-ne q (last s front) (Fresh-last q s front back d.0))
        (Chain-link_after s front back (next q) d.1 f.1 h.1),
  )

  -- An insertion between the end of `front` and the start of `back` puts `p` there.
  pub Chain-link :
      (head : Option ℕ) (front back : List ℕ)
      → Distinct (front ++ back)
      → Fresh p (front ++ back)
      → Chain next head (front ++ back)
      → Chain
          (link next (last_or none front) p (first back))
          (link_head head (last_or none front) p)
          (front ++ p ∷ back)
  unfolding link link_head
  Chain-link head [] back d f h = (
    refl,
    rw (==-refl p) (
        Chain-update next p (first back) (first back) back f
          (rw (← Chain-first next head back h) h)),
  )
  Chain-link head (q ∷ front) back d f h = Chain-link_after q front back head d f h

-- `if (prev != NULL) prev->next = v;`
unfoldable pub unlink : (ℕ → Option ℕ) → Option ℕ → Option ℕ → ℕ → Option ℕ
unlink next none v = next
unlink next (some r) v = update next r v

Chain-unlink_after :
    (next : ℕ → Option ℕ) (q c : ℕ) (front back : List ℕ) (head : Option ℕ)
    → Distinct (q ∷ front ++ c ∷ back)
    → Chain next head (q ∷ front ++ c ∷ back)
    → Chain (update next (last q front) (next c)) head (q ∷ front ++ back)
Chain-unlink_after next q c [] back head d h =
    (h.0, rw (==-refl q) (Chain-update next q (next c) (next c) back d.0.1 h.1.1))
Chain-unlink_after next q c (s ∷ front) back head d h = (
  h.0,
  rw (==-ne q (last s front) (Fresh-last q s front (c ∷ back) d.0))
      (Chain-unlink_after next s c front back (next q) d.1 h.1),
)

-- The removal of `c`, which stands behind `front`.
pub Chain-unlink :
    (next : ℕ → Option ℕ) (c : ℕ) (front back : List ℕ) (head : Option ℕ)
    → Distinct (front ++ c ∷ back)
    → Chain next head (front ++ c ∷ back)
    → Chain
        (unlink next (last_or none front) (next c))
        (if is_some (last_or none front) then head else next c)
        (front ++ back)
unfolding unlink
Chain-unlink next c [] back head d h = h.1
Chain-unlink next c (q ∷ front) back head d h = Chain-unlink_after next q c front back head d h

pub Chain-drop_while :
    (next : ℕ → Option ℕ) (t : ℕ → Bool) (head : Option ℕ) (ps : List ℕ)
    → Chain next head ps
    → Chain next (first (drop_while t ps)) (drop_while t ps)
Chain-drop_while next t head [] h = refl
Chain-drop_while next t head (p ∷ ps) h = elim (Bool-cases (t p)) [
  | inl e ↦ rw e (Chain-drop_while next t (next p) ps h.1)
  | inr e ↦ rw e (refl, h.1)
]

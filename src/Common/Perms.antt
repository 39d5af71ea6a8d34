-- ===== src/Common/Perms.antt =====
-- Rearranged lists: what holds of all elements, what is fresh, and the length stay.
use Prim.Native.Nat.{ℕ, suc}
use mathlib.Core.Path.{◌≡◌, refl, sym, ap, ◌∙◌, subst}
use mathlib.Core.Logic.{◌≢◌}
use mathlib.Core.Logic.Or
use mathlib.Core.List.{
  List, [], ◌∷◌, Mem, Perm, foldr, mem-cons, not-mem-nil, mem-cons_self, mem-cons_of_mem,
}
use mathlib.Core.List.Perm
use native.Mathlib.Decide.{ℕ_discrete}
use cxp.Common.Lists.{length, All, Fresh}

module _ {ℓ κ} {A : Type ℓ} (P : A → Type κ) (prop : (x : A) → IsProp (P x)) where
  All-mem : (xs : List A) (a : A) → All P xs → Mem a xs → P a
  All-mem [] a h m = absurd (not-mem-nil m)
  All-mem (x ∷ xs) a h m =
      Or.elim (prop a) (mem-cons.0 m) (λ e. subst P (sym e) h.0) (All-mem xs a h.1)

All-of_mem {ℓ κ} :
    {A : Type ℓ} (P : A → Type κ) (xs : List A) → ((a : A) → Mem a xs → P a) → All P xs
All-of_mem P [] h = tt
All-of_mem P (x ∷ xs) h = (h x mem-cons_self, All-of_mem P xs (λ a m. h a (mem-cons_of_mem x m)))

pub All-perm {ℓ κ} :
    {A : Type ℓ} (P : A → Type κ)
    → ((x : A) → IsProp (P x))
    → {xs ys : List A} → Perm xs ys
    → All P xs
    → All P ys
All-perm P prop {xs} {ys} p h =
    All-of_mem P ys (λ a m. All-mem P prop xs a h ((Perm.mem_iff p).1 m))

All-Fresh : (c : ℕ) (xs : List ℕ) → All (λ q. c ≢ q) xs → Fresh c xs
All-Fresh c [] h = tt
All-Fresh c (x ∷ xs) h = (h.0, All-Fresh c xs h.1)

Fresh-All : (c : ℕ) (xs : List ℕ) → Fresh c xs → All (λ q. c ≢ q) xs
Fresh-All c [] h = tt
Fresh-All c (x ∷ xs) h = (h.0, Fresh-All c xs h.1)

ne_prop : (a b : ℕ) → IsProp (a ≢ b)
ne_prop a b = hlevel

pub Fresh-perm : (c : ℕ) {xs ys : List ℕ} → Perm xs ys → Fresh c xs → Fresh c ys
Fresh-perm c {xs} {ys} p f = All-Fresh c ys (All-perm (λ q. c ≢ q) (ne_prop c) p (Fresh-All c xs f))

length-foldr {ℓ} : {A : Type ℓ} (xs : List A) → length xs ≡ foldr (λ _ (n : ℕ). suc n) 0 xs
length-foldr [] = refl
length-foldr (x ∷ xs) = ap (λ (n : ℕ). suc n) (length-foldr xs)

ℕ-IsSet : IsSet ℕ
ℕ-IsSet = hlevel ℕ_discrete

pub length-perm {ℓ} : {A : Type ℓ} {xs ys : List A} → Perm xs ys → length xs ≡ length ys
length-perm {xs} {ys} p =
    length-foldr xs
    ∙ Perm.foldr-eq ℕ-IsSet (λ _ (n : ℕ). suc n) (λ a b x. refl) p 0
    ∙ sym (length-foldr ys)

-- ===== src/Common/Insertion.antt =====
-- An element put somewhere into a list, or taken out of it: what the list still satisfies.
use Prim.Native.Nat.{ℕ, suc, ◌≤◌}
use mathlib.Core.Path.{◌≡◌, refl, sym}
use mathlib.Core.Logic.{◌≢◌, inl, inr}
use mathlib.Core.List.{List, [], ◌∷◌, ◌++◌}
use native.Mathlib.Omega.{arith}
use cxp.Common.Tests.{leb, Bool-cases, leb-le}
use cxp.Common.Lists.{length, take_while, drop_while, take-append-drop_while, All, Fresh, Distinct}

module _ {ℓ} {A : Type ℓ} where
  pub All-insert {κ} :
      (P : A → Type κ) (x : A) (front back : List A)
      → P x
      → All P (front ++ back)
      → All P (front ++ x ∷ back)
  All-insert P x [] back h k = (h, k)
  All-insert P x (y ∷ front) back h k = (k.0, All-insert P x front back h k.1)

  pub length-insert :
      (x : A) (front back : List A) → length (front ++ x ∷ back) ≡ suc (length (front ++ back))
  length-insert x [] back = refl
  length-insert x (y ∷ front) back = omega (arith, length-insert x front back)

  pub All-without {κ} :
      (P : A → Type κ) (x : A) (front back : List A)
      → All P (front ++ x ∷ back)
      → All P (front ++ back)
  All-without P x [] back h = h.1
  All-without P x (y ∷ front) back h = (h.0, All-without P x front back h.1)

pub Fresh-insert :
    (q p : ℕ) (front back : List ℕ) → q ≢ p → Fresh q (front ++ back) → Fresh q (front ++ p ∷ back)
Fresh-insert q p [] back h k = (h, k)
Fresh-insert q p (y ∷ front) back h k = (k.0, Fresh-insert q p front back h k.1)

pub Distinct-insert :
    (p : ℕ) (front back : List ℕ)
    → Fresh p (front ++ back)
    → Distinct (front ++ back)
    → Distinct (front ++ p ∷ back)
Distinct-insert p [] back f d = (f, d)
Distinct-insert p (q ∷ front) back f d =
    (Fresh-insert q p front back (λ e. f.0 (sym e)) d.0, Distinct-insert p front back f.1 d.1)

Fresh-without :
    (q p : ℕ) (front back : List ℕ) → Fresh q (front ++ p ∷ back) → Fresh q (front ++ back)
Fresh-without q p [] back f = f.1
Fresh-without q p (y ∷ front) back f = (f.0, Fresh-without q p front back f.1)

pub Fresh-later : (q p : ℕ) (front back : List ℕ) → Fresh q (front ++ p ∷ back) → q ≢ p
Fresh-later q p [] back f = f.0
Fresh-later q p (y ∷ front) back f = Fresh-later q p front back f.1

pub Distinct-without :
    (p : ℕ) (front back : List ℕ) → Distinct (front ++ p ∷ back) → Distinct (front ++ back)
Distinct-without p [] back d = d.1
Distinct-without p (q ∷ front) back d =
    (Fresh-without q p front back d.0, Distinct-without p front back d.1)

-- Each key is at most the keys behind it.
abbrev pub Sorted : (ℕ → ℕ) → List ℕ → Type 0
Sorted f [] = Unit {0}
Sorted f (x ∷ xs) = All (λ y. f x ≤ f y) xs × Sorted f xs

pub All-mono :
    (f : ℕ → ℕ) (a b : ℕ) (xs : List ℕ) → a ≤ b → All (λ y. b ≤ f y) xs → All (λ y. a ≤ f y) xs
All-mono f a b [] h k = tt
All-mono f a b (x ∷ xs) h k = (omega arith, All-mono f a b xs h k.1)

-- Behind all entries with a key at most its own, a new entry keeps the list sorted.
pub Sorted-insert :
    (f : ℕ → ℕ) (p : ℕ) (xs : List ℕ)
    → Sorted f xs
    → let t = λ (q : ℕ). leb (f q) (f p) in Sorted f (take_while t xs ++ p ∷ drop_while t xs)
Sorted-insert f p [] s = (tt, tt)
Sorted-insert f p (x ∷ xs) s = elim (Bool-cases (leb (f x) (f p))) [
  | inl e ↦
      let t = λ (q : ℕ). leb (f q) (f p) in
      rw e (
        All-insert (λ y. f x ≤ f y) p (take_while t xs) (drop_while t xs) (leb-le _ _ e)
            (rw (take-append-drop_while t xs) s.0),
        Sorted-insert f p xs s.1,
      )
  | inr e ↦ rw e (((ground arith), All-mono f (f p) (f x) xs (ground arith) s.0), s)
]

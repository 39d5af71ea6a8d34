-- ===== src/Common/Lists.antt =====
-- Lists measured by native numbers, prefixes that pass a test, and predicates by recursion.
use Prim.Native.Nat.{ℕ, zero, suc, ◌+◌}
use mathlib.Core.Path.{◌≡◌, refl}
use mathlib.Core.Logic.{◌≢◌}
use mathlib.Core.Bool.{Bool}
use mathlib.Core.List.{List, [], ◌∷◌, ◌++◌}
use mathlib.Core.Option.{Option, none, some}
use native.Mathlib.Omega.{arith}
use cxp.Common.Tests.{if◌then◌else◌}

module _ {ℓ} {A : Type ℓ} where
  abbrev pub length : List A → ℕ
  length [] = 0
  length (x ∷ xs) = suc (length xs)

  pub length-append : (xs ys : List A) → length (xs ++ ys) ≡ length xs + length ys
  length-append [] ys = omega arith
  length-append (x ∷ xs) ys = omega (arith, length-append xs ys)

  abbrev pub get_elem? : List A → ℕ → Option A
  get_elem? [] i = none
  get_elem? (x ∷ xs) zero = some x
  get_elem? (x ∷ xs) (suc i) = get_elem? xs i

  abbrev pub get_or : List A → ℕ → A → A
  get_or [] i d = d
  get_or (x ∷ xs) zero d = x
  get_or (x ∷ xs) (suc i) d = get_or xs i d

  abbrev pub first : List A → Option A
  first [] = none
  first (x ∷ xs) = some x

  abbrev pub last : A → List A → A
  last x [] = x
  last x (y ∷ ys) = last y ys

  -- The last element, or `o` of an empty list.
  abbrev pub last_or : Option A → List A → Option A
  last_or o [] = o
  last_or o (x ∷ xs) = some (last x xs)

  -- The longest prefix that passes the test, and what follows it.
  abbrev pub take_while : (A → Bool) → List A → List A
  take_while t [] = []
  take_while t (x ∷ xs) = if t x then x ∷ take_while t xs else []

  abbrev pub drop_while : (A → Bool) → List A → List A
  drop_while t [] = []
  drop_while t (x ∷ xs) = if t x then drop_while t xs else x ∷ xs

  pub take-append-drop_while :
      (t : A → Bool) (xs : List A) → take_while t xs ++ drop_while t xs ≡ xs
  take-append-drop_while t [] = refl
  take-append-drop_while t (x ∷ xs) = ground (arith, take-append-drop_while t xs)

  pub last_or-last : (x : A) (xs : List A) → last_or (some x) xs ≡ some (last x xs)
  last_or-last x [] = refl
  last_or-last x (y ∷ ys) = refl

  abbrev pub All {κ} : (A → Type κ) → List A → Type κ
  All P [] = Unit
  All P (x ∷ xs) = P x × All P xs

-- No element is the address `p`.
abbrev pub Fresh : ℕ → List ℕ → Type 0
Fresh p [] = Unit {0}
Fresh p (q ∷ qs) = (p ≢ q) × Fresh p qs

-- No address occurs twice.
abbrev pub Distinct : List ℕ → Type 0
Distinct [] = Unit {0}
Distinct (q ∷ qs) = Fresh q qs × Distinct qs

pub Fresh-append : (p : ℕ) (xs ys : List ℕ) → Fresh p xs → Fresh p ys → Fresh p (xs ++ ys)
Fresh-append p [] ys f g = g
Fresh-append p (x ∷ xs) ys f g = (f.0, Fresh-append p xs ys f.1 g)

pub All-append_right {ℓ κ} :
    {A : Type ℓ} (P : A → Type κ) (xs ys : List A) → All P (xs ++ ys) → All P ys
All-append_right P [] ys h = h
All-append_right P (x ∷ xs) ys h = All-append_right P xs ys h.1

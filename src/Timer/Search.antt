-- ===== src/Timer/Search.antt =====
-- Where the two loops of `removeFromQueue` stop in a queue in time order (timer.c).
use cxp.Common.{
  ℕ, ◌≤◌, ◌≡◌, refl, ap, ◌∙◌, Bool, true, false, Option, none, some, arith, List, [], ◌∷◌, ◌++◌,
  length, first, last_or, take_while, drop_while, take-append-drop_while, All, Bool-cases, inl, inr,
  ◌==◌, not, ◌&&◌,
}
use mathlib.Core.List.{append_assoc}
use cxp.Common.Int.{ℤ, ◌≤ℤ◌, leb_ℤ, ltb_ℤ, eqb_ℤ}
use cxp.Common.Chain.{walk, walk_lem, list_fuel, Chain-drop_while}
use cxp.Timer.{Timers, link_of, time_of, proc_of, remove_place}
use cxp.Timer.Queue.{InOrder, Timeouts, All-earlier}

abbrev pub earlier : Timers → ℤ → ℕ → Bool
earlier t time q = ltb_ℤ (time_of t q) time

-- An entry for the time that belongs to another process.
abbrev pub others : Timers → ℤ → ℕ → ℕ → Bool
others t time proc q = eqb_ℤ (time_of t q) time && not (proc_of t q == proc)

-- The entry of the process for the time.
abbrev pub matches : Timers → ℤ → ℕ → ℕ → Bool
matches t time proc q = eqb_ℤ (time_of t q) time && proc_of t q == proc

abbrev pub passed : Timers → ℤ → ℕ → List ℕ → List ℕ
passed t time proc ds =
    take_while (earlier t time) ds
    ++ take_while (others t time proc) (drop_while (earlier t time) ds)

-- What follows the entries that the two loops pass.
abbrev pub rest : Timers → ℤ → ℕ → List ℕ → List ℕ
rest t time proc ds = drop_while (others t time proc) (drop_while (earlier t time) ds)

last_or-append : (o : Option ℕ) (xs ys : List ℕ) → last_or (last_or o xs) ys ≡ last_or o (xs ++ ys)
last_or-append o [] ys = refl
last_or-append o (x ∷ []) [] = refl
last_or-append o (x ∷ []) (y ∷ ys) = refl
last_or-append o (x ∷ z ∷ xs) ys = last_or-append o (z ∷ xs) ys

pub length-drop_while-le : (p : ℕ → Bool) (xs : List ℕ) → length (drop_while p xs) ≤ length xs
length-drop_while-le p [] = omega arith
length-drop_while-le p (x ∷ xs) = ground (arith, length-drop_while-le p xs)

module _ (t : Timers) (k : ℕ) (time : ℤ) (proc : ℕ) (ds : List ℕ) (q : Timeouts t k ds) where
  pub passed-append-rest : passed t time proc ds ++ rest t time proc ds ≡ ds
  passed-append-rest =
      append_assoc (take_while (earlier t time) ds) _ _
      ∙ ap (λ (l : List ℕ). take_while (earlier t time) ds ++ l)
          (take-append-drop_while (others t time proc) (drop_while (earlier t time) ds))
      ∙ take-append-drop_while (earlier t time) ds

  pub remove_place_lem :
      remove_place t k time proc
      ≡ (last_or none (passed t time proc ds), first (rest t time proc ds))
  unfolding remove_place
  remove_place_lem =
      let later = drop_while (earlier t time) ds in
      ap (λ (r : Option ℕ × Option ℕ). walk list_fuel (others t time proc) (link_of t) r.0 r.1)
        (walk_lem list_fuel (earlier t time) (link_of t) none (t.time_que k) ds q.short q.chain)
      ∙ walk_lem list_fuel (others t time proc) (link_of t)
          (last_or none (take_while (earlier t time) ds)) (first later) later
          (omega (arith, q.short, length-drop_while-le (earlier t time) ds))
          (Chain-drop_while (link_of t) (earlier t time) (t.time_que k) ds q.chain)
      ∙ ap (λ (o : Option ℕ). (o, first (rest t time proc ds)))
          (last_or-append none (take_while (earlier t time) ds)
            (take_while (others t time proc) later))

abbrev pub NoMatch : Timers → ℤ → ℕ → Option ℕ → Type 0
NoMatch t time proc none = Unit {0}
NoMatch t time proc (some c) = matches t time proc c ≡ false

module _ (t : Timers) (time : ℤ) (proc : ℕ) where
  All-beyond :
      (a : ℤ) (xs : List ℕ)
      → ltb_ℤ time a ≡ true
      → All (λ y. a ≤ℤ time_of t y) xs
      → All (λ y. matches t time proc y ≡ false) xs
  All-beyond a [] e h = tt
  All-beyond a (x ∷ xs) e h = (ground (arith, h.0), All-beyond a xs e h.1)

  -- Among entries that are not too early, the second loop stops at the process's entry if there is one.
  NoMatch-others :
      (xs : List ℕ)
      → InOrder (time_of t) xs
      → All (λ y. time ≤ℤ time_of t y) xs
      → NoMatch t time proc (first (drop_while (others t time proc) xs))
      → All (λ y. matches t time proc y ≡ false) xs
  NoMatch-others [] s l = λ h. tt
  NoMatch-others (x ∷ xs) s l = elim (Bool-cases (others t time proc x)) [
    | inl e ↦ rw e (λ h. (ground arith, NoMatch-others xs s.1 l.1 h))
    | inr e ↦ rw e (λ h. (h, All-beyond (time_of t x) xs (ground (arith, l.0, h)) s.0))
  ]

  pub NoMatch-rest :
      (xs : List ℕ)
      → InOrder (time_of t) xs
      → NoMatch t time proc (first (rest t time proc xs))
      → All (λ y. matches t time proc y ≡ false) xs
  NoMatch-rest [] s = λ h. tt
  NoMatch-rest (x ∷ xs) s = elim (Bool-cases (earlier t time x)) [
    | inl e ↦ rw e (λ h. (ground arith, NoMatch-rest xs s.1 h))
    | inr e ↦
        let l : time ≤ℤ time_of t x = ground arith in
        rw e (λ h.
          NoMatch-others (x ∷ xs) s (l, All-earlier (time_of t) time (time_of t x) xs l s.0) h)
  ]

others-absent :
    (t : Timers) (time : ℤ) (proc : ℕ) (xs : List ℕ)
    → InOrder (time_of t) xs
    → All (λ y. time ≤ℤ time_of t y) xs
    → All (λ q. matches t time proc q ≡ false) xs
    → drop_while (others t time proc) xs ≡ drop_while (λ q. leb_ℤ (time_of t q) time) xs
others-absent t time proc [] s l m = refl
others-absent t time proc (x ∷ xs) s l m =
    ground (arith, l.0, m.0, others-absent t time proc xs s.1 l.1 m.1)

pub rest-absent :
    (t : Timers) (time : ℤ) (proc : ℕ) (xs : List ℕ)
    → InOrder (time_of t) xs
    → All (λ q. matches t time proc q ≡ false) xs
    → rest t time proc xs ≡ drop_while (λ q. leb_ℤ (time_of t q) time) xs
rest-absent t time proc [] s m = refl
rest-absent t time proc (x ∷ xs) s m = elim (Bool-cases (earlier t time x)) [
  | inl e ↦
      let l : leb_ℤ (time_of t x) time ≡ true = ground arith in
      rw (e, l) (rest-absent t time proc xs s.1 m.1)
  | inr e ↦
      let l : time ≤ℤ time_of t x = ground arith in
      rw e (
        others-absent t time proc (x ∷ xs) s
          (l, All-earlier (time_of t) time (time_of t x) xs l s.0) m)
]

pub NoMatch-absent :
    (t : Timers) (time : ℤ) (proc : ℕ) (p : ℕ → Bool) (xs : List ℕ)
    → All (λ q. matches t time proc q ≡ false) xs
    → NoMatch t time proc (first (drop_while p xs))
NoMatch-absent t time proc p [] m = tt
NoMatch-absent t time proc p (x ∷ xs) m = elim (Bool-cases (p x)) [
  | inl e ↦ rw e (NoMatch-absent t time proc p xs m.1)
  | inr e ↦ rw e m.0
]

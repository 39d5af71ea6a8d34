-- ===== src/Trace/Text.antt =====
-- What the trace buffer holds, and what `display` prints of it (dbg.c).
use mathlib.Core.List.{append-nil}
use cxp.Common.{
  ℕ, zero, suc, ◌+◌, ◌-◌, ◌≤◌, ◌<◌, ◌≡◌, ◌≢◌, refl, sym, ◌∙◌, ap, inl, inr, true, false, Bool-cases,
  some, update, ◌==◌, ==-refl, ==-ne, leb, ltb, List, [], ◌∷◌, length, All, arith,
}
use cxp.Trace.{Trace, tracemax, margin, print_at, append_text, wrap_around, string_at, print_until}

-- The `n` characters from `a` on.
abbrev pub segment : (ℕ → ℕ) → ℕ → ℕ → List ℕ
segment trace a zero = []
segment trace a (suc n) = trace a ∷ segment trace (suc a) n

length-segment : (trace : ℕ → ℕ) (a n : ℕ) → length (segment trace a n) ≡ n
length-segment trace a zero = refl
length-segment trace a (suc n) = omega (arith, length-segment trace (suc a) n)

-- A string is the characters up to the NUL.
string_at-segment :
    (f : ℕ) (trace : ℕ → ℕ) (a n b : ℕ)
    → a + n ≡ b
    → n < f
    → ((j : ℕ) → a ≤ j → j < b → trace j ≢ 0)
    → trace b ≡ 0
    → string_at f trace a ≡ some (segment trace a n)
unfolding string_at
string_at-segment zero trace a n b e l h z = absurd (omega (arith, l))
string_at-segment (suc f) trace a zero b e l h z =
    let same : a ≡ b = omega (arith, e) in rw (same, string_at, z) refl
string_at-segment (suc f) trace a (suc n) b e l h z =
    rw
      (
        string_at,
        ==-ne (trace a) 0 (h a (omega arith) (omega (arith, e))),
        string_at-segment f trace (suc a) n b (omega (arith, e)) (omega (arith, l))
            (λ j g g'. h j (omega (arith, g)) g') z,
      )
      refl

-- Two rounds are enough: the first prints all.
pub print_until-segment :
    (trace : ℕ → ℕ) (a b : ℕ)
    → b ≤ tracemax
    → ((j : ℕ) → a ≤ j → j < b → trace j ≢ 0)
    → (a < b → trace b ≡ 0)
    → print_until 2 trace a b ≡ some (segment trace a (b - a))
unfolding print_until
print_until-segment trace a b l h z = elim (Bool-cases (ltb a b)) [
  | inl e ↦
      let lt : a < b = ground arith in
      let done : ltb (a + (b - a)) b ≡ false = ground (arith, lt) in
      rw
        (
          print_until,
          e,
          string_at-segment (suc tracemax) trace a (b - a) b (omega (arith, lt)) (omega (arith, l))
              h (z lt),
          length-segment trace a (b - a),
          print_until,
          done,
        )
        (ap some (append-nil _))
  | inr e ↦ let none_left : b - a ≡ 0 = ground (arith, e) in rw (print_until, e, none_left) refl
]

-- Between calls: the characters since the last wrap, with a NUL behind them, and after a wrap the
-- older ones, with a NUL behind them.
pub record Text (t : Trace) : Type 0 where
  pub new : (j : ℕ) → j < t.position → t.trace j ≢ 0
  pub new_end : 0 < t.position → t.trace t.position ≡ 0
  pub old : (j : ℕ) → t.wrapped ≡ true → t.position < j → j < t.limit → t.trace j ≢ 0
  pub old_end : t.wrapped ≡ true → t.position < t.limit → t.trace t.limit ≡ 0

abbrev pub NoNul : List ℕ → Type 0
NoNul text = All (λ c. c ≢ 0) text

pub print_at-before :
    (trace : ℕ → ℕ) (p : ℕ) (text : List ℕ) (j : ℕ) → j < p → print_at trace p text j ≡ trace j
unfolding print_at
print_at-before trace p [] j l = rw (==-ne j p (λ e. omega (arith, e, l))) refl
print_at-before trace p (c ∷ cs) j l =
    print_at-before (update trace p c) (suc p) cs j (omega (arith, l))
    ∙ rw (==-ne j p (λ e. omega (arith, e, l))) refl

pub print_at-after :
    (trace : ℕ → ℕ) (p : ℕ) (text : List ℕ) (j : ℕ)
    → p + length text < j
    → print_at trace p text j ≡ trace j
unfolding print_at
print_at-after trace p [] j l = rw (==-ne j p (λ e. omega (arith, e, l))) refl
print_at-after trace p (c ∷ cs) j l =
    print_at-after (update trace p c) (suc p) cs j (omega (arith, l))
    ∙ rw (==-ne j p (λ e. omega (arith, e, l))) refl

print_at-end :
    (trace : ℕ → ℕ) (p : ℕ) (text : List ℕ) (e : ℕ)
    → p + length text ≡ e
    → print_at trace p text e ≡ 0
unfolding print_at
print_at-end trace p [] e h = let same : p ≡ e = omega (arith, h) in rw (same, ==-refl e) refl
print_at-end trace p (c ∷ cs) e h = print_at-end (update trace p c) (suc p) cs e (omega (arith, h))

print_at-within :
    (trace : ℕ → ℕ) (p : ℕ) (text : List ℕ) (j : ℕ)
    → NoNul text
    → p ≤ j
    → j < p + length text
    → print_at trace p text j ≢ 0
unfolding print_at
print_at-within trace p [] j h l g = absurd (omega (arith, l, g))
print_at-within trace p (c ∷ cs) j h l g = elim (Bool-cases (j == p)) [
  | inl e ↦
      let same : j ≡ p = ground arith in
      let here = print_at-before (update trace p c) (suc p) cs p (omega arith) in
      λ z. h.0 (
        sym (here ∙ rw (==-refl p) refl)
        ∙ ap (print_at (update trace p c) (suc p) cs) (sym same)
        ∙ z)
  | inr e ↦
      print_at-within (update trace p c) (suc p) cs j h.1 (ground (arith, l, e)) (omega (arith, g))
]

pub append_text-Text : (t : Trace) (text : List ℕ) → NoNul text → Text t → Text (append_text t text)
unfolding append_text
append_text-Text t text h v = record {
  new = λ j l. elim (Bool-cases (ltb j t.position)) [
    | inl e ↦
        let before : j < t.position = ground arith in
        λ z. v.new j before (sym (print_at-before t.trace t.position text j before) ∙ z)
    | inr e ↦ print_at-within t.trace t.position text j h (ground (arith, e)) l
  ];
  new_end = λ l. print_at-end t.trace t.position text _ refl;
  old = λ j w l g z.
      v.old j w (omega (arith, l)) g (sym (print_at-after t.trace t.position text j l) ∙ z);
  old_end =
      λ w l. print_at-after t.trace t.position text t.limit l ∙ v.old_end w (omega (arith, l));
}

pub wrap_around-Text : (t : Trace) → Text t → Text (wrap_around t)
unfolding wrap_around
wrap_around-Text t v = elim (Bool-cases (leb t.limit (t.position + margin))) [
  | inl e ↦
      rw (wrap_around, e)
        record {
          new = λ j l. absurd (omega (arith, l));
          new_end = λ l. absurd (omega (arith, l));
          old = λ j w l g. v.new j g;
          old_end = λ w l. v.new_end l;
        }
  | inr e ↦ rw (wrap_around, e) v
]

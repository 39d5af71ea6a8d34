-- ===== src/Trace/Buffer.antt =====
-- One call of `report`, and the invariants of the buffer (dbg.c).
use cxp.Common.{
  ℕ, ◌+◌, ◌≤◌, ◌<◌, ◌≡◌, refl, sym, ◌∙◌, inl, inr, ◌⊎◌, true, false, Bool-cases, if◌then◌else◌, leb,
  List, length, arith,
}
use mathlib.Core.Bool.{false≢true}
use cxp.Trace.{Trace, tracemax, margin, append_text, allocated, wrap_around, report}
use cxp.Trace.Text.{Text, NoNul, print_at-after, append_text-Text, wrap_around-Text}

pub record InBounds (t : Trace) : Type 0 where
  pub limit_le : t.limit ≤ tracemax
  pub position_lt : t.position < tracemax
  pub unwrapped : t.initial ≡ true → t.wrapped ≡ false
  pub ahead : t.initial ≡ false → margin ≤ t.limit → t.position < t.limit

-- After `wrap_around`, the margin is free.
record Room (t : Trace) : Type 0 where
  limit_le : t.limit ≤ tracemax
  started : t.initial ≡ false
  below : t.position + margin ≤ tracemax
  ahead : margin ≤ t.limit → t.position + margin ≤ t.limit

allocated-InBounds :
    (t : Trace) → InBounds t → InBounds (allocated t) × ((allocated t).initial ≡ false)
allocated-InBounds t b = elim (Bool-cases t.initial) [
  | inl e ↦ rw e (
    record {
      limit_le = omega arith;
      position_lt = b.position_lt;
      unwrapped = λ h. absurd (false≢true h);
      ahead = λ h l. b.position_lt;
    },
    refl,
  )
  | inr e ↦ simp e (b, refl)
]

allocated-Text : (t : Trace) → InBounds t → Text t → Text (allocated t)
allocated-Text t b v = elim (Bool-cases t.initial) [
  | inl e ↦ rw e record {
    new = v.new;
    new_end = v.new_end;
    old = λ j w. absurd (false≢true (sym (b.unwrapped e) ∙ w));
    old_end = λ w. absurd (false≢true (sym (b.unwrapped e) ∙ w));
  }
  | inr e ↦ simp e v
]

wrap_around-Room : (t : Trace) → InBounds t → t.initial ≡ false → Room (wrap_around t)
unfolding wrap_around
wrap_around-Room t b i = elim (Bool-cases (leb t.limit (t.position + margin))) [
  | inl e ↦
      rw (wrap_around, e)
        record {
          limit_le = omega (arith, b.position_lt);
          started = i;
          below = omega arith;
          ahead = λ l. l;
        }
  | inr e ↦
      rw (wrap_around, e)
        record {
          limit_le = b.limit_le;
          started = i;
          below = ground (arith, e, b.limit_le);
          ahead = λ l. ground (arith, e);
        }
]

append_text-InBounds :
    (t : Trace) (n : ℕ)
    → Room t
    → n < margin
    → (t' : Trace) → t'.position ≡ t.position + n
    → t'.limit ≡ t.limit
    → t'.initial ≡ t.initial
    → InBounds t'
append_text-InBounds t n r l t' p e i = record {
  limit_le = omega (arith, e, r.limit_le);
  position_lt = omega (arith, p, l, r.below);
  unwrapped = λ h. absurd (false≢true (sym (i ∙ r.started) ∙ h));
  ahead = λ h g. omega (arith, p, e, l, r.ahead (omega (arith, g, e)));
}

-- The buffer after the time and before the text.
abbrev stamped : Trace → List ℕ → Trace
stamped t now = if t.add_time then append_text t now else t

abbrev stamp : Trace → List ℕ → ℕ
stamp t now = if t.add_time then length now else 0

pub ready : Trace → Trace
ready t = wrap_around (allocated t)

pub record Appended (t t' : Trace) (n : ℕ) : Type 0 where
  pub position : t'.position ≡ t.position + n
  pub limit : t'.limit ≡ t.limit
  pub initial : t'.initial ≡ t.initial
  pub after : (j : ℕ) → t.position + n < j → t'.trace j ≡ t.trace j

append_text-Appended : (t : Trace) (text : List ℕ) → Appended t (append_text t text) (length text)
unfolding append_text
append_text-Appended t text = record {
  position = refl;
  limit = refl;
  initial = refl;
  after = print_at-after t.trace t.position text;
}

stamped-Appended : (t : Trace) (now : List ℕ) → Appended t (stamped t now) (stamp t now)
stamped-Appended t now = elim (Bool-cases t.add_time) [
  | inl e ↦ simp e (append_text-Appended t now)
  | inr e ↦
      simp e record { position = omega arith; limit = refl; initial = refl; after = λ j l. refl }
]

joined-Appended : (t u v : Trace) (n m : ℕ) → Appended t u n → Appended u v m → Appended t v (n + m)
joined-Appended t u v n m a b = record {
  position = omega (arith, a.position, b.position);
  limit = b.limit ∙ a.limit;
  initial = b.initial ∙ a.initial;
  after = λ j l. b.after j (omega (arith, l, a.position)) ∙ a.after j (omega (arith, l));
}

stamped-Text : (t : Trace) (now : List ℕ) → NoNul now → Text t → Text (stamped t now)
stamped-Text t now h v = elim (Bool-cases t.add_time) [
  | inl e ↦ simp e (append_text-Text t now h v)
  | inr e ↦ simp e v
]

pub report-Appended :
    (t : Trace) (now text : List ℕ)
    → Appended (ready t) (report t now text) (stamp (ready t) now + length text)
unfolding report ready
report-Appended t now text =
    joined-Appended (ready t) (stamped (ready t) now) (report t now text) _ _
      (stamped-Appended (ready t) now) (append_text-Appended (stamped (ready t) now) text)

ready-Room : (t : Trace) → InBounds t → Room (ready t)
unfolding ready
ready-Room t b = let (a, i) = allocated-InBounds t b in wrap_around-Room (allocated t) a i

pub report-InBounds :
    (t : Trace) (now text : List ℕ)
    → length now + length text < margin
    → InBounds t
    → InBounds (report t now text)
report-InBounds t now text l b =
    let a = report-Appended t now text in
    append_text-InBounds (ready t) (stamp (ready t) now + length text) (ready-Room t b)
      (small (Bool-cases (ready t).add_time)) (report t now text) a.position a.limit a.initial
  where
    small :
        ((ready t).add_time ≡ true) ⊎ ((ready t).add_time ≡ false)
        → stamp (ready t) now + length text < margin
    small (inl e) = rw e l
    small (inr e) = rw e (omega (arith, l))

ready-Text : (t : Trace) → InBounds t → Text t → Text (ready t)
unfolding ready
ready-Text t b v = wrap_around-Text (allocated t) (allocated-Text t b v)

pub report-Text :
    (t : Trace) (now text : List ℕ)
    → NoNul now
    → NoNul text
    → InBounds t
    → Text t
    → Text (report t now text)
unfolding report ready
report-Text t now text h g b v =
    append_text-Text (stamped (ready t) now) text g
      (stamped-Text (ready t) now h (ready-Text t b v))

pub ready-trace : (t : Trace) (j : ℕ) → (ready t).trace j ≡ t.trace j
unfolding ready wrap_around
ready-trace t j = elim (Bool-cases t.initial) [
  | inl e ↦ elim (Bool-cases (leb tracemax (t.position + margin))) [
    | inl g ↦ simp (e, g) refl
    | inr g ↦ simp (e, g) refl
  ]
  | inr e ↦ elim (Bool-cases (leb t.limit (t.position + margin))) [
    | inl g ↦ simp (e, g) refl
    | inr g ↦ simp (e, g) refl
  ]
]

pub ready-wrapped :
    (t : Trace)
    → t.initial ≡ false
    → t.limit ≤ t.position + margin
    → ((ready t).limit ≡ t.position) × ((ready t).position ≡ 0)
unfolding ready wrap_around
ready-wrapped t i l =
    let e : leb t.limit (t.position + margin) ≡ true = ground (arith, l) in
    (simp (i, e) refl, simp (i, e) refl)

pub stamp-le : (t : Trace) (now : List ℕ) → stamp t now ≤ length now
stamp-le t now = elim (Bool-cases t.add_time) [
  | inl e ↦ rw e (omega arith)
  | inr e ↦ rw e (omega arith)
]

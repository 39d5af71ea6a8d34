-- ===== src/Trace/Held.antt =====
-- The trace buffer holds the text that has been written (dbg.c).
use mathlib.Core.Bool.{false≢true}
use cxp.Common.{
  ℕ, ◌+◌, ◌-◌, ◌≡◌, refl, sym, ap, subst, ◌∙◌, inl, inr, ◌⊎◌, Bool, true, false, Bool-cases, Option,
  none, some, is_some, if◌then◌else◌, leb, List, [], ◌++◌, length, length-append, arith,
}
use cxp.Trace.{Trace, tracemax, margin, print_at, append_text, allocated, wrap_around, report}
use cxp.Trace.Text.{segment, print_at-before, print_at-after}
use cxp.Trace.Written.{
  Written, room, full, begun, write, drop, left, shown, length-drop, left-more, At, At-segment,
  At-same, At-append, At-drop, At-print,
}

-- The buffer holds what has been written. Until it is allocated its end is not set.
pub record Held (t : Trace) (s : Written) : Type 0 where
  pub timed : t.add_time ≡ s.timed
  pub wrapped : t.wrapped ≡ is_some s.older
  pub limit : (if t.initial then tracemax else t.limit) ≡ room s.older
  pub position : t.position ≡ length s.newer
  pub new : At t.trace 0 s.newer
  pub old : At t.trace (length s.newer + 1) (left s.older (length s.newer + 1))

append-Held :
    (t : Trace) (s : Written) (text : List ℕ)
    → Held t s
    → Held (append_text t text) (record s { newer = s.newer ++ text })
unfolding append_text
append-Held t s text h =
    let n = length s.newer in
    let trace' = print_at t.trace t.position text in
    let longer = length-append s.newer text in
    let behind : (n + 1) + length text ≡ length (s.newer ++ text) + 1 = omega (arith, longer) in
    record {
      timed = h.timed;
      wrapped = h.wrapped;
      limit = h.limit;
      position = omega (arith, h.position, longer);
      new =
          At-append trace' 0 s.newer text t.position (omega (arith, h.position))
            (At-same t.trace trace' 0 s.newer
              (λ j l g. print_at-before t.trace t.position text j (omega (arith, g, h.position)))
              h.new)
            (At-print t.trace t.position text);
      old =
          At-same t.trace trace' (length (s.newer ++ text) + 1)
            (left s.older (length (s.newer ++ text) + 1))
            (λ j l g.
              print_at-after t.trace t.position text j (omega (arith, l, h.position, longer)))
            (subst (λ (j : ℕ). At t.trace j (left s.older j)) behind
              (subst (At t.trace ((n + 1) + length text)) (left-more s.older (n + 1) (length text))
                (At-drop t.trace (n + 1) (length text) (left s.older (n + 1)) h.old)));
    }

allocated-Held :
    (t : Trace) (s : Written) → Held t s → Held (allocated t) s × ((allocated t).initial ≡ false)
allocated-Held t s h = elim (Bool-cases t.initial) [
  | inl e ↦ rw e (
    record {
      timed = h.timed;
      wrapped = h.wrapped;
      limit = rw e at h.limit;
      position = h.position;
      new = h.new;
      old = h.old;
    },
    refl,
  )
  | inr e ↦ simp e (h, refl)
]

wrap_around-Held :
    (t : Trace) (s : Written) → t.initial ≡ false → Held t s → Held (wrap_around t) (begun s)
unfolding wrap_around
wrap_around-Held t s i h =
    let end : t.limit ≡ room s.older = rw i at h.limit in
    let test : leb t.limit (t.position + margin) ≡ full s =
      ap (λ (l : ℕ). leb l (t.position + margin)) end
      ∙ ap (λ (p : ℕ). leb (room s.older) (p + margin)) h.position in
    elim (Bool-cases (full s)) [
      | inl e ↦
          rw (wrap_around, test ∙ e, e)
            record {
              timed = h.timed;
              wrapped = refl;
              limit = rw i h.position;
              position = refl;
              new = tt;
              old = At-drop t.trace 0 1 s.newer h.new;
            }
      | inr e ↦ rw (wrap_around, test ∙ e, e) h
    ]

stamped-Held :
    (t : Trace) (s : Written) (now : List ℕ) (a b : Bool)
    → a ≡ b
    → Held t s
    → Held
        (if a then append_text t now else t)
        (record s { newer = (if b then s.newer ++ now else s.newer) })
stamped-Held t s now true true e h = append-Held t s now h
stamped-Held t s now false false e h = h
stamped-Held t s now true false e h = absurd (false≢true (sym e))
stamped-Held t s now false true e h = absurd (false≢true e)

pub report-Held :
    (t : Trace) (s : Written) (now text : List ℕ)
    → Held t s
    → Held (report t now text) (write s now text)
unfolding report
report-Held t s now text h =
    let (a, i) = allocated-Held t s h in
    let u = wrap_around (allocated t) in
    append-Held (if u.add_time then append_text u now else u)
      (record (begun s) {
        newer = (if (begun s).timed then (begun s).newer ++ now else (begun s).newer);
      })
      text
      (let g = wrap_around-Held (allocated t) s i a in
        stamped-Held u (begun s) now u.add_time (begun s).timed g.timed g)

-- The characters that `display` prints from behind the position.
old_shown :
    (t : Trace) (o : Option (List ℕ))
    → t.wrapped ≡ is_some o
    → (t.wrapped ≡ true → t.limit ≡ room o)
    → At t.trace (t.position + 1) (left o (t.position + 1))
    → (if t.wrapped then segment t.trace (t.position + 1) (t.limit - (t.position + 1)) else [])
      ≡ left o (t.position + 1)
old_shown t none w l a = rw w refl
old_shown t (some old) w l a =
    let size : length (drop (t.position + 1) old) ≡ t.limit - (t.position + 1) =
      length-drop (t.position + 1) old ∙ ap (λ (n : ℕ). n - (t.position + 1)) (sym (l w)) in
    rw w (
      subst (λ (n : ℕ). segment t.trace (t.position + 1) n ≡ drop (t.position + 1) old) size
        (At-segment t.trace (t.position + 1) (drop (t.position + 1) old) a))

-- What `display` prints are the two parts of the text.
pub Held-shown :
    (t : Trace) (s : Written)
    → Held t s
    → (t.initial ≡ true → t.wrapped ≡ false)
    → (if t.wrapped then segment t.trace (t.position + 1) (t.limit - (t.position + 1)) else [])
        ++ segment t.trace 0 t.position
      ≡ shown s
Held-shown t s h u =
    let here : length s.newer ≡ t.position = sym h.position in
    let old =
      old_shown t s.older h.wrapped (λ w. end w (Bool-cases t.initial))
        (subst (λ (n : ℕ). At t.trace (n + 1) (left s.older (n + 1))) here h.old) in
    let new : segment t.trace 0 t.position ≡ s.newer =
      subst (λ (n : ℕ). segment t.trace 0 n ≡ s.newer) here (At-segment t.trace 0 s.newer h.new) in
    (λ i. old i ++ new i) ∙ ap (λ (n : ℕ). left s.older (n + 1) ++ s.newer) h.position
  where
    end : t.wrapped ≡ true → (t.initial ≡ true) ⊎ (t.initial ≡ false) → t.limit ≡ room s.older
    end w (inl e) = absurd (false≢true (sym (u e) ∙ w))
    end w (inr e) = rw e at h.limit

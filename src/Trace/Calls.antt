-- ===== src/Trace/Calls.antt =====
-- The calls of the trace in any order: where they write, and what is printed (dbg.c).
use cxp.Common.{
  ℕ, ◌+◌, ◌-◌, ◌≤◌, ◌<◌, ◌≡◌, refl, ◌∙◌, inl, inr, true, false, Bool-cases, Bool, ap, none, some,
  if◌then◌else◌, List, [], ◌++◌, length, arith,
}
use mathlib.Core.Bool.{false≢true}
use cxp.Trace.{Trace, tracemax, margin, start_timed_trace, report, display}
use cxp.Trace.Text.{Text, NoNul, segment, print_until-segment}
use cxp.Trace.Written.{Written, write, shown}
use cxp.Trace.Held.{Held, report-Held, Held-shown}
use cxp.Trace.Buffer.{
  InBounds, ready, report-Appended, report-InBounds, report-Text, ready-trace, ready-wrapped,
  stamp-le,
}

abbrev pub cleared : Trace → Trace
cleared t = record t { position = 0; limit = tracemax; wrapped = false }

-- The traces that the calls make, with what they have written, where no record with its time is longer
-- than the margin.
pub data Recorded : Trace → Written → Type 0 where
  static :
      (trace : ℕ → ℕ)
      → Recorded
          (record {
            add_time = false;
            initial = true;
            trace = trace;
            limit = 0;
            position = 0;
            wrapped = false;
          })
          (record { timed = false; older = none; newer = [] })
  timed :
      {t : Trace} {s : Written}
      → Recorded t s
      → Recorded (start_timed_trace t) (record s { timed = true })
  reported :
      {t : Trace} {s : Written}
      → Recorded t s
      → (now text : List ℕ) → NoNul now
      → NoNul text
      → length now + length text < margin
      → Recorded (report t now text) (write s now text)
  displayed :
      {t : Trace} {s : Written}
      → Recorded t s
      → Recorded (cleared t) (record s { older = none; newer = [] })

Recorded-kept : {t : Trace} {s : Written} → Recorded t s → InBounds t × Text t
Recorded-kept (Recorded.static trace) = (
  record {
    limit_le = omega arith;
    position_lt = omega arith;
    unwrapped = λ h. refl;
    ahead = λ h l. absurd (omega (arith, l));
  },
  record {
    new = λ j l. absurd (omega (arith, l));
    new_end = λ l. absurd (omega (arith, l));
    old = λ j w. absurd (false≢true w);
    old_end = λ w. absurd (false≢true w);
  },
)
Recorded-kept (Recorded.timed r) =
    let (b, v) = Recorded-kept r in
    (
      record {
        limit_le = b.limit_le;
        position_lt = b.position_lt;
        unwrapped = b.unwrapped;
        ahead = b.ahead;
      },
      record { new = v.new; new_end = v.new_end; old = v.old; old_end = v.old_end },
    )
Recorded-kept (Recorded.reported {t} {s} r now text h g l) =
    let (b, v) = Recorded-kept r in (report-InBounds t now text l b, report-Text t now text h g b v)
Recorded-kept (Recorded.displayed r) = (
  record {
    limit_le = omega arith;
    position_lt = omega arith;
    unwrapped = λ h. refl;
    ahead = λ h l. omega arith;
  },
  record {
    new = λ j l. absurd (omega (arith, l));
    new_end = λ l. absurd (omega (arith, l));
    old = λ j w. absurd (false≢true w);
    old_end = λ w. absurd (false≢true w);
  },
)

same_end : (b : Bool) → (if b then tracemax else tracemax) ≡ tracemax
same_end true = refl
same_end false = refl

Recorded-Held : {t : Trace} {s : Written} → Recorded t s → Held t s
Recorded-Held (Recorded.static trace) = record {
  timed = refl;
  wrapped = refl;
  limit = refl;
  position = refl;
  new = tt;
  old = tt;
}
Recorded-Held (Recorded.timed r) =
    let h = Recorded-Held r in
    record {
      timed = refl;
      wrapped = h.wrapped;
      limit = h.limit;
      position = h.position;
      new = h.new;
      old = h.old;
    }
Recorded-Held (Recorded.reported {t} {s} r now text h g l) =
    report-Held t s now text (Recorded-Held r)
Recorded-Held (Recorded.displayed {t} {s} r) =
    let h = Recorded-Held r in
    record {
      timed = h.timed;
      wrapped = refl;
      limit = same_end t.initial;
      position = refl;
      new = tt;
      old = tt;
    }

-- In terms of the buffer: what `display` prints, if it holds such text.
display-segments :
    (t : Trace)
    → InBounds t
    → Text t
    → display 2 t
      ≡ some (
        (if t.wrapped then segment t.trace (t.position + 1) (t.limit - (t.position + 1)) else [])
            ++ segment t.trace 0 t.position,
        cleared t,
      )
unfolding display
display-segments t b v =
    let new =
      print_until-segment t.trace 0 t.position (omega (arith, b.position_lt)) (λ j l g. v.new j g)
        v.new_end in
    let whole : t.position - 0 ≡ t.position = omega arith in
    elim (Bool-cases t.wrapped) [
      | inl e ↦
          let old =
            print_until-segment t.trace (t.position + 1) t.limit b.limit_le
              (λ j l g. v.old j e (omega (arith, l)) g) (λ l. v.old_end e (omega (arith, l))) in
          simp (e, old, new, whole) refl
      | inr e ↦ simp (e, new, whole) refl
    ]

-- At any point in a run of calls of `report`, `display` and `start_timed_trace` whose records are shorter
-- than the margin and have no NUL, `display` ends, each of its loops after at most one call of printf. It
-- prints all that was written since the buffer last wrapped around, in order. Before that, if the buffer
-- has wrapped around since the last `display`, it prints what it held then, less as many characters
-- as were written since and one more. Afterwards the buffer is empty.
pub Recorded-display :
    {t : Trace} {s : Written} → Recorded t s → display 2 t ≡ some (shown s, cleared t)
Recorded-display {t} {s} r =
    let (b, v) = Recorded-kept r in
    display-segments t b v
    ∙ ap (λ (x : List ℕ). some (x, cleared t)) (Held-shown t s (Recorded-Held r) b.unwrapped)

-- In such a run a record is written inside the buffer: no byte beyond it changes, and the position and
-- the end stay within it.
pub Recorded-bounds :
    {t : Trace} {s : Written}
    → Recorded t s
    → (now text : List ℕ) → length now + length text < margin
    → ((j : ℕ) → tracemax ≤ j → (report t now text).trace j ≡ t.trace j)
      × ((report t now text).position < tracemax)
      × ((report t now text).limit ≤ tracemax)
Recorded-bounds {t} r now text l =
    let (b, v) = Recorded-kept r in
    let b' = report-InBounds t now text l b in
    let a = report-Appended t now text in
    (
      λ j g. a.after j (omega (arith, g, a.position, b'.position_lt)) ∙ ready-trace t j,
      b'.position_lt,
      b'.limit_le,
    )

-- In such a run every time the buffer wraps around it becomes smaller for good, by less than the
-- margin at a time; and once it is no larger than the margin, each record overwrites the one before.
pub Recorded-shrinks :
    {t : Trace} {s : Written}
    → Recorded t s
    → t.initial ≡ false
    → (now text : List ℕ)
    → (t.limit ≤ t.position + margin
        → margin ≤ t.limit
        → ((report t now text).limit < t.limit) × (t.limit ≤ (report t now text).limit + margin))
      × (t.limit ≤ margin → (report t now text).position ≤ length now + length text)
Recorded-shrinks {t} r i now text =
    let (b, v) = Recorded-kept r in
    let a = report-Appended t now text in
    (
      λ l g.
          let w = ready-wrapped t i l in
          (omega (arith, a.limit, w.0, b.ahead i g), omega (arith, a.limit, w.0, l)),
      λ l.
          let w = ready-wrapped t i (omega (arith, l)) in
          omega (arith, a.position, w.1, stamp-le (ready t) now),
    )

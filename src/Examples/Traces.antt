-- ===== src/Examples/Traces.antt =====
-- Instances of the theorems about the trace buffer.
use cxp.Common.{◌≡◌, none, some, true, false, [], ◌∷◌, arith}
use cxp.Trace.{Trace, print_at, append_text, wrap_around, report, display}
use cxp.Trace.Written.{Written}
use cxp.Trace.Calls.{Recorded, static, reported, cleared, Recorded-display}

abbrev unused : Trace
unused = record {
  add_time = false;
  initial = true;
  trace = λ j. 0;
  limit = 0;
  position = 0;
  wrapped = false;
}

-- "ab" and then "c".
abbrev two_records : Trace
two_records = report (report unused [] (97 ∷ 98 ∷ [])) [] (99 ∷ [])

-- The text that they have written.
abbrev two_texts : Written
two_texts = record { timed = false; older = none; newer = 97 ∷ 98 ∷ 99 ∷ [] }

two_records-Recorded : Recorded two_records two_texts
two_records-Recorded =
    reported
      (reported (static (λ j. 0)) [] (97 ∷ 98 ∷ []) tt
        ((λ e. absurd (omega (arith, e))), ((λ e. absurd (omega (arith, e))), tt)) (omega arith))
      [] (99 ∷ []) tt ((λ e. absurd (omega (arith, e))), tt) (omega arith)

Recorded-display_example : display 2 two_records ≡ some (97 ∷ 98 ∷ 99 ∷ [], cleared two_records)
unfolding report append_text wrap_around print_at
Recorded-display_example = Recorded-display two_records-Recorded

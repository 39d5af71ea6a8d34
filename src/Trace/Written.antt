-- ===== src/Trace/Written.antt =====
-- The text that the calls of the trace have written, apart from the buffer that holds it (dbg.c).
use cxp.Common.{
  ℕ, zero, suc, ◌+◌, ◌-◌, ◌≤◌, ◌<◌, ◌≡◌, refl, sym, ap, subst, ◌∙◌, Bool, Option, none, some,
  update, if◌then◌else◌, leb, ==-refl, List, [], ◌∷◌, ◌++◌, length, arith,
}
use cxp.Trace.{tracemax, margin, print_at}
use cxp.Trace.Text.{segment, print_at-before}

-- `newer` is the text since the buffer last wrapped around, `older` what it held then, if it has wrapped
-- around since the last display; `timed` says that the time goes before each record.
pub record Written : Type 0 where
  pub timed : Bool
  pub older : Option (List ℕ)
  pub newer : List ℕ

-- Where the buffer ends: behind the older text.
abbrev pub room : Option (List ℕ) → ℕ
room none = tracemax
room (some old) = length old

-- Less than the margin is left.
abbrev pub full : Written → Bool
full s = leb (room s.older) (length s.newer + margin)

abbrev pub begun : Written → Written
begun s = if full s then record s { older = some s.newer; newer = [] } else s

-- One more record.
abbrev pub write : Written → List ℕ → List ℕ → Written
write s now text =
    let b = begun s in record b { newer = (if b.timed then b.newer ++ now else b.newer) ++ text }

abbrev pub drop : ℕ → List ℕ → List ℕ
drop zero xs = xs
drop (suc n) [] = []
drop (suc n) (x ∷ xs) = drop n xs

-- What the newer text has left of the older: all behind its first `n` characters.
abbrev pub left : Option (List ℕ) → ℕ → List ℕ
left none n = []
left (some old) n = drop n old

-- The older text from behind the character on which the NUL of the newer one stands, and the newer.
abbrev pub shown : Written → List ℕ
shown s = left s.older (length s.newer + 1) ++ s.newer

drop-nil : (n : ℕ) → drop n [] ≡ []
drop-nil zero = refl
drop-nil (suc n) = refl

drop-drop : (n m : ℕ) (xs : List ℕ) → drop m (drop n xs) ≡ drop (n + m) xs
drop-drop zero m xs = ap (λ (j : ℕ). drop j xs) (omega arith)
drop-drop (suc n) m [] = drop-nil m ∙ sym (drop-nil (suc n + m))
drop-drop (suc n) m (x ∷ xs) =
    drop-drop n m xs
    ∙ ap (λ (j : ℕ). drop j (x ∷ xs)) {x = suc (n + m)} {y = suc n + m} (omega arith)

pub length-drop : (n : ℕ) (xs : List ℕ) → length (drop n xs) ≡ length xs - n
length-drop zero xs = omega arith
length-drop (suc n) [] = omega arith
length-drop (suc n) (x ∷ xs) = omega (arith, length-drop n xs)

pub left-more : (o : Option (List ℕ)) (n m : ℕ) → drop m (left o n) ≡ left o (n + m)
left-more none n m = drop-nil m
left-more (some old) n m = drop-drop n m old

-- The characters stand in the buffer from `a` on.
abbrev pub At : (ℕ → ℕ) → ℕ → List ℕ → Type 0
At trace a [] = Unit {0}
At trace a (c ∷ cs) = (trace a ≡ c) × At trace (suc a) cs

pub At-segment :
    (trace : ℕ → ℕ) (a : ℕ) (cs : List ℕ) → At trace a cs → segment trace a (length cs) ≡ cs
At-segment trace a [] h = refl
At-segment trace a (c ∷ cs) h = λ i. h.0 i ∷ At-segment trace (suc a) cs h.1 i

pub At-same :
    (trace trace' : ℕ → ℕ) (a : ℕ) (cs : List ℕ)
    → ((j : ℕ) → a ≤ j → j < a + length cs → trace' j ≡ trace j)
    → At trace a cs
    → At trace' a cs
At-same trace trace' a [] s h = tt
At-same trace trace' a (c ∷ cs) s h = (
  s a (omega arith) (omega arith) ∙ h.0,
  At-same trace trace' (suc a) cs (λ j l g. s j (omega (arith, l)) (omega (arith, g))) h.1,
)

pub At-append :
    (trace : ℕ → ℕ) (a : ℕ) (xs ys : List ℕ) (b : ℕ)
    → a + length xs ≡ b
    → At trace a xs
    → At trace b ys
    → At trace a (xs ++ ys)
At-append trace a [] ys b e h g = subst (λ (j : ℕ). At trace j ys) (sym e ∙ omega arith) g
At-append trace a (x ∷ xs) ys b e h g =
    (h.0, At-append trace (suc a) xs ys b (omega (arith, e)) h.1 g)

pub At-drop : (trace : ℕ → ℕ) (a n : ℕ) (cs : List ℕ) → At trace a cs → At trace (a + n) (drop n cs)
At-drop trace a zero cs h = subst (λ (j : ℕ). At trace j cs) {x = a} {y = a + 0} (omega arith) h
At-drop trace a (suc n) [] h = tt
At-drop trace a (suc n) (c ∷ cs) h =
    subst (λ (j : ℕ). At trace j (drop n cs)) {x = suc a + n} {y = a + suc n} (omega arith)
      (At-drop trace (suc a) n cs h.1)

pub At-print : (trace : ℕ → ℕ) (p : ℕ) (text : List ℕ) → At (print_at trace p text) p text
unfolding print_at
At-print trace p [] = tt
At-print trace p (c ∷ cs) = (
  print_at-before (update trace p c) (suc p) cs p (omega arith) ∙ rw (==-refl p) refl,
  At-print (update trace p c) (suc p) cs,
)

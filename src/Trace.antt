-- ===== src/Trace.antt =====
-- The trace buffer (dbg.c). A character is a number, NUL is 0. The text that vsprintf and sprintf form
-- is an argument, and what `display` prints is its result; it writes the same to the file.
pub mod Text
pub mod Buffer
pub mod Written
pub mod Held
pub mod Calls
use cxp.Common.{
  ℕ, zero, suc, ◌+◌, ◌-◌, ◌≡◌, Bool, true, false, Option, none, some, update, if◌then◌else◌, ◌==◌,
  leb, ltb, List, [], ◌∷◌, ◌++◌, length,
}

-- TRACEMAX, MARGIN
abbrev pub tracemax : ℕ
tracemax = 0x40000000

abbrev pub margin : ℕ
margin = 1024

-- `limit` is the variable `end`.
pub record Trace : Type 0 where
  pub add_time : Bool
  pub initial : Bool
  pub trace : ℕ → ℕ
  pub limit : ℕ
  pub position : ℕ
  pub wrapped : Bool

infixl 5 ◌>>=◌
abbrev pub ◌>>=◌ {ℓ κ} : {A : Type ℓ} {B : Type κ} → Option A → (A → Option B) → Option B
none >>= f = none
some a >>= f = f a

-- sprintf to an address: the characters and a NUL.
unfoldable pub print_at : (ℕ → ℕ) → ℕ → List ℕ → ℕ → ℕ
print_at trace p [] = update trace p 0
print_at trace p (c ∷ cs) = print_at (update trace p c) (suc p) cs

-- `pos += vsprintf(&trace[pos], ...)`
unfoldable pub append_text : Trace → List ℕ → Trace
unfolding print_at
append_text t text = record t {
  trace = print_at t.trace t.position text;
  position = t.position + length text;
}

-- The buffer is allocated.
abbrev pub allocated : Trace → Trace
allocated t = if t.initial then record t { initial = false; limit = tracemax } else t

-- `if (pos >= end - MARGIN)`, on integers.
unfoldable pub wrap_around : Trace → Trace
wrap_around t =
    if leb t.limit (t.position + margin)
    then record t { limit = t.position; position = 0; wrapped = true }
    else t

abbrev pub start_timed_trace : Trace → Trace
start_timed_trace t = record t { add_time = true }

-- `report`; `now` is the time as text.
unfoldable pub report : Trace → List ℕ → List ℕ → Trace
unfolding append_text wrap_around
report t now text =
    let t1 = wrap_around (allocated t) in
    append_text (if t1.add_time then append_text t1 now else t1) text

-- The characters that `printf("%s", &trace[p])` prints, on fuel for the NUL to be found.
unfoldable pub string_at : ℕ → (ℕ → ℕ) → ℕ → Option (List ℕ)
string_at zero trace p = none
string_at (suc f) trace p = elim (trace p == 0) [
  | true ↦ some []
  | false ↦ string_at f trace (suc p) >>= λ cs. some (trace p ∷ cs)
]

-- `while (p < end) p += printf("%s", &trace[p]);`, on fuel for the rounds.
unfoldable pub print_until : ℕ → (ℕ → ℕ) → ℕ → ℕ → Option (List ℕ)
unfolding string_at
print_until zero trace p limit = none
print_until (suc f) trace p limit = elim (ltb p limit) [
  | false ↦ some []
  | true ↦ string_at (suc tracemax) trace p >>= λ cs.
      print_until f trace (p + length cs) limit >>= λ more. some (cs ++ more)
]

-- `display`
unfoldable pub display : ℕ → Trace → Option (List ℕ × Trace)
unfolding print_until
display rounds t = do
  old ← (if t.wrapped then print_until rounds t.trace (t.position + 1) t.limit else some [])
  new ← print_until rounds t.trace 0 t.position
  some (old ++ new, record t { position = 0; limit = tracemax; wrapped = false })

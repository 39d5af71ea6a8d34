-- ===== src/Memory/Laid.antt =====
-- How the blocks lie in the region, and which of them are free (memory.c).
use cxp.Common.{
  ℕ, ◌+◌, ◌≤◌, ◌<◌, ◌≡◌, ◌≢◌, sym, ap, Option, none, some, arith, update, List, [], ◌∷◌, All, Fresh,
  Distinct, ==-ne,
}
use cxp.Common.Chain.{Chain}
use cxp.Memory.{Memory, nalloc, memory_init}
use cxp.Memory.Blocks.{block_len}

-- A free list holds blocks of its class that are not in use.
abbrev pub Free : (ℕ → Option ℕ) → (ℕ → Option ℕ) → ℕ → List ℕ → Type 0
Free cut owner i = All (λ a. (cut a ≡ some i) × (owner a ≡ none))

-- `cut` tells which blocks have been cut from the region, with their classes.
pub record Laid (base : ℕ) (m : Memory) (owner : ℕ → Option ℕ) : Type 0 where
  pub cut : ℕ → Option ℕ
  pub frees : ℕ → List ℕ
  pub used : (a i : ℕ) → owner a ≡ some i → cut a ≡ some i
  pub within :
      (a i : ℕ)
      → cut a ≡ some i
      → (base ≤ a) × (a + block_len i ≤ m.tail) × (0 < block_len i) × (i < nalloc)
  pub after : (a b i j : ℕ) → cut a ≡ some i → cut b ≡ some j → a < b → a + block_len i ≤ b
  pub chain : (i : ℕ) → i < nalloc → Chain m.next (m.procmemlist i) (frees i)
  pub distinct : (i : ℕ) → Distinct (frees i)
  pub free : (i : ℕ) → Free cut owner i (frees i)
  pub reached : base ≤ m.tail

pub begin-Laid : (m : Memory) (base total : ℕ) → Laid base (memory_init m base total) (λ a. none)
unfolding memory_init
begin-Laid m base total = record {
  cut = λ a. none;
  frees = λ i. [];
  used = λ a i h. h;
  within = λ a i h. absurd (cc);
  after = λ a b i j h. absurd (cc);
  chain = λ i h. ground arith;
  distinct = λ i. tt;
  free = λ i. tt;
  reached = omega arith;
}

-- A block in use is on no free list.
pub Free-Fresh :
    (cut owner : ℕ → Option ℕ) (i j a : ℕ) (bs : List ℕ)
    → owner a ≡ some j
    → Free cut owner i bs
    → Fresh a bs
Free-Fresh cut owner i j a [] e f = tt
Free-Fresh cut owner i j a (b ∷ bs) e f =
    (λ s. absurd (cc (ap owner s)), Free-Fresh cut owner i j a bs e f.1)

-- A block that is not on the list leaves it as it is.
pub Free-update :
    (cut owner : ℕ → Option ℕ) (i a : ℕ) (v : Option ℕ) (bs : List ℕ)
    → Fresh a bs
    → Free cut owner i bs
    → Free cut (update owner a v) i bs
Free-update cut owner i a v [] e f = tt
Free-update cut owner i a v (b ∷ bs) e f =
    ((f.0.0, rw (==-ne b a (λ s. e.0 (sym s))) f.0.1), Free-update cut owner i a v bs e.1 f.1)

-- Nor does a new block, which is not on it.
pub Free-cut :
    (cut owner : ℕ → Option ℕ) (i a : ℕ) (v : Option ℕ) (bs : List ℕ)
    → Fresh a bs
    → Free cut owner i bs
    → Free (update cut a v) owner i bs
Free-cut cut owner i a v [] e f = tt
Free-cut cut owner i a v (b ∷ bs) e f =
    ((rw (==-ne b a (λ s. e.0 (sym s))) f.0.0, f.0.1), Free-cut cut owner i a v bs e.1 f.1)

-- A block of another class is not on the list.
pub Free-other :
    (cut owner : ℕ → Option ℕ) (i j a : ℕ) (bs : List ℕ)
    → i ≢ j
    → cut a ≡ some j
    → Free cut owner i bs
    → Fresh a bs
Free-other cut owner i j a [] ne e f = tt
Free-other cut owner i j a (b ∷ bs) ne e f =
    (λ s. absurd (ne (ground (arith, ap cut s))), Free-other cut owner i j a bs ne e f.1)

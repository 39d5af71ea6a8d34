-- ===== src/Memory/Classes.antt =====
-- `find_mem_index` finds the smallest block that is large enough.
use cxp.Common.{
  length, ℕ, zero, suc, ◌+◌, ◌≤◌, ◌<◌, ◌≡◌, refl, List, [], ◌∷◌, arith, get_or, leb, Bool-cases,
  inl, inr, ◌==◌, true, All, all_below, all_below_sound, ltb, subst,
}
use cxp.Common.Outcome.{done, plotz, no_memory_block}
use cxp.Memory.{nalloc, procmemlen, find_from, find_mem_index}

-- The first length that fits, counted from `i`.
pub record FirstFit (lens : List ℕ) (size k : ℕ) : Type 0 where
  pub fits : size ≤ get_or lens k 0
  pub positive : 0 < get_or lens k 0
  pub least : (j : ℕ) → j < k → get_or lens j 0 < size

least_suc :
    (len : ℕ) (lens : List ℕ) (size k : ℕ)
    → len < size
    → ((j : ℕ) → j < k → get_or lens j 0 < size)
    → (j : ℕ) → j < suc k
    → get_or (len ∷ lens) j 0 < size
least_suc len lens size k h f zero l = h
least_suc len lens size k h f (suc j) l = f j (omega arith)

find_from_first :
    (lens : List ℕ) (i size k : ℕ)
    → find_from lens i size ≡ done k
    → (j : ℕ) × (k ≡ i + j) × FirstFit lens size j
unfolding find_from
find_from_first [] i size k h = cc
find_from_first (len ∷ lens) i size k h = elim (Bool-cases (len == 0)) [
  | inl z ↦ absurd (ground arith)
  | inr p ↦ elim (Bool-cases (leb size len)) [
    | inl fit ↦ (
      0,
      ground arith,
      record { fits = ground arith; positive = ground arith; least = λ j l. absurd (omega arith) },
    )
    | inr small ↦
        let (j, e, f) = find_from_first lens (suc i) size k (ground arith) in
        (
          suc j,
          omega arith,
          record {
            fits = f.fits;
            positive = f.positive;
            least = least_suc len lens size j (ground arith) f.least;
          },
        )
  ]
]

-- A size is served if some length of the list, before the 0 that ends it, is large enough.
find_from_total :
    (lens : List ℕ) (i size j : ℕ)
    → ((n : ℕ) → n ≤ j → 0 < get_or lens n 0)
    → size ≤ get_or lens j 0
    → (k : ℕ) × (find_from lens i size ≡ done k)
unfolding find_from
find_from_total [] i size j pos h = absurd (omega (arith, pos 0 (omega arith)))
find_from_total (len ∷ lens) i size zero pos h = (i, ground (arith, pos 0 (omega arith)))
find_from_total (len ∷ lens) i size (suc j) pos h = elim (Bool-cases (leb size len)) [
  | inl fit ↦ (i, ground (arith, pos 0 (omega arith)))
  | inr small ↦
      let (k, e) = find_from_total lens (suc i) size j (λ n l. pos (suc n) (omega arith)) h in
      (k, ground (arith, pos 0 (omega arith)))
]

find_from_big :
    (lens : List ℕ) (i size : ℕ)
    → All (λ l. l < size) lens
    → find_from lens i size ≡ plotz no_memory_block
unfolding find_from
find_from_big [] i size a = refl
find_from_big (len ∷ lens) i size a = ground (arith, find_from_big lens (suc i) size a.1)

positive_table : all_below 21 (λ n. ltb 0 (get_or procmemlen n 0)) ≡ true
unfolding procmemlen
positive_table = refl

positive : (n : ℕ) → n ≤ 20 → 0 < get_or procmemlen n 0
positive n h =
    ground (
      arith,
      all_below_sound 21 (λ n. ltb 0 (get_or procmemlen n 0)) n positive_table (omega arith),
    )

largest : get_or procmemlen 20 0 ≡ 24576
unfolding procmemlen
largest = refl

-- For a size up to 24576 bytes the search succeeds, with the index of a block that is large enough,
-- where every block of a smaller index is too small.
pub find_mem_index-FirstFit :
    (size : ℕ)
    → size ≤ 24576
    → (k : ℕ) × (find_mem_index size ≡ done k) × FirstFit procmemlen size k
unfolding find_mem_index
find_mem_index-FirstFit size h =
    let (k, e) = find_from_total procmemlen 0 size 20 positive (omega (arith, largest)) in
    let (j, eq, f) = find_from_first procmemlen 0 size k e in
    (k, e, subst (FirstFit procmemlen size) (omega arith) f)

-- A larger size ends the program.
find_mem_index_big : (size : ℕ) → 24576 < size → find_mem_index size ≡ plotz no_memory_block
unfolding find_mem_index procmemlen
find_mem_index_big size h = find_from_big procmemlen 0 size (omega arith)

class_small : (lens : List ℕ) (k : ℕ) → 0 < get_or lens k 0 → k < length lens
class_small [] k h = absurd (omega (arith, h))
class_small (l ∷ ls) zero h = omega arith
class_small (l ∷ ls) (suc k) h = omega (arith, class_small ls k h)

classes : length procmemlen ≡ 22
unfolding procmemlen
classes = refl

-- An index that the search gives is the first fit, and inside the table of the free lists.
pub find_mem_index-class :
    (size k : ℕ) → find_mem_index size ≡ done k → FirstFit procmemlen size k × (k < nalloc)
unfolding find_mem_index
find_mem_index-class size k e =
    let (j, eq, f) = find_from_first procmemlen 0 size k e in
    (
      subst (FirstFit procmemlen size) (omega arith) f,
      omega (arith, eq, class_small procmemlen j f.positive, classes),
    )

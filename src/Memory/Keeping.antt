-- ===== src/Memory/Keeping.antt =====
-- Allocations and releases keep the layout of the blocks (memory.c).
use cxp.Common.{
  ℕ, ◌+◌, ◌≤◌, ◌<◌, ◌≡◌, ◌≢◌, refl, sym, subst, ◌∙◌, ap, Option, none, some, arith, update,
  Bool-cases, inl, inr, List, [], ◌∷◌, Fresh, Distinct, ◌==◌, ==-refl, ==-ne, Option-cases, leb,
  leb-le, false, if◌then◌else◌,
}
use cxp.Common.Outcome.{done-injective, done, plotz, out_of_memory}
use cxp.Common.Chain.{Chain, Chain-update}
use cxp.Memory.{Memory, nalloc, from_tail, allocate_mem, release_mem}
use cxp.Memory.Blocks.{block_len, allocate_lem}
use cxp.Memory.Laid.{Free, Laid, Free-Fresh, Free-update, Free-cut, Free-other}

module _ (base : ℕ) (m : Memory) (owner : ℕ → Option ℕ) (l : Laid base m owner) (index : ℕ) where
  -- The free lists after one of them has become `bs`.
  abbrev relisted : List ℕ → ℕ → List ℕ
  relisted bs i = if i == index then bs else l.frees i

  taken_lists :
      (block : ℕ) (bs : List ℕ)
      → l.frees index ≡ block ∷ bs
      → (i : ℕ)
      → Distinct (relisted bs i) × Free l.cut (update owner block (some index)) i (relisted bs i)
  taken_lists block bs e i =
      let d = subst Distinct e (l.distinct index) in
      let f = subst (Free l.cut owner index) e (l.free index) in
      elim (Bool-cases (i == index)) [
        | inl g ↦
            let same : i ≡ index = ground arith in
            rw g (
              d.1,
              subst (λ j. Free l.cut (update owner block (some index)) j bs) (sym same)
                  (Free-update l.cut owner index block (some index) bs d.0 f.1),
            )
        | inr g ↦ rw g (
          l.distinct i,
          Free-update l.cut owner i block (some index) (l.frees i)
              (Free-other l.cut owner i index block (l.frees i) (ground arith) f.0.0 (l.free i))
              (l.free i),
        )
      ]

  taken_chains :
      (block : ℕ) (bs : List ℕ)
      → l.frees index ≡ block ∷ bs
      → index < nalloc
      → (i : ℕ) → i < nalloc
      → Chain m.next (update m.procmemlist index (m.next block) i) (relisted bs i)
  taken_chains block bs e small i s = elim (Bool-cases (i == index)) [
    | inl g ↦ rw g (subst (Chain m.next (m.procmemlist index)) e (l.chain index small)).1
    | inr g ↦ rw g (l.chain i s)
  ]

  -- A block is taken from its free list.
  taken-Laid :
      (block : ℕ) (bs : List ℕ)
      → l.frees index ≡ block ∷ bs
      → index < nalloc
      → Laid base
          (record m { claimed = false; procmemlist = update m.procmemlist index (m.next block) })
          (update owner block (some index))
  taken-Laid block bs e small =
      let f = subst (Free l.cut owner index) e (l.free index) in
      record {
        cut = l.cut;
        frees = relisted bs;
        used = λ a i h. elim (Bool-cases (a == block)) [
          | inl g ↦ let same : a ≡ block = ground arith in rw same (f.0.0 ∙ (ground arith))
          | inr g ↦ l.used a i (ground arith)
        ];
        within = l.within;
        after = l.after;
        chain = taken_chains block bs e small;
        distinct = λ i. (taken_lists block bs e i).0;
        free = λ i. (taken_lists block bs e i).1;
        reached = l.reached;
      }

  -- The tail is above everything that was cut.
  above : (i : ℕ) (bs : List ℕ) → Free l.cut owner i bs → Fresh m.tail bs
  above i [] f = tt
  above i (b ∷ bs) f = (λ s. omega (arith, s, l.within b i f.0.0), above i bs f.1)

  cut-Free :
      (i : ℕ)
      → Free (update l.cut m.tail (some index)) (update owner m.tail (some index)) i (l.frees i)
  cut-Free i =
      let fresh = above i (l.frees i) (l.free i) in
      Free-cut l.cut (update owner m.tail (some index)) i m.tail (some index) (l.frees i) fresh
        (Free-update l.cut owner i m.tail (some index) (l.frees i) fresh (l.free i))

  below_tail :
      (a i : ℕ) → a ≢ m.tail → update l.cut m.tail (some index) a ≡ some i → l.cut a ≡ some i
  below_tail a i ne h = rw (==-ne a m.tail ne) at h

  cut_after :
      (a b i j : ℕ)
      → update l.cut m.tail (some index) a ≡ some i
      → update l.cut m.tail (some index) b ≡ some j
      → a < b
      → a + block_len i ≤ b
  cut_after a b i j h g lt = elim (Bool-cases (b == m.tail)) [
    | inl e ↦
        let same : b ≡ m.tail = ground arith in
        omega (arith, same, l.within a i (below_tail a i (λ s. omega (arith, s, same)) h))
    | inr e ↦
        let old = below_tail b j (ground arith) g in
        l.after a b i j (below_tail a i (λ s. omega (arith, s, l.within b j old)) h) old lt
  ]

  -- A block is cut from the tail.
  cut-Laid :
      index < nalloc
      → 0 < block_len index
      → Laid base
          (record m { claimed = false; tail = m.tail + block_len index })
          (update owner m.tail (some index))
  cut-Laid small positive = record {
    cut = update l.cut m.tail (some index);
    frees = l.frees;
    used = λ a i h. elim (Bool-cases (a == m.tail)) [
      | inl g ↦ rw g (rw g at h)
      | inr g ↦ rw g (l.used a i (rw g at h))
    ];
    within = λ a i h. elim (Bool-cases (a == m.tail)) [
      | inl g ↦ ground (arith, l.reached)
      | inr g ↦ omega (arith, l.within a i (rw g at h))
    ];
    after = cut_after;
    chain = l.chain;
    distinct = l.distinct;
    free = cut-Free;
    reached = omega (arith, l.reached);
  }

  unused : (block : ℕ) → owner block ≡ some index → (i : ℕ) → Fresh block (l.frees i)
  unused block own i = Free-Fresh l.cut owner i index block (l.frees i) own (l.free i)

  -- A block comes back.
  pub released-Laid :
      (block : ℕ)
      → owner block ≡ some index
      → Laid base (release_mem m index block) (update owner block none)
  unfolding release_mem
  released-Laid block own =
      let c = l.used block index own in
      record {
        cut = l.cut;
        frees = relisted (block ∷ l.frees index);
        used = λ a i h. l.used a i (ground arith);
        within = l.within;
        after = l.after;
        chain = λ i s. elim (Bool-cases (i == index)) [
          | inl g ↦ rw g (
            refl,
            rw (==-refl block) (
                Chain-update m.next block (m.procmemlist index) (m.procmemlist index)
                  (l.frees index) (unused block own index)
                  (l.chain index (l.within block index c).3)),
          )
          | inr g ↦ rw g (
              Chain-update m.next block (m.procmemlist index) (m.procmemlist i) (l.frees i)
                (unused block own i) (l.chain i s))
        ];
        distinct = λ i. elim (Bool-cases (i == index)) [
          | inl g ↦ rw g (unused block own index, l.distinct index)
          | inr g ↦ rw g (l.distinct i)
        ];
        free = λ i. elim (Bool-cases (i == index)) [
          | inl g ↦
              let same : i ≡ index = ground arith in
              rw g (
                (c ∙ ap some (sym same), rw (==-refl block) refl),
                subst (λ j. Free l.cut (update owner block none) j (l.frees index)) (sym same)
                    (Free-update l.cut owner index block none (l.frees index)
                      (unused block own index) (l.free index)),
              )
          | inr g ↦
              rw g
                (Free-update l.cut owner i block none (l.frees i) (unused block own i) (l.free i))
        ];
        reached = l.reached;
      }

allocate_listed :
    (m : Memory) (index b : ℕ)
    → m.procmemlist index ≡ some b
    → allocate_mem m index
      ≡ done (b, record m { claimed = false; procmemlist = update m.procmemlist index (m.next b) })
unfolding allocate_mem
allocate_listed m index b e = rw (e, allocate_mem) refl

allocate_full :
    (m : Memory) (index : ℕ)
    → m.procmemlist index ≡ none
    → leb (block_len index) m.taillen ≡ false
    → allocate_mem m index ≡ plotz out_of_memory
unfolding allocate_mem from_tail
allocate_full m index e f = ground arith

-- The tail is not in use.
tail_unused :
    (base : ℕ) (m : Memory) (owner : ℕ → Option ℕ) → Laid base m owner → owner m.tail ≡ none
tail_unused base m owner l = elim (Option-cases (owner m.tail)) [
  | inl e ↦ e
  | inr (i, e) ↦ absurd (omega (arith, l.within m.tail i (l.used m.tail i e)))
]

-- `allocate_mem`, where it succeeds, by the free list of the class.
pub allocated-Laid :
    (base : ℕ) (m m' : Memory) (owner : ℕ → Option ℕ) (index block : ℕ) (bs : List ℕ)
    → (l : Laid base m owner) → l.frees index ≡ bs
    → index < nalloc
    → 0 < block_len index
    → allocate_mem m index ≡ done (block, m')
    → (Laid base m' (update owner block (some index))) × (owner block ≡ none)
allocated-Laid base m m' owner index block [] l e small pos h =
    let free = subst (Chain m.next (m.procmemlist index)) e (l.chain index small) in
    elim (Bool-cases (leb (block_len index) m.taillen)) [
      | inl fits ↦
          let same =
            done-injective
              (sym (allocate_lem m index free (leb-le (block_len index) m.taillen fits)) ∙ h) in
          subst
            (λ (r : ℕ × Memory). Laid base r.1 (update owner r.0 (some index)) × (owner r.0 ≡ none))
            same (cut-Laid base m owner l index small pos, tail_unused base m owner l)
      | inr full ↦ absurd (cc (allocate_full m index free full))
    ]
allocated-Laid base m m' owner index block (b ∷ bs) l e small pos h =
    let c = subst (Chain m.next (m.procmemlist index)) e (l.chain index small) in
    let f = subst (Free l.cut owner index) e (l.free index) in
    subst (λ (r : ℕ × Memory). Laid base r.1 (update owner r.0 (some index)) × (owner r.0 ≡ none))
      (done-injective (sym (allocate_listed m index b c.0) ∙ h))
      (taken-Laid base m owner l index b bs e small, f.0.1)

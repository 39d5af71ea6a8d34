-- ===== src/Hardware/Gathering.antt =====
-- The barrier at which the units wait for each other at the end of their initialization
-- (`synchronize_processors` of hardware.c).
use cxp.Common.{
  ℕ, zero, suc, ◌+◌, ◌<◌, ◌≡◌, ◌≢◌, refl, sym, ap, ◌∙◌, ◌⊎◌, true, false, update, ltb, ◌==◌, ==-ne,
  arith, Bool-cases, inl, inr,
}
use cxp.Common.Int.{ℤ, pos, ◌-ℤ◌, ltb_ℤ}

-- Before `atomic_fetch_sub`, in the loop, and behind it.
pub data SyncPc : Type 0 where
  starting spinning passed : SyncPc

-- One atomic access of a unit: the barrier and the place in the code before and after it.
pub data SyncMove (b : ℤ) : SyncPc → ℤ → SyncPc → Type 0 where
  arrive : SyncMove b starting (b -ℤ pos 1) spinning
  spin : ltb_ℤ (pos 0) b ≡ true → SyncMove b spinning b spinning
  pass : ltb_ℤ (pos 0) b ≡ false → SyncMove b spinning b passed

-- The accesses of `npun` units, in any order.
pub data Gathering (npun : ℕ) : ℤ → (ℕ → SyncPc) → Type 0 where
  begin : Gathering npun (pos npun) (λ i. starting)
  next :
      {b b' : ℤ} {pc : ℕ → SyncPc} {x x' : SyncPc} (i : ℕ)
      → Gathering npun b pc
      → i < npun
      → pc i ≡ x
      → SyncMove b x b' x'
      → Gathering npun b' (update pc i x')

-- 1 for a unit that has not arrived.
abbrev pub weight : SyncPc → ℕ
weight starting = 1
weight spinning = 0
weight passed = 0

-- How many of the first `n` units have not arrived yet.
pub outstanding : ℕ → (ℕ → SyncPc) → ℕ
outstanding zero pc = 0
outstanding (suc n) pc = weight (pc n) + outstanding n pc

outstanding-all : (n : ℕ) → outstanding n (λ i. starting) ≡ n
unfolding outstanding
outstanding-all zero = refl
outstanding-all (suc n) = omega (arith, outstanding-all n)

-- A unit behind the first `n` does not count.
outstanding-beyond :
    (n i : ℕ) (pc : ℕ → SyncPc) (x : SyncPc)
    → n < suc i
    → outstanding n (update pc i x) ≡ outstanding n pc
unfolding outstanding
outstanding-beyond zero i pc x h = refl
outstanding-beyond (suc n) i pc x h =
    rw (==-ne n i (λ e. omega (arith, e, h)))
      (ap (λ (t : ℕ). weight (pc n) + t) (outstanding-beyond n i pc x (omega (arith, h))))

outstanding-update :
    (n i : ℕ) (pc : ℕ → SyncPc) (x : SyncPc)
    → i < n
    → outstanding n (update pc i x) + weight (pc i) ≡ outstanding n pc + weight x
unfolding outstanding
outstanding-update zero i pc x h = absurd (omega (arith, h))
outstanding-update (suc n) i pc x h = elim (Bool-cases (n == i)) [
  | inl e ↦
      let same : n ≡ i = ground arith in
      rw e (
        omega (
          arith,
          outstanding-beyond n i pc x (omega (arith, same)),
          ap (λ (j : ℕ). weight (pc j)) same,
        ))
  | inr e ↦ rw e (omega (arith, outstanding-update n i pc x (ground arith)))
]

outstanding-none : (n j : ℕ) (pc : ℕ → SyncPc) → outstanding n pc ≡ 0 → j < n → pc j ≢ starting
unfolding outstanding
outstanding-none zero j pc e h s = omega (arith, h)
outstanding-none (suc n) j pc e h s = elim (Bool-cases (n == j)) [
  | inl g ↦
      let same : n ≡ j = ground arith in
      let one : weight (pc n) ≡ weight starting = ap weight (ap pc same ∙ s) in
      omega (arith, e, one)
  | inr g ↦ outstanding-none n j pc (omega (arith, e)) (ground arith) s
]

record Gathered (npun : ℕ) (b : ℤ) (pc : ℕ → SyncPc) : Type 0 where
  count : b ≡ pos (outstanding npun pc)
  complete : (i : ℕ) → pc i ≡ passed → outstanding npun pc ≡ 0

none_left : (n : ℕ) → ltb_ℤ (pos 0) (pos n) ≡ false → n ≡ 0
none_left n h = ground arith

-- If a unit does not come from the start, the count stays, and with it the test.
moved-Gathered :
    (npun i : ℕ) (b : ℤ) (pc : ℕ → SyncPc) (x' : SyncPc)
    → Gathered npun b pc
    → i < npun
    → weight (pc i) ≡ 0
    → weight x' ≡ 0
    → (x' ≡ passed → outstanding npun pc ≡ 0)
    → Gathered npun b (update pc i x')
moved-Gathered npun i b pc x' g small w w' last =
    let u : outstanding npun (update pc i x') ≡ outstanding npun pc =
      omega (arith, w, w', outstanding-update npun i pc x' small) in
    record {
      count = g.count ∙ ap pos (sym u);
      complete = λ j h. u ∙ elim (Bool-cases (j == i)) [
        | inl e ↦ last (rw e at h)
        | inr e ↦ g.complete j (rw e at h)
      ];
    }

-- What one access of a unit does to the count.
step-Gathered :
    (npun i : ℕ) (b : ℤ) (pc : ℕ → SyncPc)
    → Gathered npun b pc
    → i < npun
    → {b' : ℤ} {x x' : SyncPc} → pc i ≡ x
    → SyncMove b x b' x'
    → Gathered npun b' (update pc i x')
step-Gathered npun i b pc g small e arrive =
    let w : weight (pc i) ≡ 1 = ap weight e in
    let u : outstanding npun (update pc i spinning) + 1 ≡ outstanding npun pc =
      omega (arith, w, outstanding-update npun i pc spinning small) in
    record {
      count = rw g.count (ground (arith, u));
      complete = λ j h. elim (Bool-cases (j == i)) [
        | inl same ↦ cc (rw same at h)
        | inr other ↦ omega (arith, u, g.complete j (rw other at h))
      ];
    }
step-Gathered npun i b pc g small e (spin t) =
    moved-Gathered npun i b pc spinning g small (ap weight e) refl (λ s. cc)
step-Gathered npun i b pc g small e (pass t) =
    moved-Gathered npun i b pc passed g small (ap weight e) refl
      (λ s. none_left (outstanding npun pc) (rw g.count at t))

Gathering-Gathered : {npun : ℕ} {b : ℤ} {pc : ℕ → SyncPc} → Gathering npun b pc → Gathered npun b pc
Gathering-Gathered begin = record { count = ap pos (sym (outstanding-all _)); complete = λ i h. cc }
Gathering-Gathered (next i r small e mv) = step-Gathered _ i _ _ (Gathering-Gathered r) small e mv

test_lem : (n : ℕ) → ltb_ℤ (pos 0) (pos n) ≡ ltb 0 n
test_lem n = ground arith

-- In any order of the accesses, the test of the loop holds exactly as long as some of the units have not
-- arrived, so that once all have, every unit leaves the loop; and as long as some have not, no unit is
-- behind the barrier.
pub gathered :
    {npun : ℕ} {b : ℤ} {pc : ℕ → SyncPc}
    → Gathering npun b pc
    → (ltb_ℤ (pos 0) b ≡ ltb 0 (outstanding npun pc))
      × (((j : ℕ) → j < npun → pc j ≢ starting) ⊎ ((i : ℕ) → pc i ≢ passed))
gathered {npun} {b} {pc} r =
    let g = Gathering-Gathered r in
    (
      rw g.count (test_lem (outstanding npun pc)),
      elim (Bool-cases (outstanding npun pc == 0)) [
        | inl e ↦ inl (λ j h. outstanding-none npun j pc (ground (arith, e)) h)
        | inr e ↦ inr (λ i h. ground (arith, e, g.complete i h))
      ],
    )

-- ===== src/Spawn/Placing.antt =====
-- `par` and `par_pri` are `placed_par` and `placed_par_pri` on the parent's unit (run.c).
use cxp.Common.{
  suc, ℕ, ◌%◌, ◌^◌, ◌+◌, ◌≡◌, ◌≢◌, refl, sym, subst, ◌∙◌, ap, Option, none, some, update, length,
  List, ◌∷◌, [], All, ==-refl, inl, inr,
}
use cxp.Common.Outcome.{done_inv, done-injective, Outcome-cases, done}
use cxp.Machine.{Process, Machine, preparing_to_wait, pri_of, pun_of}
use cxp.Memory.{allocate_mem, find_mem_index}
use cxp.Memory.Classes.{find_mem_index-class}
use cxp.Spawn.Room.{placed, placed_other}
use cxp.Spawn.Home.{record_of, owned_still}
use cxp.Memory.Disjoint.{Uses, allocated, Uses-unused}
use cxp.World.{World}
use cxp.Sched.{enqueue, disable, enable, prepare_to_wait, set_sched_state}
use cxp.Sched.Wake.{sched_state-SameView}
use cxp.Sched.Preempt.{pun_of-enqueue0}
use cxp.Priority.{assigned}
use cxp.Spawn.{
  build_process, start, start_all, enqueue_all, with_pri, with_pris, at_home, placed_par, par,
  par_pri, placed_par_pri,
}

-- A process record that has been built stands in a block that was not in use.
module _ (size base : ℕ) (w : World) (owner : ℕ → Option ℕ) (u : Uses base w.memory owner)
    (stacksize pri pun p : ℕ) (w1 : World) where
  built_anew :
      build_process size w stacksize pri pun ≡ done (p, w1)
      → (index : ℕ) × Uses base w1.memory (update owner p (some index))
        × (owner p ≡ none)
        × (w1.machine ≡ placed w.machine p (record_of index pri pun))
  unfolding build_process
  built_anew h =
      let (index, e, h1) = done_inv (find_mem_index ((stacksize + size) % 2 ^ 32)) _ h in
      let (r, f, h2) = done_inv (allocate_mem w.memory index) _ h1 in
      let (fit, small) = find_mem_index-class ((stacksize + size) % 2 ^ 32) index e in
      let same = done-injective h2 in
      let all =
        subst
          (λ (x : ℕ × World).
            Uses base x.1.memory (update owner x.0 (some index))
            × (owner x.0 ≡ none)
            × (x.1.machine ≡ placed w.machine x.0 (record_of index pri pun)))
          same
          (
            allocated index r.0 u small fit.positive f,
            Uses-unused index r.0 u small fit.positive f,
            refl,
          ) in
      (index, all.0, all.1, all.2)

enqueue-pun : (m : Machine) (cpu p q : ℕ) → pun_of (enqueue m cpu p) q ≡ pun_of m q
unfolding enqueue disable enable
enqueue-pun m cpu p q = ap (λ (g : ℕ → ℕ). g q) (pun_of-enqueue0 (disable m cpu) p)

start_home :
    (m : Machine) (cpu parent pun p : ℕ)
    → pun ≡ pun_of m parent
    → start m cpu parent pun p ≡ done (enqueue m cpu p)
unfolding start
start_home m cpu parent pun p e = rw (e, ==-refl (pun_of m parent)) refl

-- Placing every child on the unit of the parent.
placed_loop :
    (size base : ℕ) (rest : List (ℕ × ℕ × ℕ)) (w : World) (cpu parent : ℕ) (owner : ℕ → Option ℕ)
    → Uses base w.memory owner
    → owner parent ≢ none
    → All (λ (c : ℕ × ℕ × ℕ). c.2 ≡ pun_of w.machine parent) rest
    → enqueue_all size w cpu rest ≡ start_all size w cpu parent rest
unfolding enqueue_all start_all
placed_loop size base [] w cpu parent owner u o a = refl
placed_loop size base ((stacksize, pri, pun) ∷ rest) w cpu parent owner u o a =
    elim (Outcome-cases World (build_process size w stacksize pri pun)) [
      | inl no_matter ↦ no_matter _ _
      | inr ((p, w1), e) ↦
          let (index, u1, new, place) = built_anew size base w owner u stacksize pri pun p w1 e in
          let other =
            placed_other w.machine p (record_of index pri pun) parent
              (λ s. o (ap owner (sym s) ∙ new)) in
          let same : pun_of w1.machine parent ≡ pun_of w.machine parent =
            ap (λ (m : Machine). pun_of m parent) place ∙ ap (λ (x : Process). x.pun) other in
          let kept : pun_of (enqueue w1.machine cpu p) parent ≡ pun_of w.machine parent =
            enqueue-pun w1.machine cpu p parent ∙ same in
          let ih =
            placed_loop size base rest (record w1 { machine = enqueue w1.machine cpu p }) cpu parent
              (update owner p (some index)) u1 (owned_still owner p index parent o)
              (subst (λ (k : ℕ). All (λ (c : ℕ × ℕ × ℕ). c.2 ≡ k) rest) (sym kept) a.1) in
          rw (e, start_home w1.machine cpu parent pun p (a.0 ∙ sym same)) ih
    ]

All-with_pri :
    (k pri : ℕ) (sizes : List ℕ) → All (λ (c : ℕ × ℕ × ℕ). c.2 ≡ k) (with_pri (at_home k sizes) pri)
unfolding with_pri at_home
All-with_pri k pri [] = tt
All-with_pri k pri (s ∷ sizes) = (refl, All-with_pri k pri sizes)

All-with_pris :
    (k : ℕ) (sizes pris : List ℕ)
    → All (λ (c : ℕ × ℕ × ℕ). c.2 ≡ k) (with_pris (at_home k sizes) pris)
unfolding with_pris at_home
All-with_pris k [] pris = tt
All-with_pris k (s ∷ sizes) [] = tt
All-with_pris k (s ∷ sizes) (pri ∷ pris) = (refl, All-with_pris k sizes pris)

pub length-at_home : (k : ℕ) (sizes : List ℕ) → length (at_home k sizes) ≡ length sizes
unfolding at_home
length-at_home k [] = refl
length-at_home k (s ∷ sizes) = ap suc (length-at_home k sizes)

-- A parent whose record stands in a block that is in use: `par` does what `placed_par` does with every
-- child on the parent's unit, and `par_pri` what `placed_par_pri` does, in every case, errors included.
pub par-eq-placed :
    (size base : ℕ) (w : World) (cpu : ℕ) (owner : ℕ → Option ℕ) (sizes : List ℕ)
    → Uses base w.memory owner
    → owner (w.machine.current cpu) ≢ none
    → let home = at_home (pun_of w.machine (w.machine.current cpu)) sizes in
      (par size w cpu sizes ≡ placed_par size w cpu home)
      × (par_pri size w cpu sizes ≡ placed_par_pri size w cpu home)
unfolding par placed_par par_pri placed_par_pri prepare_to_wait
par-eq-placed size base w cpu owner sizes u o =
    let parent = w.machine.current cpu in
    let k = pun_of w.machine parent in
    let w1 = record w { machine = set_sched_state w.machine parent preparing_to_wait } in
    let same : k ≡ pun_of w1.machine parent =
      ap (λ (g : ℕ → ℕ). g parent)
        (sched_state-SameView cpu w.machine parent preparing_to_wait).pun in
    let loop = λ (cs : List (ℕ × ℕ × ℕ)) (a : All (λ (c : ℕ × ℕ × ℕ). c.2 ≡ k) cs).
      placed_loop size base cs w1 cpu parent owner u o
        (subst (λ (j : ℕ). All (λ (c : ℕ × ℕ × ℕ). c.2 ≡ j) cs) same a) in
    (
      rw
          (
            loop (with_pri (at_home k sizes) (pri_of w.machine parent))
                (All-with_pri k (pri_of w.machine parent) sizes),
            length-at_home k sizes,
          )
          refl,
      rw
          (
            length-at_home k sizes,
            loop (with_pris (at_home k sizes) (assigned (pri_of w.machine parent) (length sizes)))
                (All-with_pris k sizes (assigned (pri_of w.machine parent) (length sizes))),
          )
          refl,
    )

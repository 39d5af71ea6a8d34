-- ===== src/Spawn/Children.antt =====
-- The children of a parallel construct (par of run.c).
use mathlib.Core.List.{perm_middle}
use mathlib.Core.List.Perm
use cxp.Common.{
  ℕ, suc, ◌+◌, ◌≤◌, ◌<◌, ◌≡◌, ◌≢◌, refl, sym, subst, ◌∙◌, ap, Option, none, some, Fresh, arith,
  length, List, ◌∷◌, [], All, true, ==-refl,
}
use cxp.Common.Int.{pos}
use cxp.Common.Perms.{length-perm}
use cxp.Common.Outcome.{Outcome, done, ◌>>=◌}
use cxp.Common.Chain.{list_fuel}
use cxp.Machine.{Process, preparing_to_wait, pri_of, pun_of}
use cxp.World.{World}
use cxp.Priority.{pri_le}
use cxp.Sched.{set_sched_state, prepare_to_wait}
use cxp.Sched.Wake.{Cpu-same, sched_state-SameView}
use cxp.Interrupts.{ParBarrier, par_barr_init}
use cxp.Spawn.{start, start_all, with_pri, at_home, placed_par, par}
use cxp.Spawn.Placing.{length-at_home, par-eq-placed}
use cxp.Spawn.Home.{Home, Started, child_started}

-- A block that is not in use after a child has been started was not in use before.
unused_before :
    (owner owner' : ℕ → Option ℕ)
    → ((q : ℕ) → owner q ≢ none → owner' q ≢ none)
    → (c : ℕ) (o : Option ℕ) → owner c ≡ o
    → owner' c ≡ none
    → owner c ≡ none
unused_before owner owner' stays c none e h = e
unused_before owner owner' stays c (some x) e h = absurd (stays c (λ n. cc) h)

unused_all :
    (owner owner' : ℕ → Option ℕ)
    → ((q : ℕ) → owner q ≢ none → owner' q ≢ none)
    → (cs : List ℕ) → All (λ c. owner' c ≡ none) cs
    → All (λ c. owner c ≡ none) cs
unused_all owner owner' stays [] a = tt
unused_all owner owner' stays (c ∷ cs) a =
    (unused_before owner owner' stays c (owner c) refl a.0, unused_all owner owner' stays cs a.1)

used-Fresh :
    (owner : ℕ → Option ℕ) (p : ℕ) (cs : List ℕ)
    → owner p ≢ none
    → All (λ c. owner c ≡ none) cs
    → Fresh p cs
used-Fresh owner p [] u a = tt
used-Fresh owner p (c ∷ cs) u a = ((λ e. u (ap owner e ∙ a.0)), used-Fresh owner p cs u a.1)

-- The first child and the others.
joined :
    {base : ℕ} {w w1 w2 : World} {k pri : ℕ} {owner : ℕ → Option ℕ} (ps : List ℕ) (p : ℕ)
    (cs : List ℕ)
    → (a : Started base w w1 k pri owner ps (p ∷ [])) → Started base w1 w2 k pri a.owner' a.qs cs
    → Started base w w2 k pri owner ps (p ∷ cs)
joined {owner} ps p cs a b = record {
  owner' = b.owner';
  qs = b.qs;
  home = b.home;
  perm = Perm.trans b.perm (Perm.trans (Perm.append (Perm.refl cs) a.perm) (perm_middle cs ps));
  current = b.current ∙ a.current;
  kept = λ q o. b.kept q (a.stays q o) ∙ a.kept q o;
  children = (ap (λ (x : Process). x.pri) (b.kept p a.in_use.0) ∙ a.children.0, b.children);
  stays = λ q o. b.stays q (a.stays q o);
  in_use = (b.stays p a.in_use.0, b.in_use);
  new = (a.new.0, unused_all owner a.owner' a.stays cs b.new);
  distinct = (used-Fresh a.owner' p cs a.in_use.0 b.new, b.distinct);
}

start_all-Started :
    (size base : ℕ) (sizes : List ℕ) (w : World) (k parent pri : ℕ) (owner : ℕ → Option ℕ)
    (ps : List ℕ)
    → Home base w k owner ps
    → All (λ s. s + size ≤ 24576) sizes
    → pri_le pri (pri_of w.machine (w.machine.current k)) ≡ true
    → parent ≡ w.machine.current k
    → length ps + length sizes < list_fuel
    → (w' : World) × (cs : List ℕ) × (start_all size w k parent (with_pri (at_home k sizes) pri)
        ≡ done w')
      × (length cs ≡ length sizes)
      × Started base w w' k pri owner ps cs
unfolding start_all with_pri at_home
start_all-Started size base [] w k parent pri owner ps h fits le here len = (
  w,
  [],
  refl,
  refl,
  record {
    owner' = owner;
    qs = ps;
    home = h;
    perm = Perm.refl ps;
    current = refl;
    kept = λ q o. refl;
    children = tt;
    stays = λ q o. o;
    in_use = tt;
    new = tt;
    distinct = tt;
  },
)
start_all-Started size base (s ∷ sizes) w k parent pri owner ps h fits le here len =
    let (p, w1, m', e, f, a) =
      child_started size base w k owner ps s pri h fits.0 le (omega (arith, len)) in
    let w2 = record w1 { machine = m' } in
    let at_parent : start w1.machine k parent k p ≡ done m' =
      subst (λ (c : ℕ). start w1.machine k c k p ≡ done m') (sym here) f in
    let top : pri_of m' (m'.current k) ≡ pri_of w.machine (w.machine.current k) =
      ap (λ (c : ℕ). pri_of m' c) a.current
      ∙ ap (λ (x : Process). x.pri) (a.kept (w.machine.current k) h.owned) in
    let (w', cs, g, n, b) =
      start_all-Started size base sizes w2 k parent pri a.owner' a.qs a.home fits.1
        (subst (λ (x : ℕ). pri_le pri x ≡ true) (sym top) le) (here ∙ sym a.current)
        (omega (arith, len, length-perm a.perm)) in
    (w', p ∷ cs, rw (e, at_parent) g, ap suc n, joined ps p cs a b)

-- The parent is about to wait.
abbrev pub announced : World → ℕ → World
announced w k = record w {
  machine = set_sched_state w.machine (w.machine.current k) preparing_to_wait;
}

placed_par_lem :
    (size : ℕ) (w : World) (k : ℕ) (sizes : List ℕ)
    → pun_of w.machine (w.machine.current k) ≡ k
    → placed_par size w k (at_home (pun_of w.machine (w.machine.current k)) sizes) ≡ (
        start_all size
          (announced w k)
          k
          (w.machine.current k)
          (with_pri (at_home k sizes) (pri_of w.machine (w.machine.current k)))
        >>= λ w2. done (w2, record { parent = w.machine.current k; children = pos (length sizes) }))
unfolding placed_par par_barr_init prepare_to_wait
placed_par_lem size w k sizes home =
    let parent = w.machine.current k in
    let F : ℕ → ℕ → Outcome (World × ParBarrier) = λ j n.
      (start_all size (announced w k) k parent
          (with_pri (at_home j sizes) (pri_of w.machine parent))
        >>= λ w2. done (w2, record { parent = parent; children = pos n })) in
    let here = at_home (pun_of w.machine parent) sizes in
    subst (λ (n : ℕ). placed_par size w k here ≡ F k n) (length-at_home k sizes)
      (subst (λ (j : ℕ). placed_par size w k here ≡ F j (length (at_home j sizes))) home refl)

-- `par` on a unit in order, whose processes stand in blocks that the allocator has given out: if every
-- child fits into the largest block and the allocator counts that many bytes, `par` starts as many
-- children as it was asked for, each in a block of its own that was not in use before and is now, all
-- with the parent's priority, and leaves the unit in order: the children are exactly the processes that have become ready. The parent still runs, is
-- about to wait, and is the one that the barrier will schedule after so many children.
pub par-Started :
    (size base : ℕ) (w : World) (k : ℕ) (owner : ℕ → Option ℕ) (ps sizes : List ℕ)
    → Home base w k owner ps
    → All (λ s. s + size ≤ 24576) sizes
    → length ps + length sizes < list_fuel
    → (w' : World) × (cs : List ℕ) × (par size w k sizes
        ≡ done (w', record { parent = w.machine.current k; children = pos (length sizes) }))
      × (length cs ≡ length sizes)
      × Started base (announced w k) w' k (pri_of w.machine (w.machine.current k)) owner ps cs
      × ((w'.machine.procs (w.machine.current k)).sched_state ≡ preparing_to_wait)
par-Started size base w k owner ps sizes h fits len =
    let parent = w.machine.current k in
    let v = sched_state-SameView k w.machine parent preparing_to_wait in
    let le : pri_le (pri_of w.machine parent) (pri_of w.machine parent) ≡ true = ground arith in
    let (w', cs, e, n, a) =
      start_all-Started size base sizes (announced w k) k parent (pri_of w.machine parent) owner ps
        (record {
          cpu = Cpu-same ps v h.cpu;
          uses = h.uses;
          owned = h.owned;
          all_owned = h.all_owned;
          room = h.room;
        })
        fits (subst (λ (g : ℕ → ℕ). pri_le (pri_of w.machine parent) (g parent) ≡ true) v.pri le)
        refl len in
    (
      w',
      cs,
      (par-eq-placed size base w k owner sizes h.uses h.owned).0
          ∙ placed_par_lem size w k sizes h.cpu.home
          ∙ ap {B = Outcome (World × ParBarrier)}
              (λ (o : Outcome World).
                o >>= λ w2. done (w2, record { parent = parent; children = pos (length sizes) }))
              e,
      n,
      a,
      ap (λ (x : Process). x.sched_state) (a.kept parent h.owned) ∙ rw (==-refl parent) refl,
    )

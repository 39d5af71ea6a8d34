-- ===== src/Comm/Guarding.antt =====
-- A writer that comes to an alternation which waits (out of comm.c, freeProcessMaybe of alt.c).
use mathlib.Core.List.{Perm}
use cxp.Common.{
  ℕ, ◌+◌, ◌<◌, ◌≡◌, refl, sym, ap, ◌∙◌, true, Option, none, some, length, List, ◌∷◌, Fresh, ==-refl,
  ==-ne,
}
use cxp.Common.Chain.{list_fuel}
use cxp.Common.Outcome.{Outcome, done, ◌>>=◌}
use cxp.Machine.{Process, Machine, preparing_to_wait, enabling, alt_waiting, alt_ready, pun_of}
use cxp.Sched.{get_current, prepare_to_wait, schedule}
use cxp.Sched.View.{Cpu}
use cxp.Sched.Wake.{
  Cpu-same, sched_state-SameView, alt_state-SameView, schedule-Cpu, schedule-fields,
}
use cxp.World.{Channel, World, set_chan}
use cxp.Comm.{
  Next, returns, waits, claim_mutex, release_mutex, wait_in, set_alt_state, free_process_maybe,
  in_begin, out_begin, disable_channel,
}
use cxp.Comm.Rendezvous.{
  Met, Stands, wait_in-Stands, served, served-Met, in_serves, make_ready_early,
}
use cxp.Comm.Exchange.{alt_cas-lose, alt_cas-win}
use cxp.Comm.Alting.{set_chan_self, disable_writer}

free_waiting :
    (m : Machine) (cpu p : ℕ)
    → (m.procs p).alt_state ≡ alt_waiting
    → free_process_maybe m cpu p ≡ schedule (set_alt_state m p alt_ready) cpu p
unfolding free_process_maybe
free_waiting m cpu p h =
    rw
      (
        alt_cas-lose m p enabling alt_ready alt_waiting h refl,
        alt_cas-win m p alt_waiting alt_ready alt_waiting h refl,
      )
      refl

out-free :
    (w : World) (j c p : ℕ) (src : Option ℕ) (len : ℕ)
    → (w.chans c).waiting ≡ some p
    → (w.chans c).buf ≡ none
    → let w1 = wait_in w j c (claim_mutex (w.chans c)) src in
      let rest : Machine → Outcome (World × Next) = λ m. done (record w1 { machine = m }, waits) in
      out_begin w j c src len ≡ (free_process_maybe w1.machine j p >>= rest)
unfolding out_begin
out-free w j c p src len h b = rw (h, out_begin, b, out_begin) refl

module _ (w : World) (c j k r dest src len : ℕ) (ps : List ℕ) (cpu : Cpu w.machine j ps)
    (here : (w.chans c).waiting ≡ some r) (guard : (w.chans c).buf ≡ none)
    (at : pun_of w.machine r ≡ j) (f : Fresh r (w.machine.current j ∷ ps))
    (size : length ps + 1 < list_fuel) (alting : (w.machine.procs r).alt_state ≡ alt_waiting) where
  abbrev writer : ℕ
  writer = get_current w.machine j

  abbrev waiting_world : World
  waiting_world = wait_in w j c (claim_mutex (w.chans c)) (some src)

  abbrev freed : Machine
  freed = set_alt_state waiting_world.machine r alt_ready

  stands : Stands waiting_world j c writer (some src)
  stands = wait_in-Stands w j c (claim_mutex (w.chans c)) (some src)

  still : (waiting_world.machine.procs r).alt_state ≡ alt_waiting
  unfolding wait_in prepare_to_wait
  still = rw (==-ne r writer f.0) alting

  same_bytes : waiting_world.bytes ≡ w.bytes
  unfolding wait_in
  same_bytes = refl

  freed-Cpu : Cpu freed j ps × (pun_of freed r ≡ j)
  unfolding wait_in prepare_to_wait
  freed-Cpu =
      let u = sched_state-SameView j w.machine writer preparing_to_wait in
      let v = alt_state-SameView j waiting_world.machine r alt_ready in
      (
        Cpu-same ps v (Cpu-same ps u cpu),
        ap (λ (g : ℕ → ℕ). g r) (sym v.pun) ∙ ap (λ (g : ℕ → ℕ). g r) (sym u.pun) ∙ at,
      )

  freed-prepared : (freed.procs writer).sched_state ≡ preparing_to_wait
  freed-prepared = rw (==-ne writer r (λ e. f.0 (sym e))) stands.prepared

  scheduled :
      (m' : Machine) × (qs : List ℕ) × (schedule freed j r ≡ done m')
      × Cpu m' j qs
      × Perm (m'.current j ∷ qs) (r ∷ w.machine.current j ∷ ps)
  unfolding wait_in prepare_to_wait
  scheduled = schedule-Cpu freed j r ps freed-Cpu.0 freed-Cpu.1 f size

  -- An alternation that waits on a channel, on the writer's own unit, and the writer comes: the
  -- alternation is marked ready and is now among the processes that run or are ready, of which the
  -- unit runs one of the highest priority. Disabling then finds the channel ready, and the `in` that
  -- must follow, if it comes before the writer has given up its unit, copies the data, makes the
  -- writer ready and leaves the channel free.
  pub alt_wakes :
      (w2 w3 w4 : World) × (qs : List ℕ) × (out_begin w j c (some src) len ≡ done (w2, waits))
      × ((w2.machine.procs r).alt_state ≡ alt_ready)
      × Cpu w2.machine j qs
      × Perm (w2.machine.current j ∷ qs) (r ∷ w.machine.current j ∷ ps)
      × (disable_channel w2 c r ≡ (w3, true))
      × (in_begin w3 k c (some dest) len ≡ done (w4, returns))
      × Met w w4 c (w.machine.current j) dest src len
  alt_wakes =
      let (m', qs, e, cpu', perm) = scheduled in
      let same = schedule-fields freed j r freed-Cpu.1 e in
      let w2 = record waiting_world { machine = m' } in
      let w3 = set_chan w2 c (release_mutex (claim_mutex (w2.chans c))) in
      let now = set_chan_self w2 c (release_mutex (claim_mutex (w2.chans c))) in
      let prepared = ap (λ (x : Process). x.sched_state) (same writer) ∙ freed-prepared in
      (
        w2,
        w3,
        served w3 c writer dest src len,
        qs,
        out-free w j c r (some src) len here guard
            ∙ rw (free_waiting waiting_world.machine j r still, e) refl,
        ap (λ (x : Process). x.alt_state) (same r) ∙ rw (==-refl r) refl,
        cpu',
        perm,
        disable_writer w2 c r writer stands.here (λ g. f.0 (sym g)),
        in_serves w3 k c writer dest src len (ap (λ (x : Channel). x.waiting) now ∙ stands.here)
            (ap (λ (x : Channel). x.buf) now ∙ stands.buffer)
            (make_ready_early w3.machine k writer prepared),
        served-Met w w3 c writer dest src len same_bytes,
      )

-- ===== src/Comm/Waiting.antt =====
-- A partner that already waits, off its unit, is scheduled when the transfer is done.
use mathlib.Core.List.{Perm}
use cxp.Common.{
  ℕ, ◌+◌, ◌<◌, ◌≡◌, refl, sym, ap, ◌∙◌, none, some, arith, update, length, List, ◌∷◌, Fresh,
  ==-refl,
}
use cxp.Common.Chain.{list_fuel}
use cxp.Common.Outcome.{done}
use cxp.Machine.{Process, Machine, ready, waiting, pun_of}
use cxp.Sched.{set_sched_state}
use cxp.Sched.View.{Cpu}
use cxp.Sched.Wake.{Cpu-same, sched_state-SameView, schedule-Cpu, schedule-fields}
use cxp.World.{World, memcpy}
use cxp.Comm.{returns, make_ready, in_begin, out_begin, free_channel, claim_mutex}

-- What the partner on the same unit finds after the transfer.
pub record Delivered (w w2 : World) (k c p : ℕ) (ps qs : List ℕ) (dest src len : ℕ) : Type 0 where
  pub copied : w2.bytes ≡ memcpy w.bytes dest src len
  pub free : (w2.chans c).waiting ≡ none
  pub woken : (w2.machine.procs p).sched_state ≡ ready
  pub cpu : Cpu w2.machine k qs
  pub perm : Perm (w2.machine.current k ∷ qs) (p ∷ w.machine.current k ∷ ps)

module _ (m : Machine) (k p : ℕ) (ps : List ℕ) (c : Cpu m k ps) (at : pun_of m p ≡ k)
    (f : Fresh p (m.current k ∷ ps)) (len : length ps + 1 < list_fuel)
    (s : (m.procs p).sched_state ≡ waiting) where
  make_ready-Cpu :
      (m' : Machine) × (qs : List ℕ) × (make_ready m k p ≡ done m')
      × ((m'.procs p).sched_state ≡ ready)
      × Cpu m' k qs
      × Perm (m'.current k ∷ qs) (p ∷ m.current k ∷ ps)
  unfolding make_ready
  make_ready-Cpu =
      let v = sched_state-SameView k m p ready in
      let here = ap (λ (g : ℕ → ℕ). g p) (sym v.pun) ∙ at in
      let (m', qs, e, cpu, perm) =
        schedule-Cpu (set_sched_state m p ready) k p ps (Cpu-same ps v c) here f len in
      (
        m',
        qs,
        rw s e,
        ap (λ (x : Process). x.sched_state)
              (schedule-fields (set_sched_state m p ready) k p here e p)
            ∙ rw (==-refl p) refl,
        cpu,
        perm,
      )

module _ (w : World) (c k dest src n p : ℕ) (ps : List ℕ) (cpu : Cpu w.machine k ps)
    (here : (w.chans c).waiting ≡ some p) (at : pun_of w.machine p ≡ k)
    (f : Fresh p (w.machine.current k ∷ ps)) (len : length ps + 1 < list_fuel)
    (s : (w.machine.procs p).sched_state ≡ waiting) where
  -- `out` to a reader of the writer's own unit that waits: the data are copied, the channel is free,
  -- the reader is marked ready, the writer does not wait, and the unit runs a process of the highest
  -- priority among the writer, the ready processes and the reader.
  pub out_wakes :
      (w.chans c).buf ≡ some dest
      → (w2 : World) × (qs : List ℕ) × (out_begin w k c (some src) n ≡ done (w2, returns))
        × Delivered w w2 k c p ps qs dest src n
  unfolding out_begin
  out_wakes b =
      let (m', qs, e, awake, cpu', perm) = make_ready-Cpu w.machine k p ps cpu at f len s in
      (
        record w {
          machine = m';
          chans = update w.chans c (free_channel (claim_mutex (w.chans c)));
          bytes = memcpy w.bytes dest src n;
        },
        qs,
        ground (arith, e),
        record {
          copied = refl;
          free = rw (==-refl c) refl;
          woken = awake;
          cpu = cpu';
          perm = perm;
        },
      )

  -- The same for `in` and a writer that waits.
  pub in_wakes :
      (w.chans c).buf ≡ some src
      → (w2 : World) × (qs : List ℕ) × (in_begin w k c (some dest) n ≡ done (w2, returns))
        × Delivered w w2 k c p ps qs dest src n
  unfolding in_begin
  in_wakes b =
      let (m', qs, e, awake, cpu', perm) = make_ready-Cpu w.machine k p ps cpu at f len s in
      (
        record w {
          machine = m';
          chans = update w.chans c (free_channel (claim_mutex (w.chans c)));
          bytes = memcpy w.bytes dest src n;
        },
        qs,
        ground (arith, e),
        record {
          copied = refl;
          free = rw (==-refl c) refl;
          woken = awake;
          cpu = cpu';
          perm = perm;
        },
      )

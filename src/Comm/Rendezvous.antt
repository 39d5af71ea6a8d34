-- ===== src/Comm/Rendezvous.antt =====
-- Two processes meet on a channel.
use cxp.Common.{ℕ, ◌+◌, ◌-◌, ◌<◌, ◌≡◌, refl, ap, false, Option, none, some, update, arith, ==-refl}
use cxp.Common.Outcome.{done}
use cxp.Machine.{Machine, ready, preparing_to_wait}
use cxp.Sched.{get_current, prepare_to_wait, set_sched_state, relinquish}
use cxp.World.{Channel, World, memcpy}
use cxp.Comm.{
  returns, waits, make_ready, claim_mutex, free_channel, wait_in, in_begin, out_begin, finish,
}

-- The copy puts the source's bytes at the destination and leaves all other bytes.
memcpy_lem :
    (b : ℕ → ℕ) (dest src len i : ℕ) → i < len → memcpy b dest src len (dest + i) ≡ b (src + i)
unfolding memcpy
memcpy_lem b dest src len i h =
    ground (arith, ap b {x = src + (dest + i - dest)} {y = src + i} (omega arith))

-- The channel and the partner after a transfer by the second of the two.
pub record Met (w w2 : World) (c partner dest src len : ℕ) : Type 0 where
  pub copied : w2.bytes ≡ memcpy w.bytes dest src len
  pub free : (w2.chans c).waiting ≡ none
  pub released : (w2.chans c).claimed ≡ false
  pub woken : (w2.machine.procs partner).sched_state ≡ ready

abbrev pub served : World → ℕ → ℕ → ℕ → ℕ → ℕ → World
served w c p dest src len = record w {
  machine = set_sched_state w.machine p ready;
  chans = update w.chans c (free_channel (claim_mutex (w.chans c)));
  bytes = memcpy w.bytes dest src len;
}

pub make_ready_early :
    (m : Machine) (cpu p : ℕ)
    → (m.procs p).sched_state ≡ preparing_to_wait
    → make_ready m cpu p ≡ done (set_sched_state m p ready)
unfolding make_ready
make_ready_early m cpu p h = rw h

out_serves :
    (w : World) (j c r dest src len : ℕ)
    → (w.chans c).waiting ≡ some r
    → (w.chans c).buf ≡ some dest
    → make_ready w.machine j r ≡ done (set_sched_state w.machine r ready)
    → out_begin w j c (some src) len ≡ done (served w c r dest src len, returns)
unfolding out_begin
out_serves w j c r dest src len h b m = ground arith

pub in_serves :
    (w : World) (k c s dest src len : ℕ)
    → (w.chans c).waiting ≡ some s
    → (w.chans c).buf ≡ some src
    → make_ready w.machine k s ≡ done (set_sched_state w.machine s ready)
    → in_begin w k c (some dest) len ≡ done (served w c s dest src len, returns)
unfolding in_begin
in_serves w k c s dest src len h b m = ground arith

-- A process that was made ready before it gave up its unit keeps the unit.
relinquish_early :
    (w : World) (k p : ℕ)
    → w.machine.current k ≡ p
    → (w.machine.procs p).sched_state ≡ ready
    → finish k p (w, waits) ≡ done (w, returns)
unfolding finish relinquish
relinquish_early w k p e h = rw (e, ==-refl p, h) refl

pub record Stands (w : World) (k c : ℕ) (p : ℕ) (buf : Option ℕ) : Type 0 where
  pub here : (w.chans c).waiting ≡ some p
  pub buffer : (w.chans c).buf ≡ buf
  pub prepared : (w.machine.procs p).sched_state ≡ preparing_to_wait

pub wait_in-Stands :
    (w : World) (k c : ℕ) (ch : Channel) (buf : Option ℕ)
    → Stands (wait_in w k c ch buf) k c (get_current w.machine k) buf
unfolding wait_in prepare_to_wait
wait_in-Stands w k c ch buf = record {
  here = rw (==-refl c) refl;
  buffer = rw (==-refl c) refl;
  prepared = rw (==-refl (w.machine.current k)) refl;
}

pub served-Met :
    (w w1 : World) (c p dest src len : ℕ)
    → w1.bytes ≡ w.bytes
    → Met w (served w1 c p dest src len) c p dest src len
served-Met w w1 c p dest src len e = record {
  copied = rw e;
  free = rw (==-refl c) refl;
  released = rw (==-refl c) refl;
  woken = rw (==-refl p) refl;
}

module _ (w : World) (c k j dest src len : ℕ) (free : (w.chans c).waiting ≡ none) where
  in_stands :
      in_begin w k c (some dest) len
      ≡ done (wait_in w k c (claim_mutex (w.chans c)) (some dest), waits)
  unfolding in_begin
  in_stands = ground arith

  out_stands :
      out_begin w j c (some src) len
      ≡ done (wait_in w j c (claim_mutex (w.chans c)) (some src), waits)
  unfolding out_begin
  out_stands = ground arith

  -- The reader comes first, and the writer, on another unit, meets it before it has given up its
  -- unit: the data are copied, the channel is free again, and neither process waits.
  pub reader_first :
      (w1 w2 : World) × (in_begin w k c (some dest) len ≡ done (w1, waits))
      × (out_begin w1 j c (some src) len ≡ done (w2, returns))
      × (finish k (get_current w.machine k) (w2, waits) ≡ done (w2, returns))
      × Met w w2 c (get_current w.machine k) dest src len
  unfolding wait_in
  reader_first =
      let r = get_current w.machine k in
      let w1 = wait_in w k c (claim_mutex (w.chans c)) (some dest) in
      let s = wait_in-Stands w k c (claim_mutex (w.chans c)) (some dest) in
      let met = served-Met w w1 c r dest src len refl in
      (
        w1,
        served w1 c r dest src len,
        in_stands,
        out_serves w1 j c r dest src len s.here s.buffer
            (make_ready_early w1.machine j r s.prepared),
        relinquish_early (served w1 c r dest src len) k r refl met.woken,
        met,
      )

  -- The same with the writer first.
  pub writer_first :
      (w1 w2 : World) × (out_begin w j c (some src) len ≡ done (w1, waits))
      × (in_begin w1 k c (some dest) len ≡ done (w2, returns))
      × (finish j (get_current w.machine j) (w2, waits) ≡ done (w2, returns))
      × Met w w2 c (get_current w.machine j) dest src len
  unfolding wait_in
  writer_first =
      let r = get_current w.machine j in
      let w1 = wait_in w j c (claim_mutex (w.chans c)) (some src) in
      let s = wait_in-Stands w j c (claim_mutex (w.chans c)) (some src) in
      let met = served-Met w w1 c r dest src len refl in
      (
        w1,
        served w1 c r dest src len,
        out_stands,
        in_serves w1 k c r dest src len s.here s.buffer
            (make_ready_early w1.machine k r s.prepared),
        relinquish_early (served w1 c r dest src len) j r refl met.woken,
        met,
      )

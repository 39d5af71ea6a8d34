-- ===== src/Comm/Alting.antt =====
-- A channel as a guard of an alternation, and a reader that gives no buffer.
use cxp.Common.{
  ℕ, ◌≡◌, ◌≢◌, refl, sym, ap, ◌∙◌, true, false, Option, none, some, arith, ==-refl, ==-ne,
}
use cxp.Common.Outcome.{done}
use cxp.Machine.{preparing_to_wait, not_alting, enabling, alt_ready}
use cxp.Sched.{get_current, prepare_to_wait}
use cxp.World.{Channel, World, set_chan}
use cxp.Comm.{
  returns, waits, claim_mutex, release_mutex, wait_in, set_alt_state, in_begin, out_begin,
  enable_channel, disable_channel,
}
use cxp.Comm.Rendezvous.{
  Met, Stands, wait_in-Stands, served, served-Met, in_serves, make_ready_early,
}

abbrev guarded : World → ℕ → ℕ → World
guarded w c p =
    set_chan w c (release_mutex (record (claim_mutex (w.chans c)) { waiting = some p; buf = none }))

enable_free :
    (w : World) (c p : ℕ)
    → (w.chans c).waiting ≡ none
    → enable_channel w c p ≡ (guarded w c p, false)
unfolding enable_channel
enable_free w c p h = ground arith

pub set_chan_self : (w : World) (c : ℕ) (ch : Channel) → (set_chan w c ch).chans c ≡ ch
set_chan_self w c ch = rw (==-refl c) refl

disable_own :
    (w : World) (c p : ℕ)
    → (w.chans c).waiting ≡ some p
    → disable_channel w c p
      ≡ (set_chan w c (release_mutex (record (claim_mutex (w.chans c)) { waiting = none })), false)
unfolding disable_channel
disable_own w c p h = ground arith

pub disable_writer :
    (w : World) (c p s : ℕ)
    → (w.chans c).waiting ≡ some s
    → s ≢ p
    → disable_channel w c p ≡ (set_chan w c (release_mutex (claim_mutex (w.chans c))), true)
unfolding disable_channel
disable_writer w c p s h ne = ground arith

-- A channel that no writer has come to is free again once it has been disabled, and was never ready.
enable-disable :
    (w : World) (c p : ℕ)
    → (w.chans c).waiting ≡ none
    → (w1 w2 : World) × (enable_channel w c p ≡ (w1, false))
      × (disable_channel w1 c p ≡ (w2, false))
      × ((w2.chans c).waiting ≡ none)
      × ((w2.chans c).claimed ≡ false)
      × (w2.machine ≡ w.machine)
enable-disable w c p h =
    let w1 = guarded w c p in
    (
      w1,
      set_chan w1 c (release_mutex (record (claim_mutex (w1.chans c)) { waiting = none })),
      enable_free w c p h,
      disable_own w1 c p (rw (==-refl c) refl),
      rw (==-refl c) refl,
      rw (==-refl c) refl,
      refl,
    )

alt_state-out :
    (w : World) (j c p : ℕ) (src : Option ℕ) (len : ℕ)
    → (w.chans c).waiting ≡ some p
    → (w.chans c).buf ≡ none
    → p ≢ get_current w.machine j
    → (w.machine.procs p).alt_state ≡ enabling
    → let w1 = wait_in w j c (claim_mutex (w.chans c)) src in
      out_begin w j c src len
      ≡ done (record w1 { machine = set_alt_state w1.machine p alt_ready }, waits)
unfolding out_begin wait_in prepare_to_wait
alt_state-out w j c p src len h b ne a = ground arith

module _ (w : World) (c k j dest src len : ℕ) (free : (w.chans c).waiting ≡ none)
    (ne : get_current w.machine k ≢ get_current w.machine j)
    (alting : (w.machine.procs (get_current w.machine k)).alt_state ≡ enabling) where
  abbrev reader : ℕ
  reader = get_current w.machine k

  abbrev writer : ℕ
  writer = get_current w.machine j

  abbrev enabled_world : World
  enabled_world = guarded w c reader

  abbrev waiting_world : World
  waiting_world = wait_in enabled_world j c (claim_mutex (enabled_world.chans c)) (some src)

  abbrev written : World
  written = record waiting_world { machine = set_alt_state waiting_world.machine reader alt_ready }

  abbrev disabled_world : World
  disabled_world = set_chan written c (release_mutex (claim_mutex (written.chans c)))

  stands : Stands waiting_world j c writer (some src)
  stands = wait_in-Stands enabled_world j c (claim_mutex (enabled_world.chans c)) (some src)

  same_bytes : waiting_world.bytes ≡ w.bytes
  unfolding wait_in
  same_bytes = refl

  prepared : (disabled_world.machine.procs writer).sched_state ≡ preparing_to_wait
  prepared = rw (==-ne writer reader (λ e. ne (sym e))) stands.prepared

  here : disabled_world.chans c ≡ release_mutex (claim_mutex (written.chans c))
  here = set_chan_self written c (release_mutex (claim_mutex (written.chans c)))

  -- While the process on unit `k` enables its guards, of which a free channel is one, the writer on
  -- unit `j` comes. The alternation is made ready, disabling finds the channel ready, and the `in` that must follow
  -- copies the data and makes the writer ready.
  pub alt_rendezvous :
      (w1 w2 w3 w4 : World) × (enable_channel w c reader ≡ (w1, false))
      × (out_begin w1 j c (some src) len ≡ done (w2, waits))
      × ((w2.machine.procs reader).alt_state ≡ alt_ready)
      × (disable_channel w2 c reader ≡ (w3, true))
      × (in_begin w3 k c (some dest) len ≡ done (w4, returns))
      × Met w w4 c writer dest src len
  alt_rendezvous = (
    enabled_world,
    written,
    disabled_world,
    served disabled_world c writer dest src len,
    enable_free w c reader free,
    alt_state-out enabled_world j c reader (some src) len (rw (==-refl c) refl)
        (rw (==-refl c) refl) ne alting,
    rw (==-refl reader) refl,
    disable_writer written c reader writer stands.here (λ e. ne (sym e)),
    in_serves disabled_world k c writer dest src len
        (ap (λ (x : Channel). x.waiting) here ∙ stands.here)
        (ap (λ (x : Channel). x.buf) here ∙ stands.buffer)
        (make_ready_early disabled_world.machine k writer prepared),
    served-Met w disabled_world c writer dest src len same_bytes,
  )

-- `in` with a NULL buffer and length 0: the writer takes the reader for an alting process. Then the
-- writer stands in the channel, nothing is made ready, and both processes go on to wait.
pub null_reader_strands :
    (w : World) (c k j len : ℕ) (src : Option ℕ)
    → (w.chans c).waiting ≡ none
    → get_current w.machine k ≢ get_current w.machine j
    → (w.machine.procs (get_current w.machine k)).alt_state ≡ not_alting
    → (w1 w2 : World) × (in_begin w k c none 0 ≡ done (w1, waits))
      × (out_begin w1 j c src len ≡ done (w2, waits))
      × ((w2.chans c).waiting ≡ some (get_current w.machine j))
      × ((w2.machine.procs (get_current w.machine k)).sched_state ≡ preparing_to_wait)
      × ((w2.machine.procs (get_current w.machine j)).sched_state ≡ preparing_to_wait)
      × (w2.bytes ≡ w.bytes)
unfolding in_begin out_begin wait_in prepare_to_wait
null_reader_strands w c k j len src free ne quiet =
    let w1 = wait_in w k c (claim_mutex (w.chans c)) none in
    (
      w1,
      wait_in w1 j c (claim_mutex (w1.chans c)) src,
      ground arith,
      ground arith,
      rw (==-refl c) refl,
      ground arith,
      ground arith,
      refl,
    )

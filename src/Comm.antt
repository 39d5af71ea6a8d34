-- ===== src/Comm.antt =====
-- Channel communication (comm.c), and the wake-up of an alting process (alt.c). A function here runs
-- up to the point where its caller gives up the unit: `waits` says that `relinquish` comes next.
-- The critical section under a channel's mutex is one step; `claim_mutex` leaves the mutex claimed.
pub mod Rendezvous
pub mod Waiting
pub mod Alting
pub mod Exchange
pub mod Guarding
use cxp.Common.{
  ℕ, ◌≡◌, refl, Bool, true, false, Option, none, some, update, if◌then◌else◌, ◌==◌, not, ◌&&◌,
  is_some,
}
use cxp.Common.Outcome.{Outcome, done, spins, null_read, plotz, ◌>>=◌}
use cxp.Machine.{
  Process, Machine, SchedState, ready, preparing_to_wait, waiting, AltState, not_alting, enabling,
  alt_waiting, alt_ready,
}
use cxp.Sched.{get_current, prepare_to_wait, set_sched_state, schedule, relinquish}
use cxp.World.{Channel, World, set_chan, memcpy}

-- What a call does next: return to its caller, or `relinquish` first.
pub data Next : Type 0 where
  returns waits : Next

abbrev pub is_waiting : SchedState → Bool
is_waiting waiting = true
is_waiting ready = false
is_waiting preparing_to_wait = false

-- The exchange that makes a process ready, and `schedule` if it was waiting.
unfoldable pub make_ready : Machine → ℕ → ℕ → Outcome Machine
unfolding schedule
make_ready m cpu p =
    let m1 = set_sched_state m p ready in
    if is_waiting (m.procs p).sched_state then schedule m1 cpu p else done m1

abbrev pub same_alt : AltState → AltState → Bool
same_alt not_alting not_alting = true
same_alt enabling enabling = true
same_alt alt_waiting alt_waiting = true
same_alt alt_ready alt_ready = true
same_alt _ _ = false

abbrev pub set_alt_state : Machine → ℕ → AltState → Machine
set_alt_state m p s = record m { procs = update m.procs p (record (m.procs p) { alt_state = s }) }

-- `atomic_compare_exchange_strong` on `alt_state`: success, and what `expected` holds afterwards.
unfoldable pub alt_cas : Machine → ℕ → AltState → AltState → Bool × AltState × Machine
alt_cas m p expected desired =
    if same_alt (m.procs p).alt_state expected
    then (true, expected, set_alt_state m p desired)
    else (false, (m.procs p).alt_state, m)

-- `freeProcessMaybe`
unfoldable free_process_maybe : Machine → ℕ → ℕ → Outcome Machine
unfolding alt_cas schedule
free_process_maybe m cpu p =
    let (_, actual, m1) = alt_cas m p enabling alt_ready in
    if same_alt actual alt_waiting
    then (let (successful, _, m2) = alt_cas m1 p alt_waiting alt_ready in
        if successful then schedule m2 cpu p else done m2)
    else done m1

abbrev pub claim_mutex : Channel → Channel
claim_mutex ch = record ch { claimed = true }

abbrev pub release_mutex : Channel → Channel
release_mutex ch = record ch { claimed = false }

unfoldable pub init_channel : Channel → Channel
init_channel ch = record ch { claimed = false; waiting = none; buf = none }

-- `memcpy(dest, src, len)` on pointers that may be NULL.
unfoldable pub transfer : (ℕ → ℕ) → Option ℕ → Option ℕ → ℕ → Outcome (ℕ → ℕ)
unfolding memcpy
transfer b (some d) (some s) len = done (memcpy b d s len)
transfer b none s len = if len == 0 then done b else null_read
transfer b (some d) none len = if len == 0 then done b else null_read

-- The partner has been served: the channel is free, its mutex is released.
abbrev pub free_channel : Channel → Channel
free_channel ch = release_mutex (record ch { waiting = none; buf = none })

-- The current process stands in the channel, and prepares to wait.
unfoldable pub wait_in : World → ℕ → ℕ → Channel → Option ℕ → World
unfolding prepare_to_wait
wait_in w cpu c ch buf =
    let curr = get_current w.machine cpu in
    record w {
      machine = prepare_to_wait w.machine curr;
      chans = update w.chans c (release_mutex (record ch { waiting = some curr; buf = buf }));
    }

-- `in`, up to its `relinquish`.
unfoldable pub in_begin : World → ℕ → ℕ → Option ℕ → ℕ → Outcome (World × Next)
unfolding transfer make_ready wait_in
in_begin w cpu c dest len =
    let ch = claim_mutex (w.chans c) in
    elim ch.waiting [
      | some was_waiting ↦ (do
        b ← transfer w.bytes dest ch.buf len
        m ← make_ready w.machine cpu was_waiting
        done (
          record w { machine = m; chans = update w.chans c (free_channel ch); bytes = b },
          returns,
        ))
      | none ↦ done (wait_in w cpu c ch dest, waits)
    ]

-- `out`, up to its `relinquish`.
unfoldable pub out_begin : World → ℕ → ℕ → Option ℕ → ℕ → Outcome (World × Next)
unfolding transfer make_ready wait_in free_process_maybe
out_begin w cpu c src len =
    let ch = claim_mutex (w.chans c) in
    elim ch.waiting [
      | some was_waiting ↦ elim ch.buf [
        | some dest ↦ (do
          b ← transfer w.bytes (some dest) src len
          m ← make_ready w.machine cpu was_waiting
          done (
            record w { machine = m; chans = update w.chans c (free_channel ch); bytes = b },
            returns,
          ))
        | none ↦ (do
          let w1 = wait_in w cpu c ch src
          m ← free_process_maybe w1.machine cpu was_waiting
          done (record w1 { machine = m }, waits))
      ]
      | none ↦ done (wait_in w cpu c ch src, waits)
    ]

-- The rest of a call of `caller`. If the wake-up of its partner preempted it, it has lost the unit
-- and its `relinquish` is still to come.
unfoldable pub finish : ℕ → ℕ → World × Next → Outcome (World × Next)
unfolding relinquish
finish cpu caller (w, returns) = done (w, returns)
finish cpu caller (w, waits) =
    if get_current w.machine cpu == caller
    then (do m ← relinquish w.machine cpu; done (record w { machine = m }, returns))
    else done (w, waits)

-- `in`
unfoldable pub chan_in : World → ℕ → ℕ → Option ℕ → ℕ → Outcome (World × Next)
unfolding in_begin finish
chan_in w cpu c dest len = do
  r ← in_begin w cpu c dest len
  finish cpu (get_current w.machine cpu) r

-- `out`
unfoldable pub chan_out : World → ℕ → ℕ → Option ℕ → ℕ → Outcome (World × Next)
unfolding out_begin finish
chan_out w cpu c src len = do
  r ← out_begin w cpu c src len
  finish cpu (get_current w.machine cpu) r

unfoldable pub try_in : World → ℕ → Option ℕ → ℕ → Outcome (World × Bool)
unfolding transfer
try_in w c dest len =
    let ch = claim_mutex (w.chans c) in
    elim ch.waiting [
      | some was_waiting ↦ (do
        b ← transfer w.bytes dest ch.buf len
        done (record w { chans = update w.chans c (free_channel ch); bytes = b }, true))
      | none ↦ done (set_chan w c (release_mutex ch), false)
    ]

unfoldable pub chan_pending : World → ℕ → World × Bool
chan_pending w c =
    let ch = claim_mutex (w.chans c) in
    (set_chan w c (release_mutex ch), is_some ch.waiting && is_some ch.buf)

unfoldable pub enable_channel : World → ℕ → ℕ → World × Bool
enable_channel w c proc =
    let ch = claim_mutex (w.chans c) in
    elim ch.waiting [
      | some q ↦
          if q == proc
          then (set_chan w c (release_mutex ch), false)
          else (set_chan w c (release_mutex ch), true)
      | none ↦ (set_chan w c (release_mutex (record ch { waiting = some proc; buf = none })), false)
    ]

unfoldable pub disable_channel : World → ℕ → ℕ → World × Bool
disable_channel w c proc =
    let ch = claim_mutex (w.chans c) in
    elim ch.waiting [
      | some q ↦
          if q == proc
          then (set_chan w c (release_mutex (record ch { waiting = none })), false)
          else (set_chan w c (release_mutex ch), true)
      | none ↦ (set_chan w c (release_mutex (record ch { waiting = none })), false)
    ]

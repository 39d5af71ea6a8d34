-- ===== src/Alt.antt =====
-- Alternation (alt.c, alt.h). A selection has two parts here: `select_begin` runs up to the point
-- where the caller goes to wait, or has found a ready guard, and `select_end` runs from `Found_pri`
-- or `Found_fair` on. `now` and `later` give what the clock shows at the k-th guard visited.
pub mod Selection
pub mod Enabling
pub mod Choice
use cxp.Common.{
  ℕ, zero, suc, ◌+◌, ◌-◌, ◌%◌, Bool, true, false, Option, none, some, update, if◌then◌else◌, leb,
  ◌==◌, not,
}
use cxp.Common.Int.{ℤ, negsuc, ltb_ℤ, eqb_ℤ}
use cxp.Common.Outcome.{Outcome, done, ◌>>=◌}
use cxp.Machine.{Machine, not_alting, enabling, alt_waiting}
use cxp.Sched.{get_current, relinquish_unconditional}
use cxp.World.{World}
use cxp.Comm.{Next, returns, waits, set_alt_state, alt_cas, enable_channel, disable_channel}
use cxp.Alarm.{enable_timeout, disable_timeout}

-- The type and the union of a guard.
pub data Guard : Type 0 where
  guard_chan : ℕ → Guard
  guard_skip : Guard
  guard_timer : ℤ → Guard
  guard_interrupt : ℕ → Guard

pub record Alternation : Type 0 where
  pub favorite : ℕ
  pub nr_guards : ℕ
  pub guards : ℕ → Guard

unfoldable pub init_alt : (ℕ → Guard) → ℕ → Alternation
init_alt guards size = record { favorite = 0; nr_guards = size; guards = guards }

-- NO_TIME, which is MAX_TIME: all bits of a signed 64-bit integer.
abbrev pub no_time : ℤ
no_time = negsuc 0

-- The switch of the first loop. A skip guard is always ready; interrupt guards have no case.
unfoldable pub enable_guard : World → ℕ → ℕ → Guard → ℤ → ℤ → Outcome (World × Bool)
unfolding enable_channel enable_timeout
enable_guard w cpu proc (guard_chan c) now later = done (enable_channel w c proc)
enable_guard w cpu proc guard_skip now later = done (w, true)
enable_guard w cpu proc (guard_timer t) now later = enable_timeout w cpu t proc now later
enable_guard w cpu proc (guard_interrupt s) now later = done (w, false)

-- The switch of the second loop.
unfoldable pub disable_guard : World → ℕ → ℕ → Guard → ℤ → World × Bool
unfolding disable_channel disable_timeout
disable_guard w cpu proc (guard_chan c) now = disable_channel w c proc
disable_guard w cpu proc guard_skip now = (w, true)
disable_guard w cpu proc (guard_timer t) now = disable_timeout w cpu t proc now
disable_guard w cpu proc (guard_interrupt s) now = (w, false)

unfoldable pub track_earliest : ℤ → Guard → ℤ
track_earliest earliest (guard_timer t) = if ltb_ℤ t earliest then t else earliest
track_earliest earliest (guard_chan c) = earliest
track_earliest earliest guard_skip = earliest
track_earliest earliest (guard_interrupt s) = earliest

-- Where the first loop stands: how many guards it has visited, the last of them, whether that one
-- is ready.
pub record Scan : Type 0 where
  pub world : World
  pub visited : ℕ
  pub last_index : ℕ
  pub earliest : ℤ
  pub found : Bool

-- altEnabling, altFinish
abbrev pub set_alting : World → ℕ → Bool → World
set_alting w proc b = record w {
  machine = set_alt_state w.machine proc (if b then enabling else not_alting);
}

-- `altShouldWait`
unfoldable alt_should_wait : Machine → ℕ → Bool × Machine
unfolding alt_cas
alt_should_wait m proc = let (ok, _, m1) = alt_cas m proc enabling alt_waiting in (ok, m1)

-- What differs between the two selections: where the loops start and how they step.
pub record Order : Type 0 where
  pub start : ℕ
  pub forth : ℕ → ℕ
  pub back : ℕ → ℕ

-- `priSelect`: `i++`, `i--`.
unfoldable pub pri_order : Alternation → Order
pri_order a = record { start = 0; forth = λ i. suc i; back = λ i. i - 1 }

-- `fairSelect`: `i = (i + 1) % nrGuards`, `i = (i - 1 + nrGuards) % nrGuards`.
unfoldable pub fair_order : Alternation → Order
fair_order a = record {
  start = a.favorite;
  forth = λ i. (i + 1) % a.nr_guards;
  back = λ i. (i + a.nr_guards - 1) % a.nr_guards;
}

module _ (cpu proc : ℕ) (a : Alternation) (o : Order) where
  -- The first loop, with `left` guards to go. At its end `i` has been stepped back.
  unfoldable pub enable_loop : ℕ → World → ℕ → ℕ → ℤ → (ℕ → ℤ) → (ℕ → ℤ) → Outcome Scan
  unfolding enable_guard track_earliest
  enable_loop zero w k i earliest now later =
      done (record {
        world = w;
        visited = k;
        last_index = o.back i;
        earliest = earliest;
        found = false;
      })
  enable_loop (suc left) w k i earliest now later =
      let earliest1 = track_earliest earliest (a.guards i) in
      enable_guard w cpu proc (a.guards i) (now k) (later k) >>= λ r. elim r.1 [
        | true ↦ done (record {
          world = r.0;
          visited = suc k;
          last_index = i;
          earliest = earliest1;
          found = true;
        })
        | false ↦ enable_loop left r.0 (suc k) (o.forth i) earliest1 now later
      ]

  -- The second loop, with `left` guards to go.
  unfoldable pub disable_loop : ℕ → World → ℕ → Option ℕ → (ℕ → ℤ) → World × Option ℕ
  unfolding disable_guard
  disable_loop zero w i selected now = (w, selected)
  disable_loop (suc left) w i selected now =
      let (w1, ready) = disable_guard w cpu proc (a.guards i) (now left) in
      disable_loop left w1 (o.back i) (if ready then some i else selected) now

  -- From the end of the first loop to the second: the timeout guard, and the wait.
  unfoldable pub before_wait : Scan → (ℕ → ℤ) → (ℕ → ℤ) → Outcome (Scan × Next)
  unfolding enable_timeout alt_should_wait relinquish_unconditional
  before_wait s now later = do
    (w1, ready) ←
        (if eqb_ℤ s.earliest no_time
          then done (s.world, false)
          else enable_timeout s.world cpu s.earliest proc (now s.visited) (later s.visited))
    (if ready
        then done (record s { world = w1 }, returns)
        else (let (ok, m1) = alt_should_wait w1.machine proc in
            if ok
            then (do
              m2 ← relinquish_unconditional m1 cpu
              done (record s { world = record w1 { machine = m2 } }, waits))
            else done (record s { world = record w1 { machine = m1 } }, returns)))

  unfoldable pub select_begin : World → (ℕ → ℤ) → (ℕ → ℤ) → Outcome (Scan × Next)
  unfolding enable_loop before_wait
  select_begin w now later = do
    s ← enable_loop a.nr_guards (set_alting w proc true) 0 o.start no_time now later
    (if s.found then done (s, returns) else before_wait s now later)

  -- The next `favorite`.
  unfoldable pub next_favorite : Option ℕ → ℕ
  next_favorite none = 0
  next_favorite (some i) = if leb a.nr_guards (suc i) then suc i - a.nr_guards else suc i

  unfoldable pub select_end : Scan → (ℕ → ℤ) → World × Alternation × Option ℕ
  unfolding disable_loop next_favorite
  select_end s now =
      let (w1, selected) = disable_loop s.visited s.world s.last_index none now in
      (set_alting w1 proc false, record a { favorite = next_favorite selected }, selected)

-- `priSelect` and `fairSelect`, up to the wait and behind it.
unfoldable pub pri_select_begin :
    World → ℕ → Alternation → (ℕ → ℤ) → (ℕ → ℤ) → Outcome (Scan × Next)
unfolding select_begin pri_order
pri_select_begin w cpu a now later =
    select_begin cpu (get_current w.machine cpu) a (pri_order a) w now later

unfoldable pub pri_select_end :
    ℕ → ℕ → Alternation → Scan → (ℕ → ℤ) → World × Alternation × Option ℕ
unfolding select_end pri_order
pri_select_end cpu proc a s now = select_end cpu proc a (pri_order a) s now

unfoldable pub fair_select_begin :
    World → ℕ → Alternation → (ℕ → ℤ) → (ℕ → ℤ) → Outcome (Scan × Next)
unfolding select_begin fair_order
fair_select_begin w cpu a now later =
    select_begin cpu (get_current w.machine cpu) a (fair_order a) w now later

unfoldable pub fair_select_end :
    ℕ → ℕ → Alternation → Scan → (ℕ → ℤ) → World × Alternation × Option ℕ
unfolding select_end fair_order
fair_select_end cpu proc a s now = select_end cpu proc a (fair_order a) s now

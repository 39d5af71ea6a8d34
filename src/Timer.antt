-- ===== src/Timer.antt =====
-- The timeout queues (timer.c). Times are nanoseconds. What the clock shows is an argument: `now` is
-- the value that a call of `GetCurrentTime` returns. The calls of disable() and enable() are in the
-- functions that use these, in Alarm.
pub mod Queue
pub mod Search
pub mod Removal
use cxp.Common.{
  ℕ, ◌+◌, Bool, true, false, Option, none, some, update, if◌then◌else◌, ◌==◌, not, ◌&&◌, is_some,
}
use cxp.Common.Int.{ℤ, pos, negsuc, pos_part, ◌+ℤ◌, ◌-ℤ◌, leb_ℤ, ltb_ℤ, eqb_ℤ}
use cxp.Common.Chain.{walk, list_fuel}

-- TMO_AFTER, TMO_ALTING
abbrev pub tmo_after : ℕ
tmo_after = 0

abbrev pub tmo_alting : ℕ
tmo_alting = 1

-- Time units per tick of the elapsed-time timer.
abbrev pub tick : ℤ
tick = pos 1_000_000_000

pub record TimeoutDesc : Type 0 where
  pub time : ℤ
  pub proc : ℕ
  pub next : Option ℕ
  pub kind : ℕ

-- `armed` is the interval, in nanoseconds, that the unit's timeout timer was last set to.
pub record Timers : Type 0 where
  pub descs : ℕ → TimeoutDesc
  pub time_que : ℕ → Option ℕ
  pub current_time : ℤ
  pub armed : ℕ → ℕ

abbrev pub link_of : Timers → ℕ → Option ℕ
link_of t d = (t.descs d).next

abbrev pub time_of : Timers → ℕ → ℤ
time_of t d = (t.descs d).time

abbrev pub proc_of : Timers → ℕ → ℕ
proc_of t d = (t.descs d).proc

-- `GetCurrentTime`, where the elapsed-time timer shows `left`.
unfoldable get_current_time : Timers → ℤ → ℤ
get_current_time t left = tick -ℤ left +ℤ t.current_time

-- `set_timer_single(TIMER_TIMEOUT, diff)` on unit `k`: a negative interval counts as 0.
unfoldable pub arm : Timers → ℕ → ℤ → Timers
arm t k diff = record t { armed = update t.armed k (pos_part diff) }

unfoldable pub set_next : (ℕ → TimeoutDesc) → ℕ → Option ℕ → ℕ → TimeoutDesc
set_next descs d v = update descs d (record (descs d) { next = v })

-- The four cases in which `insertInQueue` links `d` into unit `k`'s queue; `cpu` executes the call.
unfoldable pub insert_at : Timers → ℕ → ℕ → ℕ → ℤ → Option ℕ → Option ℕ → Timers
unfolding set_next arm
insert_at t cpu k d now none none =
    arm (record t { time_que = update t.time_que k (some d); descs = set_next t.descs d none }) cpu
      (time_of t d -ℤ now)
insert_at t cpu k d now none (some c) =
    arm (record t { time_que = update t.time_que k (some d); descs = set_next t.descs d (some c) })
      cpu (time_of t d -ℤ now)
insert_at t cpu k d now (some r) (some c) = record t {
  descs = set_next (set_next t.descs r (some d)) d (some c);
}
insert_at t cpu k d now (some r) none = record t {
  descs = set_next (set_next t.descs r (some d)) d none;
}

-- Behind all entries that expire no later.
unfoldable pub insert_place : Timers → ℕ → ℕ → Option ℕ × Option ℕ
unfolding walk list_fuel
insert_place t k d =
    walk list_fuel (λ q. leb_ℤ (time_of t q) (time_of t d)) (link_of t) none (t.time_que k)

unfoldable pub insert_in_queue : Timers → ℕ → ℕ → ℕ → ℤ → Timers
unfolding insert_place insert_at
insert_in_queue t cpu k d now =
    let (prev, curr) = insert_place t k d in insert_at t cpu k d now prev curr

-- The two loops of `removeFromQueue`: past the earlier entries, then past those of the same time
-- that belong to other processes.
unfoldable pub remove_place : Timers → ℕ → ℤ → ℕ → Option ℕ × Option ℕ
remove_place t k time proc =
    let (prev, curr) =
      walk list_fuel (λ q. ltb_ℤ (time_of t q) time) (link_of t) none (t.time_que k) in
    walk list_fuel (λ q. eqb_ℤ (time_of t q) time && not (proc_of t q == proc)) (link_of t) prev
      curr

-- `if (prev != NULL) prev->next = curr->next; if (curr == tque->head) tque->head = curr->next;`
unfoldable pub skip : Timers → Option ℕ → ℕ → ℕ → TimeoutDesc
unfolding set_next
skip t none c = t.descs
skip t (some r) c = set_next t.descs r (link_of t c)

-- `curr == tque->head`
abbrev pub is_head : Option ℕ → ℕ → Bool
is_head none c = false
is_head (some h) c = h == c

unfoldable pub unlink_at : Timers → ℕ → Option ℕ → ℕ → Timers
unfolding skip
unlink_at t k prev c =
    let left = skip t prev c in
    record t {
      descs = left;
      time_que =
          (if is_head (t.time_que k) c then update t.time_que k (left c).next else t.time_que);
    }

-- The entry where the loops stopped is returned, whether it was removed or not.
unfoldable pub remove_at : Timers → ℕ → ℤ → ℕ → Option ℕ → Option ℕ → Option ℕ × Timers
unfolding unlink_at
remove_at t k time proc prev none = (none, t)
remove_at t k time proc prev (some c) =
    if eqb_ℤ (time_of t c) time && proc_of t c == proc
    then (some c, unlink_at t k prev c)
    else (some c, t)

unfoldable pub remove_from_queue : Timers → ℕ → ℤ → ℕ → Option ℕ × Timers
unfolding remove_place remove_at
remove_from_queue t k time proc =
    let (prev, curr) = remove_place t k time proc in remove_at t k time proc prev curr

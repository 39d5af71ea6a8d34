-- ===== src/World.antt =====
-- The state that processes share: the scheduler's, the channels (comm.h) and the bytes of memory that
-- communication copies, the allocator's state and the timeout queues.
use cxp.Common.{ℕ, ◌+◌, ◌-◌, Bool, Option, update, if◌then◌else◌, leb, ltb, ◌&&◌}
use cxp.Machine.{Machine}
use cxp.Memory.{Memory}
use cxp.Timer.{Timers}

-- The mutex, the process that waits, and the union of `src` and `dest`. (`len` is never used.)
pub record Channel : Type 0 where
  pub claimed : Bool
  pub waiting : Option ℕ
  pub buf : Option ℕ

pub record World : Type 0 where
  pub machine : Machine
  pub chans : ℕ → Channel
  pub bytes : ℕ → ℕ
  pub memory : Memory
  pub timers : Timers

abbrev pub set_chan : World → ℕ → Channel → World
set_chan w c ch = record w { chans = update w.chans c ch }

-- `memcpy` on byte addresses.
unfoldable pub memcpy : (ℕ → ℕ) → ℕ → ℕ → ℕ → ℕ → ℕ
memcpy b dest src len j = if leb dest j && ltb j (dest + len) then b (src + (j - dest)) else b j

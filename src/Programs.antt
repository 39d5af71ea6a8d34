-- ===== src/Programs.antt =====
-- The programs under examples/. The rings are processes that meet at channels: what
-- a program does is the sequence of its communications, which `out` and `in` carry out (comm.c). The
-- others are runs on the whole model. A signed overflow of an int is taken to wrap around.
pub mod Ring
pub mod Commun
pub mod Yielding
pub mod Signalling
pub mod Distributed
pub mod Sleeping
use cxp.Common.{ℕ, ◌+◌, ◌-◌, ◌%◌, ◌^◌, Option, none, some, if◌then◌else◌, ◌==◌}

-- `x += 1` on an int, by its bits.
abbrev pub incremented : ℕ → ℕ
incremented x = (x + 1) % 2 ^ 32

-- Where an element of a ring stands: at its `out` with the value of x, or at its `in`.
pub data RingPc : Type 0 where
  sending : ℕ → RingPc
  receiving : RingPc

-- `&chan[(i-1 + RING_SIZE) % RING_SIZE]` and `&chan[i]`, for a ring of `n`.
unfoldable pub input : ℕ → ℕ → ℕ
input n i = (i + n - 1) % n

abbrev pub output : ℕ → ℕ
output i = i

-- `element` of ring.c and ring-mp.c, up to its first communication.
unfoldable pub element_start : ℕ → RingPc
element_start nr = if nr == 0 then sending 1 else receiving

-- `child` of ring1arg.c and ring1arg-mp.c.
unfoldable pub child_start : ℕ → RingPc
child_start i = if i == 0 then sending 0 else receiving

-- The loop of an element: what comes in goes out again, one larger.
unfoldable pub received : ℕ → RingPc
received x = sending (incremented x)

-- `child1` and `child2` of ring0arg2.c, with `chan1` as channel 0 and `chan2` as channel 1.
unfoldable pub ping_start : ℕ → RingPc
ping_start nr = if nr == 0 then sending 0 else receiving

unfoldable pub ping_input : ℕ → ℕ
ping_input nr = if nr == 0 then 1 else 0

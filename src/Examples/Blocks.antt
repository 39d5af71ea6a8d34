-- ===== src/Examples/Blocks.antt =====
-- Instances of the theorems about the allocator and about process records.
use cxp.Common.{none, refl, ◌≤◌, update, ◌+◌, ◌<◌, ◌≡◌, false, arith}
use cxp.Common.Outcome.{done}
use cxp.Memory.{Memory, procmemlen, allocate_mem, release_mem, memory_init}
use cxp.Memory.Blocks.{block_len, allocate_times, memory_overrun}
use cxp.Memory.Disjoint.{begin, allocated, released, Uses-disjoint}
use cxp.Examples.Machines.{memory}

-- 100 bytes of memory give forty blocks of 32 bytes.
memory_overrun_example :
    (m' : Memory) × (allocate_times 40 (memory_init memory 1000 100) 1 ≡ done m')
    × (1000 + 100 < m'.tail)
unfolding procmemlen
memory_overrun_example =
    memory_overrun memory 1000 100 1 40 (omega arith) (omega arith) (omega arith)

abbrev region : Memory
region = memory_init memory 1000 100

abbrev one_block : Memory
one_block = record region { tail = 1032; claimed = false }

abbrev two_blocks : Memory
two_blocks = record region { tail = 1064; claimed = false }

-- Two blocks of 32 bytes are allocated, the first is released and allocated again.
Uses-disjoint_example :
    (1000 ≤ 1000)
    × (1000 + block_len 1 ≤ 1032)
    × (1032 + block_len 1 ≤ (release_mem two_blocks 1 1000).tail)
unfolding procmemlen allocate_mem release_mem memory_init
Uses-disjoint_example =
    Uses-disjoint 1000 1032 1 1
      (allocated
        {m' = record (release_mem two_blocks 1 1000) {
          procmemlist = update (release_mem two_blocks 1 1000).procmemlist 1 none;
        }}
        1 1000
        (released 1 1000
          (allocated {m' = two_blocks} 1 1032
            (allocated {m' = one_block} 1 1000 (begin memory 100) (omega arith) (omega arith) refl)
            (omega arith) (omega arith) refl)
          refl)
        (omega arith) (omega arith) refl)
      refl refl (omega arith)

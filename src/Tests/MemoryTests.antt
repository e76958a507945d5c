-- ===== src/Tests/MemoryTests.antt =====
-- Tests of the pools and of the send buffers.
use mmo_server_cpp.Memory.Slab.{Slabs, no_slabs, fetch, sweep, release}
use mmo_server_cpp.Memory.Slab
use mmo_server_cpp.Memory.Slab.Counts.{times_base}
use mmo_server_cpp.Memory.Slab.Histories.{Gives, IsDrained, slabs_lem, started}
use mmo_server_cpp.Memory.Slab.Sizes.Routes.{IsLarge, IsServed, acquire_from_lem}
use mmo_server_cpp.Base.{ℕ, ◌+◌, ◌<◌, ◌≤◌, ◌≡◌, ◌⊎◌, List, [], ◌∷◌, some, false, arith, length, All}
use mmo_server_cpp.Base.Int.{pos}
use mmo_server_cpp.Memory.PoolManager.{heap, pool, allocate, new_pool, pop}
use mmo_server_cpp.Memory.PoolManager.Table.{allocate_lem}
use mmo_server_cpp.Memory.PoolManager.Blocks.{Reached, started, popped, pushed, pop_fresh}
use mmo_server_cpp.Memory.PoolManager.Blocks
use mmo_server_cpp.Memory.SendBuffer.{initial, chunk_size, is_held}
use mmo_server_cpp.Memory.SendBuffer.Laws.{AllApart, times}
use mmo_server_cpp.Memory.SendBuffer.Use.{Action, acquires, releases, run, buffers-AllApart}

allocate_lem_example :
    ((4096 < 1000 + 32) × (allocate 32 1000 ≡ some heap))
    ⊎ ((1000 + 32 ≤ 4096)
        × ((s : ℕ) × (allocate 32 1000 ≡ some (pool s)) × (1000 + 32 ≤ s) × (s < 1000 + 32 + 128)))
allocate_lem_example = allocate_lem 32 1000 (omega arith)

pop_fresh_example :
    (Blocks.times (pop (pop new_pool).0).1 (pop new_pool).0.used ≡ 0)
    × ((pop new_pool).0.use_count ≡ pos (length (pop new_pool).0.used))
    × ((pop new_pool).0.reserve_count ≡ pos (length (pop new_pool).0.reserved))
pop_fresh_example = pop_fresh (pop new_pool).0 (popped started)

-- Two large buffers need two chunks; the first chunk is free again once its buffer is.
abbrev history : List Action
history = acquires 0x2000 ∷ acquires 0x2000 ∷ releases 1 ∷ acquires 0x800 ∷ []

buffers-AllApart_example :
    All (λ b. b.start + b.alloc_size ≤ chunk_size) (run initial history).live
    × AllApart (run initial history).live
    × ((k : ℕ)
        → 0 < times k (run initial history).stock
        → is_held k (run initial history).live ≡ false)
buffers-AllApart_example = buffers-AllApart history

abbrev two_blocks : Slabs
two_blocks = fetch (no_slabs 2)

slabs_lem_example :
    Gives two_blocks (Slab.acquire two_blocks)
    × ((times_base 0 (sweep (length two_blocks.slab_infos) two_blocks.slab_infos).1 ≡ 0)
        ⊎ IsDrained two_blocks 0)
slabs_lem_example = slabs_lem 2 two_blocks 0 (omega arith) started

acquire_from_lem_example :
    ((448 < 100) × IsLarge 100) ⊎ ((100 ≤ 448) × ((index : ℕ) × IsServed 100 index))
acquire_from_lem_example = acquire_from_lem 100

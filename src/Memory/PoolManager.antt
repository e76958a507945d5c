-- ===== src/Memory/PoolManager.antt =====
-- ServerCore/PoolManager.cpp and MemoryPool.cpp. A block is a number; `sizeof(MemoryHeader)`
-- depends on the platform's `SLIST_ENTRY` and is a parameter, `header`.
pub mod Table
pub mod Blocks
use mmo_server_cpp.Base.{
  ℕ, zero, suc, ◌+◌, ◌-◌, List, [], ◌∷◌, ◌++◌, Option, none, some, ltb, ◌==◌, if◌then◌else◌, length,
  replicate, get_elem?,
}
use mmo_server_cpp.Base.Int.{ℤ, pos, negsuc, ◌+ℤ◌}

-- One `for` loop of the constructor: the sizes of the pools that it makes, and `size` after it.
pub sizes_from : ℕ → ℕ → ℕ → ℕ → List ℕ × ℕ
sizes_from zero size limit stride = ([], size)
sizes_from (suc fuel) size limit stride =
    let (later, end) = sizes_from fuel (size + stride) limit stride in
    if ltb size limit then (size ∷ later, end) else ([], size)

-- The three loops, each of fewer than 64 rounds.
unfoldable pub pool_sizes : List ℕ
unfolding sizes_from
pool_sizes =
    let (small, size) = sizes_from 64 32 1024 32 in
    let (middle, size') = sizes_from 64 size 2048 64 in
    let (large, size'') = sizes_from 64 size' 4097 128 in small ++ (middle ++ large)

-- The inner `while` loops: entry `i` is that of size `i + 1`, so `size_index` is one more than the
-- length. An entry is the size of the pool that it points to.
pub fill_table : List ℕ → List ℕ → List ℕ
fill_table table [] = table
fill_table table (size ∷ sizes) = fill_table (table ++ replicate (size - length table) size) sizes

-- `_pool_table[1]` and so on.
pub pool_table : List ℕ
unfolding fill_table pool_sizes
pool_table = fill_table [] pool_sizes

abbrev pub max_alloc_size : ℕ
max_alloc_size = 4096

-- Where `Allocate` and `Release` turn: `::_aligned_malloc` itself, or the pool of a size.
pub data Source : Type 0 where
  heap : Source
  pool : ℕ → Source

pooled : Option ℕ → Option Source
pooled none = none
pooled (some size) = some (pool size)

-- `none` is a dereference of `nullptr`: entry 0 of the table, or none.
pub source_of : ℕ → Option Source
unfolding pooled
source_of zero = none
source_of (suc n) =
    if ltb max_alloc_size (suc n) then some heap else pooled (get_elem? pool_table n)

pub allocate : ℕ → ℕ → Option Source
unfolding source_of
allocate header size = source_of (size + header)

-- A `MemoryPool`: `reserved` is its list of free blocks, `used` the blocks that are out, `fresh`
-- the next block that `_aligned_malloc` returns.
pub record MemoryPool : Type 0 where
  pub reserved : List ℕ
  pub used : List ℕ
  pub fresh : ℕ
  pub use_count : ℤ
  pub reserve_count : ℤ

unfoldable pub new_pool : MemoryPool
new_pool = record { reserved = []; used = []; fresh = 0; use_count = pos 0; reserve_count = pos 0 }

pop_from : MemoryPool → List ℕ → MemoryPool × ℕ
pop_from p [] = (
  record p { used = p.fresh ∷ p.used; fresh = p.fresh + 1; use_count = p.use_count +ℤ pos 1 },
  p.fresh,
)
pop_from p (b ∷ bs) = (
  record p {
    reserved = bs;
    used = b ∷ p.used;
    reserve_count = p.reserve_count +ℤ negsuc 0;
    use_count = p.use_count +ℤ pos 1;
  },
  b,
)

pub pop : MemoryPool → MemoryPool × ℕ
unfolding pop_from
pop p = pop_from p p.reserved

abbrev pub without : ℕ → List ℕ → List ℕ
without b [] = []
without b (x ∷ xs) = if x == b then xs else x ∷ without b xs

pub push : MemoryPool → ℕ → MemoryPool
push p b = record p {
  reserved = b ∷ p.reserved;
  used = without b p.used;
  use_count = p.use_count +ℤ negsuc 0;
  reserve_count = p.reserve_count +ℤ pos 1;
}

-- ===== src/Memory/Slab/Sizes.antt =====
-- Which slabs serve a size, and how large they are: `SizeConverter`, the tables and the routing of
-- `SlabMemoryManager` in ServerCore/SlabMemoryManager.cpp, and the sizes of SlabPool.cpp.
pub mod Routes
use mmo_server_cpp.Base.{
  ℕ, zero, suc, ◌+◌, ◌-◌, ◌*◌, ◌/◌, ◌%◌, List, [], ◌∷◌, ◌++◌, Option, none, some, Bool, true, false,
  leb, ltb, ◌==◌, if◌then◌else◌, length, replicate, get_elem?, ◌>>=◌,
}

abbrev pub block_stride : ℕ
block_stride = 32

abbrev pub max_block_size : ℕ
max_block_size = 512

-- `kMallocAlignment`, and the size of a `SlabMetadata`, which is aligned to it.
abbrev pub malloc_alignment : ℕ
malloc_alignment = 64

abbrev pub metadata_size : ℕ
metadata_size = 64

abbrev pub base_slab_size : ℕ
base_slab_size = 16384

-- `while (size <= i) table[size++] = value;` where the table has its entries from size 1 on.
abbrev pub fill_up : List ℕ → ℕ → ℕ → List ℕ
fill_up table i value = table ++ replicate (i - length table) value

-- The loop of the constructor of `SizeConverter`.
unfoldable pub convert_from : ℕ → ℕ → ℕ → List ℕ → List ℕ
convert_from zero i index table = table
convert_from (suc rounds) i index table =
    let more = convert_from rounds (i + block_stride) (suc index) (fill_up table i index) in
    if leb i max_block_size then more else table

unfoldable pub size_converter : List ℕ
size_converter = convert_from 17 block_stride 0 []

unfoldable pub entry_of : List ℕ → ℕ → Option ℕ
entry_of table zero = none
entry_of table (suc n) = get_elem? table n

-- `ToIndex`; `none` is a crash of `ASSERT_CRASH`.
unfoldable pub to_index : ℕ → Option ℕ
to_index size = if leb size max_block_size then entry_of size_converter size else none

-- `arr_size`, the sizes of the slabs of a thread.
abbrev pub sizes_from : ℕ → ℕ → List ℕ
sizes_from zero seed = []
sizes_from (suc n) seed = (seed + 32) ∷ sizes_from n (seed + 32)

abbrev pub arr_size : List ℕ
arr_size = sizes_from 16 0

-- The loop of the constructor of `SlabMemoryManager`: an entry is the size of its pool.
unfoldable pub pools_from : ℕ → ℕ → List ℕ → List ℕ
pools_from zero block table = table
pools_from (suc rounds) block table =
    let more = pools_from rounds (block + block_stride) (fill_up table block block) in
    if leb block max_block_size then more else table

unfoldable pub slab_pools : List ℕ
slab_pools = pools_from 17 32 []

-- `std::gcd`, with fuel above its second argument.
unfoldable pub gcd : ℕ → ℕ → ℕ → ℕ
gcd zero a b = a
gcd (suc fuel) a zero = a
gcd (suc fuel) a (suc b) = gcd fuel (suc b) (a % suc b)

-- `CalcSlabkSize` and `CalcBlockCountOfSlab`.
unfoldable pub calc_slabk_size : ℕ → ℕ
calc_slabk_size alloc_size =
    let g = gcd 65 alloc_size malloc_alignment in
    let l = alloc_size / g * malloc_alignment in let count = base_slab_size / l in count * l

unfoldable pub calc_block_count_of_slab : ℕ → ℕ
calc_block_count_of_slab alloc_size = calc_slabk_size alloc_size / alloc_size

-- Where the manager gets memory from: `_aligned_malloc` of a number of bytes, or the slabs of the
-- thread at an index.
pub data Source : Type 0 where
  aligned_malloc : ℕ → Source
  slab_at : ℕ → Source

-- `SlabMemoryManager::Acquire` and `AcquireBlock`, which adds the header once more.
unfoldable pub acquire_from : ℕ → Option Source
acquire_from size =
    let alloc_size = size + metadata_size in
    if ltb max_block_size alloc_size
    then some (aligned_malloc (alloc_size + metadata_size))
    else (do index ← to_index alloc_size; some (slab_at index))

-- `SlabMemoryManager::Release` on the size in the header of a block.
unfoldable pub release_to : ℕ → Option Source
release_to alloc_size =
    if leb alloc_size 0
    then none
    else if ltb max_block_size alloc_size
    then some (aligned_malloc alloc_size)
    else (do index ← to_index alloc_size; some (slab_at index))

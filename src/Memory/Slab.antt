-- ===== src/Memory/Slab.antt =====
-- The slabs of one thread for one size of blocks, and the pool they come from: `ThreadLocalSlab`,
-- `RefillSlab` and `DrainSlab` of ServerCore/SlabMemoryManager.cpp and `SlabPool` of SlabPool.cpp.
pub mod Counts
pub mod Sound
pub mod Histories
pub mod Sizes
use mmo_server_cpp.Base.{
  ℕ, zero, suc, ◌+◌, List, [], ◌∷◌, ◌++◌, Option, none, some, Bool, true, false, ◌==◌, ◌&&◌,
  if◌then◌else◌, length,
}

-- A slab is known by its base, a block by the base of its slab and its number.
abbrev pub Block : Type 0
Block = ℕ × ℕ

abbrev pub is_block : Block → Block → Bool
is_block (base, i) (other, j) = (base == other) && (i == j)

pub record SlabInfo : Type 0 where
  pub slab_base : ℕ
  pub block_count : ℕ
  pub freed_count : ℕ

-- `slabs` is the pool, the next one to go out first; bases from `fresh` on were never allocated.
-- `lent` are the slabs of other threads. `free_block_payloads` has the last one that was pushed
-- first. `used` are the blocks of this thread's slabs that somebody uses.
pub record Slabs : Type 0 where
  pub slabs : List ℕ
  pub fresh : ℕ
  pub lent : List ℕ
  pub block_count : ℕ
  pub slab_infos : List SlabInfo
  pub free_block_payloads : List Block
  pub used : List Block

-- `SlabPool::Pop` on the slabs that it finds: what goes out, what stays, and the fresh bases.
abbrev pub pop_from : ℕ → List ℕ → ℕ × (List ℕ) × ℕ
pop_from fresh [] = (fresh, [], suc fresh)
pop_from fresh (chunk ∷ chunks) = (chunk, chunks, fresh)

-- The loop of `Fetch` over the blocks of a slab.
unfoldable pub blocks_of : ℕ → ℕ → List Block
blocks_of base zero = []
blocks_of base (suc i) = (base, i) ∷ blocks_of base i

abbrev pub fetch_as : Slabs → ℕ × (List ℕ) × ℕ → Slabs
fetch_as s (base, slabs, fresh) = record s {
  slabs = slabs;
  fresh = fresh;
  slab_infos =
      s.slab_infos
      ++ record { slab_base = base; block_count = s.block_count; freed_count = 0 } ∷ [];
  free_block_payloads = blocks_of base s.block_count ++ s.free_block_payloads;
}

-- `Fetch`, with `RefillSlab`.
unfoldable pub fetch : Slabs → Slabs
fetch s = fetch_as s (pop_from s.fresh s.slabs)

-- The end of `Acquire`: `back` of an empty vector is undefined.
unfoldable pub take_back : Slabs → List Block → Option (Slabs × Block)
take_back s [] = none
take_back s (block ∷ blocks) =
    some (record s { free_block_payloads = blocks; used = block ∷ s.used }, block)

-- `ThreadLocalSlab::Acquire` on the free blocks that it finds.
unfoldable pub acquire_from : Slabs → List Block → Option (Slabs × Block)
acquire_from s [] = take_back (fetch s) (fetch s).free_block_payloads
acquire_from s (block ∷ blocks) = take_back s (block ∷ blocks)

unfoldable pub acquire : Slabs → Option (Slabs × Block)
acquire s = acquire_from s s.free_block_payloads

-- `slab_info->freed_count.fetch_add(1)`
unfoldable pub count_freed : ℕ → List SlabInfo → List SlabInfo
count_freed base [] = []
count_freed base (i ∷ is) =
    if i.slab_base == base
    then record i { freed_count = suc i.freed_count } ∷ is
    else i ∷ count_freed base is

unfoldable pub without : Block → List Block → List Block
without b [] = []
without b (c ∷ cs) = if is_block c b then cs else c ∷ without b cs

-- The first half of `SlabMemoryManager::Release`, by whatever thread has the block.
unfoldable pub free_block : Slabs → Block → Slabs
free_block s (base, i) = record s {
  used = without (base, i) s.used;
  slab_infos = count_freed base s.slab_infos;
}

unfoldable pub put_second : SlabInfo → List SlabInfo → List SlabInfo
put_second i [] = i ∷ []
put_second i (k ∷ ks) = k ∷ i ∷ ks

-- `_slab_infos[i] = _slab_infos.back(); _slab_infos.pop_back();` on what stands behind i.
unfoldable pub last_first : SlabInfo → List SlabInfo → List SlabInfo
last_first i [] = i ∷ []
last_first i (j ∷ js) = put_second i (last_first j js)

abbrev pub replace_by_back : List SlabInfo → List SlabInfo
replace_by_back [] = []
replace_by_back (i ∷ is) = last_first i is

-- The loop of `ThreadLocalSlab::Release` from an index on, with a round for each slab that is left:
-- the slabs that stay, and the bases that `DrainSlab` gives back to the pool.
unfoldable pub sweep : ℕ → List SlabInfo → (List SlabInfo) × (List ℕ)
sweep zero is = (is, [])
sweep (suc rounds) [] = ([], [])
sweep (suc rounds) (i ∷ is) =
    let drained = sweep rounds (replace_by_back is) in
    let passed = sweep rounds is in
    if i.block_count == i.freed_count
    then (drained.0, drained.1 ++ i.slab_base ∷ [])
    else (i ∷ passed.0, passed.1)

-- The second half, by this thread.
unfoldable pub release : Slabs → Slabs
release s =
    let (kept, drained) = sweep (length s.slab_infos) s.slab_infos in
    record s { slab_infos = kept; slabs = drained ++ s.slabs }

unfoldable pub without_base : ℕ → List ℕ → List ℕ
without_base b [] = []
without_base b (c ∷ cs) = if c == b then cs else c ∷ without_base b cs

-- Another thread takes a slab out of the pool, or gives one back.
abbrev pub lend : Slabs → ℕ × (List ℕ) × ℕ → Slabs
lend s (base, slabs, fresh) = record s { slabs = slabs; fresh = fresh; lent = base ∷ s.lent }

unfoldable pub other_pops : Slabs → Slabs
other_pops s = lend s (pop_from s.fresh s.slabs)

unfoldable pub other_pushes : Slabs → ℕ → Slabs
other_pushes s base = record s { slabs = base ∷ s.slabs; lent = without_base base s.lent }

-- A thread's slabs before its constructor has fetched the first one.
abbrev pub no_slabs : ℕ → Slabs
no_slabs block_count = record {
  slabs = [];
  fresh = 0;
  lent = [];
  block_count = block_count;
  slab_infos = [];
  free_block_payloads = [];
  used = [];
}

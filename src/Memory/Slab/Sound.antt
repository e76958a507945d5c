-- ===== src/Memory/Slab/Sound.antt =====
-- Blocks in use are apart, and a slab that goes back to the pool has none.
use mmo_server_cpp.Base.{
  ℕ, ◌+◌, ◌≡◌, ◌<◌, ◌≤◌, refl, ap, List, [], ◌∷◌, ◌==◌, if◌then◌else◌, arith, length,
}
use mmo_server_cpp.Memory.Slab.{
  Block, SlabInfo, Slabs, no_slabs, pop_from, blocks_of, fetch, fetch_as, free_block, sweep,
  release, other_pops, other_pushes,
}
use mmo_server_cpp.Memory.Slab.Counts.{
  times_base, times_block, blocks_in, weigh, one, size, freed, times_base-append,
  times_block-append, blocks_in-append, weigh-append, absent-size, times_block-blocks_in,
  blocks_in-blocks_of, times_block-blocks_of, times_block-without, blocks_in-without,
  times_base-without_base, one-count_freed, size-count_freed, freed-count_freed, sweep-weigh,
}

-- Each base is in one place, and each block of this thread's slabs is free, in use or freed.
pub record IsSound (s : Slabs) : Type 0 where
  pub apart : (b : ℕ) → times_base b s.slabs + times_base b s.lent + weigh (one b) s.slab_infos ≤ 1
  pub known :
      (b : ℕ)
      → s.fresh ≤ b
      → times_base b s.slabs + times_base b s.lent + weigh (one b) s.slab_infos ≡ 0
  pub balanced :
      (b : ℕ)
      → blocks_in b s.free_block_payloads + blocks_in b s.used + weigh (freed b) s.slab_infos
        ≡ weigh (size b) s.slab_infos
  pub distinct :
      (b i : ℕ) → times_block (b, i) s.free_block_payloads + times_block (b, i) s.used ≤ 1

pub no_slabs-IsSound : (n : ℕ) → IsSound (no_slabs n)
unfolding times_base times_block blocks_in weigh
no_slabs-IsSound n = record {
  apart = λ b. omega arith;
  known = λ b h. refl;
  balanced = λ b. refl;
  distinct = λ b i. omega arith;
}

-- A slab whose base nobody has comes in.
fetch_as-IsSound :
    (s : Slabs) (base : ℕ) (slabs : List ℕ) (fresh : ℕ)
    → IsSound s
    → ((b : ℕ)
        → times_base b slabs
            + (if base == b then 1 else 0)
            + times_base b s.lent
            + weigh (one b) s.slab_infos
          ≤ 1)
    → ((b : ℕ)
        → fresh ≤ b
        → times_base b slabs
            + (if base == b then 1 else 0)
            + times_base b s.lent
            + weigh (one b) s.slab_infos
          ≡ 0)
    → IsSound (fetch_as s (base, slabs, fresh))
unfolding weigh
fetch_as-IsSound s base slabs fresh v single beyond =
    let new : SlabInfo = record {
      slab_base = base;
      block_count = s.block_count;
      freed_count = 0;
    } in
    record {
      apart = λ b.
          let more = weigh-append (one b) s.slab_infos (new ∷ []) in
          let o = single b in ground arith;
      known = λ b h.
          let more = weigh-append (one b) s.slab_infos (new ∷ []) in
          let o = beyond b h in ground arith;
      balanced = λ b.
          let sizes = weigh-append (size b) s.slab_infos (new ∷ []) in
          let frees = weigh-append (freed b) s.slab_infos (new ∷ []) in
          let blocks = blocks_in-append b (blocks_of base s.block_count) s.free_block_payloads in
          let made = blocks_in-blocks_of b base s.block_count in
          let old = v.balanced b in ground arith;
      distinct = λ b i.
          let blocks =
            times_block-append (b, i) (blocks_of base s.block_count) s.free_block_payloads in
          let made = times_block-blocks_of base b i s.block_count in
          let fits = times_block-blocks_in b i (blocks_of base s.block_count) in
          let here = blocks_in-blocks_of b base s.block_count in
          let free = times_block-blocks_in b i s.free_block_payloads in
          let in_use = times_block-blocks_in b i s.used in
          let balance = v.balanced b in
          let nothing = absent-size b s.slab_infos in
          let o = single b in let old = v.distinct b i in ground arith;
    }

-- What comes out of the pool was nowhere else, and stays below the fresh bases.
abbrev IsApart : Slabs → ℕ × (List ℕ) × ℕ → Type 0
IsApart s (base, slabs, fresh) =
    ((b : ℕ)
      → times_base b slabs
          + (if base == b then 1 else 0)
          + times_base b s.lent
          + weigh (one b) s.slab_infos
        ≤ 1)
    × ((b : ℕ)
        → fresh ≤ b
        → times_base b slabs
            + (if base == b then 1 else 0)
            + times_base b s.lent
            + weigh (one b) s.slab_infos
          ≡ 0)

pop_from-IsApart :
    (s : Slabs) (chunks : List ℕ)
    → s.slabs ≡ chunks
    → IsSound s
    → IsApart s (pop_from s.fresh chunks)
unfolding times_base
pop_from-IsApart s [] e v = (
  λ b. (let o = v.apart b in let k = v.known b in let t = ap (times_base b) e in ground arith),
  λ b h. (let k = v.known b (omega arith) in let t = ap (times_base b) e in ground arith),
)
pop_from-IsApart s (chunk ∷ chunks) e v = (
  λ b. (let o = v.apart b in let t = ap (times_base b) e in omega arith),
  λ b h. (let k = v.known b h in let t = ap (times_base b) e in omega arith),
)

pub fetch-IsSound : (s : Slabs) → IsSound s → IsSound (fetch s)
unfolding fetch
fetch-IsSound s v =
    let popped = pop_from s.fresh s.slabs in
    let (single, beyond) = pop_from-IsApart s s.slabs refl v in
    fetch_as-IsSound s popped.0 popped.1 popped.2 v single beyond

pub other_pops-IsSound : (s : Slabs) → IsSound s → IsSound (other_pops s)
unfolding other_pops times_base
other_pops-IsSound s v =
    let (single, beyond) = pop_from-IsApart s s.slabs refl v in
    record {
      apart = λ b. let o = single b in omega arith;
      known = λ b h. let o = beyond b h in omega arith;
      balanced = v.balanced;
      distinct = v.distinct;
    }

pub other_pushes-IsSound :
    (s : Slabs) (base : ℕ) → 0 < times_base base s.lent → IsSound s → IsSound (other_pushes s base)
unfolding other_pushes times_base
other_pushes-IsSound s base h v = record {
  apart =
      λ b. let o = v.apart b in let less = times_base-without_base base b s.lent h in ground arith;
  known = λ b k.
      let o = v.known b k in let less = times_base-without_base base b s.lent h in ground arith;
  balanced = v.balanced;
  distinct = v.distinct;
}

pub free_block-IsSound :
    (s : Slabs) (base i : ℕ)
    → 0 < times_block (base, i) s.used
    → IsSound s
    → IsSound (free_block s (base, i))
unfolding free_block
free_block-IsSound s base i h v =
    let some_blocks = times_block-blocks_in base i s.used in
    let there = v.balanced base in
    let held : 0 < weigh (size base) s.slab_infos = omega arith in
    record {
      apart =
          λ b. let o = v.apart b in let same = one-count_freed base b s.slab_infos in omega arith;
      known = λ b k.
          let o = v.known b k in let same = one-count_freed base b s.slab_infos in omega arith;
      balanced = λ b.
          let old = v.balanced b in
          let same = size-count_freed base b s.slab_infos in
          let more = freed-count_freed base b s.slab_infos held in
          let less = blocks_in-without base i b s.used h in omega arith;
      distinct = λ b j.
          let old = v.distinct b j in
          let less = times_block-without base i b j s.used h in omega arith;
    }

pub release-IsSound : (s : Slabs) → IsSound s → IsSound (release s)
unfolding release
release-IsSound s v = record {
  apart = λ b.
      let o = v.apart b in
      let (ones, sizes) = sweep-weigh (length s.slab_infos) b s.slab_infos in
      let more = times_base-append b (sweep (length s.slab_infos) s.slab_infos).1 s.slabs in
      omega arith;
  known = λ b k.
      let o = v.known b k in
      let (ones, sizes) = sweep-weigh (length s.slab_infos) b s.slab_infos in
      let more = times_base-append b (sweep (length s.slab_infos) s.slab_infos).1 s.slabs in
      omega arith;
  balanced = λ b.
      let old = v.balanced b in
      let (ones, sizes) = sweep-weigh (length s.slab_infos) b s.slab_infos in omega arith;
  distinct = v.distinct;
}

pub take_back-IsSound :
    (s : Slabs) (block : Block) (blocks : List Block)
    → s.free_block_payloads ≡ block ∷ blocks
    → IsSound s
    → IsSound (record s { free_block_payloads = blocks; used = block ∷ s.used })
      × (times_block block s.used ≡ 0)
unfolding times_block blocks_in
take_back-IsSound s (base, i) blocks e v = (
  record {
    apart = v.apart;
    known = v.known;
    balanced = λ b. let old = v.balanced b in let t = ap (blocks_in b) e in ground arith;
    distinct = λ b j. let old = v.distinct b j in let t = ap (times_block (b, j)) e in ground arith;
  },
  (let old = v.distinct base i in let t = ap (times_block (base, i)) e in ground arith),
)

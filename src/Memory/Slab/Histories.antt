-- ===== src/Memory/Slab/Histories.antt =====
-- What threads can do with slabs, and what `Acquire` and `Release` do then.
use mmo_server_cpp.Base.{
  ◌⊎◌, inl, inr, dec_lt, subst, length-append, ℕ, zero, suc, ◌≡◌, ◌<◌, refl, sym, ◌∙◌, List, [],
  ◌∷◌, Option, some, none, arith, length,
}
use mmo_server_cpp.Memory.Slab.{
  Block, Slabs, no_slabs, pop_from, blocks_of, fetch, take_back, acquire_from, acquire, free_block,
  sweep, release, other_pops, other_pushes,
}
use mmo_server_cpp.Memory.Slab.Counts.{
  times_base, times_block, blocks_in, weigh, one, absent-size, sweep-weigh,
}
use mmo_server_cpp.Memory.Slab.Sound.{
  IsSound, no_slabs-IsSound, fetch-IsSound, other_pops-IsSound, other_pushes-IsSound,
  free_block-IsSound, release-IsSound, take_back-IsSound,
}

-- What `Acquire` gives: a block that nobody uses, which is in use from then on.
abbrev pub Gives : Slabs → Option (Slabs × Block) → Type 0
Gives s r =
    (t : Slabs) × (block : Block) × (r ≡ some (t, block))
    × (times_block block s.used ≡ 0)
    × (times_block block t.used ≡ 1)
    × (t.block_count ≡ s.block_count)
    × IsSound t

take_back-Gives :
    (s : Slabs) (blocks : List Block)
    → s.free_block_payloads ≡ blocks
    → 0 < length blocks
    → IsSound s
    → Gives s (take_back s blocks)
unfolding take_back times_block
take_back-Gives s [] e h v = absurd (omega arith)
take_back-Gives s ((base, i) ∷ blocks) e h v =
    let (kept, new) = take_back-IsSound s (base, i) blocks e v in
    (_, (base, i), refl, new, ground (arith, new), refl, kept)

length-blocks_of : (base n : ℕ) → length (blocks_of base n) ≡ n
unfolding blocks_of
length-blocks_of base zero = refl
length-blocks_of base (suc n) = omega (arith, length-blocks_of base n)

acquire_from-Gives :
    (s : Slabs) (blocks : List Block)
    → s.free_block_payloads ≡ blocks
    → 0 < s.block_count
    → IsSound s
    → Gives s (acquire_from s blocks)
unfolding acquire_from fetch
acquire_from-Gives s [] e h v =
    let base = (pop_from s.fresh s.slabs).0 in
    let longer = length-append (blocks_of base s.block_count) s.free_block_payloads in
    let made = length-blocks_of base s.block_count in
    take_back-Gives (fetch s) (fetch s).free_block_payloads refl (omega arith) (fetch-IsSound s v)
acquire_from-Gives s (block ∷ blocks) e h v = take_back-Gives s (block ∷ blocks) e (omega arith) v

-- The states that this thread, the users of its blocks and the other threads can reach.
pub data Reached (n : ℕ) : Slabs → Type 0 where
  started : Reached n (fetch (no_slabs n))
  acquired : {s t : Slabs} {block : Block} → Reached n s → acquire s ≡ some (t, block) → Reached n t
  freed_one :
      {s : Slabs} (base i : ℕ)
      → Reached n s
      → 0 < times_block (base, i) s.used
      → Reached n (free_block s (base, i))
  released : {s : Slabs} → Reached n s → Reached n (release s)
  other_popped : {s : Slabs} → Reached n s → Reached n (other_pops s)
  other_pushed :
      {s : Slabs} (base : ℕ)
      → Reached n s
      → 0 < times_base base s.lent
      → Reached n (other_pushes s base)

abbrev IsReady : ℕ → Slabs → Type 0
IsReady n s = IsSound s × (s.block_count ≡ n)

abbrev Keeps : ℕ → Option (Slabs × Block) → Type 0
Keeps n none = Unit {0}
Keeps n (some (t, block)) = IsReady n t

Reached-IsReady : {n : ℕ} {s : Slabs} → 0 < n → Reached n s → IsReady n s
unfolding fetch free_block release other_pops other_pushes acquire
Reached-IsReady {n} h started = (fetch-IsSound (no_slabs n) (no_slabs-IsSound n), refl)
Reached-IsReady {n} h (acquired {s} {t} {block} r e) =
    let (sound, count) = Reached-IsReady h r in
    let (u, given, gives, new, in_use, same, kept) =
      acquire_from-Gives s s.free_block_payloads refl (omega arith) sound in
    subst (Keeps n) (sym gives ∙ e) (kept, same ∙ count)
Reached-IsReady h (freed_one {s} base i r k) =
    let (sound, count) = Reached-IsReady h r in (free_block-IsSound s base i k sound, count)
Reached-IsReady h (released {s} r) =
    let (sound, count) = Reached-IsReady h r in (release-IsSound s sound, count)
Reached-IsReady h (other_popped {s} r) =
    let (sound, count) = Reached-IsReady h r in (other_pops-IsSound s sound, count)
Reached-IsReady h (other_pushed {s} base r k) =
    let (sound, count) = Reached-IsReady h r in (other_pushes-IsSound s base k sound, count)

-- A slab that a sweep gives back is given back once, is this thread's no longer, and has no block
-- in use or among the free ones.
abbrev pub IsDrained : Slabs → ℕ → Type 0
IsDrained s base =
    (times_base base (sweep (length s.slab_infos) s.slab_infos).1 ≡ 1)
    × (weigh (one base) (release s).slab_infos ≡ 0)
    × (blocks_in base s.used ≡ 0)
    × (blocks_in base s.free_block_payloads ≡ 0)

-- In every state that a thread with slabs of at least one block, the users of its blocks and the
-- other threads can reach: Acquire returns a block that nobody uses, which is then in use once; and
-- every base is either not given back to the pool by Release, or it is given back once, its slab is
-- this thread's no longer, and none of its blocks is in use or among the free ones.
pub slabs_lem :
    (n : ℕ) (s : Slabs) (base : ℕ)
    → 0 < n
    → Reached n s
    → Gives s (acquire s)
      × ((times_base base (sweep (length s.slab_infos) s.slab_infos).1 ≡ 0) ⊎ IsDrained s base)
unfolding acquire release
slabs_lem n s base h r =
    let (v, count) = Reached-IsReady h r in
    let (ones, sizes) = sweep-weigh (length s.slab_infos) base s.slab_infos in
    let single = v.apart base in
    let balance = v.balanced base in
    let no_size = absent-size base (sweep (length s.slab_infos) s.slab_infos).0 in
    (
      acquire_from-Gives s s.free_block_payloads refl (omega arith) v,
      elim (dec_lt 0 (times_base base (sweep (length s.slab_infos) s.slab_infos).1)) [
        | no kept ↦ inl (omega arith)
        | yes drained ↦
            let gone : weigh (one base) (sweep (length s.slab_infos) s.slab_infos).0 ≡ 0 =
              omega arith in
            let nothing = no_size gone in inr (omega arith, gone, omega arith, omega arith)
      ],
    )

-- ===== src/Memory/Slab/Counts.antt =====
-- Blocks and slabs counted in lists.
use mmo_server_cpp.Base.{
  ℕ, zero, suc, ◌+◌, ◌≡◌, ◌<◌, ◌≤◌, refl, List, [], ◌∷◌, ◌++◌, ◌==◌, if◌then◌else◌, arith,
}
use mmo_server_cpp.Memory.Slab.{
  Block, is_block, SlabInfo, blocks_of, count_freed, without, put_second, last_first,
  replace_by_back, sweep, without_base,
}

-- How often a base, a block, and blocks of a slab stand in a list.
unfoldable pub times_base : ℕ → List ℕ → ℕ
times_base b [] = 0
times_base b (c ∷ cs) = (if c == b then 1 else 0) + times_base b cs

unfoldable pub times_block : Block → List Block → ℕ
times_block b [] = 0
times_block b (c ∷ cs) = (if is_block c b then 1 else 0) + times_block b cs

unfoldable pub blocks_in : ℕ → List Block → ℕ
blocks_in base [] = 0
blocks_in base ((c, i) ∷ cs) = (if c == base then 1 else 0) + blocks_in base cs

-- A sum over slabs.
unfoldable pub weigh : (SlabInfo → ℕ) → List SlabInfo → ℕ
weigh f [] = 0
weigh f (i ∷ is) = f i + weigh f is

-- For the slab at a base: whether it is there, its size, and how many of its blocks were freed.
abbrev pub one : ℕ → SlabInfo → ℕ
one b i = if i.slab_base == b then 1 else 0

abbrev pub size : ℕ → SlabInfo → ℕ
size b i = if i.slab_base == b then i.block_count else 0

abbrev pub freed : ℕ → SlabInfo → ℕ
freed b i = if i.slab_base == b then i.freed_count else 0

pub times_base-append :
    (b : ℕ) (xs ys : List ℕ) → times_base b (xs ++ ys) ≡ times_base b xs + times_base b ys
unfolding times_base
times_base-append b [] ys = omega arith
times_base-append b (x ∷ xs) ys = omega (arith, times_base-append b xs ys)

pub times_block-append :
    (b : Block) (xs ys : List Block)
    → times_block b (xs ++ ys) ≡ times_block b xs + times_block b ys
unfolding times_block
times_block-append b [] ys = omega arith
times_block-append b (x ∷ xs) ys = omega (arith, times_block-append b xs ys)

pub blocks_in-append :
    (b : ℕ) (xs ys : List Block) → blocks_in b (xs ++ ys) ≡ blocks_in b xs + blocks_in b ys
unfolding blocks_in
blocks_in-append b [] ys = omega arith
blocks_in-append b ((c, i) ∷ xs) ys = omega (arith, blocks_in-append b xs ys)

pub weigh-append :
    (f : SlabInfo → ℕ) (xs ys : List SlabInfo) → weigh f (xs ++ ys) ≡ weigh f xs + weigh f ys
unfolding weigh
weigh-append f [] ys = omega arith
weigh-append f (x ∷ xs) ys = omega (arith, weigh-append f xs ys)

weigh-put_second :
    (f : SlabInfo → ℕ) (i : SlabInfo) (ks : List SlabInfo)
    → weigh f (put_second i ks) ≡ f i + weigh f ks
unfolding weigh put_second
weigh-put_second f i [] = refl
weigh-put_second f i (k ∷ ks) = omega arith

weigh-last_first :
    (f : SlabInfo → ℕ) (i : SlabInfo) (is : List SlabInfo)
    → weigh f (last_first i is) ≡ f i + weigh f is
unfolding weigh last_first
weigh-last_first f i [] = refl
weigh-last_first f i (j ∷ js) =
    omega (arith, weigh-put_second f i (last_first j js), weigh-last_first f j js)

weigh-replace_by_back :
    (f : SlabInfo → ℕ) (is : List SlabInfo) → weigh f (replace_by_back is) ≡ weigh f is
unfolding weigh
weigh-replace_by_back f [] = refl
weigh-replace_by_back f (i ∷ is) = weigh-last_first f i is

-- A slab that is not there has no size.
pub absent-size : (b : ℕ) (is : List SlabInfo) → weigh (one b) is ≡ 0 → weigh (size b) is ≡ 0
unfolding weigh
absent-size b [] h = refl
absent-size b (i ∷ is) h = ground (arith, absent-size b is)

pub times_block-blocks_in :
    (base i : ℕ) (bs : List Block) → times_block (base, i) bs ≤ blocks_in base bs
unfolding times_block blocks_in
times_block-blocks_in base i [] = omega arith
times_block-blocks_in base i ((c, j) ∷ bs) =
    let rest = times_block-blocks_in base i bs in ground arith

pub blocks_in-blocks_of :
    (b base n : ℕ) → blocks_in b (blocks_of base n) ≡ (if base == b then n else 0)
unfolding blocks_in blocks_of
blocks_in-blocks_of b base zero = ground arith
blocks_in-blocks_of b base (suc n) = let rest = blocks_in-blocks_of b base n in ground arith

times_block-beyond : (base i b n : ℕ) → n ≤ i → times_block (b, i) (blocks_of base n) ≡ 0
unfolding times_block blocks_of
times_block-beyond base i b zero h = refl
times_block-beyond base i b (suc n) h =
    let rest = times_block-beyond base i b n (omega arith) in ground arith

pub times_block-blocks_of : (base b i n : ℕ) → times_block (b, i) (blocks_of base n) ≤ 1
unfolding times_block blocks_of
times_block-blocks_of base b i zero = omega arith
times_block-blocks_of base b i (suc n) =
    let rest = times_block-blocks_of base b i n in
    let beyond = times_block-beyond base i b n in ground arith

pub times_block-without :
    (base i c j : ℕ) (bs : List Block)
    → 0 < times_block (base, i) bs
    → times_block (c, j) bs
      ≡ (if is_block (base, i) (c, j) then 1 else 0) + times_block (c, j) (without (base, i) bs)
unfolding times_block without
times_block-without base i c j [] h = absurd (omega arith)
times_block-without base i c j ((d, k) ∷ bs) h =
    let rest = times_block-without base i c j bs in ground arith

pub blocks_in-without :
    (base i c : ℕ) (bs : List Block)
    → 0 < times_block (base, i) bs
    → blocks_in c bs ≡ (if base == c then 1 else 0) + blocks_in c (without (base, i) bs)
unfolding times_block blocks_in without
blocks_in-without base i c [] h = absurd (omega arith)
blocks_in-without base i c ((d, k) ∷ bs) h =
    let rest = blocks_in-without base i c bs in ground arith

pub times_base-without_base :
    (b c : ℕ) (bs : List ℕ)
    → 0 < times_base b bs
    → times_base c bs ≡ (if b == c then 1 else 0) + times_base c (without_base b bs)
unfolding times_base without_base
times_base-without_base b c [] h = absurd (omega arith)
times_base-without_base b c (d ∷ bs) h = let rest = times_base-without_base b c bs in ground arith

pub one-count_freed :
    (b c : ℕ) (is : List SlabInfo) → weigh (one c) (count_freed b is) ≡ weigh (one c) is
unfolding weigh count_freed
one-count_freed b c [] = refl
one-count_freed b c (i ∷ is) = let rest = one-count_freed b c is in ground arith

pub size-count_freed :
    (b c : ℕ) (is : List SlabInfo) → weigh (size c) (count_freed b is) ≡ weigh (size c) is
unfolding weigh count_freed
size-count_freed b c [] = refl
size-count_freed b c (i ∷ is) = let rest = size-count_freed b c is in ground arith

pub freed-count_freed :
    (b c : ℕ) (is : List SlabInfo)
    → 0 < weigh (size b) is
    → weigh (freed c) (count_freed b is) ≡ (if b == c then 1 else 0) + weigh (freed c) is
unfolding weigh count_freed
freed-count_freed b c [] h = absurd (omega arith)
freed-count_freed b c (i ∷ is) h = let rest = freed-count_freed b c is in ground arith

-- What a sweep keeps and what it drains, for one base: a slab is drained once, and only with as
-- many freed blocks as it has.
pub sweep-weigh :
    (rounds b : ℕ) (is : List SlabInfo)
    → (weigh (one b) (sweep rounds is).0 + times_base b (sweep rounds is).1 ≡ weigh (one b) is)
      × (weigh (size b) (sweep rounds is).0 + weigh (freed b) is
          ≡ weigh (size b) is + weigh (freed b) (sweep rounds is).0)
unfolding weigh sweep times_base
sweep-weigh zero b is = (omega arith, omega arith)
sweep-weigh (suc rounds) b [] = (refl, refl)
sweep-weigh (suc rounds) b (i ∷ is) =
    let drained = sweep-weigh rounds b (replace_by_back is) in
    let passed = sweep-weigh rounds b is in
    let base = times_base-append b (sweep rounds (replace_by_back is)).1 (i.slab_base ∷ []) in
    let ones = weigh-replace_by_back (one b) is in
    let sizes = weigh-replace_by_back (size b) is in
    let frees = weigh-replace_by_back (freed b) is in ground arith

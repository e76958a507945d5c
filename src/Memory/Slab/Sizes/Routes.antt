-- ===== src/Memory/Slab/Sizes/Routes.antt =====
-- Every size gets a block that is large enough, and a block goes back where it came from.
use mmo_server_cpp.Base.{
  ℕ, zero, suc, ◌+◌, ◌*◌, ◌/◌, ◌<◌, ◌≤◌, ◌≡◌, ◌⊎◌, inl, inr, refl, sym, ap, ◌∙◌, List, [], ◌∷◌,
  some, Bool, true, false, ◌&&◌, leb, ltb, ◌==◌, ==_iff, length, get_elem?, arith, dec_lt, lt→ltb,
  le→ltb,
}
use mmo_server_cpp.Memory.Slab.Sizes.{
  max_block_size, metadata_size, base_slab_size, convert_from, size_converter, entry_of, to_index,
  arr_size, pools_from, slab_pools, gcd, calc_slabk_size, calc_block_count_of_slab, aligned_malloc,
  slab_at, acquire_from, release_to,
}

-- A table agrees with a function from an entry on.
agrees : (ℕ → ℕ) → ℕ → List ℕ → Bool
agrees f k [] = true
agrees f k (x ∷ xs) = (x == f k) && agrees f (suc k) xs

agrees-get_elem? :
    (f : ℕ → ℕ) (k : ℕ) (xs : List ℕ) (i : ℕ)
    → agrees f k xs ≡ true
    → i < length xs
    → get_elem? xs i ≡ some (f (k + i))
unfolding agrees
agrees-get_elem? f k [] i h l = absurd (omega arith)
agrees-get_elem? f k (x ∷ xs) zero h l =
    let same = (==_iff x (f k)).0 (ground arith) in ap some (same ∙ ap f (omega arith))
agrees-get_elem? f k (x ∷ xs) (suc i) h l =
    agrees-get_elem? f (suc k) xs i (ground arith) (omega arith)
    ∙ ap (λ j. some (f j)) (omega arith)

index_at : ℕ → ℕ
index_at n = n / 32

converter-agrees : (agrees index_at 0 size_converter ≡ true) × (length size_converter ≡ 512)
unfolding agrees size_converter convert_from index_at
converter-agrees = (refl, refl)

pools-agree : (agrees (λ n. (n / 32 + 1) * 32) 0 slab_pools ≡ true) × (length slab_pools ≡ 512)
unfolding agrees slab_pools pools_from
pools-agree = (refl, refl)

to_index_lem : (n : ℕ) → n < 512 → to_index (suc n) ≡ some (n / 32)
unfolding to_index entry_of index_at
to_index_lem n h =
    let small : leb (suc n) max_block_size ≡ true = ground arith in
    let (same, len) = converter-agrees in
    rw small (
      agrees-get_elem? index_at 0 size_converter n same (omega (arith, len))
      ∙ ap (λ m. some (m / 32)) (omega arith))

-- The size of the blocks at an index.
abbrev pub block_at : ℕ → ℕ
block_at index = (index + 1) * 32

fits : ℕ → Bool
fits index =
    let block = block_at index in
    ltb 0 (calc_block_count_of_slab block)
    && (leb (calc_block_count_of_slab block * block) (calc_slabk_size block)
        && leb (calc_slabk_size block) base_slab_size)

all_below : (ℕ → Bool) → ℕ → Bool
all_below f zero = true
all_below f (suc n) = f n && all_below f n

all_below-at : (f : ℕ → Bool) (n i : ℕ) → all_below f n ≡ true → i < n → f i ≡ true
unfolding all_below
all_below-at f zero i h l = absurd (omega arith)
all_below-at f (suc n) i h l = elim (dec_lt i n) [
  | yes before ↦ all_below-at f n i (ground arith) before
  | no last ↦ let here : n ≡ i = omega arith in ap f (sym here) ∙ ground arith
]

all_fit : all_below fits 16 ≡ true
unfolding all_below fits calc_block_count_of_slab calc_slabk_size gcd
all_fit = refl

-- The slab of an index has at least one block, and its blocks lie within it.
abbrev pub IsRoomy : ℕ → Type 0
IsRoomy block =
    (0 < calc_block_count_of_slab block)
    × (calc_block_count_of_slab block * block ≤ calc_slabk_size block)
    × (calc_slabk_size block ≤ base_slab_size)

fits-IsRoomy : (index : ℕ) → index < 16 → IsRoomy (block_at index)
unfolding fits
fits-IsRoomy index h =
    let fit = all_below-at fits 16 index all_fit h in (ground arith, ground arith, ground arith)

sizes-agree : (agrees block_at 0 arr_size ≡ true) × (length arr_size ≡ 16)
unfolding agrees
sizes-agree = (refl, refl)

slab_pools_lem : (n : ℕ) → n < 512 → entry_of slab_pools (suc n) ≡ some ((n / 32 + 1) * 32)
unfolding entry_of
slab_pools_lem n h =
    let (same, len) = pools-agree in
    agrees-get_elem? (λ n. (n / 32 + 1) * 32) 0 slab_pools n same (omega (arith, len))
    ∙ ap (λ m. some ((m / 32 + 1) * 32)) (omega arith)

-- Memory that is too large for slabs is allocated by itself and released as such.
abbrev pub IsLarge : ℕ → Type 0
IsLarge size =
    (acquire_from size ≡ some (aligned_malloc (size + 128)))
    × (release_to (size + 128) ≡ some (aligned_malloc (size + 128)))

-- Other memory comes from the slabs at an index, whose blocks have room for it and its header and
-- waste less than 32 bytes, which the pool of their size refills, and to which they go back.
abbrev pub IsServed : ℕ → ℕ → Type 0
IsServed size index =
    (acquire_from size ≡ some (slab_at index))
    × (get_elem? arr_size index ≡ some (block_at index))
    × (size + metadata_size ≤ block_at index)
    × (block_at index < size + metadata_size + 32)
    × (entry_of slab_pools (block_at index) ≡ some (block_at index))
    × (release_to (block_at index) ≡ some (slab_at index))
    × IsRoomy (block_at index)

served : (size : ℕ) → size ≤ 448 → IsServed size ((size + 63) / 32)
unfolding acquire_from release_to
served size h =
    let index = (size + 63) / 32 in
    let (same, len) = sizes-agree in
    let fit : ltb max_block_size (size + metadata_size) ≡ false =
      le→ltb 512 (size + 64) (omega arith) in
    let fit' : ltb max_block_size (block_at index) ≡ false =
      le→ltb 512 (block_at index) (omega arith) in
    let some_bytes : leb (block_at index) 0 ≡ false = ground arith in
    let there : to_index (size + 64) ≡ some index =
      ap to_index (omega arith) ∙ to_index_lem (size + 63) (omega arith) in
    let back : to_index (block_at index) ≡ some index =
      ap to_index (omega arith)
      ∙ to_index_lem (index * 32 + 31) (omega arith)
      ∙ ap some (omega arith) in
    (
      rw (fit, there) refl,
      agrees-get_elem? block_at 0 arr_size index same (omega (arith, len))
          ∙ ap (λ m. some (block_at m)) (omega arith),
      omega arith,
      omega arith,
      ap (entry_of slab_pools) (omega arith)
          ∙ slab_pools_lem (index * 32 + 31) (omega arith)
          ∙ ap some (omega arith),
      rw (some_bytes, fit', back) refl,
      fits-IsRoomy index (omega arith),
    )

-- Whatever size is acquired: above 448 bytes it is allocated by itself, with room for two headers,
-- and released as such. Up to that it comes from the slabs of an index: their blocks hold it with
-- its header and waste less than 32 bytes, the pool of just this size refills them, a released
-- block is counted at the same index, and each slab has at least one block and all its blocks
-- within its size, of 16384 bytes at most.
pub acquire_from_lem :
    (size : ℕ)
    → ((448 < size) × IsLarge size) ⊎ ((size ≤ 448) × ((index : ℕ) × IsServed size index))
unfolding acquire_from release_to
acquire_from_lem size = elim (dec_lt 448 size) [
  | yes large ↦
      let big : ltb max_block_size (size + metadata_size) ≡ true =
        lt→ltb 512 (size + 64) (omega arith) in
      let big' : ltb max_block_size (size + 128) ≡ true = lt→ltb 512 (size + 128) (omega arith) in
      let some_bytes : leb (size + 128) 0 ≡ false = ground arith in
      inl (
        large,
        (rw big (ap (λ n. some (aligned_malloc n)) (omega arith)), rw (some_bytes, big') refl),
      )
  | no small ↦ inr (omega arith, ((size + 63) / 32, served size (omega arith)))
]

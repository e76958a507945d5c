-- ===== src/Memory/PoolManager/Table.antt =====
-- Every size that the pools serve has a pool that is large enough and not much larger.
use mmo_server_cpp.Base.{
  ℕ, zero, suc, ◌+◌, ◌-◌, ◌<◌, ◌≤◌, ◌≡◌, refl, ap, ◌∙◌, List, [], ◌∷◌, ◌++◌, some, length,
  replicate, get_elem?, arith, length-append, length-replicate, dec_lt, inl, inr, ◌⊎◌, le→ltb,
  lt→ltb,
}
use mmo_server_cpp.Memory.PoolManager.{
  pool_sizes, fill_table, pool_table, heap, pool, source_of, allocate,
}

-- The sizes ascend from `from` by 128 at most.
abbrev pub Steps : ℕ → List ℕ → Type 0
Steps from [] = Unit {0}
Steps from (size ∷ sizes) = (from < size) × (size ≤ from + 128) × Steps size sizes

abbrev pub last_of : ℕ → List ℕ → ℕ
last_of from [] = from
last_of from (size ∷ sizes) = last_of size sizes

-- Each entry serves its size, and wastes less than 128 bytes.
abbrev pub IsServing : List ℕ → Type 0
IsServing table = (i s : ℕ) → get_elem? table i ≡ some s → (i < s) × (s ≤ i + 128)

get_elem?-replicate-some :
    (n i a : ℕ) {s : ℕ} → get_elem? (replicate n a) i ≡ some s → (i < n) × (s ≡ a)
get_elem?-replicate-some zero i a e = cc
get_elem?-replicate-some (suc n) zero a e = (omega arith, cc)
get_elem?-replicate-some (suc n) (suc i) a e =
    let (h, q) = get_elem?-replicate-some n i a e in (omega arith, q)

get_elem?-append :
    (xs ys : List ℕ) (i : ℕ) {s : ℕ}
    → get_elem? (xs ++ ys) i ≡ some s
    → (get_elem? xs i ≡ some s) ⊎ ((j : ℕ) × (i ≡ length xs + j) × (get_elem? ys j ≡ some s))
get_elem?-append [] ys i e = inr (i, omega arith, e)
get_elem?-append (x ∷ xs) ys zero e = inl e
get_elem?-append (x ∷ xs) ys (suc i) e = elim (get_elem?-append xs ys i e) [
  | inl h ↦ inl h
  | inr (j, p, h) ↦ inr (j, omega arith, h)
]

grow-IsServing :
    (table : List ℕ) (size : ℕ)
    → IsServing table
    → size ≤ length table + 128
    → IsServing (table ++ replicate (size - length table) size)
grow-IsServing table size v h i s e = elim (get_elem?-append table _ i e) [
  | inl old ↦ v i s old
  | inr (j, p, new) ↦
      let (q, r) = get_elem?-replicate-some (size - length table) j size new in
      (omega arith, omega arith)
]

length-grow :
    (table : List ℕ) (size : ℕ)
    → length table < size
    → length (table ++ replicate (size - length table) size) ≡ size
length-grow table size h = omega (
  arith,
  length-append table (replicate (size - length table) size),
  length-replicate (size - length table) size,
)

fill_table-IsServing :
    (sizes table : List ℕ)
    → Steps (length table) sizes
    → IsServing table
    → IsServing (fill_table table sizes)
      × (length (fill_table table sizes) ≡ last_of (length table) sizes)
unfolding fill_table
fill_table-IsServing [] table h v = (v, refl)
fill_table-IsServing (size ∷ sizes) table h v =
    let n = length-grow table size h.0 in
    let (w, m) =
      fill_table-IsServing sizes (table ++ replicate (size - length table) size) (rw n h.2)
        (grow-IsServing table size v h.1) in
    (w, m ∙ ap (λ k. last_of k sizes) n)

pool_sizes-Steps : Steps 0 pool_sizes × (last_of 0 pool_sizes ≡ 4096)
unfolding pool_sizes
pool_sizes-Steps = (omega arith, refl)

pool_table-IsServing : IsServing pool_table × (length pool_table ≡ 4096)
unfolding pool_table
pool_table-IsServing =
    let (v, n) = fill_table-IsServing pool_sizes [] pool_sizes-Steps.0 (λ i s e. cc) in
    (v, n ∙ pool_sizes-Steps.1)

entry : (n : ℕ) → n < length pool_table → (s : ℕ) × (get_elem? pool_table n ≡ some s)
entry n h = within pool_table n h
  where
    within : (xs : List ℕ) (n : ℕ) → n < length xs → (s : ℕ) × (get_elem? xs n ≡ some s)
    within [] n h = absurd (omega arith)
    within (x ∷ xs) zero h = (x, refl)
    within (x ∷ xs) (suc n) h = within xs n (omega arith)

-- An allocation with its header is served by a pool of blocks that are large enough and waste less
-- than 128 bytes, up to 4096 bytes, and above that by the heap.
pub allocate_lem :
    (header size : ℕ)
    → 0 < size + header
    → ((4096 < size + header) × (allocate header size ≡ some heap))
      ⊎ ((size + header ≤ 4096)
          × ((s : ℕ) × (allocate header size ≡ some (pool s))
              × (size + header ≤ s)
              × (s < size + header + 128)))
unfolding allocate
allocate_lem header size h = serve (size + header) h
  where
    serve :
        (n : ℕ)
        → 0 < n
        → ((4096 < n) × (source_of n ≡ some heap))
          ⊎ ((n ≤ 4096) × ((s : ℕ) × (source_of n ≡ some (pool s)) × (n ≤ s) × (s < n + 128)))
    serve zero h = absurd (omega arith)
    serve (suc n) h = elim (dec_lt 4096 (suc n)) [
      | yes large ↦ inl (large, rw (lt→ltb 4096 (suc n) large) refl)
      | no small ↦
          let (v, len) = pool_table-IsServing in
          let (s, e) = entry n (omega (arith, len)) in
          let (lo, hi) = v n s e in
          inr (
            omega arith,
            (s, rw (le→ltb 4096 (suc n) (omega arith), e) refl, omega arith, omega arith),
          )
    ]

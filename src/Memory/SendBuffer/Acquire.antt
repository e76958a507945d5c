-- ===== src/Memory/SendBuffer/Acquire.antt =====
-- `Acquire` returns a buffer of the size asked for whenever a chunk can hold it.
use mmo_server_cpp.Base.{
  ℕ, ◌≤◌, ◌≡◌, refl, sym, subst, ◌∙◌, List, [], ◌∷◌, Option, none, some, ltb, arith, inl, inr,
  Bool-cases, le→ltb,
}
use mmo_server_cpp.Memory.SendBuffer.{
  SendBuffer, Chunk, Manager, install, retire, retire_old, replace, free_size, chunk_size, acquired,
  acquire_in, with_chunk, with_room, acquire,
}

-- The current chunk is there, with `n` bytes free.
record HasRoom (m : Manager) (n : ℕ) : Type 0 where
  chunk : Chunk
  current : m.current ≡ some chunk
  room : n ≤ free_size chunk

retire_current : (m : Manager) (k : ℕ) → (retire m k).current ≡ m.current
unfolding retire
retire_current m k = ground arith

retire_old_current : (m : Manager) (o : Option Chunk) → (retire_old m o).current ≡ m.current
unfolding retire_old
retire_old_current m none = refl
retire_old_current m (some c) = retire_current m c.id

install-HasRoom : (m : Manager) (s : List ℕ) → HasRoom (install m s) chunk_size
unfolding install
install-HasRoom m [] = record { chunk = _; current = refl; room = omega arith }
install-HasRoom m (x ∷ xs) = record { chunk = _; current = refl; room = omega arith }

replace-HasRoom : (m : Manager) (n : ℕ) → n ≤ chunk_size → HasRoom (replace m) n
unfolding replace
replace-HasRoom m n h =
    let i = install-HasRoom m m.stock in
    record {
      chunk = i.chunk;
      current = retire_old_current (install m m.stock) m.current ∙ i.current;
      room = omega (arith, i.room);
    }

with_chunk-HasRoom : (m : Manager) (o : Option Chunk) → m.current ≡ o → HasRoom (with_chunk m o) 0
unfolding with_chunk
with_chunk-HasRoom m none e = replace-HasRoom m 0 (omega arith)
with_chunk-HasRoom m (some c) e = record { chunk = c; current = e; room = omega arith }

with_room-HasRoom :
    (m : Manager) (c : Chunk) (n : ℕ)
    → m.current ≡ some c
    → n ≤ chunk_size
    → HasRoom (with_room m (some c) n) n
unfolding with_room
with_room-HasRoom m c n e h = elim (Bool-cases (ltb (free_size c) n)) [
  | inl full ↦ rw full (replace-HasRoom m n h)
  | inr room ↦ rw room (record { chunk = c; current = e; room = ground arith })
]

acquire_in_lem :
    (m : Manager) (o : Option Chunk) (c : Chunk) (n : ℕ)
    → o ≡ some c
    → n ≤ free_size c
    → (b : SendBuffer) × ((acquire_in m o n).1 ≡ acquired b)
      × (b.alloc_size ≡ n)
      × ((acquire_in m o n).0.live ≡ b ∷ m.live)
unfolding acquire_in
acquire_in_lem m none c n e h = cc
acquire_in_lem m (some d) c n e h =
    let same : d ≡ c = cc in
    let fits : n ≤ free_size d = subst (λ z. n ≤ free_size z) (sym same) h in
    (
      record { owner_chunk = d.id; start = d.used_size; alloc_size = n },
      rw (le→ltb chunk_size n (omega arith), le→ltb (free_size d) n fits) refl,
      refl,
      rw (le→ltb chunk_size n (omega arith), le→ltb (free_size d) n fits) refl,
    )

-- Whatever state the manager is in, `Acquire` of at most 0x3000 bytes returns a buffer of exactly
-- that size, which is in use from then on; it never returns `nullptr`.
pub acquire_lem :
    (m : Manager) (size : ℕ)
    → size ≤ chunk_size
    → (b : SendBuffer) × ((acquire m size).1 ≡ acquired b)
      × (b.alloc_size ≡ size)
      × ((rest : List SendBuffer) × ((acquire m size).0.live ≡ b ∷ rest))
unfolding acquire
acquire_lem m size h =
    let m1 = with_chunk m m.current in
    let r1 = with_chunk-HasRoom m m.current refl in
    let r2 : HasRoom (with_room m1 m1.current size) size =
      rw r1.current (with_room-HasRoom m1 r1.chunk size r1.current h) in
    let m2 = with_room m1 m1.current size in
    let (b, e, n, l) = acquire_in_lem m2 m2.current r2.chunk size r2.current r2.room in
    (b, e, n, (m2.live, l))
